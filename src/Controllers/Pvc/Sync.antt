-- ===== src/Controllers/Pvc/Sync.antt =====
-- The labels and annotations that a claim takes over from its template (controllers/pvc.go).
use text.Mathlib.TextEquality.{eq_iff}
use moco.Prelude.{
  String, ◌≡◌, refl, ap, sym, ◌∙◌, ◌==◌, Bool, true, false, Option, none, some, List, [], ◌∷◌,
  Outcome, ok, panic, if◌then◌else◌, get_or, Bool-cases, inl, inr, ◌⊎◌, ◌≢◌,
}
use moco.Prelude.Dict.{Dict, lookup, insert, value_of, has_text, lookup-insert}
use moco.Api.Claim.{Claim}
use moco.Controllers.Pvc.{VolumeTemplate, PvcEnv, sync_values, sync_key, synced}

-- The value that a key is to have: that of the template, if it is one of the keys and the template
-- has it, or else the one that it had.
abbrev pub wanted : List String → Dict String → Dict String → String → String
wanted keys template d k =
    if has_text k keys then get_or (value_of k d) (lookup k template) else value_of k d

abbrev one_wanted : String → Option String → Dict String → String → String
one_wanted key o d k = if key == k then get_or (value_of k d) o else value_of k d

value_of-insert :
    (key v : String) (d : Dict String) (k : String)
    → value_of k (insert key v d) ≡ (if key == k then v else value_of k d)
value_of-insert key v d k = elim (Bool-cases (key == k)) [
  | inl t ↦ rw t (ap (get_or "") (rw t at (lookup-insert k key v d)))
  | inr f ↦ rw f (ap (get_or "") (rw f at (lookup-insert k key v d)))
]

same_wanted :
    (key : String) (o : Option String) (d : Dict String)
    → get_or (value_of key d) o ≡ value_of key d
    → (k : String) → value_of k d ≡ one_wanted key o d k
same_wanted key o d e k = elim (Bool-cases (key == k)) [
  | inl t ↦ let q = (eq_iff key k).0 t in rw t (rw q at (sym e))
  | inr f ↦ rw f refl
]

-- Some key does not have its value yet.
abbrev pub Differs : Dict String → (String → String) → Type 0
Differs d f = (k : String) × (f k ≢ value_of k d)

-- What a synchronisation of the map `d` returns: a map with the values `f`, and whether it is another
-- one.
abbrev Synced :
    Outcome (Option (Dict String) × Bool) → Dict String → Bool → (String → String) → Type 0
Synced m d c f =
    (d' : Dict String) × (c' : Bool) × (m ≡ ok (some d', c'))
    × ((k : String) → value_of k d' ≡ f k)
    × (c' ≡ false → (c ≡ false) × (d' ≡ d))
    × (c' ≡ true → (c ≡ true) ⊎ Differs d f)

set_differs :
    (key v : String) (d : Dict String)
    → (value_of key d == v) ≡ false
    → one_wanted key (some v) d key ≢ value_of key d
set_differs key v d ne e =
    let t = (eq_iff key key).1 refl in
    let q : v ≡ value_of key d = rw t at e in let y = (eq_iff (value_of key d) v).1 (sym q) in cc

sync_key_lem :
    (key : String) (o : Option String) (d : Dict String) (c : Bool)
    → Synced (sync_key key o (some d, c)) d c (one_wanted key o d)
sync_key_lem key none d c = (d, c, refl, same_wanted key none d refl, λ e. (e, refl), λ e. inl e)
sync_key_lem key (some v) d c = elim (Bool-cases (value_of key d == v)) [
  | inl t ↦
      rw t (
        d,
        c,
        refl,
        same_wanted key (some v) d (sym ((eq_iff _ v).0 t)),
        λ e. (e, refl),
        λ e. inl e,
      )
  | inr f ↦ rw f (
    insert key v d,
    true,
    refl,
    value_of-insert key v d,
    λ e. cc,
    λ e. inr (key, set_differs key v d f),
  )
]

get_or_twice : (x : String) (o : Option String) → get_or (get_or x o) o ≡ get_or x o
get_or_twice x none = refl
get_or_twice x (some v) = refl

wanted_step :
    (key : String) (rest : List String) (template d d1 : Dict String) (k : String)
    → value_of k d1 ≡ one_wanted key (lookup key template) d k
    → wanted rest template d1 k ≡ wanted (key ∷ rest) template d k
unfolding has_text
wanted_step key rest template d d1 k h = elim (Bool-cases (key == k)) [
  | inl t ↦
      let q = (eq_iff key k).0 t in
      let h1 : value_of k d1 ≡ get_or (value_of k d) (lookup key template) = rw t at h in
      let h2 = h1 ∙ ap (λ x. get_or (value_of k d) (lookup x template)) q in
      rw t (elim (Bool-cases (has_text k rest)) [
        | inl x ↦ rw x (
            ap (λ y. get_or y (lookup k template)) h2
            ∙ get_or_twice (value_of k d) (lookup k template))
        | inr x ↦ rw x h2
      ])
  | inr f ↦
      let h1 : value_of k d1 ≡ value_of k d = rw f at h in
      rw f (ap (λ y. if has_text k rest then get_or y (lookup k template) else y) h1)
]

-- A difference that the first key leaves or makes is one from the start.
Differs-step :
    (key : String) (rest : List String) (template d d1 : Dict String)
    → ((k : String) → value_of k d1 ≡ one_wanted key (lookup key template) d k)
    → Differs d1 (wanted rest template d1)
    → Differs d (wanted (key ∷ rest) template d)
unfolding has_text
Differs-step key rest template d d1 v (k, ne) = (
  k,
  λ e. elim (Bool-cases (key == k)) [
    | inl t ↦
        let q = (eq_iff key k).0 t in
        let h1 : value_of k d1 ≡ get_or (value_of k d) (lookup key template) = rw t at (v k) in
        let h2 = h1 ∙ ap (λ x. get_or (value_of k d) (lookup x template)) q in
        let w : wanted rest template d1 k ≡ get_or (value_of k d) (lookup k template) =
          rw t at (wanted_step key rest template d d1 k (v k)) in
        ne (w ∙ sym h2)
    | inr f ↦
        let h1 : value_of k d1 ≡ value_of k d = rw f at (v k) in
        ne (wanted_step key rest template d d1 k (v k) ∙ e ∙ sym h1)
  ],
)

Differs-head :
    (key : String) (rest : List String) (template d : Dict String)
    → Differs d (one_wanted key (lookup key template) d)
    → Differs d (wanted (key ∷ rest) template d)
unfolding has_text
Differs-head key rest template d (k, ne) = (
  k,
  λ e. elim (Bool-cases (key == k)) [
    | inl t ↦
        let q = (eq_iff key k).0 t in
        let e' : get_or (value_of k d) (lookup k template) ≡ value_of k d = rw t at e in
        let n : get_or (value_of k d) (lookup key template) ≢ value_of k d = rw t at ne in
        n (ap (λ x. get_or (value_of k d) (lookup x template)) q ∙ e')
    | inr f ↦ let n : value_of k d ≢ value_of k d = rw f at ne in n refl
  ],
)

sync_values_lem :
    (keys : List String) (template d : Dict String) (c : Bool)
    → Synced (sync_values keys template (some d, c)) d c (wanted keys template d)
unfolding sync_values has_text
sync_values_lem [] template d c = (d, c, refl, λ k. refl, λ e. (e, refl), λ e. inl e)
sync_values_lem (key ∷ rest) template d c =
    let (d1, c1, e, v, same, new) = sync_key_lem key (lookup key template) d c in
    let (d2, c2, e', v', same', new') = sync_values_lem rest template d1 c1 in
    (
      d2,
      c2,
      rw e e',
      λ k. v' k ∙ wanted_step key rest template d d1 k (v k),
      λ x. let (y, z) = same' x in let (y', z') = same y in (y', z ∙ z'),
      λ x. elim (new' x) [
        | inl y ↦ elim (new y) [ inl z ↦ inl z | inr z ↦ inr (Differs-head key rest template d z) ]
        | inr z ↦ inr (Differs-step key rest template d d1 v z)
      ],
    )

module _ (env : PvcEnv) (t : VolumeTemplate) where
  -- If an annotation that is to be synchronised first has a value in the template, and the claim has
  -- no annotations, the synchronisation panics by a write to a nil map.
  pub synced_panics :
      (pvc : Claim) (labels : Dict String) (key v : String) (keys : List String)
      → pvc.labels ≡ some labels
      → pvc.annotations ≡ none
      → env.annotation_keys ≡ key ∷ keys
      → lookup key t.annotations ≡ some v
      → ("" == v) ≡ false
      → synced env t pvc ≡ panic
  unfolding synced sync_values lookup
  synced_panics pvc labels key v keys el ea ek et ne =
      let (l, cl, e, h, same, new) = sync_values_lem env.label_keys t.labels labels false in
      rw (el, e, ea, ek, et, ne) refl
