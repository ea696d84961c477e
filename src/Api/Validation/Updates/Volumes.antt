-- ===== src/Api/Validation/Updates/Volumes.antt =====
-- What the tests of the sizes and the storage classes of claims say
-- (api/v1beta2/mysqlcluster_types.go).
use text.Mathlib.TextEquality.{eq_iff}
use moco.Prelude.{
  String, ◌≡◌, ◌↔◌, refl, Bool, true, false, Option, none, some, List, [], ◌∷◌, if◌then◌else◌,
  Bool-cases, inl, inr, ◌||◌, ◌⊎◌, ◌≢◌, ◌==◌, ap, sym, subst,
}
use moco.Prelude.Int.{ℤ, pos}
use moco.Prelude.Dict.{value_of}
use moco.Effects.{Reply, value, failure}
use moco.Api.Validation.{ClaimTemplate}
use moco.Api.Validation.Last.{IsLast, later_or, find_last, find_last_iff}
use moco.Api.Validation.Updates.{
  StorageClass, get_default_storage_class, old_claim, storage_size, flat, first_default,
  is_default_storage_class,
}

-- The size that a claim requests; without a request it is 0.
abbrev pub HasSize : ClaimTemplate → ℤ → Type 0
HasSize pvc n =
    (pvc.requests ≡ some (some n)) ⊎ (((k : ℤ) → pvc.requests ≢ some (some k)) × (n ≡ pos 0))

-- A storage class that is marked as the default.
abbrev pub IsDefault : StorageClass → Type 0
IsDefault sc =
    (value_of "storageclass.kubernetes.io/is-default-class" sc.annotations ≡ "true")
    ⊎ (value_of "storageclass.beta.kubernetes.io/is-default-class" sc.annotations ≡ "true")

abbrev pub IsFirst : {A : Type 0} → (A → Type 0) → List A → A → Type 0
IsFirst P [] a = ⊥
IsFirst P (x ∷ xs) a = ((x ≡ a) × P a) ⊎ ((P x → ⊥) × IsFirst P xs a)

pub HasSize-storage_size : (pvc : ClaimTemplate) (n : ℤ) → HasSize pvc n → n ≡ storage_size pvc
unfolding storage_size
HasSize-storage_size pvc n h = flat_size pvc.requests h
  where
    flat_size :
        (o : Option (Option ℤ))
        → (o ≡ some (some n)) ⊎ (((k : ℤ) → o ≢ some (some k)) × (n ≡ pos 0))
        → n ≡ flat o
    flat_size none h = elim h [ inl e ↦ cc | inr e ↦ e.1 ]
    flat_size (some none) h = elim h [ inl e ↦ cc | inr e ↦ e.1 ]
    flat_size (some (some k)) h = elim h [ inl e ↦ cc | inr e ↦ absurd (e.0 k refl) ]

pub storage_size-HasSize : (pvc : ClaimTemplate) → HasSize pvc (storage_size pvc)
unfolding storage_size
storage_size-HasSize pvc = flat_size pvc.requests
  where
    flat_size :
        (o : Option (Option ℤ))
        → (o ≡ some (some (flat o))) ⊎ (((k : ℤ) → o ≢ some (some k)) × (flat o ≡ pos 0))
    flat_size none = inr (λ k e. cc, refl)
    flat_size (some none) = inr (λ k e. cc, refl)
    flat_size (some (some k)) = inl refl

IsDefault-iff : (sc : StorageClass) → (is_default_storage_class sc ≡ true) ↔ IsDefault sc
unfolding is_default_storage_class
IsDefault-iff sc = either_iff _ _ (eq_iff _ "true") (eq_iff _ "true")
  where
    either_iff :
        (a b : Bool) {A B : Type 0}
        → ((a ≡ true) ↔ A)
        → ((b ≡ true) ↔ B)
        → (((a || b) ≡ true) ↔ (A ⊎ B))
    either_iff true b f g = (λ e. inl (f.0 refl), λ h. refl)
    either_iff false b f g =
        (λ e. inr (g.0 e), λ h. elim h [ inl x ↦ (let k = f.1 x in cc) | inr y ↦ g.1 y ])

first_default_iff :
    (scs : List StorageClass) (sc : StorageClass)
    → (first_default scs ≡ some sc) ↔ IsFirst IsDefault scs sc
unfolding first_default
first_default_iff [] sc = (λ e. cc, λ h. elim h [ ])
first_default_iff (x ∷ rest) sc = elim (Bool-cases (is_default_storage_class x)) [
  | inl t ↦ rw t (
    λ e. let q : x ≡ sc = cc in inl (q, subst IsDefault q ((IsDefault-iff x).0 t)),
    λ h. elim h [ inl p ↦ ap some p.0 | inr p ↦ absurd (p.0 ((IsDefault-iff x).0 t)) ],
  )
  | inr f ↦ rw f (
    λ e. inr (λ d. (let k = (IsDefault-iff x).1 d in cc), (first_default_iff rest sc).0 e),
    λ h. elim h [
      | inl p ↦ (let k = (IsDefault-iff x).1 (subst IsDefault (sym p.0) p.1) in cc)
      | inr p ↦ (first_default_iff rest sc).1 p.1
    ],
  )
]

pub IsDefault-class_iff :
    (r : Reply (List StorageClass)) (sc : StorageClass)
    → (get_default_storage_class r ≡ some sc)
      ↔ ((scs : List StorageClass) × (r ≡ value scs) × IsFirst IsDefault scs sc)
unfolding get_default_storage_class
IsDefault-class_iff (failure e) sc = (λ x. cc, λ h. let k = h.1 in cc)
IsDefault-class_iff (value scs) sc = (
  λ x. (scs, refl, (first_default_iff scs sc).0 x),
  λ h. let q : h.0 ≡ scs = (let k = h.1 in cc) in (first_default_iff scs sc).1 (rw q at (h.2)),
)

named_iff : (name : String) (c : ClaimTemplate) → ((c.name == name) ≡ true) ↔ (c.name ≡ name)
named_iff name c = eq_iff c.name name

same_end :
    (name : String) (x : ClaimTemplate) (o : Option ClaimTemplate)
    → (elim o [ none ↦ if x.name == name then some x else none | some p ↦ some p ])
      ≡ later_or (λ c. c.name == name) o x
same_end name x none = refl
same_end name x (some p) = refl

old_claim-find_last :
    (name : String) (l : List ClaimTemplate) → old_claim name l ≡ find_last (λ c. c.name == name) l
unfolding old_claim find_last
old_claim-find_last name [] = refl
old_claim-find_last name (x ∷ rest) =
    rw (old_claim-find_last name rest) (same_end name x (find_last (λ c. c.name == name) rest))

pub old_claim_iff :
    (name : String) (l : List ClaimTemplate) (c : ClaimTemplate)
    → (old_claim name l ≡ some c) ↔ IsLast (λ d. d.name ≡ name) l c
old_claim_iff name l c =
    rw (old_claim-find_last name l)
      (find_last_iff (λ d. d.name == name) (λ d. d.name ≡ name) (named_iff name) l c)
