-- ===== src/Mycnf/Forced.antt =====
-- The options that are forced (pkg/mycnf/generator.go).
use text.Mathlib.TextEquality.{eq_iff}
use moco.Prelude.{
  ℕ, String, ◌==◌, ◌≡◌, refl, ap, ◌∙◌, Bool, true, false, not, ◌&&◌, ◌||◌, Option, none, some, [],
  ◌∷◌, if◌then◌else◌, All, &&_true, not-true, ||_false,
}
use moco.Prelude.Dict.{Dict, lookup, lookup-insert, lookup-erase}
use moco.Mycnf.{
  normalize_conf_key, base_of, loose_of, normalized, put, put_all, merge_section, mysqld_conf,
  mysqld_section,
}
use moco.Mycnf.Tables.{const_mysqld}

-- No variation of the option `k'` is the key `k`.
abbrev misses : String → String → Bool
misses k' k = not ((k' == k) || ((loose_of k' == k) || (base_of k' == k)))

abbrev apart : String → String → Bool
apart k k' = misses k' (base_of k) && misses k' (loose_of k)

abbrev apart_all : String → Dict String → Bool
apart_all k [] = true
apart_all k (e ∷ rest) = apart k (normalize_conf_key e.0) && apart_all k rest

-- The options of a section do not replace each other.
abbrev pub all_apart : Dict String → Bool
all_apart [] = true
all_apart (e ∷ rest) = apart_all (normalize_conf_key e.0) rest && all_apart rest

-- The option has the value, and its other variation is not set.
abbrev pub IsForced : Dict String → String → String → Type 0
IsForced conf nk v =
    (lookup (base_of nk) conf ≡ (if nk == base_of nk then some v else none))
    × (lookup (loose_of nk) conf ≡ (if nk == loose_of nk then some v else none))

lookup-put :
    (k nk v : String) (conf : Dict String)
    → lookup k (put nk v conf) ≡ (
        if nk == k
        then some v
        else if loose_of nk == k
        then none
        else if base_of nk == k
        then none
        else lookup k conf)
unfolding put
lookup-put k nk v conf =
    lookup-insert k nk v _
    ∙ ap (λ o. if nk == k then some v else o)
        (lookup-erase k (loose_of nk) _
          ∙ ap (λ o. if loose_of nk == k then none else o) (lookup-erase k (base_of nk) conf))

put-misses :
    (k nk v : String) (conf : Dict String)
    → misses nk k ≡ true
    → lookup k (put nk v conf) ≡ lookup k conf
put-misses k nk v conf h =
    let (a, h1) = ||_false (nk == k) _ (not-true _ h) in
    let (b, c) = ||_false (loose_of nk == k) _ h1 in lookup-put k nk v conf ∙ (rw (a, b, c) refl)

same_key : (s : String) → (s == s) ≡ true
same_key s = (eq_iff s s).1 refl

either : (b : Bool) (o : Option String) {p : Option String} → p ≡ o → (if b then p else o) ≡ o
either true o e = e
either false o e = refl

put-IsForced : (nk v : String) (conf : Dict String) → IsForced (put nk v conf) nk v
put-IsForced nk v conf = (
  lookup-put (base_of nk) nk v conf
      ∙ rw (same_key (base_of nk)) (
          ap (λ o. if nk == base_of nk then some v else o)
            (either (loose_of nk == base_of nk) none refl)),
  lookup-put (loose_of nk) nk v conf ∙ rw (same_key (loose_of nk)) refl,
)

put_all-IsForced :
    (l : Dict String) (nk v : String) (conf : Dict String)
    → apart_all nk l ≡ true
    → IsForced conf nk v
    → IsForced (put_all conf l) nk v
unfolding put_all
put_all-IsForced [] nk v conf h f = f
put_all-IsForced (e ∷ rest) nk v conf h f =
    let k' = normalize_conf_key e.0 in
    let (a, h') = &&_true (apart nk k') _ h in
    let (b, c) = &&_true (misses k' (base_of nk)) _ a in
    put_all-IsForced rest nk v (put k' e.1 conf) h'
      (put-misses (base_of nk) k' e.1 conf b ∙ f.0, put-misses (loose_of nk) k' e.1 conf c ∙ f.1)

put_all_forces :
    (l : Dict String) (conf : Dict String)
    → all_apart l ≡ true
    → All (λ e. IsForced (put_all conf l) (normalize_conf_key e.0) e.1) l
unfolding put_all
put_all_forces [] conf h = tt
put_all_forces (e ∷ rest) conf h =
    let k = normalize_conf_key e.0 in
    let (a, b) = &&_true (apart_all k rest) _ h in
    (
      put_all-IsForced rest k e.1 (put k e.1 conf) a (put-IsForced k e.1 conf),
      put_all_forces rest (put k e.1 conf) b,
    )

const_apart : all_apart const_mysqld ≡ true
unfolding const_mysqld normalize_conf_key base_of
const_apart = refl

-- Whatever map of options a user configures, among the options of the section mysqld that the
-- generator computes, each one that MOCO forces has the forced value, and its other variation, with
-- or without the prefix loose_, is not set. The user's text under `_include`, which is printed as it
-- is ahead of the options, is not looked at.
pub mysqld_section_forces :
    (user_conf : Dict String) (mem_total : ℕ)
    → All
        (λ e. IsForced (mysqld_section user_conf mem_total) (normalize_conf_key e.0) e.1)
        const_mysqld
unfolding mysqld_section merge_section
mysqld_section_forces user_conf mem_total =
    put_all_forces const_mysqld (normalized [] (mysqld_conf user_conf mem_total)) const_apart
