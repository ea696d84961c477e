-- ===== src/Api/Validation/Last.antt =====
-- The last element of a list with a property, which is what a loop that overwrites a variable finds
-- (api/v1beta2/mysqlcluster_types.go).
use moco.Prelude.{
  ℕ, zero, suc, ◌<◌, ◌≡◌, refl, ap, subst, arith, ◌↔◌, ◌⊎◌, inl, inr, Bool, true, false, Option,
  none, some, List, [], ◌∷◌, get_elem?, Bool-cases, if◌then◌else◌,
}

-- It stands at some index, and none behind it has the property.
abbrev pub IsLast : {A : Type 0} → (A → Type 0) → List A → A → Type 0
IsLast {A = A} P xs a =
    (i : ℕ) × (get_elem? xs i ≡ some a)
    × P a
    × ((j : ℕ) (b : A) → i < j → get_elem? xs j ≡ some b → P b → ⊥)

module _ {A : Type 0} (test : A → Bool) where
  abbrev pub later_or : Option A → A → Option A
  later_or (some m) a = some m
  later_or none a = if test a then some a else none

  unfoldable pub find_last : List A → Option A
  find_last [] = none
  find_last (x ∷ rest) = later_or (find_last rest) x

  later_or-none : (o : Option A) (a : A) → later_or o a ≡ none → (o ≡ none) × (test a ≡ false)
  later_or-none (some m) a e = cc
  later_or-none none a e = elim (Bool-cases (test a)) [
    | inl t ↦ let k : some a ≡ none = rw t at e in cc
    | inr f ↦ (refl, f)
  ]

  later_or-some :
      (o : Option A) (a m : A)
      → later_or o a ≡ some m
      → (o ≡ some m) ⊎ ((o ≡ none) × (a ≡ m) × (test a ≡ true))
  later_or-some (some x) a m e = inl e
  later_or-some none a m e = elim (Bool-cases (test a)) [
    | inl t ↦ let k : some a ≡ some m = rw t at e in inr (refl, cc, t)
    | inr f ↦ let k : none ≡ some m = rw f at e in cc
  ]

  module _ (P : A → Type 0) (iff : (a : A) → (test a ≡ true) ↔ P a) where
    abbrev IsAbsent : List A → Type 0
    IsAbsent xs = (j : ℕ) (b : A) → get_elem? xs j ≡ some b → P b → ⊥

    find_last-IsAbsent : (xs : List A) → find_last xs ≡ none → IsAbsent xs
    unfolding find_last
    find_last-IsAbsent [] e j b h p = cc
    find_last-IsAbsent (x ∷ rest) e zero b h p =
        let (e1, e2) = later_or-none (find_last rest) x e in
        let q : b ≡ x = cc in let t = (iff x).1 (subst P q p) in cc
    find_last-IsAbsent (x ∷ rest) e (suc j) b h p =
        find_last-IsAbsent rest (later_or-none (find_last rest) x e).0 j b h p

    IsAbsent-find_last : (xs : List A) → IsAbsent xs → find_last xs ≡ none
    unfolding find_last
    IsAbsent-find_last [] h = refl
    IsAbsent-find_last (x ∷ rest) h = elim (Bool-cases (test x)) [
      | inl t ↦ elim (h zero x refl ((iff x).0 t)) [ ]
      | inr f ↦ rw (IsAbsent-find_last rest (λ j. h (suc j)), f) refl
    ]

    abbrev NoneBehind : List A → ℕ → Type 0
    NoneBehind xs i = (j : ℕ) (b : A) → i < j → get_elem? xs j ≡ some b → P b → ⊥

    behind_cons :
        (x : A) (rest : List A) (i : ℕ) → NoneBehind rest i → NoneBehind (x ∷ rest) (suc i)
    behind_cons x rest i h zero b lt e = omega arith
    behind_cons x rest i h (suc j) b lt e = h j b (omega arith) e

    behind_head : (x : A) (rest : List A) → IsAbsent rest → NoneBehind (x ∷ rest) 0
    behind_head x rest h zero b lt e = omega arith
    behind_head x rest h (suc j) b lt e = h j b e

    find_last-IsLast : (xs : List A) (a : A) → find_last xs ≡ some a → IsLast P xs a
    unfolding find_last
    find_last-IsLast [] a e = cc
    find_last-IsLast (x ∷ rest) a e = elim (later_or-some (find_last rest) x a e) [
      | inl s ↦
          let (i, at, p, h) = find_last-IsLast rest a s in (suc i, at, p, behind_cons x rest i h)
      | inr (e1, e2, t) ↦ (
        zero,
        ap some e2,
        subst P e2 ((iff x).0 t),
        behind_head x rest (find_last-IsAbsent rest e1),
      )
    ]

    IsLast-find_last : (xs : List A) (a : A) → IsLast P xs a → find_last xs ≡ some a
    unfolding find_last
    IsLast-find_last [] a h = let k = h.1 in cc
    IsLast-find_last (x ∷ rest) a (zero, at, p, h) =
        let absent = IsAbsent-find_last rest (λ j b. h (suc j) b (omega arith)) in
        let q : x ≡ a = cc in rw (absent, q, (iff a).1 p) refl
    IsLast-find_last (x ∷ rest) a (suc i, at, p, h) =
        rw (IsLast-find_last rest a (i, at, p, λ j b lt. h (suc j) b (omega arith))) refl

    pub find_last_iff : (xs : List A) (a : A) → (find_last xs ≡ some a) ↔ IsLast P xs a
    find_last_iff xs a = (find_last-IsLast xs a, IsLast-find_last xs a)
