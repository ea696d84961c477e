-- ===== src/Prelude/Lists.antt =====
-- Lists measured and indexed by native numbers, predicates on lists, and sorting of numbers.
use Prim.Native.Nat.{ℕ, zero, suc, ◌+◌, ◌≤◌, ◌<◌}
use mathlib.Core.Path.{◌≡◌, refl, ap, ◌∙◌}
use mathlib.Core.Bool.{Bool, true, false, ◌||◌}
use mathlib.Core.List.{List, [], ◌∷◌, ◌++◌}
use mathlib.Core.Logic.{inl, inr}
use mathlib.Core.Option.{Option, none, some}
use native.Mathlib.Omega.{arith}
use moco.Prelude.Tests.{leb, leb→le, ◌=?◌, if◌then◌else◌, Bool-cases}

module _ {ℓ} {A : Type ℓ} where
  abbrev pub length : List A → ℕ
  length [] = 0
  length (x ∷ xs) = suc (length xs)

  abbrev pub get_elem? : List A → ℕ → Option A
  get_elem? [] i = none
  get_elem? (x ∷ xs) zero = some x
  get_elem? (x ∷ xs) (suc i) = get_elem? xs i

  -- A write out of bounds changes nothing.
  abbrev pub set : List A → ℕ → A → List A
  set [] i v = []
  set (x ∷ xs) zero v = v ∷ xs
  set (x ∷ xs) (suc i) v = x ∷ set xs i v

  abbrev pub replicate : ℕ → A → List A
  replicate zero a = []
  replicate (suc n) a = a ∷ replicate n a

  pub length-append : (xs ys : List A) → length (xs ++ ys) ≡ length xs + length ys
  length-append [] ys = omega arith
  length-append (x ∷ xs) ys = omega (arith, length-append xs ys)

module _ {ℓ} {A : Type ℓ} where
  pub get_elem?_lt : (xs : List A) (i : ℕ) → i < length xs → (a : A) × (get_elem? xs i ≡ some a)
  get_elem?_lt [] i h = elim h [ ]
  get_elem?_lt (x ∷ xs) zero h = (x, refl)
  get_elem?_lt (x ∷ xs) (suc i) h = get_elem?_lt xs i (omega arith)

  pub length-set : (xs : List A) (i : ℕ) (v : A) → length (set xs i v) ≡ length xs
  length-set [] i v = refl
  length-set (x ∷ xs) zero v = refl
  length-set (x ∷ xs) (suc i) v = omega (arith, length-set xs i v)

module _ {ℓ κ} {A : Type ℓ} (P : A → Type κ) where
  abbrev pub All : List A → Type κ
  All [] = Unit
  All (x ∷ xs) = P x × All xs

  pub All-append : (xs ys : List A) → All xs → All ys → All (xs ++ ys)
  All-append [] ys hx hy = hy
  All-append (x ∷ xs) ys hx hy = (hx.0, All-append xs ys hx.1 hy)

  pub All-get_elem? : (xs : List A) (i : ℕ) {a : A} → All xs → get_elem? xs i ≡ some a → P a
  All-get_elem? [] i h e = cc
  All-get_elem? (x ∷ xs) zero {a} h e = ground (arith, h.0)
  All-get_elem? (x ∷ xs) (suc i) h e = All-get_elem? xs i h.1 e

-- `slices.Contains`.
abbrev pub contains : List ℕ → ℕ → Bool
contains [] a = false
contains (x ∷ xs) a = (x =? a) || contains xs a

-- `sort.Ints`: its result is determined by its contents.
pub insert_int : ℕ → List ℕ → List ℕ
insert_int a [] = a ∷ []
insert_int a (x ∷ xs) = if leb a x then a ∷ x ∷ xs else x ∷ insert_int a xs

unfoldable pub sort_ints : List ℕ → List ℕ
unfolding insert_int
sort_ints [] = []
sort_ints (x ∷ xs) = insert_int x (sort_ints xs)

-- `P` holds of each element with its index, counted from `i`.
module _ {ℓ κ} {A : Type ℓ} (P : ℕ → A → Type κ) where
  abbrev pub AllFrom : ℕ → List A → Type κ
  AllFrom i [] = Unit
  AllFrom i (x ∷ xs) = P i x × AllFrom (suc i) xs

module _ {ℓ} {A : Type ℓ} where
  -- The elements of `rest` stand in `full` from index `i` on.
  abbrev pub StandsAt : List A → ℕ → List A → Type ℓ
  StandsAt full = AllFrom (λ i x. get_elem? full i ≡ some x)

module _ {ℓ κ} {A : Type ℓ} (P : ℕ → A → Type κ) where
  AllFrom-offset :
      (j : ℕ) (xs : List A) (i : ℕ) {x : A} → AllFrom P j xs → get_elem? xs i ≡ some x → P (i + j) x
  AllFrom-offset j [] i h e = cc
  AllFrom-offset j (y ∷ ys) zero {x} h e =
      let e' : y ≡ x = cc in let k : 0 + j ≡ j = omega arith in rw (k, ← e') h.0
  AllFrom-offset j (y ∷ ys) (suc i) {x} h e =
      let k : i + suc j ≡ suc i + j = omega arith in rw (← k) (AllFrom-offset (suc j) ys i h.1 e)

  pub AllFrom-get_elem? :
      (xs : List A) (i : ℕ) {x : A} → AllFrom P 0 xs → get_elem? xs i ≡ some x → P i x
  AllFrom-get_elem? xs i h e =
      let k : i + 0 ≡ i = omega arith in rw k at (AllFrom-offset 0 xs i h e)

module _ {ℓ} {A : Type ℓ} where
  StandsAt-cons :
      (y : A) (full : List A) (i : ℕ) (rest : List A)
      → StandsAt full i rest
      → StandsAt (y ∷ full) (suc i) rest
  StandsAt-cons y full i [] h = tt
  StandsAt-cons y full i (x ∷ xs) h = (h.0, StandsAt-cons y full (suc i) xs h.1)

  pub StandsAt-refl : (xs : List A) → StandsAt xs 0 xs
  StandsAt-refl [] = tt
  StandsAt-refl (x ∷ xs) = (refl, StandsAt-cons x xs 0 xs (StandsAt-refl xs))

  pub lt-get_elem? : (xs : List A) (i : ℕ) {a : A} → get_elem? xs i ≡ some a → i < length xs
  lt-get_elem? [] i h = cc
  lt-get_elem? (x ∷ xs) zero h = omega arith
  lt-get_elem? (x ∷ xs) (suc i) h = omega (arith, lt-get_elem? xs i h)

module _ {κ} (P : ℕ → Type κ) where
  pub All-insert_int : (a : ℕ) (xs : List ℕ) → P a → All P xs → All P (insert_int a xs)
  unfolding insert_int
  All-insert_int a [] h hs = (h, tt)
  All-insert_int a (x ∷ xs) h hs = elim (Bool-cases (leb a x)) [
    | inl e ↦ rw e (h, hs)
    | inr e ↦ rw e (hs.0, All-insert_int a xs h hs.1)
  ]

  pub All-sort_ints : (xs : List ℕ) → All P xs → All P (sort_ints xs)
  unfolding sort_ints
  All-sort_ints [] h = tt
  All-sort_ints (x ∷ xs) h = All-insert_int x (sort_ints xs) h.0 (All-sort_ints xs h.1)

-- Each number is at most the ones behind it.
abbrev pub IsSorted : List ℕ → Type 0
IsSorted [] = Unit
IsSorted (x ∷ xs) = All (λ y. x ≤ y) xs × IsSorted xs

All-le : (a b : ℕ) (xs : List ℕ) → a ≤ b → All (λ y. b ≤ y) xs → All (λ y. a ≤ y) xs
All-le a b [] h hs = tt
All-le a b (x ∷ xs) h hs = (omega (arith, hs.0), All-le a b xs h hs.1)

insert_int-IsSorted : (a : ℕ) (xs : List ℕ) → IsSorted xs → IsSorted (insert_int a xs)
unfolding insert_int
insert_int-IsSorted a [] h = (tt, tt)
insert_int-IsSorted a (x ∷ xs) h = elim (Bool-cases (leb a x)) [
  | inl e ↦ rw e ((leb→le a x e, All-le a x xs (leb→le a x e) h.0), h)
  | inr e ↦ rw e (All-insert_int (λ y. x ≤ y) a xs (ground arith) h.0, insert_int-IsSorted a xs h.1)
]

pub sort_ints-IsSorted : (xs : List ℕ) → IsSorted (sort_ints xs)
unfolding sort_ints
sort_ints-IsSorted [] = tt
sort_ints-IsSorted (x ∷ xs) = insert_int-IsSorted x (sort_ints xs) (sort_ints-IsSorted xs)

pub All-imp {ℓ κ μ} :
    {A : Type ℓ} (P : A → Type κ) (Q : A → Type μ) (xs : List A)
    → ((x : A) → P x → Q x)
    → All P xs
    → All Q xs
All-imp P Q [] f h = tt
All-imp P Q (x ∷ xs) f h = (f x h.0, All-imp P Q xs f h.1)

pub AllFrom-imp {ℓ κ μ} :
    {A : Type ℓ} (P : ℕ → A → Type κ) (Q : ℕ → A → Type μ) (i : ℕ) (xs : List A)
    → ((j : ℕ) (x : A) → P j x → Q j x)
    → AllFrom P i xs
    → AllFrom Q i xs
AllFrom-imp P Q i [] f h = tt
AllFrom-imp P Q i (x ∷ xs) f h = (f i x h.0, AllFrom-imp P Q (suc i) xs f h.1)

contains-insert_int :
    (x a : ℕ) (xs : List ℕ) → contains (insert_int x xs) a ≡ ((x =? a) || contains xs a)
unfolding insert_int
contains-insert_int x a [] = refl
contains-insert_int x a (y ∷ ys) = elim (Bool-cases (leb x y)) [
  | inl e ↦ rw e refl
  | inr e ↦ rw (e, contains-insert_int x a ys) (swap (y =? a) (x =? a) (contains ys a))
]
  where
    swap : (p q r : Bool) → (p || (q || r)) ≡ (q || (p || r))
    swap true true r = refl
    swap true false r = refl
    swap false true r = refl
    swap false false r = refl

pub contains-sort_ints : (xs : List ℕ) (a : ℕ) → contains (sort_ints xs) a ≡ contains xs a
unfolding sort_ints
contains-sort_ints [] a = refl
contains-sort_ints (x ∷ xs) a =
    contains-insert_int x a (sort_ints xs) ∙ ap (λ b. (x =? a) || b) (contains-sort_ints xs a)
