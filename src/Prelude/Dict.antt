-- ===== src/Prelude/Dict.antt =====
-- `map[string]string` as an association list: labels, annotations, data of a Secret.
use Prim.Native.String.{String}
use mathlib.Core.Option.{Option, none, some}
use mathlib.Core.List.{List, [], ◌∷◌}
use text.Mathlib.Text.{◌==◌}
use text.Mathlib.TextEquality.{eq_iff}
use mathlib.Core.Path.{◌≡◌}
use mathlib.Core.Logic.{inl, inr}
use mathlib.Core.Bool.{Bool, false, ◌||◌}
use native.Mathlib.Omega.{arith}
use moco.Prelude.Lists.{All}
use moco.Prelude.Tests.{if◌then◌else◌, get_or, Bool-cases}

abbrev pub Dict : Type 0 → Type 0
Dict V = List (String × V)

module _ {V : Type 0} where
  unfoldable pub lookup : String → Dict V → Option V
  lookup key [] = none
  lookup key (entry ∷ rest) = if entry.0 == key then some entry.1 else lookup key rest

  -- `delete(m, k)`.
  unfoldable pub erase : String → Dict V → Dict V
  erase key [] = []
  erase key (entry ∷ rest) =
      let others = erase key rest in if entry.0 == key then others else entry ∷ others

  -- `m[k] = v`; the order of a map is not observed.
  unfoldable pub insert : String → V → Dict V → Dict V
  unfolding erase
  insert key value entries = (key, value) ∷ erase key entries

-- `slices.Contains` of texts.
unfoldable pub has_text : String → List String → Bool
has_text t [] = false
has_text t (x ∷ xs) = (x == t) || has_text t xs

-- `m[k]` of a map of texts: the zero value "" where the key is missing.
abbrev pub value_of : String → Dict String → String
value_of k m = get_or "" (lookup k m)

module _ {V : Type 0} where
  erase-All : (P : String × V → Type 0) (key : String) (d : Dict V) → All P d → All P (erase key d)
  unfolding erase
  erase-All P key [] h = tt
  erase-All P key (e ∷ rest) h = elim (Bool-cases (e.0 == key)) [
    | inl t ↦ rw t (erase-All P key rest h.1)
    | inr f ↦ rw f (h.0, erase-All P key rest h.1)
  ]

  pub insert-All :
      (P : String × V → Type 0) (key : String) (v : V) (d : Dict V)
      → P (key, v)
      → All P d
      → All P (insert key v d)
  unfolding insert
  insert-All P key v d h hs = (h, erase-All P key d hs)

  pub lookup-erase :
      (k key : String) (d : Dict V)
      → lookup k (erase key d) ≡ (if key == k then none else lookup k d)
  unfolding lookup erase
  lookup-erase k key [] = ground arith
  lookup-erase k key (e ∷ rest) = elim (Bool-cases (e.0 == key)) [
    | inl t ↦ ground (arith, t, eq_iff e.0 key, eq_iff key k, eq_iff e.0 k, lookup-erase k key rest)
    | inr f ↦ ground (arith, f, eq_iff e.0 key, eq_iff key k, eq_iff e.0 k, lookup-erase k key rest)
  ]

  pub lookup-insert :
      (k key : String) (v : V) (d : Dict V)
      → lookup k (insert key v d) ≡ (if key == k then some v else lookup k d)
  unfolding lookup insert
  lookup-insert k key v d = ground (arith, lookup-erase k key d)
