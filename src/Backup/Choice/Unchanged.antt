-- ===== src/Backup/Choice/Unchanged.antt =====
-- The instances that have kept their UUID (backup/backup.go).
use text.Mathlib.TextEquality.{eq_iff}
use moco.Prelude.{
  ℕ, ◌≡◌, refl, ap, sym, String, ◌=?◌, =?_iff, Bool, true, false, ◌||◌, ◌⊎◌, inl, inr, Option, none,
  some, List, [], ◌∷◌, contains, All, All-imp, Bool-cases,
}
use moco.Prelude.Dict.{Dict, lookup}
use moco.Prelude.Int.{ℤ, pos, negsuc}
use moco.Backup.Choice.{is_same, add_index, unchanged_indices}

-- The instance has the UUID that it had at the last backup.
abbrev pub Unchanged : (String → Option ℤ) → Dict String → Dict String → ℕ → Type 0
Unchanged atoi last [] i = ⊥
Unchanged atoi last (e ∷ rest) i =
    ((atoi e.0 ≡ some (pos i)) × (lookup e.0 last ≡ some e.1)) ⊎ Unchanged atoi last rest i

module _ (P : ℕ → Type 0) where
  pub All-contains : (xs : List ℕ) (a : ℕ) → All P xs → contains xs a ≡ true → P a
  All-contains [] a h e = cc
  All-contains (x ∷ xs) a h e = elim (Bool-cases (x =? a)) [
    | inl t ↦ rw ((=?_iff x a).0 t) at h.0
    | inr f ↦ All-contains xs a h.1 (rw f at e)
  ]

pub or_true : (b : Bool) → (b || true) ≡ true
or_true true = refl
or_true false = refl

module _ (atoi : String → Option ℤ) (last : Dict String) where
  is_same_lem : (u : String) (o : Option String) → is_same u o ≡ true → o ≡ some u
  is_same_lem u none h = cc
  is_same_lem u (some v) h = ap some (sym ((eq_iff u v).0 h))

  add_index-All :
      (P : ℕ → Type 0) (o : Option ℤ) (l : List ℕ)
      → ((i : ℕ) → o ≡ some (pos i) → P i)
      → All P l
      → All P (add_index o l)
  add_index-All P none l h hs = hs
  add_index-All P (some (pos i)) l h hs = (h i refl, hs)
  add_index-All P (some (negsuc i)) l h hs = hs

  pub Unchanged-All :
      (d : Dict String) → All (Unchanged atoi last d) (unchanged_indices atoi d last)
  unfolding unchanged_indices
  Unchanged-All [] = tt
  Unchanged-All (e ∷ rest) =
      let rec = All-imp _ (Unchanged atoi last (e ∷ rest)) _ (λ i. inr) (Unchanged-All rest) in
      elim (Bool-cases (is_same e.1 (lookup e.0 last))) [
        | inl t ↦ rw t (add_index-All _ (atoi e.0) _ (λ i q. inl (q, is_same_lem e.1 _ t)) rec)
        | inr f ↦ rw f rec
      ]

  contains_added :
      (o : Option ℤ) (l : List ℕ) (i : ℕ)
      → (o ≡ some (pos i)) ⊎ (contains l i ≡ true)
      → contains (add_index o l) i ≡ true
  contains_added (some (pos j)) l i (inl e) = let q : j ≡ i = cc in rw ((=?_iff j i).1 q) refl
  contains_added (some (pos j)) l i (inr h) = rw h (or_true (j =? i))
  contains_added (some (negsuc j)) l i (inl e) = cc
  contains_added (some (negsuc j)) l i (inr h) = h
  contains_added none l i (inl e) = cc
  contains_added none l i (inr h) = h

  -- Each unchanged instance is found.
  pub Unchanged-contains :
      (d : Dict String) (i : ℕ)
      → Unchanged atoi last d i
      → contains (unchanged_indices atoi d last) i ≡ true
  unfolding unchanged_indices
  Unchanged-contains [] i h = elim h [ ]
  Unchanged-contains (e ∷ rest) i (inl (a, s)) =
      let t : is_same e.1 (lookup e.0 last) ≡ true = rw s ((eq_iff e.1 e.1).1 refl) in
      rw t (contains_added (atoi e.0) _ i (inl a))
  Unchanged-contains (e ∷ rest) i (inr h) =
      let r = Unchanged-contains rest i h in
      elim (Bool-cases (is_same e.1 (lookup e.0 last))) [
        | inl t ↦ rw t (contains_added (atoi e.0) _ i (inr r))
        | inr f ↦ rw f r
      ]
