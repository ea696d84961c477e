-- ===== src/Clustering/Gather/Pods.antt =====
-- The slots that `GatherStatus` fills with pods (clustering/status.go).
use moco.Prelude.{
  ℕ, zero, suc, ◌≤◌, ◌<◌, ◌≡◌, refl, ◌∙◌, arith, Bool-cases, ltb, lt→ltb, ltb→lt, ◌⊎◌, inl, inr,
  Option, none, some, List, [], ◌∷◌, get_elem?, set, length, length-set, replicate, All,
}
use moco.Prelude.Int.{ℤ, pos, negsuc}
use moco.Api.Pod.{Pod}
use moco.Effects.{Env}
use moco.Effects.Safe.{Safe, Safe->>=, Safe-imp}
use moco.Clustering.Decide.Total.{IsFilled}
use moco.Clustering.Gather.{place, ordinal_in, fill_pods}
use moco.Clustering.Gather.Text.{last_field}
use moco.Clustering.Gather.Instances.{get_elem?-set}

abbrev Slots : Type 0
Slots = List (Option Pod)

abbrev Filled : ℕ → Slots → Type 0
Filled k l = (pod : Pod) × (get_elem? l k ≡ some (some pod))

pub length-replicate : {A : Type 0} (n : ℕ) (a : A) → length (replicate n a) ≡ n
length-replicate zero a = refl
length-replicate (suc n) a = omega (arith, length-replicate n a)

Filled-set : (k i : ℕ) (pod : Pod) (l : Slots) → Filled k l → Filled k (set l i (some pod))
Filled-set k i pod [] (q, e) = cc
Filled-set zero zero pod (x ∷ xs) h = (pod, refl)
Filled-set zero (suc i) pod (x ∷ xs) h = h
Filled-set (suc k) zero pod (x ∷ xs) h = h
Filled-set (suc k) (suc i) pod (x ∷ xs) h = Filled-set k i pod xs h

pub All-Filled : (l : Slots) → ((k : ℕ) → k < length l → Filled k l) → All IsFilled l
All-Filled [] h = tt
All-Filled (none ∷ rest) h = let (q, e) = h 0 (omega arith) in cc
All-Filled (some pod ∷ rest) h = (refl, All-Filled rest (λ k b. h (suc k) (omega arith)))

module _ (env : Env) where
  -- A pod in the list has the ordinal.
  abbrev pub HasOrdinal : ℕ → List Pod → Type 0
  HasOrdinal k [] = ⊥
  HasOrdinal k (pod ∷ rest) = (env.atoi (last_field pod.name) ≡ some (pos k)) ⊎ HasOrdinal k rest

  -- Each slot that was filled still is, and so is that of each pod in the list.
  abbrev pub IsFilledFrom : Slots → List Pod → Slots → Type 0
  IsFilledFrom slots items filled =
      (length filled ≡ length slots)
      × ((k : ℕ) → Filled k slots ⊎ HasOrdinal k items → Filled k filled)

  -- The index that a pod's name gives, which is below the count.
  abbrev IsIndex : ℕ → Option ℤ → ℕ → Type 0
  IsIndex count o i = (o ≡ some (pos i)) × (i < count)

  ordinal-Safe : (count : ℕ) (o : Option ℤ) → Safe (IsIndex count o) (ordinal_in count o)
  unfolding ordinal_in
  ordinal-Safe count none = tt
  ordinal-Safe count (some (negsuc n)) = tt
  ordinal-Safe count (some (pos n)) = elim (Bool-cases (ltb n count)) [
    | inl e ↦ rw e (refl, ltb→lt n count e)
    | inr e ↦ rw e tt
  ]

  place-Safe :
      (i : ℕ) (pod : Pod) (slots : Slots)
      → i < length slots
      → Safe (λ l. l ≡ set slots i (some pod)) (place i pod slots)
  unfolding place
  place-Safe i pod slots h = rw (lt→ltb i (length slots) h) refl

  step_fills :
      (pod : Pod) (rest : List Pod) (slots filled : Slots) (i : ℕ)
      → env.atoi (last_field pod.name) ≡ some (pos i)
      → i < length slots
      → IsFilledFrom (set slots i (some pod)) rest filled
      → IsFilledFrom slots (pod ∷ rest) filled
  step_fills pod rest slots filled i e b (len, keeps) = (
    len ∙ length-set slots i _,
    λ k f. keeps k (elim f [
      | inl x ↦ inl (Filled-set k i pod slots x)
      | inr o ↦ elim o [
        | inl e' ↦ let j : k ≡ i = cc in inl (rw j (pod, get_elem?-set slots i _ b))
        | inr y ↦ inr y
      ]
    ]),
  )

  pub fill_pods-Safe :
      (count : ℕ) (items : List Pod) (slots : Slots)
      → count ≤ length slots
      → Safe (IsFilledFrom slots items) (fill_pods env count items slots)
  unfolding fill_pods
  fill_pods-Safe count [] slots h = (refl, λ k f. elim f [ inl x ↦ x | inr x ↦ elim x [ ] ])
  fill_pods-Safe count (pod ∷ rest) slots h =
      Safe->>= (IsIndex count (env.atoi (last_field pod.name))) _ _ _ (ordinal-Safe count _)
        λ i (e, b).
          Safe->>= (λ l. l ≡ set slots i (some pod)) _ _ _ (place-Safe i pod slots (omega arith))
            λ l el. rw el (
              Safe-imp _ (λ filled. step_fills pod rest slots filled i e (omega arith))
                (fill_pods-Safe count rest (set slots i (some pod))
                  (rw (length-set slots i (some pod)) h)))
