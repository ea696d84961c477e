-- ===== src/Backup/Choice/Preferred.antt =====
-- The order of preference among the instances that have kept their UUID (backup/backup.go).
use moco.Prelude.{
  ℕ, ◌≡◌, ◌≢◌, refl, ◌=?◌, =?_iff, =?_false, true, ◌⊎◌, inl, inr, Option, none, some, List, [], ◌∷◌,
  contains, All, Bool-cases,
}
use moco.Backup.Choice.{Slots, Chosen, prefer, first_of}
use moco.Backup.Choice.Unchanged.{or_true}

module _ (primary last : ℕ) where
  -- What the loop over the unchanged instances chooses.
  pub record Preferred (least : Option ℕ) (l : List ℕ) (c : Chosen) : Type 0 where
    pub binlog : c.with_binlog ≡ true
    pub from :
        ((c.index ≢ primary) × ((contains l c.index ≡ true) ⊎ (least ≡ some c.index)))
        ⊎ ((c.index ≡ primary) × (least ≡ none) × All (λ i. i ≡ primary) l)
    pub again : (c.index ≡ last) ⊎ All (λ i. (i ≢ primary) → i ≢ last) l

  contains_later : (i a : ℕ) (l : List ℕ) → contains l a ≡ true → contains (i ∷ l) a ≡ true
  contains_later i a l h = rw h (or_true (i =? a))

  module _ (i : ℕ) (rest : List ℕ) (c : Chosen) where
    passed-from :
        (least : Option ℕ) → i ≡ primary → Preferred least rest c → Preferred least (i ∷ rest) c
    passed-from least e h = record {
      binlog = h.binlog;
      from = elim h.from [
        | inl (n, inl k) ↦ inl (n, inl (contains_later i c.index rest k))
        | inl (n, inr k) ↦ inl (n, inr k)
        | inr (p, q, all) ↦ inr (p, q, (e, all))
      ];
      again = elim h.again [ inl k ↦ inl k | inr all ↦ inr (λ n. elim (n e) [ ], all) ];
    }

    kept-from :
        (least : Option ℕ)
        → i ≢ last
        → Preferred (first_of least i) rest c
        → Preferred least (i ∷ rest) c
    kept-from least m h = record {
      binlog = h.binlog;
      from = elim h.from [
        | inl (n, inl k) ↦ inl (n, inl (contains_later i c.index rest k))
        | inl (n, inr k) ↦ inl (n, which least k)
        | inr (p, q, all) ↦ elim (never least q) [ ]
      ];
      again = elim h.again [ inl k ↦ inl k | inr all ↦ inr (λ _. m, all) ];
    }
      where
        which :
            (o : Option ℕ)
            → first_of o i ≡ some c.index
            → (contains (i ∷ rest) c.index ≡ true) ⊎ (o ≡ some c.index)
        which none e = let q : i ≡ c.index = cc in inl (rw ((=?_iff i c.index).1 q) refl)
        which (some j) e = inr e

        never : (o : Option ℕ) → first_of o i ≢ none
        never none e = cc
        never (some j) e = cc

  first_of_other :
      (o : Option ℕ) (i : ℕ)
      → i ≢ primary
      → ((j : ℕ) → o ≡ some j → j ≢ primary)
      → (j : ℕ) → first_of o i ≡ some j
      → j ≢ primary
  first_of_other none i n h j e = let q : i ≡ j = cc in rw (← q) n
  first_of_other (some k) i n h j e = h j e

  pub prefer_lem :
      (pods : Slots) (least : Option ℕ) (l : List ℕ)
      → ((j : ℕ) → least ≡ some j → j ≢ primary)
      → Preferred least l (prefer primary pods last least l)
  unfolding prefer
  prefer_lem pods none [] h = record { binlog = refl; from = inr (refl, refl, tt); again = inr tt }
  prefer_lem pods (some j) [] h = record {
    binlog = refl;
    from = inl (h j refl, inr refl);
    again = inr tt;
  }
  prefer_lem pods least (i ∷ rest) h = elim (Bool-cases (i =? primary)) [
    | inl t ↦
        rw t (passed-from i rest _ least ((=?_iff i primary).0 t) (prefer_lem pods least rest h))
    | inr f ↦
        let n = =?_false i primary f in
        rw f (elim (Bool-cases (i =? last)) [
          | inl t ↦ rw t (record {
            binlog = refl;
            from = inl (n, inl (rw ((=?_iff i i).1 refl) refl));
            again = inl ((=?_iff i last).0 t);
          })
          | inr g ↦ rw g (
              kept-from i rest _ least (=?_false i last g)
                (prefer_lem pods (first_of least i) rest (first_of_other least i n h)))
        ])
  ]
