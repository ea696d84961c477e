-- ===== src/Dbop/TopRunner/Verdict.antt =====
-- What `FindTopRunner` ends in, where GTID sets are compared by a preorder (pkg/dbop/gtid.go).
use moco.Prelude.{
  ℕ, suc, ◌≡◌, refl, sym, ap, ◌∙◌, String, Bool, true, false, Option, none, some, List, [], ◌∷◌,
  ◌⊎◌, inl, inr, Outcome, ok, err, panic, Error, no_top_runner, errant_transactions, All,
}
use moco.Dbop.Types.{MySqlInstanceStatus}
use moco.Dbop.TopRunner.{
  Best, offer, compare_with, consider, top_runner_from, the_best, find_top_runner,
}
use moco.Effects.{Env, Trace, value}
use moco.Effects.Ends.{
  Ends, Ends-pure, Ends-fail, Ends-if, Ends-bind, Ends-known, Ends-lift, Ends-gtid_within,
}

abbrev pub Slot : Type 0
Slot = Option MySqlInstanceStatus

-- Slot `j` offers the set `g`, where the slots are counted from `i`.
abbrev pub OffersAt : ℕ → List Slot → ℕ → String → Type 0
OffersAt i [] j g = ⊥
OffersAt i (o ∷ rest) j g = ((j ≡ i) × (offer o ≡ some g)) ⊎ OffersAt (suc i) rest j g

module _ (sub : String → String → Bool) where
  -- What is offered is contained in `g`.
  abbrev pub Below : String → Option String → Type 0
  Below g none = Unit
  Below g (some h) = sub h g ≡ true

  -- Two sets, neither of which contains the other.
  abbrev pub Clash : (String → Type 0) → Type 0
  Clash Offered =
      (g : String) × (h : String) × Offered g × Offered h × (sub g h ≡ false) × (sub h g ≡ false)

  abbrev BelowBest : Best → String → Type 0
  BelowBest none g = Unit
  BelowBest (some (j, l)) g = sub l g ≡ true

  abbrev Offered : ℕ → List Slot → Best → String → Type 0
  Offered i rest best g = ((j : ℕ) × (best ≡ some (j, g))) ⊎ ((j : ℕ) × OffersAt i rest j g)

  -- What the loop has found after the slots `rest`, when it started from `best`.
  abbrev Found : ℕ → List Slot → Best → Outcome Best → Type 0
  Found i rest best (ok none) = (best ≡ none) × All (λ o. offer o ≡ none) rest
  Found i rest best (ok (some (j, g))) =
      ((best ≡ some (j, g)) ⊎ OffersAt i rest j g)
      × All (λ o. Below g (offer o)) rest
      × BelowBest best g
  Found i rest best (err e) = (e ≡ errant_transactions) × Clash (Offered i rest best)
  Found i rest best panic = ⊥

  abbrev pub IsOffered : List Slot → String → Type 0
  IsOffered slots g = (j : ℕ) × OffersAt 0 slots j g

  -- What each result of `FindTopRunner` says of the slots.
  abbrev pub Verdict : List Slot → Outcome ℕ → Type 0
  Verdict slots (ok j) = (g : String) × OffersAt 0 slots j g × All (λ o. Below g (offer o)) slots
  Verdict slots (err e) =
      ((e ≡ no_top_runner) × All (λ o. offer o ≡ none) slots)
      ⊎ ((e ≡ errant_transactions) × Clash (IsOffered slots))
  Verdict slots panic = ⊥

  abbrev index_of : Best → ℕ
  index_of none = 0
  index_of (some b) = b.0

  abbrev set_of : Best → String
  set_of none = ""
  set_of (some b) = b.1

  Offered-wider :
      (i : ℕ) (o : Slot) (rest : List Slot) (best : Best) (g : String)
      → Offered i (o ∷ []) best g
      → Offered i (o ∷ rest) best g
  Offered-wider i o rest best g (inl h) = inl h
  Offered-wider i o rest best g (inr (j, inl h)) = inr (j, inl h)
  Offered-wider i o rest best g (inr (j, inr h)) = elim h [ ]

  abbrev best_at : ℕ → String → Best
  best_at j g = some (j, g)

  module _ (env : Env) (k : ℕ)
      (answers : (tr : Trace) (s t : String) → env.gtid_subset tr k s t ≡ value (sub s t))
      (sub-refl : (s : String) → sub s s ≡ true)
      (sub-trans : (r s t : String) → sub r s ≡ true → sub s t ≡ true → sub r t ≡ true) where
    Found-compare_with :
        (i : ℕ) (o : Slot) (g : String) (j : ℕ) (l : String)
        → offer o ≡ some g
        → Ends (Found i (o ∷ []) (some (j, l))) (compare_with env (some k) i g j l)
    unfolding compare_with
    Found-compare_with i o g j l e = Ends-known _ k (Ends-lift k) (
        Ends-known _ (sub g l) (Ends-gtid_within env k g l (sub g l) (λ tr. answers tr g l)) (
          Ends-if (sub g l) (λ behind. Ends-pure _ (inl refl, (rw e behind, tt), sub-refl l))
            (λ not_behind.
              Ends-known _ (sub l g) (Ends-gtid_within env k l g (sub l g) (λ tr. answers tr l g)) (
                Ends-if (sub l g)
                  (λ ahead. Ends-pure _ (inr (inl (refl, e)), (rw e (sub-refl g), tt), ahead))
                  (λ not_ahead. Ends-fail _ (
                    refl,
                    (g, l, inr (i, inl (refl, e)), inl (j, refl), not_behind, not_ahead),
                  ))))))

    Found-consider :
        (i : ℕ) (o : Slot) (x : Option String) (best : Best)
        → offer o ≡ x
        → Ends (Found i (o ∷ []) best) (consider env (some k) i x best)
    unfolding consider
    Found-consider i o none none e = Ends-pure _ (refl, (e, tt))
    Found-consider i o none (some (j, l)) e = Ends-pure _ (inl refl, (rw e tt, tt), sub-refl l)
    Found-consider i o (some g) none e =
        Ends-pure _ (inr (inl (refl, e)), (rw e (sub-refl g), tt), tt)
    Found-consider i o (some g) (some (j, l)) e = Found-compare_with i o g j l e

    Below-through : (g h : String) (x : Option String) → Below g x → sub g h ≡ true → Below h x
    Below-through g h none b s = tt
    Below-through g h (some y) b s = sub-trans y g h b s

    best_through : (g h : String) (b : Best) → BelowBest b g → sub g h ≡ true → BelowBest b h
    best_through g h none b s = tt
    best_through g h (some (j, l)) b s = sub-trans l g h b s

    source_before :
        (i : ℕ) (o : Slot) (rest : List Slot) (best : Best) (j' j : ℕ) (g' h : String)
        → (best ≡ best_at j' g') ⊎ OffersAt i (o ∷ []) j' g'
        → (best_at j' g' ≡ best_at j h) ⊎ OffersAt (suc i) rest j h
        → (best ≡ best_at j h) ⊎ OffersAt i (o ∷ rest) j h
    source_before i o rest best j' j g' h s (inr x) = inr (inr x)
    source_before i o rest best j' j g' h (inl e') (inl e) = inl (e' ∙ e)
    source_before i o rest best j' j g' h (inr (inl (a, b))) (inl e) =
        inr (inl (sym (ap index_of e) ∙ a, b ∙ ap some (ap set_of e)))
    source_before i o rest best j' j g' h (inr (inr x)) (inl e) = elim x [ ]

    as-Offered :
        (i : ℕ) (rest : List Slot) (best : Best) (j : ℕ) (g : String)
        → (best ≡ best_at j g) ⊎ OffersAt i rest j g
        → Offered i rest best g
    as-Offered i rest best j g (inl e) = inl (j, e)
    as-Offered i rest best j g (inr x) = inr (j, x)

    -- The finds of one slot and of those behind it.
    Offered-before :
        (i : ℕ) (o : Slot) (rest : List Slot) (best next : Best)
        → Found i (o ∷ []) best (ok next)
        → (g : String) → Offered (suc i) rest next g
        → Offered i (o ∷ rest) best g
    Offered-before i o rest best none f g (inr (j, h)) = inr (j, inr h)
    Offered-before i o rest best none f g (inl (j, e)) = cc
    Offered-before i o rest best (some (j', g')) f g (inr (j, h)) = inr (j, inr h)
    Offered-before i o rest best (some (j', g')) f g (inl (j, e)) =
        as-Offered i (o ∷ rest) best j g (source_before i o rest best j' j g' g f.0 (inl e))

    Found-cons :
        (i : ℕ) (o : Slot) (rest : List Slot) (best next : Best)
        → Found i (o ∷ []) best (ok next)
        → (r : Outcome Best) → Found (suc i) rest next r
        → Found i (o ∷ rest) best r
    Found-cons i o rest best none f (ok none) g = (f.0, (f.1.0, g.1))
    Found-cons i o rest best (some b) f (ok none) g = let absurd = g.0 in cc
    Found-cons i o rest best none f (ok (some (j, h))) g = elim g.0 [
      | inl e ↦ cc
      | inr x ↦ (inr (inr x), (rw f.1.0 tt, g.1), rw f.0 tt)
    ]
    Found-cons i o rest best (some (j', g')) f (ok (some (j, h))) g = (
      source_before i o rest best j' j g' h f.0 g.0,
      (Below-through g' h (offer o) f.1.0 g.2, g.1),
      best_through g' h best f.2 g.2,
    )
    Found-cons i o rest best next f (err e) g = (
      g.0,
      (
        g.1.0,
        g.1.1,
        Offered-before i o rest best next f g.1.0 g.1.2,
        Offered-before i o rest best next f g.1.1 g.1.3,
        g.1.4,
        g.1.5,
      ),
    )
    Found-cons i o rest best next f panic g = g

    clash_cons :
        (i : ℕ) (o : Slot) (rest : List Slot) (best : Best) (e : Error)
        → Found i (o ∷ []) best (err e)
        → Found i (o ∷ rest) best (err e)
    clash_cons i o rest best e (m, (g, h, a, b, n, n')) =
        (m, (g, h, Offered-wider i o rest best g a, Offered-wider i o rest best h b, n, n'))

    Found-top_runner_from :
        (i : ℕ) (rest : List Slot) (best : Best)
        → Ends (Found i rest best) (top_runner_from env (some k) i rest best)
    unfolding top_runner_from
    Found-top_runner_from i [] none = Ends-pure _ (refl, tt)
    Found-top_runner_from i [] (some (j, l)) = Ends-pure _ (inl refl, tt, sub-refl l)
    Found-top_runner_from i (o ∷ rest) best =
        Ends-bind (Found-consider i o (offer o) best refl)
          (λ next f. record {
            run = λ tr.
                Found-cons i o rest best next f _
                  ((Found-top_runner_from (suc i) rest next).run tr);
          })
          (λ e f. clash_cons i o rest best e f) (λ f. f)

    Found-the_best :
        (slots : List Slot) (best : Best)
        → Found 0 slots none (ok best)
        → Ends (Verdict slots) (the_best env (some k) best)
    Found-the_best slots none f = Ends-fail _ (inl (refl, f.1))
    Found-the_best slots (some (j, g)) (inl e, b, _) = cc
    Found-the_best slots (some (j, g)) (inr x, b, _) = Ends-pure j (g, x, b)

    clash_none : (slots : List Slot) → Clash (Offered 0 slots none) → Clash (IsOffered slots)
    clash_none slots (g, h, inr a, inr b, n, n') = (g, h, a, b, n, n')
    clash_none slots (g, h, inl (j, e), b, n, n') = cc
    clash_none slots (g, h, inr a, inl (j, e), n, n') = cc

    found-find_top_runner :
        (slots : List Slot) → Ends (Verdict slots) (find_top_runner env (some k) slots)
    unfolding find_top_runner
    found-find_top_runner slots =
        Ends-bind (Found-top_runner_from 0 slots none) (Found-the_best slots)
          (λ e f. inr (f.0, clash_none slots f.1)) (λ f. f)

    -- With an operator that is not nil, and whose every query whether a GTID set is contained in
    -- another succeeds and is answered by a preorder: where `FindTopRunner` returns an index, the slot
    -- there offers a set that contains every offered one; it returns `ErrNoTopRunner` only where no
    -- slot offers a set, and `ErrErrantTransactions` only where two of the offered sets do not contain
    -- each other; and then it ends in no other way. A query that fails is not looked at.
    pub find_top_runner_lem :
        (slots : List Slot) (tr : Trace) → Verdict slots (find_top_runner env (some k) slots tr).0
    find_top_runner_lem slots tr = (found-find_top_runner slots).run tr
