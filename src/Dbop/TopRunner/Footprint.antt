-- ===== src/Dbop/TopRunner/Footprint.antt =====
-- Which calls `FindTopRunner` makes (pkg/dbop/gtid.go).
use moco.Prelude.{ℕ, suc, ◌≡◌, String, Option, none, some, List, [], ◌∷◌, deref, deref-eq-ok}
use moco.Dbop.Types.{MySqlInstanceStatus}
use moco.Dbop.TopRunner.{
  Best, offer, compare_with, consider, top_runner_from, the_best, find_top_runner,
}
use moco.Effects.{Env, Call, is_subset_gtid}
use moco.Effects.Only.{
  Only, Only-pure, Only-fail, Only-if, Only-lift_bind, Only-bind, Only-gtid_within,
}

module _ (env : Env) (may : Call → Type 0) (op : Option ℕ)
    (allowed : (k : ℕ) → op ≡ some k → (s t : String) → may (is_subset_gtid k s t)) where
  Only-compare_with :
      (i : ℕ) (g : String) (j : ℕ) (l : String) → Only may (compare_with env op i g j l)
  unfolding compare_with
  Only-compare_with i g j l = Only-lift_bind (deref op) λ k ek.
      Only-bind (Only-gtid_within env k g l (allowed k (deref-eq-ok op ek) g l)) λ behind.
        Only-if behind (Only-pure _) (
          Only-bind (Only-gtid_within env k l g (allowed k (deref-eq-ok op ek) l g))
            λ ahead. Only-if ahead (Only-pure _) (Only-fail _))

  Only-consider : (i : ℕ) (o : Option String) (b : Best) → Only may (consider env op i o b)
  unfolding consider
  Only-consider i none b = Only-pure b
  Only-consider i (some g) none = Only-pure _
  Only-consider i (some g) (some (j, l)) = Only-compare_with i g j l

  Only-top_runner_from :
      (i : ℕ) (slots : List (Option MySqlInstanceStatus)) (b : Best)
      → Only may (top_runner_from env op i slots b)
  unfolding top_runner_from
  Only-top_runner_from i [] b = Only-pure b
  Only-top_runner_from i (o ∷ rest) b =
      Only-bind (Only-consider i (offer o) b) λ next. Only-top_runner_from (suc i) rest next

  Only-the_best : (b : Best) → Only may (the_best env op b)
  Only-the_best none = Only-fail _
  Only-the_best (some (i, g)) = Only-pure i

  pub Only-find_top_runner :
      (slots : List (Option MySqlInstanceStatus)) → Only may (find_top_runner env op slots)
  unfolding find_top_runner
  Only-find_top_runner slots = Only-bind (Only-top_runner_from 0 slots none) λ b. Only-the_best b
