-- ===== src/Dbop/TopRunner.antt =====
-- `FindTopRunner` (pkg/dbop/gtid.go): the instance whose GTID set contains all the others'.
pub mod Footprint
pub mod Verdict
use moco.Prelude.{
  ℕ, suc, String, ◌<>◌, Bool, true, false, ◌==◌, Option, none, some, List, [], ◌∷◌, deref, Outcome,
  ok, if◌then◌else◌, no_top_runner, errant_transactions,
}
use moco.Effects.{M, Env, ◌>>=◌, pure, fail, lift, gtid_within}
use moco.Dbop.Types.{MySqlInstanceStatus, ReplicaStatus}

-- The retrieved and the executed set, joined: their union in the syntax of MySQL.
unfoldable pub gtids_of : ReplicaStatus → String
gtids_of repl =
    if repl.retrieved_gtid_set == ""
    then repl.executed_gtid_set
    else repl.retrieved_gtid_set <> "," <> repl.executed_gtid_set

-- What a slot offers: `none` where the loop goes on with the next one at once.
unfoldable pub offer : Option MySqlInstanceStatus → Option String
unfolding gtids_of
offer none = none
offer (some st) = elim st.replica_status [
  | none ↦ none
  | some repl ↦ if gtids_of repl == "" then none else some (gtids_of repl)
]

-- The best instance so far, with its GTID set: `none` stands for `latest == -1`.
abbrev pub Best : Type 0
Best = Option (ℕ × String)

-- The operator `o` of the caller may be nil.
module _ (env : Env) (o : Option ℕ) where
  -- `gtids` against the set of the best instance.
  unfoldable pub compare_with : ℕ → String → ℕ → String → M Best
  compare_with i gtids latest latest_gtids = do
    op ← lift (deref o)
    behind ← gtid_within env op gtids latest_gtids
    if behind then pure (some (latest, latest_gtids)) else (do
      ahead ← gtid_within env op latest_gtids gtids
      if ahead then pure (some (i, gtids)) else fail errant_transactions)

  -- One round of the loop.
  unfoldable pub consider : ℕ → Option String → Best → M Best
  consider i none best = pure best
  consider i (some gtids) none = pure (some (i, gtids))
  consider i (some gtids) (some (latest, latest_gtids)) = compare_with i gtids latest latest_gtids

  unfoldable pub top_runner_from : ℕ → List (Option MySqlInstanceStatus) → Best → M Best
  top_runner_from i [] best = pure best
  top_runner_from i (st ∷ rest) best = do
    next ← consider i (offer st) best
    top_runner_from (suc i) rest next

  abbrev pub the_best : Best → M ℕ
  the_best none = fail no_top_runner
  the_best (some (latest, _)) = pure latest

  unfoldable pub find_top_runner : List (Option MySqlInstanceStatus) → M ℕ
  find_top_runner statuses = do best ← top_runner_from 0 statuses none; the_best best
