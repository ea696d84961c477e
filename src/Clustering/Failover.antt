-- ===== src/Clustering/Failover.antt =====
-- `failover` (clustering/operations.go): the most advanced replica becomes the primary.
pub mod Footprint
pub mod Order
use moco.Prelude.{
  ℕ, suc, String, Bool, true, false, ◌||◌, ◌=?◌, Option, none, some, List, [], ◌∷◌, deref,
  get_elem?, if◌then◌else◌,
}
use moco.Dbop.Types.{MySqlInstanceStatus}
use moco.Dbop.TopRunner.{find_top_runner}
use moco.Effects.{
  M, Env, ◌>>=◌, ◌>>◌, pure, lift, command, status, note, stop_replica_io_thread, wait_for_gtid,
  count_metric,
}
use moco.Clustering.StatusSet.{StatusSet}
use moco.Clustering.Switchover.{timeout_seconds, set_primary}

module _ (env : Env) where
  unfoldable pub stop_replica : ℕ → ℕ → Option MySqlInstanceStatus → M (Unit {0})
  stop_replica primary i none = pure tt
  stop_replica primary i (some _) =
      if i =? primary then pure tt else command env (stop_replica_io_thread i)

  -- The loop that stops the IO threads of the live replicas.
  unfoldable pub stop_replicas : ℕ → ℕ → List (Option MySqlInstanceStatus) → M (Unit {0})
  stop_replicas primary i [] = pure tt
  stop_replicas primary i (o ∷ rest) = do
    stop_replica primary i o
    stop_replicas primary (suc i) rest

  -- One slot of `candidates`: the new status of a live replica without errant transactions.
  unfoldable pub recheck : ℕ → ℕ → Option MySqlInstanceStatus → M (Option MySqlInstanceStatus)
  recheck primary i none = pure none
  recheck primary i (some ist) =
      if (i =? primary) || ist.is_errant
      then pure none
      else (do new_status ← status env i; pure (some new_status))

  unfoldable pub recheck_all :
      ℕ → ℕ → List (Option MySqlInstanceStatus) → M (List (Option MySqlInstanceStatus))
  recheck_all primary i [] = pure []
  recheck_all primary i (o ∷ rest) = do
    slot ← recheck primary i o
    slots ← recheck_all primary (suc i) rest
    pure (slot ∷ slots)

  -- The operator left in `op` by the loop: that of the last candidate.
  unfoldable pub last_index : ℕ → List (Option MySqlInstanceStatus) → Option ℕ → Option ℕ
  last_index i [] op = op
  last_index i (none ∷ rest) op = last_index (suc i) rest op
  last_index i (some _ ∷ rest) op = last_index (suc i) rest (some i)

  unfoldable pub promote : ℕ → Option MySqlInstanceStatus → M ℕ
  promote candidate slot = do
    st ← lift (deref slot)
    repl ← lift (deref st.replica_status)
    command env (wait_for_gtid candidate repl.retrieved_gtid_set timeout_seconds)
    set_primary env candidate
    note (count_metric "failover")
    pure candidate

  -- The result is the new primary, `ss.Candidate`.
  unfoldable pub failover : StatusSet → M ℕ
  failover ss = do
    stop_replicas ss.primary 0 ss.mysql_status
    candidates ← recheck_all ss.primary 0 ss.mysql_status
    candidate ← find_top_runner env (last_index 0 candidates none) candidates
    slot ← lift (deref (get_elem? candidates candidate))
    promote candidate slot
