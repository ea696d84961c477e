-- ===== src/Clustering/Switchover.antt =====
-- `switchover` (clustering/operations.go): the primary gives its role to a replica.
pub mod Footprint
pub mod Order
use moco.Prelude.{
  ℕ, String, Bool, true, false, Option, some, deref, get_elem?, if◌then◌else◌, is_some, Outcome,
  err, ok, panic,
}
use moco.Prelude.Dict.{lookup, erase}
use moco.Api.Cluster.{MySqlCluster}
use moco.Api.Pod.{Pod}
use moco.Effects.{
  M, Env, Trace, ◌>>=◌, ◌>>◌, continue, pure, fail, lift, command, status, note, modify_cluster,
  retry_on_conflict, set_read_only, kill_connections, wait_for_gtid, patch_pod, count_metric,
}
use moco.Dbop.Types.{MySqlInstanceStatus}
use moco.Clustering.StatusSet.{StatusSet}

-- `timeoutSeconds`.
abbrev pub timeout_seconds : ℕ
timeout_seconds = 50

abbrev pub demote : String
demote = "moco.cybozu.com/demote"

abbrev pub with_primary : ℕ → MySqlCluster → MySqlCluster
with_primary i c = record c { status = record c.status { current_primary_index = i } }

module _ (env : Env) where
  -- Both functions that change the primary end in this write.
  unfoldable pub set_primary : ℕ → M (Unit {0})
  set_primary i = retry_on_conflict env (modify_cluster env (with_primary i))

  -- `SetReadOnly` has failed: the connections are killed, and the error is returned in any case.
  unfoldable pub recover_read_only : ℕ → Outcome (Unit {0}) × Trace → Outcome (Unit {0}) × Trace
  recover_read_only p (err e, tr) = (command env (kill_connections p) >> fail e) tr
  recover_read_only p (ok x, tr) = (ok x, tr)
  recover_read_only p (panic, tr) = (panic, tr)

  -- `SetReadOnly` runs beside a timer. Where it is slow, the connections are killed before its
  -- result is read; an entry of the trace marks the return of its call.
  unfoldable pub freeze : ℕ → M (Unit {0})
  freeze p tr =
      if env.is_slow tr
      then (command env (kill_connections p) >> command env (set_read_only p true)) tr
      else recover_read_only p (command env (set_read_only p true) tr)

  -- The annotation that asked for the switchover is removed.
  unfoldable pub clear_demote : Pod → M (Unit {0})
  clear_demote ppod =
      if is_some (lookup demote ppod.annotations)
      then command env
          (patch_pod ppod (record ppod { annotations = erase demote ppod.annotations }))
      else pure tt

  unfoldable pub switchover : StatusSet → M (Unit {0})
  switchover ss = do
    freeze ss.primary
    command env (kill_connections ss.primary)
    pst ← status env ss.primary
    command env (wait_for_gtid ss.candidate pst.global_variables.executed_gtid timeout_seconds)
    set_primary ss.candidate
    note (count_metric "switchover")
    o ← lift (deref (get_elem? ss.pods ss.primary))
    ppod ← lift (deref o)
    clear_demote ppod
