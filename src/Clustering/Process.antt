-- ===== src/Clustering/Process.antt =====
-- One operation of a `managerProcess` (clustering/process.go): gather, update the status, act.
pub mod Status
pub mod Footprint
pub mod Offline
pub mod Conditions
use moco.Prelude.{
  ℕ, String, Bool, true, false, not, ◌&&◌, ◌==◌, Option, none, some, deref, Outcome, ok, err, panic,
  if◌then◌else◌, get_elem?,
}
use moco.Prelude
use moco.Effects.{M, Env, Trace, ◌>>=◌, ◌>>◌, pure, fail, lift, note, emit_event}
use moco.Dbop.Types.{MySqlInstanceStatus}
use moco.Clustering.StatusSet.{
  ClusterState, undecided, incomplete, healthy, cloning, restoring, degraded, failed, lost, offline,
  StatusSet, MySqlPassword,
}
use moco.Clustering.Decide.{primary_status}
use moco.Clustering.Gather.{gather_status}
use moco.Clustering.Roles.{remove_ann_prevent_delete, add_ann_prevent_delete}
use moco.Clustering.Switchover.{switchover}
use moco.Clustering.Failover.{failover}
use moco.Clustering.Configure.{configure}
use moco.Clustering.Configure.Instances.{clone}
use moco.Clustering.Process.Status.{update_status}

-- `(*managerProcess).isCloning`: the clone has neither failed nor been left undone.
unfoldable pub is_clone_running : Option MySqlInstanceStatus → Bool
is_clone_running none = true
is_clone_running (some pst) = elim pst.clone_status [
  | none ↦ false
  | some state ↦ not (state == "Failed")
]

-- A result, or the event of a failure before the error.
abbrev pub reporting :
    {A : Type 0} → String → (A → M Bool) → Outcome A × Trace → Outcome Bool × Trace
reporting name f (ok a, tr) = f a tr
reporting name f (err e, tr) = (note (emit_event name) >> fail e) tr
reporting name f (panic, tr) = (panic, tr)

module _ (env : Env) where
  unfoldable pub clone_if_idle : StatusSet → M Bool
  clone_if_idle ss = do
    pst ← lift (primary_status ss)
    if is_clone_running pst then pure false else (do
      name ← lift (deref ss.cluster.spec.replication_source_secret_name)
      (λ tr.
          reporting "InitCloneFailed" (λ redo. note (emit_event "InitCloneSucceeded") >> pure redo)
            (clone env ss name tr)))

  unfoldable pub do_switchover : StatusSet → M Bool
  do_switchover ss tr =
      reporting "SwitchOverFailed" (λ _. note (emit_event "SwitchOverSucceeded") >> pure true)
        (switchover env ss tr)

  unfoldable pub do_failover : StatusSet → M Bool
  do_failover ss tr =
      reporting "FailOverFailed" (λ _. note (emit_event "FailOverSucceeded") >> pure true)
        (failover env ss tr)

  -- The `switch` of `do`; the result says whether to do it again at once.
  unfoldable pub act_in : ClusterState → StatusSet → M Bool
  act_in undecided ss = pure false
  act_in offline ss = pure false
  act_in cloning ss = clone_if_idle ss
  act_in restoring ss = pure false
  act_in healthy ss =
      if ss.need_switch && not ss.prevent_pod_deletion then do_switchover ss else pure false
  act_in degraded ss =
      if ss.need_switch && not ss.prevent_pod_deletion then do_switchover ss else configure env ss
  act_in failed ss = do_failover ss
  act_in lost ss = pure false
  act_in incomplete ss = configure env ss

  unfoldable pub annotate : StatusSet → M (Unit {0})
  annotate ss =
      if ss.prevent_pod_deletion
      then add_ann_prevent_delete env ss
      else remove_ann_prevent_delete env ss

  -- What `do` does with a status set.
  unfoldable pub operate : StatusSet → M Bool
  operate ss = do update_status env ss; annotate ss; act_in ss.state ss

  unfoldable pub do_operation : (Prelude.Dict.Dict String → Outcome MySqlPassword) → M Bool
  do_operation password_of = do ss ← gather_status env password_of; operate ss
