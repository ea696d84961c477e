-- ===== src/Clustering/Process/Footprint.antt =====
-- Which calls one operation may make, by the state of the cluster (clustering/process.go;
-- docs/clustering.md, "Possible states" and "The maintenance flow").
use moco.Prelude.{
  ◌≡◌, refl, String, Bool, true, false, not, ◌&&◌, ◌⊎◌, inl, inr, Option, List, [], ◌∷◌, Outcome,
  ok, err, panic, is_some,
}
use moco.Prelude.Dict.{lookup}
use moco.Api.Cluster.{MySqlCluster}
use moco.Api.Pod.{Pod}
use moco.Effects.{
  M, Env, Trace, Entry, Call, ◌>>◌, note, read_cluster, read_secret, update_cluster, patch_pod,
  get_status, connect_agent, clone_data, emit_event,
}
use moco.Effects.Triple.{After}
use moco.Effects.Only.{
  Only, OnlyCalls, Only-pure, Only-fail, Only-if, Only-if-known, Only-lift, Only-bind, Only-command,
  Only-note, Only-cluster, Only-secret, Only-wait_restart, Only-retry_on_conflict, Only-imp,
  Only-calls,
}
use moco.Clustering.StatusSet.{
  ClusterState, undecided, incomplete, healthy, cloning, restoring, degraded, failed, lost, offline,
  StatusSet,
}
use moco.Clustering.Decide.{primary_status}
use moco.Clustering.Roles.{
  allow_delete, remove_ann_prevent_delete, add_ann_prevent_delete, prevent_delete,
}
use moco.Clustering.Configure.Footprint.{ConfigureMay, configure-Only}
use moco.Clustering.Configure.Instances.{clone}
use moco.Clustering.Switchover.Footprint.{SwitchoverMay, switchover-Only}
use moco.Clustering.Failover.Footprint.{FailoverMay, failover-Only}
use moco.Clustering.Process.{
  is_clone_running, reporting, clone_if_idle, do_switchover, do_failover, act_in, annotate, operate,
}
use moco.Clustering.Process.Status.{new_status, write_status, update_status}

-- The calls that come before the action: a cluster that is written is one that was read, with the
-- status fields of this operation.
abbrev pub ReportMay : Env → StatusSet → Call → Type 0
ReportMay env ss read_cluster = Unit
ReportMay env ss (update_cluster c) = (read : MySqlCluster) × (c ≡ new_status env ss read)
ReportMay env ss (patch_pod p q) = Unit
ReportMay env ss _ = ⊥

-- The initial clone concerns the primary alone.
abbrev pub CloneMay : StatusSet → Call → Type 0
CloneMay ss (read_secret s) = Unit
CloneMay ss (connect_agent i) = i ≡ ss.primary
CloneMay ss (clone_data i req) = i ≡ ss.primary
CloneMay ss (get_status i) = i ≡ ss.primary
CloneMay ss (emit_event s) = Unit
CloneMay ss _ = ⊥

abbrev pub wants_switchover : StatusSet → Bool
wants_switchover ss = ss.need_switch && not ss.prevent_pod_deletion

-- What the operation of a state may do, besides its reports.
abbrev pub ActMay : ClusterState → StatusSet → Call → Type 0
ActMay undecided ss c = ⊥
ActMay offline ss c = ⊥
ActMay restoring ss c = ⊥
ActMay lost ss c = ⊥
ActMay cloning ss c = CloneMay ss c
ActMay healthy ss c = (wants_switchover ss ≡ true) × SwitchoverMay ss c
ActMay degraded ss c =
    ((wants_switchover ss ≡ true) × SwitchoverMay ss c)
    ⊎ ((wants_switchover ss ≡ false) × ConfigureMay ss c)
ActMay failed ss c = FailoverMay ss c
ActMay incomplete ss c = ConfigureMay ss c

abbrev pub OperateMay : Env → StatusSet → Call → Type 0
OperateMay env ss c = ReportMay env ss c ⊎ ActMay ss.state ss c

module _ (env : Env) (ss : StatusSet) where
  Only-update_status : Only (ReportMay env ss) (update_status env ss)
  unfolding update_status write_status
  Only-update_status = Only-retry_on_conflict env (
      Only-bind (Only-cluster env tt) λ c.
        Only-if (env.unchanged c (new_status env ss c)) (Only-pure tt)
          (Only-command env (update_cluster (new_status env ss c)) (c, refl)))

  Only-allow_delete : (pods : List (Option Pod)) → Only (ReportMay env ss) (allow_delete env pods)
  unfolding allow_delete
  Only-allow_delete [] = Only-pure tt
  Only-allow_delete (o ∷ rest) = Only-bind (Only-lift _) λ pod.
      Only-bind
        (Only-if (is_some (lookup prevent_delete pod.annotations))
          (Only-command env (patch_pod pod _) tt) (Only-pure tt))
        λ _. Only-allow_delete rest

  Only-annotate : Only (ReportMay env ss) (annotate env ss)
  unfolding annotate add_ann_prevent_delete remove_ann_prevent_delete
  Only-annotate =
      Only-if ss.prevent_pod_deletion
        (Only-bind (Only-lift _) λ o. Only-bind (Only-lift _) λ pod.
          Only-if (is_some (lookup prevent_delete pod.annotations)) (Only-pure tt)
            (Only-command env (patch_pod pod _) tt))
        (Only-allow_delete ss.pods)

  Only-clone : (name : String) → Only (CloneMay ss) (clone env ss name)
  unfolding clone
  Only-clone name = Only-bind (Only-secret env name tt) λ d. Only-bind (Only-lift _) λ req.
      Only-bind (Only-command env (connect_agent ss.primary) refl) λ _.
        Only-bind (Only-command env (clone_data ss.primary req) refl)
          λ _. Only-bind (Only-wait_restart env 60 ss.primary refl) λ _. Only-pure true

module _ {A : Type 0} (may : Call → Type 0) (name : String) (said : may (emit_event name))
    (f : A → M Bool) (onward : (a : A) → Only may (f a)) (R : Trace → Type 0)
    (w : (e : Entry) → may e.call → (tr : Trace) → R tr → R (e ∷ tr)) where
  reporting-kept :
      (env : Env) (r : Outcome A × Trace)
      → After (λ _. R) (R) (R) r
      → After (λ _. R) (R) (R) (reporting name f r)
  reporting-kept env (ok a, tr) h = ((onward a).kept R w).run tr h
  reporting-kept env (err e, tr) h =
      ((Only-bind (Only-note env (emit_event name) said) (λ _. Only-fail e)).kept R w).run tr h
  reporting-kept env (panic, tr) h = h

module _ {A : Type 0} (may : Call → Type 0) (name : String) (said : may (emit_event name))
    (f : A → M Bool) (onward : (a : A) → Only may (f a)) where
  Only-reporting : (env : Env) {m : M A} → Only may m → Only may (λ tr. reporting name f (m tr))
  Only-reporting env h = record {
    kept = λ R w. record {
      run = λ tr p. reporting-kept may name said f onward R w env _ ((h.kept R w).run tr p);
    };
  }

module _ (env : Env) (ss : StatusSet) where
  said :
      {may : Call → Type 0} (name : String) (b : Bool)
      → may (emit_event name)
      → Only may (note (emit_event name) >> (λ tr. (ok b, tr)))
  said name b h = Only-bind (Only-note env (emit_event name) h) λ _. Only-pure b

  Only-clone_if_idle : Only (CloneMay ss) (clone_if_idle env ss)
  unfolding clone_if_idle
  Only-clone_if_idle = Only-bind (Only-lift (primary_status ss)) λ pst.
      Only-if (is_clone_running pst) (Only-pure false) (
        Only-bind (Only-lift _) λ name.
          Only-reporting (CloneMay ss) "InitCloneFailed" tt _
            (λ redo. said "InitCloneSucceeded" redo tt) env (Only-clone env ss name))

  Only-do_switchover : Only (SwitchoverMay ss) (do_switchover env ss)
  unfolding do_switchover
  Only-do_switchover =
      Only-reporting (SwitchoverMay ss) "SwitchOverFailed" tt _
        (λ _. said "SwitchOverSucceeded" true tt) env (switchover-Only env ss)

  Only-do_failover : Only (FailoverMay ss) (do_failover env ss)
  unfolding do_failover
  Only-do_failover =
      Only-reporting (FailoverMay ss) "FailOverFailed" tt _ (λ _. said "FailOverSucceeded" true tt)
        env (failover-Only env ss)

  Only-act_in : (st : ClusterState) → Only (ActMay st ss) (act_in env st ss)
  unfolding act_in
  Only-act_in undecided = Only-pure false
  Only-act_in offline = Only-pure false
  Only-act_in restoring = Only-pure false
  Only-act_in lost = Only-pure false
  Only-act_in cloning = Only-clone_if_idle
  Only-act_in healthy =
      Only-if-known (wants_switchover ss) (λ w. Only-imp (λ c h. (w, h)) Only-do_switchover)
        (λ w. Only-pure false)
  Only-act_in degraded =
      Only-if-known (wants_switchover ss) (λ w. Only-imp (λ c h. inl (w, h)) Only-do_switchover)
        (λ w. Only-imp (λ c h. inr (w, h)) (configure-Only env ss))
  Only-act_in failed = Only-do_failover
  Only-act_in incomplete = configure-Only env ss

  pub operate-Only : Only (OperateMay env ss) (operate env ss)
  unfolding operate
  operate-Only = Only-bind (Only-imp (λ c h. inl h) (Only-update_status env ss)) λ _.
      Only-bind (Only-imp (λ c h. inl h) (Only-annotate env ss))
        λ _. Only-imp (λ c h. inr h) (Only-act_in ss.state)

-- However its calls end, each call of an operation is one that its state allows: besides the patches of
-- pods and the write of a status for the cluster that was read, none in the states Offline, Restoring
-- and Lost; those of the initial clone, on the primary, in Cloning; those of a switchover in Healthy and
-- Degraded, where one is wanted and no delay prevents it; those of the configuration in Incomplete, and
-- in Degraded where no switchover is made; those of a failover in Failed.
pub operate_calls :
    (env : Env) (ss : StatusSet) → OnlyCalls (OperateMay env ss) (operate env ss []).1
operate_calls env ss = Only-calls (operate env ss) (operate-Only env ss)
