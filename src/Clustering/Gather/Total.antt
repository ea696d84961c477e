-- ===== src/Clustering/Gather/Total.antt =====
-- `GatherStatus` and `DecideState` together (clustering/status.go).
use moco.Prelude.{
  ℕ, ◌≤◌, ◌<◌, ◌≡◌, refl, ◌∙◌, arith, Bool, true, false, not, ◌&&◌, ◌=?◌, Option, none, List,
  Outcome, length, replicate, All, NoPanic, Returns, inr, String, message, if◌then◌else◌,
}
use moco.Prelude.Dict.{Dict}
use moco.Api.Cluster.{MySqlCluster}
use moco.Api.Pod.{Pod}
use moco.Dbop.Types.{MySqlInstanceStatus}
use moco.Effects.{Env, Trace, value, pure, fail, cluster, secret, pod_list}
use moco.Effects.Ends.{Ends, Ends-pure, Ends-fail, Ends-if}
use moco.Effects.Safe.{Safe, Safe-bind, Safe-imp, Safe-lift, Safe-reply, Safe-NoPanic, NoPanic-Safe}
use moco.Clustering.StatusSet.{MySqlPassword}
use moco.Clustering.Decide.Total.{IsFilled, decide_state-Returns}
use moco.Clustering.Gather.{fill_pods, gather_instances, gather_status}
use moco.Clustering.Gather.Instances.{
  HasUuid, HasLength, IsRechecked, length-drop_hung, open_databases-Safe, read_instances-Safe,
  recheck_primary-Safe, find_errants-Safe,
}
use moco.Clustering.Gather.Pods.{
  HasOrdinal, IsFilledFrom, All-Filled, length-replicate, fill_pods-Safe,
}

-- The pods of a StatefulSet: no more than its replicas, with the ordinals from 0 on.
abbrev pub HasOrdinals : Env → ℕ → List Pod → Type 0
HasOrdinals env n items = (length items ≤ n) × ((k : ℕ) → k < length items → HasOrdinal env k items)

-- What the operator finds: a cluster whose status names its own instances, the pods of its
-- StatefulSet, and instances of MySQL, each of which has a UUID.
pub record IsServed (env : Env) (c : MySqlCluster) : Type 0 where
  pub reads : (tr : Trace) (d : MySqlCluster) → env.cluster_of tr ≡ value d → d ≡ c
  pub primary_in : c.status.current_primary_index < c.spec.replicas
  pub errants_in : All (λ i. i < c.spec.replicas) c.status.errant_replica_list
  pub pods_in :
      (tr : Trace) (items : List Pod)
      → env.pods_of tr ≡ value items
      → HasOrdinals env c.spec.replicas items
  pub uuids :
      (tr : Trace) (i : ℕ) (ist : MySqlInstanceStatus)
      → env.status_of tr i ≡ value ist
      → HasUuid ist

-- The slots of the pods, as `GatherStatus` fills them.
abbrev ArePods : MySqlCluster → List (Option Pod) → Type 0
ArePods c pods = (length pods ≡ c.spec.replicas) × (c.spec.offline ≡ false → All IsFilled pods)

-- The guard of the number of pods does not hold.
same_number :
    (offline : Bool) (m n : ℕ) → (not offline && not (m =? n)) ≡ false → offline ≡ false → n ≡ m
same_number true m n h off = cc
same_number false m n h off = ground arith

Returns-Safe : {A : Type 0} (o : Outcome A) → Returns o → Safe (λ _. Unit) o
Returns-Safe o (a, e) = rw e tt

module _ (env : Env) (c : MySqlCluster) (served : IsServed env c) where
  gather_instances-Safe :
      (password : MySqlPassword) (pods : List (Option Pod))
      → ArePods c pods
      → Ends (Safe (λ _. Unit)) (gather_instances env c password pods)
  unfolding gather_instances
  gather_instances-Safe password pods (len, filled) =
      let n = c.spec.replicas in
      let p = c.status.current_primary_index in
      Safe-bind (λ _. Unit) _ (open_databases-Safe env n 0)
        λ u h. Safe-bind (HasLength n) _ (read_instances-Safe env n 0) λ first e.
          Safe-bind (IsRechecked n p) _
            (rw e at (recheck_primary-Safe env served.uuids p first (rw e served.primary_in)))
            λ r k.
              Safe-bind (λ f. length f.0 ≡ n) _ (find_errants-Safe env c n p r served.errants_in k)
                λ found ef. Safe-lift _ _ (
                  Returns-Safe _ (
                    decide_state-Returns _ (record {
                      pods_length = len;
                      status_length = length-drop_hung p 0 found.0 ∙ ef;
                      primary_in = served.primary_in;
                      pods-IsFilled = filled;
                      no_candidate = refl;
                    })))

  -- The slots of the pods in the list, if there are enough of them.
  pods-Safe :
      (items : List Pod)
      → HasOrdinals env c.spec.replicas items
      → (c.spec.offline ≡ false → length items ≡ c.spec.replicas)
      → Safe (ArePods c) (fill_pods env (length items) items (replicate c.spec.replicas none))
  pods-Safe items (few, all) enough =
      let slots : List (Option Pod) = replicate c.spec.replicas none in
      let len : length slots ≡ c.spec.replicas = length-replicate c.spec.replicas none in
      Safe-imp {Q = IsFilledFrom env slots items} _
        (λ l (le, keeps). (
          le ∙ len,
          λ off. All-Filled l (λ k b. keeps k (inr (all k (rw (enough off, ← len, ← le) b)))),
        ))
        (fill_pods-Safe env (length items) items slots (rw len few))

  -- Unless the cluster is offline, there are as many pods as replicas.
  enough-Safe :
      (n : ℕ)
      → Ends (Safe (λ _. c.spec.offline ≡ false → n ≡ c.spec.replicas)) (
          if not c.spec.offline && not (c.spec.replicas =? n)
          then fail (message "too few pods")
          else pure tt)
  enough-Safe n =
      Ends-if (not c.spec.offline && not (c.spec.replicas =? n)) (λ b. Ends-fail _ tt)
        λ b. Ends-pure tt (λ off. same_number c.spec.offline c.spec.replicas n b off)

  module _ (password_of : Dict String → Outcome MySqlPassword)
      (passwords : (d : Dict String) → NoPanic (password_of d)) where
    gather_status-Safe : Ends (Safe (λ _. Unit)) (gather_status env password_of)
    unfolding gather_status cluster secret pod_list
    gather_status-Safe =
        Safe-bind (λ d. d ≡ c) _ (Safe-reply _ _ _ served.reads)
          λ d e. rw e (
            Safe-bind (λ _. Unit) _ (Safe-reply _ _ _ (λ tr a h. tt))
              λ texts h.
                Safe-bind (λ _. Unit) _ (Safe-lift _ _ (NoPanic-Safe _ (passwords texts)))
                  λ password h.
                    Safe-bind (HasOrdinals env c.spec.replicas) _ (Safe-reply _ _ _ served.pods_in)
                      λ items o. Safe-bind _ _ (enough-Safe (length items)) λ u enough.
                        Safe-bind (ArePods c) _ (Safe-lift _ _ (pods-Safe items o enough))
                          λ pods h. gather_instances-Safe password pods h)

-- If the status of the cluster names instances of the cluster, the pods are those of a StatefulSet,
-- each instance has a UUID and the passwords are read without a panic, then `GatherStatus`, with the
-- decision it ends in, does not panic, whatever else it is answered and whatever was called before.
pub gather_status-NoPanic :
    (env : Env) (c : MySqlCluster)
    → IsServed env c
    → (password_of : Dict String → Outcome MySqlPassword)
    → ((d : Dict String) → NoPanic (password_of d))
    → (tr : Trace) → NoPanic (gather_status env password_of tr).0
gather_status-NoPanic env c served password_of passwords tr =
    Safe-NoPanic _ ((gather_status-Safe env c served password_of passwords).run tr)
