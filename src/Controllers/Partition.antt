-- ===== src/Controllers/Partition.antt =====
-- The controller that lowers the partition of a StatefulSet step by step, so that a rolling update
-- restarts one pod at a time (controllers/partition_controller.go). The calls of the Kubernetes API
-- and of the libraries are answered by a record; each call is made at most once.
pub mod Rollout
pub mod Total
mod Tests
use Prim.Native.String.{compare}
use Prim.Native.Nat.{lt, eq, gt}
use moco.Prelude.{
  ℕ, zero, suc, String, Bool, true, false, not, ◌&&◌, ◌||◌, ◌==◌, ◌=?◌, ltb, leb, Option, none,
  some, List, [], ◌∷◌, deref, Outcome, ok, err, panic, ◌>>=◌, Error, not_found, message,
  if◌then◌else◌, is_some, get_or, get_elem?, length,
}
use moco.Prelude.Dict.{Dict, value_of}
use moco.Api.Cluster.{Condition}
use moco.Effects.{Reply, value, failure}

pub record RolloutPod : Type 0 where
  pub name : String
  pub labels : Dict String
  pub deletion_timestamp : Option ℕ
  -- Whether each container is ready.
  pub init_containers : List Bool
  pub containers : List Bool

pub record OwnerReference : Type 0 where
  pub kind : String
  pub name : String

-- The fields of `appsv1.StatefulSet` that the code reads; `rolling_update` holds the partition.
pub record StatefulSet : Type 0 where
  pub generation : ℕ
  pub observed_generation : ℕ
  pub annotations : Dict String
  pub owners : List OwnerReference
  pub replicas : Option ℕ
  pub updated_replicas : ℕ
  pub update_revision : String
  pub rolling_update : Option (Option ℕ)

-- The cluster, with the generation of its `ReconcileInfo`.
pub record OwningCluster : Type 0 where
  pub generation : ℕ
  pub reconciled_generation : ℕ
  pub conditions : List Condition

pub record PartitionEnv : Type 0 where
  pub get_statefulset : Reply StatefulSet
  pub get_cluster : String → Reply OwningCluster
  pub list_pods : Reply (List RolloutPod)
  pub patch : Option Error
  -- `r.RateLimiter.Allow`.
  pub allows : Bool
  pub update_interval : ℕ
  -- `podutils.IsPodReady`, and `podutils.IsPodAvailable` with five seconds.
  pub is_pod_ready : RolloutPod → Bool
  pub is_pod_available : RolloutPod → Bool
  -- `meta.IsStatusConditionTrue`.
  pub is_condition_true : List Condition → String → Bool

-- When to come back, in seconds (0 is never), and the partition that has been written.
pub record Reconciled : Type 0 where
  pub requeue_after : ℕ
  pub patched : Option ℕ

abbrev pub revision_of : RolloutPod → String
revision_of pod = value_of "controller-revision-hash" pod.labels

abbrev from_reply : {A : Type 0} → Reply A → Outcome A
from_reply (value a) = ok a
from_reply (failure e) = err e

abbrev requeue : ℕ → Reconciled
requeue n = record { requeue_after = n; patched = none }

abbrev pub flatten : Option (Option ℕ) → Option ℕ
flatten none = none
flatten (some o) = o

-- The index of the pod below the partition: `none` where the source has a negative number.
unfoldable pub next_rollout_target : Option (Option ℕ) → Option ℕ
next_rollout_target (some (some (suc n))) = some n
next_rollout_target _ = none

abbrev pub positive : Option ℕ → Bool
positive none = false
positive (some n) = ltb 0 n

unfoldable pub need_partition_update : StatefulSet → Bool
need_partition_update sts =
    not (value_of "moco.cybozu.com/force-rolling-update" sts.annotations == "true")
    && positive (flatten sts.rolling_update)

-- `sort.Slice` by name.
abbrev precedes : RolloutPod → RolloutPod → Bool
precedes a b = elim (compare a.name b.name) [ lt ↦ true | eq ↦ true | gt ↦ false ]

unfoldable pub insert_pod : RolloutPod → List RolloutPod → List RolloutPod
insert_pod a [] = a ∷ []
insert_pod a (b ∷ bs) = if precedes a b then a ∷ b ∷ bs else b ∷ insert_pod a bs

unfoldable pub sorted_pods : List RolloutPod → List RolloutPod
sorted_pods [] = []
sorted_pods (a ∷ bs) = insert_pod a (sorted_pods bs)

unfoldable pub all_ready : List Bool → Bool
all_ready [] = true
all_ready (b ∷ bs) = b && all_ready bs

-- The cluster's reconciliation or the StatefulSet's controller is behind.
unfoldable pub is_stale : OwningCluster → StatefulSet → Bool
is_stale c sts =
    not (c.generation =? c.reconciled_generation) || not (sts.generation =? sts.observed_generation)

-- The result of the patch that writes `n`.
unfoldable pub patched_with : Option Error → ℕ → Outcome (Option ℕ)
patched_with none n = ok (some n)
patched_with (some e) n = err e

module _ (env : PartitionEnv) where
  unfoldable pub get_mysql_cluster : List OwnerReference → Outcome OwningCluster
  get_mysql_cluster [] = err (message "no owner reference")
  get_mysql_cluster (o ∷ os) =
      if o.kind == "MySQLCluster" then from_reply (env.get_cluster o.name) else get_mysql_cluster os

  -- What the loop of `areAllChildPodsRolloutReady` asks of the pod at index `i`.
  unfoldable pub is_settled : ℕ → String → ℕ → RolloutPod → Bool
  is_settled partition revision i pod =
      (not (leb partition i) || revision_of pod == revision)
      && (not (is_some pod.deletion_timestamp)
          && (env.is_pod_available pod
              && (all_ready pod.init_containers && all_ready pod.containers)))

  -- From index `i` on; the target of the rollout is passed over.
  unfoldable pub others_settled : ℕ → String → ℕ → ℕ → List RolloutPod → Bool
  others_settled partition revision target i [] = true
  others_settled partition revision target i (pod ∷ rest) =
      ((i =? target) || is_settled partition revision i pod)
      && others_settled partition revision target (suc i) rest

  -- The pod at the target decides, or else the others and the health of the cluster.
  unfoldable pub target_ready :
      OwningCluster → StatefulSet → ℕ → List RolloutPod → RolloutPod → Bool
  target_ready c sts i pods pod =
      (revision_of pod == sts.update_revision)
      || (not (env.is_pod_ready pod && not (env.is_condition_true c.conditions "Healthy"))
          && others_settled (get_or 0 (flatten sts.rolling_update)) sts.update_revision i 0 pods)

  unfoldable pub target_rollout_ready :
      OwningCluster → StatefulSet → List RolloutPod → Option ℕ → Outcome Bool
  target_rollout_ready c sts pods none = ok false
  target_rollout_ready c sts pods (some i) =
      deref (get_elem? pods i) >>= λ pod. ok (target_ready c sts i pods pod)

  unfoldable pub pods_rollout_ready : OwningCluster → StatefulSet → List RolloutPod → Outcome Bool
  pods_rollout_ready c sts pods =
      if get_or 1 sts.replicas =? length pods
      then target_rollout_ready c sts pods (next_rollout_target sts.rolling_update)
      else ok false

  unfoldable pub is_rollout_ready : OwningCluster → StatefulSet → Outcome Bool
  is_rollout_ready c sts =
      if get_or 1 sts.replicas =? sts.updated_replicas
      then ok true
      else (from_reply env.list_pods >>= λ items. pods_rollout_ready c sts (sorted_pods items))

  unfoldable pub patch_from : ℕ → Outcome (Option ℕ)
  patch_from zero = ok none
  patch_from (suc n) = patched_with env.patch n

  unfoldable pub patch_new_partition : StatefulSet → Outcome (Option ℕ)
  patch_new_partition sts = deref (flatten sts.rolling_update) >>= patch_from

  unfoldable pub advance : StatefulSet → Bool → Outcome Reconciled
  advance sts false = ok (requeue 30)
  advance sts true =
      if env.allows
      then (patch_new_partition sts >>= λ new. ok (record { requeue_after = 10; patched = new }))
      else ok (requeue env.update_interval)

  unfoldable pub reconcile_cluster : StatefulSet → OwningCluster → Outcome Reconciled
  reconcile_cluster sts c =
      if is_stale c sts
      then ok (requeue 10)
      else if need_partition_update sts
      then (is_rollout_ready c sts >>= advance sts)
      else ok (requeue 0)

  unfoldable pub reconcile_from : Reply StatefulSet → Outcome Reconciled
  reconcile_from (value sts) = get_mysql_cluster sts.owners >>= reconcile_cluster sts
  reconcile_from (failure not_found) = ok (requeue 0)
  reconcile_from (failure e) = err e

  unfoldable pub reconcile_partition : Outcome Reconciled
  reconcile_partition = reconcile_from env.get_statefulset
