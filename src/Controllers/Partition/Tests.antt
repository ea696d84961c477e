-- ===== src/Controllers/Partition/Tests.antt =====
-- A rolling update of three pods, at which the theorems on the partition are applied.
use moco.Prelude.{◌≡◌, refl, arith, String, true, none, some, [], ◌∷◌, ok, NoPanic, ◌==◌}
use moco.Effects.{value}
use moco.Controllers.Partition.{
  RolloutPod, StatefulSet, OwningCluster, PartitionEnv, Reconciled, next_rollout_target,
  need_partition_update, sorted_pods, insert_pod, all_ready, is_settled, others_settled,
  target_ready, target_rollout_ready, pods_rollout_ready, is_rollout_ready, patch_from,
  patched_with, patch_new_partition, advance, is_stale, reconcile_cluster,
}
use moco.Controllers.Partition.Rollout.{Lowered, reconcile_cluster-Lowered}
use moco.Controllers.Partition.Total.{reconcile_cluster-NoPanic}
use moco.Prelude.Dict

abbrev pod : String → String → RolloutPod
pod name revision = record {
  name = name;
  labels = ("controller-revision-hash", revision) ∷ [];
  deletion_timestamp = none;
  init_containers = true ∷ [];
  containers = true ∷ true ∷ [];
}

abbrev statefulset : StatefulSet
statefulset = record {
  generation = 4;
  observed_generation = 4;
  annotations = [];
  owners = record { kind = "MySQLCluster"; name = "test" } ∷ [];
  replicas = some 3;
  updated_replicas = 1;
  update_revision = "new";
  rolling_update = some (some 2);
}

abbrev owner : OwningCluster
owner = record { generation = 7; reconciled_generation = 7; conditions = [] }

abbrev env : PartitionEnv
env = record {
  get_statefulset = value statefulset;
  get_cluster = λ name. value owner;
  list_pods =
      value (pod "moco-test-1" "old" ∷ pod "moco-test-0" "old" ∷ pod "moco-test-2" "new" ∷ []);
  patch = none;
  allows = true;
  update_interval = 60;
  is_pod_ready = λ p. true;
  is_pod_available = λ p. true;
  is_condition_true = λ cs name. name == "Healthy";
}

abbrev lowered : Reconciled
lowered = record { requeue_after = 10; patched = some 1 }

reconcile_cluster_run : reconcile_cluster env statefulset owner ≡ ok lowered
unfolding next_rollout_target need_partition_update sorted_pods insert_pod all_ready is_settled
    others_settled target_ready target_rollout_ready pods_rollout_ready is_rollout_ready patch_from
    patched_with patch_new_partition advance is_stale reconcile_cluster Dict.lookup
reconcile_cluster_run = refl

reconcile_cluster-Lowered_example : Lowered env statefulset owner 1
reconcile_cluster-Lowered_example =
    reconcile_cluster-Lowered env statefulset owner lowered 1 reconcile_cluster_run refl

reconcile_cluster-NoPanic_example : NoPanic (reconcile_cluster env statefulset owner)
reconcile_cluster-NoPanic_example = reconcile_cluster-NoPanic env statefulset owner (omega arith)
