-- ===== src/Clustering/Process/Status.antt =====
-- `updateStatus` (clustering/process.go): the status that the cluster resource gets.
use moco.Prelude.{
  ℕ, suc, String, ◌<>◌, Bool, true, false, Option, none, some, List, [], ◌∷◌, if◌then◌else◌,
  is_some, length,
}
use moco.Api.Cluster.{MySqlCluster, Condition, ConditionStatus, condition_true, condition_false}
use moco.Api.Pod.{Pod}
use moco.Effects.{M, Env, ◌>>=◌, pure, cluster, command, update_cluster, retry_on_conflict}
use moco.Clustering.StatusSet.{
  ClusterState, cloning, restoring, healthy, degraded, StatusSet, is_pod_ready, state_name,
}

abbrev pub initialized_in : ClusterState → ConditionStatus
initialized_in cloning = condition_false
initialized_in restoring = condition_false
initialized_in _ = condition_true

abbrev pub available_in : ClusterState → ConditionStatus
available_in healthy = condition_true
available_in degraded = condition_true
available_in _ = condition_false

abbrev pub healthy_in : ClusterState → ConditionStatus
healthy_in healthy = condition_true
healthy_in _ = condition_false

-- `updateCond`.
abbrev pub condition : String → ConditionStatus → ClusterState → Condition
condition typ status st = record {
  typ = typ;
  status = status;
  reason = state_name st;
  message = "the current state is " <> state_name st;
}

abbrev pub clustering_active : Condition
clustering_active = record {
  typ = "ClusteringActive";
  status = condition_true;
  reason = "ClusteringActive";
  message = "clustering is active";
}

unfoldable pub conditions_of : Env → ClusterState → List Condition → List Condition
conditions_of env st cs = env.set_condition clustering_active (
    env.set_condition (condition "Healthy" (healthy_in st) st) (
      env.set_condition (condition "Available" (available_in st) st)
        (env.set_condition (condition "Initialized" (initialized_in st) st) cs)))

-- The number of ready pods; a missing pod is not ready.
unfoldable pub synced_replicas : List (Option Pod) → ℕ
synced_replicas [] = 0
synced_replicas (none ∷ rest) = synced_replicas rest
synced_replicas (some pod ∷ rest) =
    let n = synced_replicas rest in if is_pod_ready pod then suc n else n

abbrev is_cloning_state : ClusterState → Bool
is_cloning_state cloning = true
is_cloning_state _ = false

-- The initial clone is over once a cluster with a source is in another state.
unfoldable pub cloned_after : StatusSet → MySqlCluster → Bool
cloned_after ss c =
    if is_some c.spec.replication_source_secret_name
    then (if is_cloning_state ss.state then c.status.cloned else true)
    else c.status.cloned

unfoldable pub new_status : Env → StatusSet → MySqlCluster → MySqlCluster
new_status env ss c = record c {
  status = record c.status {
    conditions = conditions_of env ss.state c.status.conditions;
    synced_replicas = synced_replicas ss.pods;
    errant_replicas = length ss.errants;
    errant_replica_list = ss.errants;
    cloned = cloned_after ss c;
  };
}

module _ (env : Env) where
  -- The write is skipped where nothing has changed: `unchanged` is `equality.Semantic.DeepEqual`.
  unfoldable pub write_status : StatusSet → M (Unit {0})
  write_status ss = do
    c ← cluster env
    if env.unchanged c (new_status env ss c)
        then pure tt
        else command env (update_cluster (new_status env ss c))

  unfoldable pub update_status : StatusSet → M (Unit {0})
  update_status ss = retry_on_conflict env (write_status ss)
