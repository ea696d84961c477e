-- ===== src/Clustering/Tests.antt =====
-- A cluster of three instances, at which the theorems on clustering/ are applied.
mod Calls
mod Gathering
use moco.Prelude.{
  ℕ, zero, suc, ◌≡◌, ◌<◌, ◌/◌, refl, arith, String, Bool, true, false, Option, none, some, List, [],
  ◌∷◌, All, Outcome, ok, err, panic, deref, Error, message, ◌=?◌, ◌==◌, leb, if◌then◌else◌,
  replicate, length, Returns, leb→le, ◌≤◌, get_elem?, contains, sort_ints,
}
use moco.Prelude.Dict.{Dict}
use moco.Prelude.Int.{ℤ, pos}
use moco.Prelude.Int
use moco.Prelude.Dict
use moco.Api.Names
use moco.Api.Cluster.{
  no_backup, MySqlCluster, MySqlClusterSpec, MySqlClusterStatus, Condition, condition_true,
  condition_false, host_of,
}
use moco.Api.Pod.{Pod, PodCondition}
use moco.Dbop.Types.{MySqlInstanceStatus, GlobalVariables, ReplicaStatus, ReplicaHost}
use moco.Effects.{Env, Trace, Call, Reply, value, failure}
use moco.Effects.Only.{OnlyCalls}
use moco.Effects.Order.{Justified}
use moco.Clustering.StatusSet.{
  ClusterState, undecided, healthy, failed, offline, degraded, incomplete, StatusSet, MySqlPassword,
  healthy_primary, healthy_replicas, is_sound_replica, follows, lost_data, all_pods_ready,
  is_pod_ready, replicas_in_cluster, primary_mode_ok,
}
use moco.Clustering.Decide.{
  decide_state, decide, after_offline, is_cloning, after_cloning, is_restoring, decide_up,
  is_healthy, healthy_instances, after_replicas, primary_status, after_healthy, choose_target,
  pod_at, need_switch, is_degraded, after_degraded, decide_down, is_failed, primary_gone,
  count_ok_replicas, holds_data,
}
use moco.Clustering.Decide.Total.{IsGathered, decide_state-Returns}
use moco.Clustering.Decide.Meaning.{Describes}
use moco.Clustering.Decide.State.{decide_state-Describes}
use moco.Clustering.Decide.Target.{IsTarget, switchover-IsTarget}
use moco.Clustering.Decide.Quorum.{IsWitness, count_acked, failed-overlap}

abbrev pub spec : Bool → MySqlClusterSpec
spec off = record {
  replicas = 3;
  server_id_base = 10;
  replication_source_secret_name = none;
  restore = none;
  max_delay_seconds_for_pod_deletion = 0;
  startup_wait_seconds = 60;
  offline = off;
}

abbrev pub cluster_status : MySqlClusterStatus
cluster_status = record {
  conditions = [];
  current_primary_index = 0;
  synced_replicas = 0;
  errant_replicas = 0;
  errant_replica_list = [];
  restored_time = none;
  cloned = false;
  backup = no_backup;
}

abbrev pub cluster : Bool → MySqlCluster
cluster off = record { namespace = "ns"; name = "test"; spec = spec off; status = cluster_status }

abbrev pub password : MySqlPassword
password = record { admin = "a"; donor = "d"; replicator = "r" }

-- A ready pod; `leaving` is the time of its deletion.
abbrev pub pod : String → Option ℕ → Pod
pod name leaving = record {
  name = name;
  labels = [];
  annotations = [];
  deletion_timestamp = leaving;
  conditions = record { typ = "Ready"; status = condition_true } ∷ [];
  pod_ip = "10.0.0.1";
}

abbrev pub vars : String → Bool → GlobalVariables
vars gtid ro = record {
  uuid = "u0";
  executed_gtid = gtid;
  purged_gtid = "";
  read_only = ro;
  super_read_only = ro;
  wait_for_slave_count = 1;
  semi_sync_master_enabled = true;
  semi_sync_slave_enabled = true;
}

abbrev pub primary_instance : MySqlInstanceStatus
primary_instance = record {
  is_errant = false;
  global_variables = vars "u0:1-5" false;
  semi_sync_master_wait_sessions = 0;
  replica_hosts =
      record { server_id = 11; host = "r1" } ∷ record { server_id = 12; host = "r2" } ∷ [];
  replica_status = none;
  clone_status = none;
}

abbrev pub replication : String → ReplicaStatus
replication retrieved = record {
  source_host = host_of (cluster false) 0;
  retrieved_gtid_set = retrieved;
  executed_gtid_set = "u0:1-4";
  replica_io_running = "Yes";
  replica_sql_running = "Yes";
  seconds_behind_source = some 0;
}

abbrev pub replica : String → Bool → MySqlInstanceStatus
replica retrieved errant = record {
  is_errant = errant;
  global_variables = vars "u0:1-4" true;
  semi_sync_master_wait_sessions = 0;
  replica_hosts = [];
  replica_status = some (replication retrieved);
  clone_status = none;
}

abbrev pub gathered : Bool → Option ℕ → List (Option MySqlInstanceStatus) → String → StatusSet
gathered off leaving statuses executed = record {
  primary = 0;
  cluster = cluster off;
  password = password;
  pods =
      some (pod "moco-test-0" leaving)
      ∷ some (pod "moco-test-1" none)
      ∷ some (pod "moco-test-2" none)
      ∷ [];
  mysql_status = statuses;
  executed_gtid = executed;
  errants = [];
  candidates = [];
  need_switch = false;
  prevent_pod_deletion = false;
  candidate = 0;
  state = undecided;
}

-- All is well, but the primary's pod is being deleted.
abbrev pub leaving_set : StatusSet
leaving_set =
    gathered false (some 7)
      (some primary_instance ∷ some (replica "u0:1-5" false) ∷ some (replica "u0:1-4" false) ∷ [])
      "u0:1-5"

leaving_set-IsGathered : IsGathered leaving_set
leaving_set-IsGathered = record {
  pods_length = refl;
  status_length = refl;
  primary_in = omega arith;
  pods-IsFilled = λ e. (refl, (refl, (refl, tt)));
  no_candidate = refl;
}

abbrev pub leaving_result : StatusSet
leaving_result = record leaving_set {
  state = healthy;
  candidates = 1 ∷ 2 ∷ [];
  candidate = 1;
  need_switch = true;
}

decide_leaving : decide_state leaving_set ≡ ok leaving_result
unfolding decide_state decide after_offline is_cloning after_cloning is_restoring decide_up
    is_healthy healthy_instances after_replicas primary_status healthy_primary healthy_replicas
    is_sound_replica follows all_pods_ready is_pod_ready replicas_in_cluster primary_mode_ok
    after_healthy choose_target pod_at need_switch sort_ints Names.pod_hostname Int.add_int32
decide_leaving = refl

-- The primary does not answer.
abbrev pub down_set : StatusSet
down_set =
    gathered false none (none ∷ some (replica "u0:1-5" false) ∷ some (replica "u0:1-4" false) ∷ [])
      ""

down_set-IsGathered : IsGathered down_set
down_set-IsGathered = record {
  pods_length = refl;
  status_length = refl;
  primary_in = omega arith;
  pods-IsFilled = λ e. (refl, (refl, (refl, tt)));
  no_candidate = refl;
}

abbrev pub down_result : StatusSet
down_result = record down_set { state = failed; candidates = 1 ∷ 2 ∷ []; candidate = 1 }

decide_down_set : decide_state down_set ≡ ok down_result
unfolding decide_state decide after_offline is_cloning after_cloning is_restoring decide_up
    is_healthy healthy_instances after_replicas primary_status healthy_primary healthy_replicas
    is_sound_replica follows all_pods_ready is_pod_ready replicas_in_cluster primary_mode_ok
    after_healthy choose_target pod_at need_switch sort_ints Names.pod_hostname Int.add_int32
    is_degraded lost_data after_degraded decide_down is_failed primary_gone count_ok_replicas
    holds_data Dict.lookup
decide_down_set = refl

decide_state-Returns_example : Returns (decide_state leaving_set)
decide_state-Returns_example = decide_state-Returns leaving_set leaving_set-IsGathered

decide_state-Describes_example : Describes leaving_set leaving_result.state
decide_state-Describes_example = decide_state-Describes leaving_set leaving_result decide_leaving

switchover-IsTarget_example :
    IsTarget leaving_set leaving_result.candidate
    × All (λ c. leaving_result.candidate ≤ c) leaving_result.candidates
switchover-IsTarget_example =
    switchover-IsTarget leaving_set leaving_result leaving_set-IsGathered refl decide_leaving refl

down_set-quorum :
    down_set.cluster.spec.replicas / 2
    ≤ count_acked (λ j. j =? 2) down_set.primary 0 down_set.mysql_status
unfolding count_acked
down_set-quorum = omega arith

failed-overlap_example : (i : ℕ) × IsWitness (λ j. j =? 2) down_set.primary down_set.mysql_status i
failed-overlap_example =
    failed-overlap down_set down_result (λ j. j =? 2) down_set-IsGathered decide_down_set refl
      down_set-quorum
