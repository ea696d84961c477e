-- ===== src/Effects/Scene.antt =====
-- A cluster, and an environment in which each call succeeds.
use moco.Prelude.{true, false, none, some, [], ◌∷◌, if◌then◌else◌, ◌==◌, message}
use moco.Prelude.Int.{pos}
use moco.Api.Cluster.{MySqlCluster, BackupStatus}
use moco.Effects.{Env, value, failure}

abbrev pub cluster_with : BackupStatus → MySqlCluster
cluster_with b = record {
  namespace = "ns";
  name = "test";
  spec = record {
    replicas = 3;
    server_id_base = 10;
    replication_source_secret_name = none;
    restore = none;
    max_delay_seconds_for_pod_deletion = 0;
    startup_wait_seconds = 60;
    offline = false;
  };
  status = record {
    conditions = [];
    current_primary_index = 0;
    synced_replicas = 3;
    errant_replicas = 0;
    errant_replica_list = [];
    restored_time = none;
    cloned = false;
    backup = b;
  };
}

-- The ordinals below three are read from texts.
abbrev pub calm : BackupStatus → Env
calm b = record {
  result = λ tr c. none;
  status_of = λ tr i. failure (message "no status");
  gtid_difference = λ tr i s t. value "";
  gtid_subset = λ tr i s t. value true;
  cluster_of = λ tr. value (cluster_with b);
  secret_of = λ tr s. value [];
  pods_of = λ tr. value [];
  is_slow = λ tr. false;
  is_done = λ tr. false;
  atoi = λ s.
      if s == "0"
      then some (pos 0)
      else if s == "1"
      then some (pos 1)
      else if s == "2"
      then some (pos 2)
      else none;
  parse_int32 = λ s. none;
  unchanged = λ c d. true;
  set_condition = λ c cs. c ∷ cs;
  retries = λ tr. 4;
}
