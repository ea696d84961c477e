-- ===== src/Api/Cluster.antt =====
-- `MySQLCluster`: the fields of its spec and status that the clustering code reads or writes
-- (api/v1beta2/mysqlcluster_types.go). A pointer is an `Option`; int and int32 fields, which are
-- never negative in a validated cluster, are natural numbers.
use moco.Prelude.{ℕ, String, Bool, List, [], Option, none}
use moco.Prelude.Dict.{Dict}
use moco.Api.Names

pub record MySqlClusterSpec : Type 0 where
  pub replicas : ℕ
  pub server_id_base : ℕ
  pub replication_source_secret_name : Option String
  -- The name of the source cluster; the other parameters of a restoration are not read here.
  pub restore : Option String
  pub max_delay_seconds_for_pod_deletion : ℕ
  pub startup_wait_seconds : ℕ
  pub offline : Bool

pub data ConditionStatus : Type 0 where
  condition_true condition_false condition_unknown : ConditionStatus

-- `metav1.Condition`, without its time.
pub record Condition : Type 0 where
  pub typ : String
  pub status : ConditionStatus
  pub reason : String
  pub message : String

-- Times and durations are in seconds; a zero time is `none`.
pub record BackupStatus : Type 0 where
  pub time : Option ℕ
  pub elapsed : ℕ
  pub source_index : ℕ
  pub source_uuid : String
  pub uuid_set : Dict String
  pub binlog_filename : String
  pub gtid_set : String
  pub dump_size : ℕ
  pub binlog_size : ℕ
  pub work_dir_usage : ℕ
  pub warnings : List String

pub record MySqlClusterStatus : Type 0 where
  pub conditions : List Condition
  pub current_primary_index : ℕ
  pub synced_replicas : ℕ
  pub errant_replicas : ℕ
  pub errant_replica_list : List ℕ
  -- Seconds since the epoch.
  pub restored_time : Option ℕ
  pub cloned : Bool
  pub backup : BackupStatus

pub record MySqlCluster : Type 0 where
  pub namespace : String
  pub name : String
  pub spec : MySqlClusterSpec
  pub status : MySqlClusterStatus

abbrev pub host_of : MySqlCluster → ℕ → String
host_of c index = Names.pod_hostname c.namespace c.name index

abbrev pub no_backup : BackupStatus
no_backup = record {
  time = none;
  elapsed = 0;
  source_index = 0;
  source_uuid = "";
  uuid_set = [];
  binlog_filename = "";
  gtid_set = "";
  dump_size = 0;
  binlog_size = 0;
  work_dir_usage = 0;
  warnings = [];
}
