-- ===== src/Dbop/Types.antt =====
-- The observed state of a MySQL instance (pkg/dbop/types.go), in the fields that the code reads.
use moco.Prelude.{ℕ, String, Bool, false, ◌&&◌, Option, none, some, List}
use moco.Prelude.{◌==◌}
use moco.Prelude.Int.{ℤ}

pub record GlobalVariables : Type 0 where
  pub uuid : String
  pub executed_gtid : String
  pub purged_gtid : String
  pub read_only : Bool
  pub super_read_only : Bool
  pub wait_for_slave_count : ℕ
  pub semi_sync_master_enabled : Bool
  pub semi_sync_slave_enabled : Bool

-- One row of `SHOW REPLICAS`.
pub record ReplicaHost : Type 0 where
  pub server_id : ℕ
  pub host : String

pub record ReplicaStatus : Type 0 where
  pub source_host : String
  pub retrieved_gtid_set : String
  pub executed_gtid_set : String
  pub replica_io_running : String
  pub replica_sql_running : String
  -- A NULL is `none`.
  pub seconds_behind_source : Option ℕ

-- `(*ReplicaStatus).IsRunning`; its receiver may be nil.
unfoldable pub is_running : Option ReplicaStatus → Bool
is_running none = false
is_running (some rs) = rs.replica_io_running == "Yes" && rs.replica_sql_running == "Yes"

-- `GlobalStatus` has one field, the number of sessions that wait for an acknowledgement.
pub record MySqlInstanceStatus : Type 0 where
  pub is_errant : Bool
  pub global_variables : GlobalVariables
  pub semi_sync_master_wait_sessions : ℕ
  pub replica_hosts : List ReplicaHost
  pub replica_status : Option ReplicaStatus
  -- The `String` of the state: "" for a NULL.
  pub clone_status : Option String

pub record AccessInfo : Type 0 where
  pub host : String
  pub port : ℤ
  pub user : String
  pub password : String
