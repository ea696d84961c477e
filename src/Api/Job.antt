-- ===== src/Api/Job.antt =====
-- The calls that a backup or a restoration makes besides those of the Kubernetes API
-- (`bkop.Operator`, `bucket.Bucket`, the file system, and the commands tar and zstd).
use moco.Prelude.{ℕ, String}

pub data JobCall : Type 0 where
  -- `newOperator` and the methods of the operator, which is named by its address.
  open_operator ping get_server_status : String → JobCall
  dump_full get_binlogs : String → JobCall
  -- From which file on, and from which GTID set on.
  dump_binlog : String → String → String → JobCall
  prepare_restore finish_restore : String → JobCall
  -- The schema and the users that are loaded.
  load_dump : String → String → String → JobCall
  -- Until when, and of which schema.
  load_binlog : String → ℕ → String → JobCall
  -- `GetGTIDExecuted` of the dump's directory.
  read_dump_gtid : JobCall
  list_objects get_object : String → JobCall
  put_object : String → ℕ → JobCall
  read_pod : String → JobCall
  -- Directories and commands of the file system and the operating system.
  make_directory measure_directory : String → JobCall
  open_pipe get_reference : JobCall
  start_command wait_command : String → JobCall
