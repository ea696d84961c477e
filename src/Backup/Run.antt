-- ===== src/Backup/Run.antt =====
-- A backup (`Backup`, `GetUUIDSet`, `backupFull` and `backupBinlog` of backup/backup.go; pkg/bkop/binlog.go).
-- The commands, the file system, the bucket and the instances are answered by an environment. Closing
-- a connection or a pipe and removing a directory are no calls: their results are not looked at.
pub mod Steps
pub mod Sources
pub mod Order
use moco.Prelude.{
  ℕ, zero, suc, ◌-◌, String, ◌<>◌, ◌==◌, ◌=?◌, ltb, Bool, true, false, Option, none, some, List, [],
  ◌∷◌, ◌++◌, Outcome, ok, err, deref, message, if◌then◌else◌, get_elem?, length, replicate,
}
use moco.Prelude.Dict.{Dict, insert}
use moco.Prelude.Int.{ℤ, ltb_ℤ, pos}
use moco.Api.Names.{decimal, pod_hostname}
use moco.Api.Cluster.{MySqlCluster, BackupStatus}
use moco.Api.Pod.{Pod}
use moco.Api.Job.{
  JobCall, open_operator, get_server_status, dump_full, read_dump_gtid, get_binlogs, dump_binlog,
  put_object, make_directory, measure_directory, open_pipe, start_command, wait_command,
}
use moco.Effects.{
  M, Trace, Env, Reply, value, failure, pure, fail, lift, ◌>>=◌, ◌>>◌, command, pod_list, attempt,
  record_reply, modify_cluster, retry_on_conflict, of_job, emit_event,
}
use moco.Clustering.Gather.{fill_pods}
use moco.Clustering.Gather.Text.{split}
use moco.Backup.Choice.{Slots, Chosen, pod_is_ready, choose_pod}

-- The fields of `bkop.ServerStatus`.
pub record ServerStatus : Type 0 where
  pub super_read_only : Bool
  pub uuid : String
  pub current_binlog : String

pub record BackupEnv : Type 0 where
  pub base : Env
  pub server_status_of : Trace → String → Reply ServerStatus
  pub dump_gtid_of : Trace → Reply String
  pub usage_of : Trace → String → Reply ℕ
  pub binlogs_of : Trace → Reply (List String)
  -- How many bytes the last upload has written.
  pub written : Trace → ℕ
  -- `time.Now`, and `Format` with the layout of object keys.
  pub now : Trace → ℕ
  pub format_time : ℕ → String
  -- `strconv.ParseInt` with base 10 and 64 bits; 0 stands for its error.
  pub parse_int64 : String → ℤ

-- `path.Join` of parts without slashes.
unfoldable pub calc_key : (ℕ → String) → String → String → String → ℕ → String
calc_key format_time namespace name filename time =
    "moco/" <> namespace <> "/" <> name <> "/" <> format_time time <> "/" <> filename

-- The number of a binlog file: 0 where the name has not two parts.
unfoldable pub binlog_index : (String → ℤ) → List String → ℤ
binlog_index parse (base ∷ number ∷ []) = parse number
binlog_index parse _ = pos 0

-- `sort.Slice`, of which the first element is used.
module _ (parse : String → ℤ) where
  abbrev pub index_of : String → ℤ
  index_of name = binlog_index parse (split b'.' name)

  unfoldable pub insert_binlog : String → List String → List String
  insert_binlog a [] = a ∷ []
  insert_binlog a (x ∷ xs) =
      let rest = insert_binlog a xs in
      if ltb_ℤ (index_of x) (index_of a) then x ∷ rest else a ∷ x ∷ xs

  unfoldable pub sort_binlogs : List String → List String
  unfolding insert_binlog
  sort_binlogs [] = []
  sort_binlogs (x ∷ xs) = insert_binlog x (sort_binlogs xs)

-- What the backup of the full dump leaves, and what that of the binlogs adds.
pub record Dumped : Type 0 where
  pub gtid_set : String
  pub usage : ℕ
  pub size : ℕ

pub record Binlogs : Type 0 where
  pub usage : ℕ
  pub size : ℕ
  pub warnings : List String

module _ (env : BackupEnv) where
  abbrev pub job : JobCall → M (Unit {0})
  job c = command env.base (of_job c)

  abbrev pub server_status : String → M ServerStatus
  server_status address tr =
      record_reply (of_job (get_server_status address)) (env.server_status_of tr address) tr

  abbrev pub dump_gtid : M String
  dump_gtid tr = record_reply (of_job read_dump_gtid) (env.dump_gtid_of tr) tr

  abbrev pub measure : String → M ℕ
  measure dir tr = record_reply (of_job (measure_directory dir)) (env.usage_of tr dir) tr

  abbrev pub binlog_names : String → M (List String)
  binlog_names address tr = record_reply (of_job (get_binlogs address)) (env.binlogs_of tr) tr

  unfoldable pub bytes_written : M ℕ
  bytes_written tr = (ok (env.written tr), tr)

  unfoldable pub the_time : M ℕ
  the_time tr = (ok (env.now tr), tr)

  abbrev pub add_uuid : ℕ → Reply ServerStatus → Dict String → Dict String
  add_uuid i (failure e) uuids = uuids
  add_uuid i (value st) uuids = insert (decimal i) st.uuid uuids

  -- An instance of which no status can be read is left out.
  unfoldable pub read_uuid : String → ℕ → Dict String → M (Dict String)
  read_uuid host i uuids =
      job (open_operator host)
      >> (attempt (server_status host) >>= λ st. pure (add_uuid i st uuids))

  -- From index `i` on.
  unfoldable pub uuids_from : MySqlCluster → ℕ → Slots → Dict String → M (Dict String)
  uuids_from c i [] uuids = pure uuids
  uuids_from c i (slot ∷ rest) uuids = lift (deref slot) >>= λ pod.
      (if pod_is_ready pod
        then read_uuid (pod_hostname c.namespace c.name i) i uuids
        else pure uuids)
      >>= uuids_from c (suc i) rest

  unfoldable pub get_uuid_set : MySqlCluster → Slots → M (Dict String)
  get_uuid_set c pods = uuids_from c 0 pods []

  -- The tar file of the dump goes to the bucket under the key of the time `start`.
  unfoldable pub backup_full : MySqlCluster → String → ℕ → M Dumped
  backup_full c address start = do
    job (make_directory "dump")
    job (dump_full address)
    gtid ← dump_gtid
    usage ← measure "dump"
    job open_pipe
    job (start_command "tar")
    job (put_object (calc_key env.format_time c.namespace c.name "dump.tar" start) usage)
    job (wait_command "tar")
    size ← bytes_written
    pure (record { gtid_set = gtid; usage = usage; size = size })

  abbrev pub first_binlog : List String → M String
  first_binlog [] = fail (message "no binlog files found")
  first_binlog (name ∷ rest) = pure name

  -- The file to start from: on another instance than the last time, the oldest one.
  unfoldable pub binlog_name : BackupStatus → String → ℕ → M String
  binlog_name last address source =
      if source =? last.source_index
      then pure last.binlog_filename
      else (binlog_names address >>= λ names. first_binlog (sort_binlogs env.parse_int64 names))

  unfoldable pub dump_binlogs : BackupStatus → String → ℕ → M ℕ
  dump_binlogs last address source = do
    job (make_directory "binlog")
    name ← binlog_name last address source
    job (dump_binlog address name last.gtid_set)
    measure "binlog"

  -- `time` is that of the last backup: its dump and these binlogs stand side by side.
  unfoldable pub upload_binlogs : MySqlCluster → ℕ → ℕ → M ℕ
  upload_binlogs c time usage = do
    job open_pipe
    job (start_command "tar")
    job open_pipe
    job (start_command "zstd")
    job (put_object (calc_key env.format_time c.namespace c.name "binlog.tar.zst" time) usage)
    job (wait_command "tar")
    job (wait_command "zstd")
    bytes_written

  -- The event and the warning of a backup without binlogs; an error of the event is only logged.
  unfoldable pub give_up : ℕ → M Binlogs
  give_up usage =
      attempt (command env.base (emit_event "BackupNoBinlog"))
      >> pure (record { usage = usage; size = 0; warnings = "failed to backup binary logs" ∷ [] })

  abbrev pub larger : ℕ → ℕ → ℕ
  larger a b = if ltb a b then b else a

  unfoldable pub uploaded_or : ℕ → Reply ℕ → M Binlogs
  uploaded_or usage (value size) = pure (record { usage = usage; size = size; warnings = [] })
  uploaded_or usage (failure e) = give_up usage

  unfoldable pub measured_or : MySqlCluster → ℕ → ℕ → Reply ℕ → M Binlogs
  measured_or c time usage (failure e) = give_up usage
  measured_or c time usage (value binlogs) =
      attempt (upload_binlogs c time binlogs) >>= uploaded_or (larger usage binlogs)

  abbrev pub time_or_zero : Option ℕ → ℕ
  time_or_zero none = 0
  time_or_zero (some t) = t

  unfoldable pub backup_binlog : MySqlCluster → BackupStatus → String → ℕ → ℕ → Bool → M Binlogs
  backup_binlog c last address source usage false =
      pure (record { usage = usage; size = 0; warnings = [] })
  backup_binlog c last address source usage true =
      attempt (dump_binlogs last address source) >>= measured_or c (time_or_zero last.time) usage

  abbrev pub written_status :
      Chosen → Dict String → ServerStatus → ℕ → ℕ → Dumped → Binlogs → BackupStatus
  written_status choice uuids st start elapsed full logs = record {
    time = some start;
    elapsed = elapsed;
    source_index = choice.index;
    source_uuid = st.uuid;
    uuid_set = uuids;
    binlog_filename = st.current_binlog;
    gtid_set = full.gtid_set;
    dump_size = full.size;
    binlog_size = logs.size;
    work_dir_usage = logs.usage;
    warnings = choice.warnings ++ logs.warnings;
  }

  abbrev pub with_backup : BackupStatus → MySqlCluster → MySqlCluster
  with_backup b c = record c { status = record c.status { backup = b } }

  -- Behind the choice of the source.
  unfoldable pub backup_from : MySqlCluster → Dict String → Chosen → Pod → M (Unit {0})
  backup_from c uuids choice pod = do
    job (open_operator pod.pod_ip)
    st ← server_status pod.pod_ip
    start ← the_time
    full ← backup_full c pod.pod_ip start
    logs ← backup_binlog c c.status.backup pod.pod_ip choice.index full.usage choice.with_binlog
    end ← the_time
    retry_on_conflict env.base (
        modify_cluster env.base
          (with_backup (written_status choice uuids st start (end - start) full logs)))
    attempt (command env.base (emit_event "BackupCreated"))
    pure tt

  unfoldable pub backup_of : MySqlCluster → Slots → M (Unit {0})
  backup_of c pods = do
    uuids ← get_uuid_set c pods
    choice ←
        lift (choose_pod c.status.current_primary_index pods env.base.atoi c.status.backup uuids)
    slot ← lift (deref (get_elem? pods choice.index))
    pod ← lift (deref slot)
    backup_from c uuids choice pod

  unfoldable pub backup : MySqlCluster → M (Unit {0})
  backup c = do
    items ← pod_list env.base
    (if c.spec.offline then fail (message "cluster is configured to be offline") else pure tt)
    (if length items =? c.spec.replicas then pure tt else fail (message "too few Pods"))
    pods ← lift (fill_pods env.base (length items) items (replicate c.spec.replicas none))
    backup_of c pods
