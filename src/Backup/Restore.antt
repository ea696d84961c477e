-- ===== src/Backup/Restore.antt =====
-- A restoration (`Restore`, `loadDump` and `applyBinlog` of backup/restore.go, backup/key.go). The commands, the
-- file system, the bucket and the instance are answered by an environment. Closing a reader or a pipe
-- and removing a directory are no calls: their results are not looked at.
pub mod Order
use moco.Prelude.{
  ℕ, zero, suc, String, ◌<>◌, ◌==◌, ◌=?◌, Bool, true, false, not, ◌&&◌, Option, none, some, List,
  [], Outcome, ok, panic, message, timeout, if◌then◌else◌,
}
use moco.Api.Names.{pod_name}
use moco.Api.Cluster.{MySqlCluster}
use moco.Api.Job.{
  JobCall, open_operator, ping, get_server_status, prepare_restore, finish_restore, load_dump,
  load_binlog, list_objects, get_object, read_pod, make_directory, open_pipe, get_reference,
  start_command, wait_command,
}
use moco.Effects.{
  M, Trace, Env, Reply, value, failure, pure, fail, lift, ◌>>=◌, ◌>>◌, when, command, cluster,
  attempt, record_reply, retry_on_conflict, context_done, of_job, emit_event, update_cluster,
}
use moco.Backup.Run.{ServerStatus}
use moco.Backup.Nearest.{Paths, Nearest, find_nearest_dump}

-- The fields of `RestoreManager`, and what its calls return.
pub record RestoreEnv : Type 0 where
  pub base : Env
  pub namespace : String
  pub name : String
  pub source_namespace : String
  pub source_name : String
  pub point : ℕ
  pub schema : String
  pub users : String
  pub paths : Paths
  pub pod_ip_of : Trace → String → Reply String
  pub server_status_of : Trace → String → Reply ServerStatus
  pub objects_of : Trace → String → Reply (List String)
  -- `metav1.Now`.
  pub now : Trace → ℕ

-- `path.Join` of parts without slashes.
unfoldable pub calc_prefix : String → String → String
calc_prefix namespace name = "moco/" <> namespace <> "/" <> name <> "/"

module _ (env : RestoreEnv) where
  abbrev pub job : JobCall → M (Unit {0})
  job c = command env.base (of_job c)

  abbrev pub pod_ip : String → M String
  pod_ip name tr = record_reply (of_job (read_pod name)) (env.pod_ip_of tr name) tr

  abbrev pub server_status : String → M ServerStatus
  server_status address tr =
      record_reply (of_job (get_server_status address)) (env.server_status_of tr address) tr

  abbrev pub objects : String → M (List String)
  objects prefix tr = record_reply (of_job (list_objects prefix)) (env.objects_of tr prefix) tr

  unfoldable pub the_time : M ℕ
  the_time tr = (ok (env.now tr), tr)

  -- The address of a pod that has one, or else `rest`.
  unfoldable pub address_or : M String → Reply String → M String
  address_or rest (failure e) = rest
  address_or rest (value ip) = if ip == "" then rest else pure ip

  -- So many rounds of a second each. After the last one the restoration goes on without an address.
  unfoldable pub wait_pod : ℕ → String → M String
  wait_pod zero name = pure ""
  wait_pod (suc n) name =
      let rest = wait_pod n name in
      context_done env.base >>= λ done.
      if done then fail timeout else (attempt (pod_ip name) >>= address_or rest)

  -- An error panics, so that the job starts again.
  unfoldable pub is_read_only : Reply ServerStatus → M Bool
  is_read_only (failure e) = lift panic
  is_read_only (value st) = pure st.super_read_only

  unfoldable pub check_mysqld : String → M (Unit {0}) → Reply (Unit {0}) → M (Unit {0})
  check_mysqld address rest (failure e) = rest
  check_mysqld address rest (value u) =
      attempt (server_status address) >>= is_read_only >>= λ ro. if ro then pure tt else rest

  unfoldable pub wait_mysqld : ℕ → String → M (Unit {0})
  wait_mysqld zero address = pure tt
  wait_mysqld (suc n) address =
      let rest = wait_mysqld n address in
      context_done env.base >>= λ done.
      if done then fail timeout else (attempt (job (ping address)) >>= check_mysqld address rest)

  unfoldable pub restore_dump : String → String → M (Unit {0})
  restore_dump address key = do
    job (get_object key)
    job (start_command "tar")
    job (wait_command "tar")
    job (load_dump address env.schema env.users)

  unfoldable pub apply_binlog : String → String → M (Unit {0})
  apply_binlog address key = do
    job (get_object key)
    job open_pipe
    job (start_command "zstd")
    job (start_command "tar")
    job (wait_command "tar")
    job (wait_command "zstd")
    job (make_directory "tmp")
    job (load_binlog address env.point env.schema)

  abbrev pub is_point : Option ℕ → Bool
  is_point none = false
  is_point (some t) = t =? env.point

  -- Whether there are binlogs to apply.
  abbrev pub needs_binlog : Nearest → Bool
  needs_binlog n = not (is_point n.time) && not (n.binlog == "")

  abbrev pub restored_at : ℕ → MySqlCluster → MySqlCluster
  restored_at t c = record c { status = record c.status { restored_time = some t } }

  unfoldable pub write_restored : M (Unit {0})
  write_restored = cluster env.base >>= λ c.
      the_time >>= λ t. command env.base (update_cluster (restored_at t c))

  unfoldable pub load : String → Nearest → M (Unit {0})
  load address n = do
    job (prepare_restore address)
    restore_dump address n.dump
    when (needs_binlog n) (apply_binlog address n.binlog)
    job (finish_restore address)
    retry_on_conflict env.base write_restored
    job get_reference
    attempt (command env.base (emit_event "Restored"))
    pure tt

  unfoldable pub restore_from : String → List String → M (Unit {0})
  restore_from address keys =
      if (find_nearest_dump env.paths env.point keys).dump == ""
      then fail (message "no available backup")
      else load address (find_nearest_dump env.paths env.point keys)

  unfoldable pub restore : M (Unit {0})
  restore = do
    address ← wait_pod 600 (pod_name env.namespace env.name 0)
    job (open_operator address)
    wait_mysqld 600 address
    keys ← objects (calc_prefix env.source_namespace env.source_name)
    restore_from address keys
