-- ===== src/Backup/Run/Steps.antt =====
-- The calls of each step of a backup (backup/backup.go).
use moco.Prelude.{ℕ, String, Bool, true, false, List, [], ◌∷◌}
use moco.Api.Cluster.{MySqlCluster, BackupStatus}
use moco.Api.Job.{JobCall, dump_full, get_binlogs, dump_binlog}
use moco.Effects.{Call, Reply, value, failure, of_job, emit_event}
use moco.Effects.Only.{
  Only, Only-pure, Only-fail, Only-if, Only-bind, Only-command, Only-reply, Only-attempt,
}
use moco.Backup.Run.{
  BackupEnv, bytes_written, the_time, backup_full, first_binlog, binlog_name, dump_binlogs,
  upload_binlogs, give_up, uploaded_or, measured_or, backup_binlog,
}

-- The calls of the operator's connection: dumps are taken through an address that is `good`.
abbrev pub JobMay : (String → Type 0) → JobCall → Type 0
JobMay good (dump_full address) = good address
JobMay good (get_binlogs address) = good address
JobMay good (dump_binlog address name gtid) = good address
JobMay good _ = Unit

module _ (env : BackupEnv) (c : MySqlCluster) (may : Call → Type 0) (good : String → Type 0)
    (jobs : (j : JobCall) → JobMay good j → may (of_job j))
    (events : (s : String) → may (emit_event s)) where
  pub may_size : Only may (bytes_written env)
  unfolding bytes_written
  may_size = record { kept = λ R w. record { run = λ tr p. p } }

  pub may_time : Only may (the_time env)
  unfolding the_time
  may_time = record { kept = λ R w. record { run = λ tr p. p } }

  pub may_upload : (time usage : ℕ) → Only may (upload_binlogs env c time usage)
  unfolding upload_binlogs
  may_upload time usage = Only-bind (Only-command env.base _ (jobs _ tt)) λ _.
      Only-bind (Only-command env.base _ (jobs _ tt)) λ _.
        Only-bind (Only-command env.base _ (jobs _ tt)) λ _.
          Only-bind (Only-command env.base _ (jobs _ tt)) λ _.
            Only-bind (Only-command env.base _ (jobs _ tt)) λ _.
              Only-bind (Only-command env.base _ (jobs _ tt))
                λ _. Only-bind (Only-command env.base _ (jobs _ tt)) λ _. may_size

  pub may_give_up : (usage : ℕ) → Only may (give_up env usage)
  unfolding give_up
  may_give_up usage =
      Only-bind (Only-attempt (Only-command env.base (emit_event _) (events _))) λ _. Only-pure _

  pub may_uploaded : (usage : ℕ) (r : Reply ℕ) → Only may (uploaded_or env usage r)
  unfolding uploaded_or
  may_uploaded usage (value size) = Only-pure _
  may_uploaded usage (failure e) = may_give_up usage

  pub may_measured : (time usage : ℕ) (r : Reply ℕ) → Only may (measured_or env c time usage r)
  unfolding measured_or
  may_measured time usage (failure e) = may_give_up usage
  may_measured time usage (value n) =
      Only-bind (Only-attempt (may_upload time n)) λ r. may_uploaded _ r

  pub may_dump :
      (address : String) → good address → (start : ℕ) → Only may (backup_full env c address start)
  unfolding backup_full bytes_written
  may_dump address s start = Only-bind (Only-command env.base _ (jobs _ tt)) λ _.
      Only-bind (Only-command env.base (of_job (dump_full address)) (jobs _ s)) λ _.
        Only-bind (Only-reply _ _ (jobs _ tt)) λ gtid.
          Only-bind (Only-reply _ _ (jobs _ tt)) λ usage.
            Only-bind (Only-command env.base _ (jobs _ tt)) λ _.
              Only-bind (Only-command env.base _ (jobs _ tt)) λ _.
                Only-bind (Only-command env.base _ (jobs _ tt)) λ _.
                  Only-bind (Only-command env.base _ (jobs _ tt))
                    λ _. Only-bind may_size λ size. Only-pure _

  pub may_names : (l : List String) → Only may (first_binlog env l)
  may_names [] = Only-fail _
  may_names (x ∷ xs) = Only-pure x

  pub may_dump_binlogs :
      (address : String)
      → good address
      → (last : BackupStatus) (source : ℕ) → Only may (dump_binlogs env last address source)
  unfolding dump_binlogs binlog_name
  may_dump_binlogs address s last source = Only-bind (Only-command env.base _ (jobs _ tt)) λ _.
      Only-bind
        (Only-if _ (Only-pure _)
          (Only-bind (Only-reply (of_job (get_binlogs address)) _ (jobs _ s)) λ l. may_names _))
        λ name.
          Only-bind
            (Only-command env.base (of_job (dump_binlog address name last.gtid_set)) (jobs _ s))
            λ _. Only-reply _ _ (jobs _ tt)

  pub may_backup_binlog :
      (address : String)
      → good address
      → (last : BackupStatus) (source usage : ℕ) (b : Bool)
      → Only may (backup_binlog env c last address source usage b)
  unfolding backup_binlog
  may_backup_binlog address s last source usage false = Only-pure _
  may_backup_binlog address s last source usage true =
      Only-bind (Only-attempt (may_dump_binlogs address s last source)) λ r. may_measured _ usage r
