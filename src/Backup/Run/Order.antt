-- ===== src/Backup/Run/Order.antt =====
-- When the status of a backup is written (backup/backup.go).
use moco.Prelude.{ℕ, suc, ◌-◌, ◌≡◌, refl, String, some, List, [], ◌∷◌, deref, get_elem?}
use moco.Prelude.Dict.{Dict}
use moco.Api.Cluster.{MySqlCluster}
use moco.Api.Pod.{Pod}
use moco.Api.Job.{JobCall, dump_full, put_object, wait_command}
use moco.Effects.{Call, M, Trace, of_job, update_cluster, retry_on_conflict, modify_cluster}
use moco.Effects.Triple.{
  Triple, done, After-trace, Triple-pure, Triple-bind, Triple-weaken, Triple-lift_bind,
}
use moco.Effects.Only.{
  Only, Only-bind, Only-pure, Only-command, Only-reply, Only-attempt, Only-if, Only-lift_bind,
}
use moco.Effects.Order.{
  Mark, Contains, is, Justified, Kept, Triple-relax, order-command, order-modify_cluster,
  order-free, order-start,
}
use moco.Backup.Choice.{Slots, Chosen, pod_is_ready, choose_pod}
use moco.Backup.Run.Steps.{JobMay, may_time, may_size, may_backup_binlog}
use moco.Backup.Run.{
  BackupEnv, ServerStatus, Dumped, Binlogs, calc_key, read_uuid, uuids_from, get_uuid_set,
  backup_full, written_status, with_backup, backup_from, backup_of,
}

module _ (env : BackupEnv) (c : MySqlCluster) where
  -- The dump of the time `start` has been taken and is in the bucket.
  abbrev pub marks_of_dump : ℕ → String → ℕ → List Mark
  marks_of_dump start address usage =
      is (done (of_job (wait_command "tar")))
      ∷ is (
          done (
            of_job
              (put_object (calc_key env.format_time c.namespace c.name "dump.tar" start) usage)))
      ∷ is (done (of_job (dump_full address)))
      ∷ []

  abbrev pub AfterDump : Call → Trace → Type 0
  AfterDump (update_cluster new) tr =
      (start : ℕ) × (address : String) × (usage : ℕ) × (new.status.backup.time ≡ some start)
      × Contains (marks_of_dump start address usage) tr
  AfterDump _ tr = Unit

  abbrev IsFree : Call → Type 0
  IsFree call = (tr : Trace) → AfterDump call tr

  IsFree-jobs : (j : JobCall) → JobMay (λ a. Unit) j → IsFree (of_job j)
  IsFree-jobs j h tr = tt

  split_usage :
      {A B : Type 0} {P : A → Trace → Type 0} {m : M B} {Q : B → Trace → Type 0}
      {E X : Trace → Type 0}
      → ((a : A) → Triple (P a) m Q E X)
      → Triple (λ tr. (a : A) × P a tr) m Q E X
  split_usage h = record { run = λ tr p. (h p.0).run tr p.1 }

  dump_marks :
      (address : String) (start : ℕ)
      → Triple
          (Justified AfterDump)
          (backup_full env c address start)
          (λ full tr. (usage : ℕ) × Kept AfterDump (marks_of_dump start address usage) tr)
          (Justified AfterDump)
          (Justified AfterDump)
  unfolding backup_full
  dump_marks address start =
      let m1 : List Mark = is (done (of_job (dump_full address))) ∷ [] in
      Triple-bind (order-start AfterDump (Only-command env.base _ (λ tr. tt))) λ _.
        Triple-bind
          (Triple-weaken (λ tr k. (k, tt))
            (order-command AfterDump _ env.base [] (of_job (dump_full address)) (λ tr k. tt)))
          λ _. Triple-bind (order-free AfterDump m1 (Only-reply _ _ (λ tr. tt))) λ gtid.
            Triple-bind (order-free AfterDump m1 (Only-reply _ _ (λ tr. tt))) λ usage.
              let put =
                of_job (
                  put_object (calc_key env.format_time c.namespace c.name "dump.tar" start)
                    usage) in
              Triple-bind (order-free AfterDump m1 (Only-command env.base _ (λ tr. tt))) λ _.
                Triple-bind (order-free AfterDump m1 (Only-command env.base _ (λ tr. tt))) λ _.
                  Triple-bind (order-command AfterDump _ env.base m1 put (λ tr k. tt)) λ _.
                    Triple-bind
                      (order-command AfterDump _ env.base (is (done put) ∷ m1)
                        (of_job (wait_command "tar")) (λ tr k. tt))
                      λ _.
                        Triple-bind
                          (order-free AfterDump (marks_of_dump start address usage)
                            (may_size env c IsFree (λ a. Unit) IsFree-jobs (λ s tr. tt)))
                          λ size. Triple-pure (λ tr k. (usage, k))

  module _ (uuids : Dict String) (choice : Chosen) (pod : Pod) where
    finish :
        (st : ServerStatus) (start usage : ℕ) (full : Dumped) (logs : Binlogs) (end : ℕ)
        → Triple
            (Kept AfterDump (marks_of_dump start pod.pod_ip usage))
            (retry_on_conflict env.base (
              modify_cluster env.base (
                with_backup env
                  (written_status env choice uuids st start (end - start) full logs))))
            (λ _. Justified AfterDump)
            (Justified AfterDump)
            (Justified AfterDump)
    finish st start usage full logs end =
        Triple-relax (λ _ tr k. k.0) (λ tr k. k)
          (order-modify_cluster AfterDump _ env.base (marks_of_dump start pod.pod_ip usage) _
            (λ tr k. tt) (λ old tr k. (start, pod.pod_ip, usage, refl, k)))

    backup_from_order :
        Triple
          (Justified AfterDump)
          (backup_from env c uuids choice pod)
          (λ _. Justified AfterDump)
          (Justified AfterDump)
          (Justified AfterDump)
    unfolding backup_from
    backup_from_order =
        Triple-bind (order-start AfterDump (Only-command env.base _ (λ tr. tt))) λ _.
          Triple-bind (order-start AfterDump (Only-reply _ _ (λ tr. tt))) λ st.
            Triple-bind
              (order-start AfterDump (may_time env c IsFree (λ a. Unit) IsFree-jobs (λ s tr. tt)))
              λ start. Triple-bind (dump_marks pod.pod_ip start) λ full. split_usage (λ usage.
                Triple-bind
                  (order-free AfterDump (marks_of_dump start pod.pod_ip usage) (
                    may_backup_binlog env c IsFree (λ a. Unit) IsFree-jobs (λ s tr. tt) pod.pod_ip
                      tt c.status.backup choice.index full.usage choice.with_binlog))
                  λ logs.
                    Triple-bind
                      (order-free AfterDump (marks_of_dump start pod.pod_ip usage)
                        (may_time env c IsFree (λ a. Unit) IsFree-jobs (λ s tr. tt)))
                      λ end. Triple-bind (finish st start usage full logs end) λ _.
                        Triple-bind
                          (order-start AfterDump
                            (Only-attempt (Only-command env.base _ (λ tr. tt))))
                          λ _. Triple-pure (λ tr k. k))

  uuids-IsFree :
      (i : ℕ) (rest : Slots) (uuids : Dict String) → Only IsFree (uuids_from env c i rest uuids)
  unfolding uuids_from read_uuid
  uuids-IsFree i [] uuids = Only-pure uuids
  uuids-IsFree i (slot ∷ rest) uuids = Only-lift_bind (deref slot) λ pod e.
      Only-bind
        (Only-if (pod_is_ready pod)
          (Only-bind (Only-command env.base _ (λ tr. tt))
            λ _. Only-bind (Only-attempt (Only-reply _ _ (λ tr. tt))) λ st. Only-pure _)
          (Only-pure uuids))
        λ next. uuids-IsFree (suc i) rest next

  -- Whatever the calls return, the status of a backup is written only after a dump has been taken,
  -- and has been put in the bucket as a tar file that is complete, under the key that is made of the time
  -- that the status records.
  pub backup_uploads_first : (pods : Slots) → Justified AfterDump (backup_of env c pods []).1
  unfolding backup_of get_uuid_set
  backup_uploads_first pods =
      let J : Trace → Type 0 = Justified AfterDump in
      After-trace J (backup_of env c pods []) (
        (Triple-bind (order-start AfterDump (uuids-IsFree 0 pods [])) λ uuids.
            Triple-lift_bind
              (choose_pod c.status.current_primary_index pods env.base.atoi c.status.backup uuids)
              (λ choice e.
                Triple-lift_bind (deref (get_elem? pods choice.index))
                  (λ slot es.
                    Triple-lift_bind (deref slot) (λ pod ep. backup_from_order uuids choice pod)
                      (λ tr k. k) (λ tr k. k))
                  (λ tr k. k) (λ tr k. k))
              (λ tr k. k) (λ tr k. k)).run
          [] tt)
