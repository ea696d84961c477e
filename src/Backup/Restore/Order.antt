-- ===== src/Backup/Restore/Order.antt =====
-- When a cluster is marked as restored (backup/restore.go).
use moco.Prelude.{
  inl, ℕ, zero, suc, ◌≡◌, refl, String, ◌==◌, true, List, [], ◌∷◌, panic, if◌then◌else◌, is_some,
}
use moco.Api.Job.{
  JobCall, open_operator, ping, get_server_status, prepare_restore, finish_restore, load_dump,
  load_binlog, list_objects, get_object, read_pod, make_directory, open_pipe, get_reference,
  start_command, wait_command,
}
use moco.Effects.{
  Call, M, Trace, Reply, value, failure, when, cluster, retry_on_conflict, record_reply, of_job,
  update_cluster, read_cluster,
}
use moco.Effects.Triple.{
  After, Triple, done, failed, After-trace, Triple-pure, Triple-fail, Triple-bind, Triple-if,
  Triple-when, Triple-reply, Triple-retry_on_conflict,
}
use moco.Effects.Only.{
  Only, Only-bind, Only-pure, Only-fail, Only-command, Only-reply, Only-attempt, Only-if, Only-lift,
  Only-context_done,
}
use moco.Effects.Order.{
  Mark, Contains, is, Justified, Kept, Contains-cons, Triple-relax, Triple-panic, order-command,
  order-keep, order-free, order-start,
}
use moco.Backup.Nearest.{Nearest, find_nearest_dump}
use moco.Backup.Run.{ServerStatus}
use moco.Backup.Restore.{
  RestoreEnv, job, the_time, address_or, wait_pod, is_read_only, check_mysqld, wait_mysqld,
  restore_dump, apply_binlog, needs_binlog, restored_at, write_restored, load, restore_from,
  restore, objects, calc_prefix,
}

module _ (env : RestoreEnv) where
  -- The dump and the binlogs that are nearest to the restore point among some keys.
  abbrev nearest : List String → Nearest
  nearest keys = find_nearest_dump env.paths env.point keys

  abbrev source_prefix : String
  source_prefix = calc_prefix env.source_namespace env.source_name

  -- The bucket has listed these keys for the source cluster.
  abbrev pub listed : List String → Mark
  listed keys e old =
      (e ≡ done (of_job (list_objects source_prefix)))
      × (env.objects_of old source_prefix ≡ value keys)

  -- The dump has been loaded into the instance.
  abbrev pub marks_of_load : String → List String → List Mark
  marks_of_load address keys =
      is (done (of_job (load_dump address env.schema env.users)))
      ∷ is (done (of_job (get_object (nearest keys).dump)))
      ∷ is (done (of_job (prepare_restore address)))
      ∷ listed keys
      ∷ []

  -- The binlogs, where there are some to apply, have been loaded behind the dump.
  abbrev pub marks_of_binlog : String → List String → List Mark
  marks_of_binlog address keys =
      if needs_binlog env (nearest keys)
      then is (done (of_job (load_binlog address env.point env.schema)))
        ∷ is (done (of_job (get_object (nearest keys).binlog)))
        ∷ marks_of_load address keys
      else marks_of_load address keys

  abbrev pub marks_of_restore : String → List String → List Mark
  marks_of_restore address keys =
      is (done (of_job (finish_restore address))) ∷ marks_of_binlog address keys

  abbrev pub AfterRestore : Call → Trace → Type 0
  AfterRestore (update_cluster new) tr =
      (address : String) × (keys : List String) × Contains (marks_of_restore address keys) tr
      × (is_some new.status.restored_time ≡ true)
  AfterRestore _ tr = Unit

  abbrev J : Trace → Type 0
  J = Justified AfterRestore

  abbrev IsFree : Call → Type 0
  IsFree c = (tr : Trace) → AfterRestore c tr

  IsFree-job : (j : JobCall) → Only IsFree (job env j)
  IsFree-job j = Only-command env.base (of_job j) (λ tr. tt)

  mark_job :
      (ms : List Mark) (j : JobCall)
      → Triple
          (Kept AfterRestore ms)
          (job env j)
          (λ _. Kept AfterRestore (is (done (of_job j)) ∷ ms))
          J
          J
  mark_job ms j = order-command AfterRestore J env.base ms (of_job j) (λ tr k. tt)

  IsFree-time : Only IsFree (the_time env)
  unfolding the_time
  IsFree-time = record { kept = λ R w. record { run = λ tr p. p } }

  dump_marks :
      (address : String) (keys : List String)
      → Triple
          (Kept AfterRestore (is (done (of_job (prepare_restore address))) ∷ listed keys ∷ []))
          (restore_dump env address (nearest keys).dump)
          (λ _. Kept AfterRestore (marks_of_load address keys))
          J
          J
  unfolding restore_dump
  dump_marks address keys =
      let m1 : List Mark = is (done (of_job (prepare_restore address))) ∷ listed keys ∷ [] in
      let m2 : List Mark = is (done (of_job (get_object (nearest keys).dump))) ∷ m1 in
      Triple-bind (mark_job m1 (get_object (nearest keys).dump)) λ _.
        Triple-bind (order-free AfterRestore m2 (IsFree-job (start_command "tar"))) λ _.
          Triple-bind (order-free AfterRestore m2 (IsFree-job (wait_command "tar")))
            λ _. mark_job m2 (load_dump address env.schema env.users)

  binlog_marks :
      (address : String) (keys : List String)
      → Triple
          (Kept AfterRestore (marks_of_load address keys))
          (apply_binlog env address (nearest keys).binlog)
          (λ _. Kept AfterRestore (
            is (done (of_job (load_binlog address env.point env.schema)))
            ∷ is (done (of_job (get_object (nearest keys).binlog)))
            ∷ marks_of_load address keys))
          J
          J
  unfolding apply_binlog
  binlog_marks address keys =
      let m : List Mark =
        is (done (of_job (get_object (nearest keys).binlog))) ∷ marks_of_load address keys in
      Triple-bind (mark_job (marks_of_load address keys) (get_object (nearest keys).binlog)) λ _.
        Triple-bind (order-free AfterRestore m (IsFree-job open_pipe)) λ _.
          Triple-bind (order-free AfterRestore m (IsFree-job (start_command "zstd"))) λ _.
            Triple-bind (order-free AfterRestore m (IsFree-job (start_command "tar"))) λ _.
              Triple-bind (order-free AfterRestore m (IsFree-job (wait_command "tar"))) λ _.
                Triple-bind (order-free AfterRestore m (IsFree-job (wait_command "zstd"))) λ _.
                  Triple-bind (order-free AfterRestore m (IsFree-job (make_directory "tmp")))
                    λ _. mark_job m (load_binlog address env.point env.schema)

  -- Either way the marks that are asked for stand.
  maybe_binlog :
      (address : String) (keys : List String)
      → Triple
          (Kept AfterRestore (marks_of_load address keys))
          (when (needs_binlog env (nearest keys)) (apply_binlog env address (nearest keys).binlog))
          (λ _. Kept AfterRestore (marks_of_binlog address keys))
          J
          J
  maybe_binlog address keys =
      Triple-when (needs_binlog env (nearest keys))
        (λ e. Triple-relax (λ _ tr k. rw e k) (λ tr k. k) (binlog_marks address keys))
        (λ e tr k. rw e k)

  written :
      (address : String) (keys : List String)
      → Triple
          (Kept AfterRestore (marks_of_restore address keys))
          (retry_on_conflict env.base (write_restored env))
          (λ _. J)
          J
          J
  unfolding write_restored cluster
  written address keys =
      let ms = marks_of_restore address keys in
      Triple-panic (λ tr k. k.0)
        (Triple-relax (λ _ tr k. k.0) (λ tr k. k.0)
          (Triple-retry_on_conflict env.base (λ tr k. k)
            (Triple-bind {R = λ _. Kept AfterRestore ms}
              (Triple-reply read_cluster env.base.cluster_of
                (λ tr k c. ((tt, k.0), Contains-cons ms (done read_cluster) tr k.1))
                (λ tr k. ((tt, k.0), Contains-cons ms (failed read_cluster) tr k.1)))
              λ c.
                Triple-bind {R = λ _. Kept AfterRestore ms}
                  (IsFree-time.kept _ (λ e f tr k. ((f tr, k.0), Contains-cons ms e tr k.1)))
                  λ t.
                    order-keep AfterRestore (Kept AfterRestore ms) env.base ms
                      (update_cluster (restored_at env t c)) (λ tr k. (address, keys, k, refl)))))

  load_order :
      (address : String) (keys : List String)
      → Triple (Kept AfterRestore (listed keys ∷ [])) (load env address (nearest keys)) (λ _. J) J J
  unfolding load
  load_order address keys = Triple-bind (mark_job (listed keys ∷ []) (prepare_restore address)) λ _.
      Triple-bind (dump_marks address keys) λ _. Triple-bind (maybe_binlog address keys) λ _.
        Triple-bind (mark_job (marks_of_binlog address keys) (finish_restore address)) λ _.
          Triple-bind (written address keys) λ _.
            Triple-bind (order-start AfterRestore (IsFree-job get_reference)) λ _.
              Triple-bind
                (order-start AfterRestore (Only-attempt (Only-command env.base _ (λ tr. tt))))
                λ _. Triple-pure (λ tr k. k)

  IsFree-address :
      (m : M String) (r : Reply String) → Only IsFree m → Only IsFree (address_or env m r)
  unfolding address_or
  IsFree-address m (failure e) h = h
  IsFree-address m (value ip) h = Only-if _ h (Only-pure ip)

  IsFree-wait_pod : (k : ℕ) (name : String) → Only IsFree (wait_pod env k name)
  unfolding wait_pod
  IsFree-wait_pod zero name = Only-pure _
  IsFree-wait_pod (suc k) name = Only-bind (Only-context_done env.base) λ fin.
      Only-if fin (Only-fail _) (
        Only-bind (Only-attempt (Only-reply (of_job (read_pod name)) _ (λ tr. tt)))
          λ r. IsFree-address _ r (IsFree-wait_pod k name))

  IsFree-is_read_only : (r : Reply ServerStatus) → Only IsFree (is_read_only env r)
  unfolding is_read_only
  IsFree-is_read_only (failure e) = Only-lift panic
  IsFree-is_read_only (value st) = Only-pure _

  IsFree-check :
      (address : String) (m : M (Unit {0})) (r : Reply (Unit {0}))
      → Only IsFree m
      → Only IsFree (check_mysqld env address m r)
  unfolding check_mysqld
  IsFree-check address m (failure e) h = h
  IsFree-check address m (value u) h =
      Only-bind
        (Only-bind (Only-attempt (Only-reply (of_job (get_server_status address)) _ (λ tr. tt)))
          IsFree-is_read_only)
        λ ro. Only-if ro (Only-pure tt) h

  IsFree-wait_mysqld : (k : ℕ) (address : String) → Only IsFree (wait_mysqld env k address)
  unfolding wait_mysqld
  IsFree-wait_mysqld zero address = Only-pure tt
  IsFree-wait_mysqld (suc k) address = Only-bind (Only-context_done env.base) λ fin.
      Only-if fin (Only-fail _) (
        Only-bind (Only-attempt (IsFree-job (ping address)))
          λ r. IsFree-check address _ r (IsFree-wait_mysqld k address))

  restore_from_order :
      (address : String) (keys : List String)
      → Triple (Kept AfterRestore (listed keys ∷ [])) (restore_from env address keys) (λ _. J) J J
  unfolding restore_from
  restore_from_order address keys =
      Triple-if ((find_nearest_dump env.paths env.point keys).dump == "")
        (λ _. Triple-fail (λ tr k. k.0)) (λ _. load_order address keys)

  objects-After :
      (tr : Trace) (r : Reply (List String))
      → env.objects_of tr source_prefix ≡ r
      → J tr
      → After
          (λ keys. Kept AfterRestore (listed keys ∷ []))
          J
          J
          (record_reply (of_job (list_objects source_prefix)) r tr)
  objects-After tr (value keys) e h = ((tt, h), inl ((refl, e), tt))
  objects-After tr (failure x) e h = (tt, h)

  listing_marks :
      Triple J (objects env source_prefix) (λ keys. Kept AfterRestore (listed keys ∷ [])) J J
  listing_marks = record { run = λ tr h. objects-After tr _ refl h }

  -- Whatever the calls return, a cluster is marked as restored only after, in this order, the bucket
  -- listed the keys of the source cluster, the instance was prepared, the dump that
  -- `FindNearestDump` finds among those keys was fetched and loaded, the binlogs that it finds were
  -- fetched and loaded up to the restore point if there
  -- are some to apply, and the restoration of the instance was finished.
  pub restore_finishes_first : J (restore env []).1
  unfolding restore
  restore_finishes_first = After-trace J (restore env []) (
      (Triple-bind (order-start AfterRestore (IsFree-wait_pod 600 _)) λ address.
          Triple-bind (order-start AfterRestore (IsFree-job (open_operator address))) λ _.
            Triple-bind (order-start AfterRestore (IsFree-wait_mysqld 600 address))
              λ _. Triple-bind listing_marks λ keys. restore_from_order address keys).run
        [] tt)
