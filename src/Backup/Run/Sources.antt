-- ===== src/Backup/Run/Sources.antt =====
-- Where a backup is taken from, and what it writes (backup/backup.go).
use moco.Prelude.{
  ℕ, suc, ◌<◌, ◌≡◌, refl, ap, sym, ◌∙◌, String, true, Option, some, [], ◌∷◌, ok, deref, deref-eq-ok,
  get_elem?, length, All, StandsAt, StandsAt-refl, lt-get_elem?, inl, inr,
}
use moco.Prelude.Dict.{Dict, insert-All}
use moco.Prelude.Int.{ℤ, pos}
use moco.Api.Names.{decimal}
use moco.Api.Cluster.{MySqlCluster, BackupStatus}
use moco.Api.Pod.{Pod}
use moco.Api.Job.{JobCall}
use moco.Effects.{Call, Reply, value, failure, of_job, emit_event, update_cluster, read_cluster}
use moco.Effects.Only.{
  Only, OnlyWith, OnlyCalls, Only-pure, Only-bind, Only-lift_bind, Only-command, Only-reply,
  Only-attempt, Only-modify_cluster, Only-retry_on_conflict, Only-calls, Only-with, OnlyWith-pure,
  OnlyWith-if, OnlyWith-bind, OnlyWith-Only, OnlyWith-lift_bind,
}
use moco.Backup.Choice.{Slots, Chosen, pod_is_ready, choose_pod, last_uuids}
use moco.Backup.Choice.Ready.{IsFilled, IsSource}
use moco.Backup.Choice.Unchanged.{Unchanged}
use moco.Backup.Choice.Verdict.{Good, Verdict, choose_pod-Verdict}
use moco.Backup.Run.Steps.{JobMay, may_time, may_dump, may_backup_binlog}
use moco.Backup.Run.{
  BackupEnv, ServerStatus, add_uuid, read_uuid, uuids_from, get_uuid_set, backup_from, backup_of,
}

module _ (c : MySqlCluster) (pods : Slots) where
  -- A dump is taken from a ready pod alone, and the source that a written status names is that of
  -- a good choice.
  abbrev pub IsDumped : String → Type 0
  IsDumped address =
      (i : ℕ) × (pod : Pod) × (get_elem? pods i ≡ some (some pod))
      × (pod_is_ready pod ≡ true)
      × (pod.pod_ip ≡ address)

  abbrev pub IsRecorded : (String → Option ℤ) → BackupStatus → Type 0
  IsRecorded atoi b =
      (choice : Chosen) × Good atoi c.status.backup b.uuid_set c.status.current_primary_index pods
        choice
      × (b.source_index ≡ choice.index)

  abbrev pub BackupMay : (String → Option ℤ) → Call → Type 0
  BackupMay atoi (update_cluster new) = IsRecorded atoi new.status.backup
  BackupMay atoi (of_job call) = JobMay IsDumped call
  BackupMay atoi read_cluster = Unit
  BackupMay atoi (emit_event s) = Unit
  BackupMay atoi _ = ⊥

module _ (env : BackupEnv) (c : MySqlCluster) (pods : Slots) where
  abbrev May : Call → Type 0
  May = BackupMay c pods env.base.atoi

  -- An entry of the set of UUIDs names a ready pod by its ordinal.
  abbrev IsKnown : String × String → Type 0
  IsKnown e = (i : ℕ) × (e.0 ≡ decimal i) × IsSource pods i

  add_uuid-IsKnown :
      (i : ℕ) (r : Reply ServerStatus) (uuids : Dict String)
      → IsSource pods i
      → All IsKnown uuids
      → All IsKnown (add_uuid env i r uuids)
  add_uuid-IsKnown i (failure e) uuids s h = h
  add_uuid-IsKnown i (value st) uuids s h = insert-All IsKnown _ _ uuids (i, refl, s) h

  read_uuid-IsKnown :
      (host : String) (i : ℕ) (uuids : Dict String)
      → IsSource pods i
      → All IsKnown uuids
      → OnlyWith May (All IsKnown) (read_uuid env host i uuids)
  unfolding read_uuid
  read_uuid-IsKnown host i uuids s h = Only-with (Only-command env.base _ tt) λ _.
      Only-with (Only-attempt (Only-reply _ _ tt))
        λ st. OnlyWith-pure _ (add_uuid-IsKnown i st uuids s h)

  uuids_from-IsKnown :
      (i : ℕ) (rest : Slots) (uuids : Dict String)
      → StandsAt pods i rest
      → All IsKnown uuids
      → OnlyWith May (All IsKnown) (uuids_from env c i rest uuids)
  unfolding uuids_from
  uuids_from-IsKnown i [] uuids s h = OnlyWith-pure uuids h
  uuids_from-IsKnown i (slot ∷ rest) uuids s h = OnlyWith-lift_bind (deref slot) λ pod e.
      let q = s.0 ∙ ap some (deref-eq-ok slot e) in
      OnlyWith-bind {Q = All IsKnown}
        (OnlyWith-if (pod_is_ready pod) (λ y. read_uuid-IsKnown _ i uuids (pod, q, y) h)
          (λ _. OnlyWith-pure uuids h))
        λ next k. uuids_from-IsKnown (suc i) rest next s.1 k

  -- `strconv.Atoi` reads what `strconv.Itoa` writes, for the ordinals of the pods.
  abbrev pub Reads : Type 0
  Reads = (i : ℕ) → i < length pods → env.base.atoi (decimal i) ≡ some (pos i)

  Unchanged-known :
      (uuids last : Dict String)
      → Reads
      → All IsKnown uuids
      → (j : ℕ) → Unchanged env.base.atoi last uuids j
      → IsSource pods j
  Unchanged-known [] last r k j h = elim h [ ]
  Unchanged-known (e ∷ rest) last r ((i, n, s), k) j (inl (a, l)) =
      let q : some (pos i) ≡ some (pos j) =
        sym (r i (lt-get_elem? pods i s.1)) ∙ ap env.base.atoi (sym n) ∙ a in
      let q' : i ≡ j = cc in rw q' at s
  Unchanged-known (e ∷ rest) last r k j (inr h) = Unchanged-known rest last r k.1 j h

  May-jobs : (j : JobCall) → JobMay (IsDumped c pods) j → May (of_job j)
  May-jobs j h = h

  module _ (pod : Pod) (s : IsDumped c pods pod.pod_ip) where
    May-back_up :
        (uuids : Dict String) (choice : Chosen)
        → Good env.base.atoi c.status.backup uuids c.status.current_primary_index pods choice
        → Only May (backup_from env c uuids choice pod)
    unfolding backup_from
    May-back_up uuids choice g = Only-bind (Only-command env.base _ tt) λ _.
        Only-bind (Only-reply _ _ tt) λ st.
          Only-bind (may_time env c May (IsDumped c pods) May-jobs (λ _. tt)) λ start.
            Only-bind (may_dump env c May (IsDumped c pods) May-jobs (λ _. tt) pod.pod_ip s start)
              λ full.
                Only-bind
                  (may_backup_binlog env c May (IsDumped c pods) May-jobs (λ _. tt) pod.pod_ip s
                    c.status.backup choice.index full.usage choice.with_binlog)
                  λ logs. Only-bind (may_time env c May (IsDumped c pods) May-jobs (λ _. tt)) λ end.
                    Only-bind
                      (Only-retry_on_conflict env.base
                        (Only-modify_cluster env.base _ tt (λ old. (choice, g, refl))))
                      λ _.
                        Only-bind (Only-attempt (Only-command env.base (emit_event _) tt))
                          λ _. Only-pure _

  Good-of :
      (uuids : Dict String) (choice : Chosen)
      → choose_pod c.status.current_primary_index pods env.base.atoi c.status.backup uuids
        ≡ ok choice
      → Verdict env.base.atoi c.status.backup uuids c.status.current_primary_index pods
          (choose_pod c.status.current_primary_index pods env.base.atoi c.status.backup uuids)
      → Good env.base.atoi c.status.backup uuids c.status.current_primary_index pods choice
  Good-of uuids choice e v = rw e at v

  -- Where all slots hold a pod, the primary's index is in range, and numbers are read as they are
  -- written, whatever the calls return: dumps are taken only through the address of a ready pod, and
  -- a backup that is recorded names a source that is a good choice, by the UUIDs that it records,
  -- in view of the last backup.
  pub backup_calls :
      All IsFilled pods
      → c.status.current_primary_index < length pods
      → Reads
      → OnlyCalls May (backup_of env c pods []).1
  unfolding backup_of get_uuid_set
  backup_calls filled inside reads = Only-calls (backup_of env c pods) (
      OnlyWith-Only (uuids_from-IsKnown 0 pods [] (StandsAt-refl pods) tt) λ uuids k.
        Only-lift_bind
          (choose_pod c.status.current_primary_index pods env.base.atoi c.status.backup uuids)
          λ choice e.
            let g = Good-of uuids choice e (
              choose_pod-Verdict env.base.atoi c.status.backup uuids c.status.current_primary_index
                pods filled inside (Unchanged-known uuids (last_uuids c.status.backup) reads k)) in
            Only-lift_bind (deref (get_elem? pods choice.index)) λ slot es.
              Only-lift_bind (deref slot) λ pod ep.
                let (ready, er, y) = g.source in
                let q : some (some ready) ≡ some (some pod) =
                  sym er ∙ deref-eq-ok _ es ∙ ap some (deref-eq-ok _ ep) in
                let q' : ready ≡ pod = cc in
                May-back_up pod (choice.index, pod, er ∙ q, rw q' at y, refl) uuids choice g)
