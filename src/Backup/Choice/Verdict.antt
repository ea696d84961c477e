-- ===== src/Backup/Choice/Verdict.antt =====
-- What the choice of a pod for a backup promises (backup/backup.go).
use moco.Prelude.{
  ℕ, ◌<◌, ◌≡◌, ◌≢◌, refl, ap, sym, ◌∙◌, String, ◌=?◌, =?_iff, =?_false, true, false, ◌⊎◌, inl, inr,
  Option, none, some, List, [], ◌∷◌, Outcome, ok, err, panic, get_elem?, get_elem?_lt, length,
  contains, All, All-get_elem?, AllFrom-get_elem?, All-sort_ints, StandsAt-refl, Bool-cases,
  contains-sort_ints,
}
use moco.Prelude.Dict.{Dict}
use moco.Prelude.Int.{ℤ}
use moco.Api.Cluster.{BackupStatus}
use moco.Backup.Choice.{
  Slots, Chosen, pod_is_ready, idxs_with_unchanged_uuid, last_uuids, primary_or_none,
  without_binlog, choose_ready, choose_among, choose_pod, choose_since,
}
use moco.Backup.Choice.Unchanged.{Unchanged, All-contains, Unchanged-All, Unchanged-contains}
use moco.Backup.Choice.Ready.{IsFilled, IsSource, OthersUnready, FirstReady, first_ready_lem}
use moco.Backup.Choice.Preferred.{Preferred, prefer_lem}

-- The promise.
module _ (atoi : String → Option ℤ) (b : BackupStatus) (uuids : Dict String) (primary : ℕ)
    (pods : Slots) where
  abbrev pub IsUnchanged : ℕ → Type 0
  IsUnchanged = Unchanged atoi (last_uuids b) uuids

  pub record Good (c : Chosen) : Type 0 where
    pub source : IsSource pods c.index
    -- Binlogs are taken from an instance that is still the one of the last backup.
    pub unchanged : c.with_binlog ≡ true → IsUnchanged c.index
    -- The primary only where no other instance would do.
    pub spared : c.with_binlog ≡ true → c.index ≡ primary → (j : ℕ) → IsUnchanged j → j ≡ primary
    pub spared_ready :
        c.with_binlog ≡ false → c.index ≡ primary → (j : ℕ) → IsSource pods j → j ≡ primary
    -- The last source is preferred.
    pub again :
        c.with_binlog ≡ true
        → c.index ≢ b.source_index
        → b.source_index ≢ primary
        → IsUnchanged b.source_index
        → ⊥
    -- After the first backup, binlogs are left out only where no instance is unchanged.
    pub complete : c.with_binlog ≡ false → (b.time ≡ none) ⊎ ((j : ℕ) → IsUnchanged j → ⊥)

  abbrev pub Verdict : Outcome Chosen → Type 0
  Verdict (ok c) = Good c
  Verdict (err e) = (j : ℕ) → IsSource pods j → ⊥
  Verdict panic = ⊥

  module _ (filled : All IsFilled pods) (inside : primary < length pods)
      (known : (j : ℕ) → IsUnchanged j → IsSource pods j) where
    abbrev NoBinlog : Type 0
    NoBinlog = (b.time ≡ none) ⊎ ((j : ℕ) → IsUnchanged j → ⊥)

    other_unready : OthersUnready primary pods 0 pods → (j : ℕ) → IsSource pods j → j ≡ primary
    other_unready r j (pod, e, y) = elim (Bool-cases (j =? primary)) [
      | inl t ↦ (=?_iff j primary).0 t
      | inr f ↦ let n = AllFrom-get_elem? _ pods j r e (=?_false j primary f) pod refl in cc
    ]

    primary_or_none-Verdict :
        (ws : List String)
        → NoBinlog
        → OthersUnready primary pods 0 pods
        → Verdict (primary_or_none primary pods ws)
    unfolding primary_or_none
    primary_or_none-Verdict ws nb r =
        let (slot, e) = get_elem?_lt pods primary inside in
        let (pod, q) = All-get_elem? IsFilled pods primary filled e in
        rw (e, q)
          (elim (Bool-cases (pod_is_ready pod)) [
            | inl y ↦ rw y (record {
              source = (pod, e ∙ ap some q, y);
              unchanged = λ x. cc;
              spared = λ x. cc;
              spared_ready = λ _ _. other_unready r;
              again = λ x. cc;
              complete = λ _. nb;
            })
            | inr n ↦ rw n (λ j h.
                let p = other_unready r j h in
                let (pod', e', y) = h in
                let k : some (some pod') ≡ some slot = sym e' ∙ ap (get_elem? pods) p ∙ e in
                let k' : pod' ≡ pod = cc in let y' : pod_is_ready pod ≡ true = rw k' at y in cc)
          ])

    choose_ready-Verdict : (ws : List String) → NoBinlog → Verdict (choose_ready primary pods ws)
    unfolding choose_ready without_binlog
    choose_ready-Verdict ws nb =
        let (o, e, r) = first_ready_lem primary pods 0 pods filled (StandsAt-refl pods) in
        rw e (from o r)
      where
        from :
            (o : Option ℕ)
            → FirstReady primary pods 0 pods o
            → Verdict (without_binlog primary pods ws o)
        from none r = primary_or_none-Verdict ws nb r
        from (some j) (n, h) = record {
          source = h;
          unchanged = λ x. cc;
          spared = λ x. cc;
          spared_ready = λ _ p. elim (n p) [ ];
          again = λ x. cc;
          complete = λ _. nb;
        }

    module _ (l : List ℕ) (sound : All IsUnchanged l)
        (full : (j : ℕ) → IsUnchanged j → contains l j ≡ true) where
      chosen_within :
          (c : Chosen) (i : ℕ)
          → contains l i ≡ true
          → Preferred primary b.source_index none l c
          → contains l c.index ≡ true
      chosen_within c i h p = elim p.from [
        | inl (n, inl k) ↦ k
        | inl (n, inr k) ↦ cc
        | inr (q, e, all) ↦ let k = All-contains (λ x. x ≡ primary) l i all h in rw (q, ← k) h
      ]

      Preferred-Good :
          (c : Chosen) (i : ℕ)
          → contains l i ≡ true
          → Preferred primary b.source_index none l c
          → Good c
      Preferred-Good c i h p =
          let u = All-contains IsUnchanged l c.index sound (chosen_within c i h p) in
          record {
            source = known c.index u;
            unchanged = λ _. u;
            spared = λ _ e j uj. elim p.from [
              | inl (n, k) ↦ elim (n e) [ ]
              | inr (q, x, all) ↦ All-contains (λ y. y ≡ primary) l j all (full j uj)
            ];
            spared_ready = λ e. let k = p.binlog in cc;
            again = λ _ n np ul. elim p.again [
              | inl e ↦ n e
              | inr all ↦
                  All-contains (λ y. (y ≢ primary) → y ≢ b.source_index) l b.source_index all
                    (full b.source_index ul) np refl
            ];
            complete = λ e. let k = p.binlog in cc;
          }

    choose_among-Verdict :
        (l : List ℕ)
        → All IsUnchanged l
        → ((j : ℕ) → IsUnchanged j → contains l j ≡ true)
        → Verdict (choose_among primary pods b.source_index l)
    unfolding choose_among
    choose_among-Verdict [] sound full =
        choose_ready-Verdict _ (inr (λ j u. let k = full j u in cc))
    choose_among-Verdict (i ∷ rest) sound full =
        Preferred-Good (i ∷ rest) sound full _ i (rw ((=?_iff i i).1 refl) refl)
          (prefer_lem primary b.source_index pods none (i ∷ rest) (λ j e. cc))

    choose_since-Verdict :
        (o : Option ℕ) → b.time ≡ o → Verdict (choose_since primary pods atoi b uuids o)
    unfolding idxs_with_unchanged_uuid
    choose_since-Verdict none e = choose_ready-Verdict [] (inl e)
    choose_since-Verdict (some time) e =
        choose_among-Verdict _
          (All-sort_ints IsUnchanged _ (Unchanged-All atoi (last_uuids b) uuids))
          (λ j u. contains-sort_ints _ j ∙ Unchanged-contains atoi (last_uuids b) uuids j u)

    -- Where all slots hold a pod, the primary's index is in range, and each instance that has kept its
    -- UUID since the last backup is ready, the choice is as follows. It is a ready pod, or the error says truly
    -- that none is ready. Binlogs are backed up only from an instance that has kept its UUID, and
    -- left out only on the first backup or where there is no such instance. The primary is chosen
    -- only where no other instance would do, and the last source is preferred to all but it.
    pub choose_pod-Verdict : Verdict (choose_pod primary pods atoi b uuids)
    unfolding choose_pod
    choose_pod-Verdict = choose_since-Verdict b.time refl
