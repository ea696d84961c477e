-- ===== src/Backup/Nearest/Verdict.antt =====
-- What the search for a dump promises (backup/restore.go).
use moco.Prelude.{
  ℕ, ◌≤◌, ◌≡◌, refl, String, ◌⊎◌, inl, inr, none, some, List, [], ◌∷◌, All, Bool-cases,
}
use moco.Backup.Nearest.{insert_key, sort_keys, precedes, Paths, Nearest, find_nearest_dump}
use moco.Backup.Nearest.Newest.{IsDumpOf, IsNotBetter, IsLate, IsTimeline, Among, scan-Found}
use moco.Backup.Nearest.Paired.{IsComplete, scan-Paired}

module _ (P : String → Type 0) where
  insert_key-All : (a : String) (l : List String) → P a → All P l → All P (insert_key a l)
  unfolding insert_key
  insert_key-All a [] p h = (p, tt)
  insert_key-All a (b ∷ bs) p h = elim (Bool-cases (precedes a b)) [
    | inl e ↦ rw e (p, h)
    | inr e ↦ rw e (h.0, insert_key-All a bs p h.1)
  ]

  All-insert_key : (a : String) (l : List String) → All P (insert_key a l) → P a × All P l
  unfolding insert_key
  All-insert_key a [] h = h
  All-insert_key a (b ∷ bs) h = elim (Bool-cases (precedes a b)) [
    | inl e ↦ (rw e at h)
    | inr e ↦
        let h' : P b × All P (insert_key a bs) = rw e at h in
        let (p, ps) = All-insert_key a bs h'.1 in (p, (h'.0, ps))
  ]

  sort_keys-All : (l : List String) → All P l → All P (sort_keys l)
  unfolding sort_keys
  sort_keys-All [] h = tt
  sort_keys-All (a ∷ l) h = insert_key-All a (sort_keys l) h.0 (sort_keys-All l h.1)

  All-sort_keys : (l : List String) → All P (sort_keys l) → All P l
  unfolding sort_keys
  All-sort_keys [] h = tt
  All-sort_keys (a ∷ l) h =
      let (p, ps) = All-insert_key a (sort_keys l) h in (p, All-sort_keys l ps)

module _ (paths : Paths) (point : ℕ) where
  -- What is found: the newest dump up to the restore point, or none where there is none; and no
  -- binlogs, or those that stand in the directory of the dump.
  pub record IsNearest (keys : List String) (r : Nearest) : Type 0 where
    pub found :
        ((r.dump ≡ "") × All (IsLate paths point) keys)
        ⊎ ((t : ℕ) × (r.time ≡ some t)
            × Among paths point (sort_keys keys) r.dump
            × IsDumpOf paths point t r.dump
            × (t ≤ point)
            × All (IsNotBetter paths point t) keys)
    pub paired : (r.binlog ≡ "") ⊎ (paths.dir r.dump ≡ paths.dir r.binlog)

  -- If the sorted keys are in the order of their times, and behind each binlog file up to the restore
  -- point stands the dump of its directory, then the search returns the newest dump that is not after
  -- the restore point, if there is one, with its time, and the binlogs that it returns, if any,
  -- belong to that dump; keys of another form and keys without a time do not matter.
  pub find_nearest_dump-IsNearest :
      (keys : List String)
      → IsTimeline paths point (sort_keys keys)
      → IsComplete paths point (sort_keys keys)
      → IsNearest keys (find_nearest_dump paths point keys)
  unfolding find_nearest_dump
  find_nearest_dump-IsNearest keys tl c =
      let start : Nearest = record { dump = ""; binlog = ""; time = none } in
      record {
        found = elim (scan-Found paths point start (sort_keys keys) tl) [
          | inl (d, e, all) ↦ inl (d, All-sort_keys (IsLate paths point) keys all)
          | inr (t, e, g, d, le, all) ↦
              inr (t, e, g, d, le, All-sort_keys (IsNotBetter paths point t) keys all)
        ];
        paired = scan-Paired paths point start (sort_keys keys) tl c (inl refl);
      }
