-- ===== src/Backup/Nearest/Paired.antt =====
-- The binlogs that the search finds (backup/restore.go).
use text.Mathlib.TextEquality.{eq_iff}
use moco.Prelude.{
  ℕ, zero, suc, ◌≤◌, ◌≡◌, refl, sym, subst, arith, ltb→lt, String, ◌==◌, ltb, true, ◌⊎◌, inl, inr,
  Option, none, some, List, [], ◌∷◌, All, All-get_elem?, Bool-cases,
}
use moco.Backup.Nearest.{
  Paths, Nearest, is_binlog, time_of, take_dump, take_key, scan_at, taken_at, scan,
}
use moco.Backup.Nearest.Newest.{IsDumpOf, IsLate, IsTimeline, Among, kind_of, not_dump, IsLate-all}

module _ (paths : Paths) (point : ℕ) where
  -- The dump that the binlogs of `b` belong to stands in the list.
  abbrev pub Pending : String → List String → Type 0
  Pending b l =
      (t : ℕ) × (d : String) × Among paths point l d
      × IsDumpOf paths point t d
      × (paths.dir d ≡ paths.dir b)
      × (t ≤ point)

  -- Behind each binlog file up to the restore point stands the dump of its directory.
  abbrev pub IsComplete : List String → Type 0
  IsComplete [] = Unit
  IsComplete (key ∷ rest) =
      (is_binlog key ≡ true
        → (t : ℕ) → time_of paths point key ≡ some t
        → t ≤ point
        → Pending key rest)
      × IsComplete rest

  abbrev pub Paired : Nearest → List String → Type 0
  Paired acc l =
      (acc.binlog ≡ "") ⊎ ((paths.dir acc.dump ≡ paths.dir acc.binlog) ⊎ Pending acc.binlog l)

  abbrev pub IsPaired : Nearest → Type 0
  IsPaired r = (r.binlog ≡ "") ⊎ (paths.dir r.dump ≡ paths.dir r.binlog)

  later-Paired :
      (acc : Nearest) (key : String) (rest : List String)
      → ((u : ℕ) → IsDumpOf paths point u key → ⊥)
      → Paired acc (key ∷ rest)
      → Paired acc rest
  later-Paired acc key rest never (inl e) = inl e
  later-Paired acc key rest never (inr (inl e)) = inr (inl e)
  later-Paired acc key rest never (inr (inr (t, d, (zero, g), x, q, le))) =
      let k : key ≡ d = cc in elim (never t (subst (IsDumpOf paths point t) (sym k) x)) [ ]
  later-Paired acc key rest never (inr (inr (t, d, (suc i, g), x, q, le))) =
      inr (inr (t, d, (i, g), x, q, le))

  late-Paired :
      (acc : Nearest) (l : List String) → All (IsLate paths point) l → Paired acc l → IsPaired acc
  late-Paired acc l h (inl e) = inl e
  late-Paired acc l h (inr (inl e)) = inr e
  late-Paired acc l h (inr (inr (t, d, (i, g), x, q, le))) =
      let e : ⊥ = omega (arith, All-get_elem? (IsLate paths point) l i h g t x) in elim e [ ]

  take_key-Paired :
      (acc : Nearest) (key : String) (t : ℕ) (rest : List String)
      → (is_binlog key ≡ true → Pending key rest)
      → Paired (take_key paths point acc key t) rest
  unfolding take_key take_dump
  take_key-Paired acc key t rest h = elim (Bool-cases (is_binlog key)) [
    | inl b ↦ rw b (inr (inr (h b)))
    | inr b ↦ rw b (elim (Bool-cases (paths.dir key == paths.dir acc.binlog)) [
      | inl y ↦ rw y (inr (inl ((eq_iff _ _).0 y)))
      | inr n ↦ rw n (inl refl)
    ])
  ]

  scan_at-Paired :
      (acc : Nearest) (key : String) (rest : List String) (o : Option ℕ)
      → time_of paths point key ≡ o
      → IsTimeline paths point (key ∷ rest)
      → IsComplete (key ∷ rest)
      → ((acc' : Nearest) → Paired acc' rest → IsPaired (scan paths point acc' rest))
      → Paired acc (key ∷ rest)
      → IsPaired (
          scan_at paths point acc key
            (scan paths point acc rest)
            (scan paths point (taken_at paths point acc key o) rest)
            o)
  scan_at-Paired acc key rest none e tl c rec p =
      rec acc (later-Paired acc key rest (λ u d. let x = d.2 in cc) p)
  scan_at-Paired acc key rest (some t) e tl c rec p = elim (Bool-cases (ltb point t)) [
    | inl lt ↦ rw lt (
        late-Paired acc (key ∷ rest)
          (IsLate-all paths point key t rest e (ltb→lt point t lt) (tl.0 t e)) p)
    | inr ge ↦ rw ge (
        rec (take_key paths point acc key t)
          (take_key-Paired acc key t rest (λ b. c.0 b t e (ground arith))))
  ]

  pub scan-Paired :
      (acc : Nearest) (l : List String)
      → IsTimeline paths point l
      → IsComplete l
      → Paired acc l
      → IsPaired (scan paths point acc l)
  unfolding scan
  scan-Paired acc [] tl c (inl e) = inl e
  scan-Paired acc [] tl c (inr (inl e)) = inr e
  scan-Paired acc [] tl c (inr (inr (t, d, (i, g), x, q, le))) = cc
  scan-Paired acc (key ∷ rest) tl c p = elim (Bool-cases (kind_of paths point key)) [
    | inl k ↦
        rw k
          (scan-Paired acc rest tl.1 c.1 (later-Paired acc key rest (not_dump paths point key k) p))
    | inr k ↦ rw k (
        scan_at-Paired acc key rest (time_of paths point key) refl tl c
          (λ acc'. scan-Paired acc' rest tl.1 c.1) p)
  ]
