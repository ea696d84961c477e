-- ===== src/Backup/Nearest/Newest.antt =====
-- The dump that the search finds (backup/restore.go).
use moco.Prelude.{
  ℕ, zero, suc, ◌≤◌, ◌<◌, ◌≡◌, refl, ap, sym, ◌∙◌, subst, arith, ltb→lt, String, ltb, Bool, true,
  false, not, ◌&&◌, ◌⊎◌, inl, inr, Option, none, some, List, [], ◌∷◌, All, All-get_elem?, All-imp,
  get_elem?, Bool-cases,
}
use moco.Backup.Nearest.{
  Paths, Nearest, is_binlog, is_dump, time_of, take_dump, take_key, scan_at, taken_at, scan,
}

module _ (paths : Paths) (point : ℕ) where
  -- A dump of the time `t`.
  abbrev pub IsDumpOf : ℕ → String → Type 0
  IsDumpOf t key =
      (is_binlog key ≡ false) × (is_dump key ≡ true) × (time_of paths point key ≡ some t)

  -- No dump between the time `t` and the restore point.
  abbrev pub IsNotBetter : ℕ → String → Type 0
  IsNotBetter t key = (u : ℕ) → IsDumpOf u key → u ≤ point → u ≤ t

  abbrev pub IsLate : String → Type 0
  IsLate key = (u : ℕ) → IsDumpOf u key → point < u

  abbrev pub NotBefore : ℕ → String → Type 0
  NotBefore t key = (u : ℕ) → time_of paths point key ≡ some u → t ≤ u

  -- The keys are in the order of their times.
  abbrev pub IsTimeline : List String → Type 0
  IsTimeline [] = Unit
  IsTimeline (key ∷ rest) =
      ((t : ℕ) → time_of paths point key ≡ some t → All (NotBefore t) rest) × IsTimeline rest

  abbrev pub Among : List String → String → Type 0
  Among l key = (i : ℕ) × (get_elem? l i ≡ some key)

  -- What the search finds in `l`, from `acc` on.
  abbrev pub Found : Nearest → List String → Nearest → Type 0
  Found acc l r =
      ((r.dump ≡ acc.dump) × (r.time ≡ acc.time) × All IsLate l)
      ⊎ ((t : ℕ) × (r.time ≡ some t)
          × Among l r.dump
          × IsDumpOf t r.dump
          × (t ≤ point)
          × All (IsNotBetter t) l)

  kind_false : (a b : Bool) → (not a && not b) ≡ true → (a ≡ false) × (b ≡ false)
  kind_false false false h = (refl, refl)
  kind_false false true h = cc
  kind_false true b h = cc

  later-Found :
      (acc : Nearest) (key : String) (rest : List String) (r : Nearest)
      → ((u : ℕ) → IsDumpOf u key → ⊥)
      → Found acc rest r
      → Found acc (key ∷ rest) r
  later-Found acc key rest r never (inl (d, t, all)) =
      inl (d, t, ((λ u h. elim (never u h) [ ]), all))
  later-Found acc key rest r never (inr (t, e, (i, g), d, le, all)) =
      inr (t, e, (suc i, g), d, le, ((λ u h _. elim (never u h) [ ]), all))

  pub IsLate-all :
      (key : String) (t : ℕ) (rest : List String)
      → time_of paths point key ≡ some t
      → point < t
      → All (NotBefore t) rest
      → All IsLate (key ∷ rest)
  IsLate-all key t rest e lt h = (
    λ u d. let q : some t ≡ some u = sym e ∙ d.2 in let q' : t ≡ u = cc in omega (arith, q'),
    All-imp (NotBefore t) IsLate rest (λ k n u d. omega (arith, n u d.2)) h,
  )

  -- From a dump that is taken on.
  taken-Found :
      (acc : Nearest) (key : String) (t : ℕ) (rest : List String) (r : Nearest)
      → IsDumpOf t key
      → t ≤ point
      → All (NotBefore t) rest
      → Found (take_dump paths point acc key t) rest r
      → Found acc (key ∷ rest) r
  unfolding take_dump
  taken-Found acc key t rest r d le n (inl (q, e, all)) = inr (
    t,
    e,
    (zero, ap some (sym q)),
    subst (λ k. IsDumpOf t k) (sym q) d,
    le,
    (
      λ u d' _.
          let x : some t ≡ some u = sym d.2 ∙ d'.2 in let x' : t ≡ u = cc in omega (arith, x'),
      All-imp IsLate (IsNotBetter t) rest (λ k l u d' h. omega (arith, l u d', h)) all,
    ),
  )
  taken-Found acc key t rest r d le n (inr (u, e, (i, g), d', le', all)) = inr (
    u,
    e,
    (suc i, g),
    d',
    le',
    (
      λ v d'' _.
          let x : some t ≡ some v = sym d.2 ∙ d''.2 in
          let x' : t ≡ v = cc in omega (arith, x', All-get_elem? (NotBefore t) rest i n g u d'.2),
      all,
    ),
  )

  not_both : (a b : Bool) → (not a && not b) ≡ false → a ≡ false → b ≡ true
  not_both true b h e = cc
  not_both false true h e = refl
  not_both false false h e = cc

  abbrev pub kind_of : String → Bool
  kind_of key = not (is_binlog key) && not (is_dump key)

  pub not_dump : (key : String) → kind_of key ≡ true → (u : ℕ) → IsDumpOf u key → ⊥
  not_dump key h u d = let (a, b) = kind_false _ _ h in let d1 = d.1 in cc

  -- A key of the right kind that is not late.
  take_key-Found :
      (acc : Nearest) (key : String) (t : ℕ) (rest : List String) (r : Nearest)
      → kind_of key ≡ false
      → time_of paths point key ≡ some t
      → t ≤ point
      → All (NotBefore t) rest
      → Found (take_key paths point acc key t) rest r
      → Found acc (key ∷ rest) r
  unfolding take_key
  take_key-Found acc key t rest r k e le n f = elim (Bool-cases (is_binlog key)) [
    | inl b ↦
        later-Found acc key rest r (λ u d. let x = d.0 in cc)
          (let f' : Found (record acc { binlog = key }) rest r = rw b at f in f')
    | inr b ↦ taken-Found acc key t rest r (b, not_both _ _ k b, e) le n (rw b at f)
  ]

  scan_at-Found :
      (acc : Nearest) (key : String) (rest : List String) (o : Option ℕ)
      → kind_of key ≡ false
      → time_of paths point key ≡ o
      → ((t : ℕ) → time_of paths point key ≡ some t → All (NotBefore t) rest)
      → ((acc' : Nearest) → Found acc' rest (scan paths point acc' rest))
      → Found acc (key ∷ rest) (
          scan_at paths point acc key
            (scan paths point acc rest)
            (scan paths point (taken_at paths point acc key o) rest)
            o)
  scan_at-Found acc key rest none k e n rec =
      later-Found acc key rest (scan paths point acc rest) (λ u d. let x = d.2 in cc) (rec acc)
  scan_at-Found acc key rest (some t) k e n rec = elim (Bool-cases (ltb point t)) [
    | inl lt ↦ rw lt (inl (refl, refl, IsLate-all key t rest e (ltb→lt point t lt) (n t e)))
    | inr ge ↦ rw ge (
        take_key-Found acc key t rest (scan paths point (take_key paths point acc key t) rest) k e
          (ground arith) (n t e) (rec (take_key paths point acc key t)))
  ]

  pub scan-Found :
      (acc : Nearest) (l : List String) → IsTimeline l → Found acc l (scan paths point acc l)
  unfolding scan
  scan-Found acc [] h = inl (refl, refl, tt)
  scan-Found acc (key ∷ rest) h = elim (Bool-cases (kind_of key)) [
    | inl k ↦ rw k (
        later-Found acc key rest (scan paths point acc rest) (not_dump key k)
          (scan-Found acc rest h.1))
    | inr k ↦ rw k (
        scan_at-Found acc key rest (time_of paths point key) k refl h.0
          (λ acc'. scan-Found acc' rest h.1))
  ]
