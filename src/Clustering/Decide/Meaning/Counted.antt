-- ===== src/Clustering/Decide/Meaning/Counted.antt =====
-- The counts of the code, and what they are counts of (clustering/status.go).
use moco.Prelude.{
  ℕ, suc, ◌≤◌, ◌≡◌, ◌↔◌, inl, inr, refl, sym, ◌∙◌, arith, Bool, true, false, not, ◌&&◌, Option,
  none, some, List, [], ◌∷◌, get_elem?, ◌=?◌, leb, leb→le, if◌then◌else◌,
}
use moco.Api.Cluster.{MySqlCluster, host_of}
use moco.Dbop.Types.{MySqlInstanceStatus, ReplicaHost}
use moco.Clustering.StatusSet.{StatusSet, replicas_in_cluster, is_sound_replica}
use moco.Clustering.Decide.{holds_data, count_ok_replicas}
use moco.Clustering.Decide.Reading.{ready_at, count_sound}
use moco.Clustering.Decide.Meaning.{Counts, IsMember, IsSound, Serves, IsPromotable}
use moco.Clustering.Decide.Meaning.Tested.{
  and_iff, same, no_number, IsSound-iff, holds_iff, ready_iff,
}

module _ {A : Type 0} (P : ℕ → A → Type 0) where
  Counts-cons :
      (i : ℕ) (x : A) (rest : List A) (m : ℕ) (b : Bool)
      → ((b ≡ true) ↔ P i x)
      → Counts P (suc i) rest m
      → Counts P i (x ∷ rest) (if b then suc m else m)
  Counts-cons i x rest m true f c = inl (f.0 refl, (m, refl, c))
  Counts-cons i x rest m false f c = inr (λ p. (let k = f.1 p in cc), c)

  -- A list has one count.
  pub Counts-unique : (i : ℕ) (l : List A) (m n : ℕ) → Counts P i l m → Counts P i l n → m ≡ n
  Counts-unique i [] m n c d = c ∙ sym d
  Counts-unique i (x ∷ rest) m n (inl (p, (m', e, c))) (inl (q, (n', e', d))) =
      omega (arith, Counts-unique (suc i) rest m' n' c d)
  Counts-unique i (x ∷ rest) m n (inl (p, c)) (inr (q, d)) = absurd (q p)
  Counts-unique i (x ∷ rest) m n (inr (p, c)) (inl (q, d)) = absurd (p q)
  Counts-unique i (x ∷ rest) m n (inr (p, c)) (inr (q, d)) = Counts-unique (suc i) rest m n c d

leb_iff : (m n : ℕ) → (leb m n ≡ true) ↔ (m ≤ n)
leb_iff m n = (λ e. leb→le m n e, λ h. ground arith)

pub replicas_in_cluster-Counts :
    (c : MySqlCluster) (i : ℕ) (hosts : List ReplicaHost)
    → Counts (IsMember c) i hosts (replicas_in_cluster c hosts)
unfolding replicas_in_cluster
replicas_in_cluster-Counts c i [] = refl
replicas_in_cluster-Counts c i (r ∷ rs) =
    Counts-cons (IsMember c) i r rs _ _ (and_iff _ _ (leb_iff _ _) same)
      (replicas_in_cluster-Counts c (suc i) rs)

module _ (ss : StatusSet) where
  some_elim :
      (P : MySqlInstanceStatus → Type 0) (ist : MySqlInstanceStatus)
      → (x : MySqlInstanceStatus) × (some ist ≡ some x) × P x
      → P ist
  some_elim P ist (x, e, p) = let q : x ≡ ist = cc in rw q at p

  pub count_ok_replicas-Counts :
      (i : ℕ) (l : List (Option MySqlInstanceStatus))
      → Counts (IsPromotable ss) i l (count_ok_replicas ss.primary i l)
  unfolding count_ok_replicas
  count_ok_replicas-Counts i [] = refl
  count_ok_replicas-Counts i (none ∷ rest) =
      inr (λ h. (let k = h.1.1 in cc), count_ok_replicas-Counts (suc i) rest)
  count_ok_replicas-Counts i (some ist ∷ rest) =
      let f = and_iff _ _ (no_number i ss.primary) (holds_iff ist) in
      Counts-cons (IsPromotable ss) i (some ist) rest _ (not (i =? ss.primary) && holds_data ist)
        (
          λ e. let (a, b) = f.0 e in (a, (ist, refl, b.0, b.1, b.2)),
          λ h.
              let q : h.1.0 ≡ ist = (let k = h.1.1 in cc) in
              f.1 (h.0, (rw q at (h.1.2), rw q at (h.1.3), rw q at (h.1.4))),
        )
        (count_ok_replicas-Counts (suc i) rest)

  pub count_sound-Counts :
      (i : ℕ) (l : List (Option MySqlInstanceStatus)) → Counts (Serves ss) i l (count_sound ss i l)
  unfolding count_sound
  count_sound-Counts i [] = refl
  count_sound-Counts i (none ∷ rest) =
      inr (λ h. (let k = h.2.1 in cc), count_sound-Counts (suc i) rest)
  count_sound-Counts i (some ist ∷ rest) =
      let host = host_of ss.cluster ss.primary in
      let f =
        and_iff _ _ (no_number i ss.primary)
          (and_iff _ _ (ready_iff ss i) (IsSound-iff host ist)) in
      Counts-cons (Serves ss) i (some ist) rest _
        (not (i =? ss.primary) && (ready_at (get_elem? ss.pods i) && is_sound_replica host ist))
        (
          λ e. let (a, (b, c)) = f.0 e in (a, b, (ist, refl, c)),
          λ h. f.1 (h.0, (h.1, some_elim (IsSound host) ist h.2)),
        )
        (count_sound-Counts (suc i) rest)
