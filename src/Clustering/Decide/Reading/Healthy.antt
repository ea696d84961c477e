-- ===== src/Clustering/Decide/Reading/Healthy.antt =====
-- The state Healthy (clustering/status.go).
use moco.Prelude.{
  ℕ, suc, ◌≡◌, refl, ap, Bool, true, false, Option, none, some, List, [], ◌∷◌, ◌++◌, All, AllFrom,
  Outcome, ok, >>=-eq-ok, ok-injective, Bool-cases, &&_true, inl, inr, ◌=?◌, =?_iff,
}
use moco.Api.Cluster.{host_of}
use moco.Api.Pod.{Pod}
use moco.Dbop.Types.{MySqlInstanceStatus}
use moco.Clustering.StatusSet.{
  healthy, StatusSet, replicas_in_cluster, all_pods_ready, is_sound_replica, healthy_replicas,
  primary_mode_ok, healthy_primary,
}
use moco.Clustering.Decide.{primary_status, after_replicas, healthy_instances, is_healthy}
use moco.Clustering.Decide.Target.{all_pods_ready-cons}
use moco.Clustering.Decide.Reading.{
  IsReadySlot, IsSoundSlot, PrimaryIs, Reading, primary_status-PrimaryIs,
}

module _ (ss : StatusSet) where
  healthy_replicas_sound :
      (i : ℕ) (rest : List (Option MySqlInstanceStatus)) (cs : List ℕ)
      → (healthy_replicas ss.primary (host_of ss.cluster ss.primary) i rest cs).0 ≡ true
      → AllFrom (IsSoundSlot ss) i rest
  unfolding healthy_replicas
  healthy_replicas_sound i [] cs h = tt
  healthy_replicas_sound i (none ∷ rest) cs h = elim (Bool-cases (i =? ss.primary)) [
    | inl e ↦ (
      (λ ne. absurd (ne ((=?_iff i ss.primary).0 e))),
      healthy_replicas_sound (suc i) rest cs (rw e at h),
    )
    | inr e ↦ let f : false ≡ true = rw e at h in cc
  ]
  healthy_replicas_sound i (some ist ∷ rest) cs h = elim (Bool-cases (i =? ss.primary)) [
    | inl e ↦ (
      (λ ne. absurd (ne ((=?_iff i ss.primary).0 e))),
      healthy_replicas_sound (suc i) rest cs (rw e at h),
    )
    | inr e ↦ elim (Bool-cases (is_sound_replica (host_of ss.cluster ss.primary) ist)) [
      | inl good ↦ (
        (λ ne. (ist, refl, good)),
        healthy_replicas_sound (suc i) rest (cs ++ (i ∷ [])) (rw (e, good) at h),
      )
      | inr bad ↦ let f : false ≡ true = rw (e, bad) at h in cc
    ]
  ]

all_pods_ready-All : (ps : List (Option Pod)) → all_pods_ready ps ≡ ok true → All IsReadySlot ps
all_pods_ready-All [] e = tt
all_pods_ready-All (none ∷ ps) e = unfold all_pods_ready in cc
all_pods_ready-All (some pod ∷ ps) e =
    let (r, rest) = all_pods_ready-cons pod ps e in ((pod, refl, r), all_pods_ready-All ps rest)

module _ (ss : StatusSet) where
  healthy_primary-lem :
      (o : Option MySqlInstanceStatus)
      → PrimaryIs ss o
      → healthy_primary ss o ≡ true
      → (pst : MySqlInstanceStatus) × PrimaryIs ss (some pst)
        × (suc (replicas_in_cluster ss.cluster pst.replica_hosts) ≡ ss.cluster.spec.replicas)
        × (primary_mode_ok ss.cluster pst ≡ true)
  unfolding healthy_primary
  healthy_primary-lem none at h = cc
  healthy_primary-lem (some pst) at h = let (n, m) = &&_true _ _ h in (pst, at, (=?_iff _ _).0 n, m)

  after_replicas-Reading :
      (found : Bool × List ℕ) (cs : List ℕ)
      → healthy_replicas ss.primary (host_of ss.cluster ss.primary) 0 ss.mysql_status ss.candidates
        ≡ found
      → all_pods_ready ss.pods ≡ ok true
      → after_replicas ss found ≡ ok (true, cs)
      → Reading ss healthy
  unfolding after_replicas
  after_replicas-Reading (false, found) cs ef ready e = cc
  after_replicas-Reading (true, found) cs ef ready e =
      let (o, eo, e') = >>=-eq-ok (primary_status ss) _ e in
      (
        all_pods_ready-All ss.pods ready,
        healthy_replicas_sound ss 0 ss.mysql_status ss.candidates (ap (λ r. r.0) ef),
        healthy_primary-lem o (primary_status-PrimaryIs ss o eo) (ap (λ r. r.0) (ok-injective e')),
      )

  pub is_healthy-Reading : (cs : List ℕ) → is_healthy ss ≡ ok (true, cs) → Reading ss healthy
  unfolding is_healthy healthy_instances
  is_healthy-Reading cs e =
      let (ready, er, e') = >>=-eq-ok (all_pods_ready ss.pods) _ e in
      elim (Bool-cases ready) [
        | inl r ↦ after_replicas-Reading _ cs refl (rw r at er) (rw r at e')
        | inr r ↦
            let f : ◌≡◌ {A = Outcome (Bool × List ℕ)} (ok (false, ss.candidates)) (ok (true, cs)) =
              rw r at e' in
            cc
      ]
