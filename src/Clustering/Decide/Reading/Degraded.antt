-- ===== src/Clustering/Decide/Reading/Degraded.antt =====
-- The state Degraded (clustering/status.go).
use moco.Prelude.{
  ℕ, suc, ◌+◌, ◌/◌, ◌≤◌, ◌≡◌, ◌≢◌, ap, Bool, true, false, not, ◌&&◌, Option, none, some, List, [],
  ◌∷◌, ◌++◌, arith, get_elem?, Outcome, ok, >>=-eq-ok, ok-injective, Bool-cases, &&_true, not-true,
  inl, inr, leb→le, ◌=?◌, Ensures, Ensures-pure, Ensures-bind,
}
use moco.Api.Cluster.{host_of}
use moco.Dbop.Types.{MySqlInstanceStatus}
use moco.Clustering.StatusSet.{
  degraded, StatusSet, is_pod_ready, replicas_in_cluster, lost_data, is_sound_replica,
  primary_mode_ok,
}
use moco.Clustering.Decide.{
  primary_status, pod_at, degraded_replicas, degraded_primary, enough_replicas, degraded_instances,
  is_degraded,
}
use moco.Clustering.Decide.Target.{pod_at-get_elem?}
use moco.Clustering.Decide.Reading.{
  PrimaryIs, ready_at, count_sound, Reading, primary_status-PrimaryIs,
}

module _ (ss : StatusSet) where
  pub degraded_replicas-count :
      (i : ℕ) (rest : List (Option MySqlInstanceStatus)) (n : ℕ) (cs : List ℕ)
      → Ensures (λ r. r.0 ≡ n + count_sound ss i rest) (degraded_replicas ss i rest n cs)
  unfolding degraded_replicas count_sound
  degraded_replicas-count i [] n cs = Ensures-pure _ (omega arith)
  degraded_replicas-count i (none ∷ rest) n cs = degraded_replicas-count (suc i) rest n cs
  degraded_replicas-count i (some ist ∷ rest) n cs = elim (Bool-cases (i =? ss.primary)) [
    | inl e ↦ rw e (degraded_replicas-count (suc i) rest n cs)
    | inr e ↦ rw e (
        Ensures-bind _ (pod_at ss i) _ λ pod ep.
          rw (pod_at-get_elem? ss i pod ep, ready_at)
            (elim (Bool-cases
              (is_pod_ready pod && is_sound_replica (host_of ss.cluster ss.primary) ist)) [
                | inl good ↦ rw good (λ a ea.
                    omega
                      (arith, degraded_replicas-count (suc i) rest (suc n) (cs ++ (i ∷ [])) a ea))
                | inr bad ↦ rw bad (degraded_replicas-count (suc i) rest n cs)
              ]))
  ]

  degraded_primary-lem :
      (o : Option MySqlInstanceStatus)
      → PrimaryIs ss o
      → degraded_primary ss o ≡ true
      → (pst : MySqlInstanceStatus) × PrimaryIs ss (some pst)
        × (primary_mode_ok ss.cluster pst ≡ true)
        × (ss.cluster.spec.replicas / 2 ≤ replicas_in_cluster ss.cluster pst.replica_hosts)
  unfolding degraded_primary
  degraded_primary-lem none at h = cc
  degraded_primary-lem (some pst) at h = let (m, n) = &&_true _ _ h in (pst, at, m, leb→le _ _ n)

  enough_replicas-lem :
      (n : ℕ)
      → enough_replicas ss n ≡ true
      → (ss.cluster.spec.replicas / 2 ≤ n) × (suc n ≢ ss.cluster.spec.replicas)
  unfolding enough_replicas
  enough_replicas-lem n h = ground arith

  degraded_instances-Reading :
      (more : List ℕ)
      → ready_at (get_elem? ss.pods ss.primary) ≡ true
      → lost_data ss ≡ false
      → degraded_instances ss ≡ ok (true, more)
      → Reading ss degraded
  unfolding degraded_instances
  degraded_instances-Reading more ready kept e =
      let (o, eo, e1) = >>=-eq-ok (primary_status ss) _ e in
      elim (Bool-cases (degraded_primary ss o)) [
        | inl d ↦
            let (r, er, e2) =
              >>=-eq-ok (degraded_replicas ss 0 ss.mysql_status 0 ss.candidates) _ (rw d at e1) in
            let count = degraded_replicas-count 0 ss.mysql_status 0 ss.candidates r er in
            let (enough, rest) = enough_replicas-lem r.0 (ap (λ x. x.0) (ok-injective e2)) in
            (
              ready,
              kept,
              degraded_primary-lem o (primary_status-PrimaryIs ss o eo) d,
              omega arith,
              omega arith,
            )
        | inr d ↦
            let f : ◌≡◌ {A = Outcome (Bool × List ℕ)} (ok (false, ss.candidates))
                (ok (true, more)) =
              rw d at e1 in
            cc
      ]

  pub is_degraded-Reading : (more : List ℕ) → is_degraded ss ≡ ok (true, more) → Reading ss degraded
  unfolding is_degraded
  is_degraded-Reading more e =
      let (ppod, ep, e1) = >>=-eq-ok (pod_at ss ss.primary) _ e in
      elim (Bool-cases (is_pod_ready ppod && not (lost_data ss))) [
        | inl b ↦
            let (ready, kept) = &&_true _ _ b in
            degraded_instances-Reading more
              (rw (pod_at-get_elem? ss ss.primary ppod ep, ready_at) ready) (not-true _ kept)
              (rw b at e1)
        | inr b ↦
            let f : ◌≡◌ {A = Outcome (Bool × List ℕ)} (ok (false, ss.candidates))
                (ok (true, more)) =
              rw b at e1 in
            cc
      ]
