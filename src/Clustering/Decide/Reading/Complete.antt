-- ===== src/Clustering/Decide/Reading/Complete.antt =====
-- That the tests of `DecideState` hold where their readings do (clustering/status.go).
use moco.Prelude.{
  ℕ, suc, ◌+◌, ◌/◌, ◌≤◌, ◌≡◌, ◌≢◌, refl, sym, ◌∙◌, ap, arith, Bool, true, false, not, ◌&&◌, Option,
  none, some, List, [], ◌∷◌, ◌++◌, All, AllFrom, Outcome, ok, ◌>>=◌, >>=-eq-ok, ok-injective,
  Bool-cases, inl, inr, ◌=?◌, =?_iff, leb,
}
use moco.Api.Cluster.{host_of}
use moco.Api.Pod.{Pod}
use moco.Dbop.Types.{MySqlInstanceStatus}
use moco.Clustering.StatusSet.{
  healthy, cloning, restoring, degraded, failed, lost, incomplete, StatusSet, is_pod_ready,
  all_pods_ready, healthy_replicas, replicas_in_cluster, primary_mode_ok, healthy_primary,
}
use moco.Clustering.Decide.{
  primary_status, pod_at, after_replicas, healthy_instances, is_healthy, is_cloning, is_restoring,
  degraded_replicas, degraded_primary, enough_replicas, degraded_instances, is_degraded,
  primary_gone,
}
use moco.Clustering.Decide.Target.{pod_at-get_elem?}
use moco.Clustering.Decide.Reading.{
  IsReadySlot, IsSoundSlot, PrimaryIs, Reading, count_sound, GoneOrLost,
}
use moco.Clustering.Decide.Reading.Degraded.{degraded_replicas-count}

All-all_pods_ready : (ps : List (Option Pod)) → All IsReadySlot ps → all_pods_ready ps ≡ ok true
unfolding all_pods_ready
All-all_pods_ready [] h = refl
All-all_pods_ready (none ∷ ps) ((pod, e, r), h) = cc
All-all_pods_ready (some p ∷ ps) ((pod, e, r), h) =
    let q : pod ≡ p = cc in
    let r' : is_pod_ready p ≡ true = rw q at r in rw (r', All-all_pods_ready ps h) refl

enough_true :
    (replicas n : ℕ)
    → replicas / 2 ≤ n
    → suc n ≢ replicas
    → (leb (replicas / 2) n && not (suc n =? replicas)) ≡ true
enough_true replicas n h ne = ground arith

module _ (ss : StatusSet) where
  sound-healthy_replicas :
      (i : ℕ) (rest : List (Option MySqlInstanceStatus)) (cs : List ℕ)
      → AllFrom (IsSoundSlot ss) i rest
      → (healthy_replicas ss.primary (host_of ss.cluster ss.primary) i rest cs).0 ≡ true
  unfolding healthy_replicas
  sound-healthy_replicas i [] cs h = refl
  sound-healthy_replicas i (o ∷ rest) cs (f, h) = elim (Bool-cases (i =? ss.primary)) [
    | inl e ↦ rw e (sound-healthy_replicas (suc i) rest cs h)
    | inr e ↦
        let (ist, eo, good) = f (λ q. let t = (=?_iff i ss.primary).1 q in cc) in
        rw (e, eo, good) (sound-healthy_replicas (suc i) rest (cs ++ (i ∷ [])) h)
  ]

  primary_status-ok : (o : Option MySqlInstanceStatus) → PrimaryIs ss o → primary_status ss ≡ ok o
  unfolding primary_status
  primary_status-ok o at = rw at refl

  after_replicas-true :
      (r : Bool × List ℕ) (pst : MySqlInstanceStatus)
      → r.0 ≡ true
      → PrimaryIs ss (some pst)
      → (suc (replicas_in_cluster ss.cluster pst.replica_hosts) ≡ ss.cluster.spec.replicas)
      → primary_mode_ok ss.cluster pst ≡ true
      → after_replicas ss r ≡ ok (true, r.1)
  unfolding after_replicas healthy_primary
  after_replicas-true (false, cs) pst e at n m = cc
  after_replicas-true (true, cs) pst e at n m =
      rw (primary_status-ok (some pst) at, (=?_iff _ _).1 n, m) refl

  pub is_healthy-true : (h : Bool × List ℕ) → Reading ss healthy → is_healthy ss ≡ ok h → h.0 ≡ true
  unfolding is_healthy healthy_instances
  is_healthy-true h (ready, sound, (pst, at, n, m)) e =
      let r =
        healthy_replicas ss.primary (host_of ss.cluster ss.primary) 0 ss.mysql_status
          ss.candidates in
      let a =
        after_replicas-true r pst (sound-healthy_replicas 0 ss.mysql_status ss.candidates sound) at
          n m in
      let e' : ◌≡◌ {A = Outcome (Bool × List ℕ)} (ok (true, r.1)) (ok h) =
        sym a ∙ (rw (All-all_pods_ready ss.pods ready, ◌>>=◌) at e) in
      sym (ap (λ x. x.0) (ok-injective e'))

  degraded_instances-true :
      (d : Bool × List ℕ) → Reading ss degraded → degraded_instances ss ≡ ok d → d.0 ≡ true
  unfolding degraded_instances degraded_primary enough_replicas
  degraded_instances-true d (ready, kept, (pst, at, mode, hosts), half, short) e =
      let leb_hosts : leb (ss.cluster.spec.replicas / 2)
            (replicas_in_cluster ss.cluster pst.replica_hosts)
          ≡ true =
        ground arith in
      let e1 = rw (primary_status-ok (some pst) at, ◌>>=◌, mode, leb_hosts) at e in
      let (r, er, e2) = >>=-eq-ok (degraded_replicas ss 0 ss.mysql_status 0 ss.candidates) _ e1 in
      let count : r.0 ≡ 0 + count_sound ss 0 ss.mysql_status =
        degraded_replicas-count ss 0 ss.mysql_status 0 ss.candidates r er in
      let same : r.0 ≡ count_sound ss 0 ss.mysql_status = omega arith in
      sym (ap (λ x. x.0) (ok-injective e2))
      ∙ rw same (enough_true ss.cluster.spec.replicas _ half short)

  pub is_degraded-true :
      (d : Bool × List ℕ) → Reading ss degraded → is_degraded ss ≡ ok d → d.0 ≡ true
  unfolding is_degraded
  is_degraded-true d (ready, kept, primary, half, short) e =
      let (ppod, ep, e1) = >>=-eq-ok (pod_at ss ss.primary) _ e in
      let r : is_pod_ready ppod ≡ true = rw (pod_at-get_elem? ss ss.primary ppod ep) at ready in
      degraded_instances-true d (ready, kept, primary, half, short) (rw (r, kept) at e1)

  pub is_cloning-true : (b : Bool) → Reading ss cloning → is_cloning ss ≡ ok b → b ≡ true
  unfolding is_cloning
  is_cloning-true b (has, fresh, (o, at, p)) e =
      let e1 = rw (has, fresh, primary_status-ok o at, ◌>>=◌, p) at e in sym (ok-injective e1)

  pub is_restoring-true : Reading ss restoring → is_restoring ss ≡ true
  unfolding is_restoring
  is_restoring-true (has, fresh) = rw (has, fresh) refl

  PrimaryIs-unique : (o p : Option MySqlInstanceStatus) → PrimaryIs ss o → PrimaryIs ss p → o ≡ p
  PrimaryIs-unique o p at at' = let e : some o ≡ some p = sym at ∙ at' in cc

  -- The three states of a cluster that is neither healthy nor degraded exclude each other.
  pub lost-not_failed : Reading ss lost → Reading ss failed → ⊥
  lost-not_failed (g, few) (g', many) = omega arith

  pub incomplete-not_gone : Reading ss incomplete → GoneOrLost ss → ⊥
  unfolding primary_gone
  incomplete-not_gone (kept, (pst, at)) (o, at', gone) =
      let q = PrimaryIs-unique o (some pst) at' at in
      let f : false ≡ true = rw (q, kept) at gone in cc
