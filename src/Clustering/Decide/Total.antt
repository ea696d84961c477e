-- ===== src/Clustering/Decide/Total.antt =====
-- How `DecideState` ends on what `GatherStatus` hands it (clustering/status.go).
use moco.Prelude.{
  ℕ, suc, ◌+◌, ◌≤◌, ◌<◌, ◌≡◌, refl, Bool, true, false, Option, none, some, List, [], ◌∷◌, arith,
  is_some, length, get_elem?_lt, All, All-get_elem?, ◌>>=◌, deref, Returns, Returns->>=, Returns-if,
  sort_ints,
}
use moco.Api.Pod.{Pod}
use moco.Dbop.Types.{MySqlInstanceStatus}
use moco.Clustering.StatusSet.{StatusSet, is_pod_ready, all_pods_ready}
use moco.Clustering.Decide.{
  primary_status, pod_at, after_replicas, healthy_instances, is_healthy, is_cloning,
  degraded_replicas, degraded_instances, is_degraded, is_failed, is_lost, decide_down,
  after_degraded, after_healthy, decide_up, after_cloning, after_offline, decide, choose_target,
  decide_state,
}
use moco.Clustering.Decide.Cases.{
  as_healthy, as_degraded, as_down, Decided, as_offline, as_cloning, as_restoring, as_up,
  decide-cases,
}

abbrev pub IsFilled : Option Pod → Type 0
IsFilled o = is_some o ≡ true

-- What `GatherStatus` ensures: slices of `spec.replicas` slots, with a pod in each unless the
-- cluster is offline, and no candidate yet.
pub record IsGathered (ss : StatusSet) : Type 0 where
  pub pods_length : length ss.pods ≡ ss.cluster.spec.replicas
  pub status_length : length ss.mysql_status ≡ ss.cluster.spec.replicas
  pub primary_in : ss.primary < ss.cluster.spec.replicas
  pub pods-IsFilled : ss.cluster.spec.offline ≡ false → All IsFilled ss.pods
  pub no_candidate : ss.candidates ≡ []

deref-Returns : (o : Option Pod) → is_some o ≡ true → Returns (deref o)
deref-Returns none h = cc
deref-Returns (some p) h = (p, refl)

all_pods_ready-Returns : (ps : List (Option Pod)) → All IsFilled ps → Returns (all_pods_ready ps)
unfolding all_pods_ready
all_pods_ready-Returns [] h = (true, refl)
all_pods_ready-Returns (none ∷ ps) h = cc (h.0)
all_pods_ready-Returns (some p ∷ ps) h =
    Returns-if (is_pod_ready p) _ _ (all_pods_ready-Returns ps h.1) (false, refl)

module _ (ss : StatusSet) where
  primary_status-Returns : ss.primary < length ss.mysql_status → Returns (primary_status ss)
  unfolding primary_status
  primary_status-Returns h =
      let (st, e) = get_elem?_lt ss.mysql_status ss.primary h in rw e (st, refl)

  pod_at-Returns : (i : ℕ) → All IsFilled ss.pods → i < length ss.pods → Returns (pod_at ss i)
  unfolding pod_at
  pod_at-Returns i filled h =
      let (p, e) = get_elem?_lt ss.pods i h in
      rw e (deref-Returns p (All-get_elem? IsFilled ss.pods i filled e))

  degraded_replicas-Returns :
      (i : ℕ) (rest : List (Option MySqlInstanceStatus)) (n : ℕ) (cs : List ℕ)
      → All IsFilled ss.pods
      → i + length rest ≤ length ss.pods
      → Returns (degraded_replicas ss i rest n cs)
  unfolding degraded_replicas
  degraded_replicas-Returns i [] n cs filled h = ((n, cs), refl)
  degraded_replicas-Returns i (none ∷ rest) n cs filled h =
      degraded_replicas-Returns (suc i) rest n cs filled (omega arith)
  degraded_replicas-Returns i (some ist ∷ rest) n cs filled h =
      let skip = degraded_replicas-Returns (suc i) rest n cs filled (omega arith) in
      Returns-if _ _ _ skip (
        Returns->>= _ _ (pod_at-Returns i filled (omega arith)) λ pod.
          Returns-if _ _ _ (degraded_replicas-Returns (suc i) rest _ _ filled (omega arith)) skip)

-- The facts on the slices that each predicate needs, whatever the candidates are.
module _ (ss : StatusSet) (filled : All IsFilled ss.pods)
    (same_length : length ss.mysql_status ≡ length ss.pods)
    (primary_in : ss.primary < length ss.pods) where
  status_read : Returns (primary_status ss)
  status_read = primary_status-Returns ss (omega arith)

  after_replicas-Returns : (found : Bool × List ℕ) → Returns (after_replicas ss found)
  unfolding after_replicas
  after_replicas-Returns (true, found) = Returns->>= _ _ status_read λ pst. (_, refl)
  after_replicas-Returns (false, found) = (_, refl)

  is_healthy-Returns : Returns (is_healthy ss)
  unfolding is_healthy healthy_instances
  is_healthy-Returns =
      Returns->>= _ _ (all_pods_ready-Returns ss.pods filled)
        λ ready. Returns-if ready _ _ (after_replicas-Returns _) (_, refl)

  is_degraded-Returns : Returns (is_degraded ss)
  unfolding is_degraded degraded_instances
  is_degraded-Returns = Returns->>= _ _ (pod_at-Returns ss ss.primary filled primary_in) λ ppod.
      Returns-if _ _ _
        (Returns->>= _ _ status_read λ pst.
          Returns-if _ _ _
            (Returns->>= _ _
              (degraded_replicas-Returns ss 0 ss.mysql_status 0 _ filled (omega arith))
              (λ found. (_, refl)))
            (_, refl))
        (_, refl)

  decide_down-Returns : Returns (decide_down ss)
  unfolding decide_down is_failed is_lost
  decide_down-Returns = Returns->>= _ _ (Returns->>= _ _ status_read λ pst. (_, refl)) λ f.
      Returns-if f _ _ (_, refl)
        (Returns->>= _ _ (Returns->>= _ _ status_read λ pst. (_, refl)) (λ l. (_, refl)))

after_degraded-Returns :
    (ss : StatusSet) (d : Bool × List ℕ)
    → All IsFilled ss.pods
    → length ss.mysql_status ≡ length ss.pods
    → ss.primary < length ss.pods
    → Returns (after_degraded ss d)
unfolding after_degraded
after_degraded-Returns ss (true, more) filled same p = (_, refl)
after_degraded-Returns ss (false, more) filled same p =
    Returns->>= _ _ (decide_down-Returns (record ss { candidates = more }) filled same p)
      λ st. (_, refl)

after_healthy-Returns :
    (ss : StatusSet) (h : Bool × List ℕ)
    → All IsFilled ss.pods
    → length ss.mysql_status ≡ length ss.pods
    → ss.primary < length ss.pods
    → Returns (after_healthy ss h)
unfolding after_healthy
after_healthy-Returns ss (true, found) filled same p = (_, refl)
after_healthy-Returns ss (false, found) filled same p =
    Returns->>= _ _ (is_degraded-Returns (record ss { candidates = found }) filled same p)
      λ d. after_degraded-Returns ss d filled same p

is_cloning-Returns :
    (ss : StatusSet) → ss.primary < length ss.mysql_status → Returns (is_cloning ss)
unfolding is_cloning
is_cloning-Returns ss p =
    Returns-if _ _ _ (Returns->>= _ _ (primary_status-Returns ss p) λ pst. (_, refl)) (_, refl)

decide_online-Returns :
    (ss : StatusSet) (c : Bool)
    → All IsFilled ss.pods
    → length ss.mysql_status ≡ length ss.pods
    → ss.primary < length ss.pods
    → Returns (after_cloning ss c)
unfolding after_cloning decide_up
decide_online-Returns ss true filled same p = (_, refl)
decide_online-Returns ss false filled same p =
    Returns-if _ _ _ (_, refl)
      (Returns->>= _ _ (is_healthy-Returns ss filled same p)
        λ h. after_healthy-Returns ss h filled same p)

choose_target-Returns :
    (ss : StatusSet) (cs : List ℕ)
    → All IsFilled ss.pods
    → ss.primary < length ss.pods
    → Returns (choose_target ss cs)
unfolding choose_target
choose_target-Returns ss [] filled p = (_, refl)
choose_target-Returns ss (c ∷ cs) filled p =
    Returns->>= _ _ (pod_at-Returns ss ss.primary filled p) λ pod. (_, refl)

decide-Returns :
    (ss : StatusSet) (off : Bool)
    → ss.cluster.spec.offline ≡ off
    → IsGathered ss
    → Returns (after_offline ss off)
unfolding after_offline
decide-Returns ss true e g = (_, refl)
decide-Returns ss false e g =
    let in_pods : ss.primary < length ss.pods = omega (arith, g) in
    let same : length ss.mysql_status ≡ length ss.pods = omega (arith, g) in
    Returns->>= _ _ (is_cloning-Returns ss (omega arith))
      λ c. decide_online-Returns ss c (g.pods-IsFilled e) same in_pods

target-Returns :
    (ss s : StatusSet)
    → IsGathered ss
    → Decided ss s
    → Returns (choose_target s (sort_ints s.candidates))
unfolding choose_target sort_ints
target-Returns ss s g (as_offline off e) = rw (e, g.no_candidate) (_, refl)
target-Returns ss s g (as_cloning on c e) =
    rw e (choose_target-Returns _ _ (g.pods-IsFilled on) (omega (arith, g)))
target-Returns ss s g (as_restoring on c r e) =
    rw e (choose_target-Returns _ _ (g.pods-IsFilled on) (omega (arith, g)))
target-Returns ss s g (as_up on c r (as_healthy cs h e)) =
    rw e (choose_target-Returns _ _ (g.pods-IsFilled on) (omega (arith, g)))
target-Returns ss s g (as_up on c r (as_degraded cs more h d e)) =
    rw e (choose_target-Returns _ _ (g.pods-IsFilled on) (omega (arith, g)))
target-Returns ss s g (as_up on c r (as_down cs more st h d w e)) =
    rw e (choose_target-Returns _ _ (g.pods-IsFilled on) (omega (arith, g)))

-- On any status set as `GatherStatus` builds it, with a pod in each slot unless the cluster is
-- offline, `DecideState` returns: it reads no nil pointer and no index out of range.
pub decide_state-Returns : (ss : StatusSet) → IsGathered ss → Returns (decide_state ss)
unfolding decide_state decide
decide_state-Returns ss g =
    let (s, e) = decide-Returns ss ss.cluster.spec.offline refl g in
    rw (e, ◌>>=◌) (target-Returns ss s g (decide-cases ss s e))
