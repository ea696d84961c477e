-- ===== src/Clustering/Decide.antt =====
-- `DecideState`: the state of a cluster, and the target of a switchover (clustering/status.go).
-- A predicate that appends to `ss.Candidates` returns the new candidates too.
pub mod Total
pub mod Cases
pub mod Target
pub mod Reading
pub mod Meaning
pub mod State
pub mod Quorum
use moco.Prelude.{
  ℕ, suc, ◌/◌, Bool, true, false, not, ◌&&◌, ◌||◌, Option, none, some, List, [], ◌∷◌, ◌++◌, ltb,
  leb, ◌=?◌, ◌==◌, if◌then◌else◌, is_some, sort_ints, Outcome, ok, deref, ◌>>=◌, get_elem?,
}
use moco.Prelude.Dict.{value_of}
use moco.Api.Cluster.{host_of}
use moco.Api.Pod.{Pod}
use moco.Dbop.Types.{MySqlInstanceStatus}
use moco.Clustering.StatusSet.{
  ClusterState, incomplete, healthy, cloning, restoring, degraded, failed, lost, offline, StatusSet,
  is_pod_ready, replicas_in_cluster, lost_data, all_pods_ready, is_sound_replica, healthy_replicas,
  primary_mode_ok, healthy_primary,
}

-- `ss.MySQLStatus[ss.Primary]`.
unfoldable pub primary_status : StatusSet → Outcome (Option MySqlInstanceStatus)
primary_status ss = deref (get_elem? ss.mysql_status ss.primary)

-- `ss.Pods[i]`, read through.
unfoldable pub pod_at : StatusSet → ℕ → Outcome Pod
pod_at ss i = do p ← deref (get_elem? ss.pods i); deref p

-- The end of `isHealthy`, behind its loop over the replicas.
unfoldable pub after_replicas : StatusSet → Bool × List ℕ → Outcome (Bool × List ℕ)
unfolding primary_status
after_replicas ss (true, found) = do pst ← primary_status ss; ok (healthy_primary ss pst, found)
after_replicas ss (false, found) = ok (false, found)

-- `isHealthy` behind its loop over the pods.
unfoldable pub healthy_instances : StatusSet → Outcome (Bool × List ℕ)
unfolding after_replicas
healthy_instances ss =
    after_replicas ss
      (healthy_replicas ss.primary (host_of ss.cluster ss.primary) 0 ss.mysql_status ss.candidates)

unfoldable pub is_healthy : StatusSet → Outcome (Bool × List ℕ)
is_healthy ss = do
  ready ← all_pods_ready ss.pods
  if ready then healthy_instances ss else ok (false, ss.candidates)

-- The last three tests of `isCloning`.
unfoldable pub clone_pending : Option MySqlInstanceStatus → Bool
clone_pending none = true
clone_pending (some pst) = elim pst.clone_status [
  | some state ↦ not (state == "Completed")
  | none ↦ pst.global_variables.executed_gtid == ""
]

unfoldable pub is_cloning : StatusSet → Outcome Bool
unfolding primary_status clone_pending
is_cloning ss =
    if is_some ss.cluster.spec.replication_source_secret_name && not ss.cluster.status.cloned
    then (do pst ← primary_status ss; ok (clone_pending pst))
    else ok false

unfoldable pub is_restoring : StatusSet → Bool
is_restoring ss = is_some ss.cluster.spec.restore && not (is_some ss.cluster.status.restored_time)

-- The loop of `isDegraded`: the count of good replicas, and the candidates.
unfoldable pub degraded_replicas :
    StatusSet → ℕ → List (Option MySqlInstanceStatus) → ℕ → List ℕ → Outcome (ℕ × List ℕ)
degraded_replicas ss i [] n candidates = ok (n, candidates)
degraded_replicas ss i (none ∷ rest) n candidates = degraded_replicas ss (suc i) rest n candidates
degraded_replicas ss i (some ist ∷ rest) n candidates =
    let skip = degraded_replicas ss (suc i) rest n candidates in
    let next = degraded_replicas ss (suc i) rest (suc n) (candidates ++ (i ∷ [])) in
    if i =? ss.primary then skip else (do
      pod ← pod_at ss i
      if is_pod_ready pod && is_sound_replica (host_of ss.cluster ss.primary) ist
          then next
          else skip)

-- The tests of `isDegraded` on the primary's status.
unfoldable pub degraded_primary : StatusSet → Option MySqlInstanceStatus → Bool
degraded_primary ss none = false
degraded_primary ss (some pst) =
    primary_mode_ok ss.cluster pst
    && leb (ss.cluster.spec.replicas / 2) (replicas_in_cluster ss.cluster pst.replica_hosts)

-- The test that `isDegraded` returns; `Replicas - 1` is at least 0.
unfoldable pub enough_replicas : StatusSet → ℕ → Bool
enough_replicas ss n =
    leb (ss.cluster.spec.replicas / 2) n && not (suc n =? ss.cluster.spec.replicas)

unfoldable pub degraded_instances : StatusSet → Outcome (Bool × List ℕ)
unfolding primary_status
degraded_instances ss = do
  pst ← primary_status ss
  if degraded_primary ss pst
      then (do
        (n, candidates) ← degraded_replicas ss 0 ss.mysql_status 0 ss.candidates
        ok (enough_replicas ss n, candidates))
      else ok (false, ss.candidates)

unfoldable pub is_degraded : StatusSet → Outcome (Bool × List ℕ)
is_degraded ss = do
  ppod ← pod_at ss ss.primary
  if is_pod_ready ppod && not (lost_data ss)
      then degraded_instances ss
      else ok (false, ss.candidates)

-- A replica that could be promoted: the tests in the loops of `isFailed` and `isLost`.
unfoldable pub holds_data : MySqlInstanceStatus → Bool
holds_data ist =
    is_some ist.replica_status
    && not ist.is_errant
    && not (ist.global_variables.executed_gtid == "")

-- The loop that `isFailed` and `isLost` share.
unfoldable pub count_ok_replicas : ℕ → ℕ → List (Option MySqlInstanceStatus) → ℕ
unfolding holds_data
count_ok_replicas primary i [] = 0
count_ok_replicas primary i (none ∷ rest) = count_ok_replicas primary (suc i) rest
count_ok_replicas primary i (some ist ∷ rest) =
    let n = count_ok_replicas primary (suc i) rest in
    if not (i =? primary) && holds_data ist then suc n else n

-- The primary does not answer, or lost its data.
unfoldable pub primary_gone : StatusSet → Option MySqlInstanceStatus → Bool
primary_gone ss pst = not (is_some pst) || lost_data ss

unfoldable pub is_failed : StatusSet → Outcome Bool
unfolding primary_status
is_failed ss = do
  pst ← primary_status ss
  ok (
      primary_gone ss pst
      && ltb (ss.cluster.spec.replicas / 2) (count_ok_replicas ss.primary 0 ss.mysql_status))

unfoldable pub is_lost : StatusSet → Outcome Bool
unfolding primary_status
is_lost ss = do
  pst ← primary_status ss
  ok (
      primary_gone ss pst
      && leb (count_ok_replicas ss.primary 0 ss.mysql_status) (ss.cluster.spec.replicas / 2))

unfoldable pub need_switch : Pod → Bool
need_switch pod =
    is_some pod.deletion_timestamp || value_of "moco.cybozu.com/demote" pod.annotations == "true"

-- The cases of the `switch` after `isDegraded`.
unfoldable pub decide_down : StatusSet → Outcome ClusterState
decide_down ss = do
  f ← is_failed ss
  if f then ok failed else (do l ← is_lost ss; ok (if l then lost else incomplete))

unfoldable pub after_degraded : StatusSet → Bool × List ℕ → Outcome StatusSet
after_degraded ss (true, more) = ok (record ss { candidates = more; state = degraded })
after_degraded ss (false, more) = do
  st ← decide_down (record ss { candidates = more })
  ok (record ss { candidates = more; state = st })

unfoldable pub after_healthy : StatusSet → Bool × List ℕ → Outcome StatusSet
after_healthy ss (true, found) = ok (record ss { candidates = found; state = healthy })
after_healthy ss (false, found) = do
  d ← is_degraded (record ss { candidates = found })
  after_degraded ss d

unfoldable pub decide_up : StatusSet → Outcome StatusSet
decide_up ss = do h ← is_healthy ss; after_healthy ss h

unfoldable pub after_cloning : StatusSet → Bool → Outcome StatusSet
after_cloning ss true = ok (record ss { state = cloning })
after_cloning ss false =
    if is_restoring ss then ok (record ss { state = restoring }) else decide_up ss

unfoldable pub after_offline : StatusSet → Bool → Outcome StatusSet
after_offline ss true = ok (record ss { state = offline })
after_offline ss false = do c ← is_cloning ss; after_cloning ss c

-- The `switch` of `DecideState`.
unfoldable pub decide : StatusSet → Outcome StatusSet
unfolding after_offline
decide ss = after_offline ss ss.cluster.spec.offline

-- The lowest ordinal is the target of a switchover.
unfoldable pub choose_target : StatusSet → List ℕ → Outcome StatusSet
choose_target ss [] = ok ss
choose_target ss (c ∷ cs) = do
  ppod ← pod_at ss ss.primary
  ok (record ss { need_switch = need_switch ppod; candidates = c ∷ cs; candidate = c })

unfoldable pub decide_state : StatusSet → Outcome StatusSet
decide_state ss = do s ← decide ss; choose_target s (sort_ints s.candidates)
