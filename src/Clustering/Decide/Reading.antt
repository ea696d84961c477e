-- ===== src/Clustering/Decide/Reading.antt =====
-- What each state says of the cluster in terms of the tests that `DecideState` makes, but
-- independently of their order (clustering/status.go).
pub mod Down
pub mod Healthy
pub mod Degraded
pub mod Complete
use moco.Prelude.{
  ℕ, zero, suc, ◌+◌, ◌/◌, ◌≤◌, ◌<◌, ◌≡◌, ◌≢◌, refl, sym, ap, Bool, true, false, not, ◌&&◌, Option,
  none, some, List, [], ◌∷◌, ◌++◌, arith, get_elem?, All, AllFrom, Outcome, ok, ◌>>=◌, ◌∙◌,
  >>=-eq-ok, deref, deref-eq-ok, ok-injective, Bool-cases, &&_true, not-true, inl, inr, leb→le,
  ltb→lt, ◌=?◌, =?_iff, if◌then◌else◌, is_some, sort_ints, Ensures, Ensures-pure, Ensures-bind,
  Ensures-if, ltb, leb,
}
use moco.Api.Cluster.{host_of}
use moco.Api.Pod.{Pod}
use moco.Dbop.Types.{MySqlInstanceStatus}
use moco.Clustering.StatusSet.{
  ClusterState, undecided, incomplete, healthy, cloning, restoring, degraded, failed, lost, offline,
  StatusSet, is_pod_ready, replicas_in_cluster, lost_data, all_pods_ready, is_sound_replica,
  healthy_replicas, primary_mode_ok, healthy_primary,
}
use moco.Clustering.Decide.{
  primary_status, pod_at, after_replicas, healthy_instances, is_healthy, clone_pending, is_cloning,
  is_restoring, degraded_replicas, degraded_primary, enough_replicas, degraded_instances,
  is_degraded, count_ok_replicas, primary_gone, is_failed, is_lost, decide_down, decide,
  choose_target, decide_state,
}
use moco.Clustering.Decide.Cases.{
  as_healthy, as_degraded, as_down, Decided, as_offline, as_cloning, as_restoring, as_up,
  decide-cases,
}
use moco.Clustering.Decide.Target.{all_pods_ready-cons, pod_at-get_elem?}

abbrev pub IsReadySlot : Option Pod → Type 0
IsReadySlot o = (pod : Pod) × (o ≡ some pod) × (is_pod_ready pod ≡ true)

abbrev pub IsSoundSlot : StatusSet → ℕ → Option MySqlInstanceStatus → Type 0
IsSoundSlot ss i o =
    i ≢ ss.primary
    → (ist : MySqlInstanceStatus) × (o ≡ some ist)
      × (is_sound_replica (host_of ss.cluster ss.primary) ist ≡ true)

-- The status of the primary.
abbrev pub PrimaryIs : StatusSet → Option MySqlInstanceStatus → Type 0
PrimaryIs ss o = get_elem? ss.mysql_status ss.primary ≡ some o

-- The slot at an index holds a ready pod.
abbrev pub ready_at : Option (Option Pod) → Bool
ready_at (some (some pod)) = is_pod_ready pod
ready_at (some none) = false
ready_at none = false

-- The replicas that `isDegraded` counts, without its early results.
unfoldable pub count_sound : StatusSet → ℕ → List (Option MySqlInstanceStatus) → ℕ
count_sound ss i [] = 0
count_sound ss i (none ∷ rest) = count_sound ss (suc i) rest
count_sound ss i (some ist ∷ rest) =
    let n = count_sound ss (suc i) rest in
    if not (i =? ss.primary)
      && (ready_at (get_elem? ss.pods i) && is_sound_replica (host_of ss.cluster ss.primary) ist)
    then suc n
    else n

abbrev pub GoneOrLost : StatusSet → Type 0
GoneOrLost ss = (o : Option MySqlInstanceStatus) × PrimaryIs ss o × (primary_gone ss o ≡ true)

abbrev pub IsOnline : StatusSet → Type 0
IsOnline ss =
    (ss.cluster.spec.offline ≡ false) × (is_cloning ss ≡ ok false) × (is_restoring ss ≡ false)

abbrev pub Reading : StatusSet → ClusterState → Type 0
Reading ss undecided = ⊥
Reading ss offline = ss.cluster.spec.offline ≡ true
Reading ss cloning =
    (is_some ss.cluster.spec.replication_source_secret_name ≡ true)
    × (ss.cluster.status.cloned ≡ false)
    × ((o : Option MySqlInstanceStatus) × PrimaryIs ss o × (clone_pending o ≡ true))
Reading ss restoring =
    (is_some ss.cluster.spec.restore ≡ true) × (is_some ss.cluster.status.restored_time ≡ false)
Reading ss healthy =
    All IsReadySlot ss.pods
    × AllFrom (IsSoundSlot ss) 0 ss.mysql_status
    × ((pst : MySqlInstanceStatus) × PrimaryIs ss (some pst)
        × (suc (replicas_in_cluster ss.cluster pst.replica_hosts) ≡ ss.cluster.spec.replicas)
        × (primary_mode_ok ss.cluster pst ≡ true))
Reading ss degraded =
    (ready_at (get_elem? ss.pods ss.primary) ≡ true)
    × (lost_data ss ≡ false)
    × ((pst : MySqlInstanceStatus) × PrimaryIs ss (some pst)
        × (primary_mode_ok ss.cluster pst ≡ true)
        × (ss.cluster.spec.replicas / 2 ≤ replicas_in_cluster ss.cluster pst.replica_hosts))
    × (ss.cluster.spec.replicas / 2 ≤ count_sound ss 0 ss.mysql_status)
    × (suc (count_sound ss 0 ss.mysql_status) ≢ ss.cluster.spec.replicas)
Reading ss failed =
    GoneOrLost ss × (ss.cluster.spec.replicas / 2 < count_ok_replicas ss.primary 0 ss.mysql_status)
Reading ss lost =
    GoneOrLost ss × (count_ok_replicas ss.primary 0 ss.mysql_status ≤ ss.cluster.spec.replicas / 2)
Reading ss incomplete =
    (lost_data ss ≡ false) × ((pst : MySqlInstanceStatus) × PrimaryIs ss (some pst))

module _ (ss : StatusSet) where
  pub primary_status-PrimaryIs :
      (o : Option MySqlInstanceStatus) → primary_status ss ≡ ok o → PrimaryIs ss o
  unfolding primary_status
  primary_status-PrimaryIs o e = deref-eq-ok _ e
