-- ===== src/Clustering/Decide/Meaning.antt =====
-- What each state says of the cluster (docs/clustering.md, "Possible states"), in terms of the fields
-- that are read and without the tests of `DecideState` (clustering/status.go).
pub mod Tested
pub mod Counted
pub mod Read
use moco.Prelude.{
  ℕ, suc, ◌/◌, ◌≤◌, ◌<◌, ◌≡◌, ◌≢◌, ◌⊎◌, String, Bool, true, false, Option, none, some, List, [],
  ◌∷◌, is_some, get_elem?, All, AllFrom,
}
use moco.Prelude.Int.{pos, ltb_ℤ, add_int32}
use moco.Api.Cluster.{MySqlCluster, host_of}
use moco.Api.Pod.{Pod}
use moco.Dbop.Types.{MySqlInstanceStatus, ReplicaHost, ReplicaStatus}
use moco.Clustering.StatusSet.{
  ClusterState, undecided, incomplete, healthy, cloning, restoring, degraded, failed, lost, offline,
  StatusSet, is_pod_ready,
}

-- The number of the elements of which `P` holds, with their indices from `i` on, is `n`.
abbrev pub Counts : {A : Type 0} → (ℕ → A → Type 0) → ℕ → List A → ℕ → Type 0
Counts P i [] n = n ≡ 0
Counts P i (x ∷ rest) n =
    (P i x × ((m : ℕ) × (n ≡ suc m) × Counts P (suc i) rest m))
    ⊎ ((P i x → ⊥) × Counts P (suc i) rest n)

-- A pod of the slot is there and ready.
abbrev pub HoldsReady : Option Pod → Type 0
HoldsReady o = (pod : Pod) × (o ≡ some pod) × (is_pod_ready pod ≡ true)

-- A replica without errant transactions, read-only, that follows the host.
abbrev pub IsSound : String → MySqlInstanceStatus → Type 0
IsSound host ist =
    (ist.is_errant ≡ false)
    × (ist.global_variables.super_read_only ≡ true)
    × ((rs : ReplicaStatus) × (ist.replica_status ≡ some rs) × (rs.source_host ≡ host))

abbrev pub HasData : MySqlInstanceStatus → Type 0
HasData ist = ist.global_variables.executed_gtid ≢ ""

-- The instance is one of the cluster by its server id; the sum is one of 32 bits.
abbrev pub IsMember : MySqlCluster → ℕ → ReplicaHost → Type 0
IsMember c i r =
    (c.spec.server_id_base ≤ r.server_id)
    × (ltb_ℤ (pos r.server_id) (add_int32 c.spec.server_id_base c.spec.replicas) ≡ true)

-- Writable, or read-only where the cluster replicates from an external source.
abbrev pub HasRightMode : MySqlCluster → MySqlInstanceStatus → Type 0
HasRightMode c pst =
    (c.spec.replication_source_secret_name ≡ none → pst.global_variables.read_only ≡ false)
    × ((name : String)
        → c.spec.replication_source_secret_name ≡ some name
        → pst.global_variables.super_read_only ≡ true)

-- An instance whose clone has not been completed, as far as is known.
abbrev pub IsUncloned : Option MySqlInstanceStatus → Type 0
IsUncloned o =
    (o ≡ none)
    ⊎ ((pst : MySqlInstanceStatus) × (o ≡ some pst)
        × (((state : String) × (pst.clone_status ≡ some state) × (state ≢ "Completed"))
            ⊎ ((pst.clone_status ≡ none) × (pst.global_variables.executed_gtid ≡ ""))))

module _ (ss : StatusSet) where
  abbrev pub HasPrimary : Option MySqlInstanceStatus → Type 0
  HasPrimary o = get_elem? ss.mysql_status ss.primary ≡ some o

  abbrev pub replicas : ℕ
  replicas = ss.cluster.spec.replicas

  abbrev pub IsSoundAt : ℕ → Option MySqlInstanceStatus → Type 0
  IsSoundAt i o =
      (ist : MySqlInstanceStatus) × (o ≡ some ist) × IsSound (host_of ss.cluster ss.primary) ist

  abbrev pub IsReadyAt : ℕ → Type 0
  IsReadyAt i = (o : Option Pod) × (get_elem? ss.pods i ≡ some o) × HoldsReady o

  -- A replica that serves: its pod is ready, and it is sound.
  abbrev pub Serves : ℕ → Option MySqlInstanceStatus → Type 0
  Serves i o = (i ≢ ss.primary) × IsReadyAt i × IsSoundAt i o

  -- A replica that could become the primary.
  abbrev pub IsPromotable : ℕ → Option MySqlInstanceStatus → Type 0
  IsPromotable i o =
      (i ≢ ss.primary)
      × ((ist : MySqlInstanceStatus) × (o ≡ some ist)
          × (is_some ist.replica_status ≡ true)
          × (ist.is_errant ≡ false)
          × HasData ist)

  -- The primary has no transactions, but a replica has.
  abbrev pub HasLostData : Type 0
  HasLostData =
      (ss.executed_gtid ≡ "")
      × ((i : ℕ) × (ist : MySqlInstanceStatus) × (get_elem? ss.mysql_status i ≡ some (some ist))
          × (i ≢ ss.primary)
          × HasData ist)

  -- The primary does not answer, or has lost its data.
  abbrev pub IsGone : Type 0
  IsGone = (o : Option MySqlInstanceStatus) × HasPrimary o × ((o ≡ none) ⊎ HasLostData)

  abbrev pub Meaning : ClusterState → Type 0
  Meaning undecided = ⊥
  Meaning offline = ss.cluster.spec.offline ≡ true
  Meaning cloning =
      (is_some ss.cluster.spec.replication_source_secret_name ≡ true)
      × (ss.cluster.status.cloned ≡ false)
      × ((o : Option MySqlInstanceStatus) × HasPrimary o × IsUncloned o)
  Meaning restoring =
      (is_some ss.cluster.spec.restore ≡ true) × (is_some ss.cluster.status.restored_time ≡ false)
  Meaning healthy =
      All HoldsReady ss.pods
      × AllFrom (λ i o. i ≢ ss.primary → IsSoundAt i o) 0 ss.mysql_status
      × ((pst : MySqlInstanceStatus) × (n : ℕ) × HasPrimary (some pst)
          × Counts (IsMember ss.cluster) 0 pst.replica_hosts n
          × (suc n ≡ replicas)
          × HasRightMode ss.cluster pst)
  Meaning degraded =
      IsReadyAt ss.primary
      × (HasLostData → ⊥)
      × ((pst : MySqlInstanceStatus) × (n : ℕ) × HasPrimary (some pst)
          × HasRightMode ss.cluster pst
          × Counts (IsMember ss.cluster) 0 pst.replica_hosts n
          × (replicas / 2 ≤ n))
      × ((n : ℕ) × Counts Serves 0 ss.mysql_status n × (replicas / 2 ≤ n) × (suc n ≢ replicas))
  Meaning failed = IsGone × ((n : ℕ) × Counts IsPromotable 0 ss.mysql_status n × (replicas / 2 < n))
  Meaning lost = IsGone × ((n : ℕ) × Counts IsPromotable 0 ss.mysql_status n × (n ≤ replicas / 2))
  Meaning incomplete = (HasLostData → ⊥) × ((pst : MySqlInstanceStatus) × HasPrimary (some pst))

-- The states that are tried before a state.
abbrev pub before : ClusterState → List ClusterState
before undecided = []
before offline = []
before cloning = offline ∷ []
before restoring = offline ∷ cloning ∷ []
before healthy = offline ∷ cloning ∷ restoring ∷ []
before degraded = offline ∷ cloning ∷ restoring ∷ healthy ∷ []
before failed = offline ∷ cloning ∷ restoring ∷ healthy ∷ degraded ∷ []
before lost = offline ∷ cloning ∷ restoring ∷ healthy ∷ degraded ∷ failed ∷ []
before incomplete = offline ∷ cloning ∷ restoring ∷ healthy ∷ degraded ∷ failed ∷ lost ∷ []

-- The state describes the cluster, and no state that is tried before it does.
abbrev pub Describes : StatusSet → ClusterState → Type 0
Describes ss st = Meaning ss st × All (λ earlier. Meaning ss earlier → ⊥) (before st)
