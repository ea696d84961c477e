-- ===== src/Clustering/StatusSet.antt =====
-- `StatusSet` and the predicates that decide the state of a cluster (clustering/status.go).
-- A predicate that reads through a pointer returns an `Outcome`: a nil pod panics.
use moco.Prelude.{
  ℕ, suc, String, Bool, true, false, not, ◌&&◌, ◌||◌, Option, none, some, List, [], ◌∷◌, ◌++◌, leb,
  ◌=?◌, ◌==◌, if◌then◌else◌, is_some,
}
use moco.Prelude.{Outcome, ok, panic}
use moco.Prelude.Int.{pos, ltb_ℤ, add_int32}
use moco.Api.Cluster.{MySqlCluster, ConditionStatus, condition_true}
use moco.Api.Pod.{Pod, PodCondition}
use moco.Dbop.Types.{MySqlInstanceStatus, ReplicaHost}

pub data ClusterState : Type 0 where
  undecided incomplete healthy cloning restoring degraded failed lost offline : ClusterState

unfoldable pub state_name : ClusterState → String
state_name undecided = "Undecided"
state_name incomplete = "Incomplete"
state_name healthy = "Healthy"
state_name cloning = "Cloning"
state_name restoring = "Restoring"
state_name degraded = "Degraded"
state_name failed = "Failed"
state_name lost = "Lost"
state_name offline = "Offline"

-- The passwords that the clustering code hands on.
pub record MySqlPassword : Type 0 where
  pub admin : String
  pub donor : String
  pub replicator : String

-- A nil slot of a slice is `none`. The operators `DBOps` are named by their index.
pub record StatusSet : Type 0 where
  pub primary : ℕ
  pub cluster : MySqlCluster
  pub password : MySqlPassword
  pub pods : List (Option Pod)
  pub mysql_status : List (Option MySqlInstanceStatus)
  pub executed_gtid : String
  pub errants : List ℕ
  pub candidates : List ℕ
  pub need_switch : Bool
  pub prevent_pod_deletion : Bool
  pub candidate : ℕ
  pub state : ClusterState

abbrev is_true : ConditionStatus → Bool
is_true condition_true = true
is_true _ = false

any_ready : List PodCondition → Bool
any_ready [] = false
any_ready (c ∷ cs) = (c.typ == "Ready" && is_true c.status) || any_ready cs

unfoldable pub is_pod_ready : Pod → Bool
unfolding any_ready
is_pod_ready pod = any_ready pod.conditions

-- The count of the replicas whose server id is one of the cluster's.
unfoldable pub replicas_in_cluster : MySqlCluster → List ReplicaHost → ℕ
replicas_in_cluster c [] = 0
replicas_in_cluster c (r ∷ rs) =
    let n = replicas_in_cluster c rs in
    if leb c.spec.server_id_base r.server_id
      && ltb_ℤ (pos r.server_id) (add_int32 c.spec.server_id_base c.spec.replicas)
    then suc n
    else n

-- The loop of `lostData` from index `i`.
unfoldable pub any_data : ℕ → ℕ → List (Option MySqlInstanceStatus) → Bool
any_data primary i [] = false
any_data primary i (none ∷ rest) = any_data primary (suc i) rest
any_data primary i (some ist ∷ rest) =
    (not (i =? primary) && not (ist.global_variables.executed_gtid == ""))
    || any_data primary (suc i) rest

unfoldable pub lost_data : StatusSet → Bool
unfolding any_data
lost_data ss = ss.executed_gtid == "" && any_data ss.primary 0 ss.mysql_status

unfoldable pub all_pods_ready : List (Option Pod) → Outcome Bool
all_pods_ready [] = ok true
all_pods_ready (none ∷ rest) = panic
all_pods_ready (some pod ∷ rest) =
    let others = all_pods_ready rest in if is_pod_ready pod then others else ok false

-- The tests that `isHealthy` and `isDegraded` make of a live replica.
unfoldable pub follows : String → MySqlInstanceStatus → Bool
follows primary_hostname ist = elim ist.replica_status [
  | none ↦ false
  | some rs ↦ rs.source_host == primary_hostname
]

unfoldable pub is_sound_replica : String → MySqlInstanceStatus → Bool
unfolding follows
is_sound_replica primary_hostname ist =
    not ist.is_errant && ist.global_variables.super_read_only && follows primary_hostname ist

-- The loop of `isHealthy`: it stops at the first bad replica, and keeps the candidates found so far.
unfoldable pub healthy_replicas :
    ℕ → String → ℕ → List (Option MySqlInstanceStatus) → List ℕ → Bool × List ℕ
healthy_replicas primary host i [] candidates = (true, candidates)
healthy_replicas primary host i (o ∷ rest) candidates =
    let skip = healthy_replicas primary host (suc i) rest candidates in
    let next = healthy_replicas primary host (suc i) rest (candidates ++ (i ∷ [])) in
    if i =? primary then skip else elim o [
      | none ↦ (false, candidates)
      | some ist ↦ if is_sound_replica host ist then next else (false, candidates)
    ]

-- The primary is writable, or read-only where the cluster replicates from an external source.
unfoldable pub primary_mode_ok : MySqlCluster → MySqlInstanceStatus → Bool
primary_mode_ok c pst =
    if is_some c.spec.replication_source_secret_name
    then pst.global_variables.super_read_only
    else not pst.global_variables.read_only

unfoldable pub healthy_primary : StatusSet → Option MySqlInstanceStatus → Bool
healthy_primary ss none = false
healthy_primary ss (some pst) =
    (suc (replicas_in_cluster ss.cluster pst.replica_hosts) =? ss.cluster.spec.replicas)
    && primary_mode_ok ss.cluster pst
