-- ===== src/Clustering/Gather.antt =====
-- `GatherStatus` (clustering/status.go). The goroutines that read the instances write disjoint
-- slots; they are run here one after the other.
pub mod Text
pub mod Instances
pub mod Pods
pub mod Total
use moco.Prelude.{
  ℕ, zero, suc, String, Bool, true, false, not, ◌&&◌, ◌||◌, ◌==◌, ◌=?◌, ltb, leb, Option, none,
  some, List, [], ◌∷◌, ◌++◌, deref, Outcome, ok, err, panic, Error, nop, message, if◌then◌else◌,
  is_some, get_elem?, set, replicate, length,
}
use moco.Prelude
use moco.Prelude.Int.{ℤ, pos, negsuc}
use moco.Api.Cluster.{MySqlCluster}
use moco.Api.Names.{user_secret_name}
use moco.Api.Pod.{Pod}
use moco.Effects.{
  M, Env, Trace, ◌>>=◌, ◌>>◌, pure, fail, lift, command, cluster, secret, pod_list, status,
  gtid_minus, open_database,
}
use moco.Dbop.Types.{MySqlInstanceStatus}
use moco.Clustering.StatusSet.{StatusSet, MySqlPassword, undecided}
use moco.Clustering.Decide.{decide_state}
use moco.Clustering.Gather.Text.{last_field, contain_errant_transactions}

abbrev pub Statuses : Type 0
Statuses = List (Option MySqlInstanceStatus)

-- `ss.Pods[index] = &pods.Items[i]`, which panics where the slice is shorter.
unfoldable pub place : ℕ → Pod → List (Option Pod) → Outcome (List (Option Pod))
place index pod slots = if ltb index (length slots) then ok (set slots index (some pod)) else panic

-- The ordinal of a pod, checked against the number of pods.
unfoldable pub ordinal_in : ℕ → Option ℤ → Outcome ℕ
ordinal_in count none = err (message "bad pod name")
ordinal_in count (some (negsuc n)) = err (message "index out of range")
ordinal_in count (some (pos n)) = if ltb n count then ok n else err (message "index out of range")

-- `ist.IsErrant = true` in the slot at an index that is in range.
unfoldable pub mark_errant : ℕ → Statuses → Outcome Statuses
mark_errant index statuses = Prelude.◌>>=◌ (deref (get_elem? statuses index)) λ o. elim o [
  | none ↦ ok statuses
  | some ist ↦ ok (set statuses index (some (record ist { is_errant = true })))
]

-- The errant replicas that the cluster's status remembers.
unfoldable pub restore_errants : List ℕ → Statuses → List ℕ → Outcome (Statuses × List ℕ)
restore_errants [] statuses errants = ok (statuses, errants)
restore_errants (index ∷ rest) statuses errants =
    Prelude.◌>>=◌ (mark_errant index statuses)
      λ marked. restore_errants rest marked (errants ++ (index ∷ []))

-- A live replica that is behind by more than the limit.
unfoldable pub is_delayed : ℕ → MySqlInstanceStatus → Bool
is_delayed limit ist = elim ist.replica_status [
  | none ↦ false
  | some rs ↦ elim rs.seconds_behind_source [ none ↦ false | some n ↦ ltb limit n ]
]

unfoldable pub any_delayed : ℕ → ℕ → ℕ → Statuses → Bool
any_delayed limit primary i [] = false
any_delayed limit primary i (none ∷ rest) = any_delayed limit primary (suc i) rest
any_delayed limit primary i (some ist ∷ rest) =
    (not (i =? primary) && is_delayed limit ist) || any_delayed limit primary (suc i) rest

unfoldable pub prevents_deletion : MySqlCluster → ℕ → Statuses → Bool
prevents_deletion c primary statuses =
    ltb 0 c.spec.max_delay_seconds_for_pod_deletion
    && any_delayed c.spec.max_delay_seconds_for_pod_deletion primary 0 statuses

-- A replica in which sessions wait for an acknowledgement hangs: it counts as down.
unfoldable pub drop_hung : ℕ → ℕ → Statuses → Statuses
drop_hung primary i [] = []
drop_hung primary i (none ∷ rest) = none ∷ drop_hung primary (suc i) rest
drop_hung primary i (some ist ∷ rest) =
    (if not (i =? primary) && ltb 0 ist.semi_sync_master_wait_sessions then none else some ist)
    ∷ drop_hung primary (suc i) rest

module _ (env : Env) where
  unfoldable pub fill_pods : ℕ → List Pod → List (Option Pod) → Outcome (List (Option Pod))
  fill_pods count [] slots = ok slots
  fill_pods count (pod ∷ rest) slots =
      Prelude.◌>>=◌ (ordinal_in count (env.atoi (last_field pod.name)))
        λ index. Prelude.◌>>=◌ (place index pod slots) λ filled. fill_pods count rest filled

  -- `p.dbf.New` for each instance.
  unfoldable pub open_databases : ℕ → ℕ → M (Unit {0})
  open_databases zero i = pure tt
  open_databases (suc n) i = do command env (open_database i); open_databases n (suc i)

  -- The result of one attempt: a status, a nil slot for good, or another attempt.
  abbrev pub after_attempt :
      M (Option MySqlInstanceStatus)
      → Outcome MySqlInstanceStatus × Trace
      → Outcome (Option MySqlInstanceStatus) × Trace
  after_attempt again (ok ist, tr) = (ok (some ist), tr)
  after_attempt again (err nop, tr) = (ok none, tr)
  after_attempt again (err e, tr) = again tr
  after_attempt again (panic, tr) = (panic, tr)

  -- The number is `statusCheckRetryMax` and the attempts left besides this one.
  unfoldable pub read_instance : ℕ → ℕ → M (Option MySqlInstanceStatus)
  read_instance zero i tr = after_attempt (pure none) (status env i tr)
  read_instance (suc n) i tr = after_attempt (read_instance n i) (status env i tr)

  unfoldable pub read_instances : ℕ → ℕ → M Statuses
  read_instances zero i = pure []
  read_instances (suc n) i = do
    o ← read_instance 2 i
    rest ← read_instances n (suc i)
    pure (o ∷ rest)

  -- The primary is read again; the result is its executed GTID set.
  unfoldable pub recheck_primary : ℕ → Statuses → M (Statuses × String)
  recheck_primary primary statuses = do
    o ← lift (deref (get_elem? statuses primary))
    elim o [
      | none ↦ pure (statuses, "")
      | some _ ↦ do
        pst ← status env primary
        pure (set statuses primary (some pst), pst.global_variables.executed_gtid)
    ]

  -- Whether a live replica has transactions that are not the primary's.
  unfoldable pub is_errant_against : ℕ → String → String → MySqlInstanceStatus → M Bool
  is_errant_against primary uuid executed ist = do
    diff ← gtid_minus env primary ist.global_variables.executed_gtid executed
    lift (contain_errant_transactions uuid diff)

  unfoldable pub detect_errants : ℕ → String → String → ℕ → Statuses → M (Statuses × List ℕ)
  detect_errants primary uuid executed i [] = pure ([], [])
  detect_errants primary uuid executed i (none ∷ rest) = do
    r ← detect_errants primary uuid executed (suc i) rest
    pure (none ∷ r.0, r.1)
  detect_errants primary uuid executed i (some ist ∷ rest) = do
    errant ← (if i =? primary then pure false else is_errant_against primary uuid executed ist)
    r ← detect_errants primary uuid executed (suc i) rest
    pure (
        if errant
        then (some (record ist { is_errant = true }) ∷ r.0, i ∷ r.1)
        else (some ist ∷ r.0, r.1))

  unfoldable pub find_errants : MySqlCluster → ℕ → String → Statuses → M (Statuses × List ℕ)
  find_errants c primary executed statuses =
      if executed == ""
      then lift (restore_errants c.status.errant_replica_list statuses [])
      else (do
        o ← lift (deref (get_elem? statuses primary))
        pst ← lift (deref o)
        detect_errants primary pst.global_variables.uuid executed 0 statuses)

  -- From the pods on, with the cluster and the passwords at hand.
  unfoldable pub gather_instances : MySqlCluster → MySqlPassword → List (Option Pod) → M StatusSet
  gather_instances c password pods = do
    open_databases c.spec.replicas 0
    first ← read_instances c.spec.replicas 0
    r ← recheck_primary c.status.current_primary_index first
    found ← find_errants c c.status.current_primary_index r.1 r.0
    lift (
        decide_state (record {
          primary = c.status.current_primary_index;
          cluster = c;
          password = password;
          pods = pods;
          mysql_status = drop_hung c.status.current_primary_index 0 found.0;
          executed_gtid = r.1;
          errants = found.1;
          candidates = [];
          need_switch = false;
          prevent_pod_deletion = prevents_deletion c c.status.current_primary_index r.0;
          candidate = 0;
          state = undecided;
        }))

  -- `password_of` stands for `NewMySQLPasswordFromSecret`.
  module _ (password_of : Prelude.Dict.Dict String → Outcome MySqlPassword) where
    unfoldable pub gather_status : M StatusSet
    gather_status = do
      c ← cluster env
      d ← secret env (user_secret_name c.namespace c.name)
      password ← lift (password_of d)
      items ← pod_list env
      (if not c.spec.offline && not (c.spec.replicas =? length items)
          then fail (message "too few pods")
          else pure tt)
      pods ← lift (fill_pods (length items) items (replicate c.spec.replicas none))
      gather_instances c password pods
