-- ===== src/Effects.antt =====
-- What the operator does to the world: calls of MySQL instances (`dbop.Operator`), of moco-agent
-- and of the Kubernetes API. The code behind these interfaces is not modelled: an `Env` answers
-- each call from all the calls made so far, and a trace records the calls, the newest first.
pub mod Triple
pub mod Only
pub mod Order
pub mod Ends
pub mod Safe
pub mod Scene
use moco.Prelude.{
  ℕ, zero, suc, String, Bool, true, false, Option, none, some, List, [], ◌∷◌, Outcome, ok, err,
  panic, Error, conflict, timeout, if◌then◌else◌,
}
use moco.Prelude.Dict.{Dict}
use moco.Prelude.Int.{ℤ}
use moco.Api.Cluster.{MySqlCluster, Condition}
use moco.Api.Pod.{Pod}
use moco.Api.Claim.{ClaimCall}
use moco.Api.Job.{JobCall}
use moco.Dbop.Types.{MySqlInstanceStatus, AccessInfo}

-- `agent.CloneRequest`.
pub record CloneRequest : Type 0 where
  pub host : String
  pub port : ℤ
  pub user : String
  pub password : String
  pub init_user : String
  pub init_password : String
  pub boot_timeout : ℕ

-- An instance is named by its index. Events and metrics are calls that cannot fail.
pub data Call : Type 0 where
  read_cluster list_pods : Call
  read_secret : String → Call
  update_cluster : MySqlCluster → Call
  patch_pod : Pod → Pod → Call
  get_status : ℕ → Call
  subtract_gtid : ℕ → String → String → Call
  is_subset_gtid : ℕ → String → String → Call
  set_read_only : ℕ → Bool → Call
  kill_connections : ℕ → Call
  wait_for_gtid : ℕ → String → ℕ → Call
  stop_replica_io_thread : ℕ → Call
  configure_replica : ℕ → AccessInfo → Bool → Call
  configure_primary : ℕ → ℕ → Call
  open_database : ℕ → Call
  connect_agent : ℕ → Call
  clone_data : ℕ → CloneRequest → Call
  emit_event : String → Call
  count_metric : String → Call
  of_claims : ClaimCall → Call
  of_job : JobCall → Call

-- A call, and whether it returned a nil error.
pub record Entry : Type 0 where
  pub call : Call
  pub succeeded : Bool

abbrev pub Trace : Type 0
Trace = List Entry

-- What an external call returns.
pub data Reply (A : Type 0) : Type 0 where
  value : A → Reply A
  failure : Error → Reply A

pub record Env : Type 0 where
  -- `none` is a nil error, for the calls that return nothing else.
  pub result : Trace → Call → Option Error
  pub status_of : Trace → ℕ → Reply MySqlInstanceStatus
  pub gtid_difference : Trace → ℕ → String → String → Reply String
  pub gtid_subset : Trace → ℕ → String → String → Reply Bool
  pub cluster_of : Trace → Reply MySqlCluster
  pub secret_of : Trace → String → Reply (Dict String)
  pub pods_of : Trace → Reply (List Pod)
  -- `SetReadOnly` has not returned within half of the pre-stop period.
  pub is_slow : Trace → Bool
  -- The context is done.
  pub is_done : Trace → Bool
  -- `strconv.Atoi`: `none` is an error.
  pub atoi : String → Option ℤ
  -- `strconv.ParseInt` with base 10 and 32 bits.
  pub parse_int32 : String → Option ℤ
  -- `equality.Semantic.DeepEqual` on clusters.
  pub unchanged : MySqlCluster → MySqlCluster → Bool
  -- `meta.SetStatusCondition`.
  pub set_condition : Condition → List Condition → List Condition
  -- How often `retry.RetryOnConflict` calls its function again at most.
  pub retries : Trace → ℕ

abbrev pub M : Type 0 → Type 0
M A = Trace → Outcome A × Trace

abbrev pub pure : {A : Type 0} → A → M A
pure a tr = (ok a, tr)

abbrev pub fail : {A : Type 0} → Error → M A
fail e tr = (err e, tr)

-- A computation that makes no call.
unfoldable pub lift : {A : Type 0} → Outcome A → M A
lift m tr = (m, tr)

abbrev pub continue : {A B : Type 0} → (A → M B) → Outcome A × Trace → Outcome B × Trace
continue f (ok a, tr) = f a tr
continue f (err e, tr) = (err e, tr)
continue f (panic, tr) = (panic, tr)

infixl 5 ◌>>=◌ ◌>>◌
unfoldable pub ◌>>=◌ : {A B : Type 0} → M A → (A → M B) → M B
◌>>=◌ m f tr = continue f (m tr)

abbrev pub ◌>>◌ : {A B : Type 0} → M A → M B → M B
m >> k = m >>= λ _. k

unfoldable pub when : Bool → M (Unit {0}) → M (Unit {0})
when true m = m
when false m = pure tt

abbrev pub record_reply : {A : Type 0} → Call → Reply A → M A
record_reply c (value a) tr = (ok a, record { call = c; succeeded = true } ∷ tr)
record_reply c (failure e) tr = (err e, record { call = c; succeeded = false } ∷ tr)

abbrev record_error : Call → Option Error → M (Unit {0})
record_error c none tr = (ok tt, record { call = c; succeeded = true } ∷ tr)
record_error c (some e) tr = (err e, record { call = c; succeeded = false } ∷ tr)

-- `retry.RetryOnConflict`: the function again while it returns a conflict, at most so often.
abbrev after_conflict : M (Unit {0}) → Outcome (Unit {0}) × Trace → Outcome (Unit {0}) × Trace
after_conflict again (err conflict, tr) = again tr
after_conflict again r = r

retry_loop : ℕ → M (Unit {0}) → M (Unit {0})
retry_loop zero f tr = f tr
retry_loop (suc n) f tr = after_conflict (retry_loop n f) (f tr)

-- `m`, and after an error of it `cleanup`, whose own result is dropped.
abbrev failing : {A : Type 0} → Error → Outcome (Unit {0}) × Trace → Outcome A × Trace
failing e (panic, tr) = (panic, tr)
failing e (_, tr) = (err e, tr)

abbrev after_error : {A : Type 0} → M (Unit {0}) → Outcome A × Trace → Outcome A × Trace
after_error cleanup (ok a, tr) = (ok a, tr)
after_error cleanup (panic, tr) = (panic, tr)
after_error cleanup (err e, tr) = failing e (cleanup tr)

unfoldable pub on_error : {A : Type 0} → M A → M (Unit {0}) → M A
on_error m cleanup tr = after_error cleanup (m tr)

-- `m`, of whose error the code goes on.
abbrev attempted : {A : Type 0} → Outcome A × Trace → Outcome (Reply A) × Trace
attempted (ok a, tr) = (ok (value a), tr)
attempted (err e, tr) = (ok (failure e), tr)
attempted (panic, tr) = (panic, tr)

unfoldable pub attempt : {A : Type 0} → M A → M (Reply A)
attempt m tr = attempted (m tr)

-- An event or a metric.
unfoldable pub note : Call → M (Unit {0})
note c tr = (ok tt, record { call = c; succeeded = true } ∷ tr)

abbrev answered : {A : Type 0} → Outcome A × Trace → Outcome Bool × Trace
answered (ok st, tr) = (ok true, tr)
answered (err e, tr) = (ok false, tr)
answered (panic, tr) = (panic, tr)

module _ (env : Env) where
  -- A call that returns an error alone.
  unfoldable pub command : Call → M (Unit {0})
  command c tr = record_error c (env.result tr c) tr

  unfoldable pub status : ℕ → M MySqlInstanceStatus
  status i tr = record_reply (get_status i) (env.status_of tr i) tr

  unfoldable pub gtid_minus : ℕ → String → String → M String
  gtid_minus i s1 s2 tr = record_reply (subtract_gtid i s1 s2) (env.gtid_difference tr i s1 s2) tr

  unfoldable pub gtid_within : ℕ → String → String → M Bool
  gtid_within i s1 s2 tr = record_reply (is_subset_gtid i s1 s2) (env.gtid_subset tr i s1 s2) tr

  unfoldable pub cluster : M MySqlCluster
  cluster tr = record_reply read_cluster (env.cluster_of tr) tr

  unfoldable pub secret : String → M (Dict String)
  secret name tr = record_reply (read_secret name) (env.secret_of tr name) tr

  unfoldable pub pod_list : M (List Pod)
  pod_list tr = record_reply list_pods (env.pods_of tr) tr

  unfoldable pub retry_on_conflict : M (Unit {0}) → M (Unit {0})
  unfolding retry_loop
  retry_on_conflict f tr = retry_loop (env.retries tr) f tr

  -- `set` is called after `get` has returned its cluster: the closures given to
  -- `retry.RetryOnConflict` all have this shape.
  unfoldable pub modify_cluster : (MySqlCluster → MySqlCluster) → M (Unit {0})
  unfolding command cluster
  modify_cluster f = cluster >>= λ c. command (update_cluster (f c))

  -- `GetStatus`, where the code only looks whether it succeeds.
  unfoldable pub answers : ℕ → M Bool
  unfolding status
  answers i tr = answered (status i tr)

  unfoldable pub context_done : M Bool
  context_done tr = (ok (env.is_done tr), tr)

  -- The wait for the restart after a clone: a round each second, until the instance answers.
  unfoldable pub wait_restart : ℕ → ℕ → M (Unit {0})
  wait_restart zero i = pure tt
  wait_restart (suc n) i =
      let rest = wait_restart n i in
      context_done >>= λ done.
      if done then fail timeout else (answers i >>= λ up. if up then pure tt else rest)
