-- ===== src/Clustering/Tests/Calls.antt =====
-- Runs of the operations against an environment in which each call succeeds.
use moco.Prelude.{
  ◌↔◌, ◌⊎◌, ◌≢◌, ℕ, ◌≡◌, refl, arith, String, Bool, true, false, none, some, List, [], ◌∷◌, ok,
  panic, leb, ◌==◌, if◌then◌else◌, replicate,
}
use text.Mathlib.TextPositions.{eq_refl}
use moco.Api.Cluster.{Condition, condition_true}
use moco.Dbop.Types.{MySqlInstanceStatus}
use moco.Dbop.TopRunner.{gtids_of, offer, compare_with, consider, top_runner_from, find_top_runner}
use moco.Dbop.TopRunner.Verdict.{Verdict, Slot, find_top_runner_lem}
use moco.Effects.{Env, value, read_cluster, gtid_within, lift, ◌>>=◌, retry_on_conflict}
use moco.Effects
use moco.Effects.Triple.{done}
use moco.Effects.Only.{OnlyCalls}
use moco.Effects.Order.{Justified}
use moco.Clustering.StatusSet.{StatusSet, offline, degraded, healthy, cloning, restoring}
use moco.Clustering.Decide.{decide_state}
use moco.Clustering.Gather.{fill_pods}
use moco.Clustering.Configure.{configure}
use moco.Clustering.Configure.Footprint.{ConfigureMay, configure_calls}
use moco.Clustering.Switchover.{switchover}
use moco.Clustering.Switchover.Footprint.{SwitchoverMay, switchover_calls}
use moco.Clustering.Switchover.Order.{AfterHandOver, switchover_hands_over}
use moco.Clustering.Failover.{failover}
use moco.Clustering.Failover.Footprint.{FailoverMay, failover_calls}
use moco.Clustering.Failover.Order.{AfterCatchUp, failover_catches_up}
use moco.Clustering.Process.{operate}
use moco.Clustering.Process.Footprint.{OperateMay, operate_calls}
use moco.Clustering.Process.Conditions.{status_at, conditions_of_lem}
use moco.Clustering.Process.Offline.{offline_without_pods}
use moco.Clustering.Process.Status.{conditions_of, write_status, update_status}
use moco.Clustering.Tests.{
  cluster, replica, primary_instance, gathered, leaving_set, leaving_result, down_result,
}

-- How far a GTID set of the tests reaches.
abbrev rank : String → ℕ
rank s = if s == "u0:1-5,u0:1-4" then 5 else if s == "u0:1-4" then 4 else 0

abbrev within : String → String → Bool
within s t = leb (rank s) (rank t)

within_refl : (s : String) → within s s ≡ true
within_refl s = ground arith

within_trans : (r s t : String) → within r s ≡ true → within s t ≡ true → within r t ≡ true
within_trans r s t h k = ground arith

abbrev answer_of : ℕ → MySqlInstanceStatus
answer_of i = if leb i 0 then primary_instance else replica "u0:1-5" false

abbrev quiet : Env
quiet = record {
  result = λ tr c. none;
  status_of = λ tr i. value (answer_of i);
  gtid_difference = λ tr i s t. value "";
  gtid_subset = λ tr i s t. value (within s t);
  cluster_of = λ tr. value (cluster false);
  secret_of = λ tr s. value [];
  pods_of = λ tr. value [];
  is_slow = λ tr. false;
  is_done = λ tr. false;
  atoi = λ s. none;
  parse_int32 = λ s. none;
  unchanged = λ c d. true;
  set_condition = λ c cs. c ∷ cs;
  retries = λ tr. 4;
}

abbrev slots : List Slot
slots = none ∷ some (replica "u0:1-5" false) ∷ some (replica "" false) ∷ []

find_top_runner_lem_example : Verdict within slots (find_top_runner quiet (some 2) slots []).0
find_top_runner_lem_example =
    find_top_runner_lem within quiet 2 (λ tr s t. refl) within_refl within_trans slots []

-- The index of the most advanced slot.
find_top_runner_run : (find_top_runner quiet (some 2) slots []).0 ≡ ok 1
unfolding find_top_runner top_runner_from consider compare_with offer gtids_of gtid_within lift
    ◌>>=◌
find_top_runner_run = refl

configure_calls_example : OnlyCalls (ConfigureMay leaving_set) (configure quiet leaving_set []).1
configure_calls_example = configure_calls quiet leaving_set

switchover_calls_example :
    OnlyCalls (SwitchoverMay leaving_result) (switchover quiet leaving_result []).1
switchover_calls_example = switchover_calls quiet leaving_result

switchover_hands_over_example :
    Justified (AfterHandOver quiet leaving_result) (switchover quiet leaving_result []).1
switchover_hands_over_example = switchover_hands_over quiet leaving_result

failover_calls_example : OnlyCalls (FailoverMay down_result) (failover quiet down_result []).1
failover_calls_example = failover_calls quiet down_result

failover_catches_up_example :
    Justified (AfterCatchUp quiet down_result) (failover quiet down_result []).1
failover_catches_up_example = failover_catches_up quiet down_result

operate_calls_example :
    OnlyCalls (OperateMay quiet leaving_result) (operate quiet leaving_result []).1
operate_calls_example = operate_calls quiet leaving_result

abbrev offline_set : StatusSet
offline_set = record (gathered true none (replicate 3 none) "") { pods = replicate 3 none }

abbrev offline_result : StatusSet
offline_result = record offline_set { state = offline }

update_status_run : update_status quiet offline_result [] ≡ (ok tt, done read_cluster ∷ [])
unfolding update_status write_status retry_on_conflict Effects.cluster ◌>>=◌
update_status_run = refl

fill_pods_run : fill_pods quiet 0 [] (replicate 3 none) ≡ ok offline_set.pods
unfolding fill_pods
fill_pods_run = refl

offline_without_pods_example :
    (decide_state offline_set ≡ ok offline_result)
    × (operate quiet offline_result [] ≡ (panic, done read_cluster ∷ []))
offline_without_pods_example =
    offline_without_pods quiet offline_set 2 [] (done read_cluster ∷ []) refl refl refl
      fill_pods_run update_status_run

quiet-sets :
    (c : Condition) (old : List Condition)
    → status_at c.typ (quiet.set_condition c old) ≡ some c.status
quiet-sets c old = rw (eq_refl c.typ) refl

quiet-keeps :
    (c : Condition) (old : List Condition) (typ : String)
    → (c.typ == typ) ≡ false
    → status_at typ (quiet.set_condition c old) ≡ status_at typ old
quiet-keeps c old typ e = rw e refl

conditions_of_lem_example :
    ((status_at "Available" (conditions_of quiet degraded []) ≡ some condition_true)
      ↔ ((degraded ≡ healthy) ⊎ (degraded ≡ degraded)))
    × ((status_at "Healthy" (conditions_of quiet degraded []) ≡ some condition_true)
        ↔ (degraded ≡ healthy))
    × ((status_at "Initialized" (conditions_of quiet degraded []) ≡ some condition_true)
        ↔ ((degraded ≢ cloning) × (degraded ≢ restoring)))
conditions_of_lem_example = conditions_of_lem quiet degraded [] quiet-sets quiet-keeps
