-- ===== src/Clustering/Tests/Gathering.antt =====
-- A primary, a replica with transactions of its own and an instance that does not answer.
use moco.Prelude.{
  ℕ, ◌<◌, ◌≡◌, refl, arith, false, none, [], ◌∷◌, inl, inr, ok, message, NoPanic, zero, suc, List,
}
use moco.Api.Cluster.{no_backup}
use moco.Api.Pod.{Pod}
use moco.Effects.{Env, Reply, value, failure}
use moco.Effects.Scene.{calm, cluster_with}
use moco.Dbop.Types.{MySqlInstanceStatus}
use moco.Clustering.Gather.{gather_status}
use moco.Clustering.Gather.Text.{last_field}
use moco.Clustering.Gather.Pods.{HasOrdinal}
use moco.Clustering.Gather.Instances.{HasUuid}
use moco.Clustering.Gather.Total.{IsServed, gather_status-NoPanic}
use moco.Clustering.Tests.{password, pod, primary_instance, replica}

abbrev answer : ℕ → Reply MySqlInstanceStatus
answer zero = value primary_instance
answer (suc zero) = value (replica "u1:1-4" false)
answer (suc (suc n)) = failure (message "no connection")

abbrev pods : List Pod
pods = pod "moco-test-2" none ∷ pod "moco-test-0" none ∷ pod "moco-test-1" none ∷ []

abbrev env : Env
env = record (calm no_backup) {
  status_of = λ tr i. answer i;
  gtid_difference = λ tr i s t. value "u1:1-4";
  pods_of = λ tr. value pods;
}

pods_ordinal : (k : ℕ) → k < 3 → HasOrdinal env k pods
unfolding last_field
pods_ordinal zero b = inr (inl refl)
pods_ordinal (suc zero) b = inr (inr (inl refl))
pods_ordinal (suc (suc zero)) b = inl refl
pods_ordinal (suc (suc (suc n))) b = elim (beyond n b) [ ]
  where
    beyond : (n : ℕ) → suc (suc (suc n)) < 3 → ⊥
    beyond n b = omega arith

answers_uuid : (i : ℕ) (ist : MySqlInstanceStatus) → answer i ≡ value ist → HasUuid ist
answers_uuid zero ist e = let e' : primary_instance ≡ ist = cc in rw (← e') refl
answers_uuid (suc zero) ist e = let e' : replica "u1:1-4" false ≡ ist = cc in rw (← e') refl
answers_uuid (suc (suc n)) ist e = cc

env-IsServed : IsServed env (cluster_with no_backup)
env-IsServed = record {
  reads = λ tr d e. cc;
  primary_in = omega arith;
  errants_in = tt;
  pods_in = λ tr items e. let e' : pods ≡ items = cc in rw (← e') (omega arith, pods_ordinal);
  uuids = λ tr i ist e. answers_uuid i ist e;
}

gather_status-NoPanic_example : NoPanic (gather_status env (λ d. ok password) []).0
gather_status-NoPanic_example =
    gather_status-NoPanic env (cluster_with no_backup) env-IsServed (λ d. ok password) (λ d. tt) []
