-- ===== src/Clustering/Decide/Cases.antt =====
-- The ways in which `DecideState` comes to its result, as data (clustering/status.go).
use moco.Prelude.{
  ℕ, ◌≡◌, refl, sym, Bool, true, false, ok, ok-injective, >>=-eq-ok, List, Bool-cases, inl, inr,
}
use moco.Clustering.StatusSet.{
  ClusterState, healthy, cloning, restoring, degraded, offline, StatusSet,
}
use moco.Clustering.Decide.{
  is_healthy, is_cloning, is_restoring, is_degraded, decide_down, after_degraded, after_healthy,
  decide_up, after_cloning, after_offline, decide,
}

-- `decide_up` starts from `ss` and ends in `s`.
pub data DecidedUp (ss s : StatusSet) : Type 0 where
  as_healthy :
      (cs : List ℕ)
      → is_healthy ss ≡ ok (true, cs)
      → s ≡ record ss { candidates = cs; state = healthy }
      → DecidedUp ss s
  as_degraded :
      (cs more : List ℕ)
      → is_healthy ss ≡ ok (false, cs)
      → is_degraded (record ss { candidates = cs }) ≡ ok (true, more)
      → s ≡ record ss { candidates = more; state = degraded }
      → DecidedUp ss s
  as_down :
      (cs more : List ℕ) (st : ClusterState)
      → is_healthy ss ≡ ok (false, cs)
      → is_degraded (record ss { candidates = cs }) ≡ ok (false, more)
      → decide_down (record ss { candidates = more }) ≡ ok st
      → s ≡ record ss { candidates = more; state = st }
      → DecidedUp ss s

pub data Decided (ss s : StatusSet) : Type 0 where
  as_offline : ss.cluster.spec.offline ≡ true → s ≡ record ss { state = offline } → Decided ss s
  as_cloning :
      ss.cluster.spec.offline ≡ false
      → is_cloning ss ≡ ok true
      → s ≡ record ss { state = cloning }
      → Decided ss s
  as_restoring :
      ss.cluster.spec.offline ≡ false
      → is_cloning ss ≡ ok false
      → is_restoring ss ≡ true
      → s ≡ record ss { state = restoring }
      → Decided ss s
  as_up :
      ss.cluster.spec.offline ≡ false
      → is_cloning ss ≡ ok false
      → is_restoring ss ≡ false
      → DecidedUp ss s
      → Decided ss s

module _ (ss s : StatusSet) where
  degraded_cases :
      (cs : List ℕ) (d : Bool × List ℕ)
      → is_healthy ss ≡ ok (false, cs)
      → is_degraded (record ss { candidates = cs }) ≡ ok d
      → after_degraded ss d ≡ ok s
      → DecidedUp ss s
  unfolding after_degraded
  degraded_cases cs (true, more) eh ed e = as_degraded cs more eh ed (sym (ok-injective e))
  degraded_cases cs (false, more) eh ed e =
      let (st, es, e') = >>=-eq-ok (decide_down (record ss { candidates = more })) _ e in
      as_down cs more st eh ed es (sym (ok-injective e'))

  healthy_cases :
      (h : Bool × List ℕ) → is_healthy ss ≡ ok h → after_healthy ss h ≡ ok s → DecidedUp ss s
  unfolding after_healthy
  healthy_cases (true, cs) eh e = as_healthy cs eh (sym (ok-injective e))
  healthy_cases (false, cs) eh e =
      let (d, ed, e') = >>=-eq-ok (is_degraded (record ss { candidates = cs })) _ e in
      degraded_cases cs d eh ed e'

  pub decide_up-cases : decide_up ss ≡ ok s → DecidedUp ss s
  unfolding decide_up
  decide_up-cases e = let (h, eh, e') = >>=-eq-ok (is_healthy ss) _ e in healthy_cases h eh e'

  cloning_cases :
      (c : Bool)
      → ss.cluster.spec.offline ≡ false
      → is_cloning ss ≡ ok c
      → after_cloning ss c ≡ ok s
      → Decided ss s
  unfolding after_cloning
  cloning_cases true off ec e = as_cloning off ec (sym (ok-injective e))
  cloning_cases false off ec e = elim (Bool-cases (is_restoring ss)) [
    | inl r ↦ as_restoring off ec r (sym (ok-injective (rw r at e)))
    | inr r ↦ as_up off ec r (decide_up-cases (rw r at e))
  ]

  offline_cases :
      (off : Bool) → ss.cluster.spec.offline ≡ off → after_offline ss off ≡ ok s → Decided ss s
  unfolding after_offline
  offline_cases true off e = as_offline off (sym (ok-injective e))
  offline_cases false on e =
      let (c, ec, e') = >>=-eq-ok (is_cloning ss) _ e in cloning_cases c on ec e'

  pub decide-cases : decide ss ≡ ok s → Decided ss s
  unfolding decide
  decide-cases e = offline_cases ss.cluster.spec.offline refl e
