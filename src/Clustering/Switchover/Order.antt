-- ===== src/Clustering/Switchover/Order.antt =====
-- What has happened before `switchover` records the new primary (clustering/operations.go).
use moco.Prelude.{
  ℕ, ◌≡◌, Bool, true, false, List, [], ◌∷◌, Outcome, ok, err, panic, deref, get_elem?,
  if◌then◌else◌, is_some,
}
use moco.Prelude.Dict.{lookup}
use moco.Api.Pod.{Pod}
use moco.Dbop.Types.{MySqlInstanceStatus}
use moco.Effects.{
  Env, Trace, Call, value, ◌>>=◌, ◌>>◌, lift, note, command, update_cluster, patch_pod, get_status,
  set_read_only, kill_connections, wait_for_gtid, count_metric,
}
use moco.Effects.Triple.{
  After, After-trace, Triple, done, Triple-pure, Triple-fail, Triple-lift_any, Triple-if,
  Triple-bind,
}
use moco.Effects.Order.{
  Mark, Contains, is, Justified, Kept, Triple-relax, order-command, order-note, order-status,
  order-modify_cluster,
}
use moco.Clustering.StatusSet.{StatusSet}
use moco.Clustering.Switchover.{
  set_primary, with_primary, recover_read_only, freeze, clear_demote, switchover, demote,
  timeout_seconds,
}

abbrev frozen : ℕ → List Mark
frozen p = is (done (kill_connections p)) ∷ is (done (set_read_only p true)) ∷ []

abbrev read_from : Env → ℕ → MySqlInstanceStatus → Mark
read_from env p pst e old = (e ≡ done (get_status p)) × (env.status_of old p ≡ value pst)

-- Newest first: the candidate has waited for the transactions of the primary, which were read when
-- the primary was read-only and its connections were killed.
abbrev pub handed_over : Env → ℕ → ℕ → MySqlInstanceStatus → List Mark
handed_over env p c pst =
    is (done (wait_for_gtid c pst.global_variables.executed_gtid timeout_seconds))
    ∷ read_from env p pst
    ∷ frozen p

-- A write of a cluster comes after the hand-over; no other call is restricted.
abbrev pub AfterHandOver : Env → StatusSet → Call → Trace → Type 0
AfterHandOver env ss (update_cluster c) old =
    (pst : MySqlInstanceStatus) × Contains (handed_over env ss.primary ss.candidate pst) old
AfterHandOver env ss _ old = Unit

module _ (env : Env) (ss : StatusSet) where
  abbrev K : List Mark → Trace → Type 0
  K = Kept (AfterHandOver env ss)

  abbrev J : Call → Trace → Type 0
  J = AfterHandOver env ss

  abbrev X : Trace → Type 0
  X tr = Justified J tr

  abbrev ro : Mark
  ro = is (done (set_read_only ss.primary true))

  recover_order :
      (r : Outcome (Unit {0}) × Trace)
      → After (λ _. K (ro ∷ [])) X X r
      → After (λ _. K (ro ∷ [])) X X (recover_read_only env ss.primary r)
  unfolding recover_read_only
  recover_order (ok x, tr) h = h
  recover_order (err e, tr) h =
      (Triple-bind {R = λ _. K (is (done (kill_connections ss.primary)) ∷ [])}
          (order-command J X env [] (kill_connections ss.primary) (λ tr k. tt))
          (λ _. Triple-fail (λ tr k. k.0))).run
        tr (h, tt)
  recover_order (panic, tr) h = h

  freeze_order :
      (tr : Trace)
      → X tr
      → (slow : Bool)
      → After
          (λ _. K (ro ∷ []))
          X
          X
          (if slow
            then (command env (kill_connections ss.primary)
                  >> command env (set_read_only ss.primary true))
                tr
            else recover_read_only env ss.primary (command env (set_read_only ss.primary true) tr))
  freeze_order tr h true =
      (Triple-bind {R = λ _. K []}
          (Triple-relax (λ _ tr k. (k.0, tt)) (λ tr k. k)
            (order-command J X env [] (kill_connections ss.primary) (λ tr k. tt)))
          (λ _. order-command J X env [] (set_read_only ss.primary true) (λ tr k. tt))).run
        tr (h, tt)
  freeze_order tr h false =
      recover_order _
        ((order-command J X env [] (set_read_only ss.primary true) (λ tr k. tt)).run tr (h, tt))

  order-freeze : Triple X (freeze env ss.primary) (λ _. K (ro ∷ [])) X X
  unfolding freeze
  order-freeze = record { run = λ tr h. freeze_order tr h (env.is_slow tr) }

  order-clear_demote :
      (ms : List Mark) (pod : Pod) → Triple (K ms) (clear_demote env pod) (λ _. X) X X
  unfolding clear_demote
  order-clear_demote ms pod =
      Triple-if (is_some (lookup demote pod.annotations))
        (λ _.
          Triple-relax (λ _ tr k. k.0) (λ tr k. k)
            (order-command J X env ms (patch_pod pod _) (λ tr k. tt)))
        (λ _. Triple-pure (λ tr k. k.0))

  -- The steps behind the write of the new primary.
  order-announce :
      (ms : List Mark)
      → Triple
          (K ms)
          (note (count_metric "switchover") >>= λ _.
            lift (deref (get_elem? ss.pods ss.primary)) >>= λ o.
            lift (deref o) >>= λ ppod. clear_demote env ppod)
          (λ _. X)
          X
          X
  order-announce ms =
      Triple-bind {R = λ _. K ms} (order-note J X env ms (count_metric "switchover") (λ tr k. tt))
        λ _.
          Triple-bind {R = λ _. K ms}
            (Triple-lift_any _ (λ o e tr k. k) (λ tr k. k.0) (λ tr k. k.0))
            λ o.
              Triple-bind {R = λ _. K ms}
                (Triple-lift_any _ (λ o e tr k. k) (λ tr k. k.0) (λ tr k. k.0))
                λ pod. order-clear_demote ms pod

  switchover_triple : Triple X (switchover env ss) (λ _. X) X X
  unfolding switchover set_primary
  switchover_triple = Triple-bind {R = λ _. K (ro ∷ [])} order-freeze λ _.
      Triple-bind {R = λ _. K (frozen ss.primary)}
        (order-command J X env (ro ∷ []) (kill_connections ss.primary) (λ tr k. tt))
        λ _.
          Triple-bind {R = λ pst. K (read_from env ss.primary pst ∷ frozen ss.primary)}
            (order-status J X env (frozen ss.primary) ss.primary (λ tr k. tt))
            λ pst.
              let done_all = handed_over env ss.primary ss.candidate pst in
              Triple-bind {R = λ _. K done_all}
                (order-command J X env (read_from env ss.primary pst ∷ frozen ss.primary)
                  (wait_for_gtid ss.candidate pst.global_variables.executed_gtid timeout_seconds)
                  (λ tr k. tt))
                λ _.
                  Triple-bind {R = λ _. K done_all}
                    (order-modify_cluster J X env done_all (with_primary ss.candidate) (λ tr k. tt)
                      (λ c tr k. (pst, k)))
                    λ _. order-announce done_all

-- However the calls end: before each write of the cluster, and so before the candidate is recorded as
-- the primary, the primary has become read-only, then its connections have been killed, then its
-- status has been read, then the candidate has executed all transactions that this status names; all
-- these calls have succeeded.
pub switchover_hands_over :
    (env : Env) (ss : StatusSet) → Justified (AfterHandOver env ss) (switchover env ss []).1
switchover_hands_over env ss =
    After-trace _ (switchover env ss []) ((switchover_triple env ss).run [] tt)
