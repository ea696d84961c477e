-- ===== src/Clustering/Switchover/Footprint.antt =====
-- Which calls `switchover` may make, whatever they return (clustering/operations.go).
use moco.Prelude.{
  ℕ, ◌≡◌, refl, Bool, true, false, [], ◌∷◌, some, Outcome, ok, err, panic, deref, deref-eq-ok, ap,
  ◌∙◌, get_elem?, if◌then◌else◌, is_some,
}
use moco.Prelude.Dict.{lookup}
use moco.Api.Pod.{Pod}
use moco.Effects.{
  Env, Trace, Entry, Call, ◌>>◌, command, read_cluster, update_cluster, patch_pod, get_status,
  set_read_only, kill_connections, wait_for_gtid, emit_event, count_metric,
}
use moco.Effects.Triple.{After}
use moco.Effects.Only.{
  Only-calls, Only, OnlyCalls, Only-pure, Only-fail, Only-if, Only-lift_bind, Only-bind,
  Only-command, Only-note, Only-status, Only-retry_on_conflict, Only-modify_cluster,
}
use moco.Clustering.StatusSet.{StatusSet}
use moco.Clustering.Switchover.{
  set_primary, with_primary, recover_read_only, freeze, clear_demote, switchover, demote,
}

-- A cluster that is written names the candidate as its primary.
abbrev pub SwitchoverMay : StatusSet → Call → Type 0
SwitchoverMay ss (set_read_only i true) = i ≡ ss.primary
SwitchoverMay ss (set_read_only i false) = ⊥
SwitchoverMay ss (kill_connections i) = i ≡ ss.primary
SwitchoverMay ss (get_status i) = i ≡ ss.primary
SwitchoverMay ss (wait_for_gtid i g t) = i ≡ ss.candidate
SwitchoverMay ss read_cluster = Unit
SwitchoverMay ss (update_cluster c) = c.status.current_primary_index ≡ ss.candidate
SwitchoverMay ss (patch_pod p q) = get_elem? ss.pods ss.primary ≡ some (some p)
SwitchoverMay ss (count_metric s) = Unit
SwitchoverMay ss (emit_event s) = Unit
SwitchoverMay ss _ = ⊥

module _ (env : Env) where
  pub Only-set_primary :
      {may : Call → Type 0} (i : ℕ)
      → may read_cluster
      → ((c : _) → may (update_cluster (with_primary i c)))
      → Only may (set_primary env i)
  unfolding set_primary
  Only-set_primary i r w = Only-retry_on_conflict env (Only-modify_cluster env (with_primary i) r w)

module _ (env : Env) (ss : StatusSet) where
  module _ (R : Trace → Type 0)
      (w : (e : Entry) → SwitchoverMay ss e.call → (tr : Trace) → R tr → R (e ∷ tr)) where
    recover-After :
        (r : Outcome (Unit {0}) × Trace)
        → After (λ _. R) (R) (R) r
        → After (λ _. R) (R) (R) (recover_read_only env ss.primary r)
    unfolding recover_read_only
    recover-After (ok x, tr) h = h
    recover-After (err e, tr) h =
        ((Only-bind (Only-command env (kill_connections ss.primary) refl) (λ _. Only-fail e)).kept R
            w).run
          tr h
    recover-After (panic, tr) h = h

    freeze-After :
        (tr : Trace)
        → R tr
        → (slow : Bool)
        → After
            (λ _. R)
            (R)
            (R)
            (if slow
              then (command env (kill_connections ss.primary)
                    >> command env (set_read_only ss.primary true))
                  tr
              else recover_read_only env ss.primary
                  (command env (set_read_only ss.primary true) tr))
    freeze-After tr h true =
        ((Only-bind (Only-command env (kill_connections ss.primary) refl)
              (λ _. Only-command env (set_read_only ss.primary true) refl)).kept
            R w).run
          tr h
    freeze-After tr h false =
        recover-After _
          (((Only-command env (set_read_only ss.primary true) refl).kept R w).run tr h)

  Only-freeze : Only (SwitchoverMay ss) (freeze env ss.primary)
  unfolding freeze
  Only-freeze = record {
    kept = λ R w. record { run = λ tr h. freeze-After R w tr h (env.is_slow tr) };
  }

  Only-clear_demote :
      (pod : Pod)
      → get_elem? ss.pods ss.primary ≡ some (some pod)
      → Only (SwitchoverMay ss) (clear_demote env pod)
  unfolding clear_demote
  Only-clear_demote pod e =
      Only-if (is_some (lookup demote pod.annotations)) (Only-command env (patch_pod pod _) e)
        (Only-pure tt)

  pub switchover-Only : Only (SwitchoverMay ss) (switchover env ss)
  unfolding switchover
  switchover-Only = Only-bind Only-freeze λ _.
      Only-bind (Only-command env (kill_connections ss.primary) refl) λ _.
        Only-bind (Only-status env ss.primary refl) λ pst.
          Only-bind (Only-command env (wait_for_gtid ss.candidate _ _) refl) λ _.
            Only-bind (Only-set_primary env ss.candidate tt (λ c. refl)) λ _.
              Only-bind (Only-note env (count_metric "switchover") tt) λ _.
                Only-lift_bind (deref (get_elem? ss.pods ss.primary)) λ o eo.
                  Only-lift_bind (deref o)
                    λ pod ep. Only-clear_demote pod (deref-eq-ok _ eo ∙ ap some (deref-eq-ok o ep))

-- Only the primary is made read-only and its connections killed, the candidate waits, and a
-- cluster that is written names the candidate.
pub switchover_calls :
    (env : Env) (ss : StatusSet) → OnlyCalls (SwitchoverMay ss) (switchover env ss []).1
switchover_calls env ss = Only-calls (switchover env ss) (switchover-Only env ss)
