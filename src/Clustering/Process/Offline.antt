-- ===== src/Clustering/Process/Offline.antt =====
-- An offline cluster whose pods are gone (clustering/status.go, clustering/operations.go,
-- clustering/process.go).
use moco.Prelude.{
  ℕ, suc, ◌≡◌, refl, sym, ap, ◌∙◌, ok-injective, sort_ints, Bool, true, false, Option, none, List,
  [], ◌∷◌, Outcome, ok, panic, replicate, if◌then◌else◌, deref,
}
use moco.Prelude
use moco.Effects.{Env, Trace, continue, ◌>>=◌, lift}
use moco.Clustering.StatusSet.{offline, StatusSet}
use moco.Clustering.Decide.{decide, after_offline, choose_target, decide_state}
use moco.Clustering.Gather.{fill_pods}
use moco.Clustering.Roles.{allow_delete, remove_ann_prevent_delete}
use moco.Clustering.Process.{annotate, act_in, operate}
use moco.Clustering.Process.Status.{update_status}

after_offline-true :
    (ss : StatusSet) (b : Bool) → b ≡ true → after_offline ss b ≡ ok (record ss { state = offline })
unfolding after_offline
after_offline-true ss true e = refl
after_offline-true ss false e = cc

choose_target_nil : (s : StatusSet) (cs : List ℕ) → cs ≡ [] → choose_target s (sort_ints cs) ≡ ok s
unfolding choose_target sort_ints
choose_target_nil s [] e = refl
choose_target_nil s (c ∷ cs) e = cc

decide_offline :
    (ss : StatusSet)
    → ss.cluster.spec.offline ≡ true
    → ss.candidates ≡ []
    → decide_state ss ≡ ok (record ss { state = offline })
unfolding decide_state decide
decide_offline ss off none_yet =
    ap (λ m. Prelude.◌>>=◌ m λ s. choose_target s (sort_ints s.candidates))
      (after_offline-true ss ss.cluster.spec.offline off)
    ∙ choose_target_nil (record ss { state = offline }) ss.candidates none_yet

annotate_panics :
    (env : Env) (ss : StatusSet) (n : ℕ)
    → ss.pods ≡ replicate (suc n) none
    → ss.prevent_pod_deletion ≡ false
    → (tr : Trace) → annotate env ss tr ≡ (panic, tr)
unfolding annotate remove_ann_prevent_delete allow_delete lift ◌>>=◌
annotate_panics env ss n gone free tr = rw (gone, free) refl

-- The pods of an offline cluster are gone, no candidate is known, and nothing prevents a deletion: then `fill_pods` makes a
-- slice of nil pods, `DecideState` decides Offline, and once the status has been written, the
-- operation panics instead of leaving the cluster alone.
pub offline_without_pods :
    (env : Env) (ss : StatusSet) (n : ℕ) (tr tr' : Trace)
    → ss.cluster.spec.offline ≡ true
    → ss.candidates ≡ []
    → ss.prevent_pod_deletion ≡ false
    → fill_pods env 0 [] (replicate (suc n) none) ≡ ok ss.pods
    → update_status env (record ss { state = offline }) tr ≡ (ok tt, tr')
    → (decide_state ss ≡ ok (record ss { state = offline }))
      × (operate env (record ss { state = offline }) tr ≡ (panic, tr'))
unfolding operate ◌>>=◌ fill_pods
offline_without_pods env ss n tr tr' off none_yet free gone written = (
  decide_offline ss off none_yet,
  ap
        (continue (λ _. annotate env (record ss { state = offline }) >>= λ _.
          act_in env offline (record ss { state = offline })))
        written
      ∙ ap (continue (λ _. act_in env offline (record ss { state = offline }))) (
          annotate_panics env (record ss { state = offline }) n (sym (ok-injective gone)) free tr'),
)
