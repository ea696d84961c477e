-- ===== src/Clustering/Decide/Target.antt =====
-- The candidates of a switchover (clustering/status.go): `isHealthy` leaves some behind where it
-- fails, and `isDegraded` adds its own.
use moco.Prelude.{
  ℕ, zero, suc, ◌≤◌, ◌<◌, ◌≡◌, ◌≢◌, refl, ap, Bool, true, false, not, ◌&&◌, Option, none, some,
  List, [], ◌∷◌, ◌++◌, arith, length, get_elem?, lt-get_elem?, All, All-append, All-imp, StandsAt,
  StandsAt-refl, ok, >>=-eq-ok, ok-injective, deref, deref-eq-ok, Ensures, Ensures-pure,
  Ensures-bind, Ensures-if, &&_true, ◌∙◌, Bool-cases, inl, inr, ◌=?◌, sort_ints, IsSorted,
  sort_ints-IsSorted, All-sort_ints,
}
use moco.Api.Cluster.{host_of}
use moco.Api.Pod.{Pod}
use moco.Dbop.Types.{MySqlInstanceStatus}
use moco.Clustering.StatusSet.{
  StatusSet, is_pod_ready, all_pods_ready, is_sound_replica, healthy_replicas, lost_data,
}
use moco.Clustering.Decide.{
  primary_status, degraded_primary, pod_at, after_replicas, healthy_instances, is_healthy,
  degraded_replicas, degraded_instances, is_degraded, decide, choose_target, decide_state,
}
use moco.Clustering.Decide.Total.{IsGathered}
use moco.Clustering.Decide.Cases.{
  as_healthy, as_degraded, as_down, Decided, as_offline, as_cloning, as_restoring, as_up,
  decide-cases,
}

-- A live replica without errant transactions, read-only and fed by the primary.
abbrev pub IsSound : StatusSet → ℕ → Type 0
IsSound ss i =
    (ist : MySqlInstanceStatus) × (i ≢ ss.primary)
    × (get_elem? ss.mysql_status i ≡ some (some ist))
    × (is_sound_replica (host_of ss.cluster ss.primary) ist ≡ true)

abbrev pub PodIsReady : StatusSet → ℕ → Type 0
PodIsReady ss i = (pod : Pod) × (get_elem? ss.pods i ≡ some (some pod)) × (is_pod_ready pod ≡ true)

abbrev pub IsTarget : StatusSet → ℕ → Type 0
IsTarget ss i = IsSound ss i × PodIsReady ss i

ne_of_test : (i p : ℕ) → (i =? p) ≡ false → i ≢ p
ne_of_test i p h = ground arith

module _ (ss : StatusSet) where
  healthy_replicas-IsSound :
      (i : ℕ) (rest : List (Option MySqlInstanceStatus)) (cs : List ℕ)
      → StandsAt ss.mysql_status i rest
      → All (IsSound ss) cs
      → All (IsSound ss) (healthy_replicas ss.primary (host_of ss.cluster ss.primary) i rest cs).1
  unfolding healthy_replicas
  healthy_replicas-IsSound i [] cs at h = h
  healthy_replicas-IsSound i (none ∷ rest) cs at h = elim (Bool-cases (i =? ss.primary)) [
    | inl e ↦ rw e (healthy_replicas-IsSound (suc i) rest cs at.1 h)
    | inr e ↦ rw e h
  ]
  healthy_replicas-IsSound i (some ist ∷ rest) cs at h = elim (Bool-cases (i =? ss.primary)) [
    | inl e ↦ rw e (healthy_replicas-IsSound (suc i) rest cs at.1 h)
    | inr e ↦ elim (Bool-cases (is_sound_replica (host_of ss.cluster ss.primary) ist)) [
      | inl good ↦
          rw (e, good)
            (healthy_replicas-IsSound (suc i) rest (cs ++ (i ∷ [])) at.1 (
              All-append (IsSound ss) cs (i ∷ []) h
                ((ist, ne_of_test i ss.primary e, at.0, good), tt)))
      | inr bad ↦ rw (e, bad) h
    ]
  ]

  pub pod_at-get_elem? :
      (i : ℕ) (pod : Pod) → pod_at ss i ≡ ok pod → get_elem? ss.pods i ≡ some (some pod)
  unfolding pod_at
  pod_at-get_elem? i pod e =
      let (o, eo, e') = >>=-eq-ok (deref (get_elem? ss.pods i)) _ e in
      deref-eq-ok _ eo ∙ ap some (deref-eq-ok o e')

  pod_at-PodIsReady :
      (i : ℕ) (pod : Pod) → pod_at ss i ≡ ok pod → is_pod_ready pod ≡ true → PodIsReady ss i
  pod_at-PodIsReady i pod e r = (pod, pod_at-get_elem? i pod e, r)

  degraded_replicas-IsTarget :
      (i : ℕ) (rest : List (Option MySqlInstanceStatus)) (n : ℕ) (cs : List ℕ)
      → StandsAt ss.mysql_status i rest
      → All (IsTarget ss) cs
      → Ensures (λ r. All (IsTarget ss) r.1) (degraded_replicas ss i rest n cs)
  unfolding degraded_replicas
  degraded_replicas-IsTarget i [] n cs at h = Ensures-pure _ h
  degraded_replicas-IsTarget i (none ∷ rest) n cs at h =
      degraded_replicas-IsTarget (suc i) rest n cs at.1 h
  degraded_replicas-IsTarget i (some ist ∷ rest) n cs at h =
      let skip = degraded_replicas-IsTarget (suc i) rest n cs at.1 h in
      Ensures-if _ (i =? ss.primary) _ _ (λ e. skip)
        λ e. Ensures-bind _ (pod_at ss i) _ λ pod ep.
          Ensures-if _ (is_pod_ready pod && is_sound_replica (host_of ss.cluster ss.primary) ist) _
            _
            (λ good.
              let (r, sound) = &&_true _ _ good in
              degraded_replicas-IsTarget (suc i) rest (suc n) (cs ++ (i ∷ [])) at.1 (
                All-append (IsTarget ss) cs (i ∷ []) h (
                  ((ist, ne_of_test i ss.primary e, at.0, sound), pod_at-PodIsReady i pod ep r),
                  tt,
                )))
            (λ bad. skip)

pub all_pods_ready-cons :
    (pod : Pod) (ps : List (Option Pod))
    → all_pods_ready (some pod ∷ ps) ≡ ok true
    → (is_pod_ready pod ≡ true) × (all_pods_ready ps ≡ ok true)
unfolding all_pods_ready
all_pods_ready-cons pod ps e = elim (Bool-cases (is_pod_ready pod)) [
  | inl r ↦ (r, rw r at e)
  | inr r ↦ let f : ok false ≡ ok true = rw r at e in cc
]

-- Each slot holds a ready pod.
all_pods_ready-lem :
    (ps : List (Option Pod)) (i : ℕ)
    → all_pods_ready ps ≡ ok true
    → i < length ps
    → (pod : Pod) × (get_elem? ps i ≡ some (some pod)) × (is_pod_ready pod ≡ true)
all_pods_ready-lem [] i e h = absurd (omega arith)
all_pods_ready-lem (none ∷ ps) i e h = unfold all_pods_ready in cc
all_pods_ready-lem (some pod ∷ ps) zero e h = (pod, refl, (all_pods_ready-cons pod ps e).0)
all_pods_ready-lem (some pod ∷ ps) (suc i) e h =
    all_pods_ready-lem ps i (all_pods_ready-cons pod ps e).1 (omega arith)

module _ (ss : StatusSet) (g : IsGathered ss) where
  healthy_candidates-IsTarget :
      (cs : List ℕ) → all_pods_ready ss.pods ≡ ok true → All (IsSound ss) cs → All (IsTarget ss) cs
  healthy_candidates-IsTarget cs ready h =
      All-imp (IsSound ss) (IsTarget ss) cs
        (λ i s. (
          s,
          all_pods_ready-lem ss.pods i ready
              (let b = lt-get_elem? ss.mysql_status i s.2 in omega (arith, b, g)),
        ))
        h

  after_replicas-IsTarget :
      (found : Bool × List ℕ)
      → All (IsTarget ss) found.1
      → Ensures (λ r. All (IsTarget ss) r.1) (after_replicas ss found)
  unfolding after_replicas
  after_replicas-IsTarget (true, found) h =
      Ensures-bind _ (primary_status ss) _ λ pst e. Ensures-pure _ h
  after_replicas-IsTarget (false, found) h = Ensures-pure _ h

  healthy_instances-IsTarget :
      all_pods_ready ss.pods ≡ ok true → Ensures (λ r. All (IsTarget ss) r.1) (healthy_instances ss)
  unfolding healthy_instances
  healthy_instances-IsTarget ready =
      let none_yet : All (IsSound ss) ss.candidates = rw g.no_candidate tt in
      after_replicas-IsTarget _ (
        healthy_candidates-IsTarget _ ready (
          healthy_replicas-IsSound ss 0 ss.mysql_status ss.candidates
            (StandsAt-refl ss.mysql_status) none_yet))

  is_healthy-IsTarget : Ensures (λ r. All (IsTarget ss) r.1) (is_healthy ss)
  unfolding is_healthy
  is_healthy-IsTarget = Ensures-bind _ (all_pods_ready ss.pods) _ λ ready e.
      Ensures-if _ ready _ _ (λ r. healthy_instances-IsTarget (rw r at e))
        (λ r. Ensures-pure _ (rw g.no_candidate tt))

  degraded_instances-IsTarget :
      (cs : List ℕ)
      → All (IsTarget ss) cs
      → Ensures (λ r. All (IsTarget ss) r.1) (degraded_instances (record ss { candidates = cs }))
  unfolding degraded_instances
  degraded_instances-IsTarget cs h =
      let t : StatusSet = record ss { candidates = cs } in
      Ensures-bind _ (primary_status t) _ λ pst e.
        Ensures-if _ (degraded_primary t pst) _ _
          (λ b. Ensures-bind _ _ _ λ r er. Ensures-pure _ (
            degraded_replicas-IsTarget (record ss { candidates = cs }) 0 ss.mysql_status 0 cs
              (StandsAt-refl ss.mysql_status) h r er))
          (λ b. Ensures-pure _ h)

  is_degraded-IsTarget :
      (cs : List ℕ)
      → All (IsTarget ss) cs
      → Ensures (λ r. All (IsTarget ss) r.1) (is_degraded (record ss { candidates = cs }))
  unfolding is_degraded
  is_degraded-IsTarget cs h =
      Ensures-bind _ (pod_at (record ss { candidates = cs }) ss.primary) _ λ ppod e.
        Ensures-if _ (is_pod_ready ppod && not (lost_data (record ss { candidates = cs }))) _ _
          (λ b. degraded_instances-IsTarget cs h) (λ b. Ensures-pure _ h)

  decide-IsTarget : (s : StatusSet) → Decided ss s → All (IsTarget ss) s.candidates
  decide-IsTarget s (as_offline off e) = rw (e, g.no_candidate) tt
  decide-IsTarget s (as_cloning on c e) = rw (e, g.no_candidate) tt
  decide-IsTarget s (as_restoring on c r e) = rw (e, g.no_candidate) tt
  decide-IsTarget s (as_up on c r (as_healthy cs h e)) = rw e (is_healthy-IsTarget (true, cs) h)
  decide-IsTarget s (as_up on c r (as_degraded cs more h d e)) =
      rw e (is_degraded-IsTarget cs (is_healthy-IsTarget (false, cs) h) (true, more) d)
  decide-IsTarget s (as_up on c r (as_down cs more st h d w e)) =
      rw e (is_degraded-IsTarget cs (is_healthy-IsTarget (false, cs) h) (false, more) d)

-- `decide` leaves `need_switch` alone.
keeps_need_switch :
    {ss s : StatusSet} → Decided ss s → ss.need_switch ≡ false → s.need_switch ≡ false
keeps_need_switch (as_offline off e) h = rw e h
keeps_need_switch (as_cloning on c e) h = rw e h
keeps_need_switch (as_restoring on c r e) h = rw e h
keeps_need_switch (as_up on c r (as_healthy cs hh e)) h = rw e h
keeps_need_switch (as_up on c r (as_degraded cs more hh d e)) h = rw e h
keeps_need_switch (as_up on c r (as_down cs more st hh d w e)) h = rw e h

choose_target-lem :
    (P : ℕ → Type 0) (s : StatusSet) (cs : List ℕ)
    → All P cs
    → IsSorted cs
    → s.need_switch ≡ false
    → Ensures
        (λ t. t.need_switch ≡ true → P t.candidate × All (λ c. t.candidate ≤ c) t.candidates)
        (choose_target s cs)
unfolding choose_target
choose_target-lem P s [] h sorted off t e = rw (← ok-injective e) (λ on. cc)
choose_target-lem P s (c ∷ cs) h sorted off t e =
    let (pod, ep, e') = >>=-eq-ok (pod_at s s.primary) _ e in
    rw (← ok-injective e') (λ on. (h.0, (omega arith, sorted.0)))

-- If `DecideState` asks for a switchover on a set as `GatherStatus` builds it, where none was asked for
-- before, then the chosen candidate is another instance than the primary, which is live, without errant transactions,
-- super-read-only and replicating from the primary's host, its Pod is ready, and no candidate has
-- a lower ordinal.
pub switchover-IsTarget :
    (ss t : StatusSet)
    → IsGathered ss
    → ss.need_switch ≡ false
    → decide_state ss ≡ ok t
    → t.need_switch ≡ true
    → IsTarget ss t.candidate × All (λ c. t.candidate ≤ c) t.candidates
unfolding decide_state
switchover-IsTarget ss t g off e on =
    let (s, es, et) = >>=-eq-ok (decide ss) _ e in
    let d = decide-cases ss s es in
    choose_target-lem (IsTarget ss) s (sort_ints s.candidates)
      (All-sort_ints (IsTarget ss) s.candidates (decide-IsTarget ss g s d))
      (sort_ints-IsSorted s.candidates) (keeps_need_switch d off) t et on
