-- ===== src/Clustering/Decide/State.antt =====
-- The meaning of the state that `DecideState` decides (clustering/status.go).
use moco.Prelude.{
  ℕ, suc, ◌≡◌, refl, sym, ap, true, Option, none, some, List, [], ◌∷◌, ok, >>=-eq-ok, ok-injective,
  &&_true, not-true, false, All, All-imp,
}
use moco.Dbop.Types.{MySqlInstanceStatus}
use moco.Clustering.StatusSet.{
  ClusterState, undecided, incomplete, healthy, cloning, restoring, degraded, failed, lost, offline,
  StatusSet, lost_data,
}
use moco.Clustering.Decide.{
  primary_gone, pod_at, is_restoring, is_cloning, is_healthy, is_degraded, decide, choose_target,
  decide_state,
}
use moco.Clustering.Decide.Cases.{
  as_healthy, as_degraded, as_down, Decided, as_offline, as_cloning, as_restoring, as_up,
  decide-cases,
}
use moco.Clustering.Decide.Reading.{Reading, count_sound}
use moco.Clustering.Decide.Reading.Down.{
  is_cloning-Reading, decide_down-Reading, IsDown, decide_down-IsDown,
}
use moco.Clustering.Decide.Reading.Complete.{
  is_healthy-true, is_degraded-true, is_cloning-true, is_restoring-true, lost-not_failed,
  incomplete-not_gone,
}
use moco.Clustering.Decide.Meaning.{before, Meaning, Describes}
use moco.Clustering.Decide.Meaning.Read.{Reading-Meaning, Meaning-Reading}
use moco.Clustering.Decide.Reading.Healthy.{is_healthy-Reading}
use moco.Clustering.Decide.Reading.Degraded.{is_degraded-Reading}

module _ (ss : StatusSet) (cs : List ℕ) where
  count_sound-candidates :
      (i : ℕ) (rest : List (Option MySqlInstanceStatus))
      → count_sound (record ss { candidates = cs }) i rest ≡ count_sound ss i rest
  unfolding count_sound
  count_sound-candidates i [] = refl
  count_sound-candidates i (none ∷ rest) = count_sound-candidates (suc i) rest
  count_sound-candidates i (some ist ∷ rest) = rw (count_sound-candidates (suc i) rest)

  -- The meaning of a state does not turn on the candidates.
  Reading-candidates :
      (st : ClusterState) → Reading (record ss { candidates = cs }) st → Reading ss st
  unfolding primary_gone lost_data
  Reading-candidates undecided m = m
  Reading-candidates incomplete m = m
  Reading-candidates healthy m = m
  Reading-candidates cloning m = m
  Reading-candidates restoring m = m
  Reading-candidates degraded m = rw (count_sound-candidates 0 ss.mysql_status) at m
  Reading-candidates failed m = m
  Reading-candidates lost m = m
  Reading-candidates offline m = m

is_restoring-Reading : (ss : StatusSet) → is_restoring ss ≡ true → Reading ss restoring
unfolding is_restoring
is_restoring-Reading ss h = let (a, b) = &&_true _ _ h in (a, not-true _ b)

-- The other way round for the state that counts.
degraded-candidates :
    (ss : StatusSet) (cs : List ℕ)
    → Reading ss degraded
    → Reading (record ss { candidates = cs }) degraded
unfolding lost_data
degraded-candidates ss cs m = rw (count_sound-candidates ss cs 0 ss.mysql_status) m

abbrev Excluded : StatusSet → List ClusterState → Type 0
Excluded ss l = All (λ st. Reading ss st → ⊥) l

module _ (ss : StatusSet) where
  not_offline : ss.cluster.spec.offline ≡ false → Reading ss offline → ⊥
  not_offline on h = cc

  not_cloning : is_cloning ss ≡ ok false → Reading ss cloning → ⊥
  not_cloning c h = let k = is_cloning-true ss false h c in cc

  not_restoring : is_restoring ss ≡ false → Reading ss restoring → ⊥
  not_restoring r h = let k = is_restoring-true ss h in cc

  not_healthy : (cs : List ℕ) → is_healthy ss ≡ ok (false, cs) → Reading ss healthy → ⊥
  not_healthy cs e h = let k : false ≡ true = is_healthy-true ss (false, cs) h e in cc

  not_degraded :
      (cs more : List ℕ)
      → is_degraded (record ss { candidates = cs }) ≡ ok (false, more)
      → Reading ss degraded
      → ⊥
  not_degraded cs more e h =
      let k : false ≡ true =
        is_degraded-true (record ss { candidates = cs }) (false, more) (degraded-candidates ss cs h)
          e in
      cc

  Excluded-down :
      (st : ClusterState)
      → IsDown ss st
      → Reading ss st
      → Excluded ss (offline ∷ cloning ∷ restoring ∷ healthy ∷ degraded ∷ [])
      → Excluded ss (before st)
  Excluded-down failed d r h = h
  Excluded-down lost d r (o, (c, (re, (h, (de, u))))) =
      (o, (c, (re, (h, (de, (lost-not_failed ss r, u))))))
  Excluded-down incomplete d r (o, (c, (re, (h, (de, u))))) = (
    o,
    (
      c,
      (re, (h, (de, (λ f. incomplete-not_gone ss r f.0, (λ f. incomplete-not_gone ss r f.0, u))))),
    ),
  )
  Excluded-down undecided d r h = elim d [ ]
  Excluded-down healthy d r h = elim d [ ]
  Excluded-down cloning d r h = elim d [ ]
  Excluded-down restoring d r h = elim d [ ]
  Excluded-down degraded d r h = elim d [ ]
  Excluded-down offline d r h = elim d [ ]

-- The state has its reading, and the states before it have not.
abbrev pub Decides : StatusSet → ClusterState → Type 0
Decides ss st = Reading ss st × Excluded ss (before st)

decide-Decides : (ss s : StatusSet) → Decided ss s → Decides ss s.state
decide-Decides ss s (as_offline off e) = rw e (off, tt)
decide-Decides ss s (as_cloning on c e) = rw e (is_cloning-Reading ss c, (not_offline ss on, tt))
decide-Decides ss s (as_restoring on c r e) =
    rw e (is_restoring-Reading ss r, (not_offline ss on, (not_cloning ss c, tt)))
decide-Decides ss s (as_up on c r (as_healthy cs h e)) =
    rw e (
      is_healthy-Reading ss cs h,
      (not_offline ss on, (not_cloning ss c, (not_restoring ss r, tt))),
    )
decide-Decides ss s (as_up on c r (as_degraded cs more h d e)) = rw e (
  Reading-candidates ss cs degraded (is_degraded-Reading (record ss { candidates = cs }) more d),
  (not_offline ss on, (not_cloning ss c, (not_restoring ss r, (not_healthy ss cs h, tt)))),
)
decide-Decides ss s (as_up on c r (as_down cs more st h d w e)) =
    let m =
      Reading-candidates ss more st (decide_down-Reading (record ss { candidates = more }) st w) in
    rw e (
      m,
      Excluded-down ss st (decide_down-IsDown (record ss { candidates = more }) st w) m (
        not_offline ss on,
        (
          not_cloning ss c,
          (not_restoring ss r, (not_healthy ss cs h, (not_degraded ss cs more d, tt))),
        ),
      ),
    )

Decides-Describes : (ss : StatusSet) (st : ClusterState) → Decides ss st → Describes ss st
Decides-Describes ss st (r, x) = (
  Reading-Meaning ss st r,
  All-imp (λ e. Reading ss e → ⊥) (λ e. Meaning ss e → ⊥) (before st)
      (λ e n m. n (Meaning-Reading ss e m)) x,
)

choose_target-state :
    (s t : StatusSet) (cs : List ℕ) → choose_target s cs ≡ ok t → t.state ≡ s.state
unfolding choose_target
choose_target-state s t [] e = ap (λ x. x.state) (sym (ok-injective e))
choose_target-state s t (c ∷ cs) e =
    let (pod, ep, e') = >>=-eq-ok (pod_at s s.primary) _ e in
    ap (λ x. x.state) (sym (ok-injective e'))

pub decide_state-Decides : (ss t : StatusSet) → decide_state ss ≡ ok t → Decides ss t.state
unfolding decide_state
decide_state-Decides ss t e =
    let (s, es, et) = >>=-eq-ok (decide ss) _ e in
    rw (choose_target-state s t _ et) (decide-Decides ss s (decide-cases ss s es))

-- Where `DecideState` returns, the state that it decides is the first in the order Offline, Cloning,
-- Restoring, Healthy, Degraded, Failed, Lost, Incomplete whose meaning holds of the cluster: its
-- meaning holds, and that of no state before it does. Incomplete is thus none of the others, with a
-- primary that answers and has lost no data.
pub decide_state-Describes : (ss t : StatusSet) → decide_state ss ≡ ok t → Describes ss t.state
decide_state-Describes ss t e = Decides-Describes ss t.state (decide_state-Decides ss t e)
