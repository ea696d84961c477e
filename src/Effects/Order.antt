-- ===== src/Effects/Order.antt =====
-- The order of the calls: what stands in a trace before a call of some kind.
use moco.Prelude.{ℕ, ◌≡◌, refl, ◌⊎◌, inl, inr, List, [], ◌∷◌, Outcome, ok, err, panic}
use moco.Api.Cluster.{MySqlCluster}
use moco.Dbop.Types.{MySqlInstanceStatus}
use moco.Effects.{
  Call, Entry, Trace, Reply, value, failure, Env, M, command, note, status, cluster, modify_cluster,
  get_status, read_cluster, update_cluster, retry_on_conflict, record_reply,
}
use moco.Effects.Triple.{
  After, Triple, done, failed, Triple-bind, Triple-command, Triple-note, Triple-reply,
  Triple-retry_on_conflict,
}
use moco.Effects.Only.{Only}

-- What is looked for: an entry, in view of the calls before it.
abbrev pub Mark : Type 1
Mark = Entry → Trace → Type 0

-- The marks stand in the trace in this order, the newest first.
abbrev pub Contains : List Mark → Trace → Type 0
Contains [] tr = Unit
Contains (m ∷ ms) [] = ⊥
Contains (m ∷ ms) (e ∷ tr) = (m e tr × Contains ms tr) ⊎ Contains (m ∷ ms) tr

abbrev pub is : Entry → Mark
is e x tr = x ≡ e

-- Each call is justified by those before it.
abbrev pub Justified : (Call → Trace → Type 0) → Trace → Type 0
Justified J [] = Unit
Justified J (e ∷ tr) = J e.call tr × Justified J tr

abbrev pub Kept : (Call → Trace → Type 0) → List Mark → Trace → Type 0
Kept J ms tr = Justified J tr × Contains ms tr

pub Contains-cons :
    (ms : List Mark) (e : Entry) (tr : Trace) → Contains ms tr → Contains ms (e ∷ tr)
Contains-cons [] e tr h = tt
Contains-cons (m ∷ ms) e tr h = inr h

module _ {A : Type 0} (Q Q' : A → Trace → Type 0) (E E' X : Trace → Type 0) where
  relax-After :
      (r : Outcome A × Trace)
      → ((a : A) (tr : Trace) → Q a tr → Q' a tr)
      → ((tr : Trace) → E tr → E' tr)
      → After Q E X r
      → After Q' E' X r
  relax-After (ok a, tr) q e h = q a tr h
  relax-After (err x, tr) q e h = e tr h
  relax-After (panic, tr) q e h = h

module _ {A : Type 0} {P : Trace → Type 0} {Q Q' : A → Trace → Type 0}
    {E E' X : Trace → Type 0} where
  pub Triple-relax :
      {m : M A}
      → ((a : A) (tr : Trace) → Q a tr → Q' a tr)
      → ((tr : Trace) → E tr → E' tr)
      → Triple P m Q E X
      → Triple P m Q' E' X
  Triple-relax {m} q e t = record { run = λ tr p. relax-After Q Q' E E' X (m tr) q e (t.run tr p) }

module _ {A : Type 0} (Q : A → Trace → Type 0) (E X X' : Trace → Type 0) where
  panic-After :
      (r : Outcome A × Trace) → ((tr : Trace) → X tr → X' tr) → After Q E X r → After Q E X' r
  panic-After (ok a, tr) x h = h
  panic-After (err e, tr) x h = h
  panic-After (panic, tr) x h = x tr h

module _ {A : Type 0} {P : Trace → Type 0} {Q : A → Trace → Type 0} {E X X' : Trace → Type 0} where
  pub Triple-panic :
      {m : M A} → ((tr : Trace) → X tr → X' tr) → Triple P m Q E X → Triple P m Q E X'
  Triple-panic {m} x t = record { run = λ tr p. panic-After Q E X X' (m tr) x (t.run tr p) }

module _ (J : Call → Trace → Type 0) (X : Trace → Type 0) (env : Env) (ms : List Mark) where
  -- A command that is a mark of its own.
  pub order-command :
      (c : Call)
      → ((tr : Trace) → Contains ms tr → J c tr)
      → Triple (Kept J ms) (command env c) (λ _. Kept J (is (done c) ∷ ms)) (Justified J) X
  order-command c j =
      Triple-command env c (λ tr h. ((j tr h.1, h.0), inl (refl, h.1))) (λ tr h. (j tr h.1, h.0))

  -- A command that leaves the marks.
  pub order-keep :
      (c : Call)
      → ((tr : Trace) → Contains ms tr → J c tr)
      → Triple (Kept J ms) (command env c) (λ _. Kept J ms) (Kept J ms) X
  order-keep c j =
      Triple-command env c (λ tr h. ((j tr h.1, h.0), Contains-cons ms (done c) tr h.1))
        (λ tr h. ((j tr h.1, h.0), Contains-cons ms (failed c) tr h.1))

  pub order-note :
      (c : Call)
      → ((tr : Trace) → Contains ms tr → J c tr)
      → Triple (Kept J ms) (note c) (λ _. Kept J ms) (Justified J) X
  order-note c j = Triple-note c (λ tr h. ((j tr h.1, h.0), Contains-cons ms (done c) tr h.1))

  status-After :
      (i : ℕ) (tr : Trace) (r : Reply MySqlInstanceStatus)
      → env.status_of tr i ≡ r
      → J (get_status i) tr
      → Kept J ms tr
      → After
          (λ st.
            Kept J ((λ e old. (e ≡ done (get_status i)) × (env.status_of old i ≡ value st)) ∷ ms))
          (Justified J)
          X
          (record_reply (get_status i) r tr)
  status-After i tr (value st) e j h = ((j, h.0), inl ((refl, e), h.1))
  status-After i tr (failure x) e j h = (j, h.0)

  -- The status that is read is the one that the mark names.
  pub order-status :
      (i : ℕ)
      → ((tr : Trace) → Contains ms tr → J (get_status i) tr)
      → Triple
          (Kept J ms)
          (status env i)
          (λ st.
            Kept J ((λ e old. (e ≡ done (get_status i)) × (env.status_of old i ≡ value st)) ∷ ms))
          (Justified J)
          X
  unfolding status
  order-status i j = record {
    run = λ tr h. status-After i tr (env.status_of tr i) refl (j tr h.1) h;
  }

  pub order-modify_cluster :
      (f : MySqlCluster → MySqlCluster)
      → ((tr : Trace) → Contains ms tr → J read_cluster tr)
      → ((c : MySqlCluster) (tr : Trace) → Contains ms tr → J (update_cluster (f c)) tr)
      → Triple
          (Kept J ms)
          (retry_on_conflict env (modify_cluster env f))
          (λ _. Kept J ms)
          (Justified J)
          X
  unfolding modify_cluster cluster
  order-modify_cluster f r u =
      Triple-relax (λ _ tr h. h) (λ tr h. h.0)
        (Triple-retry_on_conflict env (λ tr h. h)
          (Triple-bind {R = λ _. Kept J ms}
            (Triple-reply read_cluster env.cluster_of
              (λ tr h c. ((r tr h.1, h.0), Contains-cons ms (done read_cluster) tr h.1))
              (λ tr h. ((r tr h.1, h.0), Contains-cons ms (failed read_cluster) tr h.1)))
            λ c. order-keep (update_cluster (f c)) (u c)))

module _ (J : Call → Trace → Type 0) {A : Type 0} where
  -- Calls that need no justification keep the marks.
  pub order-free :
      (ms : List Mark) {m : M A}
      → Only (λ c. (tr : Trace) → J c tr) m
      → Triple (Kept J ms) m (λ _. Kept J ms) (Justified J) (Justified J)
  order-free ms h =
      Triple-panic (λ tr k. k.0)
        (Triple-relax (λ a tr k. k) (λ tr k. k.0)
          (h.kept (Kept J ms) (λ e f tr k. ((f tr, k.0), Contains-cons ms e tr k.1))))

  pub order-start :
      {m : M A}
      → Only (λ c. (tr : Trace) → J c tr) m
      → Triple (Justified J) m (λ _. Justified J) (Justified J) (Justified J)
  order-start h = h.kept (Justified J) (λ e f tr k. (f tr, k))
