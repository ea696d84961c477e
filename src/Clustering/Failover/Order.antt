-- ===== src/Clustering/Failover/Order.antt =====
-- What has happened before `failover` records the new primary (clustering/operations.go).
use moco.Prelude.{
  ℕ, suc, ◌≡◌, refl, String, ◌||◌, ◌=?◌, =?_iff, Option, none, some, List, [], ◌∷◌, ◌⊎◌, inl, inr,
  deref, deref-eq-ok, get_elem?, AllFrom, AllFrom-imp, AllFrom-get_elem?,
}
use moco.Dbop.Types.{MySqlInstanceStatus, ReplicaStatus}
use moco.Dbop.TopRunner.{find_top_runner}
use moco.Dbop.TopRunner.Footprint.{Only-find_top_runner}
use moco.Effects.{
  Env, Trace, Entry, Call, Reply, value, failure, record_reply, status, update_cluster, get_status,
  is_subset_gtid, wait_for_gtid, stop_replica_io_thread, count_metric,
}
use moco.Effects.Triple.{
  After, After-trace, Triple, done, Triple-pure, Triple-if, Triple-bind, Triple-weaken,
  Triple-lift_bind, Triple-command,
}
use moco.Effects.Order.{
  Mark, Contains, is, Justified, Kept, Triple-relax, Triple-panic, order-command, order-note,
  order-modify_cluster,
}
use moco.Clustering.StatusSet.{StatusSet}
use moco.Clustering.Switchover.{set_primary, with_primary, timeout_seconds}
use moco.Clustering.Failover.{
  stop_replica, stop_replicas, recheck, recheck_all, last_index, promote, failover,
}

-- The IO thread of a live replica has been stopped.
abbrev pub StoppedAt : StatusSet → Trace → ℕ → Option MySqlInstanceStatus → Type 0
StoppedAt ss old i none = Unit
StoppedAt ss old i (some _) =
    (i ≡ ss.primary) ⊎ Contains (is (done (stop_replica_io_thread i)) ∷ []) old

abbrev pub AllStopped : StatusSet → Trace → Type 0
AllStopped ss old = AllFrom (StoppedAt ss old) 0 ss.mysql_status

-- The status of instance `i` is `st`, read when no live replica received transactions any more.
abbrev pub rechecked : Env → StatusSet → ℕ → MySqlInstanceStatus → Mark
rechecked env ss i st e old =
    (e ≡ done (get_status i)) × (env.status_of old i ≡ value st) × AllStopped ss old

-- Instance `i` has executed the transactions that it had retrieved.
abbrev pub HasCaughtUp : Env → StatusSet → ℕ → Trace → Type 0
HasCaughtUp env ss i old =
    (st : MySqlInstanceStatus) × (repl : ReplicaStatus) × (st.replica_status ≡ some repl)
    × Contains
        (is (done (wait_for_gtid i repl.retrieved_gtid_set timeout_seconds))
          ∷ rechecked env ss i st
          ∷ [])
        old

-- A write of a cluster names an instance that has caught up; no other call is restricted.
abbrev pub AfterCatchUp : Env → StatusSet → Call → Trace → Type 0
AfterCatchUp env ss (update_cluster c) old = HasCaughtUp env ss c.status.current_primary_index old
AfterCatchUp env ss _ old = Unit

module _ (env : Env) (ss : StatusSet) where
  abbrev J : Call → Trace → Type 0
  J = AfterCatchUp env ss

  abbrev X : Trace → Type 0
  X tr = Justified J tr

  -- What later calls keep.
  IsLasting : (Trace → Type 0) → Type 0
  IsLasting F = (e : Entry) (tr : Trace) → F tr → F (e ∷ tr)

  abbrev Known : Trace → ℕ → Option MySqlInstanceStatus → Type 0
  Known tr i none = Unit
  Known tr i (some st) = Contains (rechecked env ss i st ∷ []) tr

  StoppedAt-IsLasting :
      (i : ℕ) (o : Option MySqlInstanceStatus) → IsLasting (λ tr. StoppedAt ss tr i o)
  unfolding IsLasting
  StoppedAt-IsLasting i none e tr h = h
  StoppedAt-IsLasting i (some st) e tr (inl h) = inl h
  StoppedAt-IsLasting i (some st) e tr (inr h) = inr (inr h)

  Known-IsLasting : (i : ℕ) (o : Option MySqlInstanceStatus) → IsLasting (λ tr. Known tr i o)
  unfolding IsLasting
  Known-IsLasting i none e tr h = h
  Known-IsLasting i (some st) e tr h = inr h

  ×-IsLasting : (F G : Trace → Type 0) → IsLasting F → IsLasting G → IsLasting (λ tr. F tr × G tr)
  unfolding IsLasting
  ×-IsLasting F G f g e tr h = (f e tr h.0, g e tr h.1)

  module _ (F : Trace → Type 0) (lasting : IsLasting F) where
    order-stop_replica :
        (i : ℕ) (o : Option MySqlInstanceStatus)
        → Triple
            (λ tr. X tr × F tr)
            (stop_replica env ss.primary i o)
            (λ _ tr. X tr × (F tr × StoppedAt ss tr i o))
            X
            X
    unfolding stop_replica IsLasting
    order-stop_replica i none = Triple-pure (λ tr h. (h.0, (h.1, tt)))
    order-stop_replica i (some st) =
        Triple-if (i =? ss.primary)
          (λ e. Triple-pure (λ tr h. (h.0, (h.1, inl ((=?_iff i ss.primary).0 e)))))
          (λ e.
            Triple-command env (stop_replica_io_thread i)
              (λ tr h. ((tt, h.0), (lasting _ tr h.1, inr (inl (refl, tt))))) (λ tr h. (tt, h.0)))

    fresh-After :
        (i : ℕ) (tr : Trace) (r : Reply MySqlInstanceStatus)
        → env.status_of tr i ≡ r
        → X tr × F tr
        → AllStopped ss tr
        → After
            (λ st tr'. X tr' × (F tr' × Known tr' i (some st)))
            X
            X
            (record_reply (get_status i) r tr)
    unfolding IsLasting
    fresh-After i tr (value st) e h s = ((tt, h.0), (lasting _ tr h.1, inl ((refl, e, s), tt)))
    fresh-After i tr (failure x) e h s = (tt, h.0)

    order-recheck :
        (i : ℕ) (o : Option MySqlInstanceStatus)
        → ((tr : Trace) → F tr → AllStopped ss tr)
        → Triple
            (λ tr. X tr × F tr)
            (recheck env ss.primary i o)
            (λ slot tr. X tr × (F tr × Known tr i slot))
            X
            X
    unfolding recheck status
    order-recheck i none s = Triple-pure (λ tr h. (h.0, (h.1, tt)))
    order-recheck i (some st) s =
        Triple-if ((i =? ss.primary) || st.is_errant) (λ e. Triple-pure (λ tr h. (h.0, (h.1, tt))))
          (λ e.
            Triple-bind {R = λ new tr. X tr × (F tr × Known tr i (some new))}
              (record { run = λ tr h. fresh-After i tr (env.status_of tr i) refl h (s tr h.1) })
              λ new. Triple-pure (λ tr h. h))

  order-stop_replicas :
      (i : ℕ) (rest : List (Option MySqlInstanceStatus)) (F : Trace → Type 0)
      → IsLasting F
      → Triple
          (λ tr. X tr × F tr)
          (stop_replicas env ss.primary i rest)
          (λ _ tr. X tr × (F tr × AllFrom (StoppedAt ss tr) i rest))
          X
          X
  unfolding stop_replicas
  order-stop_replicas i [] F lasting = Triple-pure (λ tr h. (h.0, (h.1, tt)))
  order-stop_replicas i (o ∷ rest) F lasting =
      Triple-bind {R = λ _ tr. X tr × (F tr × StoppedAt ss tr i o)}
        (order-stop_replica F lasting i o)
        λ _.
          Triple-relax (λ _ tr h. (h.0, (h.1.0.0, (h.1.0.1, h.1.1)))) (λ tr h. h)
            (order-stop_replicas (suc i) rest (λ tr. F tr × StoppedAt ss tr i o)
              (×-IsLasting F _ lasting (StoppedAt-IsLasting i o)))

  order-recheck_all :
      (i : ℕ) (rest : List (Option MySqlInstanceStatus)) (F : Trace → Type 0)
      → IsLasting F
      → ((tr : Trace) → F tr → AllStopped ss tr)
      → Triple
          (λ tr. X tr × F tr)
          (recheck_all env ss.primary i rest)
          (λ slots tr. X tr × (F tr × AllFrom (Known tr) i slots))
          X
          X
  unfolding recheck_all
  order-recheck_all i [] F lasting s = Triple-pure (λ tr h. (h.0, (h.1, tt)))
  order-recheck_all i (o ∷ rest) F lasting s =
      Triple-bind {R = λ slot tr. X tr × (F tr × Known tr i slot)} (order-recheck F lasting i o s)
        λ slot.
          Triple-bind
            {R = λ slots tr. X tr × ((F tr × Known tr i slot) × AllFrom (Known tr) (suc i) slots)}
            (order-recheck_all (suc i) rest (λ tr. F tr × Known tr i slot)
              (×-IsLasting F _ lasting (Known-IsLasting i slot)) (λ tr h. s tr h.0))
            λ slots. Triple-pure (λ tr h. (h.0, (h.1.0.0, (h.1.0.1, h.1.1))))

  Asks : Call → Type 0
  Asks c = (k : ℕ) × (s : String) × (t : String) × (c ≡ is_subset_gtid k s t)

  Asks-J : (c : Call) (tr : Trace) → Asks c → J c tr
  unfolding Asks
  Asks-J c tr (k, s, t, e) = rw e tt

  order-choose :
      (op : Option ℕ) (slots : List (Option MySqlInstanceStatus))
      → Triple
          (λ tr. X tr × AllFrom (Known tr) 0 slots)
          (find_top_runner env op slots)
          (λ _ tr. X tr × AllFrom (Known tr) 0 slots)
          X
          X
  unfolding Asks IsLasting
  order-choose op slots =
      Triple-relax (λ _ tr h. h) (λ tr h. h.0)
        (Triple-panic (λ tr h. h.0)
          ((Only-find_top_runner env Asks op (λ k e s t. (k, s, t, refl)) slots).kept
            (λ tr. X tr × AllFrom (Known tr) 0 slots)
            (λ e a tr h. (
              (Asks-J e.call tr a, h.0),
              AllFrom-imp (Known tr) (Known (e ∷ tr)) 0 slots (λ j o. Known-IsLasting j o e tr) h.1,
            ))))

  Known-some :
      (i : ℕ) (slot : Option MySqlInstanceStatus) (st : MySqlInstanceStatus)
      → slot ≡ some st
      → (tr : Trace) → Known tr i slot
      → Contains (rechecked env ss i st ∷ []) tr
  Known-some i none st e tr h = cc
  Known-some i (some st') st e tr h = let e' : st' ≡ st = cc in rw (← e') h

  order-promote :
      (i : ℕ) (slot : Option MySqlInstanceStatus)
      → Triple (λ tr. X tr × Known tr i slot) (promote env i slot) (λ _. X) X X
  unfolding promote set_primary
  order-promote i slot =
      Triple-lift_bind (deref slot)
        (λ st e.
          let fresh = rechecked env ss i st ∷ [] in
          Triple-weaken {P' = Kept J fresh}
            (λ tr h. (h.0, Known-some i slot st (deref-eq-ok slot e) tr h.1))
            (Triple-lift_bind (deref st.replica_status)
              (λ repl er.
                let waited =
                  is (done (wait_for_gtid i repl.retrieved_gtid_set timeout_seconds)) ∷ fresh in
                Triple-bind {R = λ _. Kept J waited}
                  (order-command J X env fresh
                    (wait_for_gtid i repl.retrieved_gtid_set timeout_seconds) (λ tr k. tt))
                  λ _.
                    Triple-bind {R = λ _. Kept J waited}
                      (order-modify_cluster J X env waited (with_primary i) (λ tr k. tt)
                        (λ c tr k. (st, repl, deref-eq-ok st.replica_status er, k)))
                      λ _.
                        Triple-bind {R = λ _. Kept J waited}
                          (order-note J X env waited (count_metric "failover") (λ tr k. tt))
                          λ _. Triple-pure (λ tr k. k.0))
              (λ tr h. h.0) (λ tr h. h.0)))
        (λ tr h. h.0) (λ tr h. h.0)

  failover_triple : Triple X (failover env ss) (λ _. X) X X
  unfolding failover IsLasting
  failover_triple =
      Triple-bind {R = λ _ tr. X tr × AllStopped ss tr}
        (Triple-weaken (λ tr h. (h, tt))
          (Triple-relax (λ _ tr h. (h.0, h.1.1)) (λ tr h. h)
            (order-stop_replicas 0 ss.mysql_status (λ _. Unit) (λ e tr h. h))))
        λ _.
          Triple-bind {R = λ slots tr. X tr × AllFrom (Known tr) 0 slots}
            (Triple-relax (λ _ tr h. (h.0, h.1.1)) (λ tr h. h)
              (order-recheck_all 0 ss.mysql_status (AllStopped ss)
                (λ e tr h.
                  AllFrom-imp (StoppedAt ss tr) (StoppedAt ss (e ∷ tr)) 0 ss.mysql_status
                    (λ j o. StoppedAt-IsLasting j o e tr) h)
                (λ tr h. h)))
            λ slots.
              Triple-bind {R = λ _ tr. X tr × AllFrom (Known tr) 0 slots}
                (order-choose (last_index env 0 slots none) slots)
                λ i.
                  Triple-lift_bind (deref (get_elem? slots i))
                    (λ slot e.
                      Triple-weaken
                        (λ tr h. (h.0, AllFrom-get_elem? (Known tr) slots i h.1 (deref-eq-ok _ e)))
                        (order-promote i slot))
                    (λ tr h. h.0) (λ tr h. h.0)

-- However the calls end: before each write of the cluster, and so before a new primary is recorded,
-- the IO thread of every live replica has been stopped, then the status of the instance that the
-- write names has been read again, then this instance has executed all transactions that this status
-- names as retrieved; all these calls have succeeded.
pub failover_catches_up :
    (env : Env) (ss : StatusSet) → Justified (AfterCatchUp env ss) (failover env ss []).1
failover_catches_up env ss = After-trace _ (failover env ss []) ((failover_triple env ss).run [] tt)
