-- ===== src/Clustering/Failover/Footprint.antt =====
-- Which calls `failover` may make, whatever they return (clustering/operations.go).
use moco.Prelude.{
  ℕ, suc, ◌≡◌, ◌≢◌, refl, true, ◌||◌, ◌=?◌, =?_false, Option, none, some, List, [], ◌∷◌, deref,
  deref-eq-ok, get_elem?, is_some, AllFrom, AllFrom-get_elem?, StandsAt, StandsAt-refl, ||_false,
}
use moco.Dbop.Types.{MySqlInstanceStatus}
use moco.Dbop.TopRunner.{find_top_runner}
use moco.Dbop.TopRunner.Footprint.{Only-find_top_runner}
use moco.Effects.{
  Env, Call, read_cluster, update_cluster, get_status, is_subset_gtid, wait_for_gtid,
  stop_replica_io_thread, emit_event, count_metric,
}
use moco.Effects.Only.{
  OnlyCalls, Only-calls, Only, OnlyWith, Only-pure, Only-if-known, Only-lift, Only-lift_bind,
  Only-bind, Only-command, Only-note, Only-status, OnlyWith-pure, OnlyWith-if, OnlyWith-Only,
  OnlyWith-bind, Only-with,
}
use moco.Clustering.StatusSet.{StatusSet}
use moco.Clustering.Configure.Footprint.{IsCleanReplica}
use moco.Clustering.Switchover.Footprint.{Only-set_primary}
use moco.Clustering.Failover.{
  stop_replica, stop_replicas, recheck, recheck_all, last_index, promote, failover,
}

abbrev pub IsLive : StatusSet → ℕ → Type 0
IsLive ss i = (ist : MySqlInstanceStatus) × (get_elem? ss.mysql_status i ≡ some (some ist))

-- A cluster that is written names a replica as its primary that was up, without errant transactions.
abbrev pub FailoverMay : StatusSet → Call → Type 0
FailoverMay ss (stop_replica_io_thread i) = (i ≢ ss.primary) × IsLive ss i
FailoverMay ss (get_status i) = IsCleanReplica ss i
FailoverMay ss (is_subset_gtid i s t) = IsCleanReplica ss i
FailoverMay ss (wait_for_gtid i g t) = IsCleanReplica ss i
FailoverMay ss read_cluster = Unit
FailoverMay ss (update_cluster c) = IsCleanReplica ss c.status.current_primary_index
FailoverMay ss (count_metric s) = Unit
FailoverMay ss (emit_event s) = Unit
FailoverMay ss _ = ⊥

-- A slot of `candidates` that is not nil belongs to a clean replica.
abbrev pub IsCandidateSlot : StatusSet → ℕ → Option MySqlInstanceStatus → Type 0
IsCandidateSlot ss i o = is_some o ≡ true → IsCleanReplica ss i

module _ (env : Env) (ss : StatusSet) where
  Only-stop_replica :
      (i : ℕ) (o : Option MySqlInstanceStatus)
      → get_elem? ss.mysql_status i ≡ some o
      → Only (FailoverMay ss) (stop_replica env ss.primary i o)
  unfolding stop_replica
  Only-stop_replica i none at = Only-pure tt
  Only-stop_replica i (some ist) at =
      Only-if-known (i =? ss.primary) (λ e. Only-pure tt)
        (λ e. Only-command env (stop_replica_io_thread i) (=?_false i ss.primary e, (ist, at)))

  Only-stop_replicas :
      (i : ℕ) (rest : List (Option MySqlInstanceStatus))
      → StandsAt ss.mysql_status i rest
      → Only (FailoverMay ss) (stop_replicas env ss.primary i rest)
  unfolding stop_replicas
  Only-stop_replicas i [] h = Only-pure tt
  Only-stop_replicas i (o ∷ rest) h =
      Only-bind (Only-stop_replica i o h.0) λ _. Only-stop_replicas (suc i) rest h.1

  with-recheck :
      (i : ℕ) (o : Option MySqlInstanceStatus)
      → get_elem? ss.mysql_status i ≡ some o
      → OnlyWith (FailoverMay ss) (IsCandidateSlot ss i) (recheck env ss.primary i o)
  unfolding recheck
  with-recheck i none at = OnlyWith-pure none (λ e. cc)
  with-recheck i (some ist) at =
      OnlyWith-if ((i =? ss.primary) || ist.is_errant) (λ e. OnlyWith-pure none (λ e. cc))
        (λ e.
          let c : IsCleanReplica ss i = (
            =?_false i ss.primary (||_false (i =? ss.primary) ist.is_errant e).0,
            (ist, at, (||_false (i =? ss.primary) ist.is_errant e).1),
          ) in
          Only-with (Only-status env i c) (λ new. OnlyWith-pure (some new) (λ _. c)))

  with-recheck_all :
      (i : ℕ) (rest : List (Option MySqlInstanceStatus))
      → StandsAt ss.mysql_status i rest
      → OnlyWith
          (FailoverMay ss)
          (AllFrom (IsCandidateSlot ss) i)
          (recheck_all env ss.primary i rest)
  unfolding recheck_all
  with-recheck_all i [] h = OnlyWith-pure [] tt
  with-recheck_all i (o ∷ rest) h = OnlyWith-bind (with-recheck i o h.0) λ slot hs.
      OnlyWith-bind (with-recheck_all (suc i) rest h.1)
        λ slots ht. OnlyWith-pure (slot ∷ slots) (hs, ht)

  IsCleanOperator : Option ℕ → Type 0
  IsCleanOperator op = (i : ℕ) → op ≡ some i → IsCleanReplica ss i

  clean_none : IsCleanOperator none
  unfolding IsCleanOperator
  clean_none i e = cc

  last_index-IsCandidate :
      (i : ℕ) (slots : List (Option MySqlInstanceStatus)) (op : Option ℕ)
      → AllFrom (IsCandidateSlot ss) i slots
      → IsCleanOperator op
      → IsCleanOperator (last_index env i slots op)
  unfolding last_index IsCleanOperator
  last_index-IsCandidate i [] op h ho = ho
  last_index-IsCandidate i (none ∷ rest) op h ho = last_index-IsCandidate (suc i) rest op h.1 ho
  last_index-IsCandidate i (some st ∷ rest) op h ho =
      last_index-IsCandidate (suc i) rest (some i) h.1
        (λ j e. let e' : i ≡ j = cc in rw (← e') (h.0 refl))

  Only-choose :
      (op : Option ℕ) (slots : List (Option MySqlInstanceStatus))
      → IsCleanOperator op
      → Only (FailoverMay ss) (find_top_runner env op slots)
  unfolding IsCleanOperator
  Only-choose op slots clean =
      Only-find_top_runner env (FailoverMay ss) op (λ k e s t. clean k e) slots

  Only-promote :
      (i : ℕ) (slot : Option MySqlInstanceStatus)
      → IsCandidateSlot ss i slot
      → Only (FailoverMay ss) (promote env i slot)
  unfolding promote
  Only-promote i slot h = Only-lift_bind (deref slot) λ st e.
      let c : IsCleanReplica ss i = h (rw (deref-eq-ok slot e) refl) in
      Only-bind (Only-lift _) λ repl. Only-bind (Only-command env (wait_for_gtid i _ _) c) λ _.
        Only-bind (Only-set_primary env i tt (λ _. c))
          λ _. Only-bind (Only-note env (count_metric "failover") tt) λ _. Only-pure i

  pub failover-Only : Only (FailoverMay ss) (failover env ss)
  unfolding failover
  failover-Only =
      Only-bind (Only-stop_replicas 0 ss.mysql_status (StandsAt-refl ss.mysql_status)) λ _.
        OnlyWith-Only (with-recheck_all 0 ss.mysql_status (StandsAt-refl ss.mysql_status))
          λ slots h.
            Only-bind
              (Only-choose (last_index env 0 slots none) slots
                (last_index-IsCandidate 0 slots none h clean_none))
              λ i. Only-lift_bind (deref (get_elem? slots i)) λ slot e.
                Only-promote i slot
                  (AllFrom-get_elem? (IsCandidateSlot ss) slots i h (deref-eq-ok _ e))

-- Only live replicas are stopped, and the instance that becomes the primary is a replica that was
-- up and without errant transactions.
pub failover_calls :
    (env : Env) (ss : StatusSet) → OnlyCalls (FailoverMay ss) (failover env ss []).1
failover_calls env ss = Only-calls (failover env ss) (failover-Only env ss)
