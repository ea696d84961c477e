-- ===== src/Clustering/Configure/Footprint.antt =====
-- Which calls `configure` may make, and of which instances, whatever the calls return
-- (clustering/operations.go; docs/clustering.md, "Invariants").
use moco.Prelude.{
  ℕ, suc, ◌/◌, ◌≡◌, ◌≢◌, refl, String, Bool, true, false, not, ◌||◌, Option, none, some, List, [],
  ◌∷◌, ◌⊎◌, inl, inr, ◌=?◌, =?_false, deref, deref-eq-ok, ok-injective, >>=-eq-ok, Outcome, ok, err,
  panic, is_some, get_elem?, All, StandsAt, StandsAt-refl, Bool-cases, if◌then◌else◌, contains,
  ◌==◌,
}
use moco.Prelude.Dict.{value_of}
use moco.Dbop.Types.{MySqlInstanceStatus}
use moco.Effects.{
  Env, Call, Trace, ◌>>=◌, note, read_secret, patch_pod, get_status, subtract_gtid, set_read_only,
  kill_connections, wait_for_gtid, stop_replica_io_thread, configure_replica, configure_primary,
  connect_agent, clone_data, emit_event,
}
use moco.Effects.Triple.{After, done}
use moco.Effects.Only.{
  Only-calls, Only, OnlyCalls, Only-pure, Only-fail, Only-if, Only-if-known, Only-lift, Only-bind,
  Only-lift_bind, Only-when, Only-command, Only-note, Only-gtid_minus, Only-secret,
  Only-wait_restart,
}
use moco.Clustering.StatusSet.{StatusSet}
use moco.Clustering.Roles.{
  is_errant_replica, drop_role, check_role, remove_role_labels, remove_role_label, give_role,
  add_role_label, role_label,
}
use moco.Clustering.Configure.Instances.{
  primary_access, donor_address, donor_request, source_access, configure_intermediate_primary,
  configure_primary_instance, clone_from_primary, or_event, isolate, freeze_replica, check_purged,
  start_replica, configure_replica_instance, io_running, retrieved,
}
use moco.Clustering.Configure.{
  alive_of, kill_all, configure_primary_from, configure_the_primary, configure_slot,
  configure_replicas, make_writable, configure,
}

-- The instance is up, and its status has no errant transaction.
abbrev pub IsClean : StatusSet → ℕ → Type 0
IsClean ss i =
    (ist : MySqlInstanceStatus) × (get_elem? ss.mysql_status i ≡ some (some ist))
    × (ist.is_errant ≡ false)

abbrev pub IsCleanReplica : StatusSet → ℕ → Type 0
IsCleanReplica ss i = (i ≢ ss.primary) × IsClean ss i

abbrev pub IsErrant : StatusSet → ℕ → Type 0
IsErrant ss i =
    (ist : MySqlInstanceStatus) × (get_elem? ss.mysql_status i ≡ some (some ist))
    × (ist.is_errant ≡ true)

-- The cluster replicates from an external source.
abbrev pub has_source : StatusSet → Bool
has_source ss = is_some ss.cluster.spec.replication_source_secret_name

abbrev pub ConfigureMay : StatusSet → Call → Type 0
ConfigureMay ss (set_read_only i true) =
    ((i ≡ ss.primary) × (has_source ss ≡ true)) ⊎ IsCleanReplica ss i
ConfigureMay ss (set_read_only i false) = (i ≡ ss.primary) × (has_source ss ≡ false)
ConfigureMay ss (kill_connections i) = IsClean ss i
ConfigureMay ss (stop_replica_io_thread i) =
    ((i ≡ ss.primary) × (has_source ss ≡ false)) ⊎ ((i ≢ ss.primary) × IsErrant ss i)
ConfigureMay ss (configure_replica i ai semisync) =
    ((i ≡ ss.primary) × (has_source ss ≡ true) × (semisync ≡ false))
    ⊎ (IsCleanReplica ss i × (ai ≡ primary_access ss) × (semisync ≡ not (has_source ss)))
ConfigureMay ss (configure_primary i n) =
    (i ≡ ss.primary) × (has_source ss ≡ false) × (n ≡ ss.cluster.spec.replicas / 2)
ConfigureMay ss (wait_for_gtid i g t) = (i ≡ ss.primary) × (has_source ss ≡ false)
ConfigureMay ss (connect_agent i) = IsCleanReplica ss i
ConfigureMay ss (clone_data i req) =
    IsCleanReplica ss i × ((addr : String) × (req ≡ donor_request ss addr))
ConfigureMay ss (subtract_gtid i s t) = IsCleanReplica ss i
ConfigureMay ss (get_status i) = IsCleanReplica ss i
ConfigureMay ss (patch_pod p q) = Unit
ConfigureMay ss (read_secret s) = Unit
ConfigureMay ss (emit_event s) = Unit
ConfigureMay ss _ = ⊥

module _ (ss : StatusSet) where
  slot-IsClean :
      (i : ℕ) (o : Option MySqlInstanceStatus) (errant : Bool)
      → get_elem? ss.mysql_status i ≡ some o
      → is_errant_replica ss i ≡ ok errant
      → (not (is_some o) || errant) ≡ false
      → IsClean ss i
  unfolding is_errant_replica
  slot-IsClean i none errant e f h = cc
  slot-IsClean i (some ist) true e f h = cc
  slot-IsClean i (some ist) false e f h = elim (Bool-cases ist.is_errant) [
    | inl t ↦
        let g : ok (ist.is_errant || contains ss.errants i) ≡ ok false = rw e at f in
        let g' : ok true ≡ ok false = rw t at g in cc
    | inr t ↦ (ist, e, t)
  ]

  keep-All :
      (i : ℕ) (rest : List ℕ) (b : Bool)
      → (b ≡ false → IsClean ss i)
      → All (IsClean ss) rest
      → All (IsClean ss) (if b then rest else i ∷ rest)
  keep-All i rest true h hs = hs
  keep-All i rest false h hs = (h refl, hs)

  alive_of-IsClean :
      (l : List ℕ) {alive : List ℕ} → alive_of ss l ≡ ok alive → All (IsClean ss) alive
  unfolding alive_of
  alive_of-IsClean [] h = rw (← ok-injective h) tt
  alive_of-IsClean (i ∷ rest) h =
      let (o, eo, h1) = >>=-eq-ok (deref (get_elem? ss.mysql_status i)) _ h in
      let (errant, ee, h2) = >>=-eq-ok (is_errant_replica ss i) _ h1 in
      let (alive', ea, h3) = >>=-eq-ok (alive_of ss rest) _ h2 in
      rw (← ok-injective h3) (
        keep-All i alive' (not (is_some o) || errant)
          (slot-IsClean i o errant (deref-eq-ok _ eo) ee) (alive_of-IsClean rest ea))

module _ (env : Env) (ss : StatusSet) where
  Only-drop_role : (pod : _) → Only (ConfigureMay ss) (drop_role env pod)
  unfolding drop_role
  Only-drop_role pod = Only-command env _ tt

  Only-check_role : (i : ℕ) (pod : _) → Only (ConfigureMay ss) (check_role env ss i pod)
  unfolding check_role
  Only-check_role i pod = Only-if (value_of role_label pod.labels == "") (Only-pure true) (
      Only-bind (Only-lift _)
        λ kept. Only-if kept (Only-pure false) (Only-bind (Only-drop_role pod) λ _. Only-pure true))

  Only-remove_role_labels :
      (i : ℕ) (pods : _) (l : List ℕ) → Only (ConfigureMay ss) (remove_role_labels env ss i pods l)
  unfolding remove_role_labels
  Only-remove_role_labels i [] l = Only-pure l
  Only-remove_role_labels i (o ∷ rest) l =
      Only-bind (Only-lift _)
        λ pod. Only-bind (Only-check_role i pod) λ bare. Only-remove_role_labels (suc i) rest _

  Only-give_role : (i : ℕ) → Only (ConfigureMay ss) (give_role env ss i)
  unfolding give_role
  Only-give_role i =
      Only-bind (Only-lift _) λ o. Only-bind (Only-lift _) λ pod. Only-command env _ tt

  Only-add_role_label : (l : List ℕ) → Only (ConfigureMay ss) (add_role_label env ss l)
  unfolding add_role_label
  Only-add_role_label [] = Only-pure tt
  Only-add_role_label (i ∷ rest) = Only-bind (Only-lift _) λ errant.
      Only-bind (Only-if errant (Only-pure tt) (Only-give_role i)) λ _. Only-add_role_label rest

  Only-kill_all : (l : List ℕ) → All (IsClean ss) l → Only (ConfigureMay ss) (kill_all env l)
  unfolding kill_all
  Only-kill_all [] h = Only-pure tt
  Only-kill_all (i ∷ rest) h = Only-bind (Only-command env _ h.0) λ _. Only-kill_all rest h.1

  Only-configure_intermediate_primary :
      (name : String)
      → has_source ss ≡ true
      → Only (ConfigureMay ss) (configure_intermediate_primary env ss name)
  unfolding configure_intermediate_primary
  Only-configure_intermediate_primary name src = Only-bind (Only-lift _) λ pst.
      Only-bind
        (Only-when env _ λ _. Only-command env (set_read_only ss.primary true) (inl (refl, src)))
        λ _. Only-bind (Only-secret env name tt) λ d. Only-bind (Only-lift _) λ port.
          Only-bind
            (Only-when env _ λ _.
              Only-command env (configure_replica ss.primary (source_access d port) false)
                (inl (refl, src, refl)))
            λ _. Only-pure _

  Only-configure_primary_instance :
      has_source ss ≡ false → Only (ConfigureMay ss) (configure_primary_instance env ss)
  unfolding configure_primary_instance
  Only-configure_primary_instance src = Only-bind (Only-lift _) λ pst.
      Only-bind
        (Only-when env _
          λ _. Only-command env (stop_replica_io_thread ss.primary) (inl (refl, src)))
        λ _.
          Only-bind
            (Only-when env _ λ _.
              Only-command env (wait_for_gtid ss.primary (retrieved pst.replica_status) 0)
                (refl, src))
            λ _. Only-if (ss.cluster.spec.replicas =? 1) (Only-pure _) (
              Only-bind
                (Only-when env _ λ _.
                  Only-command env (configure_primary ss.primary (ss.cluster.spec.replicas / 2))
                    (refl, src, refl))
                λ _. Only-pure _)

  Only-configure_primary_from :
      (o : Option String)
      → has_source ss ≡ is_some o
      → Only (ConfigureMay ss) (configure_primary_from env ss o)
  unfolding configure_primary_from
  Only-configure_primary_from none e = Only-configure_primary_instance e
  Only-configure_primary_from (some name) e = Only-configure_intermediate_primary name e

  Only-configure_the_primary : Only (ConfigureMay ss) (configure_the_primary env ss)
  unfolding configure_the_primary
  Only-configure_the_primary = Only-configure_primary_from _ refl

  Only-make_writable : (redo : Bool) → Only (ConfigureMay ss) (make_writable env ss redo)
  unfolding make_writable
  Only-make_writable redo =
      Only-if-known (has_source ss) (λ e. Only-pure redo)
        (λ e. Only-bind (Only-lift _) λ o. Only-bind (Only-lift _) λ pst.
          Only-if pst.global_variables.read_only
            (Only-bind (Only-command env (set_read_only ss.primary false) (refl, e))
              λ _. Only-bind (Only-note env (emit_event "SetWritable") tt) λ _. Only-pure true)
            (Only-pure redo))

module _ (env : Env) (ss : StatusSet) where
  or_event-kept :
      (name : String) (R : Trace → Type 0) (r : Outcome (Unit {0}) × Trace)
      → ((tr : Trace) → R tr → R (done (emit_event name) ∷ tr))
      → After (λ _. R) (R) (R) r
      → After (λ _. R) (R) (R) (or_event env name r)
  unfolding ◌>>=◌ note
  or_event-kept name R (ok x, tr') p h = h
  or_event-kept name R (err e, tr') p h = p tr' h
  or_event-kept name R (panic, tr') p h = h

  Only-clone_from_primary :
      (i : ℕ) → IsCleanReplica ss i → Only (ConfigureMay ss) (clone_from_primary env ss i)
  unfolding clone_from_primary
  Only-clone_from_primary i c = Only-bind (Only-lift _) λ ppod.
      Only-bind (Only-if (donor_address ss ppod == "") (Only-fail _) (Only-pure tt)) λ _.
        Only-bind (Only-command env (connect_agent i) c) λ _.
          Only-bind
            (record {
              kept = λ R w. record {
                run = λ tr h.
                    or_event-kept "CloneFailed" R _ (w (done (emit_event "CloneFailed")) tt) (
                      ((Only-command env (clone_data i (donor_request ss (donor_address ss ppod)))
                            (c, (donor_address ss ppod, refl))).kept
                          R w).run
                        tr h);
              };
            })
            λ _.
              Only-bind (Only-note env (emit_event "CloneSucceeded") tt)
                λ _. Only-wait_restart env 60 i c

  Only-freeze_replica :
      (i : ℕ) (st : MySqlInstanceStatus)
      → IsCleanReplica ss i
      → Only (ConfigureMay ss) (freeze_replica env i st)
  unfolding freeze_replica
  Only-freeze_replica i st c = Only-when env _ λ _.
      Only-bind (Only-command env (kill_connections i) c.1)
        λ _. Only-command env (set_read_only i true) (inr c)

  Only-check_purged :
      (i : ℕ) (st : MySqlInstanceStatus)
      → IsCleanReplica ss i
      → Only (ConfigureMay ss) (check_purged env ss i st)
  unfolding check_purged
  Only-check_purged i st c = Only-bind (Only-lift _) λ pst.
      Only-bind (Only-gtid_minus env i _ _ c)
        λ sub. Only-if (sub == "") (Only-pure tt) (Only-fail _)

  Only-start_replica :
      (i : ℕ) (st : MySqlInstanceStatus)
      → IsCleanReplica ss i
      → Only (ConfigureMay ss) (start_replica env ss i st)
  unfolding start_replica
  Only-start_replica i st c =
      Only-bind
        (Only-when env _ λ _.
          Only-command env (configure_replica i (primary_access ss) (not (has_source ss)))
            (inr (c, refl, refl)))
        λ _. Only-pure _

  Only-isolate :
      (i : ℕ) (st : MySqlInstanceStatus)
      → i ≢ ss.primary
      → IsErrant ss i
      → Only (ConfigureMay ss) (isolate env i st)
  unfolding isolate
  Only-isolate i st n e =
      Only-if (io_running st.replica_status)
        (Only-bind (Only-command env (stop_replica_io_thread i) (inr (n, e))) λ _. Only-pure true)
        (Only-pure false)

  Only-configure_replica_instance :
      (i : ℕ) (st : MySqlInstanceStatus)
      → i ≢ ss.primary
      → get_elem? ss.mysql_status i ≡ some (some st)
      → Only (ConfigureMay ss) (configure_replica_instance env ss i st)
  unfolding configure_replica_instance
  Only-configure_replica_instance i st n at =
      Only-if-known st.is_errant (λ e. Only-isolate i st n (st, at, e))
        (λ e.
          let c : IsCleanReplica ss i = (n, (st, at, e)) in
          Only-bind (Only-freeze_replica i st c) λ _.
            Only-bind (Only-when env _ λ _. Only-clone_from_primary i c)
              λ _. Only-bind (Only-check_purged i st c) λ _. Only-start_replica i st c)

  Only-configure_slot :
      (i : ℕ) (o : Option MySqlInstanceStatus)
      → get_elem? ss.mysql_status i ≡ some o
      → Only (ConfigureMay ss) (configure_slot env ss i o)
  unfolding configure_slot
  Only-configure_slot i none at = Only-pure false
  Only-configure_slot i (some ist) at =
      Only-if-known (i =? ss.primary) (λ e. Only-pure false)
        (λ e. Only-configure_replica_instance i ist (=?_false i ss.primary e) at)

  Only-configure_replicas :
      (i : ℕ) (rest : List (Option MySqlInstanceStatus)) (redo : Bool)
      → StandsAt ss.mysql_status i rest
      → Only (ConfigureMay ss) (configure_replicas env ss i rest redo)
  unfolding configure_replicas
  Only-configure_replicas i [] redo h = Only-pure redo
  Only-configure_replicas i (o ∷ rest) redo h =
      Only-bind (Only-configure_slot i o h.0) λ r. Only-configure_replicas (suc i) rest _ h.1

  pub configure-Only : Only (ConfigureMay ss) (configure env ss)
  unfolding configure remove_role_label
  configure-Only = Only-bind (Only-remove_role_labels env ss 0 ss.pods []) λ no_roles.
      Only-lift_bind (alive_of ss no_roles) λ alive ea.
        Only-bind (Only-kill_all env ss alive (alive_of-IsClean ss no_roles ea)) λ _.
          Only-bind (Only-configure_the_primary env ss) λ r.
            Only-bind (Only-configure_replicas 0 ss.mysql_status r (StandsAt-refl ss.mysql_status))
              λ redo.
                Only-bind (Only-add_role_label env ss alive) λ _. Only-make_writable env ss redo

-- Whatever the calls of `configure` return, and wherever it stops, each call that it has made is
-- one that `ConfigureMay` lists: only the primary becomes writable, and not under an external
-- source; a replica with errant transactions only has its IO thread stopped; data is cloned and a
-- replication set up on replicas without errant transactions, from the primary; the number of
-- acknowledgements is half of the replicas; and the recorded primary does not change.
pub configure_calls :
    (env : Env) (ss : StatusSet) → OnlyCalls (ConfigureMay ss) (configure env ss []).1
configure_calls env ss = Only-calls (configure env ss) (configure-Only env ss)
