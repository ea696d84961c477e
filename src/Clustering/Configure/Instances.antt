-- ===== src/Clustering/Configure/Instances.antt =====
-- The configuration of one instance, and the cloning of its data (clustering/operations.go).
use moco.Prelude.{
  ℕ, suc, ◌/◌, String, Bool, true, false, not, ◌&&◌, ◌||◌, ◌==◌, ◌=?◌, Option, none, some, deref,
  get_elem?, Outcome, ok, err, panic, message, if◌then◌else◌, is_some, get_or,
}
use moco.Prelude
use moco.Prelude.Dict.{Dict, lookup, value_of}
use moco.Prelude.Int.{ℤ, pos, ltb_ℤ}
use moco.Api.Cluster.{host_of}
use moco.Api.Pod.{Pod}
use moco.Effects.{
  M, Env, Trace, CloneRequest, ◌>>=◌, ◌>>◌, pure, fail, lift, when, command, secret, gtid_minus,
  note, wait_restart, set_read_only, kill_connections, wait_for_gtid, stop_replica_io_thread,
  configure_replica, configure_primary, connect_agent, clone_data, emit_event,
}
use moco.Dbop.Types.{MySqlInstanceStatus, ReplicaStatus, AccessInfo}
use moco.Clustering.StatusSet.{StatusSet}
use moco.Clustering.Decide.{primary_status, pod_at}

-- The status of the primary, read through.
unfoldable pub the_primary : StatusSet → Outcome MySqlInstanceStatus
the_primary ss = Prelude.◌>>=◌ (primary_status ss) deref

-- The IO thread runs, and reads from `host`.
unfoldable pub fed_by : String → Option ReplicaStatus → Bool
fed_by host none = false
fed_by host (some rs) = rs.replica_io_running == "Yes" && rs.source_host == host

abbrev pub eq_bool : Bool → Bool → Bool
eq_bool true b = b
eq_bool false b = not b

abbrev pub io_running : Option ReplicaStatus → Bool
io_running none = false
io_running (some rs) = rs.replica_io_running == "Yes"

abbrev pub retrieved : Option ReplicaStatus → String
retrieved none = ""
retrieved (some rs) = rs.retrieved_gtid_set

-- A key of a Secret that must be there.
unfoldable pub required : String → Dict String → Outcome String
required key d = elim (lookup key d) [ some v ↦ ok v | none ↦ err (message key) ]

-- How to reach the external source.
unfoldable pub source_access : Dict String → ℤ → AccessInfo
source_access d port = record {
  host = value_of "HOST" d;
  port = port;
  user = value_of "USER" d;
  password = value_of "PASSWORD" d;
}

-- How a replica reaches the primary: `constants.MySQLPort` and `constants.ReplicationUser`.
unfoldable pub primary_access : StatusSet → AccessInfo
primary_access ss = record {
  host = host_of ss.cluster ss.primary;
  port = pos 3306;
  user = "moco-repl";
  password = ss.password.replicator;
}

-- Where the data of a new replica comes from: the Pod's address, or its name where it has none.
unfoldable pub donor_address : StatusSet → Pod → String
donor_address ss ppod =
    if ppod.pod_ip == "0.0.0.0" then host_of ss.cluster ss.primary else ppod.pod_ip

unfoldable pub donor_request : StatusSet → String → CloneRequest
donor_request ss addr = record {
  host = addr;
  port = pos 33062;
  user = "moco-clone-donor";
  password = ss.password.donor;
  init_user = "moco-admin";
  init_password = ss.password.admin;
  boot_timeout = 0;
}

-- A replica without data and without a replication gets the data of the primary.
unfoldable pub wants_clone : StatusSet → MySqlInstanceStatus → Bool
wants_clone ss st =
    st.global_variables.executed_gtid == ""
    && not (ss.executed_gtid == "")
    && not (is_some st.replica_status)

-- The settings that `ConfigureReplica` makes are in place.
unfoldable pub is_configured : StatusSet → MySqlInstanceStatus → Bool
is_configured ss st =
    fed_by (host_of ss.cluster ss.primary) st.replica_status
    && eq_bool st.global_variables.semi_sync_slave_enabled
        (not (is_some ss.cluster.spec.replication_source_secret_name))

module _ (env : Env) where
  unfoldable pub require_port : String → Outcome ℤ
  require_port s = elim (env.parse_int32 s) [
    | none ↦ err (message "bad port number")
    | some n ↦ if ltb_ℤ (pos 0) n then ok n else err (message "bad port number")
  ]

  -- The external source, as its Secret describes it.
  unfoldable pub clone_request : StatusSet → Dict String → Outcome CloneRequest
  clone_request ss d = Prelude.◌>>=◌ (required "HOST" d) λ host.
      Prelude.◌>>=◌ (required "PORT" d) λ port_text. Prelude.◌>>=◌ (require_port port_text) λ port.
        Prelude.◌>>=◌ (required "USER" d) λ user. Prelude.◌>>=◌ (required "PASSWORD" d) λ password.
          Prelude.◌>>=◌ (required "INIT_USER" d) λ init_user.
            Prelude.◌>>=◌ (required "INIT_PASSWORD" d) λ init_password. ok (record {
              host = host;
              port = port;
              user = user;
              password = password;
              init_user = init_user;
              init_password = init_password;
              boot_timeout = ss.cluster.spec.startup_wait_seconds;
            })

  -- `clone`: the primary of a new cluster gets the data of the external source.
  unfoldable pub clone : StatusSet → String → M Bool
  clone ss secret_name = do
    d ← secret env secret_name
    req ← lift (clone_request ss d)
    command env (connect_agent ss.primary)
    command env (clone_data ss.primary req)
    wait_restart env 60 ss.primary
    pure true

  unfoldable pub configure_intermediate_primary : StatusSet → String → M Bool
  configure_intermediate_primary ss secret_name = do
    pst ← lift (the_primary ss)
    when (not pst.global_variables.super_read_only) (command env (set_read_only ss.primary true))
    d ← secret env secret_name
    port ← lift (elim (env.atoi (value_of "PORT" d)) [
      | none ↦ err (message "invalid port number")
      | some n ↦ ok n
    ])
    let ai = source_access d port
    let restart = not (fed_by (value_of "HOST" d) pst.replica_status)
    when restart (command env (configure_replica ss.primary ai false))
    pure (not pst.global_variables.super_read_only || restart)

  unfoldable pub configure_primary_instance : StatusSet → M Bool
  configure_primary_instance ss = do
    pst ← lift (the_primary ss)
    when (io_running pst.replica_status) (command env (stop_replica_io_thread ss.primary))
    when (not (retrieved pst.replica_status == ""))
        (command env (wait_for_gtid ss.primary (retrieved pst.replica_status) 0))
    let redo = io_running pst.replica_status || not (retrieved pst.replica_status == "")
    let wait_for = ss.cluster.spec.replicas / 2
    let enable =
        not pst.global_variables.semi_sync_master_enabled
        || not (pst.global_variables.wait_for_slave_count =? wait_for)
    if ss.cluster.spec.replicas =? 1 then pure redo else (do
      when enable (command env (configure_primary ss.primary wait_for))
      pure (redo || enable))

  -- The failure of a clone is reported as an event.
  abbrev pub or_event : String → Outcome (Unit {0}) × Trace → Outcome (Unit {0}) × Trace
  or_event name (err e, tr) = (note (emit_event name) >> fail e) tr
  or_event name (ok x, tr) = (ok x, tr)
  or_event name (panic, tr) = (panic, tr)

  unfoldable pub clone_from_primary : StatusSet → ℕ → M (Unit {0})
  clone_from_primary ss index = do
    ppod ← lift (pod_at ss ss.primary)
    let addr = donor_address ss ppod
    if addr == "" then fail (message "no address") else pure tt
    command env (connect_agent index)
    (λ tr. or_event "CloneFailed" (command env (clone_data index (donor_request ss addr)) tr))
    note (emit_event "CloneSucceeded")
    wait_restart env 60 index

  -- An errant replica only has its replication stopped.
  unfoldable pub isolate : ℕ → MySqlInstanceStatus → M Bool
  isolate index st =
      if io_running st.replica_status
      then (do command env (stop_replica_io_thread index); pure true)
      else pure false

  unfoldable pub freeze_replica : ℕ → MySqlInstanceStatus → M (Unit {0})
  freeze_replica index st =
      when (not st.global_variables.super_read_only)
        (command env (kill_connections index) >> command env (set_read_only index true))

  -- The binary log of the primary must reach back to what the replica has.
  unfoldable pub check_purged : StatusSet → ℕ → MySqlInstanceStatus → M (Unit {0})
  check_purged ss index st = do
    pst ← lift (the_primary ss)
    sub ← gtid_minus env index pst.global_variables.purged_gtid st.global_variables.executed_gtid
    if sub == "" then pure tt else fail (message "missing binlog")

  unfoldable pub start_replica : StatusSet → ℕ → MySqlInstanceStatus → M Bool
  start_replica ss index st = do
    let semisync = not (is_some ss.cluster.spec.replication_source_secret_name)
    let restart = not (is_configured ss st)
    when restart (command env (configure_replica index (primary_access ss) semisync))
    pure (not st.global_variables.super_read_only || wants_clone ss st || restart)

  -- `configureReplica`; `st` is the status of the instance.
  unfoldable pub configure_replica_instance : StatusSet → ℕ → MySqlInstanceStatus → M Bool
  configure_replica_instance ss index st = if st.is_errant then isolate index st else (do
    freeze_replica index st
    when (wants_clone ss st) (clone_from_primary ss index)
    check_purged ss index st
    start_replica ss index st)
