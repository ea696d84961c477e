-- ===== src/Clustering/Configure.antt =====
-- `configure` and what it calls (clustering/operations.go).
pub mod Instances
pub mod Footprint
use moco.Prelude.{
  ℕ, suc, String, Bool, true, false, not, ◌||◌, ◌==◌, ◌=?◌, Option, none, some, List, [], ◌∷◌, ◌++◌,
  deref, Outcome, ok, if◌then◌else◌, is_some, get_elem?,
}
use moco.Prelude
use moco.Effects.{
  M, Env, ◌>>=◌, ◌>>◌, pure, lift, when, command, note, set_read_only, kill_connections, emit_event,
}
use moco.Dbop.Types.{MySqlInstanceStatus}
use moco.Clustering.StatusSet.{StatusSet}
use moco.Clustering.Decide.{primary_status}
use moco.Clustering.Roles.{is_errant_replica, remove_role_label, add_role_label}
use moco.Clustering.Configure.Instances.{
  configure_intermediate_primary, configure_primary_instance, configure_replica_instance,
}

-- The instances without a role that are alive and have no errant transaction.
unfoldable pub alive_of : StatusSet → List ℕ → Outcome (List ℕ)
alive_of ss [] = ok []
alive_of ss (i ∷ rest) = Prelude.◌>>=◌ (deref (get_elem? ss.mysql_status i)) λ o.
    Prelude.◌>>=◌ (is_errant_replica ss i) λ errant.
      Prelude.◌>>=◌ (alive_of ss rest)
        λ alive. ok (if not (is_some o) || errant then alive else i ∷ alive)

module _ (env : Env) where
  unfoldable pub kill_all : List ℕ → M (Unit {0})
  kill_all [] = pure tt
  kill_all (i ∷ rest) = do command env (kill_connections i); kill_all rest

  -- A primary that replicates from an external source, or not.
  unfoldable pub configure_primary_from : StatusSet → Option String → M Bool
  configure_primary_from ss none = configure_primary_instance env ss
  configure_primary_from ss (some name) = configure_intermediate_primary env ss name

  unfoldable pub configure_the_primary : StatusSet → M Bool
  configure_the_primary ss =
      configure_primary_from ss ss.cluster.spec.replication_source_secret_name

  unfoldable pub configure_slot : StatusSet → ℕ → Option MySqlInstanceStatus → M Bool
  configure_slot ss i none = pure false
  configure_slot ss i (some ist) =
      if i =? ss.primary then pure false else configure_replica_instance env ss i ist

  unfoldable pub configure_replicas :
      StatusSet → ℕ → List (Option MySqlInstanceStatus) → Bool → M Bool
  configure_replicas ss i [] redo = pure redo
  configure_replicas ss i (o ∷ rest) redo = do
    r ← configure_slot ss i o
    configure_replicas ss (suc i) rest (redo || r)

  -- The last step: the primary becomes writable if it is not an intermediate one.
  unfoldable pub make_writable : StatusSet → Bool → M Bool
  make_writable ss redo =
      if is_some ss.cluster.spec.replication_source_secret_name then pure redo else (do
        o ← lift (primary_status ss)
        pst ← lift (deref o)
        if pst.global_variables.read_only
            then (do
              command env (set_read_only ss.primary false)
              note (emit_event "SetWritable")
              pure true)
            else pure redo)

  unfoldable pub configure : StatusSet → M Bool
  configure ss = do
    no_roles ← remove_role_label env ss
    alive ← lift (alive_of ss no_roles)
    kill_all alive
    r ← configure_the_primary ss
    redo ← configure_replicas ss 0 ss.mysql_status r
    add_role_label env ss alive
    make_writable ss redo
