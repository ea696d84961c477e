-- ===== src/Clustering/Gather/Instances.antt =====
-- How `GatherStatus` reads the instances (clustering/status.go).
use moco.Prelude.{
  ℕ, zero, suc, String, ◌<◌, ◌≡◌, refl, ◌∙◌, ap, subst, arith, Bool, true, false, ◌=?◌, ◌==◌,
  Option, none, some, List, [], ◌∷◌, Outcome, ok, err, panic, nop, timeout, errant_transactions,
  no_top_runner, bad_connection, conflict, not_found, message, deref, get_elem?, get_elem?_lt, set,
  length, length-set, All, if◌then◌else◌,
}
use moco.Api.Cluster.{MySqlCluster}
use moco.Dbop.Types.{MySqlInstanceStatus}
use moco.Effects.{M, Env, Trace, value, ◌>>=◌, pure, status, open_database, gtid_minus}
use moco.Effects.Ends.{Ends, Ends-pure, Ends-if}
use moco.Effects.Safe.{Safe, Safe-bind, Safe->>=, Safe-if, Safe-lift, Safe-reply, Safe-command}
use moco.Clustering.Gather.{
  Statuses, mark_errant, restore_errants, drop_hung, open_databases, after_attempt, read_instance,
  read_instances, recheck_primary, is_errant_against, detect_errants, find_errants,
}
use moco.Clustering.Gather.Text.{contain_errant_transactions}

-- An instance that has a UUID.
abbrev pub HasUuid : MySqlInstanceStatus → Type 0
HasUuid ist = (ist.global_variables.uuid == "") ≡ false

abbrev pub HasLength : ℕ → Statuses → Type 0
HasLength n l = length l ≡ n

-- The primary's GTID set is known only with its status.
abbrev pub IsRechecked : ℕ → ℕ → Statuses × String → Type 0
IsRechecked n p r =
    (length r.0 ≡ n)
    × ((r.1 == "") ≡ false
        → (ist : MySqlInstanceStatus) × (get_elem? r.0 p ≡ some (some ist)) × HasUuid ist)

pub get_elem?-set :
    {A : Type 0} (l : List A) (i : ℕ) (v : A) → i < length l → get_elem? (set l i v) i ≡ some v
get_elem?-set [] i v h = elim h [ ]
get_elem?-set (x ∷ xs) zero v h = refl
get_elem?-set (x ∷ xs) (suc i) v h = get_elem?-set xs i v (omega arith)

pub length-drop_hung : (p i : ℕ) (l : Statuses) → length (drop_hung p i l) ≡ length l
unfolding drop_hung
length-drop_hung p i [] = refl
length-drop_hung p i (none ∷ rest) = ap suc (length-drop_hung p (suc i) rest)
length-drop_hung p i (some ist ∷ rest) = ap suc (length-drop_hung p (suc i) rest)

marked-Safe :
    (i : ℕ) (l : Statuses) (o : Option MySqlInstanceStatus)
    → get_elem? l i ≡ some o
    → Safe (HasLength (length l)) (mark_errant i l)
unfolding mark_errant
marked-Safe i l none e = rw e refl
marked-Safe i l (some ist) e = rw e (length-set l i _)

mark_errant-Safe :
    (i : ℕ) (l : Statuses) → i < length l → Safe (HasLength (length l)) (mark_errant i l)
mark_errant-Safe i l h = let (o, e) = get_elem?_lt l i h in marked-Safe i l o e

restore_errants-Safe :
    (n : ℕ) (indices : List ℕ) (l : Statuses) (errants : List ℕ)
    → length l ≡ n
    → All (λ i. i < n) indices
    → Safe (λ r. length r.0 ≡ n) (restore_errants indices l errants)
unfolding restore_errants
restore_errants-Safe n [] l errants e h = e
restore_errants-Safe n (i ∷ rest) l errants e h =
    Safe->>= (HasLength (length l)) _ (mark_errant i l) _ (mark_errant-Safe i l (rw e h.0))
      λ marked len. restore_errants-Safe n rest marked _ (len ∙ e) h.1

foreign-Safe :
    (uuid diff : String)
    → (uuid == "") ≡ false
    → Safe (λ _. Unit) (contain_errant_transactions uuid diff)
unfolding contain_errant_transactions
foreign-Safe uuid diff u = rw u (Safe-if (λ _. Unit) (diff == "") _ _ tt tt)

length-either :
    {n : ℕ} (b : Bool) (x y : Statuses × List ℕ)
    → length x.0 ≡ n
    → length y.0 ≡ n
    → length (if b then x else y).0 ≡ n
length-either true x y hx hy = hx
length-either false x y hx hy = hy

module _ (env : Env) where
  pub open_databases-Safe : (n i : ℕ) → Ends (Safe (λ _. Unit)) (open_databases env n i)
  unfolding open_databases
  open_databases-Safe zero i = Ends-pure tt tt
  open_databases-Safe (suc n) i =
      Safe-bind (λ _. Unit) _ (Safe-command env (open_database i))
        λ u h. open_databases-Safe n (suc i)

  attempt-Safe :
      (again : M (Option MySqlInstanceStatus)) (r : Outcome MySqlInstanceStatus × Trace)
      → Ends (Safe (λ _. Unit)) again
      → Safe (λ _. Unit) r.0
      → Safe (λ _. Unit) (after_attempt env again r).0
  attempt-Safe again (ok ist, tr) t h = tt
  attempt-Safe again (panic, tr) t h = h
  attempt-Safe again (err nop, tr) t h = tt
  attempt-Safe again (err timeout, tr) t h = t.run tr
  attempt-Safe again (err errant_transactions, tr) t h = t.run tr
  attempt-Safe again (err no_top_runner, tr) t h = t.run tr
  attempt-Safe again (err bad_connection, tr) t h = t.run tr
  attempt-Safe again (err conflict, tr) t h = t.run tr
  attempt-Safe again (err not_found, tr) t h = t.run tr
  attempt-Safe again (err (message s), tr) t h = t.run tr

  status-Safe : (i : ℕ) → Ends (Safe (λ _. Unit)) (status env i)
  unfolding status
  status-Safe i = Safe-reply (λ _. Unit) _ _ (λ tr a e. tt)

  read_instance-Safe : (n i : ℕ) → Ends (Safe (λ _. Unit)) (read_instance env n i)
  unfolding read_instance
  read_instance-Safe zero i = record {
    run = λ tr. attempt-Safe (pure none) _ (Ends-pure none tt) ((status-Safe i).run tr);
  }
  read_instance-Safe (suc n) i = record {
    run = λ tr.
        attempt-Safe (read_instance env n i) _ (read_instance-Safe n i) ((status-Safe i).run tr);
  }

  pub read_instances-Safe : (n i : ℕ) → Ends (Safe (HasLength n)) (read_instances env n i)
  unfolding read_instances
  read_instances-Safe zero i = Ends-pure [] refl
  read_instances-Safe (suc n) i =
      Safe-bind (λ _. Unit) (HasLength (suc n)) (read_instance-Safe 2 i)
        λ o h.
          Safe-bind (HasLength n) (HasLength (suc n)) (read_instances-Safe n (suc i))
            λ rest e. Ends-pure (o ∷ rest) (ap suc e)

  module _
      (uuids : (tr : Trace) (i : ℕ) (ist : MySqlInstanceStatus)
        → env.status_of tr i ≡ value ist
        → HasUuid ist) where
    pub recheck_primary-Safe :
        (p : ℕ) (l : Statuses)
        → p < length l
        → Ends (Safe (IsRechecked (length l) p)) (recheck_primary env p l)
    unfolding recheck_primary status
    recheck_primary-Safe p l h =
        let (o, e) = get_elem?_lt l p h in
        Safe-bind (λ a. a ≡ o) _ (Safe-lift _ (deref (get_elem? l p)) (rw e refl))
          λ a ea.
            elim a
              as (λ a'. Ends (Safe (IsRechecked (length l) p)) (elim a' [
                | none ↦ pure (l, "")
                | some _ ↦
                    (status env p >>= λ pst.
                    pure (set l p (some pst), pst.global_variables.executed_gtid))
              ])) [
                | none ↦ Ends-pure _ (refl, λ b. cc)
                | some ist ↦
                    Safe-bind HasUuid _ (Safe-reply HasUuid _ _ (λ tr a e. uuids tr p a e))
                      λ pst u. Ends-pure _ (length-set l p _, λ b. (pst, get_elem?-set l p _ h, u))
              ]

  errant-Safe :
      (p : ℕ) (uuid executed : String) (ist : MySqlInstanceStatus)
      → (uuid == "") ≡ false
      → Ends (Safe (λ _. Unit)) (is_errant_against env p uuid executed ist)
  unfolding is_errant_against gtid_minus
  errant-Safe p uuid executed ist u =
      Safe-bind (λ _. Unit) _ (Safe-reply (λ _. Unit) _ _ (λ tr a e. tt))
        λ diff h. Safe-lift _ _ (foreign-Safe uuid diff u)

  detect_errants-Safe :
      (p : ℕ) (uuid executed : String) (i : ℕ) (l : Statuses)
      → (uuid == "") ≡ false
      → Ends (Safe (λ r. length r.0 ≡ length l)) (detect_errants env p uuid executed i l)
  unfolding detect_errants
  detect_errants-Safe p uuid executed i [] u = Ends-pure _ refl
  detect_errants-Safe p uuid executed i (none ∷ rest) u =
      Safe-bind _ _ (detect_errants-Safe p uuid executed (suc i) rest u)
        λ r e. Ends-pure _ (ap suc e)
  detect_errants-Safe p uuid executed i (some ist ∷ rest) u =
      Safe-bind (λ _. Unit) _
        (Ends-if (i =? p) (λ b. Ends-pure false tt) (λ b. errant-Safe p uuid executed ist u))
        λ errant h.
          Safe-bind _ _ (detect_errants-Safe p uuid executed (suc i) rest u)
            λ r e. Ends-pure _ (length-either errant _ _ (ap suc e) (ap suc e))

  pub find_errants-Safe :
      (c : MySqlCluster) (n p : ℕ) (r : Statuses × String)
      → All (λ i. i < n) c.status.errant_replica_list
      → IsRechecked n p r
      → Ends (Safe (λ f. length f.0 ≡ n)) (find_errants env c p r.1 r.0)
  unfolding find_errants
  find_errants-Safe c n p r h (e, k) =
      Ends-if (r.1 == "") (λ b. Safe-lift _ _ (restore_errants-Safe n _ r.0 [] e h))
        λ b.
          let (ist, at, u) = k b in
          Safe-bind (λ o. o ≡ some ist) _ (Safe-lift _ _ (rw at refl))
            λ o eo.
              Safe-bind (λ pst. pst ≡ ist) _ (Safe-lift _ _ (rw eo refl))
                λ pst ep. rw ep (
                  subst
                    (λ n.
                      Ends (Safe (λ f. length f.0 ≡ n))
                        (detect_errants env p ist.global_variables.uuid r.1 0 r.0))
                    e (detect_errants-Safe p ist.global_variables.uuid r.1 0 r.0 u))
