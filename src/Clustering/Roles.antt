-- ===== src/Clustering/Roles.antt =====
-- The role labels and the annotation against deletion (clustering/operations.go).
use moco.Prelude.{
  ℕ, suc, String, Bool, true, false, not, ◌&&◌, ◌||◌, ◌==◌, ◌=?◌, Option, none, some, List, [], ◌∷◌,
  ◌++◌, deref, Outcome, ok, panic, if◌then◌else◌, is_some, contains, get_elem?,
}
use moco.Prelude
use moco.Prelude.Dict.{lookup, insert, erase, value_of}
use moco.Api.Pod.{Pod}
use moco.Effects.{M, Env, ◌>>=◌, ◌>>◌, pure, lift, command, patch_pod}
use moco.Dbop.Types.{MySqlInstanceStatus}
use moco.Clustering.StatusSet.{StatusSet}

abbrev pub role_label : String
role_label = "moco.cybozu.com/role"

abbrev pub prevent_delete : String
prevent_delete = "moco.cybozu.com/prevent-delete"

abbrev flagged : Option MySqlInstanceStatus → Bool
flagged none = false
flagged (some ist) = ist.is_errant

unfoldable pub is_errant_replica : StatusSet → ℕ → Outcome Bool
is_errant_replica ss index =
    Prelude.◌>>=◌ (deref (get_elem? ss.mysql_status index))
      λ o. ok (flagged o || contains ss.errants index)

-- The role that the label of instance `i` should name.
abbrev pub role_of : StatusSet → ℕ → String
role_of ss i = if i =? ss.primary then "primary" else "replica"

module _ (env : Env) where
  -- The pod with its role label deleted.
  unfoldable pub drop_role : Pod → M (Unit {0})
  drop_role pod = command env (patch_pod pod (record pod { labels = erase role_label pod.labels }))

  -- The label is the right one, and stays.
  unfoldable pub keeps_role : StatusSet → ℕ → String → Outcome Bool
  keeps_role ss i v =
      if i =? ss.primary
      then ok (v == "primary")
      else Prelude.◌>>=◌ (is_errant_replica ss i) λ errant. ok (not errant && v == "replica")

  -- One round of `removeRoleLabel`: whether the pod is without a role after it.
  unfoldable pub check_role : StatusSet → ℕ → Pod → M Bool
  check_role ss i pod = if value_of role_label pod.labels == "" then pure true else (do
    kept ← lift (keeps_role ss i (value_of role_label pod.labels))
    if kept then pure false else (do drop_role pod; pure true))

  -- The loop of `removeRoleLabel`: the indices of the pods without a role.
  unfoldable pub remove_role_labels : StatusSet → ℕ → List (Option Pod) → List ℕ → M (List ℕ)
  remove_role_labels ss i [] no_roles = pure no_roles
  remove_role_labels ss i (o ∷ rest) no_roles = do
    pod ← lift (deref o)
    bare ← check_role ss i pod
    remove_role_labels ss (suc i) rest (if bare then no_roles ++ (i ∷ []) else no_roles)

  unfoldable pub remove_role_label : StatusSet → M (List ℕ)
  remove_role_label ss = remove_role_labels ss 0 ss.pods []

  unfoldable pub give_role : StatusSet → ℕ → M (Unit {0})
  give_role ss i = do
    o ← lift (deref (get_elem? ss.pods i))
    pod ← lift (deref o)
    command env
        (patch_pod pod (record pod { labels = insert role_label (role_of ss i) pod.labels }))

  unfoldable pub add_role_label : StatusSet → List ℕ → M (Unit {0})
  add_role_label ss [] = pure tt
  add_role_label ss (i ∷ alive) = do
    errant ← lift (is_errant_replica ss i)
    (if errant then pure tt else give_role ss i)
    add_role_label ss alive

  unfoldable pub allow_delete : List (Option Pod) → M (Unit {0})
  allow_delete [] = pure tt
  allow_delete (o ∷ rest) = do
    pod ← lift (deref o)
    (if is_some (lookup prevent_delete pod.annotations)
        then command env
            (patch_pod pod (record pod { annotations = erase prevent_delete pod.annotations }))
        else pure tt)
    allow_delete rest

  unfoldable pub remove_ann_prevent_delete : StatusSet → M (Unit {0})
  unfolding allow_delete
  remove_ann_prevent_delete ss = allow_delete ss.pods

  unfoldable pub add_ann_prevent_delete : StatusSet → M (Unit {0})
  add_ann_prevent_delete ss = do
    o ← lift (deref (get_elem? ss.pods ss.primary))
    ppod ← lift (deref o)
    if is_some (lookup prevent_delete ppod.annotations)
        then pure tt
        else command env (
            patch_pod ppod
              (record ppod { annotations = insert prevent_delete "true" ppod.annotations }))
