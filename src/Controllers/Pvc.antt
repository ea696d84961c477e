-- ===== src/Controllers/Pvc.antt =====
-- The claims of a cluster's volumes: their labels, their annotations and their sizes
-- (controllers/pvc.go). int32 values that are not negative are natural numbers. The calls of the
-- Kubernetes API are answered by an environment.
pub mod Footprint
pub mod Sync
pub mod Classless
mod Tests
use Prim.Native.Char.{Char, code}
use moco.Prelude.{
  ℕ, zero, suc, ◌+◌, String, ◌<>◌, ◌==◌, Bool, true, false, not, ◌&&◌, ◌||◌, ◌=?◌, ltb, Option,
  none, some, List, [], ◌∷◌, Outcome, ok, err, panic, deref, Error, not_found, message,
  if◌then◌else◌, is_some, get_or, length,
}
use moco.Prelude
use moco.Prelude.Dict.{Dict, lookup, insert, value_of}
use moco.Prelude.Int.{ℤ, ltb_ℤ}
use moco.Api.Names.{decimal}
use moco.Api.Claim.{Claim, read_statefulset, list_claims, read_storage_class, update_claim}
use moco.Effects.{
  M, Trace, Env, Reply, value, failure, pure, fail, lift, ◌>>=◌, ◌>>◌, command, note, on_error,
  record_reply, of_claims, count_metric,
}

-- A volume claim template of the cluster, or of a StatefulSet.
pub record VolumeTemplate : Type 0 where
  pub name : String
  pub labels : Dict String
  pub annotations : Dict String
  pub storage : ℤ

-- The fields of `appsv1.StatefulSet` that the code reads; `partition` is the rolling update of the
-- update strategy, where its type is RollingUpdate.
pub record ClaimOwner : Type 0 where
  pub name : String
  pub is_deleted : Bool
  pub generation : ℕ
  pub observed_generation : ℕ
  pub replicas : Option ℕ
  pub ready_replicas : ℕ
  pub updated_replicas : ℕ
  pub partition : Option (Option ℕ)
  pub update_revision : String
  pub current_revision : String
  pub templates : List VolumeTemplate

pub record PvcEnv : Type 0 where
  pub base : Env
  -- A StatefulSet that is not found is `none`.
  pub statefulset_of : Trace → Reply (Option ClaimOwner)
  pub claims_of : Trace → Reply (List Claim)
  -- `AllowVolumeExpansion` of a storage class.
  pub allows_expansion : Trace → String → Reply (Option Bool)
  -- `metav1.LabelSelectorAsSelector`: `some` is an error.
  pub selector_error : Option Error
  pub label_keys : List String
  pub annotation_keys : List String

-- Whether the partitioned rollout has pods to update.
abbrev pub is_rolling : ClaimOwner → Option ℕ → Option (Option ℕ) → Bool
is_rolling sts (some r) (some (some p)) = ltb (sts.updated_replicas + p) r
is_rolling sts _ _ = false

abbrev pub is_unready : ClaimOwner → Option ℕ → Bool
is_unready sts none = false
is_unready sts (some r) = ltb sts.ready_replicas r

unfoldable pub is_updating_statefulset : ClaimOwner → Bool
is_updating_statefulset sts =
    sts.is_deleted
    || (((sts.observed_generation =? 0) || ltb sts.observed_generation sts.generation)
        || (is_unready sts sts.replicas
            || (is_rolling sts sts.replicas sts.partition
                || not (sts.update_revision == sts.current_revision))))

-- A map from names to sizes; a later entry replaces an earlier one.
unfoldable pub sizes_of : Dict ℤ → List VolumeTemplate → Dict ℤ
sizes_of acc [] = acc
sizes_of acc (t ∷ rest) = sizes_of (insert t.name t.storage acc) rest

abbrev pub add_smaller : VolumeTemplate → Option ℤ → Dict ℤ → Dict ℤ
add_smaller t none acc = acc
add_smaller t (some size) acc = if ltb_ℤ size t.storage then insert t.name size acc else acc

-- The deployed templates that the cluster wants larger.
unfoldable pub resize_target : Dict ℤ → Dict ℤ → List VolumeTemplate → Dict ℤ
resize_target deployed acc [] = acc
resize_target deployed acc (t ∷ rest) =
    resize_target deployed (add_smaller t (lookup t.name deployed) acc) rest

unfoldable pub need_resize_pvc : List VolumeTemplate → ClaimOwner → Dict ℤ
unfolding sizes_of resize_target
need_resize_pvc templates sts = resize_target (sizes_of [] sts.templates) [] templates

-- The claims with the ordinals below a number.
unfoldable pub keep_claims : String → String → Option ℤ → ℕ → Dict (Option ℤ) → Dict (Option ℤ)
keep_claims template owner size zero acc = acc
keep_claims template owner size (suc n) acc =
    insert (template <> "-" <> owner <> "-" <> decimal n) size
      (keep_claims template owner size n acc)

unfoldable pub pvcs_to_keep : Dict ℤ → ClaimOwner → Dict ℤ → Dict (Option ℤ)
unfolding keep_claims
pvcs_to_keep sizes sts [] = []
pvcs_to_keep sizes sts (target ∷ rest) =
    keep_claims target.0 sts.name (lookup target.0 sizes) (get_or 1 sts.replicas)
      (pvcs_to_keep sizes sts rest)

-- What stands before the last dash of a name.
unfoldable pub before_last_dash : String → Option String
before_last_dash String.[] = none
before_last_dash (String.◌∷◌ c s) =
    let rest = before_last_dash s in
    elim rest [
      | some front ↦ some (String.◌∷◌ c front)
      | none ↦ if code c =? b'-' then some "" else none
    ]

-- A write to a nil map panics.
abbrev pub assign : String → String → Option (Dict String) → Outcome (Option (Dict String) × Bool)
assign key v none = panic
assign key v (some d) = ok (some (insert key v d), true)

abbrev pub sync_key :
    String → Option String → Option (Dict String) × Bool → Outcome (Option (Dict String) × Bool)
sync_key key none (d, changed) = ok (d, changed)
sync_key key (some v) (d, changed) =
    if value_of key (get_or [] d) == v then ok (d, changed) else assign key v d

-- The values of a template for some keys; whether anything has changed.
unfoldable pub sync_values :
    List String → Dict String → Option (Dict String) × Bool → Outcome (Option (Dict String) × Bool)
sync_values [] template d = ok d
sync_values (key ∷ rest) template d =
    Prelude.◌>>=◌ (sync_key key (lookup key template) d) (sync_values rest template)

module _ (env : PvcEnv) where
  abbrev pub the_statefulset : M (Option ClaimOwner)
  the_statefulset tr = record_reply (of_claims read_statefulset) (env.statefulset_of tr) tr

  abbrev pub the_claims : M (List Claim)
  the_claims tr = record_reply (of_claims list_claims) (env.claims_of tr) tr

  abbrev pub the_storage_class : String → M (Option Bool)
  the_storage_class name tr =
      record_reply (of_claims (read_storage_class name)) (env.allows_expansion tr name) tr

  abbrev pub checked_selector : Option Error → M (Unit {0})
  checked_selector none = pure tt
  checked_selector (some e) = fail e

  unfoldable pub is_volume_expansion_supported : Option String → M Bool
  is_volume_expansion_supported none = pure false
  is_volume_expansion_supported (some name) =
      the_storage_class name >>= λ allows. pure (get_or false allows)

  -- The log line of a skipped claim reads the name of its storage class.
  unfoldable pub skip : Option String → M (List String)
  skip class = lift (deref class) >>= λ name. pure []

  unfoldable pub set_size : Claim → ℤ → M (List String)
  set_size pvc size =
      if ltb_ℤ size pvc.storage
      then fail (message "cannot reduce volume size")
      else if ltb_ℤ pvc.storage size
      then (command env.base (of_claims (update_claim pvc (record pvc { storage = size })))
          >> pure (pvc.name ∷ []))
      else pure []

  -- One claim that is to be kept: the names of the claims that have been resized.
  unfoldable pub resize_kept : Claim → Option ℤ → M (List String)
  resize_kept pvc size = is_volume_expansion_supported pvc.storage_class_name >>= λ supported.
      if supported then (lift (deref size) >>= set_size pvc) else skip pvc.storage_class_name

  unfoldable pub resize_one : Claim → Option (Option ℤ) → M (List String)
  resize_one pvc none = pure []
  resize_one pvc (some size) = resize_kept pvc size

  unfoldable pub resize_each : Dict (Option ℤ) → List Claim → M (List String)
  resize_each keep [] = pure []
  resize_each keep (pvc ∷ rest) = resize_one pvc (lookup pvc.name keep) >>= λ done.
      resize_each keep rest >>= λ more. pure (Prelude.◌++◌ done more)

  unfoldable pub resize_pvcs : List VolumeTemplate → ClaimOwner → Dict ℤ → M (List String)
  resize_pvcs templates sts target =
      checked_selector env.selector_error
      >> (the_claims >>= resize_each (pvcs_to_keep (sizes_of [] templates) sts target))

  -- The template that a deployed claim comes from, by its name without the ordinal.
  unfoldable pub template_of : String → Option String → List VolumeTemplate → Option VolumeTemplate
  template_of owner none templates = none
  template_of owner (some name) [] = none
  template_of owner (some name) (t ∷ rest) =
      let later = template_of owner (some name) rest in
      elim later [
        | some u ↦ some u
        | none ↦ if (t.name <> "-" <> owner) == name then some t else none
      ]

  -- The claim with the synchronised values, and whether they differ.
  unfoldable pub synced : VolumeTemplate → Claim → Outcome (Claim × Bool)
  synced t pvc = Prelude.◌>>=◌ (sync_values env.label_keys t.labels (pvc.labels, false)) λ labels.
      Prelude.◌>>=◌ (sync_values env.annotation_keys t.annotations (pvc.annotations, labels.1))
        λ annotations.
          ok (record pvc { labels = labels.0; annotations = annotations.0 }, annotations.1)

  unfoldable pub write_synced : Claim → Claim × Bool → M (Unit {0})
  write_synced pvc (new, false) = pure tt
  write_synced pvc (new, true) = command env.base (of_claims (update_claim pvc new))

  unfoldable pub sync_one : Claim → Option VolumeTemplate → M (Unit {0})
  sync_one pvc none = pure tt
  sync_one pvc (some t) = lift (synced t pvc) >>= write_synced pvc

  unfoldable pub sync_each : String → List VolumeTemplate → List Claim → M (Unit {0})
  sync_each owner templates [] = pure tt
  sync_each owner templates (pvc ∷ rest) =
      sync_one pvc (template_of owner (before_last_dash pvc.name) templates)
      >> sync_each owner templates rest

  unfoldable pub sync_pvc_values : List VolumeTemplate → ClaimOwner → M (Unit {0})
  sync_pvc_values templates sts =
      if (length env.annotation_keys =? 0) && (length env.label_keys =? 0)
      then pure tt
      else (checked_selector env.selector_error >> (the_claims >>= sync_each sts.name templates))

  abbrev pub count_resized : List String → M (Unit {0})
  count_resized [] = pure tt
  count_resized (x ∷ xs) = note (count_metric "VolumeResizedTotal")

  -- Behind the test of the rollout.
  unfoldable pub resize_if_needed : List VolumeTemplate → ClaimOwner → Dict ℤ → M (Unit {0})
  resize_if_needed templates sts [] = pure tt
  resize_if_needed templates sts (x ∷ target) =
      on_error (resize_pvcs templates sts (x ∷ target))
        (note (count_metric "VolumeResizedErrorTotal"))
      >>= count_resized

  unfoldable pub reconcile_claims : List VolumeTemplate → Option ClaimOwner → M (Unit {0})
  reconcile_claims templates none = pure tt
  reconcile_claims templates (some sts) =
      sync_pvc_values templates sts
      >> (if is_updating_statefulset sts
          then pure tt
          else resize_if_needed templates sts (need_resize_pvc templates sts))

  unfoldable pub reconcile_pvc : List VolumeTemplate → M (Unit {0})
  reconcile_pvc templates = the_statefulset >>= reconcile_claims templates
