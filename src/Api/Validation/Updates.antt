-- ===== src/Api/Validation/Updates.antt =====
-- `ValidateUpdate` with the test that a volume can be expanded (api/v1beta2/mysqlcluster_types.go,
-- api/v1beta2/mysqlcluster_webhook.go).
pub mod Volumes
pub mod Allowed
use text.Mathlib.TextEquality.{eq_iff}
use moco.Prelude.{
  ℕ, zero, suc, String, ◌==◌, Bool, true, false, not, ◌||◌, Option, none, some, List, [], ◌∷◌, ◌++◌,
  if◌then◌else◌, get_or, get_elem?,
}
use moco.Prelude.Dict.{Dict, value_of}
use moco.Prelude.Int.{ℤ, pos, ltb_ℤ}
use moco.Effects.{Reply, value, failure}
use moco.Api.Validation.{
  ClaimTemplate, SubmittedSpec, Errors, report, fewer_replicas, late_replication, changed_source,
  changed_restore, unknown_storage_class, unexpandable_storage_class, unknown_default_class,
  unexpandable_default_class, validate_create,
}

-- The fields of `storagev1.StorageClass` that the code reads.
pub record StorageClass : Type 0 where
  pub annotations : Dict String
  pub allow_volume_expansion : Option Bool

-- The API reader, and `equality.Semantic.DeepEqual` on `spec.restore`.
pub record Cloud (Restore : Type 0) : Type 0 where
  pub storage_class : String → Reply StorageClass
  pub storage_classes : Reply (List StorageClass)
  pub deep_equal : Option Restore → Option Restore → Bool

abbrev pub flat : Option (Option ℤ) → ℤ
flat none = pos 0
flat (some none) = pos 0
flat (some (some n)) = n

-- A missing request is the quantity 0.
unfoldable pub storage_size : ClaimTemplate → ℤ
storage_size pvc = flat pvc.requests

unfoldable pub is_volume_expansion_supported : StorageClass → Bool
is_volume_expansion_supported sc = get_or false sc.allow_volume_expansion

unfoldable pub is_default_storage_class : StorageClass → Bool
is_default_storage_class sc =
    (value_of "storageclass.kubernetes.io/is-default-class" sc.annotations == "true")
    || (value_of "storageclass.beta.kubernetes.io/is-default-class" sc.annotations == "true")

unfoldable pub first_default : List StorageClass → Option StorageClass
first_default [] = none
first_default (sc ∷ rest) = if is_default_storage_class sc then some sc else first_default rest

unfoldable pub get_default_storage_class : Reply (List StorageClass) → Option StorageClass
get_default_storage_class (failure e) = none
get_default_storage_class (value scs) = first_default scs

-- The claim of that name that is last in the list.
unfoldable pub old_claim : String → List ClaimTemplate → Option ClaimTemplate
old_claim name [] = none
old_claim name (pvc ∷ rest) =
    let later = old_claim name rest in
    elim later [ none ↦ if pvc.name == name then some pvc else none | some p ↦ some p ]

abbrev pub is_larger : ClaimTemplate → Option ClaimTemplate → Bool
is_larger new none = false
is_larger new (some old) = ltb_ℤ (storage_size old) (storage_size new)

module _ {Restore : Type 0} (cloud : Cloud Restore) where
  abbrev pub class_errors : ℕ → Reply StorageClass → Errors
  class_errors i (failure e) = unknown_storage_class i ∷ []
  class_errors i (value sc) =
      if is_volume_expansion_supported sc then [] else unexpandable_storage_class i ∷ []

  abbrev pub default_errors : ℕ → Option StorageClass → Errors
  default_errors i none = unknown_default_class i ∷ []
  default_errors i (some sc) =
      if is_volume_expansion_supported sc then [] else unexpandable_default_class i ∷ []

  -- What `validateVolumeExpansionSupported` reports for the claim at index `i`.
  unfoldable pub expansion_errors : ℕ → Option String → Errors
  expansion_errors i (some name) = class_errors i (cloud.storage_class name)
  expansion_errors i none = default_errors i (get_default_storage_class cloud.storage_classes)

  -- The claims from index `i` on: those that grow are tested.
  unfoldable pub growth_errors : List ClaimTemplate → ℕ → List ClaimTemplate → Errors
  growth_errors olds i [] = []
  growth_errors olds i (pvc ∷ rest) =
      (if is_larger pvc (old_claim pvc.name olds)
        then expansion_errors i pvc.storage_class_name
        else [])
      ++ growth_errors olds (suc i) rest

  unfoldable pub source_errors : Option String → Option String → Errors
  source_errors none old = []
  source_errors (some new) none = late_replication ∷ []
  source_errors (some new) (some old) = report (not (new == old)) changed_source

  unfoldable pub validate_update :
      (String → Bool) → SubmittedSpec Restore → SubmittedSpec Restore → Errors
  validate_update parses s old =
      report (ltb_ℤ s.replicas old.replicas) fewer_replicas
      ++ (source_errors s.replication_source_secret_name old.replication_source_secret_name
          ++ (report (not (cloud.deep_equal s.restore old.restore)) changed_restore
              ++ (growth_errors old.volume_claim_templates 0 s.volume_claim_templates
                  ++ validate_create parses s)))
