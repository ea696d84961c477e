-- ===== src/Api/Claim.antt =====
-- The fields of a deployed `corev1.PersistentVolumeClaim` that the code reads or writes, and the calls
-- of the Kubernetes API that controllers/pvc.go makes.
use moco.Prelude.{String, Option}
use moco.Prelude.Dict.{Dict}
use moco.Prelude.Int.{ℤ}

-- The maps may be nil. `storage` is the storage request; a missing one is the quantity 0.
pub record Claim : Type 0 where
  pub name : String
  pub labels : Option (Dict String)
  pub annotations : Option (Dict String)
  pub storage_class_name : Option String
  pub storage : ℤ

-- An update names the claim as it was listed, and as it is written.
pub data ClaimCall : Type 0 where
  read_statefulset list_claims : ClaimCall
  read_storage_class : String → ClaimCall
  update_claim : Claim → Claim → ClaimCall
