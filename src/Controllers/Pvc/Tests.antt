-- ===== src/Controllers/Pvc/Tests.antt =====
-- A cluster whose data volumes are to grow from 10 to 20.
use moco.Prelude.{String, ◌≡◌, refl, ◌==◌, false, Option, none, some, [], ◌∷◌, panic}
use moco.Prelude.Dict.{Dict, lookup}
use moco.Prelude.Int.{ℤ, pos}
use moco.Api.Claim.{Claim}
use moco.Api.Cluster.{no_backup}
use moco.Effects.{value}
use moco.Effects.Scene.{calm}
use moco.Effects.Only.{OnlyCalls}
use moco.Controllers.Pvc.{VolumeTemplate, ClaimOwner, PvcEnv, reconcile_pvc, synced, resize_each}
use moco.Controllers.Pvc.Footprint.{ClaimMay, reconcile_pvc_calls}
use moco.Controllers.Pvc.Sync.{synced_panics}
use moco.Controllers.Pvc.Classless.{resize_each_panics}

abbrev template : ℤ → VolumeTemplate
template size = record {
  name = "mysql-data";
  labels = ("team", "db") ∷ [];
  annotations = ("note", "grown") ∷ [];
  storage = size;
}

abbrev claim : Option (Dict String) → Option String → Claim
claim annotations class = record {
  name = "mysql-data-moco-test-0";
  labels = some (("app", "mysql") ∷ []);
  annotations = annotations;
  storage_class_name = class;
  storage = pos 10;
}

abbrev owner : ClaimOwner
owner = record {
  name = "moco-test";
  is_deleted = false;
  generation = 3;
  observed_generation = 3;
  replicas = some 1;
  ready_replicas = 1;
  updated_replicas = 1;
  partition = some (some 0);
  update_revision = "r1";
  current_revision = "r1";
  templates = template (pos 10) ∷ [];
}

abbrev env : PvcEnv
env = record {
  base = calm no_backup;
  statefulset_of = λ tr. value (some owner);
  claims_of = λ tr. value (claim (some []) (some "fast") ∷ []);
  allows_expansion = λ tr name. value (some (name == "fast"));
  selector_error = none;
  label_keys = "team" ∷ [];
  annotation_keys = "note" ∷ [];
}

reconcile_pvc_calls_example :
    OnlyCalls (ClaimMay (template (pos 20) ∷ [])) (reconcile_pvc env (template (pos 20) ∷ []) []).1
reconcile_pvc_calls_example = reconcile_pvc_calls env (template (pos 20) ∷ [])

synced_panics_example : synced env (template (pos 20)) (claim none (some "fast")) ≡ panic
unfolding lookup
synced_panics_example =
    synced_panics env (template (pos 20)) (claim none (some "fast")) (("app", "mysql") ∷ []) "note"
      "grown" [] refl refl refl refl refl

resize_each_panics_example :
    resize_each env (("mysql-data-moco-test-0", some (pos 20)) ∷ []) (claim (some []) none ∷ []) []
    ≡ (panic, [])
unfolding lookup
resize_each_panics_example =
    resize_each_panics env (("mysql-data-moco-test-0", some (pos 20)) ∷ []) []
      (claim (some []) none) [] (some (pos 20)) [] tt refl refl
