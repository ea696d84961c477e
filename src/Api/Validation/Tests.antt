-- ===== src/Api/Validation/Tests.antt =====
-- Submitted clusters, at which the theorems on the webhook are applied.
use moco.Prelude.{ℕ, ◌≡◌, ◌≤◌, ◌+◌, ◌^◌, refl, arith, true, false, none, some, [], ◌∷◌, ok, message}
use moco.Prelude.Dict.{lookup, has_text}
use moco.Prelude.Int.{pos, add_int32}
use moco.Effects.{value, failure}
use moco.Api.Validation.{
  Container, ClaimTemplate, SubmittedSpec, SubmittedCluster, report, has_data_claim, storage_errors,
  is_reserved_container, name_errors, container_errors, mysqld_of, is_reserved_port,
  is_reserved_port_name, port_errors, mysqld_errors, init_container_errors, is_reserved_volume,
  volume_errors, validate_create, even_replicas, reserved_port, reserved_container,
  nameless_init_container,
}
use moco.Api.Validation.Updates.{
  Cloud, storage_size, is_volume_expansion_supported, is_default_storage_class, first_default,
  get_default_storage_class, old_claim, expansion_errors, growth_errors, source_errors,
  validate_update,
}
use moco.Api.Validation.Updates.Allowed.{IsAllowed, validate_update-IsAllowed}
use moco.Api.Validation.Ids.{
  default_cluster, default_cluster-add_int32, default_cluster-default_cluster, chosen_base,
  random_base, add_finalizer,
}

abbrev mysqld : Container
mysqld = record { name = some "mysqld"; ports = [] }

abbrev data_claim : ℕ → ClaimTemplate
data_claim n = record {
  name = "mysql-data";
  storage_class_name = none;
  requests = some (some (pos n));
}

abbrev spec : SubmittedSpec (Unit {0})
spec = record {
  replicas = pos 3;
  containers = mysqld ∷ [];
  init_containers = some "warm-up" ∷ [];
  volumes = none ∷ some "extra" ∷ [];
  volume_claim_templates = data_claim 10 ∷ [];
  replication_source_secret_name = none;
  collectors = [];
  server_id_base = pos 100;
  log_rotation_schedule = "";
  log_rotation_size = pos 0;
  disable_slow_query_log_container = false;
  restore = none;
}

abbrev larger : SubmittedSpec (Unit {0})
larger = record spec { volume_claim_templates = data_claim 20 ∷ []; replicas = pos 5 }

abbrev cloud : Cloud (Unit {0})
cloud = record {
  storage_class = λ name. failure (message "not found");
  storage_classes = value (
      record { annotations = []; allow_volume_expansion = none }
      ∷ record {
        annotations = ("storageclass.kubernetes.io/is-default-class", "true") ∷ [];
        allow_volume_expansion = some true;
      }
      ∷ []);
  deep_equal = λ x y. true;
}

rejected :
    validate_create
      (λ t. false)
      (record spec {
        replicas = pos 2;
        containers =
            record {
              name = some "mysqld";
              ports = record { container_port = some (pos 9081); name = some "db" } ∷ [];
            }
            ∷ record { name = some "agent"; ports = [] }
            ∷ [];
        init_containers = none ∷ [];
      })
    ≡ even_replicas ∷ reserved_container 1 ∷ reserved_port 0 ∷ nameless_init_container 0 ∷ []
unfolding validate_create report has_data_claim storage_errors container_errors mysqld_of
    is_reserved_port is_reserved_port_name port_errors mysqld_errors init_container_errors
    is_reserved_volume volume_errors is_reserved_container name_errors
rejected = refl

updated : validate_update cloud (λ t. false) larger spec ≡ []
unfolding validate_create report has_data_claim storage_errors container_errors mysqld_of
    is_reserved_port is_reserved_port_name port_errors mysqld_errors init_container_errors
    is_reserved_volume volume_errors is_reserved_container name_errors validate_update storage_size
    is_volume_expansion_supported is_default_storage_class first_default get_default_storage_class
    old_claim expansion_errors growth_errors source_errors lookup
updated = refl

validate_update-IsAllowed_example : IsAllowed cloud (λ t. false) larger spec
validate_update-IsAllowed_example =
    (validate_update-IsAllowed cloud (λ t. false) larger spec).0 updated

abbrev submitted : SubmittedCluster (Unit {0})
submitted = record {
  name = "test";
  finalizers = "other" ∷ [];
  spec = record spec { server_id_base = pos 0 };
}

default_cluster-add_int32_example :
    (c' : SubmittedCluster (Unit {0})) × (b : ℕ) × (default_cluster (some 4294967295) submitted
      ≡ ok c')
    × (c'.spec.server_id_base ≡ pos b)
    × (1 ≤ b)
    × (b ≤ 2 ^ 30)
    × (add_int32 b 2 ≡ pos (b + 2))
default_cluster-add_int32_example =
    default_cluster-add_int32 submitted 4294967295 2 refl (omega arith)

abbrev defaulted : SubmittedCluster (Unit {0})
defaulted = record submitted {
  finalizers = "other" ∷ "moco.cybozu.com/mysqlcluster" ∷ [];
  spec = record spec { server_id_base = pos 8 };
}

default_once : default_cluster (some 7) submitted ≡ ok defaulted
unfolding default_cluster chosen_base random_base add_finalizer has_text
default_once = refl

default_cluster-default_cluster_example : default_cluster none defaulted ≡ ok defaulted
default_cluster-default_cluster_example =
    default_cluster-default_cluster submitted defaulted (some 7) none default_once
