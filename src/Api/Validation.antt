-- ===== src/Api/Validation.antt =====
-- The admission webhook of `MySQLCluster`: the defaults and the tests of a submitted resource
-- (api/v1beta2/mysqlcluster_webhook.go; `validateCreate` and `validateUpdate` of
-- api/v1beta2/mysqlcluster_types.go). `Restore` is the type of `spec.restore`; quantities are
-- integers; a `field.Error` is named by its message, with the index in the path.
pub mod Last
pub mod Reserved
pub mod Acceptable
pub mod Accepted
pub mod Updates
pub mod Ids
mod Tests
use moco.Prelude.{
  ℕ, suc, ◌+◌, ◌%◌, ◌^◌, String, ◌==◌, Bool, true, false, not, ◌&&◌, ◌||◌, ◌=?◌, Option, none, some,
  List, [], ◌∷◌, ◌++◌, if◌then◌else◌, is_some, get_elem?, length, ltb,
}
use moco.Prelude.Dict.{Dict, value_of}
use moco.Prelude.Int.{ℤ, pos, negsuc, ltb_ℤ}
use moco.Effects.{Reply, value, failure}

pub record ContainerPort : Type 0 where
  pub container_port : Option ℤ
  pub name : Option String

pub record Container : Type 0 where
  pub name : Option String
  pub ports : List ContainerPort

-- `requests` is `none` where the resources or their requests are nil; the storage request is
-- `some none` where the map of the requests has no entry for it.
pub record ClaimTemplate : Type 0 where
  pub name : String
  pub storage_class_name : Option String
  pub requests : Option (Option ℤ)

pub record SubmittedSpec (Restore : Type 0) : Type 0 where
  pub replicas : ℤ
  pub containers : List Container
  pub init_containers : List (Option String)
  pub volumes : List (Option String)
  pub volume_claim_templates : List ClaimTemplate
  pub replication_source_secret_name : Option String
  pub collectors : List String
  pub server_id_base : ℤ
  pub log_rotation_schedule : String
  pub log_rotation_size : ℤ
  pub disable_slow_query_log_container : Bool
  pub restore : Option Restore

pub record SubmittedCluster (Restore : Type 0) : Type 0 where
  pub name : String
  pub finalizers : List String
  pub spec : SubmittedSpec Restore

pub data FieldError : Type 0 where
  name_too_long : FieldError
  missing_data_claim : FieldError
  missing_storage_requests : String → FieldError
  bad_server_id_base bad_schedule bad_log_rotation_size : FieldError
  even_replicas no_replicas : FieldError
  nameless_container reserved_container : ℕ → FieldError
  missing_mysqld : FieldError
  reserved_port reserved_port_name : ℕ → FieldError
  nameless_init_container reserved_init_container : ℕ → FieldError
  reserved_volume : ℕ → FieldError
  fewer_replicas late_replication changed_source changed_restore : FieldError
  unknown_storage_class unexpandable_storage_class : ℕ → FieldError
  unknown_default_class unexpandable_default_class : ℕ → FieldError

abbrev pub Errors : Type 0
Errors = List FieldError

-- `append` where a test fails.
unfoldable pub report : Bool → FieldError → Errors
report true e = e ∷ []
report false e = []

unfoldable pub has_data_claim : List ClaimTemplate → Bool
has_data_claim [] = false
has_data_claim (vc ∷ rest) = (vc.name == "mysql-data") || has_data_claim rest

unfoldable pub storage_errors : List ClaimTemplate → Errors
unfolding report
storage_errors [] = []
storage_errors (vc ∷ rest) =
    report (not (is_some vc.requests)) (missing_storage_requests vc.name) ++ storage_errors rest

-- `% 2` is -1 at a negative odd number.
abbrev pub is_even : ℤ → Bool
is_even (pos n) = n % 2 =? 0
is_even (negsuc n) = suc n % 2 =? 0

abbrev pub is_positive : ℤ → Bool
is_positive n = ltb_ℤ (pos 0) n

unfoldable pub is_reserved_container : Bool → Bool → String → Bool
is_reserved_container no_slow_log no_exporter name =
    (name == "agent")
    || (((name == "slow-log") && not no_slow_log)
        || ((name == "mysqld-exporter") && not no_exporter))

-- The names are different, so that at most one of the three tests reports an error.
unfoldable pub name_errors : Bool → Bool → ℕ → Option String → Errors
unfolding report
name_errors no_slow_log no_exporter i none = nameless_container i ∷ []
name_errors no_slow_log no_exporter i (some name) =
    report (is_reserved_container no_slow_log no_exporter name) (reserved_container i)

unfoldable pub container_errors : Bool → Bool → ℕ → List Container → Errors
unfolding name_errors
container_errors no_slow_log no_exporter i [] = []
container_errors no_slow_log no_exporter i (c ∷ rest) =
    name_errors no_slow_log no_exporter i c.name
    ++ container_errors no_slow_log no_exporter (suc i) rest

abbrev pub is_mysqld : Option String → Bool
is_mysqld none = false
is_mysqld (some name) = name == "mysqld"

abbrev pub later_or : Option Container → Container → Option Container
later_or (some m) c = some m
later_or none c = if is_mysqld c.name then some c else none

-- The last container of that name.
unfoldable pub mysqld_of : List Container → Option Container
mysqld_of [] = none
mysqld_of (c ∷ rest) = later_or (mysqld_of rest) c

unfoldable pub is_reserved_port : Option ℤ → Bool
is_reserved_port (some (pos n)) = (n =? 3306) || ((n =? 33060) || ((n =? 33062) || (n =? 9081)))
is_reserved_port (some (negsuc n)) = false
is_reserved_port none = false

unfoldable pub is_reserved_port_name : Option String → Bool
is_reserved_port_name none = false
is_reserved_port_name (some n) =
    (n == "mysql") || ((n == "mysqlx") || ((n == "mysql-admin") || (n == "health")))

unfoldable pub port_errors : ℕ → List ContainerPort → Errors
unfolding report
port_errors i [] = []
port_errors i (p ∷ rest) =
    report (is_reserved_port p.container_port) (reserved_port i)
    ++ (report (is_reserved_port_name p.name) (reserved_port_name i) ++ port_errors (suc i) rest)

unfoldable pub mysqld_errors : Option Container → Errors
mysqld_errors none = missing_mysqld ∷ []
mysqld_errors (some c) = port_errors 0 c.ports

unfoldable pub init_container_errors : ℕ → List (Option String) → Errors
unfolding report
init_container_errors i [] = []
init_container_errors i (none ∷ rest) =
    nameless_init_container i ∷ init_container_errors (suc i) rest
init_container_errors i (some name ∷ rest) =
    report (name == "moco-init") (reserved_init_container i) ++ init_container_errors (suc i) rest

unfoldable pub is_reserved_volume : Option String → Bool
is_reserved_volume none = false
is_reserved_volume (some n) =
    (n == "tmp")
    || ((n == "run")
        || ((n == "var-log")
            || ((n == "mysql-conf")
                || ((n == "mysql-conf-d")
                    || ((n == "my-cnf-secret") || (n == "slow-fluent-bit-config"))))))

unfoldable pub volume_errors : ℕ → List (Option String) → Errors
unfolding report
volume_errors i [] = []
volume_errors i (v ∷ rest) =
    report (is_reserved_volume v) (reserved_volume i) ++ volume_errors (suc i) rest

-- `cron.ParseStandard` succeeds.
module _ {Restore : Type 0} (parses : String → Bool) where
  abbrev pub has_bad_schedule : SubmittedSpec Restore → Bool
  has_bad_schedule s = not (s.log_rotation_schedule == "") && not (parses s.log_rotation_schedule)

  unfoldable pub validate_create : SubmittedSpec Restore → Errors
  unfolding report
  validate_create s =
      report (not (has_data_claim s.volume_claim_templates)) missing_data_claim
      ++ (storage_errors s.volume_claim_templates
          ++ (report (not (is_positive s.server_id_base)) bad_server_id_base
              ++ (report (has_bad_schedule s) bad_schedule
                  ++ (report (ltb_ℤ s.log_rotation_size (pos 0)) bad_log_rotation_size
                      ++ (report (is_even s.replicas) even_replicas
                          ++ (report (not (is_positive s.replicas)) no_replicas
                              ++ (container_errors s.disable_slow_query_log_container
                                    (not (ltb 0 (length s.collectors))) 0 s.containers
                                  ++ (mysqld_errors (mysqld_of s.containers)
                                      ++ (init_container_errors 0 s.init_containers
                                          ++ volume_errors 0 s.volumes)))))))))

  -- `ValidateCreate`; `size` is the number of bytes of a text.
  unfoldable pub validate_new : (String → ℕ) → SubmittedCluster Restore → Errors
  unfolding report validate_create
  validate_new size c = report (ltb 40 (size c.name)) name_too_long ++ validate_create c.spec
