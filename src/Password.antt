-- ===== src/Password.antt =====
-- The passwords of the MySQL users that a cluster has for the operator's own use, and the Secret that
-- keeps them (pkg/password/password.go). A byte slice of text is that text. `crypto/rand` and
-- `encoding/hex` are parameters: each call of the generator is named by its number.
pub mod Codec
mod Tests
use moco.Prelude.{
  ℕ, String, Bool, true, false, ◌==◌, ◌<>◌, if◌then◌else◌, List, [], ◌∷◌, Outcome, ok, err, ◌>>=◌,
  message,
}
use moco.Prelude.Dict.{Dict, value_of}

-- `MySQLPassword`, all fields.
pub record Passwords : Type 0 where
  pub admin : String
  pub agent : String
  pub replicator : String
  pub donor : String
  pub exporter : String
  pub backup : String
  pub read_only : String
  pub writable : String

-- The fields of a `corev1.Secret` that the code reads or writes; `entries` is its `Data`.
pub record Secret : Type 0 where
  pub annotations : Dict String
  pub entries : Dict String

module _ (random : ℕ → Outcome String) where
  unfoldable pub new_passwords : Outcome Passwords
  new_passwords = do
    admin ← random 0
    agent ← random 1
    replicator ← random 2
    donor ← random 3
    exporter ← random 4
    backup ← random 5
    read_only ← random 6
    writable ← random 7
    ok (record {
      admin = admin;
      agent = agent;
      replicator = replicator;
      donor = donor;
      exporter = exporter;
      backup = backup;
      read_only = read_only;
      writable = writable;
    })

unfoldable pub passwords_from_secret : Secret → Outcome Passwords
passwords_from_secret s =
    if value_of "moco.cybozu.com/secret-version" s.annotations == "1"
    then ok (record {
      admin = value_of "ADMIN_PASSWORD" s.entries;
      agent = value_of "AGENT_PASSWORD" s.entries;
      replicator = value_of "REPLICATION_PASSWORD" s.entries;
      donor = value_of "CLONE_DONOR_PASSWORD" s.entries;
      exporter = value_of "EXPORTER_PASSWORD" s.entries;
      backup = value_of "BACKUP_PASSWORD" s.entries;
      read_only = value_of "READONLY_PASSWORD" s.entries;
      writable = value_of "WRITABLE_PASSWORD" s.entries;
    })
    else err (message "secret does not have valid annotation")

unfoldable pub to_secret : Passwords → Secret
to_secret p = record {
  annotations = ("moco.cybozu.com/secret-version", "1") ∷ [];
  entries =
      ("ADMIN_PASSWORD", p.admin)
      ∷ ("AGENT_PASSWORD", p.agent)
      ∷ ("REPLICATION_PASSWORD", p.replicator)
      ∷ ("CLONE_DONOR_PASSWORD", p.donor)
      ∷ ("EXPORTER_PASSWORD", p.exporter)
      ∷ ("BACKUP_PASSWORD", p.backup)
      ∷ ("READONLY_PASSWORD", p.read_only)
      ∷ ("WRITABLE_PASSWORD", p.writable)
      ∷ [];
}

-- `mycnfTmpl`, executed; `quote` is the verb `%q` of fmt.
module _ (quote : String → String) where
  unfoldable pub format_my_cnf : String → String → String → String
  format_my_cnf user pwd socket =
      "[client]\nuser="
      <> quote user
      <> "\npassword="
      <> quote pwd
      <> "\n"
      <> (if socket == "" then "" else "socket=" <> quote socket <> "\n")

  unfoldable pub to_my_cnf_secret : Passwords → Secret
  unfolding format_my_cnf
  to_my_cnf_secret p = record {
    annotations = ("moco.cybozu.com/secret-version", "1") ∷ [];
    entries =
        ("moco-admin-my.cnf", format_my_cnf "moco-admin" p.admin "")
        ∷ ("moco-exporter-my.cnf", format_my_cnf "moco-exporter" p.exporter "/run/mysqld.sock")
        ∷ ("moco-backup-my.cnf", format_my_cnf "moco-backup" p.backup "")
        ∷ ("moco-readonly-my.cnf", format_my_cnf "moco-readonly" p.read_only "")
        ∷ ("moco-writable-my.cnf", format_my_cnf "moco-writable" p.writable "")
        ∷ [];
  }
