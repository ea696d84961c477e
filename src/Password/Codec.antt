-- ===== src/Password/Codec.antt =====
-- The Secret that keeps the passwords, written and read back (pkg/password/password.go).
use moco.Prelude.{String, ◌≡◌, refl, ok}
use moco.Prelude.Dict.{Dict, lookup}
use moco.Password.{Passwords, Secret, passwords_from_secret, to_secret}

-- The two maps have the same value at each key.
abbrev pub SameEntries : Dict String → Dict String → Type 0
SameEntries d d' = (k : String) → lookup k d ≡ lookup k d'

-- The passwords read from a Secret that has, in any order, the entries of the Secret made of some
-- passwords, are these passwords.
pub passwords_from_secret-to_secret :
    (p : Passwords) (stored : Secret)
    → SameEntries stored.annotations (to_secret p).annotations
    → SameEntries stored.entries (to_secret p).entries
    → passwords_from_secret stored ≡ ok p
unfolding passwords_from_secret to_secret lookup
passwords_from_secret-to_secret p stored a d =
    rw
      (
        a "moco.cybozu.com/secret-version",
        d "ADMIN_PASSWORD",
        d "AGENT_PASSWORD",
        d "REPLICATION_PASSWORD",
        d "CLONE_DONOR_PASSWORD",
        d "EXPORTER_PASSWORD",
        d "BACKUP_PASSWORD",
        d "READONLY_PASSWORD",
        d "WRITABLE_PASSWORD",
      )
      refl
