-- ===== src/Password/Tests.antt =====
-- Some passwords, kept in a Secret.
use moco.Prelude.{◌≡◌, refl, ok}
use moco.Password.{Passwords, passwords_from_secret, to_secret}
use moco.Password.Codec.{passwords_from_secret-to_secret}

abbrev some_passwords : Passwords
some_passwords = record {
  admin = "a0";
  agent = "b1";
  replicator = "c2";
  donor = "d3";
  exporter = "e4";
  backup = "f5";
  read_only = "06";
  writable = "17";
}

passwords_from_secret-to_secret_example :
    passwords_from_secret (to_secret some_passwords) ≡ ok some_passwords
passwords_from_secret-to_secret_example =
    passwords_from_secret-to_secret some_passwords (to_secret some_passwords) (λ k. refl)
      (λ k. refl)
