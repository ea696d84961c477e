-- ===== src/Api/Validation/Reserved.antt =====
-- The ports, port names and volumes that users must not take, as lists, and the tests for them
-- (api/v1beta2/mysqlcluster_types.go).
use text.Mathlib.TextEquality.{eq_iff}
use moco.Prelude.{
  ℕ, ◌≡◌, refl, String, ◌==◌, ◌≢◌, ◌↔◌, inl, inr, Bool, true, false, ◌||◌, Option, none, some, List,
  [], ◌∷◌, All, Bool-cases, ||_false, ap, ◌=?◌, =?_iff,
}
use moco.Prelude.Int.{ℤ, pos, negsuc}
use moco.Api.Validation.{is_reserved_port, is_reserved_port_name, is_reserved_volume}

-- `a` is none of the values in the list.
abbrev pub Avoids : {A : Type 0} → A → List A → Type 0
Avoids a l = All (λ x. a ≢ x) l

-- The ports of mysqld, and the port of its health checks.
abbrev pub mysqld_ports : List (Option ℤ)
mysqld_ports = some (pos 3306) ∷ some (pos 33060) ∷ some (pos 33062) ∷ some (pos 9081) ∷ []

abbrev pub mysqld_port_names : List (Option String)
mysqld_port_names = some "mysql" ∷ some "mysqlx" ∷ some "mysql-admin" ∷ some "health" ∷ []

-- The volumes that the operator adds to a pod.
abbrev pub system_volumes : List (Option String)
system_volumes =
    some "tmp"
    ∷ some "run"
    ∷ some "var-log"
    ∷ some "mysql-conf"
    ∷ some "mysql-conf-d"
    ∷ some "my-cnf-secret"
    ∷ some "slow-fluent-bit-config"
    ∷ []

pub eq_false : (s t : String) → ((s == t) ≡ false) ↔ (s ≢ t)
eq_false s t = (
  λ e p. let q : (s == t) ≡ true = (eq_iff s t).1 p in cc,
  λ n. elim (Bool-cases (s == t)) [ inl h ↦ elim (n ((eq_iff s t).0 h)) [ ] | inr h ↦ h ],
)

-- A disjunction of tests is false if each of them is.
or_none :
    (a b : Bool) {A B : Type 0}
    → ((a ≡ false) ↔ A)
    → ((b ≡ false) ↔ B)
    → (((a || b) ≡ false) ↔ (A × B))
or_none a b f g = (λ e. let (x, y) = ||_false a b e in (f.0 x, g.0 y), λ h. rw (f.1 h.0) (g.1 h.1))

last_none : {b : Bool} {A : Type 0} → ((b ≡ false) ↔ A) → ((b ≡ false) ↔ (A × Unit {0}))
last_none f = (λ e. (f.0 e, tt), λ h. f.1 h.0)

name_none : (s t : String) → ((s == t) ≡ false) ↔ (some s ≢ some t)
name_none s t = (λ e p. (eq_false s t).0 e (cc p), λ n. (eq_false s t).1 (λ p. n (ap some p)))

number_none : (m n : ℕ) → ((m =? n) ≡ false) ↔ (some (pos m) ≢ some (pos n))
number_none m n = (
  λ e p. let q : m ≡ n = cc in let t = (=?_iff m n).1 q in cc,
  λ f. elim (Bool-cases (m =? n)) [
    | inl t ↦ elim (f (ap (λ k. some (pos k)) ((=?_iff m n).0 t))) [ ]
    | inr x ↦ x
  ],
)

pub reserved_port_none : (o : Option ℤ) → (is_reserved_port o ≡ false) ↔ Avoids o mysqld_ports
unfolding is_reserved_port
reserved_port_none none = (λ e. (λ p. cc, (λ p. cc, (λ p. cc, (λ p. cc, tt)))), λ h. refl)
reserved_port_none (some (negsuc n)) =
    (λ e. (λ p. cc, (λ p. cc, (λ p. cc, (λ p. cc, tt)))), λ h. refl)
reserved_port_none (some (pos n)) = or_none _ _ (number_none n 3306) (
    or_none _ _ (number_none n 33060)
      (or_none _ _ (number_none n 33062) (last_none (number_none n 9081))))

pub reserved_name_none :
    (o : Option String) → (is_reserved_port_name o ≡ false) ↔ Avoids o mysqld_port_names
unfolding is_reserved_port_name
reserved_name_none none = (λ e. (λ p. cc, (λ p. cc, (λ p. cc, (λ p. cc, tt)))), λ h. refl)
reserved_name_none (some n) = or_none _ _ (name_none n "mysql") (
    or_none _ _ (name_none n "mysqlx")
      (or_none _ _ (name_none n "mysql-admin") (last_none (name_none n "health"))))

pub reserved_volume_none :
    (o : Option String) → (is_reserved_volume o ≡ false) ↔ Avoids o system_volumes
unfolding is_reserved_volume
reserved_volume_none none = (
  λ e. (λ p. cc, (λ p. cc, (λ p. cc, (λ p. cc, (λ p. cc, (λ p. cc, (λ p. cc, tt))))))),
  λ h. refl,
)
reserved_volume_none (some n) = or_none _ _ (name_none n "tmp") (
    or_none _ _ (name_none n "run") (
      or_none _ _ (name_none n "var-log") (
        or_none _ _ (name_none n "mysql-conf") (
          or_none _ _ (name_none n "mysql-conf-d") (
            or_none _ _ (name_none n "my-cnf-secret")
              (last_none (name_none n "slow-fluent-bit-config")))))))
