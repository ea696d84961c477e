-- ===== src/Api/Validation/Acceptable.antt =====
-- Which specs the webhook accepts (api/v1beta2/mysqlcluster_types.go), stated without the order of
-- the tests and without the errors.
use text.Mathlib.TextEquality.{eq_iff}
use moco.Prelude.{
  ℕ, suc, ◌+◌, ◌*◌, ◌≡◌, refl, ◌∙◌, arith, String, ◌==◌, ◌≢◌, ◌↔◌, ◌⊎◌, Bool, true, false, not,
  ◌&&◌, ◌||◌, Option, none, some, List, [], ◌∷◌, ◌++◌, is_some, get_elem?, length, ltb, All,
  ||_false,
}
use moco.Prelude.Int.{pos}
use moco.Api.Validation.Reserved.{
  Avoids, mysqld_ports, mysqld_port_names, system_volumes, eq_false, reserved_port_none,
  reserved_name_none, reserved_volume_none,
}
use moco.Api.Validation.Last.{IsLast}
use moco.Api.Validation.{
  Container, ContainerPort, ClaimTemplate, SubmittedSpec, Errors, FieldError, report,
  storage_errors, is_reserved_container, container_errors, name_errors, port_errors,
  init_container_errors, volume_errors,
}

-- An element with a property.
abbrev pub Some {ℓ} : {A : Type ℓ} → (A → Type 0) → List A → Type ℓ
Some {A = A} P xs = (i : ℕ) × (x : A) × (get_elem? xs i ≡ some x) × P x

-- The container that `xs` names last as mysqld.
abbrev pub IsMysqld : List Container → Container → Type 0
IsMysqld = IsLast (λ c. c.name ≡ some "mysqld")

abbrev pub IsFreePort : ContainerPort → Type 0
IsFreePort p = Avoids p.container_port mysqld_ports × Avoids p.name mysqld_port_names

module _ {Restore : Type 0} (s : SubmittedSpec Restore) where
  abbrev pub IsFreeContainer : Container → Type 0
  IsFreeContainer c =
      (name : String) × (c.name ≡ some name)
      × (name ≢ "agent")
      × (name ≡ "slow-log" → s.disable_slow_query_log_container ≡ true)
      × (name ≡ "mysqld-exporter" → s.collectors ≡ [])

abbrev pub IsFreeInitContainer : Option String → Type 0
IsFreeInitContainer o = (name : String) × (o ≡ some name) × (name ≢ "moco-init")

-- The rules that the webhook enforces.
module _ {Restore : Type 0} (parses : String → Bool) (s : SubmittedSpec Restore) where
  pub record IsAcceptable : Type 0 where
    pub data_claim : Some (λ vc. vc.name ≡ "mysql-data") s.volume_claim_templates
    pub storage : All (λ vc. is_some vc.requests ≡ true) s.volume_claim_templates
    pub server_id : (k : ℕ) × (s.server_id_base ≡ pos (suc k))
    pub schedule : (s.log_rotation_schedule ≡ "") ⊎ (parses s.log_rotation_schedule ≡ true)
    pub log_size : (k : ℕ) × (s.log_rotation_size ≡ pos k)
    pub replicas : (k : ℕ) × (s.replicas ≡ pos (1 + 2 * k))
    pub containers : All (IsFreeContainer s) s.containers
    pub mysqld : (c : Container) × IsMysqld s.containers c × All IsFreePort c.ports
    pub init_containers : All IsFreeInitContainer s.init_containers
    pub volumes : All (λ v. Avoids v system_volumes) s.volumes

pub append_nil :
    {A B : Type 0} {xs ys : Errors}
    → ((xs ≡ []) ↔ A)
    → ((ys ≡ []) ↔ B)
    → ((xs ++ ys ≡ []) ↔ (A × B))
append_nil {xs = []} f g = (λ e. (f.0 refl, g.0 e), λ h. g.1 h.1)
append_nil {xs = x ∷ xs} f g = (λ e. cc, λ h. cc (f.1 h.0))

pub report_nil :
    {A : Type 0} (b : Bool) (e : FieldError) → ((b ≡ false) ↔ A) → ((report b e ≡ []) ↔ A)
unfolding report
report_nil true e f = (λ x. cc, λ a. cc (f.1 a))
report_nil false e f = (λ x. f.0 refl, λ a. refl)

pub not-false : (b : Bool) → (not b ≡ false) ↔ (b ≡ true)
not-false true = (λ e. refl, λ e. refl)
not-false false = (λ e. cc, λ e. cc)

pub storage_errors_nil :
    (l : List ClaimTemplate) → (storage_errors l ≡ []) ↔ All (λ vc. is_some vc.requests ≡ true) l
unfolding storage_errors
storage_errors_nil [] = (λ e. tt, λ e. refl)
storage_errors_nil (vc ∷ rest) =
    append_nil (report_nil _ _ (not-false (is_some vc.requests))) (storage_errors_nil rest)

pub volume_errors_nil :
    (i : ℕ) (l : List (Option String))
    → (volume_errors i l ≡ []) ↔ All (λ v. Avoids v system_volumes) l
unfolding volume_errors
volume_errors_nil i [] = (λ e. tt, λ e. refl)
volume_errors_nil i (v ∷ rest) =
    append_nil (report_nil _ _ (reserved_volume_none v)) (volume_errors_nil (suc i) rest)

pub port_errors_nil : (i : ℕ) (l : List ContainerPort) → (port_errors i l ≡ []) ↔ All IsFreePort l
unfolding port_errors
port_errors_nil i [] = (λ e. tt, λ e. refl)
port_errors_nil i (p ∷ rest) =
    let h =
      append_nil (report_nil _ _ (reserved_port_none p.container_port))
        (append_nil (report_nil _ _ (reserved_name_none p.name)) (port_errors_nil (suc i) rest)) in
    (λ e. let (a, (b, c)) = h.0 e in ((a, b), c), λ h'. h.1 (h'.0.0, (h'.0.1, h'.1)))

pub init_container_errors_nil :
    (i : ℕ) (l : List (Option String))
    → (init_container_errors i l ≡ []) ↔ All IsFreeInitContainer l
unfolding init_container_errors
init_container_errors_nil i [] = (λ e. tt, λ e. refl)
init_container_errors_nil i (none ∷ rest) = (λ e. cc, λ h. cc h.0.1)
init_container_errors_nil i (some name ∷ rest) =
    append_nil
      (report_nil _ _ (
        λ e. (name, refl, (eq_false name "moco-init").0 e),
        λ h. (eq_false name "moco-init").1 (λ p. h.2 (let q : h.0 ≡ name = cc h.1 in q ∙ p)),
      ))
      (init_container_errors_nil (suc i) rest)

both_false :
    (x y a b : Bool)
    → (x ≡ true → a ≡ true)
    → (y ≡ true → b ≡ true)
    → ((x && not a) || (y && not b)) ≡ false
both_false true true a b f g = rw (f refl, g refl) refl
both_false true false a b f g = rw (f refl) refl
both_false false true a b f g = rw (g refl) refl
both_false false false a b f g = refl

reserved_container_false :
    (a b : Bool) (name : String)
    → (is_reserved_container a b name ≡ false)
      ↔ ((name ≢ "agent") × (name ≡ "slow-log" → a ≡ true) × (name ≡ "mysqld-exporter" → b ≡ true))
unfolding is_reserved_container
reserved_container_false a b name =
    let p = eq_false name "agent" in
    (
      λ e.
          let (x, y) = ||_false (name == "agent") _ e in
          let (y', z) = ||_false ((name == "slow-log") && not a) _ y in
          (
            p.0 x,
            λ n. let t = (eq_iff name "slow-log").1 n in ground arith,
            λ n. let t = (eq_iff name "mysqld-exporter").1 n in ground arith,
          ),
      λ h. rw (p.1 h.0) (
          both_false (name == "slow-log") (name == "mysqld-exporter") a b
            (λ e. h.1 ((eq_iff name "slow-log").0 e))
            (λ e. h.2 ((eq_iff name "mysqld-exporter").0 e))),
    )

no_collectors : (l : List String) → (not (ltb 0 (length l)) ≡ true) ↔ (l ≡ [])
no_collectors [] = (λ e. refl, λ e. refl)
no_collectors (x ∷ xs) = (λ e. ground arith, λ e. cc)

module _ {Restore : Type 0} (s : SubmittedSpec Restore) where
  abbrev pub no_exporter : Bool
  no_exporter = not (ltb 0 (length s.collectors))

  name_errors_nil :
      (c : Container) (i : ℕ) (o : Option String)
      → c.name ≡ o
      → (name_errors s.disable_slow_query_log_container no_exporter i o ≡ []) ↔ IsFreeContainer s c
  unfolding name_errors
  name_errors_nil c i none e = (λ x. cc, λ h. let k = h.1 in cc)
  name_errors_nil c i (some name) e =
      let r = reserved_container_false s.disable_slow_query_log_container no_exporter name in
      let n = no_collectors s.collectors in
      report_nil _ _ (
        λ x. let (a, b, d) = r.0 x in (name, e, a, b, λ p. n.0 (d p)),
        λ h.
            let q : h.0 ≡ name = (let k = h.1 in cc) in
            r.1 (rw q at (h.2), rw q at (h.3), λ p. n.1 (h.4 (q ∙ p))),
      )

  pub container_errors_nil :
      (i : ℕ) (l : List Container)
      → (container_errors s.disable_slow_query_log_container no_exporter i l ≡ [])
        ↔ All (IsFreeContainer s) l
  unfolding container_errors
  container_errors_nil i [] = (λ e. tt, λ e. refl)
  container_errors_nil i (c ∷ rest) =
      append_nil (name_errors_nil c i c.name refl) (container_errors_nil (suc i) rest)
