-- ===== src/Api/Validation/Accepted.antt =====
-- That the webhook accepts exactly the specs that satisfy its rules (api/v1beta2/mysqlcluster_types.go,
-- api/v1beta2/mysqlcluster_webhook.go).
use text.Mathlib.TextEquality.{eq_iff}
use moco.Prelude.{
  ℕ, zero, suc, ◌+◌, ◌*◌, ◌/◌, ◌≡◌, refl, ap, ◌∙◌, arith, String, ◌==◌, ◌↔◌, ◌⊎◌, inl, inr, Bool,
  true, false, not, ◌&&◌, ◌||◌, Option, none, some, List, [], ◌∷◌, All, Bool-cases, Option-cases,
}
use moco.Prelude.Int.{ℤ, pos, negsuc, ltb_ℤ}
use moco.Api.Validation.{
  Container, ClaimTemplate, SubmittedSpec, has_data_claim, is_even, is_positive, mysqld_of,
  is_mysqld, later_or, mysqld_errors, has_bad_schedule, validate_create,
}
use moco.Api.Validation.Last.{find_last, find_last_iff}
use moco.Api.Validation.Acceptable.{
  Some, IsMysqld, IsFreePort, IsAcceptable, append_nil, report_nil, not-false, storage_errors_nil,
  volume_errors_nil, port_errors_nil, init_container_errors_nil, container_errors_nil,
}

or_true : (a b : Bool) → (a || b) ≡ true → (a ≡ true) ⊎ (b ≡ true)
or_true true b e = inl refl
or_true false b e = inr e

||_anything : (a : Bool) → (a || true) ≡ true
||_anything true = refl
||_anything false = refl

abbrev HasDataClaim : List ClaimTemplate → Type 0
HasDataClaim l = Some (λ vc. vc.name ≡ "mysql-data") l

Some-has_data_claim : (l : List ClaimTemplate) → HasDataClaim l → has_data_claim l ≡ true
unfolding has_data_claim
Some-has_data_claim [] h = let k = h.2 in cc
Some-has_data_claim (vc ∷ rest) (zero, x, h, n) =
    let k : vc ≡ x = cc in rw ((eq_iff vc.name "mysql-data").1 (ap (λ c. c.name) k ∙ n)) refl
Some-has_data_claim (vc ∷ rest) (suc i, x, h, n) =
    rw (Some-has_data_claim rest (i, x, h, n)) (||_anything (vc.name == "mysql-data"))

has_data_claim-Some : (l : List ClaimTemplate) → has_data_claim l ≡ true → HasDataClaim l
unfolding has_data_claim
has_data_claim-Some [] e = cc
has_data_claim-Some (vc ∷ rest) e = elim (or_true (vc.name == "mysql-data") _ e) [
  | inl t ↦ (zero, vc, refl, (eq_iff vc.name "mysql-data").0 t)
  | inr t ↦ let (i, x, h, n) = has_data_claim-Some rest t in (suc i, x, h, n)
]

is_mysqld_iff : (o : Option String) → (is_mysqld o ≡ true) ↔ (o ≡ some "mysqld")
is_mysqld_iff none = (λ e. cc, λ e. cc)
is_mysqld_iff (some n) = (λ e. ap some ((eq_iff n "mysqld").0 e), λ e. (eq_iff n "mysqld").1 (cc e))

mysqld_test_iff : (c : Container) → (is_mysqld c.name ≡ true) ↔ (c.name ≡ some "mysqld")
mysqld_test_iff c = is_mysqld_iff c.name

mysqld_of-find_last : (xs : List Container) → mysqld_of xs ≡ find_last (λ c. is_mysqld c.name) xs
unfolding mysqld_of find_last
mysqld_of-find_last [] = refl
mysqld_of-find_last (c ∷ rest) = ap (λ o. later_or o c) (mysqld_of-find_last rest)

mysqld_of_iff : (xs : List Container) (c : Container) → (mysqld_of xs ≡ some c) ↔ IsMysqld xs c
mysqld_of_iff xs c =
    rw (mysqld_of-find_last xs)
      (find_last_iff (λ d. is_mysqld d.name) (λ d. d.name ≡ some "mysqld") mysqld_test_iff xs c)

positive_iff : (n : ℤ) → (not (is_positive n) ≡ false) ↔ ((k : ℕ) × (n ≡ pos (suc k)))
positive_iff (pos zero) = (λ e. ground arith, λ h. let k = h.1 in cc)
positive_iff (pos (suc n)) = (λ e. (n, refl), λ h. ground arith)
positive_iff (negsuc n) = (λ e. ground arith, λ h. let k = h.1 in cc)

negative_iff : (n : ℤ) → (ltb_ℤ n (pos 0) ≡ false) ↔ ((k : ℕ) × (n ≡ pos k))
negative_iff (pos n) = (λ e. (n, refl), λ h. ground arith)
negative_iff (negsuc n) = (λ e. ground arith, λ h. let k = h.1 in cc)

odd_iff :
    (n : ℤ) → ((is_even n ≡ false) × (is_positive n ≡ true)) ↔ ((k : ℕ) × (n ≡ pos (1 + 2 * k)))
odd_iff (pos n) = (
  λ e. let (a, b) = e in (n / 2, ap pos (ground arith)),
  λ h. let k : n ≡ 1 + 2 * h.0 = (let q = h.1 in cc) in (ground arith, ground arith),
)
odd_iff (negsuc n) = (λ e. let k = e.1 in ground arith, λ h. let k = h.1 in cc)

and_false : (a : Bool) → (a && false) ≡ false
and_false true = refl
and_false false = refl

module _ {Restore : Type 0} (parses : String → Bool) (s : SubmittedSpec Restore) where
  schedule_iff :
      (has_bad_schedule parses s ≡ false)
      ↔ ((s.log_rotation_schedule ≡ "") ⊎ (parses s.log_rotation_schedule ≡ true))
  schedule_iff = (
    λ e. elim (Bool-cases (s.log_rotation_schedule == "")) [
      | inl t ↦ inl ((eq_iff _ "").0 t)
      | inr f ↦
          inr
            (let k : not (parses s.log_rotation_schedule) ≡ false = rw f at e in (not-false _).0 k)
    ],
    λ h. elim h [
      | inl t ↦ rw ((eq_iff s.log_rotation_schedule "").1 t) refl
      | inr f ↦ rw f (and_false (not (s.log_rotation_schedule == "")))
    ],
  )

  mysqld_iff :
      (mysqld_errors (mysqld_of s.containers) ≡ [])
      ↔ ((c : Container) × IsMysqld s.containers c × All IsFreePort c.ports)
  unfolding mysqld_errors
  mysqld_iff = elim (Option-cases (mysqld_of s.containers)) [
    | inl e ↦ rw e (λ x. cc, λ h. let k = (mysqld_of_iff s.containers h.0).1 h.1 in cc)
    | inr f ↦ rw (f.1) (
      λ x. (f.0, (mysqld_of_iff s.containers f.0).0 f.1, (port_errors_nil 0 _).0 x),
      λ h.
          let k = (mysqld_of_iff s.containers h.0).1 h.1 in
          let q : f.0 ≡ h.0 = cc in (port_errors_nil 0 _).1 (rw q (h.2)),
    )
  ]

  claim_iff :
      (not (has_data_claim s.volume_claim_templates) ≡ false)
      ↔ HasDataClaim s.volume_claim_templates
  claim_iff = (
    λ e. has_data_claim-Some _ ((not-false _).0 e),
    λ h. (not-false _).1 (Some-has_data_claim _ h),
  )

  pub validate_create-IsAcceptable : (validate_create parses s ≡ []) ↔ IsAcceptable parses s
  unfolding validate_create
  validate_create-IsAcceptable =
      let h = append_nil (report_nil _ _ claim_iff) (
        append_nil (storage_errors_nil _) (
          append_nil (report_nil _ _ (positive_iff s.server_id_base)) (
            append_nil (report_nil _ _ schedule_iff) (
              append_nil (report_nil _ _ (negative_iff s.log_rotation_size)) (
                append_nil (report_nil (is_even s.replicas) _ (λ e. e, λ e. e)) (
                  append_nil (report_nil _ _ (not-false (is_positive s.replicas))) (
                    append_nil (container_errors_nil s 0 _) (
                      append_nil mysqld_iff (
                        append_nil (init_container_errors_nil 0 _)
                          (volume_errors_nil 0 _)))))))))) in
      (
        λ x.
            let (c, (st, (si, (sc, (ls, (ev, (po, (cs, (my, (ic, vs)))))))))) = h.0 x in
            record {
              data_claim = c;
              storage = st;
              server_id = si;
              schedule = sc;
              log_size = ls;
              replicas = (odd_iff s.replicas).0 (ev, (not-false _).0 ((not-false _).1 po));
              containers = cs;
              mysqld = my;
              init_containers = ic;
              volumes = vs;
            },
        λ a.
            let (ev, po) = (odd_iff s.replicas).1 a.replicas in
            h.1 (
              a.data_claim,
              (
                a.storage,
                (
                  a.server_id,
                  (
                    a.schedule,
                    (
                      a.log_size,
                      (ev, (po, (a.containers, (a.mysqld, (a.init_containers, a.volumes))))),
                    ),
                  ),
                ),
              ),
            ),
      )
