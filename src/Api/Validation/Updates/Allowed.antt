-- ===== src/Api/Validation/Updates/Allowed.antt =====
-- Which changes of a spec the webhook allows (api/v1beta2/mysqlcluster_types.go).
use text.Mathlib.TextEquality.{eq_iff}
use moco.Prelude.{
  ℕ, suc, String, ◌≡◌, ◌↔◌, refl, Bool, true, false, Option, none, some, List, [], ◌∷◌,
  if◌then◌else◌, get_or, Bool-cases, inl, inr, All, Option-cases,
}
use moco.Prelude.Int.{ℤ, ltb_ℤ}
use moco.Effects.{Reply, value, failure}
use moco.Api.Validation.{ClaimTemplate, SubmittedSpec, Errors}
use moco.Api.Validation.Last.{IsLast}
use moco.Api.Validation.Updates.Volumes.{
  HasSize, IsDefault, IsFirst, HasSize-storage_size, storage_size-HasSize, IsDefault-class_iff,
  old_claim_iff,
}
use moco.Api.Validation.Acceptable.{IsAcceptable, append_nil, report_nil, not-false}
use moco.Api.Validation.Accepted.{validate_create-IsAcceptable}
use moco.Api.Validation.Updates.{
  StorageClass, Cloud, is_volume_expansion_supported, get_default_storage_class, old_claim,
  is_larger, class_errors, storage_size, default_errors, expansion_errors, growth_errors,
  source_errors, validate_update,
}

iff_trans : {A B C : Type 0} → (A ↔ B) → (B ↔ C) → (A ↔ C)
iff_trans f g = (λ a. g.0 (f.0 a), λ c. f.1 (g.1 c))

module _ {Restore : Type 0} (cloud : Cloud Restore) where
  -- The storage class of a claim can be read and allows expansion; that of a claim that names none
  -- is the first one that is marked as the default.
  abbrev pub Expandable : Option String → Type 0
  Expandable (some name) =
      (sc : StorageClass) × (cloud.storage_class name ≡ value sc)
      × (sc.allow_volume_expansion ≡ some true)
  Expandable none =
      (scs : List StorageClass) × (sc : StorageClass) × (cloud.storage_classes ≡ value scs)
      × IsFirst IsDefault scs sc
      × (sc.allow_volume_expansion ≡ some true)

  -- Where the claim of that name, the last one, requested less, the storage class has to allow it.
  abbrev pub MayGrow : List ClaimTemplate → ClaimTemplate → Type 0
  MayGrow olds pvc =
      (old : ClaimTemplate) (m n : ℤ)
      → IsLast (λ c. c.name ≡ pvc.name) olds old
      → HasSize old m
      → HasSize pvc n
      → ltb_ℤ m n ≡ true
      → Expandable pvc.storage_class_name

  abbrev pub KeepsSource : Option String → Option String → Type 0
  KeepsSource new old = (name : String) → new ≡ some name → old ≡ some name

  supported_iff :
      (sc : StorageClass)
      → (is_volume_expansion_supported sc ≡ true) ↔ (sc.allow_volume_expansion ≡ some true)
  unfolding is_volume_expansion_supported
  supported_iff sc = from_option sc.allow_volume_expansion
    where
      from_option : (o : Option Bool) → (get_or false o ≡ true) ↔ (o ≡ some true)
      from_option none = (λ e. cc, λ e. cc)
      from_option (some b) = (λ e. cc, λ e. cc)

  class_errors_nil :
      (i : ℕ) (r : Reply StorageClass)
      → (class_errors cloud i r ≡ [])
        ↔ ((sc : StorageClass) × (r ≡ value sc) × (sc.allow_volume_expansion ≡ some true))
  class_errors_nil i (failure e) = (λ x. cc, λ h. let k = h.1 in cc)
  class_errors_nil i (value sc) = elim (Bool-cases (is_volume_expansion_supported sc)) [
    | inl t ↦ rw t (λ x. (sc, refl, (supported_iff sc).0 t), λ h. refl)
    | inr f ↦ rw f (
      λ x. cc,
      λ h.
          let q : h.0 ≡ sc = (let k = h.1 in cc) in
          let t = (supported_iff sc).1 (rw q at (h.2)) in cc,
    )
  ]

  default_errors_nil :
      (i : ℕ) (o : Option StorageClass)
      → (default_errors cloud i o ≡ [])
        ↔ ((sc : StorageClass) × (o ≡ some sc) × (sc.allow_volume_expansion ≡ some true))
  default_errors_nil i none = (λ x. cc, λ h. let k = h.1 in cc)
  default_errors_nil i (some sc) = elim (Bool-cases (is_volume_expansion_supported sc)) [
    | inl t ↦ rw t (λ x. (sc, refl, (supported_iff sc).0 t), λ h. refl)
    | inr f ↦ rw f (
      λ x. cc,
      λ h.
          let q : h.0 ≡ sc = (let k = h.1 in cc) in
          let t = (supported_iff sc).1 (rw q at (h.2)) in cc,
    )
  ]

  expansion_errors_nil :
      (i : ℕ) (o : Option String) → (expansion_errors cloud i o ≡ []) ↔ Expandable o
  unfolding expansion_errors
  expansion_errors_nil i (some name) = class_errors_nil i (cloud.storage_class name)
  expansion_errors_nil i none =
      let d = default_errors_nil i (get_default_storage_class cloud.storage_classes) in
      (
        λ e.
            let (sc, g, x) = d.0 e in
            let (scs, r, f) = (IsDefault-class_iff cloud.storage_classes sc).0 g in
            (scs, sc, r, f, x),
        λ h. d.1 (h.1, (IsDefault-class_iff cloud.storage_classes (h.1)).1 (h.0, h.2, h.3), h.4),
      )

  if_nil :
      (b : Bool) (xs : Errors) {A : Type 0}
      → ((xs ≡ []) ↔ A)
      → (((if b then xs else []) ≡ []) ↔ (b ≡ true → A))
  if_nil true xs f = (λ e _. f.0 e, λ h. f.1 (h refl))
  if_nil false xs f = (λ e h. cc, λ h. refl)

  grows_iff :
      (olds : List ClaimTemplate) (pvc : ClaimTemplate)
      → (is_larger pvc (old_claim pvc.name olds) ≡ true → Expandable pvc.storage_class_name)
        ↔ MayGrow olds pvc
  grows_iff olds pvc = (
    λ f old m n last hm hn lt. f (
        rw
          (
            (old_claim_iff pvc.name olds old).1 last,
            ← HasSize-storage_size old m hm,
            ← HasSize-storage_size pvc n hn,
          )
          lt),
    λ may lt. elim (Option-cases (old_claim pvc.name olds)) [
      | inl e ↦ let k : false ≡ true = rw e at lt in cc
      | inr (old, e) ↦
          may old (storage_size old) (storage_size pvc) ((old_claim_iff pvc.name olds old).0 e)
            (storage_size-HasSize old) (storage_size-HasSize pvc) (rw e at lt)
    ],
  )

  growth_errors_nil :
      (olds : List ClaimTemplate) (i : ℕ) (l : List ClaimTemplate)
      → (growth_errors cloud olds i l ≡ []) ↔ All (MayGrow olds) l
  unfolding growth_errors
  growth_errors_nil olds i [] = (λ e. tt, λ e. refl)
  growth_errors_nil olds i (pvc ∷ rest) =
      append_nil
        (iff_trans (if_nil _ _ (expansion_errors_nil i pvc.storage_class_name))
          (grows_iff olds pvc))
        (growth_errors_nil olds (suc i) rest)

  source_errors_nil :
      (new old : Option String) → (source_errors cloud new old ≡ []) ↔ KeepsSource new old
  unfolding source_errors
  source_errors_nil none old = (λ e n h. cc, λ h. refl)
  source_errors_nil (some new) none = (λ e. cc, λ h. let k = h new refl in cc)
  source_errors_nil (some new) (some old) = report_nil _ _ (
    λ e n h. let q = (eq_iff new old).0 ((not-false _).0 e) in cc,
    λ h. (not-false _).1 ((eq_iff new old).1 (let k = h new refl in cc)),
  )

  pub record IsAllowed (parses : String → Bool) (new old : SubmittedSpec Restore) : Type 0 where
    pub acceptable : IsAcceptable parses new
    pub no_fewer_replicas : ltb_ℤ new.replicas old.replicas ≡ false
    pub same_source :
        KeepsSource new.replication_source_secret_name old.replication_source_secret_name
    pub same_restore : cloud.deep_equal new.restore old.restore ≡ true
    pub growth : All (MayGrow old.volume_claim_templates) new.volume_claim_templates

  -- A change of a spec is accepted if and only if the new spec satisfies the rules for new specs,
  -- the number of replicas does not decrease (it may increase), a replication source that the new spec
  -- names is that of the old one (it may be dropped), the restoration is the same, and each claim that
  -- requests more than the last old claim of its name has a storage class that can be read and allows
  -- expansion, the first default class where it names none.
  pub validate_update-IsAllowed :
      (parses : String → Bool) (new old : SubmittedSpec Restore)
      → (validate_update cloud parses new old ≡ []) ↔ IsAllowed parses new old
  unfolding validate_update
  validate_update-IsAllowed parses new old =
      let h = append_nil (report_nil (ltb_ℤ new.replicas old.replicas) _ (λ e. e, λ e. e)) (
        append_nil (source_errors_nil _ _) (
          append_nil (report_nil _ _ (not-false (cloud.deep_equal new.restore old.restore)))
            (append_nil (growth_errors_nil _ 0 _) (validate_create-IsAcceptable parses new)))) in
      (
        λ x.
            let (r, (so, (re, (g, a)))) = h.0 x in
            record {
              acceptable = a;
              no_fewer_replicas = r;
              same_source = so;
              same_restore = re;
              growth = g;
            },
        λ a. h.1 (a.no_fewer_replicas, (a.same_source, (a.same_restore, (a.growth, a.acceptable)))),
      )
