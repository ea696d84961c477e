-- ===== src/Controllers/Pvc/Footprint.antt =====
-- The claims that a reconciliation writes (controllers/pvc.go).
use moco.Prelude.{
  ℕ, zero, suc, String, ◌≡◌, refl, sym, ◌∙◌, ◌==◌, Bool, true, false, ◌⊎◌, inl, inr, Option, none,
  some, List, [], ◌∷◌, deref, deref-eq-ok, get_or, Bool-cases, All, get_elem?, StandsAt,
  StandsAt-refl, Error, Ensures, Ensures-bind, Ensures-pure,
}
use moco.Prelude.Dict.{Dict, lookup, insert, lookup-insert}
use moco.Prelude.Int.{ℤ, ltb_ℤ}
use moco.Api.Claim.{Claim, read_statefulset, list_claims, read_storage_class, update_claim}
use moco.Effects.{Call, of_claims, count_metric}
use moco.Effects.Only.{
  Only, Only-pure, Only-fail, Only-if-known, Only-if, Only-lift_bind, Only-bind, Only-command,
  Only-note, Only-reply, Only-on_error, Only-calls, OnlyCalls,
}
use moco.Controllers.Pvc.{
  VolumeTemplate, ClaimOwner, PvcEnv, is_updating_statefulset, sizes_of, keep_claims, pvcs_to_keep,
  checked_selector, is_volume_expansion_supported, skip, set_size, resize_kept, resize_one,
  resize_each, resize_pvcs, template_of, synced, write_synced, sync_one, sync_each, sync_pvc_values,
  count_resized, resize_if_needed, reconcile_claims, reconcile_pvc, before_last_dash, sync_values,
}

-- A size that a template of the cluster asks for.
abbrev pub IsWanted : List VolumeTemplate → ℤ → Type 0
IsWanted templates size =
    (i : ℕ) × (t : VolumeTemplate) × (get_elem? templates i ≡ some t) × (t.storage ≡ size)

-- The claim keeps its name and class; either only its labels and annotations differ, or only its
-- size, which has grown to one that is wanted.
abbrev pub MayWrite : List VolumeTemplate → Claim → Claim → Type 0
MayWrite templates old new =
    (new ≡ record old { labels = new.labels; annotations = new.annotations })
    ⊎ ((new ≡ record old { storage = new.storage })
        × (ltb_ℤ old.storage new.storage ≡ true)
        × IsWanted templates new.storage)

abbrev pub ClaimMay : List VolumeTemplate → Call → Type 0
ClaimMay templates (of_claims read_statefulset) = Unit
ClaimMay templates (of_claims list_claims) = Unit
ClaimMay templates (of_claims (read_storage_class s)) = Unit
ClaimMay templates (of_claims (update_claim old new)) = MayWrite templates old new
ClaimMay templates (count_metric s) = Unit
ClaimMay templates _ = ⊥

-- Each value of the map satisfies `P`.
module _ {V : Type 0} (P : V → Type 0) where
  abbrev Values : Dict V → Type 0
  Values d = (k : String) (v : V) → lookup k d ≡ some v → P v

  insert-Values : (k : String) (v : V) (d : Dict V) → P v → Values d → Values (insert k v d)
  insert-Values key v d p h k w e = elim (Bool-cases (key == k)) [
    | inl t ↦
        let q : some v ≡ some w = sym (rw t at (lookup-insert k key v d)) ∙ e in
        let q' : v ≡ w = cc in rw (← q') p
    | inr f ↦ h k w (sym (rw f at (lookup-insert k key v d)) ∙ e)
  ]

  empty-Values : Values []
  unfolding lookup
  empty-Values k v e = cc

module _ (P : ℤ → Type 0) where
  sizes_of-Values :
      (acc : Dict ℤ) (l : List VolumeTemplate)
      → Values P acc
      → All (λ t. P t.storage) l
      → Values P (sizes_of acc l)
  unfolding sizes_of
  sizes_of-Values acc [] h hs = h
  sizes_of-Values acc (t ∷ rest) h hs =
      sizes_of-Values (insert t.name t.storage acc) rest
        (insert-Values P t.name t.storage acc hs.0 h) hs.1

  abbrev IsTarget : Option ℤ → Type 0
  IsTarget o = (v : ℤ) → o ≡ some v → P v

  keep_claims-Values :
      (template owner : String) (size : Option ℤ) (n : ℕ) (acc : Dict (Option ℤ))
      → IsTarget size
      → Values IsTarget acc
      → Values IsTarget (keep_claims template owner size n acc)
  unfolding keep_claims
  keep_claims-Values template owner size zero acc p h = h
  keep_claims-Values template owner size (suc n) acc p h =
      insert-Values IsTarget _ size _ p (keep_claims-Values template owner size n acc p h)

  pvcs_to_keep-Values :
      (sizes : Dict ℤ) (sts : ClaimOwner) (l : Dict ℤ)
      → Values P sizes
      → Values IsTarget (pvcs_to_keep sizes sts l)
  unfolding pvcs_to_keep
  pvcs_to_keep-Values sizes sts [] h = empty-Values IsTarget
  pvcs_to_keep-Values sizes sts (x ∷ rest) h =
      keep_claims-Values x.0 sts.name (lookup x.0 sizes) (get_or 1 sts.replicas) _ (h x.0)
        (pvcs_to_keep-Values sizes sts rest h)

all-IsWanted_from :
    (full : List VolumeTemplate) (i : ℕ) (rest : List VolumeTemplate)
    → StandsAt full i rest
    → All (λ t. IsWanted full t.storage) rest
all-IsWanted_from full i [] h = tt
all-IsWanted_from full i (t ∷ rest) h = ((i, t, h.0, refl), all-IsWanted_from full (suc i) rest h.1)

all-IsWanted : (templates : List VolumeTemplate) → All (λ t. IsWanted templates t.storage) templates
all-IsWanted templates = all-IsWanted_from templates 0 templates (StandsAt-refl templates)

module _ (env : PvcEnv) (templates : List VolumeTemplate) where
  abbrev May : Call → Type 0
  May = ClaimMay templates

  May-read_class : (class : Option String) → Only May (is_volume_expansion_supported env class)
  unfolding is_volume_expansion_supported
  May-read_class none = Only-pure false
  May-read_class (some name) =
      Only-bind (Only-reply (of_claims (read_storage_class name)) _ tt) λ a. Only-pure _

  May-set_size :
      (pvc : Claim) (size : ℤ) → IsWanted templates size → Only May (set_size env pvc size)
  unfolding set_size
  May-set_size pvc size w = Only-if _ (Only-fail _) (
      Only-if-known (ltb_ℤ pvc.storage size)
        (λ lt.
          Only-bind
            (Only-command env.base (of_claims (update_claim pvc (record pvc { storage = size })))
              (inr (refl, lt, w)))
            λ _. Only-pure _)
        (λ _. Only-pure _))

  May-resize_kept :
      (pvc : Claim) (size : Option ℤ)
      → IsTarget (IsWanted templates) size
      → Only May (resize_kept env pvc size)
  unfolding resize_kept skip
  May-resize_kept pvc size w = Only-bind (May-read_class pvc.storage_class_name) λ supported.
      Only-if supported
        (Only-lift_bind (deref size) λ n e. May-set_size pvc n (w n (deref-eq-ok size e)))
        (Only-lift_bind _ λ name e. Only-pure _)

  May-resize_one :
      (pvc : Claim) (o : Option (Option ℤ))
      → ((s : Option ℤ) → o ≡ some s → IsTarget (IsWanted templates) s)
      → Only May (resize_one env pvc o)
  unfolding resize_one
  May-resize_one pvc none w = Only-pure _
  May-resize_one pvc (some size) w = May-resize_kept pvc size (w size refl)

  May-resize_each :
      (keep : Dict (Option ℤ)) (l : List Claim)
      → Values (IsTarget (IsWanted templates)) keep
      → Only May (resize_each env keep l)
  unfolding resize_each
  May-resize_each keep [] w = Only-pure _
  May-resize_each keep (pvc ∷ rest) w =
      Only-bind (May-resize_one pvc (lookup pvc.name keep) (w pvc.name))
        λ done. Only-bind (May-resize_each keep rest w) λ more. Only-pure _

  May-check : (o : Option Error) → Only May (checked_selector env o)
  May-check none = Only-pure tt
  May-check (some e) = Only-fail e

  May-resize :
      (sts : ClaimOwner) (target : Dict ℤ) → Only May (resize_pvcs env templates sts target)
  unfolding resize_pvcs
  May-resize sts target = Only-bind (May-check env.selector_error) λ _.
      Only-bind (Only-reply (of_claims list_claims) _ tt) λ l. May-resize_each _ l (
        pvcs_to_keep-Values (IsWanted templates) _ sts target (
          sizes_of-Values (IsWanted templates) [] templates (empty-Values (IsWanted templates))
            (all-IsWanted templates)))

  synced-MayWrite :
      (t : VolumeTemplate) (pvc : Claim)
      → Ensures (λ r. MayWrite templates pvc r.0) (synced env t pvc)
  unfolding synced
  synced-MayWrite t pvc =
      Ensures-bind (λ r. MayWrite templates pvc r.0)
        (sync_values env.label_keys t.labels (pvc.labels, false)) _
        λ labels _.
          Ensures-bind (λ r. MayWrite templates pvc r.0)
            (sync_values env.annotation_keys t.annotations (pvc.annotations, labels.1)) _
            λ annotations _. Ensures-pure (λ r. MayWrite templates pvc r.0) (inl refl)

  may_write :
      (pvc : Claim) (r : Claim × Bool)
      → MayWrite templates pvc r.0
      → Only May (write_synced env pvc r)
  unfolding write_synced
  may_write pvc (new, false) h = Only-pure tt
  may_write pvc (new, true) h = Only-command env.base (of_claims (update_claim pvc new)) h

  May-sync_one : (pvc : Claim) (o : Option VolumeTemplate) → Only May (sync_one env pvc o)
  unfolding sync_one
  May-sync_one pvc none = Only-pure tt
  May-sync_one pvc (some t) =
      Only-lift_bind (synced env t pvc) λ r e. may_write pvc r (synced-MayWrite t pvc r e)

  May-sync_each : (owner : String) (l : List Claim) → Only May (sync_each env owner templates l)
  unfolding sync_each
  May-sync_each owner [] = Only-pure tt
  May-sync_each owner (pvc ∷ rest) =
      Only-bind (May-sync_one pvc (template_of env owner (before_last_dash pvc.name) templates))
        λ _. May-sync_each owner rest

  May-sync : (sts : ClaimOwner) → Only May (sync_pvc_values env templates sts)
  unfolding sync_pvc_values
  May-sync sts = Only-if _ (Only-pure tt) (
      Only-bind (May-check env.selector_error)
        λ _. Only-bind (Only-reply (of_claims list_claims) _ tt) λ l. May-sync_each sts.name l)

  May-count : (l : List String) → Only May (count_resized env l)
  May-count [] = Only-pure tt
  May-count (x ∷ xs) = Only-note env.base (count_metric _) tt

  May-resize_if_needed :
      (sts : ClaimOwner) (target : Dict ℤ) → Only May (resize_if_needed env templates sts target)
  unfolding resize_if_needed
  May-resize_if_needed sts [] = Only-pure tt
  May-resize_if_needed sts (x ∷ target) =
      Only-bind
        (Only-on_error (May-resize sts (x ∷ target)) (Only-note env.base (count_metric _) tt))
        May-count

  May-reconcile : (o : Option ClaimOwner) → Only May (reconcile_claims env templates o)
  unfolding reconcile_claims
  May-reconcile none = Only-pure tt
  May-reconcile (some sts) =
      Only-bind (May-sync sts)
        λ _. Only-if (is_updating_statefulset sts) (Only-pure tt) (May-resize_if_needed sts _)

  -- Whatever the calls return, a claim that a reconciliation writes keeps its name and its storage
  -- class, and either only its labels and annotations differ from the claim that was listed, or only
  -- its size does, which has grown to one that a template of the cluster asks for: no volume shrinks.
  pub reconcile_pvc_calls : OnlyCalls May (reconcile_pvc env templates []).1
  unfolding reconcile_pvc
  reconcile_pvc_calls =
      Only-calls (reconcile_pvc env templates)
        (Only-bind (Only-reply (of_claims read_statefulset) _ tt) May-reconcile)
