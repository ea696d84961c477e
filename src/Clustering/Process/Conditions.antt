-- ===== src/Clustering/Process/Conditions.antt =====
-- The conditions that `updateStatus` writes (clustering/process.go; docs/clustering.md, "Update
-- `status` of MySQLCluster").
use moco.Prelude.{
  String, ◌≡◌, ◌≢◌, refl, ◌∙◌, false, ◌==◌, Option, none, some, List, [], ◌∷◌, ◌⊎◌, inl, inr, ◌↔◌,
  if◌then◌else◌,
}
use moco.Api.Cluster.{Condition, ConditionStatus, condition_true}
use moco.Effects.{Env}
use moco.Clustering.StatusSet.{
  ClusterState, undecided, incomplete, healthy, cloning, restoring, degraded, failed, lost, offline,
}
use moco.Clustering.Process.Status.{
  condition, clustering_active, initialized_in, available_in, healthy_in, conditions_of,
}

-- The status of the first condition of a type.
abbrev pub status_at : String → List Condition → Option ConditionStatus
status_at typ [] = none
status_at typ (c ∷ cs) = if c.typ == typ then some c.status else status_at typ cs

abbrev IsTrueAt : ConditionStatus → Type 0
IsTrueAt s = some s ≡ some condition_true

available_in-healthy_or_degraded :
    (st : ClusterState) → IsTrueAt (available_in st) ↔ ((st ≡ healthy) ⊎ (st ≡ degraded))
available_in-healthy_or_degraded undecided = (λ e. cc, λ e. elim e [ inl x ↦ cc | inr x ↦ cc ])
available_in-healthy_or_degraded incomplete = (λ e. cc, λ e. elim e [ inl x ↦ cc | inr x ↦ cc ])
available_in-healthy_or_degraded healthy = (λ e. inl refl, λ e. refl)
available_in-healthy_or_degraded cloning = (λ e. cc, λ e. elim e [ inl x ↦ cc | inr x ↦ cc ])
available_in-healthy_or_degraded restoring = (λ e. cc, λ e. elim e [ inl x ↦ cc | inr x ↦ cc ])
available_in-healthy_or_degraded degraded = (λ e. inr refl, λ e. refl)
available_in-healthy_or_degraded failed = (λ e. cc, λ e. elim e [ inl x ↦ cc | inr x ↦ cc ])
available_in-healthy_or_degraded lost = (λ e. cc, λ e. elim e [ inl x ↦ cc | inr x ↦ cc ])
available_in-healthy_or_degraded offline = (λ e. cc, λ e. elim e [ inl x ↦ cc | inr x ↦ cc ])

healthy_in-healthy : (st : ClusterState) → IsTrueAt (healthy_in st) ↔ (st ≡ healthy)
healthy_in-healthy undecided = (λ e. cc, λ e. cc)
healthy_in-healthy incomplete = (λ e. cc, λ e. cc)
healthy_in-healthy healthy = (λ e. refl, λ e. refl)
healthy_in-healthy cloning = (λ e. cc, λ e. cc)
healthy_in-healthy restoring = (λ e. cc, λ e. cc)
healthy_in-healthy degraded = (λ e. cc, λ e. cc)
healthy_in-healthy failed = (λ e. cc, λ e. cc)
healthy_in-healthy lost = (λ e. cc, λ e. cc)
healthy_in-healthy offline = (λ e. cc, λ e. cc)

initialized_in-started :
    (st : ClusterState) → IsTrueAt (initialized_in st) ↔ ((st ≢ cloning) × (st ≢ restoring))
initialized_in-started undecided = (λ e. (λ x. cc, λ x. cc), λ h. refl)
initialized_in-started incomplete = (λ e. (λ x. cc, λ x. cc), λ h. refl)
initialized_in-started healthy = (λ e. (λ x. cc, λ x. cc), λ h. refl)
initialized_in-started cloning = (λ e. cc, λ h. absurd (h.0 refl))
initialized_in-started restoring = (λ e. cc, λ h. absurd (h.1 refl))
initialized_in-started degraded = (λ e. (λ x. cc, λ x. cc), λ h. refl)
initialized_in-started failed = (λ e. (λ x. cc, λ x. cc), λ h. refl)
initialized_in-started lost = (λ e. (λ x. cc, λ x. cc), λ h. refl)
initialized_in-started offline = (λ e. (λ x. cc, λ x. cc), λ h. refl)

-- For a `SetStatusCondition` that sets the condition of its type and keeps the others: after
-- `updateStatus` has set its conditions, Available is True in the states Healthy and Degraded alone,
-- Healthy is True in Healthy alone, and Initialized is True in all states but Cloning and Restoring.
pub conditions_of_lem :
    (env : Env) (st : ClusterState) (cs : List Condition)
    → ((c : Condition) (old : List Condition)
        → status_at c.typ (env.set_condition c old) ≡ some c.status)
    → ((c : Condition) (old : List Condition) (typ : String)
        → (c.typ == typ) ≡ false
        → status_at typ (env.set_condition c old) ≡ status_at typ old)
    → ((status_at "Available" (conditions_of env st cs) ≡ some condition_true)
        ↔ ((st ≡ healthy) ⊎ (st ≡ degraded)))
      × ((status_at "Healthy" (conditions_of env st cs) ≡ some condition_true) ↔ (st ≡ healthy))
      × ((status_at "Initialized" (conditions_of env st cs) ≡ some condition_true)
          ↔ ((st ≢ cloning) × (st ≢ restoring)))
unfolding conditions_of
conditions_of_lem env st cs sets keeps =
    let i = condition "Initialized" (initialized_in st) st in
    let a = condition "Available" (available_in st) st in
    let h = condition "Healthy" (healthy_in st) st in
    let ci = env.set_condition i cs in
    let ca = env.set_condition a ci in
    let ch = env.set_condition h ca in
    (
      rw (keeps clustering_active ch "Available" refl ∙ keeps h ca "Available" refl ∙ sets a ci)
          (available_in-healthy_or_degraded st),
      rw (keeps clustering_active ch "Healthy" refl ∙ sets h ca) (healthy_in-healthy st),
      rw
          (keeps clustering_active ch "Initialized" refl
            ∙ keeps h ca "Initialized" refl
            ∙ keeps a ci "Initialized" refl
            ∙ sets i cs)
          (initialized_in-started st),
    )
