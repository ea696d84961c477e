-- ===== src/Clustering/Decide/Meaning/Tested.antt =====
-- The tests of an instance, and what they say of its fields (clustering/status.go).
use text.Mathlib.TextEquality.{eq_iff}
use moco.Prelude.{
  ℕ, zero, suc, ◌+◌, ◌≡◌, ◌≢◌, ◌⊎◌, ◌↔◌, inl, inr, refl, arith, String, ◌==◌, Bool, true, false,
  not, ◌&&◌, ◌||◌, Option, none, some, List, [], ◌∷◌, is_some, get_elem?, Bool-cases, &&_true, ◌=?◌,
  if◌then◌else◌,
}
use moco.Api.Cluster.{MySqlCluster}
use moco.Api.Pod.{Pod}
use moco.Dbop.Types.{MySqlInstanceStatus, ReplicaStatus}
use moco.Clustering.StatusSet.{
  StatusSet, any_data, lost_data, follows, is_sound_replica, primary_mode_ok,
}
use moco.Clustering.Decide.{clone_pending, holds_data, primary_gone}
use moco.Clustering.Decide.Reading.{ready_at}
use moco.Clustering.Decide.Meaning.{
  HoldsReady, IsSound, HasData, HasRightMode, IsUncloned, IsReadyAt, HasLostData,
}

pub and_iff :
    (a b : Bool) {A B : Type 0}
    → ((a ≡ true) ↔ A)
    → ((b ≡ true) ↔ B)
    → (((a && b) ≡ true) ↔ (A × B))
and_iff a b f g = (λ e. let (x, y) = &&_true a b e in (f.0 x, g.0 y), λ h. rw (f.1 h.0) (g.1 h.1))

pub not_iff : (a : Bool) → ((not a ≡ true) ↔ (a ≡ false))
not_iff true = (λ e. cc, λ e. cc)
not_iff false = (λ e. refl, λ e. refl)

pub same : {A : Type 0} → (A ↔ A)
same = (λ a. a, λ a. a)

no_text : (s t : String) → (not (s == t) ≡ true) ↔ (s ≢ t)
no_text s t = (
  λ e p. let q : (s == t) ≡ true = (eq_iff s t).1 p in let k : false ≡ true = rw q at e in cc,
  λ n. elim (Bool-cases (s == t)) [ inl h ↦ absurd (n ((eq_iff s t).0 h)) | inr h ↦ rw h refl ],
)

pub no_number : (m n : ℕ) → (not (m =? n) ≡ true) ↔ (m ≢ n)
no_number m n = (λ e. ground arith, λ e. ground arith)

follows_iff :
    (host : String) (ist : MySqlInstanceStatus)
    → (follows host ist ≡ true)
      ↔ ((rs : ReplicaStatus) × (ist.replica_status ≡ some rs) × (rs.source_host ≡ host))
unfolding follows
follows_iff host ist = by_status ist.replica_status
  where
    by_status :
        (o : Option ReplicaStatus)
        → ((elim o [ none ↦ false | some rs ↦ rs.source_host == host ]) ≡ true)
          ↔ ((rs : ReplicaStatus) × (o ≡ some rs) × (rs.source_host ≡ host))
    by_status none = (λ e. cc, λ h. let k = h.1 in cc)
    by_status (some rs) = (
      λ e. (rs, refl, (eq_iff rs.source_host host).0 e),
      λ h. let q : h.0 ≡ rs = (let k = h.1 in cc) in (eq_iff rs.source_host host).1 (rw q at (h.2)),
    )

pub IsSound-iff :
    (host : String) (ist : MySqlInstanceStatus)
    → (is_sound_replica host ist ≡ true) ↔ IsSound host ist
unfolding is_sound_replica
IsSound-iff host ist =
    let h =
      and_iff _ _
        (and_iff (not ist.is_errant) ist.global_variables.super_read_only (not_iff ist.is_errant)
          same)
        (follows_iff host ist) in
    (λ e. let ((a, b), c) = h.0 e in (a, b, c), λ x. h.1 ((x.0, x.1), x.2))

pub holds_iff :
    (ist : MySqlInstanceStatus)
    → (holds_data ist ≡ true)
      ↔ ((is_some ist.replica_status ≡ true) × (ist.is_errant ≡ false) × HasData ist)
unfolding holds_data
holds_iff ist =
    let h =
      and_iff _ _
        (and_iff (is_some ist.replica_status) (not ist.is_errant) same (not_iff ist.is_errant))
        (no_text ist.global_variables.executed_gtid "") in
    (λ e. let ((a, b), c) = h.0 e in (a, b, c), λ x. h.1 ((x.0, x.1), x.2))

pub mode_iff :
    (c : MySqlCluster) (pst : MySqlInstanceStatus)
    → (primary_mode_ok c pst ≡ true) ↔ HasRightMode c pst
unfolding primary_mode_ok
mode_iff c pst = by_source c.spec.replication_source_secret_name
  where
    by_source :
        (o : Option String)
        → ((if is_some o
              then pst.global_variables.super_read_only
              else not pst.global_variables.read_only)
            ≡ true)
          ↔ ((o ≡ none → pst.global_variables.read_only ≡ false)
              × ((name : String) → o ≡ some name → pst.global_variables.super_read_only ≡ true))
    by_source none = (
      λ e. (λ _. (not_iff pst.global_variables.read_only).0 e, λ name h. cc),
      λ h. (not_iff pst.global_variables.read_only).1 (h.0 refl),
    )
    by_source (some name) = (λ e. (λ h. cc, λ n h. e), λ h. h.1 name refl)

uncloned_some :
    (gtid : String) (o : Option String)
    → ((elim o [ some state ↦ not (state == "Completed") | none ↦ gtid == "" ]) ≡ true)
      ↔ (((state : String) × (o ≡ some state) × (state ≢ "Completed")) ⊎ ((o ≡ none) × (gtid ≡ "")))
uncloned_some gtid none = (
  λ e. inr (refl, (eq_iff gtid "").0 e),
  λ h. elim h [ inl x ↦ (let k = x.1 in cc) | inr x ↦ (eq_iff gtid "").1 x.1 ],
)
uncloned_some gtid (some state) = (
  λ e. inl (state, refl, (no_text state "Completed").0 e),
  λ h. elim h [
    | inl x ↦
        (let q : x.0 ≡ state = (let k = x.1 in cc) in (no_text state "Completed").1 (rw q at (x.2)))
    | inr x ↦ (let k = x.0 in cc)
  ],
)

pub IsUncloned-iff : (o : Option MySqlInstanceStatus) → (clone_pending o ≡ true) ↔ IsUncloned o
unfolding clone_pending
IsUncloned-iff none = (λ e. inl refl, λ h. refl)
IsUncloned-iff (some pst) =
    let f = uncloned_some pst.global_variables.executed_gtid pst.clone_status in
    (
      λ e. inr (pst, refl, f.0 e),
      λ h. elim h [
        | inl x ↦ cc
        | inr x ↦ (let q : x.0 ≡ pst = (let k = x.1 in cc) in f.1 (rw q at (x.2)))
      ],
    )

-- A replica that is not the primary has data; the indices start from `i`.
abbrev SomeData : ℕ → ℕ → List (Option MySqlInstanceStatus) → Type 0
SomeData primary i l =
    (j : ℕ) × (ist : MySqlInstanceStatus) × (get_elem? l j ≡ some (some ist))
    × (i + j ≢ primary)
    × HasData ist

SomeData-cons :
    (primary i : ℕ) (o : Option MySqlInstanceStatus) (rest : List (Option MySqlInstanceStatus))
    → SomeData primary (suc i) rest
    → SomeData primary i (o ∷ rest)
SomeData-cons primary i o rest (j, ist, e, ne, d) = (suc j, ist, e, λ q. ne (omega arith), d)

any_data-SomeData :
    (primary i : ℕ) (l : List (Option MySqlInstanceStatus))
    → any_data primary i l ≡ true
    → SomeData primary i l
unfolding any_data
any_data-SomeData primary i [] e = cc
any_data-SomeData primary i (none ∷ rest) e =
    SomeData-cons primary i none rest (any_data-SomeData primary (suc i) rest e)
any_data-SomeData primary i (some ist ∷ rest) e =
    elim (Bool-cases (not (i =? primary) && not (ist.global_variables.executed_gtid == ""))) [
      | inl t ↦
          let (a, b) = (and_iff _ _ (no_number i primary) (no_text _ "")).0 t in
          (0, ist, refl, λ q. a (omega arith), b)
      | inr f ↦
          SomeData-cons primary i (some ist) rest
            (any_data-SomeData primary (suc i) rest (rw f at e))
    ]

or_right : (a : Bool) → (a || true) ≡ true
or_right true = refl
or_right false = refl

SomeData-any_data :
    (primary i : ℕ) (l : List (Option MySqlInstanceStatus))
    → SomeData primary i l
    → any_data primary i l ≡ true
unfolding any_data
SomeData-any_data primary i [] (j, ist, e, ne, d) = cc
SomeData-any_data primary i (none ∷ rest) (zero, ist, e, ne, d) = cc
SomeData-any_data primary i (none ∷ rest) (suc j, ist, e, ne, d) =
    SomeData-any_data primary (suc i) rest (j, ist, e, λ q. ne (omega arith), d)
SomeData-any_data primary i (some x ∷ rest) (zero, ist, e, ne, d) =
    let q : ist ≡ x = cc in
    let t =
      (and_iff _ _ (no_number i primary) (no_text _ "")).1 (λ p. ne (omega arith), rw q at d) in
    rw t refl
SomeData-any_data primary i (some x ∷ rest) (suc j, ist, e, ne, d) =
    rw (SomeData-any_data primary (suc i) rest (j, ist, e, λ q. ne (omega arith), d)) (or_right _)

module _ (ss : StatusSet) where
  pub lost_iff : (lost_data ss ≡ true) ↔ HasLostData ss
  unfolding lost_data
  lost_iff = and_iff _ _ (eq_iff ss.executed_gtid "") (
    λ e.
        let (j, ist, at, ne, d) = any_data-SomeData ss.primary 0 ss.mysql_status e in
        (j, ist, at, λ q. ne (omega arith), d),
    λ (j, ist, at, ne, d).
        SomeData-any_data ss.primary 0 ss.mysql_status (j, ist, at, λ q. ne (omega arith), d),
  )

  pub gone_iff :
      (o : Option MySqlInstanceStatus) → (primary_gone ss o ≡ true) ↔ ((o ≡ none) ⊎ HasLostData ss)
  unfolding primary_gone
  gone_iff none = (λ e. inl refl, λ h. refl)
  gone_iff (some pst) = (λ e. inr (lost_iff.0 e), λ h. elim h [ inl x ↦ cc | inr x ↦ lost_iff.1 x ])

  pub not_lost_iff : (lost_data ss ≡ false) ↔ (HasLostData ss → ⊥)
  not_lost_iff = (
    λ e h. let t = lost_iff.1 h in cc,
    λ n. elim (Bool-cases (lost_data ss)) [ inl t ↦ absurd (n (lost_iff.0 t)) | inr f ↦ f ],
  )

  pub ready_iff : (i : ℕ) → (ready_at (get_elem? ss.pods i) ≡ true) ↔ IsReadyAt ss i
  ready_iff i = by_slot (get_elem? ss.pods i)
    where
      by_slot :
          (s : Option (Option Pod))
          → (ready_at s ≡ true) ↔ ((o : Option Pod) × (s ≡ some o) × HoldsReady o)
      by_slot none = (λ e. cc, λ h. let k = h.1 in cc)
      by_slot (some none) = (λ e. cc, λ h. let k = h.1 in let k' = h.2.1 in cc)
      by_slot (some (some pod)) = (
        λ e. (some pod, refl, (pod, refl, e)),
        λ h. let q : h.2.0 ≡ pod = (let k = h.1 in let k' = h.2.1 in cc) in rw q at (h.2.2),
      )
