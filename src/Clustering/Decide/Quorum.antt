-- ===== src/Clustering/Decide/Quorum.antt =====
-- The replicas that acknowledged a transaction, and those that `isFailed` counts
-- (clustering/status.go; `configurePrimary` in clustering/operations.go sets the number of
-- acknowledgements).
use moco.Prelude.{
  ℕ, suc, ◌+◌, ◌/◌, ◌≤◌, ◌<◌, ◌≡◌, ◌≢◌, Bool, true, not, ◌&&◌, Option, none, some, List, [], ◌∷◌,
  arith, length, get_elem?, StandsAt, StandsAt-refl, ok, Bool-cases, inl, inr, ◌=?◌, if◌then◌else◌,
  &&_true,
}
use moco.Dbop.Types.{MySqlInstanceStatus}
use moco.Clustering.StatusSet.{StatusSet, failed}
use moco.Clustering.Decide.{holds_data, count_ok_replicas, decide_state}
use moco.Clustering.Decide.Total.{IsGathered}
use moco.Clustering.Decide.Reading.{Reading}
use moco.Clustering.Decide.State.{decide_state-Decides}

-- How many of the instances other than the primary have acknowledged a transaction.
unfoldable pub count_acked : (ℕ → Bool) → ℕ → ℕ → List (Option MySqlInstanceStatus) → ℕ
count_acked acked primary i [] = 0
count_acked acked primary i (o ∷ rest) =
    let n = count_acked acked primary (suc i) rest in
    if not (i =? primary) && acked i then suc n else n

-- The number of slots other than the primary's.
count_others : ℕ → ℕ → List (Option MySqlInstanceStatus) → ℕ
count_others primary i [] = 0
count_others primary i (o ∷ rest) =
    let n = count_others primary (suc i) rest in if i =? primary then n else suc n

count_others-le :
    (primary i : ℕ) (rest : List (Option MySqlInstanceStatus))
    → count_others primary i rest ≤ length rest
unfolding count_others
count_others-le primary i [] = omega arith
count_others-le primary i (o ∷ rest) = ground (arith, count_others-le primary (suc i) rest)

count_others-lt :
    (primary i : ℕ) (rest : List (Option MySqlInstanceStatus))
    → i ≤ primary
    → primary < i + length rest
    → count_others primary i rest < length rest
unfolding count_others
count_others-lt primary i [] h p = absurd (omega arith)
count_others-lt primary i (o ∷ rest) h p =
    ground (arith, count_others-le primary (suc i) rest, count_others-lt primary (suc i) rest)

-- A live replica that holds data and has acknowledged.
abbrev pub IsWitness : (ℕ → Bool) → ℕ → List (Option MySqlInstanceStatus) → ℕ → Type 0
IsWitness acked primary full i =
    (ist : MySqlInstanceStatus) × (i ≢ primary)
    × (get_elem? full i ≡ some (some ist))
    × (holds_data ist ≡ true)
    × (acked i ≡ true)

overlap :
    (acked : ℕ → Bool) (primary : ℕ) (full : List (Option MySqlInstanceStatus)) (i : ℕ)
    (rest : List (Option MySqlInstanceStatus))
    → StandsAt full i rest
    → count_others primary i rest
      < count_acked acked primary i rest + count_ok_replicas primary i rest
    → (j : ℕ) × IsWitness acked primary full j
unfolding count_others count_acked count_ok_replicas
overlap acked primary full i [] at h = absurd (omega arith)
overlap acked primary full i (none ∷ rest) at h =
    overlap acked primary full (suc i) rest at.1 (ground arith)
overlap acked primary full i (some ist ∷ rest) at h =
    elim (Bool-cases (not (i =? primary) && (holds_data ist && acked i))) [
      | inl b ↦
          let (ne, both) = &&_true _ _ b in
          let (holds, ack) = &&_true _ _ both in (i, (ist, ground arith, at.0, holds, ack))
      | inr b ↦ overlap acked primary full (suc i) rest at.1 (ground arith)
    ]

-- If `DecideState` decides Failed, then of any set of replicas that has at least half of
-- `spec.replicas` members, one is alive, is a replica without errant transactions and holds data.
pub failed-overlap :
    (ss t : StatusSet) (acked : ℕ → Bool)
    → IsGathered ss
    → decide_state ss ≡ ok t
    → t.state ≡ failed
    → ss.cluster.spec.replicas / 2 ≤ count_acked acked ss.primary 0 ss.mysql_status
    → (i : ℕ) × IsWitness acked ss.primary ss.mysql_status i
failed-overlap ss t acked g e f quorum =
    let m : Reading ss failed = rw f at ((decide_state-Decides ss t e).0) in
    let lt = count_others-lt ss.primary 0 ss.mysql_status (omega arith) (omega (arith, g)) in
    overlap acked ss.primary ss.mysql_status 0 ss.mysql_status (StandsAt-refl ss.mysql_status)
      (omega (arith, lt, m.1, g))
