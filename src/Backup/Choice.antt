-- ===== src/Backup/Choice.antt =====
-- The pod that a backup is taken from: `ChoosePod` and what it calls (backup/backup.go). The slots of
-- the slice are the pods in the order of their ordinals, nil where none has been found.
pub mod Unchanged
pub mod Ready
pub mod Preferred
pub mod Verdict
use moco.Prelude.{
  ℕ, suc, String, ◌==◌, ◌=?◌, Bool, true, false, Option, none, some, List, [], ◌∷◌, Outcome, ok,
  err, ◌>>=◌, deref, message, if◌then◌else◌, get_elem?, sort_ints,
}
use moco.Prelude.Dict.{Dict, lookup}
use moco.Prelude.Int.{ℤ, pos, negsuc}
use moco.Api.Names.{decimal}
use moco.Api.Cluster.{
  BackupStatus, ConditionStatus, condition_true, condition_false, condition_unknown,
}
use moco.Api.Pod.{Pod, PodCondition}

abbrev pub Slots : Type 0
Slots = List (Option Pod)

abbrev pub is_true : ConditionStatus → Bool
is_true condition_true = true
is_true condition_false = false
is_true condition_unknown = false

-- The first condition of the type Ready decides.
unfoldable pub first_ready_condition : List PodCondition → Bool
first_ready_condition [] = false
first_ready_condition (c ∷ rest) =
    if c.typ == "Ready" then is_true c.status else first_ready_condition rest

unfoldable pub pod_is_ready : Pod → Bool
pod_is_ready pod = first_ready_condition pod.conditions

-- `lastUUID, ok := last[key]; ok && currentUUID == lastUUID`.
abbrev pub is_same : String → Option String → Bool
is_same uuid none = false
is_same uuid (some last) = uuid == last

-- `strconv.Atoi`; the keys are written by `strconv.Itoa` of ordinals, so that none is negative.
abbrev pub add_index : Option ℤ → List ℕ → List ℕ
add_index (some (pos i)) l = i ∷ l
add_index (some (negsuc i)) l = l
add_index none l = l

module _ (atoi : String → Option ℤ) where
  unfoldable pub unchanged_indices : Dict String → Dict String → List ℕ
  unchanged_indices [] last = []
  unchanged_indices (entry ∷ rest) last =
      let others = unchanged_indices rest last in
      if is_same entry.1 (lookup entry.0 last) then add_index (atoi entry.0) others else others

  unfoldable pub idxs_with_unchanged_uuid : Dict String → Dict String → List ℕ
  unfolding unchanged_indices
  idxs_with_unchanged_uuid current last = sort_ints (unchanged_indices current last)

-- The UUIDs of the last backup; a status of an earlier version names the source alone.
unfoldable pub last_uuids : BackupStatus → Dict String
last_uuids b = elim b.uuid_set [
  | [] ↦ (decimal b.source_index, b.source_uuid) ∷ []
  | e ∷ rest ↦ e ∷ rest
]

-- The first ready pod that is not the primary, from index `i` on.
unfoldable pub first_ready : ℕ → ℕ → Slots → Outcome (Option ℕ)
first_ready primary i [] = ok none
first_ready primary i (slot ∷ rest) =
    let later = first_ready primary (suc i) rest in
    if i =? primary
    then later
    else (deref slot >>= λ pod. if pod_is_ready pod then ok (some i) else later)

-- What is chosen: the index, whether the binlogs are backed up, and the warnings.
pub record Chosen : Type 0 where
  pub index : ℕ
  pub with_binlog : Bool
  pub warnings : List String

abbrev pub first_of : Option ℕ → ℕ → Option ℕ
first_of none i = some i
first_of (some j) i = some j

abbrev pub chosen : ℕ → Bool → List String → Chosen
chosen i b ws = record { index = i; with_binlog = b; warnings = ws }

module _ (primary : ℕ) (pods : Slots) where
  unfoldable pub primary_or_none : List String → Outcome Chosen
  primary_or_none ws = deref (get_elem? pods primary) >>= λ slot. deref slot >>= λ pod.
      if pod_is_ready pod then ok (chosen primary false ws) else err (message "no ready pod exists")

  unfoldable pub without_binlog : List String → Option ℕ → Outcome Chosen
  without_binlog ws (some i) = ok (chosen i false ws)
  without_binlog ws none = primary_or_none ws

  unfoldable pub choose_ready : List String → Outcome Chosen
  choose_ready ws = first_ready primary 0 pods >>= without_binlog ws

  -- `least` is the first of `replicas`.
  unfoldable pub prefer : ℕ → Option ℕ → List ℕ → Chosen
  prefer last none [] = chosen primary true []
  prefer last (some least) [] = chosen least true []
  prefer last least (i ∷ rest) =
      if i =? primary
      then prefer last least rest
      else if i =? last
      then chosen i true []
      else prefer last (first_of least i) rest

  unfoldable pub choose_among : ℕ → List ℕ → Outcome Chosen
  choose_among last [] =
      choose_ready ("skip binlog backups because some binlog files may be missing" ∷ [])
  choose_among last (i ∷ rest) = ok (prefer last none (i ∷ rest))

  abbrev pub choose_since :
      (String → Option ℤ) → BackupStatus → Dict String → Option ℕ → Outcome Chosen
  choose_since atoi b uuids none = choose_ready []
  choose_since atoi b uuids (some time) =
      choose_among b.source_index (idxs_with_unchanged_uuid atoi uuids (last_uuids b))

  unfoldable pub choose_pod : (String → Option ℤ) → BackupStatus → Dict String → Outcome Chosen
  choose_pod atoi b uuids = choose_since atoi b uuids b.time
