-- ===== src/Backup/Tests.antt =====
-- A backup of a cluster of three instances, and a restoration.
use moco.Prelude.{
  ℕ, zero, suc, ◌<◌, ◌≤◌, ◌≡◌, refl, arith, String, ◌==◌, true, Option, none, some, List, [], ◌∷◌,
  ok, if◌then◌else◌, All, inl, inr, sort_ints,
}
use moco.Prelude.Dict.{Dict, lookup}
use moco.Prelude.Int.{pos}
use moco.Api.Names.{decimal}
use moco.Api.Cluster.{BackupStatus, no_backup, condition_true, ConditionStatus}
use moco.Api.Pod.{Pod}
use moco.Effects.{value}
use moco.Effects.Scene.{cluster_with, calm}
use moco.Effects.Only.{OnlyCalls}
use moco.Effects.Order.{Justified}
use moco.Backup.Choice.{
  Slots, choose_pod, pod_is_ready, first_ready_condition, unchanged_indices,
  idxs_with_unchanged_uuid, last_uuids, choose_among, prefer,
}
use moco.Backup.Choice.Ready.{IsFilled, IsSource}
use moco.Backup.Choice.Verdict.{IsUnchanged, Verdict, choose_pod-Verdict}
use moco.Backup.Run.{BackupEnv, backup_of}
use moco.Backup.Run.Sources.{BackupMay, backup_calls}
use moco.Backup.Run.Order.{AfterDump, backup_uploads_first}
use moco.Backup.Nearest.{
  Paths, find_nearest_dump, sort_keys, insert_key, scan, take_key, take_dump, has_suffix,
}
use moco.Backup.Nearest.Newest.{IsTimeline}
use moco.Backup.Nearest.Paired.{IsComplete}
use moco.Backup.Nearest.Verdict.{IsNearest, find_nearest_dump-IsNearest}
use moco.Backup.Restore.{RestoreEnv, restore}
use moco.Backup.Restore.Order.{AfterRestore, restore_finishes_first}

abbrev pod : String → ConditionStatus → Pod
pod ip ready = record {
  name = "moco-test";
  labels = [];
  annotations = [];
  deletion_timestamp = none;
  conditions =
      record { typ = "PodScheduled"; status = condition_true }
      ∷ record { typ = "Ready"; status = ready }
      ∷ [];
  pod_ip = ip;
}

abbrev pods : Slots
pods =
    some (pod "10.0.0.1" condition_true)
    ∷ some (pod "10.0.0.2" condition_true)
    ∷ some (pod "10.0.0.3" condition_true)
    ∷ []

-- The last backup was taken from the instance 2, which has been replaced since then.
abbrev last : BackupStatus
last = record no_backup {
  time = some 1000;
  source_index = 2;
  source_uuid = "u2";
  uuid_set = ("0", "u0") ∷ ("1", "u1") ∷ ("2", "u2") ∷ [];
  binlog_filename = "binlog.000007";
  gtid_set = "u0:1-9";
}

abbrev env : BackupEnv
env = record {
  base = calm last;
  server_status_of = λ tr address.
      value (record { super_read_only = true; uuid = "u1"; current_binlog = "binlog.000009" });
  dump_gtid_of = λ tr. value "u0:1-20";
  usage_of = λ tr dir. value 4096;
  binlogs_of = λ tr. value ("binlog.000010" ∷ "binlog.000009" ∷ []);
  written = λ tr. 2048;
  now = λ tr. 2000;
  format_time = λ t. decimal t;
  parse_int64 = λ s. if s == "000009" then pos 9 else pos 10;
}

abbrev uuids : Dict String
uuids = ("0", "u0") ∷ ("1", "u1") ∷ ("2", "w2") ∷ []

chosen_1 :
    choose_pod 0 pods (calm last).atoi last uuids
    ≡ ok (record { index = 1; with_binlog = true; warnings = [] })
unfolding choose_pod idxs_with_unchanged_uuid unchanged_indices last_uuids lookup choose_among
    prefer sort_ints
chosen_1 = refl

pods-IsFilled : All IsFilled pods
pods-IsFilled = ((_, refl), ((_, refl), ((_, refl), tt)))

known : (j : ℕ) → IsUnchanged (calm last).atoi last uuids 0 pods j → IsSource pods j
unfolding pod_is_ready first_ready_condition
known zero h = (pod "10.0.0.1" condition_true, refl, refl)
known (suc zero) h = (pod "10.0.0.2" condition_true, refl, refl)
known (suc (suc zero)) h = (pod "10.0.0.3" condition_true, refl, refl)
known (suc (suc (suc j))) (inl (a, l)) = cc
known (suc (suc (suc j))) (inr (inl (a, l))) = cc
known (suc (suc (suc j))) (inr (inr (inl (a, l)))) = cc
known (suc (suc (suc j))) (inr (inr (inr h))) = elim h [ ]

choose_pod-Verdict_example :
    Verdict (calm last).atoi last uuids 0 pods (choose_pod 0 pods (calm last).atoi last uuids)
choose_pod-Verdict_example =
    choose_pod-Verdict (calm last).atoi last uuids 0 pods pods-IsFilled (omega arith) known

reads : (i : ℕ) → i < 3 → (calm last).atoi (decimal i) ≡ some (pos i)
unfolding decimal
reads zero h = refl
reads (suc zero) h = refl
reads (suc (suc zero)) h = refl
reads (suc (suc (suc i))) h = let e : ⊥ = omega (arith, h) in elim e [ ]

backup_calls_example :
    OnlyCalls
      (BackupMay (cluster_with last) pods (calm last).atoi)
      (backup_of env (cluster_with last) pods []).1
backup_calls_example = backup_calls env (cluster_with last) pods pods-IsFilled (omega arith) reads

backup_uploads_first_example :
    Justified (AfterDump env (cluster_with last)) (backup_of env (cluster_with last) pods []).1
backup_uploads_first_example = backup_uploads_first env (cluster_with last) pods

-- The directory of each key of the tests, and its time.
abbrev dir_of : String → String
dir_of key =
    if key == "b/1/dump.tar"
    then "b/1"
    else if key == "b/1/binlog.tar.zst"
    then "b/1"
    else if key == "b/2/dump.tar"
    then "b/2"
    else "."

abbrev time_in : String → Option ℕ
time_in dir = if dir == "b/1" then some 1 else if dir == "b/2" then some 2 else none

abbrev paths : Paths
paths = record { dir = dir_of; time_in = time_in }

abbrev keys : List String
keys = "b/2/dump.tar" ∷ "b/1/dump.tar" ∷ "b/1/binlog.tar.zst" ∷ "b/readme" ∷ []

abbrev sorted : List String
sorted = "b/1/binlog.tar.zst" ∷ "b/1/dump.tar" ∷ "b/2/dump.tar" ∷ "b/readme" ∷ []

keys-sorted : sort_keys keys ≡ sorted
unfolding sort_keys insert_key
keys-sorted = refl

nearest_1 :
    find_nearest_dump paths 1 keys
    ≡ record { dump = "b/1/dump.tar"; binlog = "b/1/binlog.tar.zst"; time = some 1 }
unfolding find_nearest_dump sort_keys insert_key scan take_key take_dump has_suffix
nearest_1 = refl

-- A binlog file in a directory without a dump goes with the dump of an older directory.
orphan_binlog :
    find_nearest_dump
      (record { dir = λ k. if k == "b/1/dump.tar" then "b/1" else "b/2"; time_in = time_in })
      2
      ("b/1/dump.tar" ∷ "b/2/binlog.tar.zst" ∷ [])
    ≡ record { dump = "b/1/dump.tar"; binlog = "b/2/binlog.tar.zst"; time = some 1 }
unfolding find_nearest_dump sort_keys insert_key scan take_key take_dump has_suffix
orphan_binlog = refl

between : (a b : ℕ) → a ≤ b → (t : ℕ) → some a ≡ some t → (u : ℕ) → some b ≡ some u → t ≤ u
between a b h t e u e' = let q : a ≡ t = cc in let q' : b ≡ u = cc in omega (arith, q, q')

keys-IsTimeline : IsTimeline paths 1 (sort_keys keys)
unfolding sort_keys insert_key
keys-IsTimeline = (
  λ t e. (between 1 1 (omega arith) t e, (between 1 2 (omega arith) t e, (λ u x. cc, tt))),
  (
    λ t e. (between 1 2 (omega arith) t e, (λ u x. cc, tt)),
    (λ t e. (λ u x. cc, tt), (λ t e. tt, tt)),
  ),
)

keys-IsComplete : IsComplete paths 1 (sort_keys keys)
unfolding has_suffix sort_keys insert_key
keys-IsComplete = (
  λ b t e le. (1, "b/1/dump.tar", (0, refl), (refl, refl, refl), refl, omega arith),
  (λ b. cc, (λ b. cc, (λ b. cc, tt))),
)

find_nearest_dump-IsNearest_example : IsNearest paths 1 keys (find_nearest_dump paths 1 keys)
find_nearest_dump-IsNearest_example =
    find_nearest_dump-IsNearest paths 1 keys keys-IsTimeline keys-IsComplete

abbrev restore_env : RestoreEnv
restore_env = record {
  base = calm last;
  namespace = "ns";
  name = "test";
  source_namespace = "ns";
  source_name = "source";
  point = 1;
  schema = "";
  users = "";
  paths = paths;
  pod_ip_of = λ tr name. value "10.0.0.1";
  server_status_of =
      λ tr address. value (record { super_read_only = true; uuid = "u0"; current_binlog = "" });
  objects_of = λ tr prefix. value keys;
  now = λ tr. 3000;
}

restore_finishes_first_example : Justified (AfterRestore restore_env) (restore restore_env []).1
restore_finishes_first_example = restore_finishes_first restore_env
