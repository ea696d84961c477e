-- ===== src/Backup/Nearest.antt =====
-- The search for the dump to restore from: `FindNearestDump` of backup/restore.go. The functions of
-- the packages path and time are parameters.
pub mod Newest
pub mod Paired
pub mod Verdict
use Prim.Native.String.{compare}
use Prim.Native.Nat.{lt, eq, gt}
use Prim.Native.Char.{Char}
use moco.Prelude.{
  ℕ, String, ◌==◌, ltb, Bool, true, false, not, ◌&&◌, ◌||◌, Option, none, some, List, [], ◌∷◌,
  if◌then◌else◌,
}

-- `sort.Strings`.
abbrev pub precedes : String → String → Bool
precedes a b = elim (compare a b) [ lt ↦ true | eq ↦ true | gt ↦ false ]

unfoldable pub insert_key : String → List String → List String
insert_key a [] = a ∷ []
insert_key a (b ∷ bs) = if precedes a b then a ∷ b ∷ bs else b ∷ insert_key a bs

unfoldable pub sort_keys : List String → List String
sort_keys [] = []
sort_keys (a ∷ bs) = insert_key a (sort_keys bs)

-- `strings.HasSuffix`.
unfoldable pub has_suffix : String → String → Bool
has_suffix t String.[] = String.[] == t
has_suffix t (String.◌∷◌ c s) = (String.◌∷◌ c s == t) || has_suffix t s

-- The times of keys: `path.Dir`, and `time.Parse` of `path.Base` of a directory.
pub record Paths : Type 0 where
  pub dir : String → String
  pub time_in : String → Option ℕ

-- The variables of the loop; a zero time is `none`.
pub record Nearest : Type 0 where
  pub dump : String
  pub binlog : String
  pub time : Option ℕ

abbrev pub is_binlog : String → Bool
is_binlog key = has_suffix "binlog.tar.zst" key

abbrev pub is_dump : String → Bool
is_dump key = has_suffix "dump.tar" key

module _ (paths : Paths) (point : ℕ) where
  abbrev pub time_of : String → Option ℕ
  time_of key = paths.time_in (paths.dir key)

  unfoldable pub take_dump : Nearest → String → ℕ → Nearest
  take_dump acc key t = record {
    dump = key;
    binlog = if paths.dir key == paths.dir acc.binlog then acc.binlog else "";
    time = some t;
  }

  unfoldable pub take_key : Nearest → String → ℕ → Nearest
  take_key acc key t = if is_binlog key then record acc { binlog = key } else take_dump acc key t

  abbrev pub scan_at : Nearest → String → Nearest → Nearest → Option ℕ → Nearest
  scan_at acc key skipped taken none = skipped
  scan_at acc key skipped taken (some t) = if ltb point t then acc else taken

  abbrev pub taken_at : Nearest → String → Option ℕ → Nearest
  taken_at acc key none = acc
  taken_at acc key (some t) = take_key acc key t

  unfoldable pub scan : Nearest → List String → Nearest
  scan acc [] = acc
  scan acc (key ∷ rest) =
      let skipped = scan acc rest in
      let taken = scan (taken_at acc key (time_of key)) rest in
      if not (is_binlog key) && not (is_dump key)
      then skipped
      else scan_at acc key skipped taken (time_of key)

  unfoldable pub find_nearest_dump : List String → Nearest
  find_nearest_dump keys = scan (record { dump = ""; binlog = ""; time = none }) (sort_keys keys)
