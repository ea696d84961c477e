-- ===== src/Clustering/Gather/Text.antt =====
-- The texts that `GatherStatus` takes apart: pod names and GTID sets (clustering/status.go).
use Prim.Native.Char.{Char, code}
use moco.Prelude.{
  ℕ, String, ◌<>◌, Bool, false, not, ◌||◌, ◌==◌, ◌=?◌, List, [], ◌∷◌, Outcome, ok, panic,
  if◌then◌else◌,
}

abbrev one : Char → String
one c = String.◌∷◌ c String.[]

-- `strings.Split` by one byte: the fields, of which there is at least one.
split_from : ℕ → String → String → List String
split_from sep field String.[] = field ∷ []
split_from sep field (String.◌∷◌ c s) =
    let here = split_from sep "" s in
    let on = split_from sep (field <> one c) s in if code c =? sep then field ∷ here else on

unfoldable pub split : ℕ → String → List String
unfolding split_from
split sep s = split_from sep "" s

last_or : String → List String → String
last_or d [] = d
last_or d (x ∷ xs) = last_or x xs

-- `fields[len(fields)-1]` of the fields between dashes.
unfoldable pub last_field : String → String
unfolding split last_or
last_field s = last_or "" (split b'-' s)

first_or : String → List String → String
first_or d [] = d
first_or d (x ∷ xs) = x

-- The part of a UUID set before its first colon.
unfoldable pub uuid_of : String → String
unfolding split first_or
uuid_of s = first_or "" (split b':' s)

unfoldable pub any_foreign : String → List String → Bool
any_foreign uuid [] = false
any_foreign uuid (s ∷ rest) = not (uuid_of s == uuid) || any_foreign uuid rest

-- Whether a GTID set has transactions of another server than the primary.
unfoldable pub contain_errant_transactions : String → String → Outcome Bool
unfolding split any_foreign
contain_errant_transactions uuid gtid_set =
    if uuid == ""
    then panic
    else if gtid_set == ""
    then ok false
    else ok (any_foreign uuid (split b',' gtid_set))
