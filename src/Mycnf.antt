-- ===== src/Mycnf.antt =====
-- The generator of my.cnf (pkg/mycnf/generator.go). A map is iterated in the order of its entries.
pub mod Tables
pub mod Forced
pub mod BufferSize
mod Tests
use Prim.Native.String.{len, slice}
use Prim.Native.Char.{Char, code}
use text.Mathlib.Text.{starts_with}
use moco.Prelude.{
  ℕ, ◌*◌, ◌/◌, ◌^◌, String, ◌<>◌, ◌==◌, ◌=?◌, ltb, Bool, true, false, Option, none, some, List, [],
  ◌∷◌, if◌then◌else◌, is_some,
}
use moco.Prelude.Dict.{Dict, lookup, erase, insert, value_of}
use moco.Api.Names.{decimal}
use moco.Backup.Nearest.{sort_keys}
use moco.Mycnf.Tables.{default_mycnf, const_mysqld, const_client, const_mysql}

-- `strings.ReplaceAll` of dashes.
unfoldable pub normalize_conf_key : String → String
normalize_conf_key String.[] = ""
normalize_conf_key (String.◌∷◌ c s) =
    let rest = normalize_conf_key s in if code c =? b'-' then "_" <> rest else String.◌∷◌ c rest

-- `strings.TrimPrefix`.
unfoldable pub base_of : String → String
base_of k = if starts_with k "loose_" then slice k 6 (len k) else k

abbrev pub loose_of : String → String
loose_of k = "loose_" <> base_of k

-- The normalised copy of a section.
unfoldable pub normalized : Dict String → Dict String → Dict String
unfolding normalize_conf_key
normalized acc [] = acc
normalized acc (e ∷ rest) = normalized (insert (normalize_conf_key e.0) e.1 acc) rest

-- An option replaces its variations, those with and without the prefix.
unfoldable pub put : String → String → Dict String → Dict String
put nk v conf = insert nk v (erase (loose_of nk) (erase (base_of nk) conf))

unfoldable pub put_all : Dict String → Dict String → Dict String
unfolding normalize_conf_key put
put_all conf [] = conf
put_all conf (e ∷ rest) = put_all (put (normalize_conf_key e.0) e.1 conf) rest

unfoldable pub merge_section : Dict String → Dict String → Dict String
unfolding normalized put_all
merge_section conf1 conf2 = put_all (normalized [] conf1) conf2

-- 70 percent of the memory, in whole mebibytes; at least 128 MiB.
unfoldable pub calc_buffer_size : ℕ → ℕ
calc_buffer_size total =
    let m = total / 100 * 70 / 2 ^ 20 * 2 ^ 20 in if ltb m (128 * 2 ^ 20) then 128 * 2 ^ 20 else m

abbrev pub with_buffer : ℕ → Dict String → Dict String
with_buffer mem_total conf =
    if is_some (lookup "innodb_buffer_pool_size" conf)
    then conf
    else insert "innodb_buffer_pool_size" (decimal (calc_buffer_size mem_total)) conf

-- The section mysqld before the forced options.
unfoldable pub mysqld_conf : Dict String → ℕ → Dict String
unfolding merge_section
mysqld_conf user_conf mem_total = erase "disable_log_bin" (
    erase "skip_log_bin" (
      erase "log_error" (
        erase "log_bin"
          (erase "_include" (with_buffer mem_total (merge_section default_mycnf user_conf))))))

unfoldable pub mysqld_section : Dict String → ℕ → Dict String
unfolding merge_section mysqld_conf
mysqld_section user_conf mem_total = merge_section (mysqld_conf user_conf mem_total) const_mysqld

abbrev pub keys_of : Dict String → List String
keys_of [] = []
keys_of (e ∷ rest) = e.0 ∷ keys_of rest

unfoldable pub print_options : Dict String → List String → String
print_options conf [] = ""
print_options conf (k ∷ rest) = k <> " = " <> value_of k conf <> "\n" <> print_options conf rest

unfoldable pub print_section : String → String → Dict String → String
unfolding print_options
print_section name opaque conf =
    "[" <> name <> "]\n" <> opaque <> print_options conf (sort_keys (keys_of conf)) <> "\n"

abbrev pub opaque_lines : String → String
opaque_lines t = if t == "" then "" else t <> "\n"

-- The sections are sorted: client, mysql, mysqld.
unfoldable pub generate : Dict String → ℕ → String
unfolding print_section mysqld_section merge_section
generate user_conf mem_total =
    print_section "client" "" (merge_section [] const_client)
    <> print_section "mysql" "" (merge_section [] const_mysql)
    <> print_section "mysqld" (opaque_lines (value_of "_include" user_conf))
        (mysqld_section user_conf mem_total)
    <> "!includedir /etc/mysql-conf.d\n"
