-- ===== src/Mycnf/Tests.antt =====
-- The settings of a user who sets forced options, and a small instance.
use moco.Prelude.{refl, ◌+◌, ◌*◌, ◌/◌, ◌%◌, ◌^◌, ◌≤◌, ◌<◌, ◌≡◌, ◌⊎◌, String, some, [], ◌∷◌, All}
use moco.Prelude.Dict.{Dict, lookup, insert, erase}
use moco.Mycnf.{
  calc_buffer_size, mysqld_section, normalize_conf_key, merge_section, put_all, put, normalized,
  mysqld_conf, base_of,
}
use moco.Mycnf.Tables.{const_mysqld, default_mycnf}
use moco.Mycnf.Forced.{IsForced, mysqld_section_forces}
use moco.Mycnf.BufferSize.{calc_buffer_size_lem}

abbrev user_conf : Dict String
user_conf =
    ("read-only", "OFF")
    ∷ ("loose_gtid_mode", "OFF")
    ∷ ("innodb-buffer-pool-size", "1G")
    ∷ ("_include", "performance-schema-consumer-events-waits-current=ON")
    ∷ []

mysqld_section_forces_example :
    All
      (λ e. IsForced (mysqld_section user_conf 1073741824) (normalize_conf_key e.0) e.1)
      const_mysqld
mysqld_section_forces_example = mysqld_section_forces user_conf 1073741824

calc_buffer_size_lem_example :
    (calc_buffer_size 1073741824 % 2 ^ 20 ≡ 0)
    × (128 * 2 ^ 20 ≤ calc_buffer_size 1073741824)
    × ((calc_buffer_size 1073741824 ≡ 128 * 2 ^ 20)
        ⊎ (100 * calc_buffer_size 1073741824 ≤ 70 * 1073741824))
    × (1073741824 / 100 * 70 < calc_buffer_size 1073741824 + 2 ^ 20)
calc_buffer_size_lem_example = calc_buffer_size_lem 1073741824

-- An option that is removed stays under the prefix.
loose_skip_log_bin_stays :
    lookup "loose_skip_log_bin" (mysqld_section (("loose_skip_log_bin", "1") ∷ []) 1073741824)
    ≡ some "1"
unfolding mysqld_section merge_section put_all put normalized mysqld_conf const_mysqld default_mycnf
    normalize_conf_key base_of insert erase lookup
loose_skip_log_bin_stays = refl
