-- ===== src/Mycnf/BufferSize.antt =====
-- The size of the InnoDB buffer pool (pkg/mycnf/generator.go).
use moco.Prelude.{
  ℕ, ◌*◌, ◌/◌, ◌%◌, ◌^◌, ◌≤◌, ◌<◌, ◌+◌, ◌≡◌, ◌⊎◌, inl, inr, refl, arith, ltb, ltb→lt, Bool-cases,
}
use moco.Mycnf.{calc_buffer_size}

-- The size is a whole number of mebibytes and at least 128 MiB; above that it is within 70 percent of
-- the memory, and short of 70 times the hundredth of it by less than a mebibyte.
pub calc_buffer_size_lem :
    (total : ℕ)
    → (calc_buffer_size total % 2 ^ 20 ≡ 0)
      × (128 * 2 ^ 20 ≤ calc_buffer_size total)
      × ((calc_buffer_size total ≡ 128 * 2 ^ 20) ⊎ (100 * calc_buffer_size total ≤ 70 * total))
      × (total / 100 * 70 < calc_buffer_size total + 2 ^ 20)
unfolding calc_buffer_size
calc_buffer_size_lem total =
    elim (Bool-cases (ltb (total / 100 * 70 / 2 ^ 20 * 2 ^ 20) (128 * 2 ^ 20))) [
      | inl t ↦ rw t (omega arith, omega arith, inl refl, omega (arith, ltb→lt _ _ t))
      | inr f ↦ rw f (omega arith, ground arith, inr (omega arith), omega arith)
    ]
