-- ===== src/Benchmark/Parallel.antt =====
-- The arithmetic of Benchmark/parallelCal.c: the sums of the rows in `pSum` and their sum. The
-- threads run one after the other, an `int` is its value modulo 2 ^ 32, as in the parent. A loop
-- runs on fuel, a round for each index it can have. The matrix and its two sizes, constants of the source, are parameters.
pub mod Rows
mod Tests
use virtual_memory_simulatio.Base.{ℕ, zero, suc, ◌+◌, ◌*◌, ◌==◌, ltb, if◌then◌else◌}
use virtual_memory_simulatio.Benchmark.{add_terms}

-- `pSum` with another number at `j`.
abbrev pub write : (ℕ → ℕ) → ℕ → ℕ → ℕ → ℕ
write p_sum j v k = if k == j then v else p_sum k

module _ (a : ℕ → ℕ → ℕ) (c_size r_size : ℕ) where
  -- The inner loop: `pSum[j]` from its value on.
  unfoldable pub add_row : ℕ → ℕ → ℕ
  unfolding add_terms
  add_row j = add_terms c_size (λ i. a j i * i) c_size 1 0

  -- `for (; j < R_SIZE; j += step)` around the inner loop.
  unfoldable pub add_rows : ℕ → ℕ → ℕ → (ℕ → ℕ) → ℕ → ℕ
  unfolding add_row
  add_rows zero step j p_sum = p_sum
  add_rows (suc rounds) step j p_sum =
      let rest = add_rows rounds step (j + step) (write p_sum j (add_row j (p_sum j))) in
      if ltb j r_size then rest else p_sum

  -- The threads from `n` on, `threads` of them: `pSum` and `sum` at the end of `parallel_calculate`.
  unfoldable pub run_parallel : ℕ → ℕ → ℕ → (ℕ → ℕ) → ℕ → (ℕ → ℕ) × ℕ
  unfolding add_rows add_terms
  run_parallel zero thread_num n p_sum sum = (p_sum, sum)
  run_parallel (suc threads) thread_num n p_sum sum =
      let p_sum' = add_rows (r_size + 1) thread_num n p_sum in
      run_parallel threads thread_num (n + 1) p_sum'
        (add_terms (r_size + 1) p_sum' r_size thread_num n sum)

  -- `verify`: the value of `sum`.
  unfoldable pub verify_parallel : ℕ
  unfolding add_rows add_terms
  verify_parallel = add_terms (r_size + 1) (add_rows (r_size + 1) 1 0 (λ j. 0)) r_size 1 0 0
