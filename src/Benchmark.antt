-- ===== src/Benchmark.antt =====
-- The arithmetic of Benchmark/vectorMultiply.c. Each increment of the shared sum stands between
-- my_pthread_mutex_lock and my_pthread_mutex_unlock, so it is one step; the threads run one after
-- the other. An `int` is its value modulo 2 ^ 32: an overflow is taken to wrap around. A loop runs
-- on fuel, a round for each index.
mod Tests
pub mod Parallel
pub mod Sums
use virtual_memory_simulatio.Base.{ℕ, zero, suc, ◌+◌, ◌*◌, ◌%◌, ltb, if◌then◌else◌}

abbrev pub int_range : ℕ
int_range = 4294967296

-- `for (i = start; i < size; i += step) sum += term(i)`
pub add_terms : ℕ → (ℕ → ℕ) → ℕ → ℕ → ℕ → ℕ → ℕ
add_terms zero term size step i sum = sum
add_terms (suc fuel) term size step i sum =
    let rest = add_terms fuel term size step (i + step) ((sum + term i) % int_range) in
    if ltb i size then rest else sum

-- `vector_multiply` of thread `n`: the value of `res` at its end.
pub vector_multiply : ℕ → (ℕ → ℕ) → (ℕ → ℕ) → ℕ → ℕ → ℕ → ℕ → ℕ
unfolding add_terms
vector_multiply fuel r s vector_size thread_num n res =
    add_terms fuel (λ i. r i * s i) vector_size thread_num n res

-- `verify`: the value of `res`.
pub verify : ℕ → (ℕ → ℕ) → (ℕ → ℕ) → ℕ → ℕ
unfolding add_terms
verify fuel r s vector_size = add_terms fuel (λ i. r i * s i) vector_size 1 0 0

-- The threads from `n` on, `threads` of them, one after the other.
pub run_threads : ℕ → ℕ → (ℕ → ℕ) → (ℕ → ℕ) → ℕ → ℕ → ℕ → ℕ → ℕ
unfolding vector_multiply
run_threads zero fuel r s vector_size thread_num n res = res
run_threads (suc threads) fuel r s vector_size thread_num n res =
    run_threads threads fuel r s vector_size thread_num (n + 1)
      (vector_multiply fuel r s vector_size thread_num n res)
