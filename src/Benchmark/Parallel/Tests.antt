-- ===== src/Benchmark/Parallel/Tests.antt =====
-- Two threads on a matrix of three rows.
use virtual_memory_simulatio.Base.{◌≡◌, refl, ◌+◌, arith}
use virtual_memory_simulatio.Benchmark.Parallel.{run_parallel, verify_parallel}
use virtual_memory_simulatio.Benchmark.Parallel.Rows.{run_parallel-verify}

run_parallel-verify_example :
    (run_parallel (λ j i. j + i) 4 3 2 2 0 (λ j. 0) 0).1 ≡ verify_parallel (λ j i. j + i) 4 3
run_parallel-verify_example = run_parallel-verify (λ j i. j + i) 4 3 2 (omega arith)

-- The rows sum up to 14, 20 and 26.
verify_parallel_three : verify_parallel (λ j i. j + i) 4 3 ≡ 60
unfolding verify_parallel
verify_parallel_three = refl
