-- ===== src/Benchmark/Tests.antt =====
-- Two threads on vectors of five numbers.
use virtual_memory_simulatio.Base.{◌≡◌, arith}
use virtual_memory_simulatio.Benchmark.{run_threads, verify}
use virtual_memory_simulatio.Benchmark.Sums.{run_threads-verify}

run_threads-verify_example :
    run_threads 2 6 (λ i. i) (λ i. i) 5 2 0 0 ≡ verify 6 (λ i. i) (λ i. i) 5
run_threads-verify_example = run_threads-verify 6 (λ i. i) (λ i. i) 5 2 (omega arith) (omega arith)
