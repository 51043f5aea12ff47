-- ===== src/Timing/Tests.antt =====
-- The theorems on `time_compare` at concrete times.
use virtual_memory_simulatio.Base.{ℕ, ◌≡◌, refl, arith, pos, negsuc}
use virtual_memory_simulatio.Threads.{Timeval}
use virtual_memory_simulatio.Timing.{time_compare}
use virtual_memory_simulatio.Timing.Elapsed.{
  compare_gap, time_compare-same_second, time_compare-next_second, time_compare-long_gap,
}

abbrev at : ℕ → ℕ → Timeval
at s u = record { tv_sec = s; tv_usec = u }

time_compare-same_second_example :
    time_compare (at 5 100) (at 5 50200) 50000 ≡ compare_gap (at 5 100) (at 5 50200) 50000
time_compare-same_second_example =
    time_compare-same_second (at 5 100) (at 5 50200) 50000 refl (omega arith)

-- Two microseconds against a time slice of 50 milliseconds.
time_compare-next_second_example :
    (time_compare (at 5 999999) (at 6 1) 50000 ≡ pos 1)
    × (compare_gap (at 5 999999) (at 6 1) 50000 ≡ negsuc 0)
time_compare-next_second_example =
    time_compare-next_second (at 5 999999) (at 6 1) 50000 (omega arith) (omega arith) (omega arith)

-- A hundred seconds against a gap of two.
time_compare-long_gap_example :
    (time_compare (at 5 0) (at 105 0) 2000000 ≡ negsuc 0)
    × (compare_gap (at 5 0) (at 105 0) 2000000 ≡ pos 1)
time_compare-long_gap_example =
    time_compare-long_gap (at 5 0) (at 105 0) 2000000 (omega arith) (omega arith) (omega arith)
