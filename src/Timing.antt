-- ===== src/Timing.antt =====
-- `time_compare` of my_pthread.c. The seconds and the gap are below 2^31, so that no `int` wraps;
-- a difference that is compared is moved to the other side as a sum.
mod Tests
pub mod Elapsed
use virtual_memory_simulatio.Base.{ℕ, ◌+◌, ◌-◌, ◌%◌, ltb, ◌==◌, if◌then◌else◌, ℤ, pos, negsuc}
use virtual_memory_simulatio.Threads.{Timeval}

abbrev pub gap_second : ℕ → ℕ
gap_second gap = if ltb 999999 gap then gap - gap % 1000000 else 0

abbrev pub gap_microsecond : ℕ → ℕ
gap_microsecond gap = if ltb 999999 gap then gap % 1000000 else gap

unfoldable pub time_compare : Timeval → Timeval → ℕ → ℤ
time_compare start end gap =
    if ltb (gap_second gap + start.tv_sec) end.tv_sec
    then pos 1
    else if end.tv_sec == gap_second gap + start.tv_sec
    then if ltb (gap_microsecond gap + start.tv_usec) end.tv_usec
      then pos 1
      else if end.tv_usec == gap_microsecond gap + start.tv_usec
      then pos 0
      else negsuc 0
    else negsuc 0
