-- ===== src/Timing/Elapsed.antt =====
-- `time_compare` against the time that has passed.
use virtual_memory_simulatio.Base.{
  ℕ, ◌+◌, ◌-◌, ◌*◌, ◌%◌, ◌≡◌, ◌<◌, ◌≤◌, arith, ℤ, pos, negsuc, ltb, ◌==◌, if◌then◌else◌,
}
use virtual_memory_simulatio.Threads.{Timeval}
use virtual_memory_simulatio.Timing.{time_compare}

-- A time in microseconds.
abbrev pub micros : Timeval → ℕ
micros t = t.tv_sec * 1000000 + t.tv_usec

-- How `end` compares with the time `gap` microseconds after `start`: later, at, or before it.
abbrev pub compare_gap : Timeval → Timeval → ℕ → ℤ
compare_gap start end gap =
    if ltb (micros start + gap) (micros end)
    then pos 1
    else if micros end == micros start + gap
    then pos 0
    else negsuc 0

-- Between two times of the same second, time_compare compares the time that has passed with a gap
-- of less than a second as its comment says.
pub time_compare-same_second :
    (start end : Timeval) (gap : ℕ)
    → start.tv_sec ≡ end.tv_sec
    → gap < 1000000
    → time_compare start end gap ≡ compare_gap start end gap
unfolding time_compare
time_compare-same_second start end gap h g = ground arith

-- Between times of different seconds, the end after the start, time_compare answers 1 to every gap
-- of less than a second, where the time that has passed is shorter than the gap and -1 would be
-- right.
pub time_compare-next_second :
    (start end : Timeval) (gap : ℕ)
    → start.tv_sec < end.tv_sec
    → gap < 1000000
    → micros end < micros start + gap
    → (time_compare start end gap ≡ pos 1) × (compare_gap start end gap ≡ negsuc 0)
unfolding time_compare
time_compare-next_second start end gap h g short = ground arith

-- To a gap of a second or more time_compare answers -1 as long as fewer seconds than the gap has
-- microseconds (in whole seconds) have passed, where more time has passed than the gap and 1 would
-- be right.
pub time_compare-long_gap :
    (start end : Timeval) (gap : ℕ)
    → 1000000 ≤ gap
    → end.tv_sec < start.tv_sec + (gap - gap % 1000000)
    → micros start + gap < micros end
    → (time_compare start end gap ≡ negsuc 0) × (compare_gap start end gap ≡ pos 1)
unfolding time_compare
time_compare-long_gap start end gap long early late = ground arith
