-- ===== src/Select/Tests.antt =====
-- A round over three threads.
use virtual_memory_simulatio.Base.{ℕ, List, [], ◌∷◌, arith}
use virtual_memory_simulatio.Threads.{Timeval, Tcb}
use virtual_memory_simulatio.Threads.Tests.{tcb_of}
use virtual_memory_simulatio.Select.{partition, count_below}
use virtual_memory_simulatio.Select.Split.{Divided, partition-Divided}

abbrev at_second : ℕ → Timeval
at_second n = record { tv_sec = n; tv_usec = 0 }

abbrev begun : ℕ → ℕ → Tcb
begun tid n = record (tcb_of tid 0) { initial_start_time = at_second n }

abbrev three : List Tcb
three = begun 1 30 ∷ begun 2 20 ∷ begun 3 10 ∷ []

partition-Divided_example :
    Divided
      (tcb_of 0 0)
      (at_second 20)
      three
      (partition (tcb_of 0 0) 2 (at_second 20) three 0 2).0
      0
      (count_below
        (tcb_of 0 0)
        (at_second 20)
        (partition (tcb_of 0 0) 2 (at_second 20) three 0 2).0
        (partition (tcb_of 0 0) 2 (at_second 20) three 0 2).1)
      2
partition-Divided_example =
    partition-Divided (tcb_of 0 0) (at_second 20) three 0 2 (omega arith) (omega arith)
