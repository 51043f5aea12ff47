-- ===== src/Switch/Tests.antt =====
-- The rotation of level 0 with two threads.
use virtual_memory_simulatio.Base.{◌≡◌, some, refl, [], ◌∷◌, arith}
use virtual_memory_simulatio.Threads.{Sched, Tcb, ok, running, update}
use virtual_memory_simulatio.Threads.Tests.{busy, tcb_of}
use virtual_memory_simulatio.Levels.Holds.{Reaches}
use virtual_memory_simulatio.Levels.Tests.{busy_lists, busy-SchedHolds}
use virtual_memory_simulatio.Switch.{requeue, my_pthread_yield_helper}
use virtual_memory_simulatio.Switch.Choose.{my_pthread_yield_helper_rotates}
use virtual_memory_simulatio.Switch.Rotate.{requeue-Holds}

requeue-Holds_example :
    Reaches busy
      (requeue 0 busy)
      10
      (update busy_lists 0 (20 ∷ 10 ∷ []))
      10
      (tcb_of 1 20)
      (10 ∷ 20 ∷ [])
requeue-Holds_example =
    requeue-Holds busy busy_lists 0 10 (20 ∷ []) (tcb_of 1 20) busy-SchedHolds (omega arith) refl
      refl refl

my_pthread_yield_helper_rotates_example :
    (u : Sched) × (my_pthread_yield_helper 1 (record { tv_sec = 1; tv_usec = 0 }) busy
      ≡ ok (some 20) u)
    × (u.current_tcb ≡ 20)
    × (u.has_run ≡ 1)
    × ((v : Tcb) × (u.tcbs 20 ≡ some v) × (v.state ≡ running))
my_pthread_yield_helper_rotates_example =
    my_pthread_yield_helper_rotates busy busy_lists 0 (record { tv_sec = 1; tv_usec = 0 }) 0 10 20
      [] (tcb_of 1 20) (tcb_of 1 20) (tcb_of 2 0) busy-SchedHolds (omega arith) refl refl
      (omega arith) refl refl refl refl refl refl (omega arith)
