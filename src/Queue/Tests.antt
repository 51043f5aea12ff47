-- ===== src/Queue/Tests.antt =====
-- The theorems on queues at a queue of two threads.
use virtual_memory_simulatio.Base.{refl, [], ◌∷◌, none, some, arith}
use virtual_memory_simulatio.Threads.{Queue, Sched, update}
use virtual_memory_simulatio.Threads.Tests.{idle, tcb_of}
use virtual_memory_simulatio.Queue.{enqueue, dequeue}
use virtual_memory_simulatio.Queue.Chain.{IsQueue}
use virtual_memory_simulatio.Queue.Laws.{Yields, Takes, enqueue-IsQueue, dequeue-IsQueue}

abbrev two : Queue
two = record { head = 10; tail = 20; size = 2 }

-- The blocks 10 and 20 are linked, 30 is not.
abbrev linked : Sched
linked = record idle {
  tcbs =
      update (update (update (λ _. none) 10 (some (tcb_of 1 20))) 20 (some (tcb_of 2 0))) 30
        (some (tcb_of 3 0));
}

two-IsQueue : IsQueue linked.tcbs two (10 ∷ 20 ∷ [])
two-IsQueue = record {
  chain = (refl, omega arith, tcb_of 1 20, refl, (refl, omega arith, tcb_of 2 0, refl, refl));
  distinct = ((λ e. omega arith, tt), (tt, tt));
  size = refl;
  tail = refl;
}

enqueue-IsQueue_example :
    Yields linked (30 ∷ 10 ∷ 20 ∷ []) (enqueue two 30 linked) (10 ∷ 20 ∷ 30 ∷ [])
enqueue-IsQueue_example =
    enqueue-IsQueue linked two 30 (10 ∷ 20 ∷ []) (tcb_of 3 0) two-IsQueue refl (omega arith)
      (λ e. omega arith, (λ e. omega arith, tt))

dequeue-IsQueue_example : Takes linked 10 (dequeue two linked) (20 ∷ [])
dequeue-IsQueue_example = dequeue-IsQueue linked two 10 (20 ∷ []) two-IsQueue
