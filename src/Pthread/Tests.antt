-- ===== src/Pthread/Tests.antt =====
-- The mutex operations at a mutex with one waiting thread, and at one without.
use virtual_memory_simulatio.Base.{◌+◌, some, false, refl, [], ◌∷◌, arith}
use virtual_memory_simulatio.Threads.{Sched, update, ◌>>=◌}
use virtual_memory_simulatio.Threads.Tests.{busy, tcb_of, empty_queue}
use virtual_memory_simulatio.Levels.Holds.{SchedHolds, update_elim}
use virtual_memory_simulatio.Levels.Tests.{busy_lists, busy-SchedHolds}
use virtual_memory_simulatio.Queue.Chain.{Apart, NotIn}
use virtual_memory_simulatio.Pthread.{
  my_pthread_create, NewThread, my_pthread_mutex_unlock, my_pthread_mutex_lock, lock_wait,
  lock_round,
}
use virtual_memory_simulatio.Pthread.Create.{Granted, Creates, my_pthread_create-Creates}
use virtual_memory_simulatio.Pthread.Queued.{Queued, lock_wait-Queued}
use virtual_memory_simulatio.Pthread.Lock.{
  Locks, my_pthread_mutex_lock-Locks_queued, my_pthread_mutex_lock-Locks_stray,
}
use virtual_memory_simulatio.Pthread.Unlock.{
  Waits, Unlocks, my_pthread_mutex_unlock-Unlocks, my_pthread_mutex_unlock-Unlocks_none,
}

busy-Waits : Waits busy 5 (30 ∷ []) busy_lists
busy-Waits = record {
  is_queue = record {
    chain = (refl, omega arith, tcb_of 3 0, refl, refl);
    distinct = (tt, tt);
    size = refl;
    tail = refl;
  };
  free = λ i _.
      update_elim (λ l. Apart (30 ∷ []) l) (λ _. []) 0 (10 ∷ 20 ∷ []) i
        (λ _. ((λ e. omega arith, (λ e. omega arith, tt)), tt)) (λ _. (tt, tt));
}

my_pthread_mutex_unlock-Unlocks_example :
    Unlocks busy 5 (my_pthread_mutex_unlock 5 busy) [] (update busy_lists 0 (10 ∷ 20 ∷ 30 ∷ [])) 0
my_pthread_mutex_unlock-Unlocks_example =
    my_pthread_mutex_unlock-Unlocks busy 5 30 [] busy_lists (tcb_of 1 20) busy-SchedHolds busy-Waits
      refl (omega arith) (λ e. omega arith)

-- Nobody waits.
abbrev quiet : Sched
quiet = record busy { mutexes = λ _. record { lock_wait_queue = empty_queue; state = 1 } }

quiet-SchedHolds : SchedHolds quiet busy_lists
quiet-SchedHolds = busy-SchedHolds

quiet-Waits : Waits quiet 5 [] busy_lists
quiet-Waits = record {
  is_queue = record { chain = refl; distinct = tt; size = refl; tail = refl };
  free = λ i _. tt;
}

my_pthread_mutex_unlock-Unlocks_none_example :
    Unlocks quiet 5 (my_pthread_mutex_unlock 5 quiet) [] busy_lists 0
my_pthread_mutex_unlock-Unlocks_none_example =
    my_pthread_mutex_unlock-Unlocks_none quiet 5 busy_lists (tcb_of 1 20) quiet-SchedHolds
      quiet-Waits refl (omega arith)

-- A thread waits for a mutex that has been released.
abbrev released : Sched
released = record busy {
  mutexes = λ _. record { lock_wait_queue = record { head = 30; tail = 30; size = 1 }; state = 0 };
}

released-Waits : Waits released 5 (30 ∷ []) busy_lists
released-Waits = record { is_queue = busy-Waits.is_queue; free = busy-Waits.free }

my_pthread_mutex_lock-Locks_queued_example :
    Locks busy 5
      (my_pthread_mutex_lock 5 (record { tv_sec = 1; tv_usec = 0 }) busy)
      false
      (30 ∷ 10 ∷ [])
      (update busy_lists 0 (20 ∷ []))
my_pthread_mutex_lock-Locks_queued_example =
    my_pthread_mutex_lock-Locks_queued busy 5 (record { tv_sec = 1; tv_usec = 0 }) 10 (20 ∷ [])
      (30 ∷ []) busy_lists (tcb_of 1 20) busy-SchedHolds busy-Waits (λ e. omega arith) refl
      (omega arith) (omega arith) refl

-- Threads 1 and 2 have been created, the block of the next one is at 40.
abbrev started : Sched
started = record busy { last_tid = 2; first_thread = 1 }

abbrev next_thread : NewThread
next_thread = record {
  tcb_node = 40;
  blank = tcb_of 9 9;
  return_value = 8;
  context = 6;
  getcontext_fails = false;
  stack = some 50;
  makecontext = λ c sp. c + sp;
  sigstksz = 8192;
  ss_sp = some 7;
  sigaltstack_fails = false;
}

next_thread-Granted : Granted next_thread
next_thread-Granted = record {
  context_ok = refl;
  stack = 50;
  stack_given = refl;
  handler_stack = 7;
  handler_given = refl;
  handler_ok = refl;
}

my_pthread_create-Creates_example :
    Creates started
      (my_pthread_create next_thread next_thread started)
      next_thread
      next_thread-Granted
      3
      (update busy_lists 0 (10 ∷ 20 ∷ 40 ∷ []))
      (40 ∷ 10 ∷ 20 ∷ [])
my_pthread_create-Creates_example =
    my_pthread_create-Creates started busy_lists next_thread next_thread busy-SchedHolds refl
      (omega arith) (omega arith)
      (λ i _.
        update_elim (λ l. NotIn 40 l) (λ _. []) 0 (10 ∷ 20 ∷ []) i
          (λ _. (λ e. omega arith, (λ e. omega arith, tt))) (λ _. tt))
      next_thread-Granted

lock_wait-Queued_example :
    Queued released 5
      (record { tv_sec = 1; tv_usec = 0 })
      10
      (30 ∷ [])
      (update busy_lists 0 (20 ∷ []))
      (lock_wait 5 0 (record { tv_sec = 1; tv_usec = 0 }) released)
lock_wait-Queued_example =
    lock_wait-Queued released 5 (record { tv_sec = 1; tv_usec = 0 }) 0 10 (20 ∷ []) (30 ∷ [])
      busy_lists (record { queues = busy-SchedHolds.queues; apart = busy-SchedHolds.apart })
      released-Waits (omega arith) refl

my_pthread_mutex_lock-Locks_stray_example :
    Locks busy 5
      ((my_pthread_mutex_lock 5 (record { tv_sec = 1; tv_usec = 0 }) >>= λ _.
          lock_round 5 0 (record { tv_sec = 1; tv_usec = 25000 }))
        busy)
      false
      (30 ∷ 10 ∷ 20 ∷ [])
      (update (update busy_lists 0 (20 ∷ [])) 0 [])
my_pthread_mutex_lock-Locks_stray_example =
    my_pthread_mutex_lock-Locks_stray busy 5 (record { tv_sec = 1; tv_usec = 0 })
      (record { tv_sec = 1; tv_usec = 25000 }) 10 20 [] (30 ∷ []) busy_lists (tcb_of 1 20)
      busy-SchedHolds busy-Waits (λ e. omega (arith, e)) refl (omega arith) (omega arith) refl
