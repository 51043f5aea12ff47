-- ===== src/Threads/Tests.antt =====
-- Concrete states of the scheduler for the witnesses.
use virtual_memory_simulatio.Base.{ℕ, true, none, some}
use virtual_memory_simulatio.Threads.{Tcb, Queue, Sched, ready, update}

abbrev pub empty_queue : Queue
empty_queue = record { head = 0; tail = 0; size = 0 }

-- A ready thread.
abbrev pub tcb_of : ℕ → ℕ → Tcb
tcb_of tid next = record {
  tid = tid;
  context = 0;
  state = ready;
  priority = 0;
  initial_start_time = record { tv_sec = 0; tv_usec = 0 };
  recent_start_time = record { tv_sec = 0; tv_usec = 0 };
  last_yield_time = record { tv_sec = 0; tv_usec = 0 };
  return_value = 0;
  next_tcb = next;
}

-- No thread at all, and empty levels.
abbrev pub idle : Sched
idle = record {
  scheduler_init = true;
  tcbs = λ _. none;
  cells = λ _. 0;
  mutexes = λ _. record { lock_wait_queue = empty_queue; state = 0 };
  multi_level_priority_queue = λ _. empty_queue;
  priority_time_slices = λ _. 50000;
  current_tcb = 0;
  main_tcb = 0;
  has_run = 0;
  cycle = 0;
  last_tid = 0;
  first_thread = 0;
  number_locks = 0;
  after_unlock_priority = none;
  timer = none;
}

-- Threads 1 and 2 stand in level 0, thread 3 waits for the mutex 5, and thread 1 runs.
abbrev pub busy : Sched
busy = record idle {
  tcbs =
      update (update (update (λ _. none) 10 (some (tcb_of 1 20))) 20 (some (tcb_of 2 0))) 30
        (some (tcb_of 3 0));
  multi_level_priority_queue =
      update (λ _. empty_queue) 0 (record { head = 10; tail = 20; size = 2 });
  mutexes = λ _. record { lock_wait_queue = record { head = 30; tail = 30; size = 1 }; state = 1 };
  current_tcb = 10;
}
