-- ===== src/Pthread/Exclusion/Tests.antt =====
-- A thread takes a mutex, and asks for it again.
use virtual_memory_simulatio.Base.{ℕ, ◌≡◌, refl, true, false, [], ◌∷◌, arith}
use virtual_memory_simulatio.Threads.{Timeval, Sched, ok, update}
use virtual_memory_simulatio.Threads.Tests.{busy, empty_queue, tcb_of}
use virtual_memory_simulatio.Threads.Access.{load_tcb-ok}
use virtual_memory_simulatio.Levels.Tests.{busy_lists, busy-SchedHolds}
use virtual_memory_simulatio.Pthread.{lock_round, my_pthread_mutex_lock, my_pthread_mutex_unlock}
use virtual_memory_simulatio.Pthread.Unlock.{Waits, Unlocks, my_pthread_mutex_unlock-Unlocks_none}
use virtual_memory_simulatio.Pthread.Lock.{Locks, my_pthread_mutex_lock-Locks_queued}
use virtual_memory_simulatio.Pthread.Exclusion.Steps.{World, Reach, here, next, locks}
use virtual_memory_simulatio.Pthread.Exclusion.{mutual_exclusion, lock_refused}

abbrev noon : Timeval
noon = record { tv_sec = 43200; tv_usec = 0 }

abbrev calm : Sched
calm = record busy { mutexes = λ _. record { lock_wait_queue = empty_queue; state = 0 } }

abbrev outside : World
outside = record { sched = calm; inside = λ _. false }

abbrev held : World
held = record {
  sched = record calm {
    mutexes = update calm.mutexes 5 (record { lock_wait_queue = empty_queue; state = 1 });
  };
  inside = update (λ _. false) 10 true;
}

first_lock : my_pthread_mutex_lock 5 noon calm ≡ ok true held.sched
unfolding my_pthread_mutex_lock lock_round
first_lock = rw (load_tcb-ok calm 10 {t = tcb_of 1 20} refl (omega arith)) refl

held-Reach : Reach 5 outside held
held-Reach = next outside held here (locks outside held.sched noon true first_lock)

held-Waits : Waits held.sched 5 [] busy_lists
held-Waits = record {
  is_queue = record { chain = refl; distinct = tt; size = refl; tail = refl };
  free = λ i _. tt;
}

abbrev second_lock :
    Locks held.sched 5
      (my_pthread_mutex_lock 5 noon held.sched)
      false
      (10 ∷ [])
      (update busy_lists 0 (20 ∷ []))
second_lock =
    my_pthread_mutex_lock-Locks_queued held.sched 5 noon 10 (20 ∷ []) [] busy_lists (tcb_of 1 20)
      (record { queues = busy-SchedHolds.queues; apart = busy-SchedHolds.apart }) held-Waits
      (λ e. omega (arith, e)) refl (omega arith) (omega arith) refl

abbrev the_unlock : Unlocks held.sched 5 (my_pthread_mutex_unlock 5 held.sched) [] busy_lists 0
the_unlock =
    my_pthread_mutex_unlock-Unlocks_none held.sched 5 busy_lists (tcb_of 1 20)
      (record { queues = busy-SchedHolds.queues; apart = busy-SchedHolds.apart }) held-Waits refl
      (omega arith)

mutual_exclusion_example : ◌≡◌ {A = ℕ} 10 10
mutual_exclusion_example = mutual_exclusion 5 outside held 10 10 (λ _. refl) held-Reach refl refl

lock_refused_example : false ≡ false
lock_refused_example =
    lock_refused 5 outside held 10 noon false second_lock.final (λ _. refl) held-Reach refl
      second_lock.runs
