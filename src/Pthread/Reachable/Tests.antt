-- ===== src/Pthread/Reachable/Tests.antt =====
-- A program that creates a thread and makes a mutex.
use virtual_memory_simulatio.Base.{
  ℕ, ◌+◌, some, ◌≤◌, ◌⊎◌, refl, true, false, List, pos, arith, length,
}
use virtual_memory_simulatio.Threads.{Timeval, Sched, update}
use virtual_memory_simulatio.Threads.Tests.{idle, tcb_of}
use virtual_memory_simulatio.Threads.Related.{AllAt}
use virtual_memory_simulatio.Levels.Holds.{SchedHolds}
use virtual_memory_simulatio.Switch.Single.{single}
use virtual_memory_simulatio.Switch.Fair.{IsEnded}
use virtual_memory_simulatio.Pthread.{NewThread}
use virtual_memory_simulatio.Pthread.Create.{Granted}
use virtual_memory_simulatio.Pthread.Sound.{IsSound}
use virtual_memory_simulatio.Pthread.Sound.First.{
  Unused, FirstTwo, Begins, my_pthread_create-Begins,
}
use virtual_memory_simulatio.Pthread.Sound.Inits.{made_mutex, my_pthread_mutex_init-runs}
use virtual_memory_simulatio.Pthread.Reachable.{Calls, here, next, inits, program-IsSound}
use virtual_memory_simulatio.Pthread.Reachable.Yields.{Yielded, program-Yielded}

abbrev unused : Sched
unused = record idle { scheduler_init = false }

abbrev thread_at : ℕ → NewThread
thread_at p = record {
  tcb_node = p;
  blank = tcb_of 9 9;
  return_value = 8;
  context = 6;
  getcontext_fails = false;
  stack = some 50;
  makecontext = λ c sp. c + sp;
  sigstksz = 8192;
  ss_sp = some 7;
  sigaltstack_fails = false;
}

unused-Unused : Unused unused
unused-Unused = record { init = refl; last = refl; after = refl }

thread_at-Granted : Granted (thread_at 20)
thread_at-Granted = record {
  context_ok = refl;
  stack = 50;
  stack_given = refl;
  handler_stack = 7;
  handler_given = refl;
  handler_ok = refl;
}

two : FirstTwo unused (thread_at 10) (thread_at 20)
two = record {
  main_pos = omega arith;
  node_pos = omega arith;
  differ = λ e. omega arith;
  new = refl;
  main_context = refl;
  granted = thread_at-Granted;
}

abbrev begins : Begins unused (thread_at 10) (thread_at 20)
begins = my_pthread_create-Begins unused (thread_at 10) (thread_at 20) unused-Unused two

makes : Calls begins.final (λ _. false) (made_mutex 5 begins.final) (update (λ _. false) 5 true)
makes =
    next begins.final (made_mutex 5 begins.final) (λ _. false) (update (λ _. false) 5 true) here
      (inits begins.final (made_mutex 5 begins.final) (λ _. false) 5 (pos 0)
        (my_pthread_mutex_init-runs begins.final 5 begins.sound.sound.init))

program-IsSound_example : IsSound (made_mutex 5 begins.final) (update (λ _. false) 5 true)
program-IsSound_example =
    program-IsSound unused begins.final (made_mutex 5 begins.final) (thread_at 10) (thread_at 20)
      (pos 0, 1) (update (λ _. false) 5 true) unused-Unused two begins.runs makes

program-Yielded_example :
    (xs : List ℕ) × SchedHolds (made_mutex 5 begins.final) (single xs)
    × (AllAt (made_mutex 5 begins.final).tcbs IsEnded xs
        ⊎ ((fuel : ℕ) (now : Timeval)
            → length xs ≤ fuel
            → Yielded (made_mutex 5 begins.final) (update (λ _. false) 5 true) fuel now))
program-Yielded_example =
    program-Yielded unused begins.final (made_mutex 5 begins.final) (thread_at 10) (thread_at 20)
      (pos 0, 1) (update (λ _. false) 5 true) unused-Unused two begins.runs makes
      (λ e. omega (arith, e, begins.current))
