-- ===== src/Pthread/Join/Tests.antt =====
-- Thread 1 of three exits, thread 2 has ended, and thread 3 joins thread 1.
use virtual_memory_simulatio.Base.{◌≡◌, refl, [], ◌∷◌, arith}
use virtual_memory_simulatio.Threads.{Sched, ok, and_then, ◌>>=◌, ◌>>◌, terminated, with_state}
use virtual_memory_simulatio.Threads.Tests.{tcb_of}
use virtual_memory_simulatio.Switch.{my_pthread_yield_helper, wrapper_return}
use virtual_memory_simulatio.Switch.Fair.Tests.{crowd, crowd-Single, noon}
use virtual_memory_simulatio.Pthread.{my_pthread_exit, my_pthread_join, value}
use virtual_memory_simulatio.Pthread.Join.{
  Leaves, my_pthread_join-exit, my_pthread_join-exit_overwritten,
}

crowd-Leaves : Leaves crowd 10 30 (20 ∷ 30 ∷ []) (20 ∷ []) (10 ∷ []) (tcb_of 1 20)
crowd-Leaves = record {
  single = crowd-Single;
  current = refl;
  held = refl;
  turned = refl;
  passed = ((with_state terminated (tcb_of 2 30), refl, refl), tt);
  other = λ e. omega (arith, e);
  block = tcb_of 3 0;
  next = refl;
  live = refl;
  first = refl;
}

my_pthread_join-exit_example :
    (u : Sched) × (and_then
        (my_pthread_exit 77 crowd)
        (λ _. my_pthread_yield_helper 2 noon >>= λ _. my_pthread_join 4 1)
      ≡ ok (value 77) u)
    × (u.current_tcb ≡ 30)
my_pthread_join-exit_example =
    my_pthread_join-exit crowd 10 30 (20 ∷ 30 ∷ []) (20 ∷ []) (10 ∷ []) (tcb_of 1 20) 77 2 4 noon
      crowd-Leaves (omega arith) (omega arith)

my_pthread_join-exit_overwritten_example :
    (u : Sched) × (and_then
        (my_pthread_exit 77 crowd)
        (λ _. wrapper_return 10 5 >> (my_pthread_yield_helper 2 noon >>= λ _. my_pthread_join 4 1))
      ≡ ok (value 5) u)
    × (u.current_tcb ≡ 30)
my_pthread_join-exit_overwritten_example =
    my_pthread_join-exit_overwritten crowd 10 30 (20 ∷ 30 ∷ []) (20 ∷ []) (10 ∷ []) (tcb_of 1 20) 77
      5 2 4 noon crowd-Leaves (omega arith) (omega arith)
