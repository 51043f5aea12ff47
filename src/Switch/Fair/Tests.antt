-- ===== src/Switch/Fair/Tests.antt =====
-- Three threads in level 0, one of which has ended.
use virtual_memory_simulatio.Base.{ℕ, ◌≡◌, refl, sym, ◌∙◌, none, some, List, [], ◌∷◌, arith}
use virtual_memory_simulatio.Threads.{
  Timeval, Sched, fault, out_of_fuel, terminated, update, with_state,
}
use virtual_memory_simulatio.Threads.Tests.{idle, empty_queue, tcb_of}
use virtual_memory_simulatio.Queue.Chain.{IsQueue, Apart, Apart-nil}
use virtual_memory_simulatio.Levels.Holds.{SchedHolds, update_elim, update_elim₂}
use virtual_memory_simulatio.Switch.{my_pthread_yield_helper}
use virtual_memory_simulatio.Switch.Single.{Single, single}
use virtual_memory_simulatio.Switch.Install.{Starts}
use virtual_memory_simulatio.Switch.Turns.{Current}
use virtual_memory_simulatio.Switch.Fair.{
  my_pthread_yield_helper-Starts, my_pthread_yield_helper-all_ended,
  my_pthread_yield_helper-Reached, Reached,
}

abbrev pub crowd : Sched
crowd = record idle {
  tcbs =
      update
        (update (update (λ _. none) 10 (some (tcb_of 1 20))) 20
          (some (with_state terminated (tcb_of 2 30))))
        30 (some (tcb_of 3 0));
  multi_level_priority_queue =
      update (λ _. empty_queue) 0 (record { head = 10; tail = 30; size = 3 });
  current_tcb = 10;
}

abbrev alone : Sched
alone = record idle {
  tcbs = update (λ _. none) 10 (some (with_state terminated (tcb_of 1 0)));
  multi_level_priority_queue =
      update (λ _. empty_queue) 0 (record { head = 10; tail = 10; size = 1 });
  current_tcb = 10;
}

abbrev pub noon : Timeval
noon = record { tv_sec = 43200; tv_usec = 0 }

-- Levels 1 and 2 are empty.
one_level :
    (s : Sched) (n m size : ℕ) (xs : List ℕ)
    → IsQueue s.tcbs (record { head = n; tail = m; size = size }) xs
    → s.multi_level_priority_queue
      ≡ update (λ _. empty_queue) 0 (record { head = n; tail = m; size = size })
    → SchedHolds s (single xs)
one_level s n m size xs is e = record {
  queues = λ i _. rw e (
      update_elim₂ (IsQueue s.tcbs) (λ _. empty_queue) (λ _. []) 0
        (record { head = n; tail = m; size = size }) xs i (λ _. is)
        (λ _. record { chain = refl; distinct = tt; size = refl; tail = refl }));
  apart = λ i j _ _ ne.
      update_elim (λ l. Apart l (single xs j)) (λ _. []) 0 xs i
        (λ ei.
          update_elim (λ l. Apart xs l) (λ _. []) 0 xs j (λ ej. absurd (ne (ei ∙ sym ej)))
            (λ _. Apart-nil xs))
        (λ ni. tt);
}

pub crowd-Single : Single crowd (10 ∷ 20 ∷ 30 ∷ [])
crowd-Single = record {
  holds =
      one_level crowd 10 30 3 (10 ∷ 20 ∷ 30 ∷ [])
        (record {
          chain = (
            refl,
            omega arith,
            tcb_of 1 20,
            refl,
            (
              refl,
              omega arith,
              with_state terminated (tcb_of 2 30),
              refl,
              (refl, omega arith, tcb_of 3 0, refl, refl),
            ),
          );
          distinct =
              ((λ e. omega arith, (λ e. omega arith, tt)), ((λ e. omega arith, tt), (tt, tt)));
          size = refl;
          tail = refl;
        })
        refl;
  plain = (
    (tcb_of 1 20, refl, (refl, refl)),
    (
      (with_state terminated (tcb_of 2 30), refl, (refl, refl)),
      ((tcb_of 3 0, refl, (refl, refl)), tt),
    ),
  );
}

crowd-Current : Current crowd
crowd-Current = record { block = tcb_of 1 20; held = refl; pos = omega arith; level = refl }

alone-Single : Single alone (10 ∷ [])
alone-Single = record {
  holds =
      one_level alone 10 10 1 (10 ∷ [])
        (record {
          chain = (refl, omega arith, with_state terminated (tcb_of 1 0), refl, refl);
          distinct = (tt, tt);
          size = refl;
          tail = refl;
        })
        refl;
  plain = ((with_state terminated (tcb_of 1 0), refl, (refl, refl)), tt);
}

alone-Current : Current alone
alone-Current = record {
  block = with_state terminated (tcb_of 1 0);
  held = refl;
  pos = omega arith;
  level = refl;
}

my_pthread_yield_helper-Starts_example :
    Starts crowd 30 (30 ∷ 10 ∷ 20 ∷ []) (my_pthread_yield_helper 2 noon crowd)
my_pthread_yield_helper-Starts_example =
    my_pthread_yield_helper-Starts crowd 10 30 (20 ∷ 30 ∷ []) (20 ∷ []) (10 ∷ []) 2 noon
      (tcb_of 3 0) crowd-Single crowd-Current refl
      ((with_state terminated (tcb_of 2 30), refl, refl), tt) refl refl (omega arith)

my_pthread_yield_helper-all_ended_example :
    my_pthread_yield_helper 100 noon alone ≡ fault out_of_fuel
my_pthread_yield_helper-all_ended_example =
    my_pthread_yield_helper-all_ended 100 noon alone 10 [] alone-Single alone-Current
      ((with_state terminated (tcb_of 1 0), refl, refl), tt)

my_pthread_yield_helper-Reached_example : Reached crowd 3 3 (λ _. noon) 0 10 2
my_pthread_yield_helper-Reached_example =
    my_pthread_yield_helper-Reached crowd 10 10 (20 ∷ 30 ∷ []) (20 ∷ 30 ∷ []) [] 3 (λ _. noon)
      (tcb_of 1 20) crowd-Single crowd-Current refl refl refl (omega arith)
