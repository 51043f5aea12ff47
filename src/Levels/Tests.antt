-- ===== src/Levels/Tests.antt =====
-- The theorems on levels at concrete states.
use virtual_memory_simulatio.Base.{
  ℕ, ltb, if◌then◌else◌, Option, ◌<◌, ◌≡◌, refl, sym, ◌∙◌, [], ◌∷◌, none, some, arith, pos, length,
}
use virtual_memory_simulatio.Threads.{Sched, update, ok, number_levels}
use virtual_memory_simulatio.Threads.Tests.{idle, tcb_of, empty_queue, busy}
use virtual_memory_simulatio.Queue.Chain.{Chain, IsQueue, Apart}
use virtual_memory_simulatio.Levels.{
  get_and_remove_tcb, schedule_thread, get_tcb, fold_mlpq_to_array,
}
use virtual_memory_simulatio.Levels.Holds.{
  Lists, SchedHolds, Reaches, schedule_thread-Holds, update_elim, update_elim₂,
}
use virtual_memory_simulatio.Levels.Lookup.{get_tcb-first_with}
use virtual_memory_simulatio.Levels.Remove.{get_and_remove_tcb_size}
use virtual_memory_simulatio.Levels.Fold.{fold_mlpq_to_array-blocks}

abbrev one_thread : Sched
one_thread = record idle { tcbs = update (λ _. none) 10 (some (tcb_of 1 0)) }

abbrev no_lists : Lists
no_lists _ = []

one_thread-SchedHolds : SchedHolds one_thread no_lists
one_thread-SchedHolds = record {
  queues = λ i _. record { chain = refl; distinct = tt; size = refl; tail = refl };
  apart = λ i j _ _ _. tt;
}

schedule_thread-Holds_example :
    Reaches one_thread
      (schedule_thread 10 1 one_thread)
      (pos 0)
      (update no_lists 1 (10 ∷ []))
      10
      (record (tcb_of 1 0) { priority = 1 })
      (10 ∷ [])
schedule_thread-Holds_example =
    schedule_thread-Holds one_thread no_lists 10 1 (tcb_of 1 0) one_thread-SchedHolds refl
      (omega arith) (omega arith) (λ i _. tt)

abbrev pub busy_lists : Lists
busy_lists = update (λ _. []) 0 (10 ∷ 20 ∷ [])

busy_level : IsQueue busy.tcbs (record { head = 10; tail = 20; size = 2 }) (10 ∷ 20 ∷ [])
busy_level = record {
  chain = (refl, omega arith, tcb_of 1 20, refl, (refl, omega arith, tcb_of 2 0, refl, refl));
  distinct = ((λ e. omega arith, tt), (tt, tt));
  size = refl;
  tail = refl;
}

pub busy-SchedHolds : SchedHolds busy busy_lists
busy-SchedHolds = record {
  queues = λ i _.
      update_elim₂ (IsQueue busy.tcbs) (λ _. empty_queue) (λ _. []) 0
        (record { head = 10; tail = 20; size = 2 }) (10 ∷ 20 ∷ []) i (λ e. busy_level)
        (λ ne. record { chain = refl; distinct = tt; size = refl; tail = refl });
  apart = λ i j _ _ ne.
      update_elim (λ l. Apart l (busy_lists j)) (λ _. []) 0 (10 ∷ 20 ∷ []) i
        (λ ei.
          update_elim (λ l. Apart (10 ∷ 20 ∷ []) l) (λ _. []) 0 (10 ∷ 20 ∷ []) j
            (λ ej. absurd (ne (ei ∙ sym ej))) (λ _. (tt, (tt, tt))))
        (λ ni. tt);
}

pub busy_short : (i : ℕ) → i < number_levels → length (busy_lists i) < 3
busy_short i _ =
    update_elim (λ l. length l < 3) (λ _. []) 0 (10 ∷ 20 ∷ []) i (λ _. omega arith)
      (λ _. omega arith)

get_tcb-first_with_example : get_tcb 3 2 busy ≡ ok 20 busy
get_tcb-first_with_example = get_tcb-first_with busy busy_lists 3 2 busy-SchedHolds busy_short

-- Blocks up to what a page of 4096 bytes holds behind its header are allocated.
abbrev up_to_a_page : ℕ → Option ℕ
up_to_a_page size = if ltb 4032 size then none else some 9000

fold_mlpq_to_array-blocks_example :
    fold_mlpq_to_array 1000 up_to_a_page 3 busy ≡ ok (9000, tcb_of 1 20 ∷ tcb_of 2 0 ∷ []) busy
fold_mlpq_to_array-blocks_example =
    fold_mlpq_to_array-blocks busy busy_lists 1000 up_to_a_page 3 9000 busy-SchedHolds busy_short
      refl

get_and_remove_tcb_size_example :
    (u : Sched) × (get_and_remove_tcb 3 1 busy ≡ ok 10 u)
    × Chain u.tcbs (u.multi_level_priority_queue 0).head (20 ∷ [])
    × ((u.multi_level_priority_queue 0).size ≡ 2)
get_and_remove_tcb_size_example =
    get_and_remove_tcb_size busy busy_lists 2 10 (20 ∷ []) (tcb_of 1 20) busy-SchedHolds refl refl
