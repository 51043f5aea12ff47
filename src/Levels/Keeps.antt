-- ===== src/Levels/Keeps.antt =====
-- `schedule_thread` leaves the mutexes as they are.
use virtual_memory_simulatio.Base.{ℕ, leb}
use virtual_memory_simulatio.Threads.{Mutex, number_levels}
use virtual_memory_simulatio.Threads.Keeps.{
  Keeps, Keeps-pure, Keeps-bind, Keeps-seq, Keeps-choice, change_tcb-Keeps, load_level-Keeps,
  store_level-Keeps,
}
use virtual_memory_simulatio.Queue.Keeps.{enqueue-Keeps}
use virtual_memory_simulatio.Levels.{schedule_thread}

pub schedule_thread-Keeps :
    {X : Type 0} (view : (ℕ → Mutex) → X) (p priority : ℕ) → Keeps view (schedule_thread p priority)
unfolding schedule_thread
schedule_thread-Keeps view p priority =
    Keeps-choice view (leb number_levels priority) _ _ (Keeps-pure view _) (
      Keeps-seq view _ _ (change_tcb-Keeps view p _) (
        Keeps-bind view _ _ (load_level-Keeps view priority) (λ q.
          Keeps-bind view _ _ (enqueue-Keeps view q p)
            (λ w. Keeps-seq view _ _ (store_level-Keeps view priority w) (Keeps-pure view _)))))
