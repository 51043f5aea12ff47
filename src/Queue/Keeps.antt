-- ===== src/Queue/Keeps.antt =====
-- The operations of a queue leave the mutexes as they are.
use virtual_memory_simulatio.Base.{ℕ, ◌==◌}
use virtual_memory_simulatio.Threads.{Queue, Mutex}
use virtual_memory_simulatio.Threads.Keeps.{
  Keeps, Keeps-pure, Keeps-bind, Keeps-seq, Keeps-choice, load_tcb-Keeps, change_tcb-Keeps,
}
use virtual_memory_simulatio.Queue.{enqueue, dequeue}

module _ {X : Type 0} (view : (ℕ → Mutex) → X) where
  pub enqueue-Keeps : (q : Queue) (p : ℕ) → Keeps view (enqueue q p)
  unfolding enqueue
  enqueue-Keeps q p =
      let last = change_tcb-Keeps view p _ in
      Keeps-choice view (q.size == 0) _ _ (Keeps-seq view _ _ last (Keeps-pure view _)) (
        Keeps-seq view _ _ (change_tcb-Keeps view q.tail _)
          (Keeps-seq view _ _ last (Keeps-pure view _)))

  pub dequeue-Keeps : (q : Queue) → Keeps view (dequeue q)
  unfolding dequeue
  dequeue-Keeps q =
      let cut = change_tcb-Keeps view q.head _ in
      Keeps-choice view (q.size == 0) _ _ (Keeps-pure view _) (
        Keeps-choice view (q.size == 1) _ _ (Keeps-seq view _ _ cut (Keeps-pure view _)) (
          Keeps-bind view _ _ (load_tcb-Keeps view q.head)
            (λ h. Keeps-seq view _ _ cut (Keeps-pure view _))))
