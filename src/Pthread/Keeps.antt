-- ===== src/Pthread/Keeps.antt =====
-- What the calls of the thread library do to the state of one mutex: `my_pthread_create` and
-- `my_pthread_exit` leave it as it is, and so do the calls on another mutex.
use virtual_memory_simulatio.Base.{ℕ, ◌+◌, refl, true, false, ◌==◌, Option, none, some}
use virtual_memory_simulatio.Threads.{Mutex, update, exited, no_return, given}
use virtual_memory_simulatio.Threads.Keeps.{
  Keeps, Keeps-ok, Keeps-fault, Keeps-pure, Keeps-then, Keeps-bind, Keeps-seq, Keeps-if,
  Keeps-choice, load_tcb-Keeps, change_tcb-Keeps,
}
use virtual_memory_simulatio.Levels.Keeps.{schedule_thread-Keeps}
use virtual_memory_simulatio.Pthread.{
  NewThread, place_tcb, init_scheduler, init_if_first, create_main, init_timer, start_timer,
  create_node, my_pthread_create, my_pthread_exit, after_unlock,
}

module _ {X : Type 0} (view : (ℕ → Mutex) → X) where
  place_tcb-Keeps :
      (n : NewThread) (tid : ℕ)
      → Keeps view
          (place_tcb n.tcb_node (record n.blank { tid = tid; return_value = n.return_value }))
  place_tcb-Keeps n tid s = Keeps-ok view s _ tt refl

  init_if_first-Keeps : Keeps view init_if_first
  unfolding init_scheduler
  init_if_first-Keeps s =
      Keeps-if view s s.scheduler_init _ _ (Keeps-ok view s s tt refl) (Keeps-ok view s _ tt refl)

  create_main-Keeps : (n : NewThread) → Keeps view (create_main n)
  unfolding create_main
  create_main-Keeps n s =
      Keeps-if view s (s.last_tid == 0) _ _
        (Keeps-seq view _ _ (place_tcb-Keeps n s.last_tid)
          (Keeps-choice view n.getcontext_fails _ _ (Keeps-pure view false) (
            Keeps-seq view _ _ (change_tcb-Keeps view n.tcb_node _) (
              Keeps-bind view _ _ (schedule_thread-Keeps view n.tcb_node 0)
                (λ _ u. Keeps-ok view u _ true refl))))
          s)
        (Keeps-ok view s s true refl)

  given-Keeps : (o : Option ℕ) → Keeps view (given o)
  given-Keeps none s = Keeps-fault view s no_return
  given-Keeps (some p) s = Keeps-pure view p s

  start_timer-Keeps : (n : NewThread) → Keeps view (start_timer n)
  unfolding start_timer init_timer
  start_timer-Keeps n s =
      Keeps-if view s (s.first_thread == 0) _ _
        (Keeps-bind view _ _ (given-Keeps n.ss_sp)
          (λ p.
            Keeps-choice view n.sigaltstack_fails _ _ (λ u. Keeps-fault view u exited)
              (λ u. Keeps-ok view u _ tt refl))
          (record s { first_thread = 1 }))
        (Keeps-ok view s s tt refl)

  create_node-Keeps : (n : NewThread) → Keeps view (create_node n)
  unfolding create_node
  create_node-Keeps n s =
      Keeps-seq view _ _ (place_tcb-Keeps n (s.last_tid + 1))
        (Keeps-choice view n.getcontext_fails _ _ (Keeps-pure view _) (
          Keeps-bind view _ _ (given-Keeps n.stack) (λ sp.
            Keeps-seq view _ _ (change_tcb-Keeps view n.tcb_node _) (
              Keeps-bind view _ _ (schedule_thread-Keeps view n.tcb_node 0)
                (λ _. Keeps-seq view _ _ (start_timer-Keeps n) (Keeps-pure view _))))))
        (record s { last_tid = s.last_tid + 1 })

  pub my_pthread_create-Keeps : (main node : NewThread) → Keeps view (my_pthread_create main node)
  unfolding my_pthread_create
  my_pthread_create-Keeps main node = Keeps-seq view _ _ init_if_first-Keeps (
      Keeps-bind view _ _ (create_main-Keeps main)
        (λ more. Keeps-choice view more _ _ (create_node-Keeps node) (Keeps-pure view _)))

  pub my_pthread_exit-Keeps : (v : ℕ) → Keeps view (my_pthread_exit v)
  unfolding my_pthread_exit
  my_pthread_exit-Keeps v s = Keeps-then view s _ _ (load_tcb-Keeps view s.current_tcb s) (λ t u.
      change_tcb-Keeps view u.current_tcb _ (record u { cells = update u.cells t.return_value v }))

  pub after_unlock-Keeps : Keeps view after_unlock
  after_unlock-Keeps s =
      Keeps-then view s _ _ (load_tcb-Keeps view s.current_tcb s) (λ t u. Keeps-ok view u _ _ refl)
