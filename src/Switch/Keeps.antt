-- ===== src/Switch/Keeps.antt =====
-- A switch of the context leaves the mutexes as they are.
use virtual_memory_simulatio.Base.{
  ℕ, zero, suc, ◌+◌, ◌==◌, leb, ltb, not, Bool, true, false, Option, none, some, refl,
}
use virtual_memory_simulatio.Threads.{Timeval, Mutex, Cmd, null, number_levels}
use virtual_memory_simulatio.Threads.Keeps.{
  Keeps, Keeps-ok, Keeps-fault, Keeps-pure, Keeps-then, Keeps-bind, Keeps-seq, Keeps-if,
  Keeps-choice, load_tcb-Keeps, change_tcb-Keeps, load_level-Keeps, store_level-Keeps,
}
use virtual_memory_simulatio.Queue.{peek}
use virtual_memory_simulatio.Queue.Keeps.{dequeue-Keeps}
use virtual_memory_simulatio.Levels.Keeps.{schedule_thread-Keeps}
use virtual_memory_simulatio.Timing.{time_compare}
use virtual_memory_simulatio.Switch.{
  is_terminated, is_yield, is_less, set_current, set_has_run, next_level, next_head, any_head,
  search_again, choose_current, install, go_on, requeue, priority_or, after_unlock_or,
  my_pthread_yield_helper, my_pthread_yield_after_unlock_helper, signal_handler, wrapper_start,
  wrapper_return, wrapper_end, tick,
}

module _ {X : Type 0} (view : (ℕ → Mutex) → X) where
  set_current-Keeps : (p : ℕ) → Keeps view (set_current p)
  set_current-Keeps p s = Keeps-ok view s _ tt refl

  next_head-Keeps : (rounds c : ℕ) → Keeps view (next_head rounds c)
  unfolding next_head peek
  next_head-Keeps zero c = Keeps-pure view tt
  next_head-Keeps (suc rounds) c = Keeps-bind view _ _ (load_level-Keeps view c) (λ q.
      Keeps-seq view _ _ (set_current-Keeps q.head) (
        Keeps-choice view (q.head == null) _ _ (next_head-Keeps rounds (next_level c))
          (Keeps-pure view tt)))

  any_head-Keeps : (rounds i : ℕ) → Keeps view (any_head rounds i)
  unfolding any_head peek
  any_head-Keeps zero i = Keeps-pure view tt
  any_head-Keeps (suc rounds) i = Keeps-bind view _ _ (load_level-Keeps view i) (λ q.
      Keeps-choice view (ltb 0 q.size) _ _ (set_current-Keeps q.head)
        (any_head-Keeps rounds (i + 1)))

  search_again-Keeps : Keeps view search_again
  search_again-Keeps s =
      Keeps-if view s (s.current_tcb == null) _ _ (any_head-Keeps number_levels 0 s)
        (Keeps-ok view s s tt refl)

  choose_current-Keeps : (c : ℕ) → Keeps view (choose_current c)
  unfolding choose_current peek
  choose_current-Keeps c s = Keeps-then view s _ _ (load_level-Keeps view c s) (λ q.
      Keeps-choice view (leb q.size s.has_run) _ _
        (Keeps-seq view (set_has_run 0) _ (λ u. Keeps-ok view u _ tt refl)
          (Keeps-seq view _ _ (next_head-Keeps 2 (next_level c)) (
            Keeps-seq view _ _ search_again-Keeps
              (λ u. Keeps-ok view u u (not (u.current_tcb == null)) refl))))
        (Keeps-seq view _ _ (set_current-Keeps q.head) (Keeps-pure view true)))

  install-Keeps :
      (again : Cmd (Option ℕ)) (stamp : Cmd (Unit {0})) (now : Timeval)
      → Keeps view again
      → Keeps view stamp
      → Keeps view (install again stamp now)
  unfolding install
  install-Keeps again stamp now h g s =
      Keeps-then view s _ _ (load_tcb-Keeps view s.current_tcb s) (λ t.
        Keeps-choice view (is_yield t.state) _ _ (Keeps-seq view _ _ (change_tcb-Keeps view _ _) h)
          (Keeps-choice view (is_terminated t.state) _ _ h (
            Keeps-seq view _ _ (change_tcb-Keeps view _ _) (
              Keeps-seq view _ _ g
                (Keeps-seq view _ _ (change_tcb-Keeps view _ _) (λ u. Keeps-ok view u _ _ refl))))))

  go_on-Keeps : (b : Bool) (c : Cmd (Option ℕ)) → Keeps view c → Keeps view (go_on b c)
  go_on-Keeps true c h = h
  go_on-Keeps false c h = Keeps-pure view none

  requeue-Keeps : (c : ℕ) → Keeps view (requeue c)
  unfolding requeue
  requeue-Keeps c = Keeps-bind view _ _ (load_level-Keeps view c) (λ q.
      Keeps-bind view _ _ (dequeue-Keeps view q) (λ r.
        Keeps-seq view _ _ (store_level-Keeps view c r.1) (
          Keeps-bind view _ _ (load_tcb-Keeps view r.0) (λ t.
            Keeps-seq view _ _
              (Keeps-choice view (is_terminated t.state) _ _ (Keeps-pure view tt)
                (change_tcb-Keeps view r.0 _))
              (Keeps-bind view _ _ (load_tcb-Keeps view r.0) (λ u.
                Keeps-bind view _ _ (schedule_thread-Keeps view r.0 u.priority)
                  (λ _. Keeps-pure view r.0)))))))

  pub my_pthread_yield_helper-Keeps :
      (fuel : ℕ) (now : Timeval) → Keeps view (my_pthread_yield_helper fuel now)
  unfolding my_pthread_yield_helper
  my_pthread_yield_helper-Keeps zero now s = Keeps-fault view s _
  my_pthread_yield_helper-Keeps (suc fuel) now s =
      let rest = my_pthread_yield_helper-Keeps fuel now in
      Keeps-then view s _ _ (load_tcb-Keeps view s.current_tcb s) (λ current.
        Keeps-bind view _ _ (requeue-Keeps current.priority) (λ x.
          Keeps-bind view _ _ (choose_current-Keeps current.priority)
            (λ more. go_on-Keeps more _ (install-Keeps _ _ now rest (change_tcb-Keeps view x _)))))

  pub my_pthread_yield_after_unlock_helper-Keeps :
      (fuel : ℕ) (now : Timeval) → Keeps view (my_pthread_yield_after_unlock_helper fuel now)
  unfolding my_pthread_yield_after_unlock_helper
  my_pthread_yield_after_unlock_helper-Keeps fuel now s =
      Keeps-bind view _ _ (choose_current-Keeps (priority_or s.after_unlock_priority))
        (λ more.
          go_on-Keeps more _
            (install-Keeps _ _ now (my_pthread_yield_helper-Keeps fuel now) (Keeps-pure view tt)))
        (record s { after_unlock_priority = none })

  pub signal_handler-Keeps :
      (fuel context : ℕ) (now : Timeval) → Keeps view (signal_handler fuel context now)
  unfolding signal_handler
  signal_handler-Keeps fuel context now s =
      Keeps-then view (record s { cycle = tick s.cycle }) _ _ (load_tcb-Keeps view s.current_tcb _)
        (λ current u.
          Keeps-if view u
            (is_less (
              time_compare current.recent_start_time now (u.priority_time_slices current.priority)))
            _ _ (Keeps-ok view u u none refl)
            (Keeps-seq view _ _ (change_tcb-Keeps view u.current_tcb _)
              (chosen u.after_unlock_priority) u))
    where
      chosen :
          (o : Option ℕ)
          → Keeps view (
              after_unlock_or o
                (my_pthread_yield_after_unlock_helper fuel now)
                (my_pthread_yield_helper fuel now))
      chosen (some p) = my_pthread_yield_after_unlock_helper-Keeps fuel now
      chosen none = my_pthread_yield_helper-Keeps fuel now

  pub wrapper_start-Keeps : (p : ℕ) (now : Timeval) → Keeps view (wrapper_start p now)
  unfolding wrapper_start
  wrapper_start-Keeps p now = change_tcb-Keeps view p _

  pub wrapper_return-Keeps : (p result : ℕ) → Keeps view (wrapper_return p result)
  unfolding wrapper_return
  wrapper_return-Keeps p result =
      Keeps-bind view _ _ (load_tcb-Keeps view p)
        (λ t. Keeps-seq view _ _ (λ s. Keeps-ok view s _ tt refl) (change_tcb-Keeps view p _))

  pub wrapper_end-Keeps : (p result : ℕ) → Keeps view (wrapper_end p result)
  unfolding wrapper_end
  wrapper_end-Keeps p result = Keeps-bind view _ _ (load_tcb-Keeps view p) (λ t.
      Keeps-choice view (is_terminated t.state) _ _ (Keeps-pure view tt)
        (wrapper_return-Keeps p result))
