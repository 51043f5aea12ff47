-- ===== src/Pthread/Taken.antt =====
-- What the calls on a mutex do to its state.
use virtual_memory_simulatio.Base.{
  ℕ, ◌≡◌, ◌≢◌, refl, sym, ◌∙◌, ap, Bool, true, false, ◌==◌, if◌then◌else◌, arith,
}
use virtual_memory_simulatio.Threads.{
  Timeval, Queue, Mutex, Sched, Run, Cmd, ok, fault, null, unlocked, locked, update, pure, load_tcb,
  and_then,
}
use virtual_memory_simulatio.Threads.Access.{update_self, update_ne}
use virtual_memory_simulatio.Threads.Keeps.{
  Keeps, KeepsAt, Keeps-ok, Keeps-pure, Keeps-then, Keeps-bind, Keeps-seq, Keeps-if, Keeps-choice,
  load_tcb-Keeps, change_tcb-Keeps, load_level-Keeps, store_level-Keeps,
}
use virtual_memory_simulatio.Queue.{dequeue}
use virtual_memory_simulatio.Queue.Keeps.{dequeue-Keeps, enqueue-Keeps}
use virtual_memory_simulatio.Levels.Holds.{update_elim}
use virtual_memory_simulatio.Levels.Keeps.{schedule_thread-Keeps}
use virtual_memory_simulatio.Pthread.{
  init_scheduler, set_mutex, load_mutex, set_wait_queue, lock_wait, lock_round,
  my_pthread_mutex_lock, my_pthread_mutex_unlock, my_pthread_mutex_init,
}
use virtual_memory_simulatio.Pthread.Keeps.{after_unlock-Keeps}

abbrev pub state_of : ℕ → (ℕ → Mutex) → ℕ
state_of mutex ms = (ms mutex).state

-- The second half of a round keeps the state of every mutex.
set_wait_queue-Keeps :
    (mutex other : ℕ) (w : Queue) → Keeps (state_of mutex) (set_wait_queue other w)
set_wait_queue-Keeps mutex other w s = Keeps-ok (state_of mutex) s _ tt (
    update_elim (λ m. m.state ≡ (s.mutexes mutex).state) s.mutexes other
      (record (s.mutexes other) { lock_wait_queue = w }) mutex
      (λ e. ap (λ k. (s.mutexes k).state) (sym e)) (λ _. refl))

lock_wait-Keeps :
    (mutex other p : ℕ) (now : Timeval) → Keeps (state_of mutex) (lock_wait other p now)
unfolding lock_wait
lock_wait-Keeps mutex other p now =
    let view = state_of mutex in
    Keeps-bind view _ _ (load_level-Keeps view p) (λ q.
      Keeps-bind view _ _ (dequeue-Keeps view q) (λ r.
        Keeps-seq view _ _ (store_level-Keeps view p r.1) (
          Keeps-bind view (load_mutex other) _ (λ s. Keeps-ok view s s _ refl)
            (λ m. Keeps-bind view _ _ (enqueue-Keeps view m.lock_wait_queue r.0) (λ w.
              Keeps-seq view _ _ (set_wait_queue-Keeps mutex other w)
                (change_tcb-Keeps view r.0 (λ t. record t { last_yield_time = now })))))))

-- The calls on another mutex.
module _ (mutex other : ℕ) (ne : mutex ≢ other) where
  set_mutex-Keeps : (m : Mutex) → Keeps (state_of mutex) (set_mutex other m)
  set_mutex-Keeps m s =
      Keeps-ok (state_of mutex) s _ tt (ap (λ v. v.state) (update_ne s.mutexes other m mutex ne))

  pub lock_round-Keeps : (p : ℕ) (now : Timeval) → Keeps (state_of mutex) (lock_round other p now)
  unfolding lock_round
  lock_round-Keeps p now s =
      let view = state_of mutex in
      let m = s.mutexes other in
      Keeps-if view s (m.state == unlocked) _ _
        (Keeps-ok view s _ true (ap (λ v. v.state) (update_ne s.mutexes other _ mutex ne)))
        (Keeps-seq view _ _ (set_mutex-Keeps _)
          (Keeps-seq view _ _ (lock_wait-Keeps mutex other p now) (Keeps-pure view false)) s)

  pub my_pthread_mutex_lock-Keeps :
      (now : Timeval) → Keeps (state_of mutex) (my_pthread_mutex_lock other now)
  unfolding my_pthread_mutex_lock
  my_pthread_mutex_lock-Keeps now s =
      Keeps-then (state_of mutex) s _ _ (load_tcb-Keeps (state_of mutex) s.current_tcb s)
        (λ t. lock_round-Keeps t.priority now)

  pub my_pthread_mutex_unlock-Keeps : Keeps (state_of mutex) (my_pthread_mutex_unlock other)
  unfolding my_pthread_mutex_unlock
  my_pthread_mutex_unlock-Keeps s =
      let view = state_of mutex in
      Keeps-bind view _ _ (dequeue-Keeps view (s.mutexes other).lock_wait_queue)
        (λ r. Keeps-seq view _ _ (set_mutex-Keeps _) (
          Keeps-bind view _ _
            (Keeps-choice view (r.0 == null) _ _ (Keeps-pure view _)
              (schedule_thread-Keeps view r.0 0))
            (λ _. after_unlock-Keeps view)))
        s

  pub my_pthread_mutex_init-Keeps : Keeps (state_of mutex) (my_pthread_mutex_init other)
  unfolding my_pthread_mutex_init init_scheduler
  my_pthread_mutex_init-Keeps s =
      let view = state_of mutex in
      Keeps-then view s _ _
        (Keeps-if view s s.scheduler_init _ _ (Keeps-ok view s s tt refl)
          (Keeps-ok view s _ tt refl))
        (λ _ t. Keeps-ok view t _ _ (ap (λ v. v.state) (update_ne t.mutexes other _ mutex ne)))

-- The calls on the mutex itself.
module _ (mutex : ℕ) where
  -- The mutex is locked at the end; it was not before, if the call has taken it.
  abbrev ClaimsAt : Sched → Run Bool → Type 0
  ClaimsAt s r =
      (taken : Bool) (t : Sched)
      → r ≡ ok taken t
      → (state_of mutex t.mutexes ≡ locked) × (taken ≡ true → state_of mutex s.mutexes ≡ unlocked)

  ClaimsAt-then :
      {A : Type 0} (s : Sched) (r : Run A) (k : A → Cmd Bool)
      → KeepsAt (state_of mutex) s r
      → ((a : A) (u : Sched) → ClaimsAt u (k a u))
      → ClaimsAt s (and_then r k)
  ClaimsAt-then s (ok a u) k h g taken t e =
      let (now_locked, before) = g a u taken t e in
      (now_locked, λ yes. sym (h a u refl) ∙ before yes)
  ClaimsAt-then s (fault f) k h g taken t e = absurd (cc e)

  -- The end of a run that does not take the mutex.
  abbrev AfterAt : Run Bool → Type 0
  AfterAt r =
      (taken : Bool) (t : Sched)
      → r ≡ ok taken t
      → (state_of mutex t.mutexes ≡ locked) × (taken ≡ false)

  AfterAt-then :
      {A : Type 0} (r : Run A) (k : A → Cmd Bool)
      → ((a : A) (u : Sched) → AfterAt (k a u))
      → AfterAt (and_then r k)
  AfterAt-then (ok a u) k h taken t e = h a u taken t e
  AfterAt-then (fault f) k h taken t e = absurd (cc e)

  -- The mutex is locked, and `rest` keeps its state.
  AfterAt-locked :
      (s : Sched) (r : Run (Unit {0}))
      → state_of mutex s.mutexes ≡ locked
      → KeepsAt (state_of mutex) s r
      → AfterAt (and_then r (λ _. pure false))
  AfterAt-locked s (ok a u) e h taken t run =
      let same : t ≡ u = cc run in
      let waits : taken ≡ false = cc run in
      (ap (λ v. state_of mutex v.mutexes) same ∙ h a u refl ∙ e, waits)
  AfterAt-locked s (fault f) e h taken t run = absurd (cc run)

  ClaimsAt-after : (s : Sched) (r : Run Bool) → AfterAt r → ClaimsAt s r
  ClaimsAt-after s r h taken t e =
      let (now_locked, waits) = h taken t e in
      (now_locked, λ yes. let clash : true ≡ false = sym yes ∙ waits in absurd (cc clash))

  ClaimsAt-if :
      (s : Sched) (b : Bool) (x y : Run Bool)
      → (b ≡ true → ClaimsAt s x)
      → (b ≡ false → ClaimsAt s y)
      → ClaimsAt s (if b then x else y)
  ClaimsAt-if s true x y h g = h refl
  ClaimsAt-if s false x y h g = g refl

  taking-ClaimsAt :
      (s : Sched) (m : Mutex)
      → ((s.mutexes mutex).state == unlocked) ≡ true
      → m.state ≡ locked
      → ClaimsAt s (ok true (record s { mutexes = update s.mutexes mutex m }))
  taking-ClaimsAt s m free now_locked taken t e =
      let s1 : Sched = record s { mutexes = update s.mutexes mutex m } in
      let same : t ≡ s1 = cc e in
      (
        ap (λ v. state_of mutex v.mutexes) same
            ∙ ap (λ v. v.state) (update_self s.mutexes mutex m)
            ∙ now_locked,
        λ _. ground (arith, free),
      )

  pub lock_round-ClaimsAt :
      (p : ℕ) (now : Timeval) (s : Sched) → ClaimsAt s (lock_round mutex p now s)
  unfolding lock_round
  lock_round-ClaimsAt p now s =
      let m = s.mutexes mutex in
      ClaimsAt-if s (m.state == unlocked) _ _ (λ free. taking-ClaimsAt s _ free refl)
        (λ held. ClaimsAt-after s _ (
          let m' : Mutex = record m { state = locked } in
          let s1 : Sched = record s { mutexes = update s.mutexes mutex m' } in
          AfterAt-locked s1 (lock_wait mutex p now s1)
            (ap (λ v. v.state) (update_self s.mutexes mutex m'))
            (lock_wait-Keeps mutex mutex p now s1)))

  pub my_pthread_mutex_lock-ClaimsAt :
      (now : Timeval) (s : Sched) → ClaimsAt s (my_pthread_mutex_lock mutex now s)
  unfolding my_pthread_mutex_lock
  my_pthread_mutex_lock-ClaimsAt now s =
      ClaimsAt-then s (load_tcb s.current_tcb s) _ (load_tcb-Keeps (state_of mutex) s.current_tcb s)
        (λ t u. lock_round-ClaimsAt t.priority now u)

  -- The mutex is not locked at the end.
  abbrev FreesAt : {A : Type 0} → Run A → Type 0
  FreesAt {A} r = (a : A) (t : Sched) → r ≡ ok a t → state_of mutex t.mutexes ≡ unlocked

  FreesAt-then :
      {A B : Type 0} (r : Run A) (k : A → Cmd B)
      → ((a : A) (u : Sched) → FreesAt (k a u))
      → FreesAt (and_then r k)
  FreesAt-then (ok a u) k h b t e = h a u b t e
  FreesAt-then (fault f) k h b t e = absurd (cc e)

  pub my_pthread_mutex_unlock-FreesAt : (s : Sched) → FreesAt (my_pthread_mutex_unlock mutex s)
  unfolding my_pthread_mutex_unlock
  my_pthread_mutex_unlock-FreesAt s =
      let view = state_of mutex in
      FreesAt-then (dequeue (s.mutexes mutex).lock_wait_queue s) _ (λ r u b t e.
        let m : Mutex = record { lock_wait_queue = r.1; state = unlocked } in
        let u1 : Sched = record u { mutexes = update u.mutexes mutex m } in
        let rest =
          Keeps-bind view _ _
            (Keeps-choice view (r.0 == null) _ _ (Keeps-pure view _)
              (schedule_thread-Keeps view r.0 0))
            (λ _. after_unlock-Keeps view) in
        rest u1 b t e ∙ ap (λ v. v.state) (update_self u.mutexes mutex m))
