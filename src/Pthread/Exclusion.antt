-- ===== src/Pthread/Exclusion.antt =====
-- Mutual exclusion, as an invariant of the steps of the machine.
mod Tests
pub mod Steps
use virtual_memory_simulatio.Base.{
  ℕ, ◌≡◌, ◌≢◌, refl, sym, ◌∙◌, ap, Bool, true, false, ◌==◌, ltb, if◌then◌else◌, inl, inr,
  Bool-cases, arith, Option, ℤ,
}
use virtual_memory_simulatio.Threads.{Timeval, Mutex, Sched, ok, unlocked, locked, update}
use virtual_memory_simulatio.Threads.Keeps.{Keeps}
use virtual_memory_simulatio.Levels.Holds.{update_elim}
use virtual_memory_simulatio.Switch.{signal_handler, wrapper_start, wrapper_return, wrapper_end}
use virtual_memory_simulatio.Switch.Keeps.{
  signal_handler-Keeps, wrapper_start-Keeps, wrapper_return-Keeps, wrapper_end-Keeps,
}
use virtual_memory_simulatio.Pthread.{
  NewThread, my_pthread_create, my_pthread_exit, lock_round, my_pthread_mutex_lock,
  my_pthread_mutex_unlock, my_pthread_mutex_init,
}
use virtual_memory_simulatio.Pthread.Keeps.{my_pthread_create-Keeps, my_pthread_exit-Keeps}
use virtual_memory_simulatio.Pthread.Taken.{
  state_of, lock_round-Keeps, my_pthread_mutex_lock-Keeps, my_pthread_mutex_unlock-Keeps,
  my_pthread_mutex_init-Keeps, lock_round-ClaimsAt, my_pthread_mutex_lock-ClaimsAt,
  my_pthread_mutex_unlock-FreesAt,
}
use virtual_memory_simulatio.Pthread.Exclusion.Steps.{
  World, entered, Elsewhere, creates, exits, starts, resumes, ends, switches, inits_other,
  locks_other, retries_other, unlocks_other, Step, elsewhere, locks, retries, unlocks, Reach, here,
  next,
}

-- No thread is inside while the mutex is not locked, and never two are.
pub record Guarded (mutex : ℕ) (w : World) : Type 0 where
  pub empty : state_of mutex w.sched.mutexes ≡ unlocked → (p : ℕ) → w.inside p ≡ false
  pub unique : (p q : ℕ) → w.inside p ≡ true → w.inside q ≡ true → p ≡ q

Elsewhere-Keeps :
    (mutex : ℕ) (s t : Sched)
    → Elsewhere mutex s t
    → state_of mutex t.mutexes ≡ state_of mutex s.mutexes
Elsewhere-Keeps mutex s t (creates _ _ main node r e) =
    my_pthread_create-Keeps (state_of mutex) main node s r t e
Elsewhere-Keeps mutex s t (exits _ _ v e) = my_pthread_exit-Keeps (state_of mutex) v s tt t e
Elsewhere-Keeps mutex s t (starts _ _ p now e) = wrapper_start-Keeps (state_of mutex) p now s tt t e
Elsewhere-Keeps mutex s t (resumes _ _ p v e) = wrapper_return-Keeps (state_of mutex) p v s tt t e
Elsewhere-Keeps mutex s t (ends _ _ p v e) = wrapper_end-Keeps (state_of mutex) p v s tt t e
Elsewhere-Keeps mutex s t (switches _ _ fuel context now r e) =
    signal_handler-Keeps (state_of mutex) fuel context now s r t e
Elsewhere-Keeps mutex s t (inits_other _ _ other r ne e) =
    my_pthread_mutex_init-Keeps mutex other ne s r t e
Elsewhere-Keeps mutex s t (locks_other _ _ other now taken ne e) =
    my_pthread_mutex_lock-Keeps mutex other ne now s taken t e
Elsewhere-Keeps mutex s t (retries_other _ _ other p now taken ne e) =
    lock_round-Keeps mutex other ne p now s taken t e
Elsewhere-Keeps mutex s t (unlocks_other _ _ other r ne e) =
    my_pthread_mutex_unlock-Keeps mutex other ne s r t e

module _ (mutex : ℕ) (w : World) (g : Guarded mutex w) where
  -- A round of the loop that may have taken the mutex.
  entered-Guarded :
      (t : Sched) (taken : Bool)
      → state_of mutex t.mutexes ≡ locked
      → (taken ≡ true → state_of mutex w.sched.mutexes ≡ unlocked)
      → Guarded mutex (record { sched = t; inside = entered taken w.sched.current_tcb w.inside })
  entered-Guarded t true now_locked before =
      let none_inside = g.empty (before refl) in
      let only : (p : ℕ)
          → update w.inside w.sched.current_tcb true p ≡ true
          → p ≡ w.sched.current_tcb =
        λ p.
          update_elim (λ b. b ≡ true → p ≡ w.sched.current_tcb) w.inside w.sched.current_tcb true p
            (λ e _. e)
            (λ _ e. let clash : true ≡ false = sym e ∙ none_inside p in absurd (cc clash)) in
      record {
        empty = λ e. absurd (omega (arith, e, now_locked));
        unique = λ p q ep eq. only p ep ∙ sym (only q eq);
      }
  entered-Guarded t false now_locked before = record {
    empty = λ e. absurd (omega (arith, e, now_locked));
    unique = g.unique;
  }

  left-Guarded :
      (t : Sched)
      → w.inside w.sched.current_tcb ≡ true
      → Guarded mutex (record { sched = t; inside = update w.inside w.sched.current_tcb false })
  left-Guarded t mine =
      let p = w.sched.current_tcb in
      let nobody : (q : ℕ) → update w.inside p false q ≡ false = λ q.
        update_elim (λ b. b ≡ false) w.inside p false q (λ _. refl)
          (λ ne. elim (Bool-cases (w.inside q)) [
            | inl e ↦ absurd (ne (g.unique q p e mine))
            | inr e ↦ e
          ]) in
      record {
        empty = λ _. nobody;
        unique = λ q r e _. let clash : true ≡ false = sym e ∙ nobody q in absurd (cc clash);
      }

Step-Guarded : (mutex : ℕ) (v w : World) → Guarded mutex v → Step mutex v w → Guarded mutex w
Step-Guarded mutex v w g (elsewhere _ t e) = record {
  empty = λ free. g.empty (sym (Elsewhere-Keeps mutex v.sched t e) ∙ free);
  unique = g.unique;
}
Step-Guarded mutex v w g (locks _ t now taken e) =
    let (now_locked, before) = my_pthread_mutex_lock-ClaimsAt mutex now v.sched taken t e in
    entered-Guarded mutex v g t taken now_locked before
Step-Guarded mutex v w g (retries _ t p now taken e) =
    let (now_locked, before) = lock_round-ClaimsAt mutex p now v.sched taken t e in
    entered-Guarded mutex v g t taken now_locked before
Step-Guarded mutex v w g (unlocks _ t r mine e) = left-Guarded mutex v g t mine

Reach-Guarded : (mutex : ℕ) (v w : World) → Guarded mutex v → Reach mutex v w → Guarded mutex w
Reach-Guarded mutex v w g here = g
Reach-Guarded mutex v w g (next u _ r e) = Step-Guarded mutex u w (Reach-Guarded mutex v u g r) e

outside-Guarded : (mutex : ℕ) (v : World) → ((p : ℕ) → v.inside p ≡ false) → Guarded mutex v
outside-Guarded mutex v none_inside = record {
  empty = λ _. none_inside;
  unique = λ p q e _. let clash : true ≡ false = sym e ∙ none_inside p in absurd (cc clash);
}

-- At most one thread at a time is between its taking a mutex and its releasing it, after any
-- sequence of calls of the thread library, rounds of the loop of my_pthread_mutex_lock and
-- signals, of which none ends in a fault. Conditions: no thread had taken the mutex before, a
-- thread releases the mutex only when it has taken it, and the mutex is not initialised again.
pub mutual_exclusion :
    (mutex : ℕ) (v w : World) (p q : ℕ)
    → ((x : ℕ) → v.inside x ≡ false)
    → Reach mutex v w
    → w.inside p ≡ true
    → w.inside q ≡ true
    → p ≡ q
mutual_exclusion mutex v w p q none_inside r ep eq =
    (Reach-Guarded mutex v w (outside-Guarded mutex v none_inside) r).unique p q ep eq

-- While some thread has taken a mutex, my_pthread_mutex_lock of it does not succeed: when it ends
-- without a fault, its result is that the thread waits. Conditions: the state is reached as in
-- mutual_exclusion, from a state in which no thread had taken the mutex.
pub lock_refused :
    (mutex : ℕ) (v w : World) (p : ℕ) (now : Timeval) (taken : Bool) (t : Sched)
    → ((x : ℕ) → v.inside x ≡ false)
    → Reach mutex v w
    → w.inside p ≡ true
    → my_pthread_mutex_lock mutex now w.sched ≡ ok taken t
    → taken ≡ false
lock_refused mutex v w p now taken t none_inside r ep e = elim (Bool-cases taken) [
  | inl took ↦
      let g = Reach-Guarded mutex v w (outside-Guarded mutex v none_inside) r in
      let (now_locked, before) = my_pthread_mutex_lock-ClaimsAt mutex now w.sched taken t e in
      let clash : true ≡ false = sym ep ∙ g.empty (before took) p in absurd (cc clash)
  | inr waits ↦ waits
]

-- When the thread that has taken a mutex releases it by my_pthread_mutex_unlock, the mutex is not
-- locked afterwards, and that thread was the only one that had taken it. Conditions: the state is
-- reached as in mutual_exclusion, from a state in which no thread had taken the mutex, and the
-- call ends without a fault.
pub unlock_empties :
    (mutex : ℕ) (v w : World) (r : ℤ) (t : Sched)
    → ((x : ℕ) → v.inside x ≡ false)
    → Reach mutex v w
    → w.inside w.sched.current_tcb ≡ true
    → my_pthread_mutex_unlock mutex w.sched ≡ ok r t
    → (state_of mutex t.mutexes ≡ unlocked)
      × ((p : ℕ) → w.inside p ≡ true → p ≡ w.sched.current_tcb)
unlock_empties mutex v w r t none_inside reach mine e =
    let g = Reach-Guarded mutex v w (outside-Guarded mutex v none_inside) reach in
    (
      my_pthread_mutex_unlock-FreesAt mutex w.sched r t e,
      λ p ep. g.unique p w.sched.current_tcb ep mine,
    )
