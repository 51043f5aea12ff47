-- ===== src/Pthread/Exclusion/Steps.antt =====
-- The calls of the thread library and the signals as the steps of a machine, with what each thread
-- knows of one mutex: whether it has taken it and has not yet released it. A step is one call, one
-- round of the loop of `my_pthread_mutex_lock`, or one signal; it ends without a fault.
use virtual_memory_simulatio.Base.{ℕ, ◌≡◌, ◌≢◌, Bool, true, false, if◌then◌else◌, Option, ℤ}
use virtual_memory_simulatio.Threads.{Timeval, Sched, ok, update}
use virtual_memory_simulatio.Switch.{signal_handler, wrapper_start, wrapper_return, wrapper_end}
use virtual_memory_simulatio.Pthread.{
  NewThread, my_pthread_create, my_pthread_exit, lock_round, my_pthread_mutex_lock,
  my_pthread_mutex_unlock, my_pthread_mutex_init,
}

-- `inside p`: the thread with the block `p` has taken the mutex.
pub record World : Type 0 where
  pub sched : Sched
  pub inside : ℕ → Bool

-- The current thread comes inside when it has taken the mutex.
abbrev pub entered : Bool → ℕ → (ℕ → Bool) → ℕ → Bool
entered taken p inside = if taken then update inside p true else inside

-- A call that does not concern the mutex.
pub data Elsewhere (mutex : ℕ) : Sched → Sched → Type 0 where
  creates :
      (s t : Sched) (main node : NewThread) (r : ℤ × ℕ)
      → my_pthread_create main node s ≡ ok r t
      → Elsewhere mutex s t
  exits : (s t : Sched) (v : ℕ) → my_pthread_exit v s ≡ ok tt t → Elsewhere mutex s t
  starts :
      (s t : Sched) (p : ℕ) (now : Timeval) → wrapper_start p now s ≡ ok tt t → Elsewhere mutex s t
  resumes : (s t : Sched) (p v : ℕ) → wrapper_return p v s ≡ ok tt t → Elsewhere mutex s t
  ends : (s t : Sched) (p v : ℕ) → wrapper_end p v s ≡ ok tt t → Elsewhere mutex s t
  switches :
      (s t : Sched) (fuel context : ℕ) (now : Timeval) (r : Option ℕ)
      → signal_handler fuel context now s ≡ ok r t
      → Elsewhere mutex s t
  inits_other :
      (s t : Sched) (other : ℕ) (r : ℤ)
      → mutex ≢ other
      → my_pthread_mutex_init other s ≡ ok r t
      → Elsewhere mutex s t
  locks_other :
      (s t : Sched) (other : ℕ) (now : Timeval) (taken : Bool)
      → mutex ≢ other
      → my_pthread_mutex_lock other now s ≡ ok taken t
      → Elsewhere mutex s t
  retries_other :
      (s t : Sched) (other p : ℕ) (now : Timeval) (taken : Bool)
      → mutex ≢ other
      → lock_round other p now s ≡ ok taken t
      → Elsewhere mutex s t
  unlocks_other :
      (s t : Sched) (other : ℕ) (r : ℤ)
      → mutex ≢ other
      → my_pthread_mutex_unlock other s ≡ ok r t
      → Elsewhere mutex s t

-- A thread releases only a mutex that it has taken.
pub data Step (mutex : ℕ) : World → World → Type 0 where
  elsewhere :
      (w : World) (t : Sched) → Elsewhere mutex w.sched t → Step mutex w (record w { sched = t })
  locks :
      (w : World) (t : Sched) (now : Timeval) (taken : Bool)
      → my_pthread_mutex_lock mutex now w.sched ≡ ok taken t
      → Step mutex w (record { sched = t; inside = entered taken w.sched.current_tcb w.inside })
  retries :
      (w : World) (t : Sched) (p : ℕ) (now : Timeval) (taken : Bool)
      → lock_round mutex p now w.sched ≡ ok taken t
      → Step mutex w (record { sched = t; inside = entered taken w.sched.current_tcb w.inside })
  unlocks :
      (w : World) (t : Sched) (r : ℤ)
      → w.inside w.sched.current_tcb ≡ true
      → my_pthread_mutex_unlock mutex w.sched ≡ ok r t
      → Step mutex w (record { sched = t; inside = update w.inside w.sched.current_tcb false })

pub data Reach (mutex : ℕ) (start : World) : World → Type 0 where
  here : Reach mutex start start
  next : (v w : World) → Reach mutex start v → Step mutex v w → Reach mutex start w
