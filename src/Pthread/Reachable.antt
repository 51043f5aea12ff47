-- ===== src/Pthread/Reachable.antt =====
-- The states that a program reaches by the calls of the thread library and by signals, with the
-- mutexes that it has made. A step is one call, one round of the loop of `my_pthread_mutex_lock`,
-- or one signal; it ends without a fault. The priority that was read before the loop is 0.
mod Tests
pub mod Yields
use virtual_memory_simulatio.Base.{ℕ, ◌≡◌, ◌<◌, refl, Bool, true, false, Option, ℤ}
use virtual_memory_simulatio.Threads.{Timeval, Sched, ok, update}
use virtual_memory_simulatio.Switch.{signal_handler, wrapper_start, wrapper_return, wrapper_end}
use virtual_memory_simulatio.Pthread.{
  NewThread, my_pthread_create, my_pthread_exit, lock_round, my_pthread_mutex_lock,
  my_pthread_mutex_unlock, my_pthread_mutex_init,
}
use virtual_memory_simulatio.Pthread.Sound.{IsSound}
use virtual_memory_simulatio.Pthread.Sound.Creates.{Fresh, my_pthread_create-Sound}
use virtual_memory_simulatio.Pthread.Sound.First.{Unused, FirstTwo, my_pthread_create-Sound_first}
use virtual_memory_simulatio.Pthread.Sound.Fields.{
  my_pthread_exit-Sound, wrapper_start-Sound, wrapper_return-Sound, wrapper_end-Sound,
}
use virtual_memory_simulatio.Pthread.Sound.Switches.{signal_handler-Sound}
use virtual_memory_simulatio.Pthread.Sound.Inits.{my_pthread_mutex_init-Sound}
use virtual_memory_simulatio.Pthread.Sound.Rounds.{lock_round-Sound, my_pthread_mutex_lock-Sound}
use virtual_memory_simulatio.Pthread.Sound.Unlocks.{my_pthread_mutex_unlock-Sound}

-- `made mu`: the mutex at `mu` has been initialised.
pub data Call : Sched → (ℕ → Bool) → Sched → (ℕ → Bool) → Type 0 where
  creates :
      (s t : Sched) (made : ℕ → Bool) (main node : NewThread) (r : ℤ × ℕ)
      → Fresh s node
      → my_pthread_create main node s ≡ ok r t
      → Call s made t made
  exits :
      (s t : Sched) (made : ℕ → Bool) (v : ℕ) → my_pthread_exit v s ≡ ok tt t → Call s made t made
  starts :
      (s t : Sched) (made : ℕ → Bool) (p : ℕ) (now : Timeval)
      → wrapper_start p now s ≡ ok tt t
      → Call s made t made
  resumes :
      (s t : Sched) (made : ℕ → Bool) (p v : ℕ)
      → wrapper_return p v s ≡ ok tt t
      → Call s made t made
  ends :
      (s t : Sched) (made : ℕ → Bool) (p v : ℕ) → wrapper_end p v s ≡ ok tt t → Call s made t made
  switches :
      (s t : Sched) (made : ℕ → Bool) (fuel context : ℕ) (now : Timeval) (r : Option ℕ)
      → signal_handler fuel context now s ≡ ok r t
      → Call s made t made
  inits :
      (s t : Sched) (made : ℕ → Bool) (mu : ℕ) (r : ℤ)
      → my_pthread_mutex_init mu s ≡ ok r t
      → Call s made t (update made mu true)
  locks :
      (s t : Sched) (made : ℕ → Bool) (mu : ℕ) (now : Timeval) (taken : Bool)
      → made mu ≡ true
      → my_pthread_mutex_lock mu now s ≡ ok taken t
      → Call s made t made
  retries :
      (s t : Sched) (made : ℕ → Bool) (mu : ℕ) (now : Timeval) (taken : Bool)
      → made mu ≡ true
      → lock_round mu 0 now s ≡ ok taken t
      → Call s made t made
  unlocks :
      (s t : Sched) (made : ℕ → Bool) (mu : ℕ) (r : ℤ)
      → made mu ≡ true
      → my_pthread_mutex_unlock mu s ≡ ok r t
      → Call s made t made

pub data Calls (s : Sched) (made : ℕ → Bool) : Sched → (ℕ → Bool) → Type 0 where
  here : Calls s made s made
  next :
      (t u : Sched) (made' made'' : ℕ → Bool)
      → Calls s made t made'
      → Call t made' u made''
      → Calls s made u made''

Call-Sound :
    (s t : Sched) (made made' : ℕ → Bool) → IsSound s made → Call s made t made' → IsSound t made'
Call-Sound s t made _ g (creates _ _ _ main node r fresh e) =
    my_pthread_create-Sound s t made main node r g fresh e
Call-Sound s t made _ g (exits _ _ _ v e) = my_pthread_exit-Sound s t made v g e
Call-Sound s t made _ g (starts _ _ _ p now e) = wrapper_start-Sound s t made p now g e
Call-Sound s t made _ g (resumes _ _ _ p v e) = wrapper_return-Sound s t made p v g e
Call-Sound s t made _ g (ends _ _ _ p v e) = wrapper_end-Sound s t made p v g e
Call-Sound s t made _ g (switches _ _ _ fuel context now r e) =
    signal_handler-Sound s t made fuel context now r g e
Call-Sound s t made _ g (inits _ _ _ mu r e) = my_pthread_mutex_init-Sound s t made mu r g e
Call-Sound s t made _ g (locks _ _ _ mu now taken made_it e) =
    my_pthread_mutex_lock-Sound s t made mu now taken g made_it e
Call-Sound s t made _ g (retries _ _ _ mu now taken made_it e) =
    lock_round-Sound s t made mu now taken g made_it e
Call-Sound s t made _ g (unlocks _ _ _ mu r made_it e) =
    my_pthread_mutex_unlock-Sound s t made mu r g made_it e

-- A sound state stays sound.
Calls-IsSound :
    (s : Sched) (made : ℕ → Bool) (t : Sched) (made' : ℕ → Bool)
    → IsSound s made
    → Calls s made t made'
    → IsSound t made'
Calls-IsSound s made t made' g here = g
Calls-IsSound s made t made' g (next u _ made'' _ calls call) =
    Call-Sound u t made'' made' (Calls-IsSound s made u made'' g calls) call

-- In every state that a program reaches by a first my_pthread_create and then by any calls of
-- my_pthread_create, my_pthread_exit, thread_function_wrapper, also past its first pause,
-- my_pthread_mutex_init, my_pthread_mutex_lock and my_pthread_mutex_unlock, rounds of the loop of
-- my_pthread_mutex_lock and signals, all threads that can run stand in level 0 with priority 0,
-- levels 1 and 2 are empty, the wait queue of each mutex that has been made stands for a list of
-- threads, no thread stands in two of these lists or twice in one, the current thread, if there is
-- one, has a block of priority 0, and AFTER_UNLOCK_PRIORITY is -1 or 0. Conditions: the globals
-- have their first values, each block given to my_pthread_create is new and not NULL, getcontext
-- and sigaltstack do not fail, my_allocate returns the stacks of the threads and of the handler, a
-- mutex is made before it is locked or unlocked, the first call comes before the first mutex is
-- made, and no call ends in a fault.
pub program-IsSound :
    (s t u : Sched) (main node : NewThread) (r : ℤ × ℕ) (made : ℕ → Bool)
    → Unused s
    → FirstTwo s main node
    → my_pthread_create main node s ≡ ok r t
    → Calls t (λ _. false) u made
    → IsSound u made
program-IsSound s t u main node r made z f e calls =
    Calls-IsSound t (λ _. false) u made (my_pthread_create-Sound_first s t main node r z f e) calls
