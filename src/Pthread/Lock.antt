-- ===== src/Pthread/Lock.antt =====
-- `my_pthread_mutex_lock` on the wait queue of the mutex and on the levels.
use virtual_memory_simulatio.Base.{
  ℕ, arith, ◌<◌, ◌≡◌, ◌≢◌, refl, ◌∙◌, ap, List, [], ◌∷◌, ◌++◌, some, false, ==_ne, Bool,
}
use virtual_memory_simulatio.Threads.{
  Timeval, Tcb, Mutex, Sched, Run, ◌>>=◌, ok, number_levels, locked, unlocked, update,
}
use virtual_memory_simulatio.Threads.Access.{update_self, update_ne, load_tcb-ok}
use virtual_memory_simulatio.Levels.Holds.{Lists, SchedHolds}
use virtual_memory_simulatio.Pthread.{lock_round, my_pthread_mutex_lock}
use virtual_memory_simulatio.Pthread.Unlock.{Waits}
use virtual_memory_simulatio.Pthread.Queued.{lock_wait-Queued}

-- The run returns `taken`, leaves the mutex locked with `ws` waiting for it and the levels holding
-- `ls`, and changes no other mutex.
pub record Locks (s : Sched) (mutex : ℕ) (r : Run Bool) (taken : Bool) (ws : List ℕ) (ls : Lists)
    : Type 0 where
  pub final : Sched
  pub runs : r ≡ ok taken final
  pub waiting : Waits final mutex ws ls
  pub state : (final.mutexes mutex).state ≡ locked
  pub levels : SchedHolds final ls
  pub others : (other : ℕ) → other ≢ mutex → final.mutexes other ≡ s.mutexes other
  pub current : final.current_tcb ≡ s.current_tcb

lock_round-Locks_queued :
    (s : Sched) (mutex : ℕ) (now : Timeval) (c x : ℕ) (xs ws : List ℕ) (ls : Lists)
    → SchedHolds s ls
    → Waits s mutex ws ls
    → (s.mutexes mutex).state ≢ unlocked
    → c < number_levels
    → ls c ≡ x ∷ xs
    → Locks s mutex (lock_round mutex c now s) false (ws ++ x ∷ []) (update ls c xs)
unfolding lock_round
lock_round-Locks_queued s mutex now c x xs ws ls h w held lt front =
    let m = s.mutexes mutex in
    let mu1 : Mutex = record m { state = locked } in
    let ms1 = update s.mutexes mutex mu1 in
    let s0 : Sched = record s { mutexes = ms1 } in
    let w0 : Waits s0 mutex ws ls = record {
      is_queue = rw (update_self s.mutexes mutex mu1) w.is_queue;
      free = w.free;
    } in
    let h0 : SchedHolds s0 ls = record { queues = h.queues; apart = h.apart } in
    let q = lock_wait-Queued s0 mutex now c x xs ws ls h0 w0 lt front in
    let mu2 : Mutex = record (ms1 mutex) { lock_wait_queue = q.queue } in
    record {
      final = record s0 {
        tcbs = q.tcbs;
        multi_level_priority_queue = q.levels;
        mutexes = update ms1 mutex mu2;
      };
      runs = rw (==_ne m.state unlocked held, q.runs) refl;
      waiting = record { is_queue = rw (update_self ms1 mutex mu2) q.waiting; free = q.free };
      state =
          ap (λ v. v.state) (update_self ms1 mutex mu2)
          ∙ ap (λ v. v.state) (update_self s.mutexes mutex mu1);
      levels = q.holds;
      others =
          λ other ne. update_ne ms1 mutex mu2 other ne ∙ update_ne s.mutexes mutex mu1 other ne;
      current = refl;
    }

-- my_pthread_mutex_lock of a locked mutex takes the first block of the current thread's level off
-- that level and appends it to the wait queue of the mutex, which stays locked; the other waiting
-- threads, the other levels and the other mutexes are as before, and the result is that the thread
-- waits. Conditions: the wait queue and the levels stand for lists no two of which share a block,
-- the current thread has a block, its priority is one of the levels, and that level is not empty.
pub my_pthread_mutex_lock-Locks_queued :
    (s : Sched) (mutex : ℕ) (now : Timeval) (x : ℕ) (xs ws : List ℕ) (ls : Lists) (t : Tcb)
    → SchedHolds s ls
    → Waits s mutex ws ls
    → (s.mutexes mutex).state ≢ unlocked
    → s.tcbs s.current_tcb ≡ some t
    → 0 < s.current_tcb
    → t.priority < number_levels
    → ls t.priority ≡ x ∷ xs
    → Locks s mutex
        (my_pthread_mutex_lock mutex now s)
        false
        (ws ++ x ∷ [])
        (update ls t.priority xs)
unfolding my_pthread_mutex_lock
my_pthread_mutex_lock-Locks_queued s mutex now x xs ws ls t h w held e p lt front =
    let l = lock_round-Locks_queued s mutex now t.priority x xs ws ls h w held lt front in
    record {
      final = l.final;
      runs = rw (load_tcb-ok s s.current_tcb e p) l.runs;
      waiting = l.waiting;
      state = l.state;
      levels = l.levels;
      others = l.others;
      current = l.current;
    }

-- When the pause of a thread that waits for a mutex returns without a switch and the mutex is
-- still locked, the next round of the loop of my_pthread_mutex_lock takes one more thread off the
-- level: behind the first block of the level also the second one, which has not asked for the
-- mutex, stands in the wait queue, while the current thread is the same. Conditions: the wait
-- queue and the levels stand for lists no two of which share a block, the current thread has a
-- block, its priority is one of the levels, and that level holds at least two threads.
pub my_pthread_mutex_lock-Locks_stray :
    (s : Sched) (mutex : ℕ) (now later : Timeval) (x y : ℕ) (xs ws : List ℕ) (ls : Lists) (t : Tcb)
    → SchedHolds s ls
    → Waits s mutex ws ls
    → (s.mutexes mutex).state ≢ unlocked
    → s.tcbs s.current_tcb ≡ some t
    → 0 < s.current_tcb
    → t.priority < number_levels
    → ls t.priority ≡ x ∷ y ∷ xs
    → Locks s mutex
        ((my_pthread_mutex_lock mutex now >>= λ _. lock_round mutex t.priority later) s)
        false
        ((ws ++ x ∷ []) ++ y ∷ [])
        (update (update ls t.priority (y ∷ xs)) t.priority xs)
my_pthread_mutex_lock-Locks_stray s mutex now later x y xs ws ls t h w held e p lt front =
    let l =
      my_pthread_mutex_lock-Locks_queued s mutex now x (y ∷ xs) ws ls t h w held e p lt front in
    let r =
      lock_round-Locks_queued l.final mutex later t.priority y xs (ws ++ x ∷ [])
        (update ls t.priority (y ∷ xs)) l.levels l.waiting (λ free. omega (arith, free, l.state)) lt
        (update_self ls t.priority (y ∷ xs)) in
    record {
      final = r.final;
      runs = rw l.runs r.runs;
      waiting = r.waiting;
      state = r.state;
      levels = r.levels;
      others = λ other ne. r.others other ne ∙ l.others other ne;
      current = r.current ∙ l.current;
    }
