-- ===== src/Pthread/Unlock.antt =====
-- `my_pthread_mutex_unlock` on the wait queue of the mutex and on the levels.
use virtual_memory_simulatio.Base.{
  ℕ, ◌<◌, ◌≡◌, ◌≢◌, refl, sym, ap, Option, ◌∙◌, List, [], ◌∷◌, ◌++◌, some, arith, pos, ℤ, ==_ne,
}
use virtual_memory_simulatio.Threads.{
  Tcb, Queue, Mutex, Sched, Run, ok, null, number_levels, unlocked, update, with_next,
}
use virtual_memory_simulatio.Threads.Access.{update_self, update_ne, load_tcb-ok}
use virtual_memory_simulatio.Queue.Chain.{
  NotIn, Apart, Apart-cons, IsQueue, IsQueue-frame, SameLinks-others,
}
use virtual_memory_simulatio.Queue.Laws.{dequeue-IsQueue, dequeue-nil}
use virtual_memory_simulatio.Levels.Holds.{Holds, Lists, SchedHolds, IsFree, schedule_thread-Holds}
use virtual_memory_simulatio.Levels.Move.{Holds-others, IsFree-away}
use virtual_memory_simulatio.Pthread.{after_unlock, my_pthread_mutex_unlock}

-- The mutex's wait queue stands for `ws`, and its blocks stand in no level.
pub record Waits (s : Sched) (mutex : ℕ) (ws : List ℕ) (ls : Lists) : Type 0 where
  pub is_queue : IsQueue s.tcbs (s.mutexes mutex).lock_wait_queue ws
  pub free : (i : ℕ) → i < number_levels → Apart ws (ls i)

-- The run unlocks the mutex, and leaves `ws` waiting for it and the levels holding `ls`.
pub record Unlocks (s : Sched) (mutex : ℕ) (r : Run ℤ) (ws : List ℕ) (ls : Lists) (priority : ℕ)
    : Type 0 where
  pub final : Sched
  pub runs : r ≡ ok (pos 0) final
  pub waiting : IsQueue final.tcbs (final.mutexes mutex).lock_wait_queue ws
  pub state : (final.mutexes mutex).state ≡ unlocked
  pub levels : SchedHolds final ls
  pub others : (other : ℕ) → other ≢ mutex → final.mutexes other ≡ s.mutexes other
  pub after : final.after_unlock_priority ≡ some priority

-- my_pthread_mutex_unlock without waiting threads leaves the levels as they are, unlocks the mutex
-- and no other, and sets AFTER_UNLOCK_PRIORITY to the priority of the current thread. Conditions:
-- the wait queue of the mutex is empty, the levels stand for lists, and the current thread has a
-- block.
pub my_pthread_mutex_unlock-Unlocks_none :
    (s : Sched) (mutex : ℕ) (ls : Lists) (t : Tcb)
    → SchedHolds s ls
    → Waits s mutex [] ls
    → s.tcbs s.current_tcb ≡ some t
    → 0 < s.current_tcb
    → Unlocks s mutex (my_pthread_mutex_unlock mutex s) [] ls t.priority
unfolding my_pthread_mutex_unlock
my_pthread_mutex_unlock-Unlocks_none s mutex ls t h w e p =
    let m1 : Mutex = record {
      lock_wait_queue = (s.mutexes mutex).lock_wait_queue;
      state = unlocked;
    } in
    let ms = update s.mutexes mutex m1 in
    let s1 : Sched = record s { mutexes = ms } in
    record {
      final = record s1 { after_unlock_priority = some t.priority };
      runs =
          rw
            (
              dequeue-nil s (s.mutexes mutex).lock_wait_queue w.is_queue,
              load_tcb-ok s1 s.current_tcb e p,
            )
            refl;
      waiting = rw (update_self s.mutexes mutex m1) w.is_queue;
      state = rw (update_self s.mutexes mutex m1) refl;
      levels = h;
      others = λ other ne. update_ne s.mutexes mutex m1 other ne;
      after = refl;
    }

-- The call up to its last assignment takes `x` off the wait queue, which then stands for `xs`, and
-- leaves levels that hold `ls`. But for that, only links change.
pub record Wakes (s : Sched) (mutex x : ℕ) (xs : List ℕ) (ls : Lists) (touched : List ℕ)
    : Type 0 where
  pub tcbs : ℕ → Option Tcb
  pub levels : ℕ → Queue
  pub queue : Queue
  pub runs :
      my_pthread_mutex_unlock mutex s
      ≡ after_unlock (record s {
        tcbs = tcbs;
        multi_level_priority_queue = levels;
        mutexes = update s.mutexes mutex (record { lock_wait_queue = queue; state = unlocked });
      })
  pub waiting : IsQueue tcbs queue xs
  pub holds : Holds tcbs levels ls
  pub others : (y : ℕ) → NotIn y touched → tcbs y ≡ s.tcbs y
  pub links :
      (y : ℕ) → y ≢ x → (t : Tcb) → s.tcbs y ≡ some t → (n : ℕ) × (tcbs y ≡ some (with_next n t))
  pub placed :
      (t : Tcb)
      → s.tcbs x ≡ some t
      → (n : ℕ) × (tcbs x ≡ some (with_next n (record t { priority = 0 })))

pub my_pthread_mutex_unlock-Wakes :
    (s : Sched) (mutex x : ℕ) (xs : List ℕ) (ls : Lists)
    → SchedHolds s ls
    → Waits s mutex (x ∷ xs) ls
    → Wakes s mutex x xs (update ls 0 (ls 0 ++ x ∷ [])) (x ∷ ls 0)
unfolding my_pthread_mutex_unlock
my_pthread_mutex_unlock-Wakes s mutex x xs ls h w =
    let tk = dequeue-IsQueue s (s.mutexes mutex).lock_wait_queue x xs w.is_queue in
    let t1 : Tcb = with_next null tk.tcb in
    let m1 = update s.tcbs x (some t1) in
    let mu : Mutex = record { lock_wait_queue = tk.queue; state = unlocked } in
    let s2 : Sched = record s { tcbs = m1; mutexes = update s.mutexes mutex mu } in
    let free : IsFree x ls = λ i hi. (w.free i hi).0 in
    let h2 =
      Holds-others s.tcbs m1 s.multi_level_priority_queue ls (x ∷ []) h
        (λ i hi. IsFree-away x ls i hi free) (λ y o. update_ne s.tcbs x _ y o.0) in
    let r =
      schedule_thread-Holds s2 ls x 0 t1 h2 (update_self s.tcbs x (some t1)) tk.pos (omega arith)
        free in
    let (n, there) = r.placed in
    record {
      tcbs = r.tcbs;
      levels = r.levels;
      queue = tk.queue;
      runs = rw (tk.runs, ==_ne x 0 (omega (arith, tk.pos)), r.runs) refl;
      waiting = IsQueue-frame m1 r.tcbs tk.queue xs tk.is_queue (
          SameLinks-others m1 r.tcbs xs (x ∷ ls 0)
            (Apart-cons x (ls 0) xs (w.free 0 (omega arith)).1 tk.fresh) r.others);
      holds = r.holds;
      others = λ y o. r.others y o ∙ update_ne s.tcbs x _ y o.0;
      links = λ y ne t held. r.links y ne t (update_ne s.tcbs x _ y ne ∙ held);
      placed = λ t held.
          let same : some tk.tcb ≡ some t = sym tk.held ∙ held in
          let eq : tk.tcb ≡ t = cc same in
          (n, there ∙ ap (λ v. some (with_next n (record v { priority = 0 }))) eq);
    }

-- my_pthread_mutex_unlock takes the first waiting thread off the wait queue and appends it to
-- level 0, keeps the order of the other waiting threads and the lists of the other levels, unlocks
-- the mutex and no other, and sets AFTER_UNLOCK_PRIORITY to the priority of the current thread, if
-- that is not the waiting one. Conditions: the wait queue, which is not empty, and the levels
-- stand for lists no two of which share a block, and the current thread has a block.
pub my_pthread_mutex_unlock-Unlocks :
    (s : Sched) (mutex x : ℕ) (xs : List ℕ) (ls : Lists) (t : Tcb)
    → SchedHolds s ls
    → Waits s mutex (x ∷ xs) ls
    → s.tcbs s.current_tcb ≡ some t
    → 0 < s.current_tcb
    → s.current_tcb ≢ x
    → Unlocks s mutex (my_pthread_mutex_unlock mutex s) xs (update ls 0 (ls 0 ++ x ∷ [])) t.priority
my_pthread_mutex_unlock-Unlocks s mutex x xs ls t h w e p ne =
    let r = my_pthread_mutex_unlock-Wakes s mutex x xs ls h w in
    let mu : Mutex = record { lock_wait_queue = r.queue; state = unlocked } in
    let s3 : Sched = record s {
      tcbs = r.tcbs;
      multi_level_priority_queue = r.levels;
      mutexes = update s.mutexes mutex mu;
    } in
    let (n, cur) = r.links s.current_tcb ne t e in
    record {
      final = record s3 { after_unlock_priority = some t.priority };
      runs = r.runs ∙ rw (load_tcb-ok s3 s.current_tcb cur p) refl;
      waiting = rw (update_self s.mutexes mutex mu) r.waiting;
      state = rw (update_self s.mutexes mutex mu) refl;
      levels = r.holds;
      others = λ other ne'. update_ne s.mutexes mutex mu other ne';
      after = refl;
    }
