-- ===== src/Pthread/Queued.antt =====
-- The second half of a round of `my_pthread_mutex_lock` on the wait queue and on the levels.
use virtual_memory_simulatio.Base.{
  ℕ, ◌<◌, ◌≡◌, ◌≢◌, refl, sym, ◌∙◌, ap, subst, List, [], ◌∷◌, ◌++◌, Option, some, arith, ◌==◌, inl,
  inr, Bool-cases,
}
use virtual_memory_simulatio.Threads.{
  Timeval, Tcb, Queue, Mutex, Sched, Run, ok, null, number_levels, update, with_next,
}
use virtual_memory_simulatio.Threads.Access.{
  update_self, update_ne, change_tcb-ok, load_level-ok, store_level-ok,
}
use virtual_memory_simulatio.Queue.Chain.{
  NotIn, Apart, Apart-nil, Apart-cons, Apart-tail, NotIn-of_Apart, IsQueue, IsQueue-frame,
  SameLinks, SameLinks-others,
}
use virtual_memory_simulatio.Queue.Laws.{dequeue-IsQueue, enqueue-IsQueue}
use virtual_memory_simulatio.Levels.Holds.{Lists, Holds, SchedHolds, update_elim, cons-Apart}
use virtual_memory_simulatio.Levels.Move.{
  Holds-others, IsFree-away, level-IsQueue, take-IsFree, take-Holds,
}
use virtual_memory_simulatio.Pthread.{lock_wait}
use virtual_memory_simulatio.Pthread.Unlock.{Waits}

Apart-sym : (xs ys : List ℕ) → Apart xs ys → Apart ys xs
Apart-sym [] ys d = Apart-nil ys
Apart-sym (x ∷ xs) ys d = Apart-cons x xs ys (Apart-sym xs ys d.1) d.0

-- A change of a block but for its link keeps all links.
pub SameLinks-field :
    (m : ℕ → Option Tcb) (p : ℕ) (t u : Tcb) (xs : List ℕ)
    → m p ≡ some t
    → u.next_tcb ≡ t.next_tcb
    → SameLinks m (update m p (some u)) xs
SameLinks-field m p t u [] e next = tt
SameLinks-field m p t u (x ∷ xs) e next = (here, SameLinks-field m p t u xs e next)
  where
    here :
        (v : Tcb)
        → m x ≡ some v
        → (w : Tcb) × (update m p (some u) x ≡ some w) × (w.next_tcb ≡ v.next_tcb)
    here v held = elim (Bool-cases (x == p)) [
      | inl hit ↦
          let same : x ≡ p = ground arith in
          let eqt : some v ≡ some t = sym held ∙ ap m same ∙ e in
          let et : v ≡ t = cc eqt in (u, rw hit refl, rw et next)
      | inr miss ↦ (v, rw miss held, refl)
    ]

-- The run appends `x` to the wait queue of the mutex, which then stands for `ws ++ x ∷ []`, and
-- leaves levels that hold `ls`. But for that, only links change, and the time of `x`.
pub record Queued (s : Sched) (mutex : ℕ) (now : Timeval) (x : ℕ) (ws : List ℕ) (ls : Lists)
    (r : Run (Unit {0})) : Type 0 where
  pub tcbs : ℕ → Option Tcb
  pub levels : ℕ → Queue
  pub queue : Queue
  pub runs :
      r
      ≡ ok tt (record s {
        tcbs = tcbs;
        multi_level_priority_queue = levels;
        mutexes = update s.mutexes mutex (record (s.mutexes mutex) { lock_wait_queue = queue });
      })
  pub waiting : IsQueue tcbs queue (ws ++ x ∷ [])
  pub free : (i : ℕ) → i < number_levels → Apart (ws ++ x ∷ []) (ls i)
  pub holds : Holds tcbs levels ls
  pub others : (y : ℕ) → NotIn y (x ∷ ws) → tcbs y ≡ s.tcbs y
  pub links :
      (y : ℕ) → y ≢ x → (t : Tcb) → s.tcbs y ≡ some t → (n : ℕ) × (tcbs y ≡ some (with_next n t))
  pub placed :
      (t : Tcb)
      → s.tcbs x ≡ some t
      → (n : ℕ) × (tcbs x ≡ some (with_next n (record t { last_yield_time = now })))

-- What a round of the loop of my_pthread_mutex_lock does after its test has failed appends the
-- first block of the level to the wait queue of the mutex, whatever the state of the mutex is,
-- which it keeps: when the mutex has been released since the test, the thread is left waiting for
-- a mutex that is not locked. It keeps the order of the other waiting threads, the lists of the
-- other levels and the other mutexes. Conditions: the wait queue and the levels stand for lists no
-- two of which share a block, and the level is one of the three and not empty.
pub lock_wait-Queued :
    (s : Sched) (mutex : ℕ) (now : Timeval) (c x : ℕ) (xs ws : List ℕ) (ls : Lists)
    → SchedHolds s ls
    → Waits s mutex ws ls
    → c < number_levels
    → ls c ≡ x ∷ xs
    → Queued s mutex now x ws (update ls c xs) (lock_wait mutex c now s)
unfolding lock_wait
lock_wait-Queued s mutex now c x xs ws ls h w lt front =
    let m = s.mutexes mutex in
    let tk =
      dequeue-IsQueue s (s.multi_level_priority_queue c) x xs
        (level-IsQueue s ls c x xs h lt front) in
    let t1 : Tcb = with_next null tk.tcb in
    let m1 = update s.tcbs x (some t1) in
    let lv = update s.multi_level_priority_queue c tk.queue in
    let s1 : Sched = record s { tcbs = m1 } in
    let s2 : Sched = record s { tcbs = m1; multi_level_priority_queue = lv } in
    let h2 = take-Holds s ls c x xs h lt front tk.tcb tk.queue tk.is_queue in
    let free = take-IsFree s ls c x xs h lt front tk.fresh in
    let apart : Apart ws (x ∷ xs) = subst (λ l. Apart ws l) front (w.free c lt) in
    let out : NotIn x ws = NotIn-of_Apart x xs ws apart in
    let wq : IsQueue m1 m.lock_wait_queue ws =
      IsQueue-frame s.tcbs m1 m.lock_wait_queue ws w.is_queue (
        SameLinks-others s.tcbs m1 ws (x ∷ []) (Apart-cons x [] ws (Apart-nil ws) out)
          (λ y o. update_ne s.tcbs x _ y o.0)) in
    let y =
      enqueue-IsQueue s2 m.lock_wait_queue x ws t1 wq (update_self s.tcbs x (some t1)) tk.pos out in
    let (n, eu) = y.links x t1 (update_self s.tcbs x (some t1)) in
    let u : Tcb = with_next n t1 in
    let u' : Tcb = record u { last_yield_time = now } in
    let m3 = update y.tcbs x (some u') in
    let mu : Mutex = record m { lock_wait_queue = y.queue } in
    let s3 : Sched = record s2 { tcbs = y.tcbs; mutexes = update s.mutexes mutex mu } in
    let rest : (i : ℕ) → i < number_levels → Apart ws (update ls c xs i) = λ i hi.
      update_elim (λ l. Apart ws l) ls c xs i (λ q. Apart-tail x xs ws apart) (λ ne. w.free i hi) in
    record {
      tcbs = m3;
      levels = lv;
      queue = y.queue;
      runs =
          rw
            (
              load_level-ok s c lt,
              tk.runs,
              store_level-ok s1 c tk.queue lt,
              y.runs,
              change_tcb-ok s3 x (λ v. record v { last_yield_time = now }) eu tk.pos,
            )
            refl;
      waiting =
          IsQueue-frame y.tcbs m3 y.queue (ws ++ x ∷ []) y.is_queue
            (SameLinks-field y.tcbs x u u' (ws ++ x ∷ []) eu refl);
      free = λ i hi. cons-Apart x ws (update ls c xs i) (free i hi) (rest i hi);
      holds =
          Holds-others y.tcbs m3 lv (update ls c xs) (x ∷ [])
            (Holds-others m1 y.tcbs lv (update ls c xs) (x ∷ ws) h2
              (λ i hi.
                Apart-cons x ws (update ls c xs i) (Apart-sym ws (update ls c xs i) (rest i hi))
                  (free i hi))
              y.others)
            (λ i hi. IsFree-away x (update ls c xs) i hi free) (λ z o. update_ne y.tcbs x _ z o.0);
      others = λ z o. update_ne y.tcbs x _ z o.0 ∙ y.others z o ∙ update_ne s.tcbs x _ z o.0;
      links = λ z ne t held.
          let (k, at) = y.links z t (update_ne s.tcbs x _ z ne ∙ held) in
          (k, update_ne y.tcbs x _ z ne ∙ at);
      placed = λ t held.
          let same : some tk.tcb ≡ some t = sym tk.held ∙ held in
          let eq : tk.tcb ≡ t = cc same in
          (
            n,
            update_self y.tcbs x _
                ∙ ap (λ v. some (with_next n (record v { last_yield_time = now }))) eq,
          );
    }
