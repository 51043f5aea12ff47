-- ===== src/Pthread/Create.antt =====
-- `my_pthread_create` after the first thread.
use virtual_memory_simulatio.Base.{
  ℕ, zero, suc, ◌+◌, ◌*◌, ◌<◌, ◌≡◌, ◌≢◌, List, refl, ◌∙◌, [], ◌∷◌, ◌++◌, Option, some, arith, true,
  false, ==_ne, ap, ℤ, pos,
}
use virtual_memory_simulatio.Threads.{with_next, Tcb, Timer, Sched, Run, ok, ready, update}
use virtual_memory_simulatio.Threads.Access.{update_self, update_ne, change_tcb-ok}
use virtual_memory_simulatio.Queue.Chain.{NotIn}
use virtual_memory_simulatio.Levels.Holds.{Lists, SchedHolds, IsFree, schedule_thread-Holds}
use virtual_memory_simulatio.Levels.Move.{Holds-others, IsFree-away}
use virtual_memory_simulatio.Pthread.{
  NewThread, start_timer, init_timer, create_main, create_node, my_pthread_create,
}

-- No system call fails, and `my_allocate` returns both stacks.
pub record Granted (n : NewThread) : Type 0 where
  pub context_ok : n.getcontext_fails ≡ false
  pub stack : ℕ
  pub stack_given : n.stack ≡ some stack
  pub handler_stack : ℕ
  pub handler_given : n.ss_sp ≡ some handler_stack
  pub handler_ok : n.sigaltstack_fails ≡ false

-- A signal every 25 ms, handled on the stack at `sp`.
abbrev pub every_25_ms : ℕ → ℕ → Timer
every_25_ms sp size = record {
  ss_sp = sp;
  ss_size = size;
  it_value = record { tv_sec = 0; tv_usec = 25 * 1000 };
  it_interval = record { tv_sec = 0; tv_usec = 25 * 1000 };
}

-- The timer that runs after a call: the first call installs it.
abbrev pub timer_after : ℕ → Option Timer → Timer → Option Timer
timer_after zero before new = some new
timer_after (suc k) before new = before

-- The run creates the thread `tid` from what `n` gives, and leaves the levels holding `ls`. Of the
-- other blocks only links change, and these only among `touched`.
pub record Creates (s : Sched) (r : Run (ℤ × ℕ)) (n : NewThread) (g : Granted n) (tid : ℕ)
    (ls : Lists) (touched : List ℕ) : Type 0 where
  pub final : Sched
  pub runs : r ≡ ok (pos 0, tid) final
  pub levels : SchedHolds final ls
  pub last : final.last_tid ≡ tid
  pub first : 0 < final.first_thread
  pub timer :
      final.timer ≡ timer_after s.first_thread s.timer (every_25_ms g.handler_stack n.sigstksz)
  pub current : final.current_tcb ≡ s.current_tcb
  pub mutexes : final.mutexes ≡ s.mutexes
  pub after : final.after_unlock_priority ≡ s.after_unlock_priority
  pub init : final.scheduler_init ≡ s.scheduler_init
  pub born :
      (t : Tcb) × (final.tcbs n.tcb_node ≡ some t)
      × (t.tid ≡ tid)
      × (t.state ≡ ready)
      × (t.priority ≡ 0)
      × (t.context ≡ n.makecontext n.context g.stack)
      × (t.return_value ≡ n.return_value)
  pub others : (y : ℕ) → NotIn y touched → final.tcbs y ≡ s.tcbs y
  pub links :
      (y : ℕ)
      → y ≢ n.tcb_node
      → (t : Tcb) → s.tcbs y ≡ some t
      → (k : ℕ) × (final.tcbs y ≡ some (with_next k t))

-- `start_timer` changes nothing but the flag and the timer.
start_timer-ok :
    (n : NewThread) (g : Granted n) (s : Sched)
    → (k : ℕ) × (start_timer n s
        ≡ ok tt (record s {
          first_thread = k;
          timer = timer_after s.first_thread s.timer (every_25_ms g.handler_stack n.sigstksz);
        }))
      × (0 < k)
unfolding start_timer init_timer
start_timer-ok n g s = started s.first_thread refl
  where
    started :
        (f : ℕ)
        → s.first_thread ≡ f
        → (k : ℕ) × (start_timer n s
            ≡ ok tt (record s {
              first_thread = k;
              timer = timer_after s.first_thread s.timer (every_25_ms g.handler_stack n.sigstksz);
            }))
          × (0 < k)
    started zero e = (1, rw (e, g.handler_given, g.handler_ok) refl, omega arith)
    started (suc f) e = (
      s.first_thread,
      rw
          (
            ==_ne s.first_thread 0 (omega (arith, e)),
            ap (λ x. timer_after x s.timer (every_25_ms g.handler_stack n.sigstksz)) e,
          )
          refl,
      omega (arith, e),
    )

pub create_node-Creates :
    (s : Sched) (ls : Lists) (node : NewThread)
    → SchedHolds s ls
    → 0 < node.tcb_node
    → IsFree node.tcb_node ls
    → (g : Granted node)
    → Creates s
        (create_node node s)
        node
        g
        (s.last_tid + 1)
        (update ls 0 (ls 0 ++ node.tcb_node ∷ []))
        (node.tcb_node ∷ ls 0)
unfolding create_node
create_node-Creates s ls node h p free g =
    let x = node.tcb_node in
    let tid = s.last_tid + 1 in
    let b : Tcb = record node.blank { tid = tid; return_value = node.return_value } in
    let b' : Tcb = record b { context = node.makecontext node.context g.stack; state = ready } in
    let m1 = update s.tcbs x (some b) in
    let m2 = update m1 x (some b') in
    let s1 : Sched = record s { last_tid = tid; tcbs = m1 } in
    let s2 : Sched = record s { last_tid = tid; tcbs = m2 } in
    let h2 : SchedHolds s2 ls =
      Holds-others s.tcbs m2 s.multi_level_priority_queue ls (x ∷ []) h
        (λ i hi. IsFree-away x ls i hi free)
        (λ y o. update_ne m1 x _ y o.0 ∙ update_ne s.tcbs x _ y o.0) in
    let r =
      schedule_thread-Holds s2 ls x 0 b' h2 (update_self m1 x (some b')) p (omega arith) free in
    let s3 : Sched = record s2 { tcbs = r.tcbs; multi_level_priority_queue = r.levels } in
    let (k, started, pk) = start_timer-ok node g s3 in
    record {
      final = record s3 {
        first_thread = k;
        timer = timer_after s.first_thread s.timer (every_25_ms g.handler_stack node.sigstksz);
      };
      runs = simp (
        g.context_ok,
        g.stack_given,
        change_tcb-ok s1 x
            (λ t. record t { context = node.makecontext node.context g.stack; state = ready })
            (update_self s.tcbs x (some b)) p,
        r.runs,
        started,
      );
      levels = r.holds;
      last = refl;
      first = pk;
      timer = refl;
      current = refl;
      mutexes = refl;
      after = refl;
      init = refl;
      born = let (n, there) = r.placed in (_, there, refl, refl, refl, refl, refl);
      others = λ y o. r.others y o ∙ update_ne m1 x _ y o.0 ∙ update_ne s.tcbs x _ y o.0;
      links =
          λ y ne t held. r.links y ne t (update_ne m1 x _ y ne ∙ update_ne s.tcbs x _ y ne ∙ held);
    }

skip_main :
    (s : Sched) (main node : NewThread)
    → s.scheduler_init ≡ true
    → 0 < s.last_tid
    → my_pthread_create main node s ≡ create_node node s
unfolding my_pthread_create create_main
skip_main s main node init later = simp (init, ==_ne s.last_tid 0 (omega (arith, later)))

-- my_pthread_create, when the main thread has its block, returns 0 and the next tid, appends the
-- new thread to level 0, READY, with priority 0, the context that makecontext makes for its stack
-- and its place for a return value, keeps the other levels, the current thread and the mutexes,
-- and, if no call before it has done so, installs a timer that signals every 25 ms, to be handled
-- on a stack of SIGSTKSZ bytes; otherwise the timer stays as it is. Conditions: the levels stand
-- for lists no two of which share a block, the new block is not NULL and stands in none of them,
-- the scheduler is initialised, neither getcontext nor sigaltstack fails, and my_allocate returns
-- the stack of the thread, of STACK_SIZE bytes, and that of the handler, which it does not where
-- they are larger than a page can hold.
pub my_pthread_create-Creates :
    (s : Sched) (ls : Lists) (main node : NewThread)
    → SchedHolds s ls
    → s.scheduler_init ≡ true
    → 0 < s.last_tid
    → 0 < node.tcb_node
    → IsFree node.tcb_node ls
    → (g : Granted node)
    → Creates s
        (my_pthread_create main node s)
        node
        g
        (s.last_tid + 1)
        (update ls 0 (ls 0 ++ node.tcb_node ∷ []))
        (node.tcb_node ∷ ls 0)
my_pthread_create-Creates s ls main node h init later p free g =
    let c = create_node-Creates s ls node h p free g in
    record {
      final = c.final;
      runs = skip_main s main node init later ∙ c.runs;
      levels = c.levels;
      last = c.last;
      first = c.first;
      timer = c.timer;
      current = c.current;
      mutexes = c.mutexes;
      after = c.after;
      init = c.init;
      born = c.born;
      others = c.others;
      links = c.links;
    }
