-- ===== src/Pthread.antt =====
-- `init_scheduler`, `my_pthread_create`, `my_pthread_exit`, `my_pthread_join`, the mutexes and
-- `get_current_tid` of my_pthread.c. What `my_allocate` and `getcontext` return are arguments.
mod Tests
pub mod Unlock
pub mod Queued
pub mod Lock
pub mod Join
pub mod Create
pub mod Keeps
pub mod Taken
pub mod Exclusion
pub mod Sound
pub mod Reachable
use virtual_memory_simulatio.Base.{
  ℕ, ◌+◌, ◌*◌, ◌==◌, if◌then◌else◌, Bool, true, false, Option, some, ℤ, pos, negsuc,
}
use virtual_memory_simulatio.Threads.{
  ready, terminated, Timeval, Tcb, Queue, Mutex, null, unlocked, locked, Cmd, ok, exited, pure,
  fail, given, and_then, ◌>>=◌, ◌>>◌, update, load_tcb, change_tcb, load_level, store_level,
}
use virtual_memory_simulatio.Queue.{queue_init, enqueue, dequeue}
use virtual_memory_simulatio.Levels.{schedule_thread, get_tcb}
use virtual_memory_simulatio.Switch.{is_terminated}

abbrev pub time_slice : ℕ
time_slice = 5000

-- The loops over the levels, which write each index below NUMBER_LEVELS, as functions of the index.
unfoldable pub init_scheduler : Cmd (Unit {0})
unfolding queue_init
init_scheduler s = ok tt (record s {
  multi_level_priority_queue = λ i. queue_init;
  main_tcb = null;
  current_tcb = null;
  priority_time_slices = λ i. time_slice * (i + 1);
})

-- `ss_sp` is what `my_allocate` returns; `fails` tells that `sigaltstack` returns -1.
pub init_timer : ℕ → Option ℕ → Bool → Cmd (Unit {0})
init_timer sigstksz ss_sp fails = given ss_sp >>= λ p. if fails then fail exited else λ s.
    ok tt (record s {
      timer = some (record {
        ss_sp = p;
        ss_size = sigstksz;
        it_value = record { tv_sec = 0; tv_usec = 25000 };
        it_interval = record { tv_sec = 0; tv_usec = 25000 };
      });
    })

-- A control block that `my_allocate` has just returned, with what the memory held there.
abbrev pub place_tcb : ℕ → Tcb → Cmd (Unit {0})
place_tcb p t s = ok tt (record s { tcbs = update s.tcbs p (some t) })

abbrev pub init_if_first : Cmd (Unit {0})
init_if_first s =
    if s.scheduler_init then ok tt s else init_scheduler (record s { scheduler_init = true })

-- What one call of `my_pthread_create` is given: the pointers that `my_allocate` returns for the
-- block and its return value, and what the memory of the block holds; the context that `getcontext`
-- fills and whether it fails; the thread's stack, of STACK_SIZE bytes, and the context that
-- `makecontext` makes of the first context and this stack; and what `init_timer` is given. A stack
-- is `none` where `my_allocate` does not return, as for a size above that of a page.
pub record NewThread : Type 0 where
  pub tcb_node : ℕ
  pub blank : Tcb
  pub return_value : ℕ
  pub context : ℕ
  pub getcontext_fails : Bool
  pub stack : Option ℕ
  pub makecontext : ℕ → ℕ → ℕ
  pub sigstksz : ℕ
  pub ss_sp : Option ℕ
  pub sigaltstack_fails : Bool

-- The control block of the thread that calls `my_pthread_create` first. `true` goes on.
pub create_main : NewThread → Cmd Bool
create_main n s =
    if s.last_tid == 0
    then (place_tcb n.tcb_node (record n.blank { tid = s.last_tid; return_value = n.return_value })
          >> (if n.getcontext_fails
              then pure false
              else (change_tcb n.tcb_node (λ t. record t { context = n.context; state = ready })
                  >> (schedule_thread n.tcb_node 0 >>= λ _.
                      λ u. ok true (record u { current_tcb = n.tcb_node })))))
        s
    else ok true s

abbrev pub start_timer : NewThread → Cmd (Unit {0})
unfolding init_timer
start_timer n s =
    if s.first_thread == 0
    then init_timer n.sigstksz n.ss_sp n.sigaltstack_fails (record s { first_thread = 1 })
    else ok tt s

-- The new thread. The result is that of the function, and the new tid.
pub create_node : NewThread → Cmd (ℤ × ℕ)
create_node n s =
    let tid = s.last_tid + 1 in
    (place_tcb n.tcb_node (record n.blank { tid = tid; return_value = n.return_value })
        >> (if n.getcontext_fails
            then pure (negsuc 0, tid)
            else (given n.stack >>= λ sp.
                change_tcb n.tcb_node
                  (λ t. record t { context = n.makecontext n.context sp; state = ready })
                >> (schedule_thread n.tcb_node 0 >>= λ _. (start_timer n >> pure (pos 0, tid))))))
      (record s { last_tid = tid })

-- `*thread` is set to the second part of the result.
pub my_pthread_create : NewThread → NewThread → Cmd (ℤ × ℕ)
unfolding create_main create_node
my_pthread_create main node =
    init_if_first
    >> (create_main main >>= λ more. if more then create_node node else pure (negsuc 0, 0))

pub my_pthread_exit : ℕ → Cmd (Unit {0})
my_pthread_exit value_ptr s = and_then (load_tcb s.current_tcb s) λ t u.
    change_tcb u.current_tcb (λ b. record b { state = terminated })
      (record u { cells = update u.cells t.return_value value_ptr })

-- What `my_pthread_join` finds: no such thread, a thread that still runs, on which it spins, or the
-- value of a terminated one.
pub data Joined : Type 0 where
  missing spins : Joined
  value : ℕ → Joined

-- One look of `my_pthread_join` at the thread.
pub my_pthread_join : ℕ → ℕ → Cmd Joined
my_pthread_join fuel thread = get_tcb fuel thread >>= λ tcb_node.
    if tcb_node == null
    then pure missing
    else (load_tcb tcb_node >>= λ t s.
        if is_terminated t.state then ok (value (s.cells t.return_value)) s else ok spins s)

-- It calls `init_scheduler` without setting SCHEDULER_INIT.
pub my_pthread_mutex_init : ℕ → Cmd ℤ
unfolding queue_init init_scheduler
my_pthread_mutex_init mutex s =
    ((λ t. if t.scheduler_init then ok tt t else init_scheduler t) >> λ t. ok (pos 0) (record t {
      number_locks = t.number_locks + 1;
      mutexes = update t.mutexes mutex (record { lock_wait_queue = queue_init; state = unlocked });
    }))
      s

abbrev set_mutex : ℕ → Mutex → Cmd (Unit {0})
set_mutex mutex m s = ok tt (record s { mutexes = update s.mutexes mutex m })

abbrev load_mutex : ℕ → Cmd Mutex
load_mutex mutex s = ok (s.mutexes mutex) s

abbrev set_wait_queue : ℕ → Queue → Cmd (Unit {0})
set_wait_queue mutex w s = ok tt (record s {
  mutexes = update s.mutexes mutex (record (s.mutexes mutex) { lock_wait_queue = w });
})

-- What a round does after its test has failed, up to the pause: the first thread of the level goes
-- to the wait queue.
pub lock_wait : ℕ → ℕ → Timeval → Cmd (Unit {0})
lock_wait mutex current_priority now = load_level current_priority >>= λ q. dequeue q >>= λ r.
    store_level current_priority r.1
    >> (load_mutex mutex >>= λ m. enqueue m.lock_wait_queue r.0 >>= λ w.
        set_wait_queue mutex w >> change_tcb r.0 (λ t. record t { last_yield_time = now }))

-- One round of the loop of `my_pthread_mutex_lock`, at the priority that was read before the loop.
-- `true`: the lock is taken. `false`: the thread waits, and pauses until a signal.
pub lock_round : ℕ → ℕ → Timeval → Cmd Bool
unfolding lock_wait
lock_round mutex current_priority now s =
    let m = s.mutexes mutex in
    if m.state == unlocked
    then ok true (record s { mutexes = update s.mutexes mutex (record m { state = locked }) })
    else (set_mutex mutex (record m { state = locked })
          >> (lock_wait mutex current_priority now >> pure false))
        s

-- `my_pthread_mutex_lock` up to its end or its first pause.
pub my_pthread_mutex_lock : ℕ → Timeval → Cmd Bool
unfolding lock_round
my_pthread_mutex_lock mutex now s =
    and_then (load_tcb s.current_tcb s) λ t. lock_round mutex t.priority now

abbrev pub after_unlock : Cmd ℤ
after_unlock s =
    and_then (load_tcb s.current_tcb s)
      λ t u. ok (pos 0) (record u { after_unlock_priority = some t.priority })

pub my_pthread_mutex_unlock : ℕ → Cmd ℤ
my_pthread_mutex_unlock mutex s =
    let m = s.mutexes mutex in
    (dequeue m.lock_wait_queue >>= λ r.
    set_mutex mutex (record { lock_wait_queue = r.1; state = unlocked })
    >> ((if r.0 == null then pure (pos 0) else schedule_thread r.0 0) >>= λ _. after_unlock))
      s

pub my_pthread_mutex_destroy : ℕ → Cmd ℤ
my_pthread_mutex_destroy mutex = pure (pos 0)

pub get_current_tid : Cmd ℕ
get_current_tid s =
    if s.scheduler_init then and_then (load_tcb s.current_tcb s) (λ t. pure t.tid) else ok 0 s
