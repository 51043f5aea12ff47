-- ===== src/Switch.antt =====
-- `my_pthread_yield_helper`, `my_pthread_yield_after_unlock_helper`, `signal_handler`,
-- `my_pthread_yield` and `thread_function_wrapper` of my_pthread.c. A helper returns the control
-- block whose context it installs by `setcontext`, or `none` where it returns to its caller. The
-- helpers call themselves, on fuel. `now` is what `current_time` returns.
mod Tests
pub mod Rotate
pub mod Choose
pub mod Single
pub mod Turn
pub mod Install
pub mod Switched
pub mod AfterUnlock
pub mod Turns
pub mod Fair
pub mod Keeps
use virtual_memory_simulatio.Base.{
  ℕ, zero, suc, ◌+◌, ◌==◌, leb, ltb, not, if◌then◌else◌, Bool, true, false, Option, none, some, ℤ,
  pos, negsuc,
}
use virtual_memory_simulatio.Threads.{
  ThreadState, running, ready, yield, terminated, Timeval, Tcb, null, number_levels, Cmd, ok, fault,
  out_of_fuel, pure, and_then, ◌>>=◌, ◌>>◌, update, with_state, load_tcb, change_tcb, load_level,
  store_level,
}
use virtual_memory_simulatio.Queue.{dequeue, peek}
use virtual_memory_simulatio.Levels.{schedule_thread}
use virtual_memory_simulatio.Timing.{time_compare}

abbrev pub is_terminated : ThreadState → Bool
is_terminated terminated = true
is_terminated _ = false

abbrev pub is_yield : ThreadState → Bool
is_yield yield = true
is_yield _ = false

abbrev pub set_current : ℕ → Cmd (Unit {0})
set_current p s = ok tt (record s { current_tcb = p })

abbrev pub set_has_run : ℕ → Cmd (Unit {0})
set_has_run n s = ok tt (record s { has_run = n })

-- The level behind `c`, round to 0.
abbrev pub next_level : ℕ → ℕ
next_level c = if c == 2 then 0 else c + 1

-- `for (i = 0; i <= final; i++)`: the heads of the levels from `c` on, as long as they are NULL.
pub next_head : ℕ → ℕ → Cmd (Unit {0})
unfolding peek
next_head zero c = pure tt
next_head (suc rounds) c = load_level c >>= λ q.
    set_current (peek q) >> (if peek q == null then next_head rounds (next_level c) else pure tt)

-- The second search, from level 0 on, by the sizes.
pub any_head : ℕ → ℕ → Cmd (Unit {0})
unfolding peek
any_head zero i = pure tt
any_head (suc rounds) i =
    load_level i >>= λ q. if ltb 0 q.size then set_current (peek q) else any_head rounds (i + 1)

abbrev pub search_again : Cmd (Unit {0})
search_again s = if s.current_tcb == null then any_head number_levels 0 s else ok tt s

abbrev pub found_current : Cmd Bool
found_current s = ok (not (s.current_tcb == null)) s

-- Choose the next thread: the next level's when this level has had its rounds, or this level's.
-- The result tells whether the helper goes on: the first branch returns to the caller at NULL, the
-- second one does not test for it.
pub choose_current : ℕ → Cmd Bool
unfolding next_head any_head peek
choose_current current_priority s = and_then (load_level current_priority s) λ q.
    if leb q.size s.has_run
    then (set_has_run 0
        >> (next_head 2 (next_level current_priority) >> (search_again >> found_current)))
    else (set_current (peek q) >> pure true)

-- The end of both helpers. A chosen thread that has yielded or terminated is passed over by
-- `again`, which stands for `my_pthread_yield_helper`; `stamp` is what the first does besides.
abbrev pub run_chosen : Cmd (Option ℕ) → Cmd (Unit {0}) → Timeval → ℕ → Tcb → Cmd (Option ℕ)
run_chosen again stamp now current t =
    if is_yield t.state
    then change_tcb current (with_state ready) >> again
    else if is_terminated t.state
    then again
    else (change_tcb current (with_state running)
        >> (stamp
            >> (change_tcb current (λ u. record u { recent_start_time = now }) >> λ s.
                ok (some current) (record s { has_run = s.has_run + 1 }))))

pub install : Cmd (Option ℕ) → Cmd (Unit {0}) → Timeval → Cmd (Option ℕ)
install again stamp now s =
    and_then (load_tcb s.current_tcb s) λ t. run_chosen again stamp now s.current_tcb t

abbrev pub go_on : Bool → Cmd (Option ℕ) → Cmd (Option ℕ)
go_on true c = c
go_on false c = pure none

-- The current thread goes from the head of its level to the tail, as READY if it has not ended.
pub requeue : ℕ → Cmd ℕ
requeue current_priority = load_level current_priority >>= λ q. dequeue q >>= λ r.
    store_level current_priority r.1
    >> (load_tcb r.0 >>= λ t.
        (if is_terminated t.state then pure tt else change_tcb r.0 (with_state ready))
        >> (load_tcb r.0 >>= λ u. schedule_thread r.0 u.priority >>= λ _. pure r.0))

pub my_pthread_yield_helper : ℕ → Timeval → Cmd (Option ℕ)
unfolding requeue choose_current install
my_pthread_yield_helper zero now s = fault out_of_fuel
my_pthread_yield_helper (suc fuel) now s = and_then (load_tcb s.current_tcb s) λ current.
    requeue current.priority >>= λ tcb_node. choose_current current.priority >>= λ more.
    go_on more (
      install (my_pthread_yield_helper fuel now)
        (change_tcb tcb_node (λ u. record u { last_yield_time = now })) now)

abbrev priority_or : Option ℕ → ℕ
priority_or (some p) = p
priority_or none = number_levels

-- It is called with AFTER_UNLOCK_PRIORITY other than -1; at -1 it would read before the array.
pub my_pthread_yield_after_unlock_helper : ℕ → Timeval → Cmd (Option ℕ)
unfolding choose_current install my_pthread_yield_helper
my_pthread_yield_after_unlock_helper fuel now s =
    (choose_current (priority_or s.after_unlock_priority) >>= λ more.
    go_on more (install (my_pthread_yield_helper fuel now) (pure tt) now))
      (record s { after_unlock_priority = none })

abbrev pub is_less : ℤ → Bool
is_less (pos n) = false
is_less (negsuc n) = true

abbrev pub after_unlock_or : Option ℕ → Cmd (Option ℕ) → Cmd (Option ℕ) → Cmd (Option ℕ)
after_unlock_or (some p) a b = a
after_unlock_or none a b = b

abbrev pub tick : ℕ → ℕ
tick cycle = if cycle + 1 == 5 then 0 else cycle + 1

-- `context` is the context that the signal interrupted, `now` what both calls of `current_time`
-- return.
unfoldable pub signal_handler : ℕ → ℕ → Timeval → Cmd (Option ℕ)
unfolding my_pthread_yield_helper my_pthread_yield_after_unlock_helper
signal_handler fuel context now s =
    let t = record s { cycle = tick s.cycle } in
    and_then (load_tcb t.current_tcb t) (λ current u.
      if is_less
        (time_compare current.recent_start_time now (u.priority_time_slices current.priority))
      then ok none u
      else (change_tcb u.current_tcb (λ b. record b { context = context })
            >> after_unlock_or u.after_unlock_priority
                (my_pthread_yield_after_unlock_helper fuel now) (my_pthread_yield_helper fuel now))
          u)

-- `raise(SIGALRM)` runs the handler; the result is 0.
pub my_pthread_yield : ℕ → ℕ → Timeval → Cmd (Option ℕ)
unfolding signal_handler
my_pthread_yield fuel context now = signal_handler fuel context now

-- `thread_function_wrapper` up to the call of the thread's function.
unfoldable pub wrapper_start : ℕ → Timeval → Cmd (Unit {0})
wrapper_start tcb_node now =
    change_tcb tcb_node (λ t. record t { state = running; initial_start_time = now })

-- Its end: the thread returns the value and stays in the last pause.
unfoldable pub wrapper_return : ℕ → ℕ → Cmd (Unit {0})
wrapper_return tcb_node result = load_tcb tcb_node >>= λ t.
    (λ s. ok tt (record s { cells = update s.cells t.return_value result }))
    >> change_tcb tcb_node (with_state terminated)

-- From the return of the thread's function on, up to a pause. A thread that has exited pauses
-- first; when that pause returns, which a signal that does not switch makes it do, `wrapper_return`
-- follows.
unfoldable pub wrapper_end : ℕ → ℕ → Cmd (Unit {0})
unfolding wrapper_return
wrapper_end tcb_node result = load_tcb tcb_node >>= λ t.
    if is_terminated t.state then pure tt else wrapper_return tcb_node result
