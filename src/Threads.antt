-- ===== src/Threads.antt =====
-- The data of my_pthread_t.h and the globals of my_pthread.c, and access to a thread control block
-- through a pointer. A pointer is a number and NULL is 0; where no block stands, an access is the
-- fault `bad_read`. The saved context of a thread is a number.
pub mod Access
pub mod Related
pub mod Keeps
pub mod Tests
pub use virtual_memory_simulatio.Base.State.{
  Fault, out_of_bounds, bad_read, out_of_fuel, exited, no_return, ok, fault, pure, fail, and_then,
  ◌>>=◌, ◌>>◌,
}
use virtual_memory_simulatio.Base.State.{Outcome}
use virtual_memory_simulatio.Base.{ℕ, ◌+◌, ◌*◌, Bool, Option, none, some, ◌==◌, ltb, if◌then◌else◌}

pub data ThreadState : Type 0 where
  running ready waiting yield terminated : ThreadState

-- `struct timeval`
pub record Timeval : Type 0 where
  pub tv_sec : ℕ
  pub tv_usec : ℕ

-- `tcb`, but for the field `joined`, which no code reads or writes.
pub record Tcb : Type 0 where
  pub tid : ℕ
  pub context : ℕ
  pub state : ThreadState
  pub priority : ℕ
  pub initial_start_time : Timeval
  pub recent_start_time : Timeval
  pub last_yield_time : Timeval
  pub return_value : ℕ
  pub next_tcb : ℕ

-- `queue`
pub record Queue : Type 0 where
  pub head : ℕ
  pub tail : ℕ
  pub size : ℕ

-- `my_pthread_mutex_t`, but for `lock_owner`, which no code reads or writes.
pub record Mutex : Type 0 where
  pub lock_wait_queue : Queue
  pub state : ℕ

-- What `init_timer` installs: the handler's stack, and the timer.
pub record Timer : Type 0 where
  pub ss_sp : ℕ
  pub ss_size : ℕ
  pub it_value : Timeval
  pub it_interval : Timeval

abbrev pub null : ℕ
null = 0

abbrev pub number_levels : ℕ
number_levels = 3

abbrev pub unlocked : ℕ
unlocked = 0

abbrev pub locked : ℕ
locked = 1

-- The globals, and what SCHEDULER points to. `tcbs` holds the control blocks, `cells` what the
-- `return_value` pointers point to and `mutexes` the mutexes, each by its address.
-- AFTER_UNLOCK_PRIORITY is -1 where the option is `none`; `timer` is what `init_timer` has given to
-- the system, `none` before its call.
pub record Sched : Type 0 where
  pub scheduler_init : Bool
  pub tcbs : ℕ → Option Tcb
  pub cells : ℕ → ℕ
  pub mutexes : ℕ → Mutex
  pub multi_level_priority_queue : ℕ → Queue
  pub priority_time_slices : ℕ → ℕ
  pub current_tcb : ℕ
  pub main_tcb : ℕ
  pub has_run : ℕ
  pub cycle : ℕ
  pub last_tid : ℕ
  pub first_thread : ℕ
  pub number_locks : ℕ
  pub after_unlock_priority : Option ℕ
  pub timer : Option Timer

abbrev pub Run : Type 0 → Type 0
Run A = Outcome Sched A

abbrev pub Cmd : Type 0 → Type 0
Cmd A = Sched → Outcome Sched A

abbrev pub update {ℓ} : {A : Type ℓ} → (ℕ → A) → ℕ → A → ℕ → A
update f p v q = if q == p then v else f q

-- What `my_allocate` returns to the library: `none` where the call does not return.
abbrev pub given : Option ℕ → Cmd ℕ
given (some p) = pure p
given none = fail no_return

abbrev tcb_found : Option Tcb → Cmd Tcb
tcb_found (some t) s = ok t s
tcb_found none s = fault bad_read

-- `*p`, for a pointer to a control block
pub load_tcb : ℕ → Cmd Tcb
load_tcb p s = if p == null then fault bad_read else tcb_found (s.tcbs p) s

abbrev tcb_changed : Option Tcb → ℕ → (Tcb → Tcb) → Cmd (Unit {0})
tcb_changed (some t) p f s = ok tt (record s { tcbs = update s.tcbs p (some (f t)) })
tcb_changed none p f s = fault bad_read

-- An assignment to fields of `*p`.
pub change_tcb : ℕ → (Tcb → Tcb) → Cmd (Unit {0})
change_tcb p f s = if p == null then fault bad_read else tcb_changed (s.tcbs p) p f s

abbrev pub with_next : ℕ → Tcb → Tcb
with_next p t = record t { next_tcb = p }

abbrev pub with_state : ThreadState → Tcb → Tcb
with_state x t = record t { state = x }

-- `SCHEDULER->multi_level_priority_queue[i]`, for reading and for writing.
pub load_level : ℕ → Cmd Queue
load_level i s =
    if ltb i number_levels then ok (s.multi_level_priority_queue i) s else fault out_of_bounds

pub store_level : ℕ → Queue → Cmd (Unit {0})
store_level i q s =
    if ltb i number_levels
    then ok tt (record s { multi_level_priority_queue = update s.multi_level_priority_queue i q })
    else fault out_of_bounds
