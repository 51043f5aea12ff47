-- ===== src/Display.antt =====
-- `print_multi_level_priority_queue` and `print_lock_queue` of my_pthread.c and `print_page` of
-- memory_manager.c. What they print is a list of entries; the text around the values is left out.
-- A walk over a queue runs on fuel.
mod Tests
pub mod Entries
use virtual_memory_simulatio.Base.{
  ℕ, zero, suc, ◌+◌, Bool, true, false, ◌==◌, if◌then◌else◌, List, [], ◌∷◌, ◌++◌,
}
use virtual_memory_simulatio.Memory.{Page, MemState}
use virtual_memory_simulatio.Threads.{
  ThreadState, running, ready, terminated, Queue, null, number_levels, Cmd, ok, fault, out_of_fuel,
  pure, fail, and_then, ◌>>=◌, ◌>>◌, load_tcb, load_level,
}

-- The word that is printed for a state.
pub data Shown : Type 0 where
  says_terminated says_ready says_running says_unknown : Shown

abbrev pub shown : ThreadState → Shown
shown terminated = says_terminated
shown ready = says_ready
shown running = says_running
shown _ = says_unknown

-- What is printed in front of the tid: `Head and Tail`, `Head`, `Tail`, or nothing.
pub data Place : Type 0 where
  head_and_tail head tail inner : Place

abbrev pub place_of : Bool → ℕ → Place
place_of false next = if next == null then head_and_tail else head
place_of true next = if next == null then tail else inner

pub data Entry : Type 0 where
  thread : ℕ → Place → ℕ → Shown → Entry
  end_level : ℕ → Entry

-- The `while` loop over the queue of level `i`. `isHead` is false for the first block only.
pub print_from : ℕ → ℕ → Bool → ℕ → Cmd (List Entry)
print_from zero i isHead p = fail out_of_fuel
print_from (suc fuel) i isHead p =
    if p == null
    then pure []
    else (load_tcb p >>= λ t. print_from fuel i true t.next_tcb >>= λ es.
        pure (thread i (place_of isHead t.next_tcb) t.tid (shown t.state) ∷ es))

pub print_levels : ℕ → ℕ → ℕ → Cmd (List Entry)
unfolding print_from
print_levels zero fuel i = pure []
print_levels (suc rounds) fuel i = load_level i >>= λ q. print_from fuel i false q.head >>= λ es.
    print_levels rounds fuel (i + 1) >>= λ fs. pure (es ++ end_level i ∷ fs)

pub print_multi_level_priority_queue : ℕ → Cmd (List Entry)
unfolding print_levels
print_multi_level_priority_queue fuel = print_levels number_levels fuel 0

-- The tids and states of a wait queue.
pub print_lock_from : ℕ → ℕ → Cmd (List (ℕ × Shown))
print_lock_from zero p = fail out_of_fuel
print_lock_from (suc fuel) p =
    if p == null
    then pure []
    else (load_tcb p >>= λ t.
        print_lock_from fuel t.next_tcb >>= λ es. pure ((t.tid, shown t.state) ∷ es))

pub print_lock_queue : ℕ → Queue → Cmd (List (ℕ × Shown))
unfolding print_lock_from
print_lock_queue fuel q = print_lock_from fuel q.head

-- The values that `print_page` prints.
pub record PageLines : Type 0 where
  pub tid : ℕ
  pub size : ℕ
  pub size_of_allocated : ℕ
  pub start_address : ℕ
  pub end_address : ℕ

pub print_page : MemState → Page → PageLines
print_page s current_page = record {
  tid = current_page.tid;
  size = s.meta.page_size;
  size_of_allocated = current_page.size_of_allocated;
  start_address = current_page.start_address;
  end_address = current_page.end_address;
}
