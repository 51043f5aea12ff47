-- ===== src/Levels.antt =====
-- The static functions of my_pthread.c on the multi-level priority queue. They block SIGALRM while
-- they run, so each is one step. A walk over a queue runs on fuel, a round for each control block.
pub mod Tests
pub mod Holds
pub mod Lookup
pub mod Move
pub mod Keeps
pub mod Fold
pub mod Remove
use virtual_memory_simulatio.Base.{
  ℕ, zero, suc, ◌+◌, ◌-◌, ◌*◌, ◌==◌, leb, length, Option, if◌then◌else◌, ℤ, pos, negsuc, List, [],
  ◌∷◌, ◌++◌,
}
use virtual_memory_simulatio.Threads.{
  Tcb, Queue, null, number_levels, Cmd, ok, fault, out_of_fuel, out_of_bounds, given, pure, fail,
  and_then, ◌>>=◌, ◌>>◌, with_next, load_tcb, change_tcb, load_level, store_level,
}
use virtual_memory_simulatio.Queue.{enqueue}

-- An `int` priority that is below 0 does not occur among the callers.
pub schedule_thread : ℕ → ℕ → Cmd ℤ
schedule_thread tcb_node priority = if leb number_levels priority then pure (negsuc 0) else do
  change_tcb tcb_node (λ t. record t { priority = priority })
  q ← load_level priority
  q' ← enqueue q tcb_node
  store_level priority q'
  pure (pos 0)

-- The inner loop of `get_tcb`: NULL at the end of the queue.
pub find_from : ℕ → ℕ → ℕ → Cmd ℕ
find_from zero tid tcb_node = fail out_of_fuel
find_from (suc fuel) tid tcb_node =
    if tcb_node == null
    then pure null
    else (load_tcb tcb_node >>= λ t.
        if t.tid == tid then pure tcb_node else find_from fuel tid t.next_tcb)

-- The levels from `i` on, `rounds` of them, until one holds the thread.
pub get_from : ℕ → ℕ → ℕ → ℕ → Cmd ℕ
get_from zero fuel tid i = pure null
get_from (suc rounds) fuel tid i = load_level i >>= λ q. find_from fuel tid q.head >>= λ p.
    if p == null then get_from rounds fuel tid (i + 1) else pure p

pub get_tcb : ℕ → ℕ → Cmd ℕ
get_tcb fuel tid = get_from number_levels fuel tid 0

-- The three ways to take the found block out of its queue. None changes the queue's size.
pub unlink : ℕ → ℕ → ℕ → Tcb → Cmd (Unit {0})
unlink i tcb_node_prev tcb_node t =
    if tcb_node == tcb_node_prev
    then (do q ← load_level i; store_level i (record q { head = t.next_tcb }))
    else if t.next_tcb == null
    then (do
      q ← load_level i
      store_level i (record q { tail = tcb_node_prev })
      change_tcb tcb_node_prev (with_next null))
    else change_tcb tcb_node_prev (with_next t.next_tcb)

pub remove_from : ℕ → ℕ → ℕ → ℕ → ℕ → Cmd ℕ
unfolding unlink
remove_from zero tid i tcb_node_prev tcb_node = fail out_of_fuel
remove_from (suc fuel) tid i tcb_node_prev tcb_node =
    if tcb_node == null
    then pure null
    else (load_tcb tcb_node >>= λ t.
        if t.tid == tid
        then unlink i tcb_node_prev tcb_node t >> pure tcb_node
        else remove_from fuel tid i tcb_node t.next_tcb)

pub remove_levels : ℕ → ℕ → ℕ → ℕ → Cmd ℕ
remove_levels zero fuel tid i = pure null
remove_levels (suc rounds) fuel tid i = load_level i >>= λ q.
    remove_from fuel tid i q.head q.head >>= λ p.
    if p == null then remove_levels rounds fuel tid (i + 1) else pure p

pub get_and_remove_tcb : ℕ → ℕ → Cmd ℕ
unfolding remove_from remove_levels
get_and_remove_tcb fuel tid = remove_levels number_levels fuel tid 0

-- The same loops, and two calls of `my_deallocate`, which does nothing; the first reads the block.
pub delete_tcb : ℕ → ℕ → Cmd (Unit {0})
unfolding get_and_remove_tcb
delete_tcb fuel tid = do tcb_node ← get_and_remove_tcb fuel tid; t ← load_tcb tcb_node; pure tt

pub change_priority : ℕ → ℕ → ℕ → Cmd (Unit {0})
unfolding get_and_remove_tcb schedule_thread
change_priority fuel tid priority = do
  tcb_node ← get_and_remove_tcb fuel tid
  result ← schedule_thread tcb_node priority
  pure tt

pub count_from : ℕ → ℕ → ℕ → Cmd ℕ
count_from zero count tcb_node = fail out_of_fuel
count_from (suc fuel) count tcb_node =
    if tcb_node == null
    then pure count
    else (load_tcb tcb_node >>= λ t. count_from fuel (count + 1) t.next_tcb)

pub count_levels : ℕ → ℕ → ℕ → ℕ → Cmd ℕ
count_levels zero fuel count i = pure count
count_levels (suc rounds) fuel count i =
    load_level i >>= λ q. count_from fuel count q.head >>= λ n. count_levels rounds fuel n (i + 1)

pub get_num_scheduled_tcb : ℕ → Cmd ℕ
unfolding count_from count_levels
get_num_scheduled_tcb fuel = count_levels number_levels fuel 0 0

-- The control blocks of a queue in order, as copies. The array has room for `room` more of them.
pub copy_from : ℕ → ℕ → ℕ → Cmd (List Tcb)
copy_from zero room tcb_node = fail out_of_fuel
copy_from (suc fuel) room tcb_node =
    if tcb_node == null
    then pure []
    else if room == 0
    then fail out_of_bounds
    else (load_tcb tcb_node >>= λ t. copy_from fuel (room - 1) t.next_tcb >>= λ ts. pure (t ∷ ts))

pub copy_levels : ℕ → ℕ → ℕ → ℕ → Cmd (List Tcb)
copy_levels zero fuel room i = pure []
copy_levels (suc rounds) fuel room i = load_level i >>= λ q. copy_from fuel room q.head >>= λ ts.
    copy_levels rounds fuel (room - length ts) (i + 1) >>= λ us. pure (ts ++ us)

-- `fold_mlpq_to_array`: the array that it allocates, and what it fills it with. `my_allocate` tells
-- for a size in bytes what the allocation returns.
pub fold_mlpq_to_array : ℕ → (ℕ → Option ℕ) → ℕ → Cmd (ℕ × List Tcb)
unfolding copy_levels get_num_scheduled_tcb
fold_mlpq_to_array sizeof_tcb my_allocate fuel = get_num_scheduled_tcb fuel >>= λ num_tcb.
    given (my_allocate (sizeof_tcb * num_tcb)) >>= λ tcb_array.
    copy_levels number_levels fuel num_tcb 0 >>= λ ts. pure (tcb_array, ts)
