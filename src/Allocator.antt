-- ===== src/Allocator.antt =====
-- `allocate_for_scheduler`, `allocate_for_thread`, `my_allocate` and `my_deallocate` of
-- memory_manager.c. The two search functions are one function of the caller: they differ in the
-- test for the caller's pages and in the test for a full page. `tries` bounds the recursion that
-- follows a new page, `fuel` each loop over a list.
mod Tests
pub mod Spec
pub mod Regions
pub mod Round
pub mod Search
pub mod Refine
pub mod Entry
pub mod Oversize
pub mod Safety
use virtual_memory_simulatio.Base.{
  ℕ, zero, suc, ◌+◌, Bool, true, false, ◌&&◌, Option, none, some, ◌==◌, leb, if◌then◌else◌,
}
use virtual_memory_simulatio.Memory.{
  RequestId, unknown, libraryreq, threadreq, Page, null, tid_max, MemState, out_of_fuel, exited,
  Run, Cmd, pure, fail, ok, fault, and_then, ◌>>=◌, ◌>>◌, load_page,
}
use virtual_memory_simulatio.Pager.{Garbage, init_memory_metadata, assign_page}
use virtual_memory_simulatio.BlockList.{allocate_block}

-- Who asks: the scheduler, or the thread with this tid.
pub data Caller : Type 0 where
  scheduler : Caller
  thread : ℕ → Caller

abbrev pub request_of : Caller → RequestId
request_of scheduler = libraryreq
request_of (thread tid) = threadreq

abbrev pub tid_of : Caller → ℕ
tid_of scheduler = tid_max
tid_of (thread tid) = tid

abbrev pub is_library : RequestId → Bool
is_library libraryreq = true
is_library _ = false

abbrev pub is_thread : RequestId → Bool
is_thread threadreq = true
is_thread _ = false

-- Is this the caller's page?
abbrev pub is_own : Caller → RequestId → ℕ → Bool
is_own scheduler request_id tid = is_library request_id
is_own (thread curr_tid) request_id tid = is_thread request_id && tid == curr_tid

-- Is the page full, in the eyes of the caller?
abbrev pub is_full : Caller → ℕ → ℕ → ℕ → Bool
is_full scheduler page_size size size_of_allocated = leb page_size size_of_allocated
is_full (thread curr_tid) page_size size size_of_allocated =
    leb page_size (size_of_allocated + size)

abbrev pub worth_trying : Caller → ℕ → ℕ → Page → Bool
worth_trying c page_size size pg =
    if is_own c pg.request_id pg.tid
    then if is_full c page_size size pg.size_of_allocated then false else true
    else false

abbrev pub or_else : Option ℕ → Cmd (Option ℕ) → Cmd (Option ℕ)
or_else (some a) next = pure (some a)
or_else none next = next

-- The `while` loop over the pages; `none` when it has run to the end.
pub page_loop : ℕ → ℕ → Caller → ℕ → ℕ → Cmd (Option ℕ)
page_loop zero block_fuel c size tmp s = fault out_of_fuel
page_loop (suc fuel) block_fuel c size tmp s =
    if tmp == null
    then ok none s
    else and_then (load_page tmp s) λ pg.
      if worth_trying c s.meta.page_size size pg
      then (allocate_block block_fuel size pg.start_address >>= λ r.
          or_else r (page_loop fuel block_fuel c size pg.next))
      else page_loop fuel block_fuel c size pg.next

-- What follows the loop: the address, or a new page and another try.
abbrev pub retry : Option ℕ → Cmd ℕ → Cmd ℕ
retry (some a) again = pure a
retry none again = again

-- `garbage n` is what the locals of `assign_page` hold when `n` more tries are left.
pub allocate_for : ℕ → ℕ → (ℕ → Garbage) → Caller → ℕ → Cmd ℕ
unfolding page_loop
allocate_for zero fuel garbage c size s = fault out_of_fuel
allocate_for (suc tries) fuel garbage c size s =
    and_then (page_loop fuel fuel c size s.meta.page_list_head s) λ r. retry r do
      assign_page fuel (garbage tries) (request_of c) (tid_of c)
      allocate_for tries fuel garbage c size

pub allocate_for_scheduler : ℕ → ℕ → (ℕ → Garbage) → ℕ → Cmd ℕ
unfolding allocate_for
allocate_for_scheduler tries fuel garbage size = allocate_for tries fuel garbage scheduler size

pub allocate_for_thread : ℕ → ℕ → (ℕ → Garbage) → ℕ → ℕ → Cmd ℕ
unfolding allocate_for
allocate_for_thread tries fuel garbage curr_tid size =
    allocate_for tries fuel garbage (thread curr_tid) size

abbrev pub init_if_needed : Bool → ℕ → ℕ → Cmd (Unit {0})
init_if_needed true page_size address = pure tt
init_if_needed false page_size address = init_memory_metadata page_size address

abbrev pub dispatch : RequestId → ℕ → ℕ → (ℕ → Garbage) → ℕ → ℕ → Cmd ℕ
unfolding allocate_for_scheduler allocate_for_thread
dispatch libraryreq tries fuel garbage curr_tid size =
    allocate_for_scheduler tries fuel garbage size
dispatch threadreq tries fuel garbage curr_tid size =
    allocate_for_thread tries fuel garbage curr_tid size
dispatch unknown tries fuel garbage curr_tid size = fail exited

-- `address` is that of PHYSICAL_MEMORY, `page_size` is what `sysconf` returns and `curr_tid` what
-- `get_current_tid` does.
pub my_allocate : ℕ → ℕ → (ℕ → Garbage) → ℕ → ℕ → ℕ → ℕ → RequestId → Cmd ℕ
unfolding allocate_for_scheduler allocate_for_thread
my_allocate tries fuel garbage page_size address curr_tid size request_id s =
    (do
      init_if_needed s.initialized page_size address
      dispatch request_id tries fuel garbage curr_tid size)
      s

-- It frees nothing.
pub my_deallocate : ℕ → RequestId → Cmd (Unit {0})
my_deallocate ptr request_id = pure tt
