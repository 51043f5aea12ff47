-- ===== src/Allocator/Entry.antt =====
-- `my_allocate`, called for the scheduler or for a thread.
use virtual_memory_simulatio.Base.{
  ℕ, suc, ◌+◌, ◌*◌, ◌≤◌, ◌<◌, ◌≡◌, refl, ◌≢◌, true, false, [], List, arith, All,
}
use virtual_memory_simulatio.Memory.{
  sizeof_page, sizeof_block, sizeof_metadata, physical_size, MemState, RequestId, unknown,
  libraryreq, threadreq, MemState,
}
use virtual_memory_simulatio.Pager.{Garbage}
use virtual_memory_simulatio.Pager.Layout.{PageView, width, IsLaidOut}
use virtual_memory_simulatio.Pager.Init.{fresh, init_memory_metadata-ok, fresh-IsLaidOut}
use virtual_memory_simulatio.Pager.Split.{IsZero}
use virtual_memory_simulatio.Allocator.{
  Caller, scheduler, thread, my_allocate, allocate_for, dispatch,
}
use virtual_memory_simulatio.Allocator.Spec.{IsRoomy, place}
use virtual_memory_simulatio.Allocator.Refine.{Places, allocate_for-place, Places-trans}

-- Whom a request is served for: the scheduler, or the running thread.
abbrev pub caller : RequestId → ℕ → Caller
caller libraryreq curr_tid = scheduler
caller threadreq curr_tid = thread curr_tid
caller unknown curr_tid = scheduler

module _ (tries fuel : ℕ) (garbage : ℕ → Garbage) (page_size address curr_tid size : ℕ) where
  dispatch-caller :
      (request_id : RequestId) (s : MemState)
      → request_id ≢ unknown
      → dispatch request_id tries fuel garbage curr_tid size s
        ≡ allocate_for tries fuel garbage (caller request_id curr_tid) size s
  unfolding dispatch
  dispatch-caller libraryreq s known = refl
  dispatch-caller threadreq s known = refl
  dispatch-caller unknown s known = absurd (known refl)

  my_allocate-ready :
      (request_id : RequestId) (s : MemState)
      → request_id ≢ unknown
      → s.initialized ≡ true
      → my_allocate tries fuel garbage page_size address curr_tid size request_id s
        ≡ allocate_for tries fuel garbage (caller request_id curr_tid) size s
  unfolding my_allocate
  my_allocate-ready request_id s known e = simp e (dispatch-caller request_id s known)

  my_allocate-first :
      (request_id : RequestId) (s : MemState)
      → request_id ≢ unknown
      → s.initialized ≡ false
      → my_allocate tries fuel garbage page_size address curr_tid size request_id s
        ≡ allocate_for tries fuel garbage
            (caller request_id curr_tid)
            size
            (fresh page_size address s)
  unfolding my_allocate
  my_allocate-first request_id s known e =
      simp (e, init_memory_metadata-ok page_size address s)
        (dispatch-caller request_id (fresh page_size address s) known)

-- my_allocate, on an initialised memory with a laid out page list, returns the address that the
-- abstract first-fit allocator chooses for the scheduler or for the running thread, and leaves the
-- pages of that allocator laid out and the metadata unchanged. Conditions: the request is one of
-- the two kinds; the uninitialised locals of assign_page hold zero; each page that the code's
-- tests accept has room for the block and one more header; a page can hold such a block; there is
-- room for one more page; the fuel of the loops is at least the size of the memory.
pub my_allocate-place :
    (tries fuel : ℕ) (garbage : ℕ → Garbage) (page_size address curr_tid size : ℕ)
    (request_id : RequestId) (s : MemState) (vs : List PageView)
    → request_id ≢ unknown
    → IsLaidOut s vs
    → All (IsRoomy s.meta.page_size (caller request_id curr_tid) size) vs
    → ((n : ℕ) → IsZero (garbage n))
    → size + sizeof_page + 2 * sizeof_block ≤ s.meta.page_size
    → sizeof_metadata + width s.meta.page_size vs + s.meta.page_size + sizeof_page ≤ physical_size
    → physical_size ≤ fuel
    → let r =
        place s.meta.page_size
          (caller request_id curr_tid)
          size
          (s.meta.address + sizeof_metadata)
          vs in
      Places s
        (my_allocate (suc (suc tries)) fuel garbage page_size address curr_tid size request_id s)
        r.0
        r.1
my_allocate-place tries fuel garbage page_size address curr_tid size request_id s vs known l roomy z
      fits room enough =
    Places-trans
      (my_allocate-ready (suc (suc tries)) fuel garbage page_size address curr_tid size request_id s
        known l.ready)
      refl
      (allocate_for-place tries fuel garbage (caller request_id curr_tid) size s vs l roomy z fits
        room enough)

-- The first call of my_allocate, whatever the memory holds, sets up the page list and allocates
-- from it as the abstract allocator does from no pages, if PHYSICAL_MEMORY is not at NULL, the
-- request is one of the two kinds, the uninitialised locals of assign_page hold zero, a page can
-- hold the block and one more header, the memory holds a page and one more header, and the fuel is
-- at least the size of the memory.
pub my_allocate_first-place :
    (tries fuel : ℕ) (garbage : ℕ → Garbage) (page_size address curr_tid size : ℕ)
    (request_id : RequestId) (s : MemState)
    → request_id ≢ unknown
    → s.initialized ≡ false
    → 0 < address
    → ((n : ℕ) → IsZero (garbage n))
    → size + sizeof_page + 2 * sizeof_block ≤ page_size
    → sizeof_metadata + page_size + sizeof_page ≤ physical_size
    → physical_size ≤ fuel
    → let r = place page_size (caller request_id curr_tid) size (address + sizeof_metadata) [] in
      Places
        (fresh page_size address s)
        (my_allocate (suc (suc tries)) fuel garbage page_size address curr_tid size request_id s)
        r.0
        r.1
my_allocate_first-place tries fuel garbage page_size address curr_tid size request_id s known new p
      z fits room enough =
    Places-trans
      (my_allocate-first (suc (suc tries)) fuel garbage page_size address curr_tid size request_id s
        known new)
      refl
      (allocate_for-place tries fuel garbage (caller request_id curr_tid) size
        (fresh page_size address s) [] (fresh-IsLaidOut page_size address s p (omega arith)) tt z
        fits (omega arith) enough)
