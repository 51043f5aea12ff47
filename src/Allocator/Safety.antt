-- ===== src/Allocator/Safety.antt =====
-- What a client of `my_allocate` relies on: its data area is its own.
use virtual_memory_simulatio.Base.{ℕ, suc, ◌+◌, ◌*◌, ◌≤◌, ◌≡◌, ◌≢◌, List, ◌∷◌, All}
use mathlib.Core.List.{Perm}
use virtual_memory_simulatio.Memory.{
  sizeof_page, sizeof_block, sizeof_metadata, physical_size, MemState, Run, ok, RequestId, unknown,
}
use virtual_memory_simulatio.Pager.{Garbage}
use virtual_memory_simulatio.Pager.Layout.{PageView, width, IsLaidOut}
use virtual_memory_simulatio.Pager.Split.{IsZero}
use virtual_memory_simulatio.Allocator.{my_allocate}
use virtual_memory_simulatio.Allocator.Spec.{IsRoomy, place}
use virtual_memory_simulatio.Allocator.Entry.{caller, my_allocate-place}
use virtual_memory_simulatio.Allocator.Regions.{regions, Rises, regions-Rises, regions-place}

-- The data areas that the pages `vs` of the state `s` hold.
abbrev pub areas : MemState → List PageView → List (ℕ × ℕ)
areas s vs = regions s.meta.page_size (s.meta.address + sizeof_metadata) vs

-- The run returns a data area of `size` bytes. The areas afterwards are those from before and this
-- one; they lie in the physical memory behind the metadata, each behind a header of its own, and no
-- two have a byte in common.
pub record HandsOut (s : MemState) (vs : List PageView) (size : ℕ) (r : Run ℕ) : Type 0 where
  pub start : ℕ
  pub final : MemState
  pub pages : List PageView
  pub runs : r ≡ ok start final
  pub laid_out : IsLaidOut final pages
  pub one_more : Perm (areas final pages) ((start, size) ∷ areas s vs)
  pub disjoint :
      Rises
        (final.meta.address + sizeof_metadata)
        (areas final pages)
        (final.meta.address + physical_size)

-- my_allocate, on an initialised memory with a laid out page list, returns a data area of the size
-- that was asked for and leaves all areas handed out before where they are; afterwards all areas
-- lie in the physical memory behind the metadata, each behind a header of its own, and no two have
-- a byte in common. Conditions: the request is one of the two kinds; the uninitialised locals of
-- assign_page hold zero; each page that the code's tests accept has room for the block and one
-- more header; a page can hold such a block; there is room for one more page; the fuel of the
-- loops is at least the size of the memory.
pub my_allocate-HandsOut :
    (tries fuel : ℕ) (garbage : ℕ → Garbage) (page_size address curr_tid size : ℕ)
    (request_id : RequestId) (s : MemState) (vs : List PageView)
    → request_id ≢ unknown
    → IsLaidOut s vs
    → All (IsRoomy s.meta.page_size (caller request_id curr_tid) size) vs
    → ((n : ℕ) → IsZero (garbage n))
    → size + sizeof_page + 2 * sizeof_block ≤ s.meta.page_size
    → sizeof_metadata + width s.meta.page_size vs + s.meta.page_size + sizeof_page ≤ physical_size
    → physical_size ≤ fuel
    → HandsOut s vs size
        (my_allocate (suc (suc tries)) fuel garbage page_size address curr_tid size request_id s)
my_allocate-HandsOut tries fuel garbage page_size address curr_tid size request_id s vs known l
      roomy z fits room enough =
    let ps = s.meta.page_size in
    let c = caller request_id curr_tid in
    let a = s.meta.address + sizeof_metadata in
    let p =
      my_allocate-place tries fuel garbage page_size address curr_tid size request_id s vs known l
        roomy z fits room enough in
    let r = place ps c size a vs in
    record {
      start = r.0;
      final = p.final;
      pages = r.1;
      runs = p.runs;
      laid_out = p.laid_out;
      one_more = rw p.meta (regions-place ps c size a vs);
      disjoint = regions-Rises p.final r.1 p.laid_out;
    }
