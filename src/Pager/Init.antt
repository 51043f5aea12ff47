-- ===== src/Pager/Init.antt =====
-- What `init_memory_metadata` leaves.
use virtual_memory_simulatio.Base.{ℕ, ◌+◌, ◌-◌, ◌≤◌, ◌<◌, ◌≡◌, refl, true, [], arith}
use virtual_memory_simulatio.Memory.{
  null, sizeof_page, sizeof_block, sizeof_metadata, physical_size, page, metadata, store, MemState,
  ok,
}
use virtual_memory_simulatio.Memory.Store.{store_self, copy_out-ok}
use virtual_memory_simulatio.Pager.{unassign_pg, mem_meta, init_memory_metadata}
use virtual_memory_simulatio.Pager.Layout.{IsLaidOut}

-- The state after `init_memory_metadata`.
abbrev pub fresh : ℕ → ℕ → MemState → MemState
fresh page_size address s = record {
  initialized = true;
  meta = record (mem_meta page_size address) { page_list_head = address + sizeof_metadata };
  mem =
      store (address + sizeof_metadata)
        (page (unassign_pg (address + sizeof_metadata) (address + physical_size - 1) null))
        (store address (metadata (mem_meta page_size address)) s.mem);
}

pub init_memory_metadata-ok :
    (page_size address : ℕ) (s : MemState)
    → init_memory_metadata page_size address s ≡ ok tt (fresh page_size address s)
unfolding init_memory_metadata
init_memory_metadata-ok page_size address s =
    let s0 : MemState = record s { meta = mem_meta page_size address } in
    let m0 = metadata (mem_meta page_size address) in
    let s1 : MemState = record s0 { mem = store address m0 s.mem } in
    rw (
      copy_out-ok s0 address m0 (omega arith) (omega arith),
      copy_out-ok s1 (address + sizeof_metadata)
          (page (unassign_pg (address + sizeof_metadata) (address + physical_size - 1) null))
          (omega arith) (omega arith),
    )

pub fresh-IsLaidOut :
    (page_size address : ℕ) (s : MemState)
    → 0 < address
    → sizeof_page + sizeof_block ≤ page_size
    → IsLaidOut (fresh page_size address s) []
fresh-IsLaidOut page_size address s p large = record {
  ready = refl;
  nonnull = p;
  head = refl;
  pages = store_self _ _ _;
  room = omega arith;
  large = large;
}

-- init_memory_metadata succeeds from any state and leaves an empty page list, one unassigned page
-- that takes up all of the memory behind the metadata, if PHYSICAL_MEMORY is not at NULL and a
-- page holds at least the headers of a page and of a block.
pub init_memory_metadata-IsLaidOut :
    (page_size address : ℕ) (s : MemState)
    → 0 < address
    → sizeof_page + sizeof_block ≤ page_size
    → (t : MemState) × (init_memory_metadata page_size address s ≡ ok tt t) × IsLaidOut t []
init_memory_metadata-IsLaidOut page_size address s p large = (
  fresh page_size address s,
  init_memory_metadata-ok page_size address s,
  fresh-IsLaidOut page_size address s p large,
)
