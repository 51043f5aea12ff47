-- ===== src/Pager.antt =====
-- `init_memory_metadata` and `assign_page` of memory_manager.c. `assign_page` reads two locals
-- that it never sets, `tmp_prev` and the field `next` of the new block: what these hold is the
-- argument `Garbage`. Its loop runs on fuel, a round for each page of the list.
mod Tests
pub mod Layout
pub mod Init
pub mod Walk
pub mod Split
pub mod Last
use virtual_memory_simulatio.Base.{
  ℕ, zero, suc, ◌+◌, ◌-◌, ◌/◌, Bool, true, false, none, ◌==◌, if◌then◌else◌, ℤ, pos, sub_ℕ,
}
use virtual_memory_simulatio.Memory.{
  RequestId, unknown, BlockState, unallocated, PageState, assigned, unassigned, Block, Page,
  MemoryMetadata, null, tid_max, sizeof_page, sizeof_block, sizeof_metadata, physical_size, page,
  block, metadata, MemState, Fault, out_of_fuel, Cmd, pure, fail, ok, and_then, ◌>>=◌, ◌>>◌,
  copy_out, load_page,
}

-- What the uninitialised locals of one call of `assign_page` hold.
pub record Garbage : Type 0 where
  pub tmp_prev : ℕ
  pub block_next : ℕ

abbrev pub is_unassigned : PageState → Bool
is_unassigned assigned = false
is_unassigned unassigned = true

-- The one unallocated block of a new page.
abbrev pub new_block : Garbage → ℕ → ℕ → Block
new_block g page_size start_address = record {
  state = unallocated;
  data_size = 0;
  total_size = sub_ℕ page_size sizeof_page;
  block_address = start_address + sizeof_page;
  data_address = start_address + sizeof_page + sizeof_block;
  next = g.block_next;
}

abbrev pub assign_pg : RequestId → ℕ → ℕ → ℕ → ℕ → Page
assign_pg request_id tid page_size start_address next = record {
  state = assigned;
  request_id = request_id;
  tid = tid;
  size_of_allocated = sizeof_page;
  start_address = start_address;
  end_address = start_address + page_size - 1;
  block_list_head = start_address + sizeof_page;
  next = next;
}

abbrev pub unassign_pg : ℕ → ℕ → ℕ → Page
unassign_pg start_address end_address next = record {
  state = unassigned;
  request_id = unknown;
  tid = tid_max;
  size_of_allocated = sizeof_page;
  start_address = start_address;
  end_address = end_address;
  block_list_head = null;
  next = next;
}

-- `memcpy` of a page to its own `start_address`, and of a block to its `block_address`.
abbrev pub put_page : Page → Cmd (Unit {0})
put_page pg = copy_out pg.start_address (page pg)

abbrev pub put_block : Block → Cmd (Unit {0})
put_block blk = copy_out blk.block_address (block blk)

-- The page list behind `tmp_prev` leads to the page that is split.
pub link_previous : ℕ → ℕ → Cmd (Unit {0})
link_previous tmp_prev start_address =
    if tmp_prev == null
    then pure tt
    else do prev_pg ← load_page tmp_prev; put_page (record prev_pg { next = start_address })

-- The unassigned page has the size of one page: it is assigned whole.
pub assign_whole : Garbage → RequestId → ℕ → Page → Cmd (Unit {0})
assign_whole g request_id tid pg s =
    let size = s.meta.page_size in
    (do
      put_block (new_block g size pg.start_address)
      put_page (assign_pg request_id tid size pg.start_address pg.next))
      s

-- The unassigned page is split into an assigned and an unassigned page.
pub assign_split : Garbage → RequestId → ℕ → ℕ → Page → Cmd (Unit {0})
unfolding link_previous
assign_split g request_id tid tmp_prev pg s =
    let size = s.meta.page_size in
    let rest = pg.start_address + size - 1 + 1 in
    (do
      put_block (new_block g size pg.start_address)
      link_previous tmp_prev pg.start_address
      put_page (assign_pg request_id tid size pg.start_address rest)
      put_page (unassign_pg rest pg.end_address pg.next))
      s

-- The difference of the addresses is negative or 0 where `-` on ℕ gives 0, and no page has size 0.
pub assign_found : Garbage → RequestId → ℕ → ℕ → Page → Cmd (Unit {0})
unfolding assign_whole assign_split
assign_found g request_id tid tmp_prev pg s =
    if pg.end_address + 1 - pg.start_address == s.meta.page_size
    then assign_whole g request_id tid pg s
    else assign_split g request_id tid tmp_prev pg s

-- The `while` loop of `assign_page`. At the end of the list it returns and has done nothing.
pub assign_loop : ℕ → Garbage → RequestId → ℕ → ℕ → ℕ → Cmd (Unit {0})
unfolding assign_found
assign_loop zero g request_id tid tmp_prev tmp_curr = fail out_of_fuel
assign_loop (suc fuel) g request_id tid tmp_prev tmp_curr =
    if tmp_curr == null
    then pure tt
    else (load_page tmp_curr >>= λ pg.
        if is_unassigned pg.state
        then assign_found g request_id tid tmp_prev pg
        else assign_loop fuel g request_id tid tmp_curr pg.next)

pub assign_page : ℕ → Garbage → RequestId → ℕ → Cmd (Unit {0})
unfolding assign_loop
assign_page fuel g request_id tid s =
    assign_loop fuel g request_id tid g.tmp_prev s.meta.page_list_head s

-- The metadata that `init_memory_metadata` copies to the start of PHYSICAL_MEMORY at `address`;
-- `page_size` is what `sysconf(_SC_PAGE_SIZE)` returns.
abbrev pub mem_meta : ℕ → ℕ → MemoryMetadata
mem_meta page_size address = record {
  page_size = page_size;
  number_pages = physical_size / page_size;
  address = address;
  page_list_head = null;
}

-- `init_memory_metadata`, less the swap file that it opens and no code uses.
unfoldable pub init_memory_metadata : ℕ → ℕ → Cmd (Unit {0})
init_memory_metadata page_size address s =
    let first = address + sizeof_metadata in
    (do
      copy_out address (metadata (mem_meta page_size address))
      put_page (unassign_pg first (address + physical_size - 1) null)
      λ t. ok tt (record t {
        meta = record (mem_meta page_size address) { page_list_head = first };
        initialized = true;
      }))
      (record s { meta = mem_meta page_size address })
