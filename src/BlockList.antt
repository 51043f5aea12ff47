-- ===== src/BlockList.antt =====
-- `allocate_block` of memory_manager.c: the first unallocated block of a page that is large enough
-- by the code's test is split or taken whole. The loop runs on fuel, a round for each block.
mod Tests
pub mod Layout
pub mod Walk
pub mod Allocate
pub mod Overrun
pub mod Exact
use virtual_memory_simulatio.Base.{
  ℕ, zero, suc, ◌+◌, Bool, true, false, ◌&&◌, Option, none, some, ◌==◌, if◌then◌else◌, ℤ, pos,
  minus, at_least, equals,
}
use virtual_memory_simulatio.Memory.{
  BlockState, unallocated, allocated, Block, Page, null, sizeof_block, MemState, out_of_fuel, Cmd,
  pure, fail, ok, and_then, ◌>>=◌, ◌>>◌, load_page, load_block,
}
use virtual_memory_simulatio.Pager.{put_page, put_block}

abbrev pub is_unallocated : BlockState → Bool
is_unallocated unallocated = true
is_unallocated allocated = false

-- The allocated block that replaces the block at `block_address`.
abbrev pub alloc_blk : ℕ → ℕ → ℕ → Block
alloc_blk size block_address next = record {
  state = allocated;
  data_size = size;
  total_size = pos (size + sizeof_block);
  block_address = block_address;
  data_address = block_address + sizeof_block;
  next = next;
}

-- The unallocated block behind it, when the block `blk` is split.
abbrev pub unalloc_blk : ℕ → Block → Block
unalloc_blk size blk = record {
  state = unallocated;
  data_size = 0;
  total_size = minus blk.total_size (size + sizeof_block);
  block_address = blk.block_address + (size + sizeof_block);
  data_address = blk.block_address + (size + sizeof_block) + sizeof_block;
  next = blk.next;
}

-- `current_page.size_of_allocated += alloc_blk.total_size`, copied to memory.
abbrev pub count_block : ℕ → Page → Cmd (Unit {0})
count_block size pg =
    put_page (record pg { size_of_allocated = pg.size_of_allocated + (size + sizeof_block) })

-- The block has exactly the size that is asked for: it is not split.
pub take_whole : ℕ → Page → Block → Cmd (Option ℕ)
take_whole size current_page blk = do
  put_block (alloc_blk size blk.block_address blk.next)
  count_block size current_page
  pure (some (blk.block_address + sizeof_block))

pub link_previous : ℕ → ℕ → Cmd (Unit {0})
link_previous tmp_prev block_address =
    if tmp_prev == null
    then pure tt
    else do prev_blk ← load_block tmp_prev; put_block (record prev_blk { next = block_address })

pub split : ℕ → Page → ℕ → Block → Cmd (Option ℕ)
unfolding link_previous
split size current_page tmp_prev blk = do
  link_previous tmp_prev blk.block_address
  put_block (alloc_blk size blk.block_address (blk.block_address + (size + sizeof_block)))
  put_block (unalloc_blk size blk)
  count_block size current_page
  pure (some (blk.block_address + sizeof_block))

pub take_block : ℕ → Page → ℕ → Block → Cmd (Option ℕ)
unfolding take_whole split
take_block size current_page tmp_prev blk =
    if equals blk.total_size size
    then take_whole size current_page blk
    else split size current_page tmp_prev blk

-- The `while` loop; `none` is the NULL that is returned when no block fits.
pub block_loop : ℕ → ℕ → Page → ℕ → ℕ → Cmd (Option ℕ)
unfolding take_block
block_loop zero size current_page tmp_prev tmp_curr = fail out_of_fuel
block_loop (suc fuel) size current_page tmp_prev tmp_curr =
    if tmp_curr == null
    then pure none
    else (load_block tmp_curr >>= λ blk.
        if is_unallocated blk.state && at_least blk.total_size size
        then take_block size current_page tmp_prev blk
        else block_loop fuel size current_page tmp_curr blk.next)

pub allocate_block : ℕ → ℕ → ℕ → Cmd (Option ℕ)
unfolding block_loop
allocate_block fuel size page_address = do
  current_page ← load_page page_address
  block_loop fuel size current_page null current_page.block_list_head
