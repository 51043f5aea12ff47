-- ===== src/BlockList/Tests.antt =====
-- `allocate_block` on a page whose unallocated block is only a little larger than the request.
use virtual_memory_simulatio.Base.{ℕ, ◌+◌, ◌≡◌, refl, [], true, some, arith}
use virtual_memory_simulatio.Memory.{MemState, Page, assigned, threadreq, page, block, store, ok}
use virtual_memory_simulatio.Memory.Tests.{blank}
use virtual_memory_simulatio.BlockList.{allocate_block}
use virtual_memory_simulatio.BlockList.Layout.{free_blk}
use virtual_memory_simulatio.BlockList.Exact.{TakenWhole, allocate_block_exact}
use virtual_memory_simulatio.BlockList.Overrun.{IsLost, allocate_block_tight}

-- A page of 204 bytes at 4128, and the one behind it.
abbrev page_at : ℕ → Page
page_at a = record {
  state = assigned;
  request_id = threadreq;
  tid = 7;
  size_of_allocated = 64;
  start_address = a;
  end_address = a + 203;
  block_list_head = a + 64;
  next = a + 204;
}

abbrev small : MemState
small = record {
  initialized = true;
  meta = record { page_size = 204; number_pages = 41120; address = 4096; page_list_head = 4128 };
  mem =
      store 4128 (page (page_at 4128))
        (store 4192 (block (free_blk 4192 140)) (store 4332 (page (page_at 4332)) blank.mem));
}

small-page : small.mem 4128 ≡ some (page (page_at 4128))
unfolding store
small-page = refl

small-block : small.mem 4192 ≡ some (block (free_blk 4192 140))
unfolding store
small-block = refl

small-behind : small.mem 4332 ≡ some (page (page_at 4332))
unfolding store
small-behind = refl

allocate_block_tight_example :
    (u : MemState) × (allocate_block 10 100 4128 small ≡ ok (some 4232) u) × IsLost u 4332
allocate_block_tight_example =
    allocate_block_tight 100 (page_at 4128) [] 140 10 small (page_at 4332) small-page refl
      small-block small-behind (omega arith) (omega arith) (omega arith) (omega arith) (omega arith)
      (omega arith) (omega arith)

allocate_block_exact_example :
    (u : MemState) × (allocate_block 10 140 4128 small ≡ ok (some 4232) u)
    × TakenWhole u 4192 140 (page_at 4332)
    × (u.mem 4128 ≡ some (page (record (page_at 4128) { size_of_allocated = 244 })))
allocate_block_exact_example =
    allocate_block_exact 140 (page_at 4128) (page_at 4332) [] 10 small small-page refl small-block
      small-behind (omega arith) (omega arith) (omega arith) (omega arith) (omega arith)
