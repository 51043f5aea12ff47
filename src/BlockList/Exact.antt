-- ===== src/BlockList/Exact.antt =====
-- `allocate_block` when the unallocated block has exactly the size that is asked for.
use virtual_memory_simulatio.Base.{
  ℕ, pos, ◌+◌, ◌≤◌, ◌<◌, ◌≡◌, refl, some, List, arith, length, ==_refl,
}
use virtual_memory_simulatio.Memory.{
  Block, Page, allocated, null, sizeof_block, sizeof_page, block, page, store, physical_size,
  MemState, ok,
}
use virtual_memory_simulatio.Memory.Store.{store_self, store-Apart, load_page-ok, copy_out-ok}
use virtual_memory_simulatio.BlockList.{alloc_blk, take_block, take_whole, allocate_block}
use virtual_memory_simulatio.BlockList.Layout.{span, Blocks}
use virtual_memory_simulatio.BlockList.Walk.{block_loop-take}

-- The block at `f` is allocated, with `size` bytes of data behind its header, and the page `q` still
-- stands at `f + size`: the data reach into its header.
pub record TakenWhole (u : MemState) (f size : ℕ) (q : Page) : Type 0 where
  pub blk : Block
  pub there : u.mem f ≡ some (block blk)
  pub state : blk.state ≡ allocated
  pub data_size : blk.data_size ≡ size
  pub total_size : blk.total_size ≡ pos (size + 40)
  pub block_address : blk.block_address ≡ f
  pub data_address : blk.data_address ≡ f + 40
  pub last : blk.next ≡ null
  pub behind : u.mem (f + size) ≡ some (page q)
  pub overlap : blk.data_address + blk.data_size ≡ (f + size) + 40

-- When the unallocated block has exactly size bytes, allocate_block takes it whole: it returns the
-- address 40 bytes behind the block's address, writes the header of an allocated last block whose
-- data_size is size and whose total_size is size + 40 in place of the unallocated one, and counts
-- size + 40 bytes for the page. The data area then ends 40 bytes behind the end of the block,
-- where another page begins: the header of that page stands there as before, and the data area
-- reaches into it. Conditions: the page and its block list are laid out in the physical memory,
-- which is not at NULL, a page stands behind the block, a block's header fits into size bytes, and
-- the fuel is enough.
pub allocate_block_exact :
    (size : ℕ) (pg q : Page) (ns : List ℕ) (fuel : ℕ) (s : MemState)
    → s.mem pg.start_address ≡ some (page pg)
    → pg.block_list_head ≡ pg.start_address + sizeof_page
    → Blocks s.mem pg.block_list_head ns size
    → s.mem (pg.block_list_head + span ns + size) ≡ some (page q)
    → 0 < s.meta.address
    → s.meta.address ≤ pg.start_address
    → pg.block_list_head + span ns + size ≤ s.meta.address + physical_size
    → sizeof_block ≤ size
    → length ns < fuel
    → let f = pg.block_list_head + span ns in
      (u : MemState) × (allocate_block fuel size pg.start_address s ≡ ok (some (f + 40)) u)
      × TakenWhole u f size q
      × (u.mem pg.start_address
          ≡ some (page (record pg { size_of_allocated = pg.size_of_allocated + (size + 40) })))
unfolding allocate_block take_block take_whole
allocate_block_exact size pg q ns fuel s e hd h behind p lo hi room fl =
    let f = pg.block_list_head + span ns in
    let b = block (alloc_blk size f null) in
    let s1 : MemState = record s { mem = store f b s.mem } in
    let pg' : Page = record pg {
      size_of_allocated = pg.size_of_allocated + (size + sizeof_block);
    } in
    (
      record s1 { mem = store pg.start_address (page pg') s1.mem },
      rw
          (
            load_page-ok s pg.start_address e,
            block_loop-take size pg s fuel null pg.block_list_head ns size _ h (omega arith) fl
                (omega arith) refl,
            ==_refl size,
            copy_out-ok s f b (omega arith) (omega arith),
            copy_out-ok s1 pg.start_address (page pg') (omega arith) (omega arith),
          )
          refl,
      record {
        blk = alloc_blk size f null;
        there =
            store-Apart pg.start_address (page pg') s1.mem f b (store_self f b s.mem) (omega arith)
              (omega arith) (omega arith);
        state = refl;
        data_size = refl;
        total_size = refl;
        block_address = refl;
        data_address = refl;
        last = refl;
        behind =
            store-Apart pg.start_address (page pg') s1.mem (f + size) (page q)
              (store-Apart f b s.mem (f + size) (page q) behind (omega arith) (omega arith)
                (omega arith))
              (omega arith) (omega arith) (omega arith);
        overlap = omega arith;
      },
      store_self pg.start_address (page pg') s1.mem,
    )
