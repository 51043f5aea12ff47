-- ===== src/BlockList/Overrun.antt =====
-- `allocate_block` when a block passes the code's test for its size, but has no room for the
-- headers that the split writes.
use virtual_memory_simulatio.Base.{
  ℕ, ◌+◌, ◌*◌, ◌≤◌, ◌<◌, ◌≡◌, refl, inl, inr, some, List, arith, length, ==_ne, ◌==◌, Bool-cases,
}
use virtual_memory_simulatio.Memory.{
  Page, null, sizeof_block, sizeof_page, block, page, store, physical_size, MemState, ok, fault,
  bad_read, load_page,
}
use virtual_memory_simulatio.Memory.Store.{
  store_self, store-Apart, store_overlap, store-none, load_page-none, load_page-block, load_page-ok,
}
use virtual_memory_simulatio.BlockList.{alloc_blk, unalloc_blk, take_block, allocate_block}
use virtual_memory_simulatio.BlockList.Layout.{span, free_blk, Blocks}
use virtual_memory_simulatio.BlockList.Walk.{relink, relink-Apart, block_loop-take}
use virtual_memory_simulatio.BlockList.Allocate.{taken, counted, split-ok}

-- No intact page header stands at `x`.
abbrev pub IsLost : MemState → ℕ → Type 0
IsLost s x = load_page x s ≡ fault bad_read

module _ (size : ℕ) (pg : Page) (a : ℕ) (ns : List ℕ) (t : ℕ) where
  -- The header that the split writes at the end of the page destroys what stands behind it.
  taken-IsLost :
      (s : MemState) (p : Page)
      → Blocks s.mem a ns t
      → s.mem (a + span ns + t) ≡ some (page p)
      → pg.start_address + sizeof_page ≤ a
      → sizeof_block ≤ t
      → size ≤ t
      → t < size + 2 * sizeof_block
      → IsLost (record s { mem = taken size pg a ns t s.mem }) (a + span ns + t)
  taken-IsLost s p h e start head fits tight =
      let f = a + span ns in
      let x = f + t in
      let m1 = store f (block (alloc_blk size f (f + (size + sizeof_block)))) (relink a ns s.mem) in
      let u = unalloc_blk size (free_blk f t) in
      let held : m1 x ≡ some (page p) =
        store-Apart f _ _ x (page p)
          (relink-Apart s.mem a ns t x (page p) h (omega arith) (omega arith) e) (omega arith)
          (omega arith) (omega arith) in
      elim (Bool-cases (x == f + (size + sizeof_block))) [
        | inl same ↦
            let q : x ≡ f + (size + sizeof_block) = ground arith in
            load_page-block _ x (
              store-Apart pg.start_address (page (counted size pg)) _ x (block u)
                (rw q (store_self (f + (size + sizeof_block)) (block u) m1)) (omega arith)
                (omega arith) (omega arith))
        | inr other ↦ load_page-none _ x (
            store-none pg.start_address (page (counted size pg)) _ x
              (store_overlap (f + (size + sizeof_block)) (block u) m1 x (ground arith) (omega arith)
                (λ o w. let q : o ≡ page p = cc in rw q (omega arith)))
              (omega arith))
      ]

-- allocate_block does not count a new block's own header: when the unallocated block of a page has
-- more than size bytes but fewer than size and two headers, it reports success, and the header of
-- the page behind is gone. Conditions: the page and its block list are laid out, the 80 bytes
-- behind the page lie in the physical memory, which is not at NULL, a page header stands there,
-- the unallocated block has room for its header, and the fuel is enough.
pub allocate_block_tight :
    (size : ℕ) (pg : Page) (ns : List ℕ) (t fuel : ℕ) (s : MemState) (behind : Page)
    → s.mem pg.start_address ≡ some (page pg)
    → pg.block_list_head ≡ pg.start_address + sizeof_page
    → Blocks s.mem pg.block_list_head ns t
    → s.mem (pg.block_list_head + span ns + t) ≡ some (page behind)
    → pg.block_list_head + span ns + t + 2 * sizeof_block ≤ s.meta.address + physical_size
    → 0 < s.meta.address
    → s.meta.address ≤ pg.start_address
    → sizeof_block ≤ t
    → size < t
    → t < size + 2 * sizeof_block
    → length ns < fuel
    → (u : MemState) × (allocate_block fuel size pg.start_address s
        ≡ ok (some (pg.block_list_head + span ns + sizeof_block)) u)
      × IsLost u (pg.block_list_head + span ns + t)
unfolding allocate_block take_block
allocate_block_tight size pg ns t fuel s behind e hd h e' hi p lo head less tight f =
    let a = pg.block_list_head in
    (
      record s { mem = taken size pg a ns t s.mem },
      rw
          (
            load_page-ok s pg.start_address e,
            block_loop-take size pg s fuel null a ns t _ h (omega arith) f (omega arith) refl,
            ==_ne t size (omega arith),
          )
          (split-ok size pg a ns t s h (omega arith) lo (omega arith) (omega arith)),
      taken-IsLost size pg a ns t s behind h e' (omega arith) head (omega arith) tight,
    )
