-- ===== src/BlockList/Allocate.antt =====
-- `allocate_block` on a page whose block list is laid out, when a block of the size that is asked
-- for and the header of one more block fit into the unallocated end of the page.
use virtual_memory_simulatio.Base.{
  ℕ, suc, ◌+◌, ◌-◌, ◌*◌, ◌≤◌, ◌<◌, ◌≡◌, refl, inr, none, some, List, [], ◌∷◌, ◌++◌, arith, length,
  ==_ne,
}
use virtual_memory_simulatio.Memory.{
  Page, null, sizeof_block, sizeof_page, Object, block, page, size_of, Memory, store, physical_size,
  MemState, ok,
}
use virtual_memory_simulatio.Memory.Store.{
  Apart, store-Apart, load_page-ok, copy_out-ok, size_of_pos,
}
use virtual_memory_simulatio.BlockList.{alloc_blk, unalloc_blk, take_block, split, allocate_block}
use virtual_memory_simulatio.BlockList.Layout.{
  span, free_blk, Blocks, split_store, Blocks-split, Blocks-store,
}
use virtual_memory_simulatio.BlockList.Walk.{
  last_of, relink, relink-Blocks, relink-Apart, link_previous-ok, block_loop-none, block_loop-take,
}

-- The page with one more block counted.
abbrev pub counted : ℕ → Page → Page
counted size pg = record pg { size_of_allocated = pg.size_of_allocated + (size + sizeof_block) }

-- The memory after a block was split off at the end of the list `ns` of the page `pg`.
abbrev pub taken : ℕ → Page → ℕ → List ℕ → ℕ → Memory → Memory
taken size pg a ns t m =
    store pg.start_address (page (counted size pg))
      (split_store size (a + span ns) t (relink a ns m))

module _ (size : ℕ) (pg : Page) (a : ℕ) (ns : List ℕ) (t : ℕ) where
  pub split-ok :
      (s : MemState)
      → Blocks s.mem a ns t
      → 0 < a
      → s.meta.address ≤ pg.start_address
      → pg.start_address + sizeof_page ≤ a
      → a + span ns + (size + 2 * sizeof_block) ≤ s.meta.address + physical_size
      → split size pg (last_of null a ns) (free_blk (a + span ns) t) s
        ≡ ok (some (a + span ns + sizeof_block)) (record s { mem = taken size pg a ns t s.mem })
  unfolding split
  split-ok s h p lo start hi =
      let f = a + span ns in
      let s1 : MemState = record s { mem = relink a ns s.mem } in
      let b1 = block (alloc_blk size f (f + (size + sizeof_block))) in
      let s2 : MemState = record s { mem = store f b1 s1.mem } in
      let b2 = block (unalloc_blk size (free_blk f t)) in
      let s3 : MemState = record s { mem = store (f + (size + sizeof_block)) b2 s2.mem } in
      rw (
        link_previous-ok s a ns t h p (omega arith) (omega arith),
        copy_out-ok s1 f b1 (omega arith) (omega arith),
        copy_out-ok s2 (f + (size + sizeof_block)) b2 (omega arith) (omega arith),
        copy_out-ok s3 pg.start_address (page (counted size pg)) lo (omega arith),
      )

  -- The block list of the page after the split.
  pub taken-Blocks :
      (m : Memory)
      → Blocks m a ns t
      → pg.start_address + sizeof_page ≤ a
      → size + 2 * sizeof_block ≤ t
      → Blocks (taken size pg a ns t m) a (ns ++ size ∷ []) (t - (size + sizeof_block))
  taken-Blocks m h start fits =
      Blocks-store pg.start_address (page (counted size pg)) _ a (ns ++ size ∷ []) _
        (Blocks-split size (a + span ns) _ a ns t (relink-Blocks m a ns t h) refl (omega arith))
        (inr start)

  -- A struct outside the page is not touched.
  pub taken-Apart :
      (m : Memory) (x : ℕ) (o : Object)
      → Blocks m a ns t
      → pg.start_address + sizeof_page ≤ a
      → size + 2 * sizeof_block ≤ t
      → Apart x (size_of o) pg.start_address (a + span ns + t - pg.start_address)
      → m x ≡ some o
      → taken size pg a ns t m x ≡ some o
  taken-Apart m x o h start fits d e =
      let p = size_of_pos o in
      store-Apart _ _ _ x o
        (store-Apart _ _ _ x o
          (store-Apart _ _ _ x o (relink-Apart m a ns t x o h (omega arith) p e) (omega arith) p
            (omega arith))
          (omega arith) p (omega arith))
        (omega arith) p (omega arith)

module _ (size : ℕ) (pg : Page) (ns : List ℕ) (t : ℕ) (fuel : ℕ) (s : MemState)
    (e : s.mem pg.start_address ≡ some (page pg)) (h : Blocks s.mem pg.block_list_head ns t)
    (p : 0 < pg.block_list_head) where
  pub allocate_block-some :
      s.meta.address ≤ pg.start_address
      → pg.start_address + sizeof_page ≤ pg.block_list_head
      → size + 2 * sizeof_block ≤ t
      → pg.block_list_head + span ns + t ≤ s.meta.address + physical_size
      → length ns < fuel
      → allocate_block fuel size pg.start_address s
        ≡ ok
            (some (pg.block_list_head + span ns + sizeof_block))
            (record s { mem = taken size pg pg.block_list_head ns t s.mem })
  unfolding allocate_block take_block
  allocate_block-some lo start fits hi f =
      rw
        (
          load_page-ok s pg.start_address e,
          block_loop-take size pg s fuel null pg.block_list_head ns t _ h p f (omega arith) refl,
          ==_ne t size (omega arith),
        )
        (split-ok size pg pg.block_list_head ns t s h p lo start (omega arith))

  -- When the unallocated end of the page is too small, nothing changes.
  pub allocate_block-none :
      suc (length ns) < fuel → t < size → allocate_block fuel size pg.start_address s ≡ ok none s
  unfolding allocate_block
  allocate_block-none f lt =
      rw (load_page-ok s pg.start_address e)
        (block_loop-none size pg s fuel null pg.block_list_head ns t h p f lt)
