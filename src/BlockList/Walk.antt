-- ===== src/BlockList/Walk.antt =====
-- The loop of `allocate_block` over a laid out block list: which block it stops at, and what the
-- copy of the block before that one does.
use virtual_memory_simulatio.Base.{
  ℕ, zero, suc, ◌+◌, ◌≤◌, ◌<◌, ◌≡◌, refl, false, true, none, some, List, [], ◌∷◌, arith, length,
  at_least, ◌&&◌, ==_ne, ◌∙◌, lt→leb, le→leb,
}
use virtual_memory_simulatio.Memory.{
  Block, Page, null, sizeof_block, Object, block, size_of, Memory, store, physical_size, MemState,
  ok,
}
use virtual_memory_simulatio.Memory.Store.{
  Apart, store_self, store-Apart, load_block-ok, copy_out-ok,
}
use virtual_memory_simulatio.BlockList.{
  alloc_blk, take_block, block_loop, link_previous, is_unallocated,
}
use virtual_memory_simulatio.BlockList.Layout.{span, free_blk, Blocks}

-- The address of the block before the unallocated one, `prev` if there is none.
abbrev pub last_of : ℕ → ℕ → List ℕ → ℕ
last_of prev a [] = prev
last_of prev a (n ∷ ns) = last_of a (a + (n + sizeof_block)) ns

-- That block.
abbrev pub last_block : ℕ → ℕ → List ℕ → Block
last_block a n [] = alloc_blk n a (a + (n + sizeof_block))
last_block a n (k ∷ ns) = last_block (a + (n + sizeof_block)) k ns

-- It is the last allocated one of the list, in memory and linked to the unallocated block.
pub record IsLast (m : Memory) (a end : ℕ) (last : ℕ) (b : Block) : Type 0 where
  pub place : b.block_address ≡ last
  pub linked : end ≡ b.next
  pub held : m b.block_address ≡ some (block b)
  pub above : a ≤ b.block_address
  pub below : b.block_address + sizeof_block ≤ end

last_block-IsLast :
    (m : Memory) (prev a n : ℕ) (ns : List ℕ) (t end : ℕ)
    → Blocks m a (n ∷ ns) t
    → end ≡ a + span (n ∷ ns)
    → IsLast m a end (last_of prev a (n ∷ ns)) (last_block a n ns)
last_block-IsLast m prev a n [] t end (e, h) q = record {
  place = refl;
  linked = omega arith;
  held = e;
  above = omega arith;
  below = omega arith;
}
last_block-IsLast m prev a n (k ∷ ns) t end (e, h) q =
    let r = last_block-IsLast m a (a + (n + sizeof_block)) k ns t end h (omega arith) in
    record {
      place = r.place;
      linked = r.linked;
      held = r.held;
      above = omega (arith, r.above);
      below = r.below;
    }

-- Copying that block back keeps the list.
Blocks-relink :
    (m : Memory) (a n : ℕ) (ns : List ℕ) (t : ℕ)
    → Blocks m a (n ∷ ns) t
    → Blocks (store (last_block a n ns).block_address (block (last_block a n ns)) m) a (n ∷ ns) t
Blocks-relink m a n [] t (e, h) = (
  store_self a _ m,
  store-Apart a _ m (a + (n + sizeof_block)) (block (free_blk (a + (n + sizeof_block)) t)) h
      (omega arith) (omega arith) (omega arith),
)
Blocks-relink m a n (k ∷ ns) t (e, h) =
    let l = last_block-IsLast m 0 (a + (n + sizeof_block)) k ns t _ h refl in
    (
      store-Apart _ _ m a (block (alloc_blk n a (a + (n + sizeof_block)))) e
          (omega (arith, l.above)) (omega arith) (omega arith),
      Blocks-relink m (a + (n + sizeof_block)) k ns t h,
    )

-- The memory after `link_previous`: only the previous block, if there is one, is copied back.
abbrev pub relink : ℕ → List ℕ → Memory → Memory
relink a [] m = m
relink a (n ∷ ns) m = store (last_block a n ns).block_address (block (last_block a n ns)) m

pub relink-Blocks :
    (m : Memory) (a : ℕ) (ns : List ℕ) (t : ℕ) → Blocks m a ns t → Blocks (relink a ns m) a ns t
relink-Blocks m a [] t h = h
relink-Blocks m a (n ∷ ns) t h = Blocks-relink m a n ns t h

-- What lies apart from the blocks is not touched.
pub relink-Apart :
    (m : Memory) (a : ℕ) (ns : List ℕ) (t x : ℕ) (o : Object)
    → Blocks m a ns t
    → Apart x (size_of o) a (span ns)
    → 0 < size_of o
    → m x ≡ some o
    → relink a ns m x ≡ some o
relink-Apart m a [] t x o h d p e = e
relink-Apart m a (n ∷ ns) t x o h d p e =
    let l = last_block-IsLast m 0 a n ns t _ h refl in
    store-Apart _ _ m x o e (omega (arith, l.above, l.below)) p (omega arith)

pub link_previous-ok :
    (s : MemState) (a : ℕ) (ns : List ℕ) (t : ℕ)
    → Blocks s.mem a ns t
    → 0 < a
    → s.meta.address ≤ a
    → a + span ns ≤ s.meta.address + physical_size
    → link_previous (last_of null a ns) (a + span ns) s
      ≡ ok tt (record s { mem = relink a ns s.mem })
unfolding link_previous
link_previous-ok s a [] t h p lo hi = refl
link_previous-ok s a (n ∷ ns) t h p lo hi =
    let l = last_block-IsLast s.mem 0 a n ns t _ h refl in
    rw
      (
        ← l.place,
        ==_ne (last_block a n ns).block_address 0 (omega (arith, l.above)),
        load_block-ok s (last_block a n ns).block_address l.held,
        l.linked,
      )
      (copy_out-ok s (last_block a n ns).block_address _ (omega (arith, l.above))
        (omega (arith, l.below)))

module _ (size : ℕ) (pg : Page) (s : MemState) where
  block_loop-null : (fuel prev : ℕ) → block_loop (suc fuel) size pg prev null s ≡ ok none s
  unfolding block_loop
  block_loop-null fuel prev = refl

  block_loop-skip :
      (fuel prev a : ℕ) {b : Block}
      → s.mem a ≡ some (block b)
      → 0 < a
      → (is_unallocated b.state && at_least b.total_size size) ≡ false
      → block_loop (suc fuel) size pg prev a s ≡ block_loop fuel size pg a b.next s
  unfolding block_loop
  block_loop-skip fuel prev a e p miss = rw (==_ne a 0 (omega arith), load_block-ok s a e, miss)

  block_loop-hit :
      (fuel prev a : ℕ) {b : Block}
      → s.mem a ≡ some (block b)
      → 0 < a
      → (is_unallocated b.state && at_least b.total_size size) ≡ true
      → block_loop (suc fuel) size pg prev a s ≡ take_block size pg prev b s
  unfolding block_loop
  block_loop-hit fuel prev a e p hit = rw (==_ne a 0 (omega arith), load_block-ok s a e, hit)

  pub block_loop-none :
      (fuel prev a : ℕ) (ns : List ℕ) (t : ℕ)
      → Blocks s.mem a ns t
      → 0 < a
      → suc (length ns) < fuel
      → t < size
      → block_loop fuel size pg prev a s ≡ ok none s
  block_loop-none zero prev a ns t h p f lt = absurd (omega arith)
  block_loop-none (suc zero) prev a ns t h p f lt = absurd (omega arith)
  block_loop-none (suc (suc fuel)) prev a [] t h p f lt =
      block_loop-skip (suc fuel) prev a h p (lt→leb size t lt) ∙ block_loop-null fuel a
  block_loop-none (suc (suc fuel)) prev a (n ∷ ns) t (e, h) p f lt =
      block_loop-skip (suc fuel) prev a e p refl
      ∙ block_loop-none (suc fuel) a (a + (n + sizeof_block)) ns t h (omega arith) (omega arith) lt

  pub block_loop-take :
      (fuel prev a : ℕ) (ns : List ℕ) (t end : ℕ)
      → Blocks s.mem a ns t
      → 0 < a
      → length ns < fuel
      → size ≤ t
      → end ≡ a + span ns
      → block_loop fuel size pg prev a s ≡ take_block size pg (last_of prev a ns) (free_blk end t) s
  block_loop-take zero prev a ns t end h p f le q = absurd (omega arith)
  block_loop-take (suc fuel) prev a [] t end h p f le q =
      let q' : end ≡ a = omega arith in rw q' (block_loop-hit fuel prev a h p (le→leb size t le))
  block_loop-take (suc fuel) prev a (n ∷ ns) t end (e, h) p f le q =
      block_loop-skip fuel prev a e p refl
      ∙ block_loop-take fuel a (a + (n + sizeof_block)) ns t end h (omega arith) (omega arith) le
          (omega arith)
