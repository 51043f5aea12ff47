-- ===== src/BlockList/Layout.antt =====
-- The block list of a page as the sizes of its allocated blocks, which lie one behind the other
-- and are followed by one unallocated block.
use virtual_memory_simulatio.Base.{
  ℕ, ◌+◌, ◌-◌, ◌≤◌, ◌≡◌, some, List, [], ◌∷◌, ◌++◌, arith, pos, sub_ℕ,
}
use virtual_memory_simulatio.Memory.{
  unallocated, Block, null, sizeof_block, Object, block, size_of, Memory, store,
}
use virtual_memory_simulatio.Memory.Store.{Apart, store_self, store-Apart, size_of_pos}
use virtual_memory_simulatio.BlockList.{alloc_blk, unalloc_blk}

-- The bytes of the allocated blocks, headers included.
abbrev pub span : List ℕ → ℕ
span [] = 0
span (n ∷ ns) = (n + sizeof_block) + span ns

pub span-append : (ns : List ℕ) (n : ℕ) → span (ns ++ n ∷ []) ≡ span ns + (n + sizeof_block)
span-append [] n = omega arith
span-append (k ∷ ns) n = omega (arith, span-append ns n)

-- The unallocated block of `t` bytes at the end of a page's list.
abbrev pub free_blk : ℕ → ℕ → Block
free_blk a t = record {
  state = unallocated;
  data_size = 0;
  total_size = pos t;
  block_address = a;
  data_address = a + sizeof_block;
  next = null;
}

pub sub_ℕ-pos : (a b : ℕ) → b ≤ a → sub_ℕ a b ≡ pos (a - b)
sub_ℕ-pos a b h = ground arith

-- From `a` on lie allocated blocks of the sizes `ns` and then `t` unallocated bytes.
abbrev pub Blocks : Memory → ℕ → List ℕ → ℕ → Type 0
Blocks m a [] t = m a ≡ some (block (free_blk a t))
Blocks m a (n ∷ ns) t =
    (m a ≡ some (block (alloc_blk n a (a + (n + sizeof_block)))))
    × Blocks m (a + (n + sizeof_block)) ns t

-- A copy to bytes apart from the headers keeps the list.
pub Blocks-store :
    (b : ℕ) (o : Object) (m : Memory) (a : ℕ) (ns : List ℕ) (t : ℕ)
    → Blocks m a ns t
    → Apart a (span ns + sizeof_block) b (size_of o)
    → Blocks (store b o m) a ns t
Blocks-store b o m a [] t h d =
    store-Apart b o m a (block (free_blk a t)) h (omega arith) (omega arith) (size_of_pos o)
Blocks-store b o m a (n ∷ ns) t (e, h) d = (
  store-Apart b o m a (block (alloc_blk n a (a + (n + sizeof_block)))) e (omega arith) (omega arith)
      (size_of_pos o),
  Blocks-store b o m (a + (n + sizeof_block)) ns t h (omega arith),
)

-- The memory after the two blocks of a split are copied out.
abbrev pub split_store : ℕ → ℕ → ℕ → Memory → Memory
split_store size f t m =
    store (f + (size + sizeof_block)) (block (unalloc_blk size (free_blk f t)))
      (store f (block (alloc_blk size f (f + (size + sizeof_block)))) m)

unalloc_blk-free :
    (size f t : ℕ)
    → size + sizeof_block ≤ t
    → unalloc_blk size (free_blk f t)
      ≡ free_blk (f + (size + sizeof_block)) (t - (size + sizeof_block))
unalloc_blk-free size f t h = rw (sub_ℕ-pos t (size + sizeof_block) h)

-- A split appends a block of the size that was asked for.
pub Blocks-split :
    (size f : ℕ) (m : Memory) (a : ℕ) (ns : List ℕ) (t : ℕ)
    → Blocks m a ns t
    → f ≡ a + span ns
    → size + sizeof_block ≤ t
    → Blocks (split_store size f t m) a (ns ++ size ∷ []) (t - (size + sizeof_block))
Blocks-split size f m a [] t h e fits =
    let q : f ≡ a = omega arith in
    rw (← q) (
      store-Apart _ _ _ f (block (alloc_blk size f (f + (size + sizeof_block)))) (store_self f _ m)
          (omega arith) (omega arith) (omega arith),
      rw (unalloc_blk-free size f t fits) (store_self _ _ _),
    )
Blocks-split size f m a (n ∷ ns) t (e, h) q fits =
    let hd = block (alloc_blk n a (a + (n + sizeof_block))) in
    (
      store-Apart _ _ _ a hd (store-Apart _ _ m a hd e (omega arith) (omega arith) (omega arith))
          (omega arith) (omega arith) (omega arith),
      Blocks-split size f m (a + (n + sizeof_block)) ns t h (omega arith) fits,
    )
