-- ===== src/Pager/Layout.antt =====
-- The page list as a list of views: assigned pages of one size that lie one behind the other, each
-- with its block list, and the unassigned rest of the memory behind them.
use virtual_memory_simulatio.Base.{
  ℕ, ◌+◌, ◌-◌, ◌*◌, length, ◌≤◌, ◌<◌, ◌≡◌, true, some, List, [], ◌∷◌, ◌++◌, arith,
}
use virtual_memory_simulatio.Memory.{
  RequestId, assigned, Page, null, sizeof_page, sizeof_block, sizeof_metadata, physical_size,
  Object, page, block, size_of, Memory, MemState, store,
}
use virtual_memory_simulatio.Memory.Store.{Apart, store-Apart, size_of_pos}
use virtual_memory_simulatio.Pager.{unassign_pg}
use virtual_memory_simulatio.BlockList.{alloc_blk}
use virtual_memory_simulatio.BlockList.Layout.{span, free_blk, Blocks, Blocks-store}

-- An assigned page: whose it is, and the sizes of its allocated blocks.
pub record PageView : Type 0 where
  pub request_id : RequestId
  pub tid : ℕ
  pub sizes : List ℕ

-- The bytes in use, the page's own header included.
abbrev pub used : PageView → ℕ
used v = sizeof_page + span v.sizes

abbrev pub view_page : PageView → ℕ → ℕ → Page
view_page v page_size a = record {
  state = assigned;
  request_id = v.request_id;
  tid = v.tid;
  size_of_allocated = used v;
  start_address = a;
  end_address = a + page_size - 1;
  block_list_head = a + sizeof_page;
  next = a + page_size;
}

abbrev pub width : ℕ → List PageView → ℕ
width page_size [] = 0
width page_size (v ∷ vs) = page_size + width page_size vs

-- One page at `a`: header, block list, and space for the header of its unallocated block.
abbrev pub PageAt : Memory → ℕ → ℕ → PageView → Type 0
PageAt m page_size a v =
    (m a ≡ some (page (view_page v page_size a)))
    × Blocks m (a + sizeof_page) v.sizes (page_size - used v)
    × (used v + sizeof_block ≤ page_size)

-- The pages `vs` from `a` on, and behind them the unassigned page up to `end`.
abbrev pub Pages : Memory → ℕ → ℕ → List PageView → ℕ → Type 0
Pages m page_size a [] end = m a ≡ some (page (unassign_pg a end null))
Pages m page_size a (v ∷ vs) end = PageAt m page_size a v × Pages m page_size (a + page_size) vs end

-- The state of an initialised memory manager whose page list is laid out as `vs`.
pub record IsLaidOut (s : MemState) (vs : List PageView) : Type 0 where
  pub ready : s.initialized ≡ true
  pub nonnull : 0 < s.meta.address
  pub head : s.meta.page_list_head ≡ s.meta.address + sizeof_metadata
  pub pages :
      Pages s.mem s.meta.page_size
        (s.meta.address + sizeof_metadata)
        vs
        (s.meta.address + physical_size - 1)
  pub room : sizeof_metadata + width s.meta.page_size vs + sizeof_page ≤ physical_size
  pub large : sizeof_page + sizeof_block ≤ s.meta.page_size

-- `m'` holds what `m` holds from `lo` up to `hi`.
abbrev pub KeepsIn : ℕ → ℕ → Memory → Memory → Type 0
KeepsIn lo hi m m' =
    (x : ℕ) (o : Object) → m x ≡ some o → lo ≤ x → x + size_of o ≤ hi → m' x ≡ some o

module _ (lo hi : ℕ) (m m' : Memory) (k : KeepsIn lo hi m m') where
  pub Blocks-keep :
      (a : ℕ) (ns : List ℕ) (t : ℕ)
      → Blocks m a ns t
      → lo ≤ a
      → a + span ns + sizeof_block ≤ hi
      → Blocks m' a ns t
  Blocks-keep a [] t h l le = k a (block (free_blk a t)) h l (omega arith)
  Blocks-keep a (n ∷ ns) t (e, h) l le = (
    k a (block (alloc_blk n a (a + (n + sizeof_block)))) e l (omega arith),
    Blocks-keep (a + (n + sizeof_block)) ns t h (omega arith) (omega arith),
  )

  pub PageAt-keep :
      (page_size a : ℕ) (v : PageView)
      → PageAt m page_size a v
      → lo ≤ a
      → a + page_size ≤ hi
      → PageAt m' page_size a v
  PageAt-keep page_size a v (e, h, fits) l le = (
    k a (page (view_page v page_size a)) e l (omega arith),
    Blocks-keep (a + sizeof_page) v.sizes (page_size - used v) h (omega arith) (omega arith),
    fits,
  )

  pub Pages-keep :
      (page_size a end : ℕ) (vs : List PageView)
      → Pages m page_size a vs end
      → lo ≤ a
      → a + width page_size vs + sizeof_page ≤ hi
      → Pages m' page_size a vs end
  Pages-keep page_size a end [] h l le = k a (page (unassign_pg a end null)) h l (omega arith)
  Pages-keep page_size a end (v ∷ vs) (hv, h) l le = (
    PageAt-keep page_size a v hv l (omega arith),
    Pages-keep page_size (a + page_size) end vs h (omega arith) (omega arith),
  )

  -- Pages behind `hi` go on from those below it.
  pub Pages-extend :
      (page_size a end : ℕ) (vs ws : List PageView)
      → Pages m page_size a vs end
      → lo ≤ a
      → hi ≡ a + width page_size vs
      → Pages m' page_size hi ws end
      → Pages m' page_size a (vs ++ ws) end
  Pages-extend page_size a end [] ws h l q rest = let q' : a ≡ hi = omega arith in rw q' rest
  Pages-extend page_size a end (v ∷ vs) ws (hv, h) l q rest = (
    PageAt-keep page_size a v hv l (omega arith),
    Pages-extend page_size (a + page_size) end vs ws h (omega arith) (omega arith) rest,
  )

-- A copy to bytes apart from a page, or from the whole list, keeps it.
pub PageAt-store :
    (b : ℕ) (o : Object) (m : Memory) (page_size a : ℕ) (v : PageView)
    → PageAt m page_size a v
    → Apart a page_size b (size_of o)
    → PageAt (store b o m) page_size a v
PageAt-store b o m page_size a v (e, h, fits) d = (
  store-Apart b o m a (page (view_page v page_size a)) e (omega arith) (omega arith)
      (size_of_pos o),
  Blocks-store b o m (a + sizeof_page) v.sizes (page_size - used v) h (omega arith),
  fits,
)

pub Pages-store :
    (b : ℕ) (o : Object) (m : Memory) (page_size a end : ℕ) (vs : List PageView)
    → Pages m page_size a vs end
    → Apart a (width page_size vs + sizeof_page) b (size_of o)
    → Pages (store b o m) page_size a vs end
Pages-store b o m page_size a end [] h d =
    store-Apart b o m a (page (unassign_pg a end null)) h (omega arith) (omega arith)
      (size_of_pos o)
Pages-store b o m page_size a end (v ∷ vs) (hv, h) d = (
  PageAt-store b o m page_size a v hv (omega arith),
  Pages-store b o m page_size (a + page_size) end vs h (omega arith),
)

pub width-append :
    (page_size : ℕ) (vs ws : List PageView)
    → width page_size (vs ++ ws) ≡ width page_size vs + width page_size ws
width-append page_size [] ws = omega arith
width-append page_size (v ∷ vs) ws = omega (arith, width-append page_size vs ws)

-- The unassigned page behind the assigned ones.
pub Pages-tail :
    (m : Memory) (page_size a end r : ℕ) (vs : List PageView)
    → Pages m page_size a vs end
    → r ≡ a + width page_size vs
    → m r ≡ some (page (unassign_pg r end null))
Pages-tail m page_size a end r [] h q = let q' : r ≡ a = omega arith in rw q' h
Pages-tail m page_size a end r (v ∷ vs) (hv, h) q =
    Pages-tail m page_size (a + page_size) end r vs h (omega arith)

-- A page takes up at least the bytes of two headers, an allocated block those of one.
pub length-width :
    (page_size : ℕ) (vs : List PageView)
    → sizeof_page + sizeof_block ≤ page_size
    → 104 * length vs ≤ width page_size vs
length-width page_size [] h = omega arith
length-width page_size (v ∷ vs) h = omega (arith, length-width page_size vs h)

pub length-span : (ns : List ℕ) → 40 * length ns ≤ span ns
length-span [] = omega arith
length-span (n ∷ ns) = omega (arith, length-span ns)
