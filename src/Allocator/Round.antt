-- ===== src/Allocator/Round.antt =====
-- One round of the loop over the pages, on a laid out page, and what a new block does to the page.
use virtual_memory_simulatio.Base.{
  ℕ, suc, ◌+◌, ◌-◌, ◌*◌, sym, ◌∙◌, ap, subst, ◌≤◌, ◌<◌, ◌≡◌, refl, inl, inr, true, false, Option,
  none, some, [], ◌∷◌, ◌++◌, arith, Bool, ◌&&◌, leb, Bool-cases, ==_ne,
}
use virtual_memory_simulatio.Memory.{
  sizeof_page, sizeof_block, physical_size, Page, page, Memory, MemState, null, ok,
}
use virtual_memory_simulatio.Memory.Store.{load_page-ok, store_self}
use virtual_memory_simulatio.Pager.Layout.{PageView, used, view_page, PageAt, KeepsIn, length-span}
use virtual_memory_simulatio.BlockList.{allocate_block}
use virtual_memory_simulatio.BlockList.Layout.{span-append, Blocks}
use virtual_memory_simulatio.BlockList.Allocate.{
  taken, taken-Blocks, taken-Apart, allocate_block-some, allocate_block-none,
}
use virtual_memory_simulatio.Allocator.{Caller, worth_trying, page_loop, or_else}
use virtual_memory_simulatio.Allocator.Spec.{takes, grown, next_data}

module _ (block_fuel : ℕ) (c : Caller) (size : ℕ) where
  pub page_loop-null :
      (fuel : ℕ) (s : MemState) → page_loop (suc fuel) block_fuel c size null s ≡ ok none s
  unfolding page_loop
  page_loop-null fuel s = refl

  pub page_loop-skip :
      (fuel a : ℕ) (s : MemState) {p : Page}
      → s.mem a ≡ some (page p)
      → 0 < a
      → worth_trying c s.meta.page_size size p ≡ false
      → page_loop (suc fuel) block_fuel c size a s ≡ page_loop fuel block_fuel c size p.next s
  unfolding page_loop
  page_loop-skip fuel a s e p miss = rw (==_ne a 0 (omega arith), load_page-ok s a e, miss)

  page_loop-try :
      (fuel a : ℕ) (s t : MemState) {p : Page} {r : Option ℕ}
      → s.mem a ≡ some (page p)
      → 0 < a
      → worth_trying c s.meta.page_size size p ≡ true
      → allocate_block block_fuel size p.start_address s ≡ ok r t
      → page_loop (suc fuel) block_fuel c size a s
        ≡ or_else r (page_loop fuel block_fuel c size p.next) t
  unfolding page_loop
  page_loop-try fuel a s t e p hit done =
      rw (==_ne a 0 (omega arith), load_page-ok s a e, hit, done)

-- The test of `page_loop` in the terms of the abstract allocator.
worth_trying-takes :
    (ps : ℕ) (c : Caller) (size a : ℕ) (v : PageView)
    → takes ps c size v ≡ (worth_trying c ps size (view_page v ps a) && leb size (ps - used v))
worth_trying-takes ps c size a v = ground arith

-- The memory after a block was added to the page `v` at `a`.
abbrev pub placed : ℕ → ℕ → ℕ → PageView → Memory → Memory
placed ps size a v m = taken size (view_page v ps a) (a + sizeof_page) v.sizes (ps - used v) m

module _ (ps size a : ℕ) (v : PageView) (m : Memory) (h : PageAt m ps a v)
    (roomy : size + 2 * sizeof_block ≤ ps - used v) where
  -- It holds the grown page, and everything below and behind the page as before.
  pub placed-PageAt : PageAt (placed ps size a v m) ps a (grown size v)
  placed-PageAt = (
    store_self a _ _
        ∙ ap (λ n. some (page (record (view_page v ps a) { size_of_allocated = n })))
            (omega (arith, span-append v.sizes size)),
    subst (Blocks (placed ps size a v m) (a + sizeof_page) (v.sizes ++ size ∷ []))
        (omega (arith, span-append v.sizes size))
        (taken-Blocks size (view_page v ps a) (a + sizeof_page) v.sizes (ps - used v) m h.1
          (omega arith) roomy),
    omega (arith, span-append v.sizes size),
  )

  pub placed-below : KeepsIn 0 a m (placed ps size a v m)
  placed-below x o e lo hi =
      taken-Apart size (view_page v ps a) (a + sizeof_page) v.sizes (ps - used v) m x o h.1
        (omega arith) roomy (inl hi) e

  pub placed-above : (hi : ℕ) → KeepsIn (a + ps) hi m (placed ps size a v m)
  placed-above hi x o e lo up =
      taken-Apart size (view_page v ps a) (a + sizeof_page) v.sizes (ps - used v) m x o h.1
        (omega arith) roomy (inr (omega arith)) e

and-left : (x y : Bool) → (x && y) ≡ true → x ≡ true
and-left x y h = ground arith

and-right : (x y : Bool) → x ≡ true → (x && y) ≡ false → y ≡ false
and-right x y h k = ground arith

leb-false : (x y : ℕ) → leb x y ≡ false → y < x
leb-false x y h = ground arith

module _ (block_fuel : ℕ) (c : Caller) (size fuel : ℕ) (s : MemState) (a : ℕ) (v : PageView)
    (h : PageAt s.mem s.meta.page_size a v) (p : 0 < a)
    (enough : s.meta.page_size ≤ block_fuel) where
  -- A page that does not take the block is passed over, whether it is tried or not.
  pub page_loop-miss :
      takes s.meta.page_size c size v ≡ false
      → page_loop (suc fuel) block_fuel c size a s
        ≡ page_loop fuel block_fuel c size (a + s.meta.page_size) s
  page_loop-miss miss = elim (Bool-cases (worth_trying c ps size (view_page v ps a))) [
    | inl tried ↦ page_loop-try block_fuel c size fuel a s s h.0 p tried (
        allocate_block-none size (view_page v ps a) v.sizes (ps - used v) block_fuel s h.0 h.1
          (omega arith) (omega (arith, length-span v.sizes))
          (leb-false size (ps - used v) (
            and-right _ (leb size (ps - used v)) tried
              (sym (worth_trying-takes ps c size a v) ∙ miss))))
    | inr skipped ↦ page_loop-skip block_fuel c size fuel a s h.0 p skipped
  ]
    where
      ps : ℕ
      ps = s.meta.page_size

  pub page_loop-hit :
      takes s.meta.page_size c size v ≡ true
      → size + 2 * sizeof_block ≤ s.meta.page_size - used v
      → s.meta.address ≤ a
      → a + s.meta.page_size ≤ s.meta.address + physical_size
      → page_loop (suc fuel) block_fuel c size a s
        ≡ ok (some (next_data a v)) (record s { mem = placed s.meta.page_size size a v s.mem })
  page_loop-hit hit roomy lo hi =
      page_loop-try block_fuel c size fuel a s
        (record s { mem = placed s.meta.page_size size a v s.mem }) h.0 p
        (and-left _ (leb size (s.meta.page_size - used v))
          (sym (worth_trying-takes s.meta.page_size c size a v) ∙ hit))
        (allocate_block-some size (view_page v s.meta.page_size a) v.sizes
          (s.meta.page_size - used v) block_fuel s h.0 h.1 (omega arith) lo (omega arith) roomy
          (omega arith) (omega (arith, length-span v.sizes)))
