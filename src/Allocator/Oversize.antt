-- ===== src/Allocator/Oversize.antt =====
-- A request that no page can hold.
use virtual_memory_simulatio.Base.{
  ℕ, zero, suc, ◌+◌, ◌-◌, ◌*◌, sym, ◌∙◌, ap, subst, ◌≤◌, ◌<◌, ◌≡◌, inl, inr, false, none, List, [],
  ◌∷◌, ◌++◌, arith, length, leb, Bool-cases, lt→leb, leb→le, ◌≢◌,
}
use virtual_memory_simulatio.Memory.{
  sizeof_page, sizeof_metadata, physical_size, MemState, ok, fault, out_of_bounds,
}
use virtual_memory_simulatio.Pager.{Garbage}
use virtual_memory_simulatio.Pager.Layout.{
  PageView, used, width, IsLaidOut, length-width, width-append,
}
use virtual_memory_simulatio.Pager.Split.{
  IsZero, new_view, extended, assign_page-ok, extended-IsLaidOut,
}
use virtual_memory_simulatio.Pager.Last.{assign_page_overruns}
use virtual_memory_simulatio.Allocator.{Caller, request_of, tid_of, page_loop, allocate_for}
use virtual_memory_simulatio.Allocator.Spec.{takes, place_in, place_in-miss, place_in-nil, keep}
use virtual_memory_simulatio.Allocator.Search.{page_loop-none}
use virtual_memory_simulatio.Allocator.Refine.{allocate_for-retry, allocate_for-fault}

takes-false :
    (ps : ℕ) (c : Caller) (size : ℕ) (v : PageView)
    → ps < size + sizeof_page
    → 0 < size
    → takes ps c size v ≡ false
takes-false ps c size v h p =
    let t : leb size (ps - used v) ≡ false = lt→leb size (ps - used v) (omega arith) in ground arith

place_in-none :
    (ps : ℕ) (c : Caller) (size a : ℕ) (vs : List PageView)
    → ps < size + sizeof_page
    → 0 < size
    → place_in ps c size a vs ≡ none
place_in-none ps c size a [] h p = place_in-nil ps c size a
place_in-none ps c size a (v ∷ vs) h p =
    place_in-miss ps c size a v vs (takes-false ps c size v h p)
    ∙ ap (keep v) (place_in-none ps c size (a + ps) vs h p)

-- A request that is larger than what a page holds behind its header is never refused and never
-- served, also when every page is empty: each try takes one more page for the caller, until the
-- last one is written outside of the physical memory. Conditions: the page list is laid out, the
-- uninitialised locals hold zero, no number of pages fills the memory behind the metadata exactly,
-- and the tries and the fuel are enough to get there.
pub allocate_for_oversize :
    (tries fuel : ℕ) (garbage : ℕ → Garbage) (c : Caller) (size : ℕ) (s : MemState)
    (vs : List PageView)
    → IsLaidOut s vs
    → ((n : ℕ) → IsZero (garbage n))
    → s.meta.page_size < size + sizeof_page
    → ((ws : List PageView) → sizeof_metadata + width s.meta.page_size ws ≢ physical_size)
    → physical_size < width s.meta.page_size vs + 104 * tries
    → physical_size ≤ fuel
    → s.meta.page_size ≤ fuel
    → allocate_for tries fuel garbage c size s ≡ fault out_of_bounds
allocate_for_oversize zero fuel garbage c size s vs l z big odd many enough small =
    absurd (omega (arith, l.room))
allocate_for_oversize (suc tries) fuel garbage c size s vs l z big odd many enough small =
    let ps = s.meta.page_size in
    let few : length vs + 1 < fuel = omega (arith, l.large, l.room, length-width ps vs) in
    let missed : page_loop fuel fuel c size s.meta.page_list_head s ≡ ok none s =
      subst (λ h. page_loop fuel fuel c size h s ≡ ok none s) (sym l.head)
        (page_loop-none fuel c size fuel s (s.meta.address + sizeof_metadata) _ vs l.pages
          (omega arith) small (omega arith)
          (place_in-none ps c size (s.meta.address + sizeof_metadata) vs big
            (omega (arith, l.large)))) in
    elim (Bool-cases (leb (sizeof_metadata + width ps vs + ps + sizeof_page) physical_size)) [
      | inl fits ↦
          let g = garbage tries in
          let room = leb→le _ _ fits in
          allocate_for-retry tries fuel garbage c size s
            (extended fuel g (request_of c) (tid_of c) s vs l) missed
            (assign_page-ok fuel g (request_of c) (tid_of c) s vs l (z tries).0 (omega arith) room)
          ∙ allocate_for_oversize tries fuel garbage c size
              (extended fuel g (request_of c) (tid_of c) s vs l)
              (vs ++ new_view (request_of c) (tid_of c) ∷ [])
              (extended-IsLaidOut fuel g (request_of c) (tid_of c) s vs l (z tries) room) z big odd
              (omega (arith, l.large, width-append ps vs (new_view (request_of c) (tid_of c) ∷ [])))
              enough small
      | inr full ↦ allocate_for-fault tries fuel garbage c size s missed (
          assign_page_overruns fuel (garbage tries) (request_of c) (tid_of c) s vs l (z tries).0
            (omega arith) (ground arith)
            (λ e. odd (new_view (request_of c) (tid_of c) ∷ vs) (omega arith)))
    ]
