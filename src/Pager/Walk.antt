-- ===== src/Pager/Walk.antt =====
-- The loop of `assign_page` over a laid out page list: which page it stops at, and what the copy of
-- the page before that one does.
use virtual_memory_simulatio.Base.{
  ℕ, zero, suc, ◌+◌, ◌-◌, ◌≤◌, ◌<◌, ◌≡◌, refl, true, some, List, [], ◌∷◌, arith, length, ==_ne, ◌∙◌,
  false,
}
use virtual_memory_simulatio.Memory.{
  RequestId, Page, null, sizeof_page, sizeof_block, physical_size, Object, page, Memory, MemState,
  store, ok,
}
use virtual_memory_simulatio.Memory.Store.{
  store_self, store-Apart, size_of_pos, copy_out-ok, load_page-ok,
}
use virtual_memory_simulatio.Pager.{
  Garbage, unassign_pg, link_previous, assign_found, assign_loop, is_unassigned,
}
use virtual_memory_simulatio.BlockList.Layout.{Blocks-store}
use virtual_memory_simulatio.Pager.Layout.{PageView, used, view_page, width, Pages, PageAt-store}

-- The address of the last assigned page, `prev` if there is none.
abbrev pub last_of : ℕ → ℕ → ℕ → List PageView → ℕ
last_of page_size prev a [] = prev
last_of page_size prev a (v ∷ vs) = last_of page_size a (a + page_size) vs

-- That page.
abbrev pub last_page : ℕ → ℕ → PageView → List PageView → Page
last_page page_size a v [] = view_page v page_size a
last_page page_size a v (w ∷ vs) = last_page page_size (a + page_size) w vs

pub record IsLast (m : Memory) (page_size a r last : ℕ) (p : Page) : Type 0 where
  pub place : p.start_address ≡ last
  pub linked : r ≡ p.next
  pub held : m p.start_address ≡ some (page p)
  pub above : a ≤ p.start_address
  pub below : p.start_address + page_size ≤ r

module _ (ps : ℕ) (large : sizeof_page + sizeof_block ≤ ps) where
  last_page-IsLast :
      (m : Memory) (prev a r end : ℕ) (v : PageView) (vs : List PageView)
      → Pages m ps a (v ∷ vs) end
      → r ≡ a + width ps (v ∷ vs)
      → IsLast m ps a r (last_of ps prev a (v ∷ vs)) (last_page ps a v vs)
  last_page-IsLast m prev a r end v [] (h, t) q = record {
    place = refl;
    linked = omega arith;
    held = h.0;
    above = omega arith;
    below = omega arith;
  }
  last_page-IsLast m prev a r end v (w ∷ vs) (h, t) q =
      let l = last_page-IsLast m a (a + ps) r end w vs t (omega arith) in
      record {
        place = l.place;
        linked = l.linked;
        held = l.held;
        above = omega (arith, l.above);
        below = l.below;
      }

  -- Copying that page's header back keeps the list.
  Pages-relink :
      (m : Memory) (a end : ℕ) (v : PageView) (vs : List PageView)
      → Pages m ps a (v ∷ vs) end
      → Pages
          (store (last_page ps a v vs).start_address (page (last_page ps a v vs)) m)
          ps
          a
          (v ∷ vs)
          end
  Pages-relink m a end v [] ((e, h, fits), t) = (
    (
      store_self a _ m,
      Blocks-store a (page (view_page v ps a)) m (a + sizeof_page) v.sizes (ps - used v) h
          (omega arith),
      fits,
    ),
    store-Apart a _ m (a + ps) (page (unassign_pg (a + ps) end null)) t (omega arith) (omega arith)
        (omega arith),
  )
  Pages-relink m a end v (w ∷ vs) (h, t) =
      let l = last_page-IsLast m 0 (a + ps) _ end w vs t refl in
      (PageAt-store _ _ m ps a v h (omega (arith, l.above)), Pages-relink m (a + ps) end w vs t)

  abbrev pub relink : ℕ → List PageView → Memory → Memory
  relink a [] m = m
  relink a (v ∷ vs) m = store (last_page ps a v vs).start_address (page (last_page ps a v vs)) m

  pub relink-Pages :
      (m : Memory) (a end : ℕ) (vs : List PageView)
      → Pages m ps a vs end
      → Pages (relink a vs m) ps a vs end
  relink-Pages m a end [] h = h
  relink-Pages m a end (v ∷ vs) h = Pages-relink m a end v vs h

  -- What lies behind the assigned pages is not touched.
  pub relink_behind :
      (m : Memory) (a end r : ℕ) (vs : List PageView) (x : ℕ) (o : Object)
      → Pages m ps a vs end
      → r ≡ a + width ps vs
      → r ≤ x
      → m x ≡ some o
      → relink a vs m x ≡ some o
  relink_behind m a end r [] x o h q le e = e
  relink_behind m a end r (v ∷ vs) x o h q le e =
      let l = last_page-IsLast m 0 a r end v vs h q in
      store-Apart _ _ m x o e (omega (arith, l.below)) (size_of_pos o) (omega arith)

  pub link_previous-ok :
      (s : MemState) (a end r : ℕ) (vs : List PageView)
      → Pages s.mem ps a vs end
      → r ≡ a + width ps vs
      → 0 < a
      → s.meta.address ≤ a
      → r ≤ s.meta.address + physical_size
      → link_previous (last_of ps null a vs) r s ≡ ok tt (record s { mem = relink a vs s.mem })
  unfolding link_previous
  link_previous-ok s a end r [] h q p lo hi = refl
  link_previous-ok s a end r (v ∷ vs) h q p lo hi =
      let l = last_page-IsLast s.mem 0 a r end v vs h q in
      rw
        (
          ← l.place,
          ==_ne (last_page ps a v vs).start_address 0 (omega (arith, l.above)),
          load_page-ok s (last_page ps a v vs).start_address l.held,
          l.linked,
        )
        (copy_out-ok s (last_page ps a v vs).start_address _ (omega (arith, l.above))
          (omega (arith, l.below)))

module _ (g : Garbage) (request_id : RequestId) (tid : ℕ) where
  assign_loop-skip :
      (fuel prev a : ℕ) (s : MemState) {p : Page}
      → s.mem a ≡ some (page p)
      → 0 < a
      → is_unassigned p.state ≡ false
      → assign_loop (suc fuel) g request_id tid prev a s
        ≡ assign_loop fuel g request_id tid a p.next s
  unfolding assign_loop
  assign_loop-skip fuel prev a s e p miss = rw (==_ne a 0 (omega arith), load_page-ok s a e, miss)

  assign_loop-hit :
      (fuel prev a : ℕ) (s : MemState) {p : Page}
      → s.mem a ≡ some (page p)
      → 0 < a
      → is_unassigned p.state ≡ true
      → assign_loop (suc fuel) g request_id tid prev a s ≡ assign_found g request_id tid prev p s
  unfolding assign_loop
  assign_loop-hit fuel prev a s e p hit = rw (==_ne a 0 (omega arith), load_page-ok s a e, hit)

  -- The loop stops at the unassigned page behind the assigned ones.
  pub assign_loop-found :
      (ps fuel prev a end r : ℕ) (vs : List PageView) (s : MemState)
      → Pages s.mem ps a vs end
      → r ≡ a + width ps vs
      → 0 < a
      → length vs < fuel
      → assign_loop fuel g request_id tid prev a s
        ≡ assign_found g request_id tid (last_of ps prev a vs) (unassign_pg r end null) s
  assign_loop-found ps zero prev a end r vs s h q p f = absurd (omega arith)
  assign_loop-found ps (suc fuel) prev a end r [] s h q p f =
      let q' : r ≡ a = omega arith in rw q' (assign_loop-hit fuel prev a s h p refl)
  assign_loop-found ps (suc fuel) prev a end r (v ∷ vs) s (hv, h) q p f =
      assign_loop-skip fuel prev a s hv.0 p refl
      ∙ assign_loop-found ps fuel a (a + ps) end r vs s h (omega arith) (omega arith) (omega arith)
