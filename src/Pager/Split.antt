-- ===== src/Pager/Split.antt =====
-- `assign_page` on a laid out page list, when the unassigned page behind it is large enough for one
-- more page and the header of what is left.
use virtual_memory_simulatio.Base.{
  ℕ, ◌+◌, ◌-◌, ◌≤◌, ◌<◌, ◌≡◌, refl, some, List, [], ◌∷◌, ◌++◌, arith, length, ==_ne, ◌∙◌, ap,
}
use virtual_memory_simulatio.Memory.{
  RequestId, null, sizeof_page, sizeof_block, sizeof_metadata, physical_size, page, block, Memory,
  MemState, store, ok,
}
use virtual_memory_simulatio.Memory.Store.{store_self, store-Apart, size_of_pos, copy_out-ok}
use virtual_memory_simulatio.Pager.{
  Garbage, unassign_pg, assign_pg, new_block, assign_split, assign_found, assign_page,
}
use virtual_memory_simulatio.BlockList.Layout.{sub_ℕ-pos, free_blk}
use virtual_memory_simulatio.Pager.Layout.{
  PageView, width, width-append, Pages, IsLaidOut, Pages-store, Pages-extend,
}
use virtual_memory_simulatio.Pager.Walk.{
  last_of, relink, relink-Pages, relink_behind, link_previous-ok, assign_loop-found,
}

-- The uninitialised locals happen to hold zero.
abbrev pub IsZero : Garbage → Type 0
IsZero g = (g.tmp_prev ≡ null) × (g.block_next ≡ null)

-- A page that has just been assigned.
abbrev pub new_view : RequestId → ℕ → PageView
new_view request_id tid = record { request_id = request_id; tid = tid; sizes = [] }

module _ (ps : ℕ) (large : sizeof_page + sizeof_block ≤ ps) (g : Garbage) (request_id : RequestId)
    (tid a end r : ℕ) (vs : List PageView) (q : r ≡ a + width ps vs) where
  -- The memory after the copies of `assign_split`.
  abbrev pub after_block : Memory → Memory
  after_block m = store (r + sizeof_page) (block (new_block g ps r)) m

  abbrev pub after_link : Memory → Memory
  after_link m = relink ps large a vs (after_block m)

  abbrev pub after_split : Memory → Memory
  after_split m =
      store (r + ps - 1 + 1) (page (unassign_pg (r + ps - 1 + 1) end null))
        (store r (page (assign_pg request_id tid ps r (r + ps - 1 + 1))) (after_link m))

  pub after_block-Pages : (m : Memory) → Pages m ps a vs end → Pages (after_block m) ps a vs end
  after_block-Pages m h = Pages-store (r + sizeof_page) _ m ps a end vs h (omega arith)

  pub assign_split-ok :
      (s : MemState)
      → Pages s.mem ps a vs end
      → s.meta.page_size ≡ ps
      → 0 < a
      → s.meta.address ≤ a
      → r + ps + sizeof_page ≤ s.meta.address + physical_size
      → assign_split g request_id tid (last_of ps null a vs) (unassign_pg r end null) s
        ≡ ok tt (record s { mem = after_split s.mem })
  unfolding assign_split
  assign_split-ok s h e p lo hi =
      let s1 : MemState = record s { mem = after_block s.mem } in
      let s2 : MemState = record s { mem = after_link s.mem } in
      let pg = page (assign_pg request_id tid ps r (r + ps - 1 + 1)) in
      let s3 : MemState = record s { mem = store r pg (after_link s.mem) } in
      simp (
        e,
        copy_out-ok s (r + sizeof_page) (block (new_block g ps r)) (omega arith) (omega arith),
        link_previous-ok ps large s1 a end r vs (after_block-Pages s.mem h) q p lo (omega arith),
        copy_out-ok s2 r pg (omega arith) (omega arith),
        copy_out-ok s3 (r + ps - 1 + 1) (page (unassign_pg (r + ps - 1 + 1) end null)) (omega arith)
            (omega arith),
      )

  new_block-free : IsZero g → new_block g ps r ≡ free_blk (r + sizeof_page) (ps - sizeof_page)
  new_block-free z = rw (z.1, sub_ℕ-pos ps sizeof_page (omega arith))

  -- The page list after the split: one page more.
  pub after_split-Pages :
      (m : Memory)
      → IsZero g
      → Pages m ps a vs end
      → Pages (after_split m) ps a (vs ++ new_view request_id tid ∷ []) end
  after_split-Pages m z h =
      let m1 = after_link m in
      let rest : r + ps - 1 + 1 ≡ r + ps = omega arith in
      let nb : m1 (r + sizeof_page) ≡ some (block (new_block g ps r)) =
        relink_behind ps large (after_block m) a end r vs (r + sizeof_page)
          (block (new_block g ps r)) (after_block-Pages m h) q (omega arith) (store_self _ _ _) in
      Pages-extend a r m1 (after_split m)
        (λ x o e l le.
          store-Apart _ _ _ x o
            (store-Apart _ _ _ x o e (omega arith) (size_of_pos o) (omega arith)) (omega arith)
            (size_of_pos o) (omega arith))
        ps a end vs (new_view request_id tid ∷ [])
        (relink-Pages ps large (after_block m) a end vs (after_block-Pages m h)) (omega arith) q
        (
          (
            rw rest (
                store-Apart _ _ _ r (page (assign_pg request_id tid ps r (r + ps)))
                  (store_self _ _ _) (omega arith) (omega arith) (omega arith)),
            store-Apart _ _ _ (r + sizeof_page) (block (new_block g ps r))
                  (store-Apart _ _ _ (r + sizeof_page) (block (new_block g ps r)) nb (omega arith)
                    (omega arith) (omega arith))
                  (omega arith) (omega arith) (omega arith)
                ∙ ap (λ b. some (block b)) (new_block-free z),
            omega arith,
          ),
          rw rest (store_self _ _ _),
        )

module _ (fuel : ℕ) (g : Garbage) (request_id : RequestId) (tid : ℕ) where
  -- The state after `assign_page` on the layout `vs`.
  abbrev pub extended : (s : MemState) (vs : List PageView) → IsLaidOut s vs → MemState
  extended s vs l = record s {
    mem =
        after_split s.meta.page_size l.large g request_id tid (s.meta.address + sizeof_metadata)
          (s.meta.address + physical_size - 1)
          (s.meta.address + sizeof_metadata + width s.meta.page_size vs) vs refl s.mem;
  }

  pub assign_page-ok :
      (s : MemState) (vs : List PageView) (l : IsLaidOut s vs)
      → g.tmp_prev ≡ null
      → length vs < fuel
      → sizeof_metadata + width s.meta.page_size vs + s.meta.page_size + sizeof_page ≤ physical_size
      → assign_page fuel g request_id tid s ≡ ok tt (extended s vs l)
  unfolding assign_page assign_found
  assign_page-ok s vs l z f room =
      let ps = s.meta.page_size in
      let a = s.meta.address + sizeof_metadata in
      let end = s.meta.address + physical_size - 1 in
      let r = a + width ps vs in
      simp
        (
          z,
          l.head,
          assign_loop-found g request_id tid ps fuel null a end r vs s l.pages refl (omega arith) f,
          ==_ne (end + 1 - r) ps (omega (arith, l.large)),
        )
        (assign_split-ok ps l.large g request_id tid a end r vs refl s l.pages refl
          (omega (arith, l.nonnull)) (omega arith) (omega arith))

  pub extended-IsLaidOut :
      (s : MemState) (vs : List PageView) (l : IsLaidOut s vs)
      → IsZero g
      → sizeof_metadata + width s.meta.page_size vs + s.meta.page_size + sizeof_page ≤ physical_size
      → IsLaidOut (extended s vs l) (vs ++ new_view request_id tid ∷ [])
  extended-IsLaidOut s vs l z room = record {
    ready = l.ready;
    nonnull = l.nonnull;
    head = l.head;
    pages =
        after_split-Pages s.meta.page_size l.large g request_id tid
          (s.meta.address + sizeof_metadata) (s.meta.address + physical_size - 1) _ vs refl s.mem z
          l.pages;
    room = omega (arith, width-append s.meta.page_size vs (new_view request_id tid ∷ []));
    large = l.large;
  }

  -- assign_page on a laid out page list appends one page of the caller's with one unallocated
  -- block over all of its bytes behind the header, keeps the other pages and their blocks as they
  -- are and leaves the metadata unchanged, if the uninitialised locals hold zero, the fuel exceeds
  -- the number of pages, and the rest of the memory holds a page and one more header.
  pub assign_page-IsLaidOut :
      (s : MemState) (vs : List PageView)
      → IsLaidOut s vs
      → IsZero g
      → length vs < fuel
      → sizeof_metadata + width s.meta.page_size vs + s.meta.page_size + sizeof_page ≤ physical_size
      → (t : MemState) × (assign_page fuel g request_id tid s ≡ ok tt t)
        × (t.meta ≡ s.meta)
        × IsLaidOut t (vs ++ new_view request_id tid ∷ [])
  assign_page-IsLaidOut s vs l z f room =
      (extended s vs l, assign_page-ok s vs l z.0 f room, refl, extended-IsLaidOut s vs l z room)
