-- ===== src/Pager/Last.antt =====
-- The end of the memory: `assign_page` when the unassigned page behind the laid out list is too
-- small for one more page and the header of what is left, and has not exactly the size of a page.
use virtual_memory_simulatio.Base.{
  ℕ, ◌+◌, ◌-◌, ◌≤◌, ◌<◌, ◌≡◌, refl, inl, inr, List, arith, length, ==_ne, ◌≢◌, leb, Bool-cases,
}
use virtual_memory_simulatio.Memory.{
  RequestId, null, sizeof_page, sizeof_block, sizeof_metadata, physical_size, page, block, MemState,
  store, fault, out_of_bounds,
}
use virtual_memory_simulatio.Memory.Store.{copy_out-ok, copy_out-fault}
use virtual_memory_simulatio.Pager.{
  Garbage, unassign_pg, assign_pg, new_block, assign_split, assign_found, assign_page,
}
use virtual_memory_simulatio.Pager.Layout.{PageView, width, Pages, IsLaidOut}
use virtual_memory_simulatio.Pager.Walk.{last_of, link_previous-ok, assign_loop-found}
use virtual_memory_simulatio.Pager.Split.{after_block, after_block-Pages, after_link}

module _ (ps : ℕ) (large : sizeof_page + sizeof_block ≤ ps) (g : Garbage) (request_id : RequestId)
    (tid a end r : ℕ) (vs : List PageView) (q : r ≡ a + width ps vs) (s : MemState)
    (h : Pages s.mem ps a vs end) (e : s.meta.page_size ≡ ps) (p : 0 < a) (lo : s.meta.address ≤ a)
    (in_list : r + sizeof_page ≤ s.meta.address + physical_size)
    (no_room : s.meta.address + physical_size < r + ps + sizeof_page) where
  -- Not even the header of the new page's block fits.
  assign_split-block :
      s.meta.address + physical_size < r + sizeof_page + sizeof_block
      → assign_split g request_id tid (last_of ps null a vs) (unassign_pg r end null) s
        ≡ fault out_of_bounds
  unfolding assign_split
  assign_split-block hi =
      simp (e, copy_out-fault s (r + sizeof_page) (block (new_block g ps r)) (omega arith))

  -- The header of the unassigned rest does not fit.
  assign_split-rest :
      r + sizeof_page + sizeof_block ≤ s.meta.address + physical_size
      → assign_split g request_id tid (last_of ps null a vs) (unassign_pg r end null) s
        ≡ fault out_of_bounds
  unfolding assign_split
  assign_split-rest hi =
      let s1 : MemState = record s {
        mem = after_block ps large g request_id tid a end r vs q s.mem;
      } in
      let s2 : MemState = record s {
        mem = after_link ps large g request_id tid a end r vs q s.mem;
      } in
      let pg = page (assign_pg request_id tid ps r (r + ps - 1 + 1)) in
      let s3 : MemState = record s2 { mem = store r pg s2.mem } in
      simp (
        e,
        copy_out-ok s (r + sizeof_page) (block (new_block g ps r)) (omega arith) (omega arith),
        link_previous-ok ps large s1 a end r vs
            (after_block-Pages ps large g request_id tid a end r vs q s.mem h) q p lo (omega arith),
        copy_out-ok s2 r pg (omega arith) (omega arith),
        copy_out-fault s3 (r + ps - 1 + 1) (page (unassign_pg (r + ps - 1 + 1) end null))
            (omega arith),
      )

  assign_split-fault :
      assign_split g request_id tid (last_of ps null a vs) (unassign_pg r end null) s
      ≡ fault out_of_bounds
  assign_split-fault =
      elim (Bool-cases (leb (r + sizeof_page + sizeof_block) (s.meta.address + physical_size))) [
        | inl fits ↦ assign_split-rest (ground arith)
        | inr over ↦ assign_split-block (ground arith)
      ]

-- When the unassigned page at the end of a laid out memory is smaller than a page with one more
-- header behind it and is not exactly one page, assign_page writes outside of the physical memory,
-- if tmp_prev holds zero and the fuel exceeds the number of pages.
pub assign_page_overruns :
    (fuel : ℕ) (g : Garbage) (request_id : RequestId) (tid : ℕ) (s : MemState) (vs : List PageView)
    → IsLaidOut s vs
    → g.tmp_prev ≡ null
    → length vs < fuel
    → physical_size < sizeof_metadata + width s.meta.page_size vs + s.meta.page_size + sizeof_page
    → sizeof_metadata + width s.meta.page_size vs + s.meta.page_size ≢ physical_size
    → assign_page fuel g request_id tid s ≡ fault out_of_bounds
unfolding assign_page assign_found
assign_page_overruns fuel g request_id tid s vs l z f no_room ne =
    let ps = s.meta.page_size in
    let a = s.meta.address + sizeof_metadata in
    let end = s.meta.address + physical_size - 1 in
    let r = a + width ps vs in
    simp
      (
        z,
        l.head,
        assign_loop-found g request_id tid ps fuel null a end r vs s l.pages refl (omega arith) f,
        ==_ne (end + 1 - r) ps (omega (arith, l.room)),
      )
      (assign_split-fault ps l.large g request_id tid a end r vs refl s l.pages refl
        (omega (arith, l.nonnull)) (omega arith) (omega (arith, l.room)) (omega arith))
