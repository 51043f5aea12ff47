-- ===== src/Allocator/Refine.antt =====
-- The allocator of memory_manager.c implements the abstract one.
use virtual_memory_simulatio.Base.{
  ℕ, suc, ◌+◌, ◌-◌, ◌*◌, sym, ◌∙◌, ap, subst, ◌≤◌, ◌<◌, ◌≡◌, refl, inl, inr, none, some, List, [],
  ◌∷◌, ◌++◌, arith, All, length, Option-cases,
}
use virtual_memory_simulatio.Memory.{
  sizeof_page, sizeof_block, sizeof_metadata, physical_size, MemState, Run, ok, fault, Fault,
}
use virtual_memory_simulatio.Pager.{Garbage, assign_page}
use virtual_memory_simulatio.Pager.Layout.{PageView, width, IsLaidOut, length-width}
use virtual_memory_simulatio.Pager.Split.{
  IsZero, new_view, extended, assign_page-ok, extended-IsLaidOut,
}
use virtual_memory_simulatio.Allocator.{Caller, request_of, tid_of, page_loop, allocate_for}
use virtual_memory_simulatio.Allocator.Spec.{
  takes-new, IsRoomy, grown, next_data, place_in, place_in-hit, place_in-append, keep_all,
  keep_all-some, place, width-place_in,
}
use virtual_memory_simulatio.Allocator.Search.{page_loop-none, page_loop-some}

All-append {ℓ κ} :
    {A : Type ℓ} (P : A → Type κ) (xs : List A) (y : A) → All P xs → P y → All P (xs ++ y ∷ [])
All-append P [] y h hy = (hy, tt)
All-append P (x ∷ xs) y h hy = (h.0, All-append P xs y h.1 hy)

module _ (tries fuel : ℕ) (garbage : ℕ → Garbage) (c : Caller) (size : ℕ) where
  allocate_for-found :
      (s t : MemState) (x : ℕ)
      → page_loop fuel fuel c size s.meta.page_list_head s ≡ ok (some x) t
      → allocate_for (suc tries) fuel garbage c size s ≡ ok x t
  unfolding allocate_for
  allocate_for-found s t x e = rw e

  pub allocate_for-retry :
      (s t : MemState)
      → page_loop fuel fuel c size s.meta.page_list_head s ≡ ok none s
      → assign_page fuel (garbage tries) (request_of c) (tid_of c) s ≡ ok tt t
      → allocate_for (suc tries) fuel garbage c size s ≡ allocate_for tries fuel garbage c size t
  unfolding allocate_for
  allocate_for-retry s t e f = rw (e, f)

  pub allocate_for-fault :
      (s : MemState) {f : Fault}
      → page_loop fuel fuel c size s.meta.page_list_head s ≡ ok none s
      → assign_page fuel (garbage tries) (request_of c) (tid_of c) s ≡ fault f
      → allocate_for (suc tries) fuel garbage c size s ≡ fault f
  unfolding allocate_for
  allocate_for-fault s e f = rw (e, f)

-- A run that ends in a laid out state, with the metadata unchanged.
pub record Places (s : MemState) (r : Run ℕ) (x : ℕ) (ws : List PageView) : Type 0 where
  pub final : MemState
  pub runs : r ≡ ok x final
  pub meta : final.meta ≡ s.meta
  pub laid_out : IsLaidOut final ws

module _ (fuel : ℕ) (garbage : ℕ → Garbage) (c : Caller) (size : ℕ) (s : MemState)
    (vs : List PageView) (l : IsLaidOut s vs) (roomy : All (IsRoomy s.meta.page_size c size) vs)
    (enough : physical_size ≤ fuel) (small : s.meta.page_size ≤ physical_size) where
  allocate_for-in :
      (tries x : ℕ) (ws : List PageView)
      → place_in s.meta.page_size c size (s.meta.address + sizeof_metadata) vs ≡ some (x, ws)
      → Places s (allocate_for (suc tries) fuel garbage c size s) x ws
  allocate_for-in tries x ws q =
      let ps = s.meta.page_size in
      let a = s.meta.address + sizeof_metadata in
      let found =
        page_loop-some fuel c size fuel s a (s.meta.address + physical_size - 1) vs x ws l.pages
          roomy (omega arith) (omega arith) (omega (arith, l.room, l.large, length-width ps vs))
          (omega arith) (omega (arith, l.room)) q in
      let t : MemState = record s { mem = found.mem } in
      record {
        final = t;
        runs =
            allocate_for-found tries fuel garbage c size s t x
              (subst (λ h. page_loop fuel fuel c size h s ≡ ok (some x) t) (sym l.head) found.runs);
        meta = refl;
        laid_out = record {
          ready = l.ready;
          nonnull = l.nonnull;
          head = l.head;
          pages = found.pages;
          room = omega (arith, l.room, width-place_in ps c size a vs q);
          large = l.large;
        };
      }

pub Places-trans :
    {s t : MemState} {r q : Run ℕ} {x : ℕ} {ws : List PageView}
    → r ≡ q
    → t.meta ≡ s.meta
    → Places t q x ws
    → Places s r x ws
Places-trans e m p = record {
  final = p.final;
  runs = e ∙ p.runs;
  meta = p.meta ∙ m;
  laid_out = p.laid_out;
}

module _ (ps : ℕ) (c : Caller) (size a : ℕ) (vs : List PageView) where
  place-some : (r : ℕ × List PageView) → place_in ps c size a vs ≡ some r → place ps c size a vs ≡ r
  unfolding place
  place-some r e = rw e

  abbrev fresh_view : PageView
  fresh_view = new_view (request_of c) (tid_of c)

  place-none :
      place_in ps c size a vs ≡ none
      → place ps c size a vs
        ≡ (next_data (a + width ps vs) fresh_view, vs ++ grown size fresh_view ∷ [])
  unfolding place
  place-none e = rw e

  -- With the new page behind them the pages have room.
  place_in-new :
      size + sizeof_page + 2 * sizeof_block ≤ ps
      → place_in ps c size a vs ≡ none
      → place_in ps c size a (vs ++ fresh_view ∷ [])
        ≡ some (next_data (a + width ps vs) fresh_view, vs ++ grown size fresh_view ∷ [])
  place_in-new fits e =
      place_in-append ps c size a (a + width ps vs) vs (fresh_view ∷ []) e refl
      ∙ ap (keep_all vs)
          (place_in-hit ps c size (a + width ps vs) fresh_view [] (takes-new ps c size fits))
      ∙ keep_all-some vs _ (grown size fresh_view ∷ [])

allocate_for-new :
    (tries fuel : ℕ) (garbage : ℕ → Garbage) (c : Caller) (size : ℕ) (s : MemState)
    (vs : List PageView)
    → IsLaidOut s vs
    → All (IsRoomy s.meta.page_size c size) vs
    → ((n : ℕ) → IsZero (garbage n))
    → size + sizeof_page + 2 * sizeof_block ≤ s.meta.page_size
    → sizeof_metadata + width s.meta.page_size vs + s.meta.page_size + sizeof_page ≤ physical_size
    → physical_size ≤ fuel
    → place_in s.meta.page_size c size (s.meta.address + sizeof_metadata) vs ≡ none
    → let v = new_view (request_of c) (tid_of c) in
      Places s
        (allocate_for (suc (suc tries)) fuel garbage c size s)
        (next_data (s.meta.address + sizeof_metadata + width s.meta.page_size vs) v)
        (vs ++ grown size v ∷ [])
allocate_for-new tries fuel garbage c size s vs l roomy z fits room enough e =
    let ps = s.meta.page_size in
    let a = s.meta.address + sizeof_metadata in
    let g = garbage (suc tries) in
    let t = extended fuel g (request_of c) (tid_of c) s vs l in
    let few : length vs + 1 < fuel = omega (arith, l.large, l.room, length-width ps vs) in
    Places-trans
      (allocate_for-retry (suc tries) fuel garbage c size s t
        (subst (λ h. page_loop fuel fuel c size h s ≡ ok none s) (sym l.head)
          (page_loop-none fuel c size fuel s a _ vs l.pages (omega arith) (omega arith)
            (omega arith) e))
        (assign_page-ok fuel g (request_of c) (tid_of c) s vs l (z (suc tries)).0 (omega arith)
          room))
      refl
      (allocate_for-in fuel garbage c size t (vs ++ new_view (request_of c) (tid_of c) ∷ [])
        (extended-IsLaidOut fuel g (request_of c) (tid_of c) s vs l (z (suc tries)) room)
        (All-append (IsRoomy ps c size) vs _ roomy (λ _. omega arith)) enough (omega arith) tries _
        _ (place_in-new ps c size a vs fits e))

-- `allocate_for_scheduler` and `allocate_for_thread` return, within two tries, the address that the
-- abstract first-fit allocator chooses, and leave its pages laid out in memory, if: the page list
-- is laid out; the uninitialised locals hold zero; each page that the code's tests accept has room
-- for the block and one more header; a page can hold such a block; there is room for one more page.
pub allocate_for-place :
    (tries fuel : ℕ) (garbage : ℕ → Garbage) (c : Caller) (size : ℕ) (s : MemState)
    (vs : List PageView)
    → IsLaidOut s vs
    → All (IsRoomy s.meta.page_size c size) vs
    → ((n : ℕ) → IsZero (garbage n))
    → size + sizeof_page + 2 * sizeof_block ≤ s.meta.page_size
    → sizeof_metadata + width s.meta.page_size vs + s.meta.page_size + sizeof_page ≤ physical_size
    → physical_size ≤ fuel
    → let r = place s.meta.page_size c size (s.meta.address + sizeof_metadata) vs in
      Places s (allocate_for (suc (suc tries)) fuel garbage c size s) r.0 r.1
allocate_for-place tries fuel garbage c size s vs l roomy z fits room enough =
    let ps = s.meta.page_size in
    let a = s.meta.address + sizeof_metadata in
    elim (Option-cases (place_in ps c size a vs)) [
      | inl e ↦
          rw (place-none ps c size a vs e)
            (allocate_for-new tries fuel garbage c size s vs l roomy z fits room enough e)
      | inr ((x, ws), e) ↦
          rw (place-some ps c size a vs (x, ws) e) (
            allocate_for-in fuel garbage c size s vs l roomy enough (omega arith) (suc tries) x ws
              e)
    ]
