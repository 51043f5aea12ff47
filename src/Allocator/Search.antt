-- ===== src/Allocator/Search.antt =====
-- The loop over the pages finds what the abstract allocator finds in the pages that there are.
use virtual_memory_simulatio.Base.{
  ℕ, zero, suc, ◌+◌, ◌-◌, ◌*◌, sym, ◌∙◌, ◌≤◌, ◌<◌, ◌≡◌, refl, inl, inr, true, false, Option, none,
  some, List, [], ◌∷◌, arith, Bool-cases, All, length,
}
use virtual_memory_simulatio.Memory.{
  sizeof_page, sizeof_block, physical_size, Memory, MemState, null, ok, Run,
}
use virtual_memory_simulatio.Pager.{unassign_pg}
use virtual_memory_simulatio.Pager.Layout.{
  PageView, used, width, PageAt, Pages, KeepsIn, PageAt-keep, Pages-keep,
}
use virtual_memory_simulatio.Allocator.{Caller, scheduler, thread, worth_trying, page_loop}
use virtual_memory_simulatio.Allocator.Spec.{
  keep-some, some-ne-none, keep-none, takes, IsRoomy, grown, next_data, place_in, place_in-hit,
  place_in-miss, place_in-nil,
}
use virtual_memory_simulatio.Allocator.Round.{
  page_loop-null, page_loop-skip, placed, placed-PageAt, placed-below, placed-above, page_loop-miss,
  page_loop-hit,
}

-- Nothing is found, and nothing is changed.
pub page_loop-none :
    (block_fuel : ℕ) (c : Caller) (size fuel : ℕ) (s : MemState) (a end : ℕ) (vs : List PageView)
    → Pages s.mem s.meta.page_size a vs end
    → 0 < a
    → s.meta.page_size ≤ block_fuel
    → suc (length vs) < fuel
    → place_in s.meta.page_size c size a vs ≡ none
    → page_loop fuel block_fuel c size a s ≡ ok none s
page_loop-none bf c size zero s a end vs h p e f q = absurd (omega arith)
page_loop-none bf c size (suc zero) s a end vs h p e f q = absurd (omega arith)
page_loop-none bf c size (suc (suc fuel)) s a end [] h p e f q =
    page_loop-skip bf c size (suc fuel) a s h p (unassigned_skip c)
    ∙ page_loop-null bf c size fuel s
  where
    unassigned_skip :
        (d : Caller) → worth_trying d s.meta.page_size size (unassign_pg a end null) ≡ false
    unassigned_skip scheduler = refl
    unassigned_skip (thread tid) = refl
page_loop-none bf c size (suc (suc fuel)) s a end (v ∷ vs) (hv, h) p e f q =
    let ps = s.meta.page_size in
    elim (Bool-cases (takes ps c size v)) [
      | inl hit ↦ absurd (some-ne-none (place_in-hit ps c size a v vs hit) q)
      | inr miss ↦
          page_loop-miss bf c size (suc fuel) s a v hv p e miss
          ∙ page_loop-none bf c size (suc fuel) s (a + ps) end vs h (omega arith) e (omega arith)
              (keep-none v _ (sym (place_in-miss ps c size a v vs miss) ∙ q))
    ]

-- What the loop does when the abstract allocator finds room in the pages that there are.
pub record Found (s : MemState) (r : Run (Option ℕ)) (a end x : ℕ) (ws : List PageView)
    : Type 0 where
  pub mem : Memory
  pub runs : r ≡ ok (some x) (record s { mem = mem })
  pub below : KeepsIn 0 a s.mem mem
  pub pages : Pages mem s.meta.page_size a ws end

Found-hit :
    (block_fuel : ℕ) (c : Caller) (size fuel : ℕ) (s : MemState) (a end : ℕ) (v : PageView)
    (vs : List PageView)
    → PageAt s.mem s.meta.page_size a v
    → Pages s.mem s.meta.page_size (a + s.meta.page_size) vs end
    → takes s.meta.page_size c size v ≡ true
    → size + 2 * sizeof_block ≤ s.meta.page_size - used v
    → 0 < a
    → s.meta.page_size ≤ block_fuel
    → s.meta.address ≤ a
    → a + s.meta.page_size ≤ s.meta.address + physical_size
    → Found s (page_loop (suc fuel) block_fuel c size a s) a end (next_data a v) (grown size v ∷ vs)
Found-hit bf c size fuel s a end v vs hv h hit roomy p e lo hi =
    let ps = s.meta.page_size in
    record {
      mem = placed ps size a v s.mem;
      runs = page_loop-hit bf c size fuel s a v hv p e hit roomy lo hi;
      below = placed-below ps size a v s.mem hv roomy;
      pages = (
        placed-PageAt ps size a v s.mem hv roomy,
        Pages-keep (a + ps) (a + ps + width ps vs + sizeof_page) s.mem (placed ps size a v s.mem)
            (placed-above ps size a v s.mem hv roomy _) ps (a + ps) end vs h (omega arith)
            (omega arith),
      );
    }

Found-miss :
    (block_fuel : ℕ) (c : Caller) (size fuel : ℕ) (s : MemState) (a end : ℕ) (v : PageView) {x : ℕ}
    {ws : List PageView}
    → PageAt s.mem s.meta.page_size a v
    → takes s.meta.page_size c size v ≡ false
    → 0 < a
    → s.meta.page_size ≤ block_fuel
    → Found s
        (page_loop fuel block_fuel c size (a + s.meta.page_size) s)
        (a + s.meta.page_size)
        end
        x
        ws
    → Found s (page_loop (suc fuel) block_fuel c size a s) a end x (v ∷ ws)
Found-miss bf c size fuel s a end v hv miss p e r =
    let ps = s.meta.page_size in
    record {
      mem = r.mem;
      runs = page_loop-miss bf c size fuel s a v hv p e miss ∙ r.runs;
      below = λ y o held lo hi. r.below y o held lo (omega arith);
      pages = (
        PageAt-keep 0 (a + ps) s.mem r.mem r.below ps a v hv (omega arith) (omega arith),
        r.pages,
      );
    }

pub page_loop-some :
    (block_fuel : ℕ) (c : Caller) (size fuel : ℕ) (s : MemState) (a end : ℕ) (vs : List PageView)
    (x : ℕ) (ws : List PageView)
    → Pages s.mem s.meta.page_size a vs end
    → All (IsRoomy s.meta.page_size c size) vs
    → 0 < a
    → s.meta.page_size ≤ block_fuel
    → length vs < fuel
    → s.meta.address ≤ a
    → a + width s.meta.page_size vs ≤ s.meta.address + physical_size
    → place_in s.meta.page_size c size a vs ≡ some (x, ws)
    → Found s (page_loop fuel block_fuel c size a s) a end x ws
page_loop-some bf c size zero s a end vs x ws h roomy p e f lo hi q = absurd (omega arith)
page_loop-some bf c size (suc fuel) s a end [] x ws h roomy p e f lo hi q =
    absurd (some-ne-none q (place_in-nil s.meta.page_size c size a))
page_loop-some bf c size (suc fuel) s a end (v ∷ vs) x ws (hv, h) (rv, roomy) p e f lo hi q =
    let ps = s.meta.page_size in
    elim (Bool-cases (takes ps c size v)) [
      | inl hit ↦
          let got = sym (place_in-hit ps c size a v vs hit) ∙ q in
          let ex : x ≡ next_data a v = cc got in
          let ew : ws ≡ grown size v ∷ vs = cc got in
          rw (ex, ew) (Found-hit bf c size fuel s a end v vs hv h hit (rv hit) p e lo (omega arith))
      | inr miss ↦
          let (us, found, ew) = keep-some v _ (sym (place_in-miss ps c size a v vs miss) ∙ q) in
          rw ew (
            Found-miss bf c size fuel s a end v hv miss p e (
              page_loop-some bf c size fuel s (a + ps) end vs x us h roomy (omega arith) e
                (omega arith) (omega arith) (omega arith) found))
    ]
