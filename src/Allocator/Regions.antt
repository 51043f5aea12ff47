-- ===== src/Allocator/Regions.antt =====
-- The data areas that have been handed out.
use virtual_memory_simulatio.Base.{
  ℕ, ◌+◌, ◌≤◌, ◌≡◌, inl, inr, some, List, [], ◌∷◌, ◌++◌, arith, ◌∙◌, ap, sym, Bool-cases,
  Option-cases, subst,
}
use mathlib.Core.List.{Perm, perm_middle, append_assoc, append-nil}
use mathlib.Core.List.Perm
use virtual_memory_simulatio.Memory.{
  sizeof_page, sizeof_block, sizeof_metadata, physical_size, MemState, Memory,
}
use virtual_memory_simulatio.Pager.Layout.{PageView, width, Pages, IsLaidOut}
use virtual_memory_simulatio.Pager.Split.{new_view}
use virtual_memory_simulatio.BlockList.Layout.{span}
use virtual_memory_simulatio.Allocator.{Caller, request_of, tid_of}
use virtual_memory_simulatio.Allocator.Spec.{
  takes, grown, next_data, keep-some, place, place_in, place_in-hit, place_in-miss, place_in-nil,
  some-ne-none,
}

-- An address and the number of bytes from there on.
abbrev pub Region : Type 0
Region = ℕ × ℕ

-- The data areas of the blocks from `a` on, of one page and of all.
abbrev pub block_regions : ℕ → List ℕ → List Region
block_regions a [] = []
block_regions a (n ∷ ns) = (a + sizeof_block, n) ∷ block_regions (a + (n + sizeof_block)) ns

abbrev pub regions : ℕ → ℕ → List PageView → List Region
regions page_size a [] = []
regions page_size a (v ∷ vs) =
    block_regions (a + sizeof_page) v.sizes ++ regions page_size (a + page_size) vs

-- The regions rise from `lo` to `hi`, each behind a block header of its own and none into another.
abbrev pub Rises : ℕ → List Region → ℕ → Type 0
Rises lo [] hi = lo ≤ hi
Rises lo ((x, n) ∷ rs) hi = (lo + sizeof_block ≤ x) × Rises (x + n) rs hi

Rises-append :
    (lo mid hi : ℕ) (rs qs : List Region)
    → Rises lo rs mid
    → Rises mid qs hi
    → Rises lo (rs ++ qs) hi
Rises-append lo mid hi [] [] h k = omega arith
Rises-append lo mid hi [] ((x, n) ∷ qs) h k = (omega arith, k.1)
Rises-append lo mid hi ((x, n) ∷ rs) qs h k = (h.0, Rises-append (x + n) mid hi rs qs h.1 k)

Rises-blocks : (a hi : ℕ) (ns : List ℕ) → a + span ns ≤ hi → Rises a (block_regions a ns) hi
Rises-blocks a hi [] h = omega arith
Rises-blocks a hi (n ∷ ns) h = (
  omega arith,
  raise (a + sizeof_block + n) (a + (n + sizeof_block)) (block_regions (a + (n + sizeof_block)) ns)
      (omega arith) (Rises-blocks (a + (n + sizeof_block)) hi ns (omega arith)),
)
  where
    raise : (x y : ℕ) (rs : List Region) → x ≡ y → Rises y rs hi → Rises x rs hi
    raise x y rs e h = rw e h

Rises-Pages :
    (m : Memory) (ps a end hi : ℕ) (vs : List PageView)
    → Pages m ps a vs end
    → a + width ps vs ≤ hi
    → Rises a (regions ps a vs) hi
Rises-Pages m ps a end hi [] h le = omega arith
Rises-Pages m ps a end hi (v ∷ vs) ((e, b, fits), h) le =
    Rises-append a (a + ps) hi (block_regions (a + sizeof_page) v.sizes) (regions ps (a + ps) vs)
      (Rises-lower a (a + sizeof_page) (a + ps) (block_regions (a + sizeof_page) v.sizes)
        (omega arith) (Rises-blocks (a + sizeof_page) (a + ps) v.sizes (omega arith)))
      (Rises-Pages m ps (a + ps) end hi vs h (omega arith))
  where
    Rises-lower : (x y hi : ℕ) (rs : List Region) → x ≤ y → Rises y rs hi → Rises x rs hi
    Rises-lower x y hi [] le h = omega arith
    Rises-lower x y hi ((z, n) ∷ rs) le h = (omega arith, h.1)

-- In every laid out state the data areas that have been handed out lie in the physical memory
-- behind the metadata, each behind a header of its own, and no two have a byte in common.
pub regions-Rises :
    (s : MemState) (vs : List PageView)
    → IsLaidOut s vs
    → let a = s.meta.address + sizeof_metadata in
      Rises a (regions s.meta.page_size a vs) (s.meta.address + physical_size)
regions-Rises s vs l =
    Rises-Pages s.mem s.meta.page_size (s.meta.address + sizeof_metadata) _ _ vs l.pages
      (omega (arith, l.room))

block_regions-append :
    (a : ℕ) (ns : List ℕ) (n : ℕ)
    → block_regions a (ns ++ n ∷ []) ≡ block_regions a ns ++ (a + span ns + sizeof_block, n) ∷ []
block_regions-append a [] n = ap (λ x. (x + sizeof_block, n) ∷ []) (omega arith)
block_regions-append a (k ∷ ns) n =
    ap (λ rs. (a + sizeof_block, k) ∷ rs)
      (block_regions-append (a + (k + sizeof_block)) ns n
        ∙ ap (λ x. block_regions (a + (k + sizeof_block)) ns ++ (x + sizeof_block, n) ∷ [])
            (omega arith))

-- A grown page has one data area more.
regions-grown :
    (ps size a : ℕ) (v : PageView) (vs : List PageView)
    → Perm (regions ps a (grown size v ∷ vs)) ((next_data a v, size) ∷ regions ps a (v ∷ vs))
regions-grown ps size a v vs =
    rw (block_regions-append (a + sizeof_page) v.sizes size, append_assoc) (perm_middle _ _)

module _ (ps : ℕ) (c : Caller) (size : ℕ) where
  regions-place_in :
      (a : ℕ) (vs : List PageView) {x : ℕ} {ws : List PageView}
      → place_in ps c size a vs ≡ some (x, ws)
      → Perm (regions ps a ws) ((x, size) ∷ regions ps a vs)
  regions-place_in a [] h = absurd (some-ne-none h (place_in-nil ps c size a))
  regions-place_in a (v ∷ vs) {x} {ws} h = elim (Bool-cases (takes ps c size v)) [
    | inl hit ↦
        let got = sym (place_in-hit ps c size a v vs hit) ∙ h in
        let ex : x ≡ next_data a v = cc got in
        let ew : ws ≡ grown size v ∷ vs = cc got in rw (ex, ew) (regions-grown ps size a v vs)
    | inr miss ↦
        let (us, found, e) = keep-some v _ (sym (place_in-miss ps c size a v vs miss) ∙ h) in
        rw e (
          Perm.trans
            (Perm.append_left (block_regions (a + sizeof_page) v.sizes)
              (regions-place_in (a + ps) vs found))
            (perm_middle _ _))
  ]

  regions-append :
      (a : ℕ) (vs ws : List PageView)
      → regions ps a (vs ++ ws) ≡ regions ps a vs ++ regions ps (a + width ps vs) ws
  regions-append a [] ws = ap (λ x. regions ps x ws) (omega arith)
  regions-append a (v ∷ vs) ws =
      ap (λ rs. block_regions (a + sizeof_page) v.sizes ++ rs)
        (regions-append (a + ps) vs ws
          ∙ ap (λ x. regions ps (a + ps) vs ++ regions ps x ws) (omega arith))
      ∙ sym (append_assoc (block_regions (a + sizeof_page) v.sizes) _ _)

  regions-new :
      (a : ℕ) (vs : List PageView)
      → let v = new_view (request_of c) (tid_of c) in
        Perm
          (regions ps a (vs ++ grown size v ∷ []))
          ((next_data (a + width ps vs) v, size) ∷ regions ps a vs)
  regions-new a vs =
      let v = new_view (request_of c) (tid_of c) in
      let x : a + width ps vs + sizeof_page + sizeof_block ≡ next_data (a + width ps vs) v =
        omega arith in
      rw (regions-append a vs (grown size v ∷ []), x)
        (subst
          (λ rs.
            Perm (regions ps a vs ++ (next_data (a + width ps vs) v, size) ∷ [])
              ((next_data (a + width ps vs) v, size) ∷ rs))
          (append-nil (regions ps a vs)) (perm_middle (regions ps a vs) []))

  -- The abstract allocator hands out one data area of the size that is asked for, at the address
  -- that it returns, and keeps all that it has handed out before as they are.
  pub regions-place :
      (a : ℕ) (vs : List PageView)
      → let (x, ws) = place ps c size a vs in Perm (regions ps a ws) ((x, size) ∷ regions ps a vs)
  unfolding place
  regions-place a vs = elim (Option-cases (place_in ps c size a vs)) [
    | inl e ↦ rw e (regions-new a vs)
    | inr ((x, ws), e) ↦ rw e (regions-place_in a vs e)
  ]
