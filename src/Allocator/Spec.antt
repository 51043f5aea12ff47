-- ===== src/Allocator/Spec.antt =====
-- The abstract allocator: first fit over the page views, one block behind the other in a page, and
-- a new page at the end when no page has room.
use virtual_memory_simulatio.Base.{
  ℕ, ◌+◌, ◌-◌, ◌*◌, sym, ap, ◌∙◌, ◌≤◌, ◌≡◌, refl, inl, inr, true, false, Option, none, some, List,
  [], ◌∷◌, ◌++◌, arith, Bool, ◌&&◌, not, leb, if◌then◌else◌, ==_refl, lt→leb, le→leb, Bool-cases,
}
use virtual_memory_simulatio.Memory.{sizeof_page, sizeof_block}
use virtual_memory_simulatio.Pager.Layout.{PageView, used, width}
use virtual_memory_simulatio.Pager.Split.{new_view}
use virtual_memory_simulatio.BlockList.Layout.{span}
use virtual_memory_simulatio.Allocator.{
  Caller, scheduler, thread, request_of, tid_of, is_own, is_full,
}

-- The page with one more block.
abbrev pub grown : ℕ → PageView → PageView
grown size v = record v { sizes = v.sizes ++ size ∷ [] }

-- Where the data of the next block of a page at `a` begins.
abbrev pub next_data : ℕ → PageView → ℕ
next_data a v = a + sizeof_page + span v.sizes + sizeof_block

abbrev pub keep : PageView → Option (ℕ × List PageView) → Option (ℕ × List PageView)
keep v none = none
keep v (some (x, ws)) = some (x, v ∷ ws)

pub keep-none : (v : PageView) (r : Option (ℕ × List PageView)) → keep v r ≡ none → r ≡ none
keep-none v none h = refl
keep-none v (some (x, ws)) h = cc

pub some-ne-none :
    {r : Option (ℕ × List PageView)} {x : ℕ × List PageView} → r ≡ some x → r ≡ none → ⊥
some-ne-none p q = cc

-- The page behind which the rest of the pages was searched.
pub keep-some :
    (v : PageView) (r : Option (ℕ × List PageView)) {x : ℕ} {ws : List PageView}
    → keep v r ≡ some (x, ws)
    → (us : List PageView) × (r ≡ some (x, us)) × (ws ≡ v ∷ us)
keep-some v none h = cc
keep-some v (some (y, us)) h = (us, cc, cc)

abbrev pub keep_all : List PageView → Option (ℕ × List PageView) → Option (ℕ × List PageView)
keep_all [] r = r
keep_all (v ∷ vs) r = keep v (keep_all vs r)

pub keep_all-some :
    (vs : List PageView) (x : ℕ) (ws : List PageView)
    → keep_all vs (some (x, ws)) ≡ some (x, vs ++ ws)
keep_all-some [] x ws = refl
keep_all-some (v ∷ vs) x ws = rw (keep_all-some vs x ws)

module _ (ps : ℕ) (c : Caller) (size : ℕ) where
  -- The page is the caller's, not full in the caller's eyes, and its unallocated block passes the
  -- test for the size.
  abbrev pub takes : PageView → Bool
  takes v =
      (is_own c v.request_id v.tid && not (is_full c ps size (used v))) && leb size (ps - used v)

  pub place_in : ℕ → List PageView → Option (ℕ × List PageView)
  place_in a [] = none
  place_in a (v ∷ vs) =
      if takes v then some (next_data a v, grown size v ∷ vs) else keep v (place_in (a + ps) vs)

  abbrev pub or_new : ℕ → List PageView → Option (ℕ × List PageView) → ℕ × List PageView
  or_new a vs (some r) = r
  or_new a vs none =
      let v = new_view (request_of c) (tid_of c) in
      (next_data (a + width ps vs) v, vs ++ grown size v ∷ [])

  -- The address of the new block's data, and the pages with it.
  unfoldable pub place : ℕ → List PageView → ℕ × List PageView
  unfolding place_in
  place a vs = or_new a vs (place_in a vs)

  -- A page that the allocator takes has room for the header of one more block.
  abbrev pub IsRoomy : PageView → Type 0
  IsRoomy v = takes v ≡ true → size + 2 * sizeof_block ≤ ps - used v

  pub place_in-hit :
      (a : ℕ) (v : PageView) (vs : List PageView)
      → takes v ≡ true
      → place_in a (v ∷ vs) ≡ some (next_data a v, grown size v ∷ vs)
  unfolding place_in
  place_in-hit a v vs h = rw h

  pub place_in-miss :
      (a : ℕ) (v : PageView) (vs : List PageView)
      → takes v ≡ false
      → place_in a (v ∷ vs) ≡ keep v (place_in (a + ps) vs)
  unfolding place_in
  place_in-miss a v vs h = rw h

  pub place_in-nil : (a : ℕ) → place_in a [] ≡ none
  unfolding place_in
  place_in-nil a = refl

  -- Pages that do not take the block are passed over.
  pub place_in-append :
      (a b : ℕ) (vs ws : List PageView)
      → place_in a vs ≡ none
      → b ≡ a + width ps vs
      → place_in a (vs ++ ws) ≡ keep_all vs (place_in b ws)
  place_in-append a b [] ws h q = let q' : a ≡ b = omega arith in rw q' refl
  place_in-append a b (v ∷ vs) ws h q = elim (Bool-cases (takes v)) [
    | inl hit ↦ absurd (some-ne-none (place_in-hit a v vs hit) h)
    | inr miss ↦ rw (
      place_in-miss a v (vs ++ ws) miss,
      place_in-append (a + ps) b vs ws
          (keep-none v (place_in (a + ps) vs) (sym (place_in-miss a v vs miss) ∙ h)) (omega arith),
    )
  ]

  -- A new page takes the block, if a page can hold it at all.
  pub takes-new :
      size + sizeof_page + 2 * sizeof_block ≤ ps → takes (new_view (request_of c) (tid_of c)) ≡ true
  takes-new h = new c
    where
      new :
          (d : Caller)
          → (is_own d (request_of d) (tid_of d) && not (is_full d ps size sizeof_page))
              && leb size (ps - sizeof_page)
            ≡ true
      new scheduler =
          rw (lt→leb ps sizeof_page (omega arith), le→leb size (ps - sizeof_page) (omega arith))
      new (thread tid) = rw (
        ==_refl tid,
        lt→leb ps (sizeof_page + size) (omega arith),
        le→leb size (ps - sizeof_page) (omega arith),
      )

  pub width-place_in :
      (a : ℕ) (vs : List PageView) {x : ℕ} {ws : List PageView}
      → place_in a vs ≡ some (x, ws)
      → width ps ws ≡ width ps vs
  width-place_in a [] h = absurd (some-ne-none h (place_in-nil a))
  width-place_in a (v ∷ vs) h = elim (Bool-cases (takes v)) [
    | inl hit ↦ width-hit v vs (sym (place_in-hit a v vs hit) ∙ h)
    | inr miss ↦
        let (us, found, e) = keep-some v _ (sym (place_in-miss a v vs miss) ∙ h) in
        rw e (ap (λ n. ps + n) (width-place_in (a + ps) vs found))
  ]
    where
      width-hit :
          (v : PageView) (vs : List PageView) {x y : ℕ} {ws : List PageView}
          → ◌≡◌ {A = Option (ℕ × List PageView)} (some (y, grown size v ∷ vs)) (some (x, ws))
          → width ps ws ≡ width ps (v ∷ vs)
      width-hit v vs {ws} e = let ew : ws ≡ grown size v ∷ vs = cc in rw ew refl
