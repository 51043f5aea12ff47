-- ===== src/Memory/Store.antt =====
-- The laws of the typed memory.
use virtual_memory_simulatio.Base.{
  ℕ, ◌+◌, ◌≤◌, ◌<◌, ◌≡◌, refl, ◌≢◌, ◌⊎◌, none, some, arith, Option-cases, inl, inr, sym, ==_ne,
}
use virtual_memory_simulatio.Memory.{
  Page, Block, Object, page, block, size_of, Memory, store, MemState, ok, fault, out_of_bounds,
  bad_read, copy_out, load_page, load_block, physical_size,
}

pub store_self : (a : ℕ) (o : Object) (m : Memory) → store a o m a ≡ some o
unfolding store
store_self a o m = ground arith

-- The `n` bytes from `a` on and the `m` bytes from `b` on are apart.
abbrev pub Apart : ℕ → ℕ → ℕ → ℕ → Type 0
Apart a n b m = (a + n ≤ b) ⊎ (b + m ≤ a)

-- A struct survives a copy to bytes apart from its own.
pub store-Apart :
    (a : ℕ) (o : Object) (m : Memory) (x : ℕ) (p : Object)
    → m x ≡ some p
    → Apart x (size_of p) a (size_of o)
    → 0 < size_of p
    → 0 < size_of o
    → store a o m x ≡ some p
unfolding store
store-Apart a o m x p e d hp ho = rw e (ground arith)

-- A struct that a copy overlaps is destroyed.
pub store_overlap :
    (a : ℕ) (o : Object) (m : Memory) (x : ℕ)
    → a ≢ x
    → x < a + size_of o
    → ((p : Object) → m x ≡ some p → a < x + size_of p)
    → store a o m x ≡ none
unfolding store
store_overlap a o m x ne h k = elim (Option-cases (m x)) [
  | inl e ↦ rw (==_ne x a (λ q. ne (sym q)), e) refl
  | inr (p, e) ↦ rw (==_ne x a (λ q. ne (sym q)), e) (ground (arith, k p e))
]

pub size_of_pos : (o : Object) → 0 < size_of o
size_of_pos (page p) = omega arith
size_of_pos (block p) = omega arith
size_of_pos _ = omega arith

module _ (s : MemState) (a : ℕ) where
  pub copy_out-ok :
      (o : Object)
      → s.meta.address ≤ a
      → a + size_of o ≤ s.meta.address + physical_size
      → copy_out a o s ≡ ok tt (record s { mem = store a o s.mem })
  unfolding copy_out
  copy_out-ok o lo hi = ground arith

  pub load_page-ok : {p : Page} → s.mem a ≡ some (page p) → load_page a s ≡ ok p s
  unfolding load_page
  load_page-ok e = rw e

  pub load_block-ok : {b : Block} → s.mem a ≡ some (block b) → load_block a s ≡ ok b s
  unfolding load_block
  load_block-ok e = rw e

pub copy_out-fault :
    (s : MemState) (a : ℕ) (o : Object)
    → s.meta.address + physical_size < a + size_of o
    → copy_out a o s ≡ fault out_of_bounds
unfolding copy_out
copy_out-fault s a o h = ground arith

pub store-none :
    (a : ℕ) (o : Object) (m : Memory) (x : ℕ) → m x ≡ none → x ≢ a → store a o m x ≡ none
unfolding store
store-none a o m x e ne = rw (==_ne x a ne, e)

pub load_page-none : (s : MemState) (a : ℕ) → s.mem a ≡ none → load_page a s ≡ fault bad_read
unfolding load_page
load_page-none s a e = rw e

pub load_page-block :
    (s : MemState) (a : ℕ) {b : Block} → s.mem a ≡ some (block b) → load_page a s ≡ fault bad_read
unfolding load_page
load_page-block s a e = rw e
