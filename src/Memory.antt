-- ===== src/Memory.antt =====
-- The data of memory_manager.h, the simulated physical memory of memory_manager.c and the monad
-- of its functions. An address is a number and NULL is 0. The memory holds the structs that the
-- manager copies into it, each at its first byte; copying a struct over a part of another one
-- destroys that one. What user code keeps in the data areas is not modelled.
pub mod Store
pub mod Tests
pub use virtual_memory_simulatio.Base.State.{
  Fault, out_of_bounds, bad_read, out_of_fuel, exited, ok, fault, pure, fail, and_then, ◌>>=◌, ◌>>◌,
}
use virtual_memory_simulatio.Base.State.{Outcome}
use virtual_memory_simulatio.Base.{
  ℕ, ◌+◌, ◌*◌, ◌-◌, ◌^◌, ◌≡◌, Bool, true, false, ◌&&◌, Option, none, some, ◌==◌, leb, ltb,
  if◌then◌else◌, ℤ,
}

pub data RequestId : Type 0 where
  unknown libraryreq threadreq : RequestId

pub data BlockState : Type 0 where
  unallocated allocated : BlockState

pub data PageState : Type 0 where
  assigned unassigned : PageState

-- `struct block`. `total_size` is an `int` that a subtraction can make negative.
pub record Block : Type 0 where
  pub state : BlockState
  pub data_size : ℕ
  pub total_size : ℤ
  pub block_address : ℕ
  pub data_address : ℕ
  pub next : ℕ

-- `struct page`, but for `next_owner_page`, which no code reads or writes.
pub record Page : Type 0 where
  pub state : PageState
  pub request_id : RequestId
  pub tid : ℕ
  pub size_of_allocated : ℕ
  pub start_address : ℕ
  pub end_address : ℕ
  pub block_list_head : ℕ
  pub next : ℕ

-- `struct memory_metadata`
pub record MemoryMetadata : Type 0 where
  pub page_size : ℕ
  pub number_pages : ℕ
  pub address : ℕ
  pub page_list_head : ℕ

abbrev pub null : ℕ
null = 0

-- `(my_pthread_t) -1`
abbrev pub tid_max : ℕ
tid_max = 2 ^ 32 - 1

-- The sizes of the structs under the LP64 data model.
abbrev pub sizeof_page : ℕ
sizeof_page = 64

abbrev pub sizeof_block : ℕ
sizeof_block = 40

abbrev pub sizeof_metadata : ℕ
sizeof_metadata = 32

abbrev pub physical_size : ℕ
physical_size = 8388608

-- A struct that has been copied into memory.
pub data Object : Type 0 where
  page : Page → Object
  block : Block → Object
  metadata : MemoryMetadata → Object

abbrev pub size_of : Object → ℕ
size_of (page _) = sizeof_page
size_of (block _) = sizeof_block
size_of (metadata _) = sizeof_metadata

abbrev pub Memory : Type 0
Memory = ℕ → Option Object

-- The `n` bytes from `a` on and the `m` bytes from `b` on have a byte in common.
abbrev pub overlaps : ℕ → ℕ → ℕ → ℕ → Bool
overlaps a n b m = ltb a (b + m) && ltb b (a + n)

-- What is left at `x` of `old` when `o` is copied to `a`.
abbrev pub survivor : ℕ → Object → ℕ → Object → Option Object
survivor a o x old = if overlaps x (size_of old) a (size_of o) then none else some old

-- The memory after `memcpy` of a struct to `a`.
unfoldable pub store : ℕ → Object → Memory → Memory
store a o m x =
    if x == a then some o else elim (m x) [ none ↦ none | some old ↦ survivor a o x old ]

-- The globals MEMORY_METADATA, INIT_MEMORY_METADATA and PHYSICAL_MEMORY.
pub record MemState : Type 0 where
  pub initialized : Bool
  pub meta : MemoryMetadata
  pub mem : Memory

abbrev pub Run : Type 0 → Type 0
Run A = Outcome MemState A

abbrev pub Cmd : Type 0 → Type 0
Cmd A = MemState → Outcome MemState A

-- The `n` bytes from `a` on lie in PHYSICAL_MEMORY.
abbrev pub in_memory : MemState → ℕ → ℕ → Bool
in_memory s a n = leb s.meta.address a && leb (a + n) (s.meta.address + physical_size)

-- `memcpy(a, &o, sizeof(o))`
pub copy_out : ℕ → Object → Cmd (Unit {0})
unfolding store
copy_out a o s =
    if in_memory s a (size_of o)
    then ok tt (record s { mem = store a o s.mem })
    else fault out_of_bounds

abbrev page_found : Option Object → Cmd Page
page_found (some (page p)) s = ok p s
page_found (some (block b)) s = fault bad_read
page_found (some (metadata d)) s = fault bad_read
page_found none s = fault bad_read

abbrev block_found : Option Object → Cmd Block
block_found (some (page p)) s = fault bad_read
block_found (some (block b)) s = ok b s
block_found (some (metadata d)) s = fault bad_read
block_found none s = fault bad_read

-- `memcpy(&pg, a, sizeof(struct page))`
pub load_page : ℕ → Cmd Page
load_page a s = page_found (s.mem a) s

-- `memcpy(&blk, a, sizeof(struct block))`
pub load_block : ℕ → Cmd Block
load_block a s = block_found (s.mem a) s
