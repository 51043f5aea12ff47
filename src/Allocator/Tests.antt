-- ===== src/Allocator/Tests.antt =====
-- The allocator's theorems at a fresh memory of 4096-byte pages at address 4096.
use virtual_memory_simulatio.Base.{◌+◌, ◌*◌, ◌≡◌, ◌≢◌, refl, List, [], ◌∷◌, arith, length}
use virtual_memory_simulatio.Memory.{
  MemState, unknown, libraryreq, threadreq, fault, out_of_bounds, sizeof_metadata, physical_size,
}
use virtual_memory_simulatio.Memory.Tests.{blank, zeros}
use virtual_memory_simulatio.Pager.Layout.{PageView, width, IsLaidOut}
use virtual_memory_simulatio.Pager.Init.{fresh, fresh-IsLaidOut}
use virtual_memory_simulatio.Pager.Split.{new_view, extended, extended-IsLaidOut}
use virtual_memory_simulatio.Allocator.{scheduler, thread, my_allocate, allocate_for}
use virtual_memory_simulatio.Allocator.Spec.{place}
use virtual_memory_simulatio.Allocator.Refine.{Places}
use virtual_memory_simulatio.Allocator.Entry.{my_allocate-place, my_allocate_first-place}
use virtual_memory_simulatio.Allocator.Safety.{HandsOut, my_allocate-HandsOut}
use virtual_memory_simulatio.Allocator.Oversize.{allocate_for_oversize}

abbrev start : MemState
start = fresh 4096 4096 blank

start-IsLaidOut : IsLaidOut start []
start-IsLaidOut = fresh-IsLaidOut 4096 4096 blank (omega arith) (omega arith)

known : threadreq ≢ unknown
known e = cc

known_lib : libraryreq ≢ unknown
known_lib e = cc

-- One page of thread 7.
abbrev served : MemState
served = extended physical_size (zeros 0) threadreq 7 start [] start-IsLaidOut

abbrev one_page : List PageView
one_page = new_view threadreq 7 ∷ []

served-IsLaidOut : IsLaidOut served one_page
served-IsLaidOut =
    extended-IsLaidOut physical_size (zeros 0) threadreq 7 start [] start-IsLaidOut (refl, refl)
      (omega arith)

my_allocate-place_example :
    let r = place 4096 (thread 7) 100 (4096 + sizeof_metadata) one_page in
    Places served (my_allocate 2 physical_size zeros 4096 4096 7 100 threadreq served) r.0 r.1
my_allocate-place_example =
    my_allocate-place 0 physical_size zeros 4096 4096 7 100 threadreq served one_page known
      served-IsLaidOut (λ _. omega arith, tt) (λ n. (refl, refl)) (omega arith) (omega arith)
      (omega arith)

my_allocate_first-place_example :
    let r = place 4096 scheduler 100 (4096 + sizeof_metadata) [] in
    Places start (my_allocate 2 physical_size zeros 4096 4096 7 100 libraryreq blank) r.0 r.1
my_allocate_first-place_example =
    my_allocate_first-place 0 physical_size zeros 4096 4096 7 100 libraryreq blank known_lib refl
      (omega arith) (λ n. (refl, refl)) (omega arith) (omega arith) (omega arith)

my_allocate-HandsOut_example :
    HandsOut served one_page 100
      (my_allocate 2 physical_size zeros 4096 4096 7 100 threadreq served)
my_allocate-HandsOut_example =
    my_allocate-HandsOut 0 physical_size zeros 4096 4096 7 100 threadreq served one_page known
      served-IsLaidOut (λ _. omega arith, tt) (λ n. (refl, refl)) (omega arith) (omega arith)
      (omega arith)

width-pages : (vs : List PageView) → width 4096 vs ≡ 4096 * length vs
width-pages [] = omega arith
width-pages (v ∷ vs) = omega (arith, width-pages vs)

odd_width : (ws : List PageView) → sizeof_metadata + width 4096 ws ≢ physical_size
odd_width ws e = omega (arith, width-pages ws)

allocate_for_oversize_example :
    allocate_for 100000 physical_size zeros (thread 7) 8192 start ≡ fault out_of_bounds
allocate_for_oversize_example =
    allocate_for_oversize 100000 physical_size zeros (thread 7) 8192 start [] start-IsLaidOut
      (λ n. (refl, refl)) (omega arith) odd_width (omega arith) (omega arith) (omega arith)
