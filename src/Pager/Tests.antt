-- ===== src/Pager/Tests.antt =====
-- The theorems on the page list at concrete states.
use virtual_memory_simulatio.Base.{◌≡◌, refl, [], ◌∷◌, arith}
use virtual_memory_simulatio.Memory.{MemState, threadreq, libraryreq, ok, fault, out_of_bounds}
use virtual_memory_simulatio.Memory.Tests.{blank, zeros}
use virtual_memory_simulatio.Pager.{assign_page, init_memory_metadata}
use virtual_memory_simulatio.Pager.Layout.{IsLaidOut}
use virtual_memory_simulatio.Pager.Init.{fresh, fresh-IsLaidOut, init_memory_metadata-IsLaidOut}
use virtual_memory_simulatio.Pager.Split.{new_view, assign_page-IsLaidOut}
use virtual_memory_simulatio.Pager.Last.{assign_page_overruns}

init_memory_metadata-IsLaidOut_example :
    (t : MemState) × (init_memory_metadata 4096 4096 blank ≡ ok tt t) × IsLaidOut t []
init_memory_metadata-IsLaidOut_example =
    init_memory_metadata-IsLaidOut 4096 4096 blank (omega arith) (omega arith)

assign_page-IsLaidOut_example :
    (t : MemState) × (assign_page 10 (zeros 0) threadreq 7 (fresh 4096 4096 blank) ≡ ok tt t)
    × (t.meta ≡ (fresh 4096 4096 blank).meta)
    × IsLaidOut t (new_view threadreq 7 ∷ [])
assign_page-IsLaidOut_example =
    assign_page-IsLaidOut 10 (zeros 0) threadreq 7 (fresh 4096 4096 blank) []
      (fresh-IsLaidOut 4096 4096 blank (omega arith) (omega arith)) (refl, refl) (omega arith)
      (omega arith)

-- One page takes up all of the memory but for a few bytes.
assign_page_overruns_example :
    assign_page 10 (zeros 0) libraryreq 7 (fresh 8388560 4096 blank) ≡ fault out_of_bounds
assign_page_overruns_example =
    assign_page_overruns 10 (zeros 0) libraryreq 7 (fresh 8388560 4096 blank) []
      (fresh-IsLaidOut 8388560 4096 blank (omega arith) (omega arith)) refl (omega arith)
      (omega arith) (λ e. omega arith)
