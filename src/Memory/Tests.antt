-- ===== src/Memory/Tests.antt =====
-- Concrete states for the witnesses.
use virtual_memory_simulatio.Base.{ℕ, false, none}
use virtual_memory_simulatio.Memory.{MemState}
use virtual_memory_simulatio.Pager.{Garbage}

abbrev pub blank : MemState
blank = record {
  initialized = false;
  meta = record { page_size = 0; number_pages = 0; address = 0; page_list_head = 0 };
  mem = λ _. none;
}

-- Stack slots that happen to hold zero.
abbrev pub zeros : ℕ → Garbage
zeros n = record { tmp_prev = 0; block_next = 0 }
