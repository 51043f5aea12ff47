-- ===== src/Display/Tests.antt =====
-- What is printed for two threads in level 0 and one that waits.
use virtual_memory_simulatio.Base.{◌≡◌, [], ◌∷◌}
use virtual_memory_simulatio.Threads.{ok}
use virtual_memory_simulatio.Threads.Tests.{busy}
use virtual_memory_simulatio.Levels.Tests.{busy_lists, busy-SchedHolds, busy_short}
use virtual_memory_simulatio.Display.{
  thread, end_level, head, tail, says_ready, print_multi_level_priority_queue,
}
use virtual_memory_simulatio.Display.Entries.{print_multi_level_priority_queue-entries}

print_multi_level_priority_queue-entries_example :
    print_multi_level_priority_queue 3 busy
    ≡ ok
        (thread 0 head 1 says_ready
          ∷ thread 0 tail 2 says_ready
          ∷ end_level 0
          ∷ end_level 1
          ∷ end_level 2
          ∷ [])
        busy
print_multi_level_priority_queue-entries_example =
    print_multi_level_priority_queue-entries busy busy_lists 3 busy-SchedHolds busy_short
