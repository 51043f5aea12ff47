-- ===== src/Lib.antt =====
-- A user-level thread library and the memory manager that it allocates from. my_pthread.c keeps
-- threads in a multi-level priority queue, switches between them on SIGALRM and offers mutexes;
-- memory_manager.c replaces malloc by a simulated physical memory of 8 MB that is cut into pages,
-- one owner to a page, and each page into blocks.
--
-- The files and what they model:
--
--   Memory      memory_manager.h and PHYSICAL_MEMORY: struct block, page, memory_metadata; memcpy
--   Pager       memory_manager.c: init_memory_metadata, assign_page
--   BlockList   memory_manager.c: allocate_block
--   Allocator   memory_manager.c: allocate_for_scheduler, allocate_for_thread, my_allocate,
--               my_deallocate
--   Threads     my_pthread_t.h and the globals of my_pthread.c
--   Queue       my_pthread.c: queue_init, enqueue, dequeue, peek
--   Timing      my_pthread.c: time_compare
--   Levels      my_pthread.c: schedule_thread, get_tcb, get_and_remove_tcb, delete_tcb,
--               change_priority, fold_mlpq_to_array, get_num_scheduled_tcb
--   Switch      my_pthread.c: my_pthread_yield_helper, my_pthread_yield_after_unlock_helper,
--               signal_handler, my_pthread_yield, thread_function_wrapper
--   Pthread     my_pthread.c: init_scheduler, my_pthread_create, _exit, _join, the mutexes,
--               get_current_tid, init_timer
--   Display     print_multi_level_priority_queue, print_lock_queue, print_page
--   Select      my_pthread.c: quick_select, scheduler_maintenance
--   Benchmark   Benchmark/vectorMultiply.c: vector_multiply, verify; Benchmark/parallelCal.c:
--               parallel_calculate, verify
--   Base        names, Boolean tests, integers, lists and the state monad that these share
--
-- Definitions carry the names of the functions and locals of the source. A function of the memory
-- manager is a function from a MemState, the globals MEMORY_METADATA, INIT_MEMORY_METADATA and
-- PHYSICAL_MEMORY, to an Outcome: a result and the next state, or a fault. The functions of the
-- thread library work the same way on a Sched, which holds the globals, what SCHEDULER points to,
-- and the control blocks by address. The memory manager calls the thread library only for
-- get_current_tid, whose result is an argument of my_allocate; the thread library calls
-- my_allocate, whose results are arguments of my_pthread_create, fold_mlpq_to_array and
-- scheduler_maintenance. For a stack or an array such an argument is `none`, and the run the
-- fault no_return, where the call does not return: my_allocate does not return for a size that no
-- page can hold (allocate_for in Allocator), and with pages of 4096 bytes STACK_SIZE, 8192 bytes,
-- is such a size, so that a my_pthread_create that returns stands for larger pages.
--
-- The simulated memory is a map from addresses to the structs that have been copied there. memcpy
-- of a struct destroys every struct that it overlaps but does not replace; a read where no intact
-- struct of the type stands is the fault bad_read, a write outside of PHYSICAL_MEMORY the fault
-- out_of_bounds. Addresses are those of the LP64 data model, with 64 bytes for a page, 40 for a
-- block and 32 for the metadata. The addresses, sizes and times are natural numbers: that an int
-- holds them is assumed, for 8 MB of memory and requests that are not negative it does. Only
-- total_size, which a subtraction can make negative, is an integer.
--
-- A loop over a list runs on fuel, one unit for each element; a fault out_of_fuel tells that it
-- was too little. The memory holds fewer pages and fewer blocks than it has bytes, so its size,
-- 8388608, is fuel enough for each loop of the memory manager; for a queue, one more than its
-- length is. The recursion that follows a new page is counted by tries: a new page serves every
-- request that a page can hold, so two tries are enough for it.
--
-- The contents of a page list are described by a list of PageView, the owner of each page and the
-- sizes of its blocks (Pager.Layout); the abstract allocator on these lists is in Allocator.Spec.
-- The contents of a queue are the list of the addresses of its control blocks (Queue.Chain).
--
-- The steps of Pthread.Exclusion are whole calls, rounds of the loop of my_pthread_mutex_lock and
-- signals; the test of a mutex is one atomic exchange in the source, and the two halves of a
-- round are two functions, lock_round and lock_wait. The program schedules every thread in level
-- 0, which Switch.Single states of a list of threads; the theorems on a whole
-- my_pthread_yield_helper, in Switch.Fair, are about these states, and Pthread.Sound and
-- Pthread.Reachable are about all states that a program reaches. There the round of the loop
-- after a pause runs at the priority 0, which is the one that was read before the loop.
--
-- Not modelled: bytes of user data; the swap file, which is opened and not used; the contexts
-- themselves (a context is a number); blocking and unblocking of SIGALRM, since each function is
-- one step; the fixed text that is printed; the system calls of init_timer beyond what they are
-- given; the body of a thread; Benchmark/externalCal.c, which reads its data from files; the
-- second copy of the sources in virtual_memory_simulation-master-submit. my_pthread_join is one
-- look at the thread on which it spins, and my_pthread_mutex_lock ends at its first pause.
pub mod Base
pub mod Memory
pub mod Pager
pub mod BlockList
pub mod Allocator
pub mod Threads
pub mod Queue
pub mod Timing
pub mod Levels
pub mod Switch
pub mod Pthread
pub mod Select
pub mod Display
pub mod Benchmark
