-- ===== src/Lib.antt =====
-- A model of the memory management and of the thread manager of the PentinumOS kernel
-- (src/c-kernel), and its correctness.
--
-- The parts and how they interact. The kernel heap hands out blocks of a pool that is given to it;
-- it keeps handed-out and free blocks in two doubly linked bins. The buddy allocator keeps a
-- binary tree over all physical pages, whose nodes carry status and mapping flags, and takes its
-- nodes from the heap. The page tables map virtual pages to the frames that the buddy allocator
-- gives out; the caller passes in the pages for new tables. The thread manager keeps the threads
-- in ready queues, in the heap of sleepers, or at a mutex or a remote call; the scheduler takes the
-- next thread, and the timer interrupt wakes the sleepers and ages the ready threads.
--
-- Which file models which part:
--   Base          shared names, Boolean tests on numbers, lists, 32-bit arithmetic with its wrap
--                 written out (add32, sub32, not32), and facts on bit_and and bit_or (Base/Bits).
--   Format        src/c-kernel/utils/impl/gfmt.c and format of src/c-kernel/utils/fmt.c. Number is
--                 gfmt_format_num_buf, Spec gfmt_parse_fmt_spec, Print gfmt_print_spec and
--                 gfmt_printer with the characters for gfmt_putc as a list, Buffer the buffer that they
--                 go to; the files below them hold the theorems.
--   Heap/Bin      src/c-kernel/utils/impl/heap_bin.c. Memory is a function from addresses to nodes
--                 (Store); a HeapBin holds the addresses of its ends. bin_push, bin_remove and
--                 bin_find_node stand under their names. Seg says what a linked segment is, and Push,
--                 Remove and Find hold what each operation does.
--   Heap/Alloc    src/c-kernel/utils/heap.c: construct_heap, get_aligned_size, malloc and free. malloc
--                 is cut into its branches: malloc_bump (from the uncarved part of the pool),
--                 malloc_search with malloc_whole and malloc_split (from the free bin). release is
--                 free behind its guards. Inv states the invariant IsHeap, Blocks how blocks lie in
--                 the pool, Bins how two bins share the memory; Bump, Reuse, Malloc and Free hold the
--                 theorems on the branches and on the calls.
--   Heap/Aligned  malloc_aligned of the same file: padding_for, and pad, which makes the padding a free
--                 block.
--   Heap/Realloc  realloc of the same file, cut into its branches: grow_last, remerge with grow_split and
--                 grow_merge, and free_and_alloc, whose memcpy through a null result is a fault. Grow and
--                 Move hold the theorems.
--   Buddy/Node    src/c-kernel/syscore/mem/buddy.h and ba_split_node of buddy.c. The tree is a data
--                 type; a node pointer is the path to the node, so that the parent pointers of the
--                 source are the path's prefixes.
--   Buddy/Flags   the setters pnode_set_flags, pnode_set_status and pnode_set_mapping with
--                 pnode_validate_flags_update, and pnode_repair_tree, of buddy.c. A kernel panic does
--                 not return and is a result of its own.
--   Buddy/Find    ba_find_node of buddy.c.
--   Buddy/Search  ba_search of buddy.c: round is one pass of its loop, with pop, push and split for the
--                 code at its labels. dive is the same search as a recursion. Match, Point and Carve hold
--                 the lemmas, Loop, Outcome, Missed, Found and Bounds the theorems.
--   Buddy/Leaves  ba_get_min_leaf, ba_get_next_leaf, ba_get_max_leaf and ba_get_prev_leaf of buddy.c.
--   Buddy/Mark    ba_mark_pages and ba_mark_stack of buddy.c. A node that was merged away is not in the
--                 tree any more, and an access to it is a fault. Range holds the theorem.
--   Buddy/Init    initialize_buddy_allocator of buddy.c, with hdf_mmap_entry_type and the records of
--                 src/c-kernel/boot/handoff. The symbols of the linker script are parameters.
--   Pagemgr       src/c-kernel/syscore/mem/pagemgr.c. The list of a context is the list of its
--                 allocations; its heap is the number of list nodes there is room for. A context without
--                 a heap (tracked is false) hands out one shared record. Order holds the order of a
--                 request, Block and Grant allocate_pages, Release and Twice free_pages. Virtual is
--                 pmgr_alloc_pages and pmgr_alloc_unmapped_pages over the page tables.
--   Cstd          src/c-kernel/utils/cstdlib.c: strlen, strcmp, memcpy and memset over a function from
--                 addresses to bytes. Scan and Copy hold the theorems. Math holds div_ceil, div_floor and
--                 ceil_to_2power.
--   Paging        src/c-kernel/arch/paging/paging.c. Memory is a function from addresses to words. A
--                 round of the loop of x86_map_pages is ensure_table, the allocation, and map_entry,
--                 the two writes. Table says what an intact directory is, Page and Round what a write
--                 does, Create, Range, Map, Get, Flags and FlagRange hold the theorems on the calls.
--   Threads/Sleep the heap of sleeping threads of src/c-kernel/syscore/mt/kernel.c. The insertion of
--                 kmt_sleep_until is push_sleep_heap with its loop sift_up; kmt_pop_sleep_heap has the
--                 loop sift_down. Order, Up and Down hold the order, Count the requests that are held,
--                 Queue the theorems on the two operations.
--   Threads/State the rest of g_kmt_ctx of that file and kmt_queue_push, kmt_queue_pop and
--                 kmt_queue_is_empty. A queue is the list of its threads; its tail pointer leads
--                 nowhere, to the last node, or to a node that was taken off (stray). The bitmap of
--                 priorities is the table of its bits. A call returns a code with the new state,
--                 panics, or faults (an access outside a table or through a null pointer).
--   Threads/Ready kmt_wakeup_thread (its end is enqueue), kmt_schedule (retire, then pick with
--                 take_from), kmt_sleep and kmt_kill_current_thread. Inv states the invariant of the
--                 queues, Wake and Retire the theorems on the two calls, Pick and Schedule the steps.
--   Threads/Mutex kmt_create_mutex, kmt_lock_mutex, kmt_unlock_mutex, kmt_is_mutex_owned and
--                 kmt_free_mutex; Create and Own hold the theorems.
--   Threads/Rpc   kmt_rpc_call (post and rpc_wait are its parts), kmt_rpc_listen and kmt_rpc_return;
--                 Exchange and Answer hold the theorems. A call that gives up the processor ends as `switched`
--                 with the state in which the next thread runs.
--   Threads/Tick  kmt_preemptive_intr_handler: wake_due is its loop over the sleepers, age_queues and
--                 age_queue are the loops over the ready threads. Woken states what the first needs
--                 and leaves, Round has one round of it, Due and Age hold the theorems.
--
-- Fuel. bin_find_node follows next pointers, which need not end in a bin that is not intact: it
-- takes fuel, one unit for each node and one for the end. On an intact bin any fuel above the
-- number of nodes is enough, and the theorems on bin_find_node and malloc conclude that a result
-- is given. strlen takes fuel as well, one unit for each byte; the length of the string and one is
-- enough. sift_up and sift_down are given the number of nodes, and the theorems on the two
-- operations show that this is enough, for the order holds at their end. ba_search takes the number of
-- nodes of the tree with the orders of its leaves, and ba_mark_pages the number of pages, which their
-- theorems show to be enough. The loops of the timer
-- interrupt take fuel, and their theorems give as much as there are sleepers or queued threads,
-- and one. The digits of a number take 33 tests of the loop's condition, which its theorem shows to
-- be enough. All other loops are
-- structural: on the pages left, on the path to a node, or on the rounds left below order
-- BA_MAX_ORDER.
--
-- Masks. `w & 0xFFF` is w % 4096, `w & 0xFFFFF000` is w / 4096 * 4096, and likewise for the flag
-- bytes; shifts to the right are divisions. Disjunctions stay bit_or.
--
-- Not modelled. initialize_heap and destroy_heap; make_template_page_table of buddy.c; the creation of
-- threads and the start of multitasking; the nodes that the queues of threads are kept in, which are
-- taken to be there; formatA and the other output; the boot loader. The bytes that blocks and pages
-- hold are left out, as are log messages, which change no state. Assembly (registers, ports, context
-- switches) is not modelled. The buddy model counts the child pairs that the heap has room for instead
-- of calling the heap; where that heap fails in the middle of a walk, only the result is modelled, not
-- the nodes that were split before. __builtin_clz is taken to count leading zeros, without a result at
-- 0.
pub mod Base
pub mod Buddy
pub mod Cstd
pub mod Format
pub mod Heap
pub mod Pagemgr
pub mod Paging
pub mod Threads
