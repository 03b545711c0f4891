-- ===== src/Heap/Tests.antt =====
-- The allocator at small heaps: runs of the code, and the theorems at inputs that meet their
-- hypotheses.
use pentinum_os.Base.{
  ℕ, ◌+◌, ◌<◌, ◌≡◌, ◌≢◌, ◌⊎◌, refl, Option, some, none, [], ◌∷◌, arith, ◌==◌, if◌then◌else◌,
}
use pentinum_os.Heap.Bin.{
  Store, write, idflag, construct_heap_node, construct_heap_bin, bin_push, bin_remove, unlink,
  find_loop, bin_find_node,
}
use pentinum_os.Heap.Bin.Find.{AllSmaller}
use pentinum_os.Heap.Alloc.{
  HeapAllocator, State, Reply, get_aligned_size, construct_heap, malloc_bump, malloc_whole,
  malloc_split, malloc_search, malloc, free,
}
use pentinum_os.Heap.Alloc.Inv.{IsHeap}
use pentinum_os.Heap.Alloc.Malloc.{Granted, malloc-Grant}
use pentinum_os.Cstd.Math.{ceil_to_2power}
use pentinum_os.Heap.Aligned.{padding_for, pad, malloc_aligned}
use pentinum_os.Heap.Realloc.{returns, realloc}
use pentinum_os.Heap.Realloc.Grow.{realloc-IsHeap}
use pentinum_os.Heap.Realloc.Move.{Moves, realloc-Moved}
use pentinum_os.Heap.Alloc.Free.{double_free, free-IsHeap}

-- The pointers of some calls of `malloc` in a row, on a pool of 0x100 bytes at 0x1000.
abbrev blank : Store
blank a = record { next = 0; prev = 0; size = 0; flags = 0 }

after : Option Reply → (State → Option Reply) → Option Reply
after none k = none
after (some (p, s, h)) k = k (s, h)

ptr : Option Reply → ℕ
ptr none = 1
ptr (some (p, s, h)) = p

fresh_run : ptr (malloc 3 (blank, construct_heap 0x1000 0x100) 20) ≡ 0x1010
unfolding ptr malloc malloc_bump get_aligned_size construct_heap construct_heap_bin
    construct_heap_node bin_push write
fresh_run = refl

-- A page from a pool that starts behind a page boundary.
aligned_run : ptr (malloc_aligned 3 (blank, construct_heap 0x1800 0x4000) 64 3000) ≡ 0x2000
unfolding ptr malloc_aligned padding_for pad ceil_to_2power malloc malloc_bump get_aligned_size
    construct_heap construct_heap_bin construct_heap_node bin_push write
aligned_run = refl

-- Used blocks at 0x1000 and 0x1070, and a free block of 64 bytes between them.
abbrev store : Store
store a =
    if a == 0x1000
    then record { next = 0x1070; prev = 0; size = 16; flags = idflag }
    else if a == 0x1020
    then record { next = 0; prev = 0; size = 64; flags = idflag + 1 }
    else if a == 0x1070
    then record { next = 0; prev = 0x1000; size = 16; flags = idflag }
    else blank a

abbrev heap : HeapAllocator
heap = record {
  heap_bin_top = 0x1000;
  heap_bin_head = 0x90;
  heap_bin_size = 0x10;
  alloc_bin = record { head = 0x1000; tail = 0x1070 };
  free_bin = record { head = 0x1020; tail = 0x1020 };
}

heap-IsHeap : IsHeap store heap (0x1000 ∷ 0x1070 ∷ []) (0x1020 ∷ [])
heap-IsHeap = record {
  allocs = ground arith;
  frees = ground arith;
  blocks = record {
    either = λ x i. ground arith;
    inside = λ x i. ground arith;
    apart = λ x y i j ne. ground arith;
    used_flags = λ x i. ground arith;
    idle_flags = λ x i. ground arith;
  };
  based = omega arith;
  fits = omega arith;
}

-- The free block is split; a request for all of it takes it whole; a larger one fails.
split_run : ptr (malloc 2 (store, heap) 16) ≡ 0x1030
unfolding ptr malloc malloc_search malloc_split get_aligned_size construct_heap_node bin_find_node
    find_loop bin_push bin_remove unlink write
split_run = refl

whole_run : ptr (malloc 2 (store, heap) 64) ≡ 0x1030
unfolding ptr malloc malloc_search malloc_whole get_aligned_size construct_heap_node bin_find_node
    find_loop bin_push bin_remove unlink write
whole_run = refl

failed_run : ptr (malloc 2 (store, heap) 65) ≡ 0
unfolding ptr malloc malloc_search get_aligned_size bin_find_node find_loop
failed_run = refl

malloc-Grant_example :
    ((malloc 2 (store, heap) 16 ≡ some (0, store, heap))
      × (0x10 < 32)
      × AllSmaller store 16 (0x1020 ∷ []))
    ⊎ ((r : Reply) × (malloc 2 (store, heap) 16 ≡ some r)
        × Granted store heap (0x1000 ∷ 0x1070 ∷ []) 16 r)
malloc-Grant_example =
    malloc-Grant 2 store heap (0x1000 ∷ 0x1070 ∷ []) (0x1020 ∷ []) 16 heap-IsHeap (omega arith)
      (omega arith) (omega arith)

double_free_example : free (store, heap) 0x1030 ≡ (store, heap)
double_free_example =
    double_free store heap (0x1000 ∷ 0x1070 ∷ []) (0x1020 ∷ []) 0x1020 heap-IsHeap refl

free-IsHeap_example :
    let (s', h') = free (store, heap) 0x1080 in
    IsHeap s' h' (0x1000 ∷ []) (0x1020 ∷ [])
    × ((a : ℕ) → (s' a).size ≡ (store a).size)
    × (h'.heap_bin_top ≡ 0x1000)
    × (h'.heap_bin_head + h'.heap_bin_size ≡ 0xa0)
free-IsHeap_example = free-IsHeap store heap (0x1000 ∷ []) 0x1070 [] (0x1020 ∷ []) heap-IsHeap

realloc-IsHeap_example :
    (s' : Store) × (h' : HeapAllocator) × (realloc 2 (store, heap) 0x1080 20
      ≡ returns (0x1080, s', h'))
    × IsHeap s' h' (0x1000 ∷ 0x1070 ∷ []) (0x1020 ∷ [])
    × ((s' 0x1070).size ≡ 32)
    × ((a : ℕ) → a ≢ 0x1070 → s' a ≡ store a)
    × (h'.heap_bin_head + h'.heap_bin_size ≡ 0xA0)
realloc-IsHeap_example =
    realloc-IsHeap store heap (0x1000 ∷ 0x1070 ∷ []) (0x1020 ∷ []) 0x1070 20 2 heap-IsHeap (record {
      handed_out = refl;
      last = refl;
      some_bytes = omega arith;
      more = omega arith;
      small = omega arith;
      room = omega arith;
    })

realloc-Moved_example :
    Moves 2 store heap [] 0x1000
      (0x1070 ∷ [])
      (0x1020 ∷ [])
      40
      heap-IsHeap
      (realloc 2 (store, heap) 0x1010 40)
realloc-Moved_example =
    realloc-Moved 2 store heap [] 0x1000 (0x1070 ∷ []) (0x1020 ∷ []) 40 heap-IsHeap (omega arith)
      (omega arith) (omega arith) (omega arith) refl (λ e. absurd (omega (arith, e)))
