-- ===== src/Heap/Alloc.antt =====
-- The allocator over its two bins: c-kernel/utils/heap.c. A function returns the new store and the
-- new allocator. The bytes that a block holds are not modelled: `memcpy` into a block is left out.
-- `sizeof(heap_node)` is 16, four 32-bit words. A call that searches a bin takes the fuel of that
-- search, and returns `none` when it runs out.
pub mod Bins
pub mod Blocks
pub mod Bump
pub mod Free
pub mod Inv
pub mod Malloc
pub mod Reuse
use pentinum_os.Base.{
  ℕ, ◌+◌, ◌-◌, ◌*◌, ◌/◌, ◌%◌, ◌^◌, bit_and, bit_or, Bool, Option, none, some, ◌==◌, leb, ltb, not,
  if◌then◌else◌, add32, sub32, not32,
}
use pentinum_os.Heap.Bin.{
  HeapNode, HeapBin, Store, write, idflag, construct_heap_node, heap_node_valid, construct_heap_bin,
  bin_push, bin_remove, bin_find_node,
}

abbrev pub header_size : ℕ
header_size = 16

abbrev pub min_node_size : ℕ
min_node_size = 0x10

-- `struct heap_allocator_t`. The first field is `heap_bin_top`, the address of the pool; `heap_bin_head`
-- bytes of it have been carved into blocks and `heap_bin_size` bytes are left.
pub record HeapAllocator : Type 0 where
  pub heap_bin_top : ℕ
  pub heap_bin_head : ℕ
  pub heap_bin_size : ℕ
  pub alloc_bin : HeapBin
  pub free_bin : HeapBin

abbrev pub State : Type 0
State = Store × HeapAllocator

-- What a call returns: the pointer, and the state after it.
abbrev pub Reply : Type 0
Reply = ℕ × Store × HeapAllocator

unfoldable pub get_aligned_size : ℕ → ℕ → ℕ
get_aligned_size req_size align =
    let padding = add32 (not32 (bit_and req_size (sub32 align 1))) 1 in
    add32 req_size (bit_and padding (sub32 align 1))

unfoldable pub construct_heap : ℕ → ℕ → HeapAllocator
construct_heap pool pool_size_bytes = record {
  heap_bin_top = pool;
  heap_bin_head = 0;
  heap_bin_size = pool_size_bytes;
  alloc_bin = construct_heap_bin;
  free_bin = construct_heap_bin;
}

-- `flags |= HEAP_FREE_NODE`, `flags &= ~HEAP_FREE_NODE`, `flags |= HEAP_HINT_RESIZEABLE`, and the
-- test `flags & HEAP_FREE_NODE`
abbrev pub with_free : HeapNode → HeapNode
with_free n = record n { flags = bit_or n.flags 1 }

abbrev pub without_free : HeapNode → HeapNode
without_free n = record n { flags = n.flags / 2 * 2 }

abbrev pub with_hint : HeapNode → HeapNode
with_hint n = record n { flags = bit_or n.flags 2 }

abbrev pub is_free : HeapNode → Bool
is_free n = n.flags % 2 == 1

abbrev pub push_alloc : State → ℕ → State
push_alloc (s, h) node =
    let (s', b) = bin_push s h.alloc_bin node in (s', record h { alloc_bin = b })

abbrev pub push_free : State → ℕ → State
push_free (s, h) node = let (s', b) = bin_push s h.free_bin node in (s', record h { free_bin = b })

abbrev pub remove_alloc : State → ℕ → State
remove_alloc (s, h) node =
    let (s', b) = bin_remove s h.alloc_bin node in (s', record h { alloc_bin = b })

abbrev pub remove_free : State → ℕ → State
remove_free (s, h) node =
    let (s', b) = bin_remove s h.free_bin node in (s', record h { free_bin = b })

-- The first branch of `malloc`: a new block at the end of the carved part.
unfoldable pub malloc_bump : State → ℕ → Reply
malloc_bump (s, h) aligned =
    let need = add32 header_size aligned in
    let node = add32 h.heap_bin_top h.heap_bin_head in
    let (s', h') = push_alloc (write s node (construct_heap_node aligned), h) node in
    (
      add32 node header_size,
      s',
      record h' {
        heap_bin_head = add32 h'.heap_bin_head need;
        heap_bin_size = sub32 h'.heap_bin_size need;
      },
    )

-- The second branch: a free block that cannot be split is handed out whole.
unfoldable pub malloc_whole : State → ℕ → Reply
malloc_whole st node =
    let (s, h) = push_alloc (remove_free st node) node in
    (add32 node header_size, write s node (without_free (s node)), h)

-- The last branch: a large free block is split, and its rest goes back to the free bin.
unfoldable pub malloc_split : State → ℕ → ℕ → Reply
malloc_split st node aligned =
    let (s, h) = remove_free st node in
    let split_node = add32 node (add32 header_size aligned) in
    let rest = sub32 (sub32 (s node).size aligned) header_size in
    let s1 = write s split_node (construct_heap_node rest) in
    let s2 = write s1 node (construct_heap_node aligned) in
    let s3 = write s2 node (with_hint (s2 node)) in
    let (s4, h') = push_alloc (s3, h) node in
    let s5 = write s4 split_node (with_free (s4 split_node)) in
    let (s6, h6) = push_free (s5, h') split_node in (add32 node header_size, s6, h6)

-- The choice between the branches when the pool has no room.
unfoldable pub malloc_search : ℕ → State → ℕ → Option Reply
malloc_search fuel (s, h) aligned =
    elim (bin_find_node fuel s h.free_bin (add32 (add32 aligned header_size) min_node_size)) [
      | none ↦ none
      | some large ↦
          if large == 0
          then (elim (bin_find_node fuel s h.free_bin aligned) [
            | none ↦ none
            | some exact ↦ some (if exact == 0 then (0, s, h) else malloc_whole (s, h) exact)
          ])
          else some (malloc_split (s, h) large aligned)
    ]

unfoldable pub malloc : ℕ → State → ℕ → Option Reply
malloc fuel (s, h) req_size =
    let aligned = get_aligned_size req_size 0x10 in
    if req_size == 0
    then some (0, s, h)
    else if leb (add32 header_size aligned) h.heap_bin_size
    then some (malloc_bump (s, h) aligned)
    else malloc_search fuel (s, h) aligned

-- The part of `free` behind its two guards.
unfoldable pub release : State → ℕ → State
release (s, h) ptr =
    let node = sub32 ptr header_size in
    let (s', h') = remove_alloc (write s node (with_free (s node)), h) node in
    let node_end = add32 (sub32 ptr h'.heap_bin_top) (s' node).size in
    let whole = add32 header_size (s' node).size in
    if not (node_end == h'.heap_bin_head) then push_free (s', h') node else (
      s',
      record h' {
        heap_bin_head = sub32 h'.heap_bin_head whole;
        heap_bin_size = add32 h'.heap_bin_size whole;
      },
    )

unfoldable pub free : State → ℕ → State
free (s, h) ptr =
    let node = s (sub32 ptr header_size) in
    if not (heap_node_valid node)
    then (s, h)
    else if is_free node
    then (s, h)
    else release (s, h) ptr
