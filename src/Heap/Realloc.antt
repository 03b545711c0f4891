-- ===== src/Heap/Realloc.antt =====
-- `realloc` of c-kernel/utils/heap.c. Blocks have no contents here: of the copy of the bytes to a new
-- block, what is kept is that it writes through the pointer that `malloc` returned.
pub mod Grow
pub mod Move
use pentinum_os.Base.{
  ℕ, ◌+◌, ◌/◌, ◌%◌, bit_and, bit_or, Bool, true, false, Option, none, some, ◌==◌, leb, ltb, not,
  if◌then◌else◌, add32, sub32,
}
use pentinum_os.Heap.Bin.{HeapNode, Store, write, idflag, construct_heap_node, heap_node_valid}
use pentinum_os.Heap.Alloc.{
  HeapAllocator, State, Reply, header_size, min_node_size, get_aligned_size, with_free,
  without_free, with_hint, is_free, push_free, remove_free, malloc, free,
}

-- The block at the end of the carved part takes more of the pool. The source does not test that the
-- pool has as much, and the subtraction wraps.
unfoldable pub grow_last : State → ℕ → ℕ → Reply
grow_last (s, h) ptr aligned =
    let node = sub32 ptr header_size in
    let more = sub32 aligned (s node).size in
    (
      ptr,
      write s node (record (s node) { size = aligned }),
      record h {
        heap_bin_head = add32 h.heap_bin_head more;
        heap_bin_size = sub32 h.heap_bin_size more;
      },
    )

-- The next block is free and large: it is split, with the sizes that the source computes.
unfoldable pub grow_split : State → ℕ → ℕ → Reply
grow_split (s, h) ptr aligned =
    let node = sub32 ptr header_size in
    let next_node = add32 ptr (s node).size in
    let split_offset = sub32 aligned (s node).size in
    let split_size = sub32 split_offset header_size in
    let (s1, h1) = remove_free (s, h) next_node in
    let split_node = add32 next_node split_offset in
    let s2 = write s1 split_node (construct_heap_node (sub32 (s1 next_node).size split_size)) in
    let s3 = write s2 node (without_free (with_hint (record (s2 node) { size = aligned }))) in
    let s4 = write s3 split_node (with_free (s3 split_node)) in
    let (s5, h5) = push_free (s4, h1) split_node in (ptr, s5, h5)

-- The next block is free and is taken whole.
unfoldable pub grow_merge : State → ℕ → Reply
grow_merge (s, h) ptr =
    let node = sub32 ptr header_size in
    let next_node = add32 ptr (s node).size in
    let (s1, h1) = remove_free (s, h) next_node in
    (
      ptr,
      write s1 node (record (s1 node) {
        size = add32 (s1 node).size (add32 (s1 next_node).size header_size);
        flags = bit_or idflag (bit_and (s1 next_node).flags 2);
      }),
      h1,
    )

-- How a call ends: with a reply, without fuel, or with a write through a null pointer.
pub data Outcome : Type 0 where
  returns : Reply → Outcome
  unfinished fault : Outcome

-- `memcpy` to the new block, which writes through null if there is none, and the old block freed.
abbrev pub copy_and_free : ℕ → Reply → Outcome
copy_and_free ptr (p, s, h) =
    if p == 0 then fault else (let (s', h') = free (s, h) ptr in returns (p, s', h'))

abbrev pub then_free : ℕ → Option Reply → Outcome
then_free ptr none = unfinished
then_free ptr (some r) = copy_and_free ptr r

unfoldable pub free_and_alloc : ℕ → State → ℕ → ℕ → Outcome
free_and_alloc fuel st ptr new_req_size = then_free ptr (malloc fuel st new_req_size)

-- The attempt to grow into the next block.
unfoldable pub remerge : ℕ → State → ℕ → ℕ → ℕ → Outcome
remerge fuel (s, h) ptr new_req_size aligned =
    let size = (s (sub32 ptr header_size)).size in
    let next = s (add32 ptr size) in
    let more = sub32 aligned size in
    if not (heap_node_valid next)
    then free_and_alloc fuel (s, h) ptr new_req_size
    else if not (is_free next)
    then free_and_alloc fuel (s, h) ptr new_req_size
    else if ltb (add32 next.size header_size) more
    then free_and_alloc fuel (s, h) ptr new_req_size
    else if leb (add32 (add32 more header_size) min_node_size) (add32 next.size header_size)
    then returns (grow_split (s, h) ptr aligned)
    else returns (grow_merge (s, h) ptr)

unfoldable pub realloc : ℕ → State → ℕ → ℕ → Outcome
realloc fuel (s, h) prev_ptr new_req_size =
    let node = s (sub32 prev_ptr header_size) in
    let aligned = get_aligned_size new_req_size 0x10 in
    if new_req_size == 0
    then returns (0, s, h)
    else if not (heap_node_valid node)
    then returns (0, s, h)
    else if ltb aligned node.size
    then returns (prev_ptr, s, h)
    else if ltb new_req_size node.size
    then returns (prev_ptr, s, h)
    else if add32 (sub32 prev_ptr h.heap_bin_top) node.size == h.heap_bin_head
    then returns (grow_last (s, h) prev_ptr aligned)
    else if node.flags / 2 % 2 == 1
    then remerge fuel (s, h) prev_ptr new_req_size aligned
    else free_and_alloc fuel (s, h) prev_ptr new_req_size
