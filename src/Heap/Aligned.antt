-- ===== src/Heap/Aligned.antt =====
-- `malloc_aligned` of c-kernel/utils/heap.c.
use pentinum_os.Base.{ℕ, bit_and, Option, some, ◌==◌, leb, ltb, if◌then◌else◌, add32, sub32, not32}
use pentinum_os.Heap.Bin.{write, construct_heap_node}
use pentinum_os.Heap.Alloc.{
  HeapAllocator, State, Reply, header_size, get_aligned_size, with_free, push_free, malloc,
}
use pentinum_os.Cstd.Math.{ceil_to_2power}

abbrev pub heap_default_align : ℕ
heap_default_align = 0x1

-- The bytes from the next data address to the next multiple of `align`, a power of two.
unfoldable pub padding_for : HeapAllocator → ℕ → ℕ
padding_for h align =
    let data_addr_nopad = add32 (add32 h.heap_bin_top h.heap_bin_head) header_size in
    bit_and (add32 (not32 (bit_and data_addr_nopad (sub32 align 1))) 1) (sub32 align 1)

-- The padding becomes a free block of its own.
unfoldable pub pad : State → ℕ → State
pad (s, h) padding =
    let padding_node = add32 h.heap_bin_top h.heap_bin_head in
    let s1 = write s padding_node (with_free (construct_heap_node (sub32 padding header_size))) in
    let (s2, h2) = push_free (s1, h) padding_node in
    (
      s2,
      record h2 {
        heap_bin_head = add32 h2.heap_bin_head padding;
        heap_bin_size = sub32 h2.heap_bin_size padding;
      },
    )

unfoldable pub malloc_aligned : ℕ → State → ℕ → ℕ → Option Reply
malloc_aligned fuel (s, h) req_size align =
    let power = ceil_to_2power align in
    let padding = padding_for h power in
    if leb power 0x10
    then malloc fuel (s, h) req_size
    else if padding == 0
    then malloc fuel (s, h) req_size
    else if ltb h.heap_bin_size (add32 padding (get_aligned_size req_size heap_default_align))
    then some (0, s, h)
    else malloc fuel (pad (s, h) padding) req_size
