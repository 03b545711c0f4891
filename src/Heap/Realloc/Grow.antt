-- ===== src/Heap/Realloc/Grow.antt =====
-- `realloc` of the last block of the carved part of the pool, c-kernel/utils/heap.c.
use pentinum_os.Base.{
  ℕ, ◌+◌, ◌-◌, ◌*◌, ◌/◌, ◌^◌, ◌≤◌, ◌<◌, ◌≡◌, ◌≢◌, Bool, true, false, List, ◌==◌, ltb, add32, sub32,
  arith, refl, ap,
}
use pentinum_os.Heap.Bin.{HeapNode, Store, write, idflag, heap_node_valid}
use pentinum_os.Heap.Bin.Seg.{has}
use pentinum_os.Heap.Alloc.{HeapAllocator, get_aligned_size}
use pentinum_os.Heap.Alloc.Blocks.{Blocks}
use pentinum_os.Heap.Alloc.Bins.{IsBin-relabel}
use pentinum_os.Heap.Alloc.Inv.{IsHeap, get_aligned_size_sixteen}
use pentinum_os.Heap.Alloc.Malloc.{rounded}
use pentinum_os.Heap.Realloc.{returns, grow_last, realloc}

module _ {s : Store} {lo hi : ℕ} {used idle : ℕ → Bool} (b : Blocks s lo hi used idle) where
  -- The last block grows.
  Blocks-grow :
      (x : ℕ) (n : HeapNode)
      → used x ≡ true
      → x + 16 + (s x).size ≡ hi
      → (s x).size ≤ n.size
      → n.flags ≡ (s x).flags
      → Blocks (write s x n) lo (x + 16 + n.size) used idle
  unfolding write
  Blocks-grow x n u e more same = record {
    either = λ y o. b.either y o;
    inside = λ y o. ground (arith, b.inside y);
    apart = λ y z o o' ne. ground (arith, b.apart y z, b.inside y, b.inside z);
    used_flags = λ y o. ground (arith, b.used_flags y);
    idle_flags = λ y o. ground (arith, b.idle_flags y, b.either y);
  }

-- A handed-out block at the end of the carved part, with as much of the pool behind it as a request of
-- `n` bytes adds.
pub record CanGrow (s : Store) (h : HeapAllocator) (us : List ℕ) (x n : ℕ) : Type 0 where
  pub handed_out : has x us ≡ true
  pub last : x + 16 + (s x).size ≡ h.heap_bin_top + h.heap_bin_head
  pub some_bytes : 0 < n
  pub more : (s x).size ≤ n
  pub small : n < 2 ^ 32 - 48
  pub room : rounded n ≤ (s x).size + h.heap_bin_size

module _ (s : Store) (h : HeapAllocator) (us fs : List ℕ) (x n fuel : ℕ) (v : IsHeap s h us fs)
    (c : CanGrow s h us x n) where
  abbrev grown : HeapNode
  grown = record (s x) { size = rounded n }

  abbrev bigger : HeapAllocator
  bigger = record h {
    heap_bin_head = h.heap_bin_head + (rounded n - (s x).size);
    heap_bin_size = h.heap_bin_size - (rounded n - (s x).size);
  }

  header_at : sub32 (x + 16) 16 ≡ x
  header_at = omega (arith, v.fits, c.last)

  grow_last_eq : grow_last (s, h) (x + 16) (rounded n) ≡ (x + 16, write s x grown, bigger)
  unfolding grow_last
  grow_last_eq =
      let more : sub32 (rounded n) (s x).size ≡ rounded n - (s x).size =
        omega (arith, c.more, c.small) in
      let head : add32 h.heap_bin_head (rounded n - (s x).size)
          ≡ h.heap_bin_head + (rounded n - (s x).size) =
        omega (arith, v.fits, c.room) in
      let left : sub32 h.heap_bin_size (rounded n - (s x).size)
          ≡ h.heap_bin_size - (rounded n - (s x).size) =
        omega (arith, v.fits, c.room) in
      rw (header_at, more, head, left) refl

  realloc_eq : realloc fuel (s, h) (x + 16) n ≡ returns (x + 16, write s x grown, bigger)
  unfolding realloc heap_node_valid
  realloc_eq =
      let aligned : get_aligned_size n 0x10 ≡ rounded n =
        get_aligned_size_sixteen n (omega (arith, c.small)) in
      let a : (n == 0) ≡ false = ground (arith, c.some_bytes) in
      let b : ((s x).flags / 0x10000 * 0x10000 == idflag) ≡ true =
        ground (arith, v.blocks.used_flags x c.handed_out) in
      let d : ltb (rounded n) (s x).size ≡ false = ground (arith, c.more) in
      let e : ltb n (s x).size ≡ false = ground (arith, c.more) in
      let f : (add32 (sub32 (x + 16) h.heap_bin_top) (s x).size == h.heap_bin_head) ≡ true =
        ground (arith, c.last, v.fits, v.blocks.inside x) in
      rw (header_at, aligned, a, b, d, e, f) (ap returns grow_last_eq)

  grown-IsHeap : IsHeap (write s x grown) bigger us fs
  grown-IsHeap = record {
    allocs = IsBin-relabel s h.alloc_bin us x grown refl refl v.allocs;
    frees = IsBin-relabel s h.free_bin fs x grown refl refl v.frees;
    blocks =
        let end : x + 16 + rounded n
            ≡ h.heap_bin_top + (h.heap_bin_head + (rounded n - (s x).size)) =
          omega (arith, c.last, c.more) in
        rw (← end) (Blocks-grow v.blocks x grown c.handed_out c.last (omega (arith, c.more)) refl);
    based = v.based;
    fits = omega (arith, v.fits, c.room);
  }

  -- On an intact heap, `realloc` of the block at the end of the carved part, for at least as many bytes as
  -- it has and with room for them in the pool, returns the same pointer: the block has the rounded size,
  -- every other block keeps its own, the heap stays intact with the same blocks, and the pool its extent.
  pub realloc-IsHeap :
      (s' : Store) × (h' : HeapAllocator) × (realloc fuel (s, h) (x + 16) n
        ≡ returns (x + 16, s', h'))
      × IsHeap s' h' us fs
      × ((s' x).size ≡ rounded n)
      × ((a : ℕ) → a ≢ x → s' a ≡ s a)
      × (h'.heap_bin_head + h'.heap_bin_size ≡ h.heap_bin_head + h.heap_bin_size)
  unfolding write
  realloc-IsHeap = (
    write s x grown,
    bigger,
    realloc_eq,
    grown-IsHeap,
    ground arith,
    λ a ne. let e : (a == x) ≡ false = ground arith in rw e refl,
    omega (arith, c.room),
  )
