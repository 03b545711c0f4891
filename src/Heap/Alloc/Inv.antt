-- ===== src/Heap/Alloc/Inv.antt =====
-- The invariant of a heap, and what a successful allocation gives.
use pentinum_os.Base.{
  ℕ, ◌+◌, ◌-◌, ◌*◌, ◌/◌, ◌^◌, ◌≤◌, ◌<◌, ◌≡◌, true, false, List, [], ◌∷◌, ◌++◌, arith, refl,
}
use pentinum_os.Base.Bits.{and_fifteen}
use pentinum_os.Heap.Bin.{Store, construct_heap_bin}
use pentinum_os.Heap.Bin.Seg.{has, IsBin}
use pentinum_os.Heap.Alloc.{HeapAllocator, get_aligned_size, construct_heap}
use pentinum_os.Heap.Alloc.Blocks.{Blocks}

-- The alloc bin links `us` and the free bin `fs`; their blocks lie apart in the carved part of the
-- pool, which stays below 2 ^ 32.
pub record IsHeap (s : Store) (h : HeapAllocator) (us fs : List ℕ) : Type 0 where
  pub allocs : IsBin s h.alloc_bin us
  pub frees : IsBin s h.free_bin fs
  pub blocks :
      Blocks s h.heap_bin_top (h.heap_bin_top + h.heap_bin_head) (λ a. has a us) (λ a. has a fs)
  pub based : 0 < h.heap_bin_top
  pub fits : h.heap_bin_top + h.heap_bin_head + h.heap_bin_size < 2 ^ 32

-- What a successful allocation of `want` bytes gives: a block that was not handed out before.
pub record Grant (s : Store) (h : HeapAllocator) (us : List ℕ) (want p : ℕ) (s' : Store)
    (h' : HeapAllocator) : Type 0 where
  pub node : ℕ
  pub fs' : List ℕ
  pub ptr : p ≡ node + 16
  pub fresh : has node us ≡ false
  pub heap : IsHeap s' h' (us ++ node ∷ []) fs'
  pub size : want ≤ (s' node).size
  pub kept : (x : ℕ) → has x us ≡ true → (s' x).size ≡ (s x).size
  pub same_top : h'.heap_bin_top ≡ h.heap_bin_top
  pub same_pool : h'.heap_bin_head + h'.heap_bin_size ≡ h.heap_bin_head + h.heap_bin_size

-- A request is rounded up to a multiple of 16, while that is below 2 ^ 32.
pub get_aligned_size_sixteen :
    (n : ℕ) → n ≤ 2 ^ 32 - 16 → get_aligned_size n 16 ≡ (n + 15) / 16 * 16
unfolding get_aligned_size
get_aligned_size_sixteen n h = rw (and_fifteen, and_fifteen) (omega arith)

-- A new heap over a pool that lies above the null address and ends below 2 ^ 32 is intact and empty.
pub construct_heap-IsHeap :
    (s : Store) (pool size : ℕ)
    → 0 < pool
    → pool + size < 2 ^ 32
    → IsHeap s (construct_heap pool size) [] []
unfolding construct_heap construct_heap_bin
construct_heap-IsHeap s pool size p f = record {
  allocs = ((refl, refl), tt);
  frees = ((refl, refl), tt);
  blocks = ground arith;
  based = p;
  fits = omega arith;
}
