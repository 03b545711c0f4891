-- ===== src/Heap/Alloc/Bump.antt =====
-- The branch of `malloc` that carves a new block.
use pentinum_os.Base.{
  ℕ, ◌+◌, ◌%◌, ◌^◌, ◌≤◌, ◌≡◌, sym, true, false, List, [], ◌∷◌, ◌++◌, arith, refl, add32,
}
use pentinum_os.Heap.Bin.{Store, write, construct_heap_node, bin_push}
use pentinum_os.Heap.Bin.Seg.{has, IsBin, SameBlocks}
use pentinum_os.Heap.Alloc.{HeapAllocator, malloc_bump}
use pentinum_os.Heap.Alloc.Blocks.{Blocks, Blocks-bump, Blocks-same, Blocks-cong}
use pentinum_os.Heap.Alloc.Bins.{IsBin-write, both_push, has-concat}
use pentinum_os.Heap.Alloc.Inv.{IsHeap, Grant}

module _ (s : Store) (h : HeapAllocator) (us fs : List ℕ) (aligned : ℕ) (v : IsHeap s h us fs)
    (room : aligned + 16 ≤ h.heap_bin_size) where
  abbrev bump_node : ℕ
  bump_node = h.heap_bin_top + h.heap_bin_head

  abbrev bump_store : Store
  bump_store = write s bump_node (construct_heap_node aligned)

  -- The end of the carved part is no header of a block.
  bump_fresh : (has bump_node us ≡ false) × (has bump_node fs ≡ false)
  bump_fresh = ground (arith, v.blocks.inside bump_node)

  bump_bins :
      let (s', b) = bin_push bump_store h.alloc_bin bump_node in
      IsBin s' b (us ++ bump_node ∷ []) × IsBin s' h.free_bin fs × SameBlocks bump_store s'
  bump_bins =
      both_push bump_store h.alloc_bin h.free_bin us fs bump_node
        (λ a i. ground (arith, v.blocks.either a))
        (IsBin-write s h.free_bin fs bump_node _ v.frees bump_fresh.1)
        (IsBin-write s h.alloc_bin us bump_node _ v.allocs bump_fresh.0) (ground (arith, v.based))
        bump_fresh.0 bump_fresh.1

  bump-Blocks :
      Blocks
        (bin_push bump_store h.alloc_bin bump_node).0
        h.heap_bin_top
        (bump_node + 16 + aligned)
        (λ a. has a (us ++ bump_node ∷ []))
        (λ a. has a fs)
  unfolding construct_heap_node
  bump-Blocks =
      Blocks-same
        (Blocks-cong (λ a. sym (has-concat a us bump_node)) (λ a. refl)
          (Blocks-bump v.blocks (construct_heap_node aligned) refl (omega arith)))
        _ bump_bins.2

  bump_sizes :
      ((bump_store bump_node).size ≡ aligned)
      × ((x : ℕ) → has x us ≡ true → (bump_store x).size ≡ (s x).size)
  unfolding write construct_heap_node
  bump_sizes = (ground arith, λ x i. ground (arith, bump_fresh))

  pub malloc_bump-Grant :
      let (p, s', h') = malloc_bump (s, h) aligned in Grant s h us aligned p s' h'
  unfolding malloc_bump construct_heap_node
  malloc_bump-Grant =
      let here : (h.heap_bin_top + h.heap_bin_head) % 2 ^ 32 ≡ bump_node = omega (arith, v.fits) in
      let (allocs, frees, same) = bump_bins in
      let far : h.heap_bin_top + add32 h.heap_bin_head (add32 16 aligned)
          ≡ bump_node + 16 + aligned =
        omega (arith, v.fits) in
      rw here (record {
        node = bump_node;
        fs' = fs;
        ptr = omega (arith, v.fits);
        fresh = bump_fresh.0;
        heap = record {
          allocs = allocs;
          frees = frees;
          blocks = rw far bump-Blocks;
          based = v.based;
          fits = omega (arith, v.fits);
        };
        size = ground (arith, same bump_node, bump_sizes.0);
        kept = λ x i. ground (arith, same x, bump_sizes.1 x i);
        same_top = refl;
        same_pool = omega (arith, v.fits);
      })
