-- ===== src/Heap/Alloc/Reuse.antt =====
-- The branches of `malloc` that take a free block, whole or split.
use pentinum_os.Base.{
  ℕ, ◌+◌, ◌-◌, ◌≤◌, ◌≡◌, ◌≢◌, sym, true, false, List, [], ◌∷◌, ◌++◌, arith, refl, add32, sub32, inl,
  inr,
}
use pentinum_os.Heap.Bin.{
  Store, HeapNode, HeapBin, write, idflag, construct_heap_node, bin_push, bin_remove,
}
use pentinum_os.Heap.Bin.Seg.{has, has-ne-zero, IsBin, SameBlocks, Distinct-erase}
use pentinum_os.Heap.Alloc.{
  HeapAllocator, malloc_whole, malloc_split, without_free, with_free, with_hint,
}
use pentinum_os.Heap.Alloc.Blocks.{Blocks, Blocks-take, Blocks-split, Blocks-same, Blocks-cong}
use pentinum_os.Heap.Alloc.Bins.{
  IsBin-write, IsBin-relabel, both_push, both_remove, has-concat, has-erase, has_middle,
}
use pentinum_os.Heap.Alloc.Inv.{IsHeap, Grant}

module _ (s : Store) (h : HeapAllocator) (us pre : List ℕ) (x : ℕ) (post : List ℕ)
    (v : IsHeap s h us (pre ++ x ∷ post)) where
  abbrev s1 : Store
  s1 = (bin_remove s h.free_bin x).0

  abbrev free1 : HeapBin
  free1 = (bin_remove s h.free_bin x).1

  removed : IsBin s1 free1 (pre ++ post) × IsBin s1 h.alloc_bin us × SameBlocks s s1
  removed =
      both_remove s h.free_bin h.alloc_bin pre post us x (λ a i. v.blocks.either a i) v.allocs
        v.frees

  x_idle : has x (pre ++ x ∷ post) ≡ true
  x_idle = has_middle pre x post

  x_inside : x + 16 + (s x).size ≤ h.heap_bin_top + h.heap_bin_head
  x_inside = ground (arith, v.blocks.inside x, x_idle)

  x_not_used : has x us ≡ false
  x_not_used = ground (arith, v.blocks.either x, x_idle)

  x_gone : has x (pre ++ post) ≡ false
  x_gone = (Distinct-erase pre x post v.frees.1).1

  x_real : x ≢ 0
  x_real = has-ne-zero s 0 h.free_bin.head h.free_bin.tail 0 x (pre ++ x ∷ post) v.frees.0 x_idle

  rest_apart : (a : ℕ) → has a (pre ++ post) ≡ true → has a us ≡ false
  rest_apart a i = ground (arith, v.blocks.either a, has-erase a pre x post v.frees.1)

  module _ (want : ℕ) (fits : want ≤ (s x).size) where
    abbrev s2 : Store
    s2 = (bin_push s1 h.alloc_bin x).0

    abbrev alloc2 : HeapBin
    alloc2 = (bin_push s1 h.alloc_bin x).1

    abbrev label : HeapNode
    label = without_free (s2 x)

    taken : IsBin s2 alloc2 (us ++ x ∷ []) × IsBin s2 free1 (pre ++ post) × SameBlocks s1 s2
    taken =
        both_push s1 h.alloc_bin free1 us (pre ++ post) x rest_apart removed.0 removed.1 x_real
          x_not_used x_gone

    whole-Blocks :
        Blocks
          (write s2 x label)
          h.heap_bin_top
          (h.heap_bin_top + h.heap_bin_head)
          (λ a. has a (us ++ x ∷ []))
          (λ a. has a (pre ++ post))
    whole-Blocks =
        let same : SameBlocks s s2 = λ a. ground (arith, removed.2 a, taken.2 a) in
        Blocks-cong (λ a. sym (has-concat a us x)) (λ a. sym (has-erase a pre x post v.frees.1))
          (Blocks-take (Blocks-same v.blocks s2 same) x label x_idle refl
            (ground (arith, same x, v.blocks.idle_flags x, x_idle)))

    whole_kept :
        (want ≤ (write s2 x label x).size)
        × ((a : ℕ) → has a us ≡ true → (write s2 x label a).size ≡ (s a).size)
    unfolding write
    whole_kept = (
      ground (arith, removed.2 x, taken.2 x),
      λ a i. ground (arith, removed.2 a, taken.2 a, x_not_used),
    )

    pub malloc_whole-Grant : let (p, s', h') = malloc_whole (s, h) x in Grant s h us want p s' h'
    unfolding malloc_whole
    malloc_whole-Grant = record {
      node = x;
      fs' = pre ++ post;
      ptr = omega (arith, v.fits, x_inside);
      fresh = x_not_used;
      heap = record {
        allocs = IsBin-relabel s2 alloc2 (us ++ x ∷ []) x label refl refl taken.0;
        frees = IsBin-relabel s2 free1 (pre ++ post) x label refl refl taken.1;
        blocks = whole-Blocks;
        based = v.based;
        fits = v.fits;
      };
      size = whole_kept.0;
      kept = whole_kept.1;
      same_top = refl;
      same_pool = refl;
    }

  module _ (aligned : ℕ) (large : aligned + 32 ≤ (s x).size) where
    abbrev r : ℕ
    r = x + 16 + aligned

    abbrev rest : HeapNode
    rest = construct_heap_node ((s x).size - aligned - 16)

    -- The store with both new headers, before the bins see them.
    abbrev s3 : Store
    s3 =
        let t = write (write s1 r rest) x (construct_heap_node aligned) in
        write t x (with_hint (t x))

    abbrev s4 : Store
    s4 = (bin_push s3 h.alloc_bin x).0

    abbrev alloc4 : HeapBin
    alloc4 = (bin_push s3 h.alloc_bin x).1

    abbrev s5 : Store
    s5 = write s4 r (with_free (s4 r))

    abbrev s6 : Store
    s6 = (bin_push s5 free1 r).0

    abbrev free6 : HeapBin
    free6 = (bin_push s5 free1 r).1

    r_fresh : (has r us ≡ false) × (has r (pre ++ x ∷ post) ≡ false)
    r_fresh = ground (arith, v.blocks.apart r x, v.blocks.inside r, x_idle, v.blocks.either r)

    r_gone : has r (pre ++ post) ≡ false
    r_gone = ground (arith, has-erase r pre x post v.frees.1, r_fresh)

    cut :
        (b : HeapBin) (xs : List ℕ)
        → IsBin s1 b xs
        → has x xs ≡ false
        → has r xs ≡ false
        → IsBin s3 b xs
    cut b xs w out out' =
        IsBin-write _ b xs x _ (IsBin-write _ b xs x _ (IsBin-write s1 b xs r rest w out') out) out

    taken_front : IsBin s4 alloc4 (us ++ x ∷ []) × IsBin s4 free1 (pre ++ post) × SameBlocks s3 s4
    taken_front =
        both_push s3 h.alloc_bin free1 us (pre ++ post) x rest_apart
          (cut free1 (pre ++ post) removed.0 x_gone r_gone)
          (cut h.alloc_bin us removed.1 x_not_used r_fresh.0) x_real x_not_used x_gone

    given_rest :
        IsBin s6 free6 ((pre ++ post) ++ r ∷ []) × IsBin s6 alloc4 (us ++ x ∷ []) × SameBlocks s5 s6
    given_rest =
        both_push s5 free1 alloc4 (pre ++ post) (us ++ x ∷ []) r
          (λ a i. ground (arith, has-concat a us x, rest_apart a, x_gone))
          (IsBin-relabel s4 alloc4 (us ++ x ∷ []) r (with_free (s4 r)) refl refl taken_front.0)
          (IsBin-relabel s4 free1 (pre ++ post) r (with_free (s4 r)) refl refl taken_front.1)
          (ground arith) r_gone (ground (arith, has-concat r us x, r_fresh))

    -- The header that the split leaves at `r`, seen from the end.
    abbrev given : HeapNode
    given = record rest { flags = idflag + 1 }

    split_same : SameBlocks (write (write s r given) x (with_hint (construct_heap_node aligned))) s6
    unfolding write construct_heap_node
    split_same a =
        ground (arith, removed.2 a, taken_front.2 a, taken_front.2 r, given_rest.2 a, x_real)

    split-Blocks :
        Blocks s6 h.heap_bin_top
          (h.heap_bin_top + h.heap_bin_head)
          (λ a. has a (us ++ x ∷ []))
          (λ a. has a ((pre ++ post) ++ r ∷ []))
    unfolding construct_heap_node
    split-Blocks =
        Blocks-cong (λ a. sym (has-concat a us x))
          (λ a. ground (arith, has-concat a (pre ++ post) r, has-erase a pre x post v.frees.1))
          (Blocks-same
            (Blocks-split v.blocks x (with_hint (construct_heap_node aligned)) given x_idle
              (omega arith) (inr refl) (inl refl))
            s6 split_same)

    split_kept : (aligned ≤ (s6 x).size) × ((a : ℕ) → has a us ≡ true → (s6 a).size ≡ (s a).size)
    unfolding write construct_heap_node
    split_kept =
        (ground (arith, split_same x), λ a i. ground (arith, split_same a, x_not_used, r_fresh))

    pub malloc_split-Grant :
        let (p, s', h') = malloc_split (s, h) x aligned in Grant s h us aligned p s' h'
    unfolding malloc_split
    malloc_split-Grant =
        let at_r : add32 x (add32 16 aligned) ≡ r = omega (arith, v.fits, x_inside) in
        let size : sub32 (sub32 (s1 x).size aligned) 16 ≡ (s x).size - aligned - 16 =
          omega (arith, removed.2 x, v.fits, x_inside) in
        rw (at_r, size)
          (record {
            node = x;
            fs' = (pre ++ post) ++ r ∷ [];
            ptr = omega (arith, v.fits, x_inside);
            fresh = x_not_used;
            heap = record {
              allocs = given_rest.1;
              frees = given_rest.0;
              blocks = split-Blocks;
              based = v.based;
              fits = v.fits;
            };
            size = split_kept.0;
            kept = split_kept.1;
            same_top = refl;
            same_pool = refl;
          })
