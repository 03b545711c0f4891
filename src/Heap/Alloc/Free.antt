-- ===== src/Heap/Alloc/Free.antt =====
-- `free` on an intact heap.
use pentinum_os.Base.{
  ℕ, ◌+◌, ◌-◌, ◌≤◌, ◌≡◌, sym, true, false, List, [], ◌∷◌, ◌++◌, arith, refl, add32, sub32, inl, inr,
  ◌==◌, if◌then◌else◌, Bool-cases,
}
use pentinum_os.Heap.Bin.{Store, HeapNode, HeapBin, write, heap_node_valid, bin_push, bin_remove}
use pentinum_os.Heap.Bin.Seg.{has, IsBin, has-ne-zero, SameBlocks, Distinct-erase}
use pentinum_os.Heap.Alloc.{HeapAllocator, State, with_free, release, free}
use pentinum_os.Heap.Alloc.Blocks.{IdleFlags, Blocks-give, Blocks-drop, Blocks-same, Blocks-cong}
use pentinum_os.Heap.Alloc.Bins.{
  IsBin-relabel, both_push, both_remove, has-concat, has-erase, has_middle,
}
use pentinum_os.Heap.Alloc.Inv.{IsHeap}

-- On an intact heap a free block is left as it is: a second `free` of a pointer, while its block is in
-- the free bin, changes nothing.
pub double_free :
    (s : Store) (h : HeapAllocator) (us fs : List ℕ) (x : ℕ)
    → IsHeap s h us fs
    → has x fs ≡ true
    → free (s, h) (x + 16) ≡ (s, h)
unfolding free heap_node_valid
double_free s h us fs x v i =
    let node : sub32 (x + 16) 16 ≡ x = omega (arith, v.fits, inner) in
    rw node (ground (arith, v.blocks.idle_flags x))
  where
    inner : x + 16 + (s x).size ≤ h.heap_bin_top + h.heap_bin_head
    inner = ground (arith, v.blocks.inside x)

module _ (s : Store) (h : HeapAllocator) (pre : List ℕ) (x : ℕ) (post fs : List ℕ)
    (v : IsHeap s h (pre ++ x ∷ post) fs) where
  x_used : has x (pre ++ x ∷ post) ≡ true
  x_used = has_middle pre x post

  x_inside : (h.heap_bin_top ≤ x) × (x + 16 + (s x).size ≤ h.heap_bin_top + h.heap_bin_head)
  x_inside = ground (arith, v.blocks.inside x, x_used)

  x_not_idle : has x fs ≡ false
  x_not_idle = v.blocks.either x x_used

  x_gone : has x (pre ++ post) ≡ false
  x_gone = (Distinct-erase pre x post v.allocs.1).1

  -- A pointer to a handed-out block passes both guards.
  guards_pass : free (s, h) (x + 16) ≡ release (s, h) (x + 16)
  unfolding free heap_node_valid
  guards_pass =
      let node : sub32 (x + 16) 16 ≡ x = omega (arith, v.fits, x_inside) in
      rw node (ground (arith, v.blocks.used_flags x, x_used))

  abbrev label : HeapNode
  label = with_free (s x)

  abbrev s1 : Store
  s1 = write s x label

  abbrev s2 : Store
  s2 = (bin_remove s1 h.alloc_bin x).0

  abbrev alloc2 : HeapBin
  alloc2 = (bin_remove s1 h.alloc_bin x).1

  removed : IsBin s2 alloc2 (pre ++ post) × IsBin s2 h.free_bin fs × SameBlocks s1 s2
  removed =
      both_remove s1 h.alloc_bin h.free_bin pre post fs x (λ a i. ground (arith, v.blocks.either a))
        (IsBin-relabel s h.free_bin fs x label refl refl v.frees)
        (IsBin-relabel s h.alloc_bin (pre ++ x ∷ post) x label refl refl v.allocs)

  size2 : (s2 x).size ≡ (s x).size
  unfolding write
  size2 = ground (arith, removed.2 x)

  kept2 : (a : ℕ) → (s2 a).size ≡ (s a).size
  unfolding write
  kept2 a = ground (arith, removed.2 a)

  label_idle : IdleFlags label.flags
  label_idle = ground (arith, v.blocks.used_flags x, x_used)

  -- What `release` leaves, when the block is the last one and when it is not.
  abbrev Freed : List ℕ → State → Type 0
  Freed fs' (s', h') =
      IsHeap s' h' (pre ++ post) fs'
      × ((a : ℕ) → (s' a).size ≡ (s a).size)
      × (h'.heap_bin_top ≡ h.heap_bin_top)
      × (h'.heap_bin_head + h'.heap_bin_size ≡ h.heap_bin_head + h.heap_bin_size)

  abbrev IsLast : Type 0
  IsLast = x + 16 + (s x).size ≡ h.heap_bin_top + h.heap_bin_head

  release_last :
      IsLast
      → release (s, h) (x + 16) ≡ (
        s2,
        record h {
          heap_bin_head = h.heap_bin_head - (16 + (s x).size);
          heap_bin_size = h.heap_bin_size + (16 + (s x).size);
          alloc_bin = alloc2;
        },
      )
  unfolding release
  release_last last =
      let node : sub32 (x + 16) 16 ≡ x = omega (arith, v.fits, x_inside) in
      let end_pos : add32 (sub32 (x + 16) h.heap_bin_top) (s x).size ≡ h.heap_bin_head =
        omega (arith, v.fits, x_inside, v.based, last) in
      let test : (h.heap_bin_head == h.heap_bin_head) ≡ true = ground arith in
      let whole : add32 16 (s x).size ≡ 16 + (s x).size = omega (arith, v.fits, x_inside) in
      let head : sub32 h.heap_bin_head (16 + (s x).size) ≡ h.heap_bin_head - (16 + (s x).size) =
        omega (arith, v.fits, x_inside, last) in
      let room : add32 h.heap_bin_size (16 + (s x).size) ≡ h.heap_bin_size + (16 + (s x).size) =
        omega (arith, v.fits, x_inside, last) in
      rw (node, size2, end_pos, test, whole, head, room)

  release_inner :
      ¬ IsLast
      → release (s, h) (x + 16) ≡ (
        (bin_push s2 h.free_bin x).0,
        record h { alloc_bin = alloc2; free_bin = (bin_push s2 h.free_bin x).1 },
      )
  unfolding release
  release_inner inner =
      let node : sub32 (x + 16) 16 ≡ x = omega (arith, v.fits, x_inside) in
      let end_pos : (add32 (sub32 (x + 16) h.heap_bin_top) (s x).size == h.heap_bin_head) ≡ false =
        ground (arith, v.fits, x_inside, v.based, inner) in
      rw (node, size2, end_pos)

  free-last : IsLast → Freed fs (release (s, h) (x + 16))
  free-last last =
      let pos : h.heap_bin_top + (h.heap_bin_head - (16 + (s x).size)) ≡ x =
        omega (arith, x_inside, v.fits) in
      rw (release_last last) (
        record {
          allocs = removed.0;
          frees = removed.1;
          blocks = rw pos (
              Blocks-cong (λ a. sym (has-erase a pre x post v.allocs.1)) (λ a. refl)
                (Blocks-same (Blocks-drop v.blocks x label x_used last) s2 removed.2));
          based = v.based;
          fits = omega (arith, v.fits);
        },
        kept2,
        refl,
        omega (arith, x_inside, v.fits),
      )

  pushed :
      let (s3, free3) = bin_push s2 h.free_bin x in
      IsBin s3 free3 (fs ++ x ∷ []) × IsBin s3 alloc2 (pre ++ post) × SameBlocks s2 s3
  pushed =
      both_push s2 h.free_bin alloc2 fs (pre ++ post) x
        (λ a i. ground (arith, v.blocks.either a, has-erase a pre x post v.allocs.1)) removed.0
        removed.1
        (has-ne-zero s 0 h.alloc_bin.head h.alloc_bin.tail 0 x (pre ++ x ∷ post) v.allocs.0 x_used)
        x_not_idle x_gone

  free-inner : ¬ IsLast → Freed (fs ++ x ∷ []) (release (s, h) (x + 16))
  free-inner inner =
      let (s3, free3) = bin_push s2 h.free_bin x in
      rw (release_inner inner) (
        record {
          allocs = pushed.1;
          frees = pushed.0;
          blocks =
              Blocks-cong (λ a. sym (has-erase a pre x post v.allocs.1))
                (λ a. sym (has-concat a fs x))
                (Blocks-same (Blocks-give v.blocks x label x_used refl label_idle) s3
                  (λ a. ground (arith, removed.2 a, pushed.2 a)));
          based = v.based;
          fits = v.fits;
        },
        (λ a. ground (arith, kept2 a, pushed.2 a)),
        refl,
        refl,
      )

-- The free blocks after `free` of the block at `x`: the last block goes back to the uncarved part of
-- the pool, any other to the end of the free bin.
abbrev pub freed_blocks : Store → HeapAllocator → ℕ → List ℕ → List ℕ
freed_blocks s h x fs =
    if x + 16 + (s x).size == h.heap_bin_top + h.heap_bin_head then fs else fs ++ x ∷ []

-- On an intact heap, `free` of a handed-out block leaves an intact heap in which that block is no
-- longer handed out and the others are, in their order; the block is in the free bin, or in the
-- uncarved part of the pool if it was the last one. No size changes, and the pool keeps its place
-- and its extent.
pub free-IsHeap :
    (s : Store) (h : HeapAllocator) (pre : List ℕ) (x : ℕ) (post fs : List ℕ)
    → IsHeap s h (pre ++ x ∷ post) fs
    → let (s', h') = free (s, h) (x + 16) in
      IsHeap s' h' (pre ++ post) (freed_blocks s h x fs)
      × ((a : ℕ) → (s' a).size ≡ (s a).size)
      × (h'.heap_bin_top ≡ h.heap_bin_top)
      × (h'.heap_bin_head + h'.heap_bin_size ≡ h.heap_bin_head + h.heap_bin_size)
free-IsHeap s h pre x post fs v =
    rw (guards_pass s h pre x post fs v)
      (elim (Bool-cases (x + 16 + (s x).size == h.heap_bin_top + h.heap_bin_head)) [
        | inl last ↦ rw last (free-last s h pre x post fs v (ground arith))
        | inr inner ↦ rw inner (free-inner s h pre x post fs v (λ e. ground arith))
      ])
