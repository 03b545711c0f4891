-- ===== src/Heap/Realloc/Move.antt =====
-- `realloc` that moves a block, c-kernel/utils/heap.c.
use mathlib.Core.Path.{subst}
use mathlib.Core.List.{append_assoc}
use pentinum_os.Base.{
  ℕ, ◌+◌, ◌/◌, ◌%◌, ◌*◌, ◌-◌, ◌^◌, ◌≤◌, ◌<◌, ◌≡◌, ◌≢◌, ◌⊎◌, inl, inr, true, false, List, [], ◌∷◌,
  ◌++◌, length, ◌==◌, ltb, add32, sub32, arith, refl, sym,
}
use pentinum_os.Heap.Bin.{Store, idflag, heap_node_valid}
use pentinum_os.Heap.Alloc.Bins.{has_middle}
use pentinum_os.Heap.Alloc.{HeapAllocator, get_aligned_size, free}
use pentinum_os.Heap.Bin.Seg.{has}
use pentinum_os.Heap.Bin.Find.{AllSmaller}
use pentinum_os.Heap.Alloc.Inv.{IsHeap, Grant, get_aligned_size_sixteen}
use pentinum_os.Heap.Alloc.Malloc.{malloc-Grant, rounded}
use pentinum_os.Heap.Alloc.Free.{free-IsHeap, freed_blocks}
use pentinum_os.Heap.Realloc.{Outcome, returns, fault, copy_and_free, free_and_alloc, realloc}

-- A block of at least `n` bytes behind the pointer `p` has taken the place of the block at `x`.
pub record Moved (us : List ℕ) (n p : ℕ) (s' : Store) (h' : HeapAllocator) : Type 0 where
  pub node : ℕ
  pub fs' : List ℕ
  pub ptr : p ≡ node + 16
  pub heap : IsHeap s' h' (us ++ node ∷ []) fs'
  pub size : n ≤ (s' node).size

module _ (fuel : ℕ) (s : Store) (h : HeapAllocator) (pre : List ℕ) (x : ℕ) (post fs : List ℕ)
    (n : ℕ) (v : IsHeap s h (pre ++ x ∷ post) fs) where
  moved :
      (p : ℕ) (s1 : Store) (h1 : HeapAllocator)
      → Grant s h (pre ++ x ∷ post) n p s1 h1
      → let (s', h') = free (s1, h1) (x + 16) in Moved (pre ++ post) n p s' h'
  moved p s1 h1 g =
      let shape : IsHeap s1 h1 (pre ++ x ∷ (post ++ g.node ∷ [])) g.fs' =
        subst (λ us. IsHeap s1 h1 us g.fs') (append_assoc pre (x ∷ post) (g.node ∷ [])) g.heap in
      let (whole, sizes, top, pool) = free-IsHeap s1 h1 pre x (post ++ g.node ∷ []) g.fs' shape in
      record {
        node = g.node;
        fs' = freed_blocks s1 h1 x g.fs';
        ptr = g.ptr;
        heap =
            subst
              (λ us.
                IsHeap (free (s1, h1) (x + 16)).0 (free (s1, h1) (x + 16)).1 us
                  (freed_blocks s1 h1 x g.fs'))
              (sym (append_assoc pre post (g.node ∷ []))) whole;
        size = omega (arith, g.size, sizes g.node);
      }

  -- The call of `realloc` comes to its last part.
  realloc_moves :
      0 < n
      → n < 2 ^ 32 - 48
      → (s x).size ≤ n
      → (s x).flags / 2 % 2 ≡ 0
      → x + 16 + (s x).size ≢ h.heap_bin_top + h.heap_bin_head
      → realloc fuel (s, h) (x + 16) n ≡ free_and_alloc fuel (s, h) (x + 16) n
  unfolding realloc heap_node_valid
  realloc_moves some_bytes small more no_hint inner =
      let used : has x (pre ++ x ∷ post) ≡ true = has_middle pre x post in
      let place = v.blocks.inside x (ground (arith, used)) in
      let header_at : sub32 (x + 16) 16 ≡ x = omega (arith, v.fits, place) in
      let aligned : get_aligned_size n 0x10 ≡ rounded n =
        get_aligned_size_sixteen n (omega arith) in
      let a : (n == 0) ≡ false = ground arith in
      let b : ((s x).flags / 0x10000 * 0x10000 == idflag) ≡ true =
        ground (arith, v.blocks.used_flags x used) in
      let d : ltb (rounded n) (s x).size ≡ false = ground arith in
      let e : ltb n (s x).size ≡ false = ground arith in
      let f : (add32 (sub32 (x + 16) h.heap_bin_top) (s x).size == h.heap_bin_head) ≡ false =
        ground (arith, v.fits, place) in
      let g : ((s x).flags / 2 % 2 == 1) ≡ false = ground arith in
      rw (header_at, aligned, a, b, d, e, f, g) refl

  -- How the call ends: with the old block freed and one of at least `n` bytes in its place, or with a
  -- write through null.
  abbrev pub Moves : Outcome → Type 0
  Moves out =
      ((h.heap_bin_size < rounded n + 16) × AllSmaller s (rounded n) fs × (out ≡ fault))
      ⊎ ((p : ℕ) × (s' : Store) × (h' : HeapAllocator) × (out ≡ returns (p, s', h'))
          × Moved (pre ++ post) n p s' h')

  granted-Moves :
      (p : ℕ) (s1 : Store) (h1 : HeapAllocator)
      → Grant s h (pre ++ x ∷ post) n p s1 h1
      → Moves (copy_and_free (x + 16) (p, s1, h1))
  granted-Moves p s1 h1 g =
      let real : (p == 0) ≡ false = ground (arith, g.ptr) in
      rw real
        (inr (p, (free (s1, h1) (x + 16)).0, (free (s1, h1) (x + 16)).1, refl, moved p s1 h1 g))

  -- `realloc` of a handed-out block of an intact heap that is not the last one and has no hint that it can
  -- grow, for at least as many bytes as it has, with fuel for the free bin and 0 < n < 2 ^ 32 - 48, ends:
  -- either the pool and every free block are too small for the rounded request, and the call writes
  -- through a null pointer; or the block is freed, the heap is intact, and a block of at least `n` bytes
  -- has taken its place.
  pub realloc-Moved :
      length fs < fuel
      → 0 < n
      → n < 2 ^ 32 - 48
      → (s x).size ≤ n
      → (s x).flags / 2 % 2 ≡ 0
      → x + 16 + (s x).size ≢ h.heap_bin_top + h.heap_bin_head
      → Moves (realloc fuel (s, h) (x + 16) n)
  unfolding free_and_alloc
  realloc-Moved enough some_bytes small more no_hint inner =
      rw (realloc_moves some_bytes small more no_hint inner)
        (elim (malloc-Grant fuel s h (pre ++ x ∷ post) fs n v enough some_bytes small) [
          | inl full ↦ inl (full.1, full.2, rw (free_and_alloc, full.0) refl)
          | inr granted ↦
              rw (free_and_alloc, granted.1)
                (granted-Moves granted.0.0 granted.0.1 granted.0.2 granted.2)
        ])
