-- ===== src/Heap/Alloc/Malloc.antt =====
-- `malloc` on an intact heap.
use pentinum_os.Base.{
  ℕ, ◌+◌, ◌-◌, ◌*◌, ◌/◌, ◌^◌, ◌≤◌, ◌<◌, ◌≡◌, ◌≢◌, ◌⊎◌, false, List, arith, refl, add32, inl, inr,
  Option, some, length, ◌==◌, leb, Bool-cases,
}
use mathlib.Core.Path.{subst}
use pentinum_os.Heap.Bin.{Store, bin_find_node}
use pentinum_os.Heap.Bin.Find.{AllSmaller, FoundAt, bin_find_node-first}
use pentinum_os.Heap.Alloc.{
  HeapAllocator, Reply, get_aligned_size, malloc_whole, malloc_split, malloc_search, malloc,
}
use pentinum_os.Heap.Alloc.Inv.{IsHeap, Grant, get_aligned_size_sixteen}
use pentinum_os.Heap.Alloc.Bump.{malloc_bump-Grant}
use pentinum_os.Heap.Alloc.Reuse.{malloc_whole-Grant, malloc_split-Grant}

-- A granted reply.
abbrev pub Granted : Store → HeapAllocator → List ℕ → ℕ → Reply → Type 0
Granted s h us want (p, s', h') = Grant s h us want p s' h'

-- A search either fails, with no free block large enough and nothing changed, or grants.
abbrev pub Outcome : Store → HeapAllocator → List ℕ → List ℕ → ℕ → Option Reply → Type 0
Outcome s h us fs want out =
    ((out ≡ some (0, s, h)) × AllSmaller s want fs)
    ⊎ ((r : Reply) × (out ≡ some r) × Granted s h us want r)

module _ (s : Store) (h : HeapAllocator) (us fs : List ℕ) (v : IsHeap s h us fs) where
  found_whole : (want x : ℕ) → FoundAt s want fs x → Granted s h us want (malloc_whole (s, h) x)
  found_whole want x f =
      malloc_whole-Grant s h us f.before x f.after (subst (IsHeap s h us) f.place v) want f.fits

  found_split :
      (aligned x : ℕ)
      → FoundAt s (aligned + 32) fs x
      → Granted s h us aligned (malloc_split (s, h) x aligned)
  found_split aligned x f =
      malloc_split-Grant s h us f.before x f.after (subst (IsHeap s h us) f.place v) aligned f.fits

  module _ (fuel aligned : ℕ) (small : aligned + 32 < 2 ^ 32) where
    abbrev find_large : Option ℕ
    find_large = bin_find_node fuel s h.free_bin (aligned + 32)

    abbrev find_exact : Option ℕ
    find_exact = bin_find_node fuel s h.free_bin aligned

    two_headers : add32 (add32 aligned 16) 16 ≡ aligned + 32
    two_headers = omega arith

    search_none :
        find_large ≡ some 0
        → find_exact ≡ some 0
        → malloc_search fuel (s, h) aligned ≡ some (0, s, h)
    unfolding malloc_search
    search_none e f =
        rw (two_headers, malloc_search) (rw (e, malloc_search) (rw (f, malloc_search)))

    search_whole :
        (x : ℕ)
        → x ≢ 0
        → find_large ≡ some 0
        → find_exact ≡ some x
        → malloc_search fuel (s, h) aligned ≡ some (malloc_whole (s, h) x)
    unfolding malloc_search
    search_whole x ne e f =
        let real : (x == 0) ≡ false = ground arith in
        rw (two_headers, malloc_search) (rw (e, malloc_search) (rw (f, malloc_search) (rw real)))

    search_split :
        (x : ℕ)
        → x ≢ 0
        → find_large ≡ some x
        → malloc_search fuel (s, h) aligned ≡ some (malloc_split (s, h) x aligned)
    unfolding malloc_search
    search_split x ne e =
        let real : (x == 0) ≡ false = ground arith in
        rw (two_headers, malloc_search) (rw (e, malloc_search) (rw real))

    -- The search ends, and either no free block holds the request or one is handed out.
    search-Outcome :
        length fs < fuel → Outcome s h us fs aligned (malloc_search fuel (s, h) aligned)
    search-Outcome enough =
        elim (bin_find_node-first fuel s h.free_bin fs (aligned + 32) v.frees enough) [
          | inr f ↦ inr (_, search_split f.0 f.2.real f.1, found_split aligned f.0 f.2)
          | inl none_large ↦
              elim (bin_find_node-first fuel s h.free_bin fs aligned v.frees enough) [
                | inr f ↦
                    inr (_, search_whole f.0 f.2.real none_large.0 f.1, found_whole aligned f.0 f.2)
                | inl none_exact ↦ inl (search_none none_large.0 none_exact.0, none_exact.1)
              ]
        ]

-- A grant for more is a grant for less.
Grant-weaken :
    {s s' : Store} {h h' : HeapAllocator} {us : List ℕ} {want less p : ℕ}
    → less ≤ want
    → Grant s h us want p s' h'
    → Grant s h us less p s' h'
Grant-weaken le g = record {
  node = g.node;
  fs' = g.fs';
  ptr = g.ptr;
  fresh = g.fresh;
  heap = g.heap;
  size = omega (arith, g.size);
  kept = g.kept;
  same_top = g.same_top;
  same_pool = g.same_pool;
}

-- The size that a request takes, a multiple of 16.
abbrev pub rounded : ℕ → ℕ
rounded n = (n + 15) / 16 * 16

-- On an intact heap, with fuel for the free bin, `malloc` of at least one byte and less than 2 ^ 32
-- - 48 ends. Either it returns null and changes nothing, and then the pool has no room for the
-- rounded request and every free block is smaller than it; or it returns a pointer behind the
-- header of a block that was not handed out, of at least the requested size, and the heap stays
-- intact: its alloc bin gains that block at the end, no handed-out block changes its size, and the
-- blocks stay apart.
pub malloc-Grant :
    (fuel : ℕ) (s : Store) (h : HeapAllocator) (us fs : List ℕ) (n : ℕ)
    → IsHeap s h us fs
    → length fs < fuel
    → 0 < n
    → n < 2 ^ 32 - 48
    → ((malloc fuel (s, h) n ≡ some (0, s, h))
        × (h.heap_bin_size < rounded n + 16)
        × AllSmaller s (rounded n) fs)
      ⊎ ((r : Reply) × (malloc fuel (s, h) n ≡ some r) × Granted s h us n r)
unfolding malloc
malloc-Grant fuel s h us fs n v enough pos small =
    let some_bytes : (n == 0) ≡ false = ground arith in
    let size : get_aligned_size n 0x10 ≡ rounded n = get_aligned_size_sixteen n (omega arith) in
    let need : add32 16 (rounded n) ≡ rounded n + 16 = omega arith in
    elim (Bool-cases (leb (rounded n + 16) h.heap_bin_size)) [
      | inl room ↦
          rw (some_bytes, size, need, room)
            (inr (
              _,
              refl,
              Grant-weaken (omega arith) (malloc_bump-Grant s h us fs (rounded n) v (ground arith)),
            ))
      | inr full ↦
          rw (some_bytes, size, need, full)
            (grants (search-Outcome s h us fs v fuel (rounded n) (omega arith) enough)
              (ground arith))
    ]
  where
    grants :
        Outcome s h us fs (rounded n) (malloc_search fuel (s, h) (rounded n))
        → h.heap_bin_size < rounded n + 16
        → ((malloc_search fuel (s, h) (rounded n) ≡ some (0, s, h))
            × (h.heap_bin_size < rounded n + 16)
            × AllSmaller s (rounded n) fs)
          ⊎ ((r : Reply) × (malloc_search fuel (s, h) (rounded n) ≡ some r) × Granted s h us n r)
    grants (inl o) full = inl (o.0, full, o.1)
    grants (inr o) full = inr (o.0, o.1, Grant-weaken (omega arith) o.2)
