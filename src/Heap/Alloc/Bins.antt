-- ===== src/Heap/Alloc/Bins.antt =====
-- The two bins of a heap under the operations on one of them.
use pentinum_os.Base.{ℕ, ◌≡◌, ◌≢◌, true, false, List, [], ◌∷◌, ◌++◌, arith, ◌==◌, ◌&&◌, ◌||◌, not}
use pentinum_os.Heap.Bin.{HeapNode, HeapBin, Store, write, bin_push, bin_remove}
use pentinum_os.Heap.Bin.Seg.{
  has, has-append, IsBin, Distinct, SameBlocks, SameOutside, frame, Distinct-erase,
}
use pentinum_os.Heap.Bin.Push.{bin_push-concat}
use pentinum_os.Heap.Bin.Remove.{bin_remove-erase}

-- A write of a header outside the bin, and a write that keeps its links.
pub IsBin-write :
    (s : Store) (b : HeapBin) (xs : List ℕ) (x : ℕ) (n : HeapNode)
    → IsBin s b xs
    → has x xs ≡ false
    → IsBin (write s x n) b xs
unfolding write
IsBin-write s b xs x n (l, d) out =
    (frame s (write s x n) 0 b.head b.tail 0 xs (λ a i. ground arith) l, d)

pub IsBin-relabel :
    (s : Store) (b : HeapBin) (xs : List ℕ) (x : ℕ) (n : HeapNode)
    → n.next ≡ (s x).next
    → n.prev ≡ (s x).prev
    → IsBin s b xs
    → IsBin (write s x n) b xs
unfolding write
IsBin-relabel s b xs x n e f (l, d) =
    (frame s (write s x n) 0 b.head b.tail 0 xs (λ a i. ground arith) l, d)

-- A bin that shares no node with the one that changed.
pub IsBin-outside :
    (s s' : Store) (b : HeapBin) (zs ys : List ℕ)
    → SameOutside zs s s'
    → ((a : ℕ) → has a ys ≡ true → has a zs ≡ false)
    → IsBin s b ys
    → IsBin s' b ys
IsBin-outside s s' b zs ys same apart (l, d) =
    (frame s s' 0 b.head b.tail 0 ys (λ a i. ground (arith, same a (apart a i))) l, d)

module _ (s : Store) (b other : HeapBin) (xs ys : List ℕ) (x : ℕ)
    (apart : (a : ℕ) → has a ys ≡ true → has a xs ≡ false) (whole : IsBin s other ys) where
  pub both_push :
      IsBin s b xs
      → x ≢ 0
      → has x xs ≡ false
      → has x ys ≡ false
      → let (s', b') = bin_push s b x in
        IsBin s' b' (xs ++ x ∷ []) × IsBin s' other ys × SameBlocks s s'
  both_push v ne out out' =
      let (v', same, kept) = bin_push-concat s b xs x v ne out in
      (
        v',
        IsBin-outside s (bin_push s b x).0 other (xs ++ x ∷ []) ys kept
            (λ a i. ground (arith, has-append a xs (x ∷ []), apart a)) whole,
        same,
      )

module _ (s : Store) (b other : HeapBin) (pre post ys : List ℕ) (x : ℕ)
    (apart : (a : ℕ) → has a ys ≡ true → has a (pre ++ x ∷ post) ≡ false)
    (whole : IsBin s other ys) where
  pub both_remove :
      IsBin s b (pre ++ x ∷ post)
      → let (s', b') = bin_remove s b x in
        IsBin s' b' (pre ++ post) × IsBin s' other ys × SameBlocks s s'
  both_remove v =
      let (v', same, kept) = bin_remove-erase s b pre x post v in
      (
        v',
        IsBin-outside s (bin_remove s b x).0 other (pre ++ post) ys kept
            (λ a i. ground (arith, has-append a pre (x ∷ post), has-append a pre post, apart a))
            whole,
        same,
      )

-- Membership after an append and after a removal.
pub has-concat : (a : ℕ) (xs : List ℕ) (x : ℕ) → has a (xs ++ x ∷ []) ≡ (has a xs || (a == x))
has-concat a xs x = ground (arith, has-append a xs (x ∷ []))

pub has-erase :
    (a : ℕ) (pre : List ℕ) (x : ℕ) (post : List ℕ)
    → Distinct (pre ++ x ∷ post)
    → has a (pre ++ post) ≡ (has a (pre ++ x ∷ post) && not (a == x))
has-erase a pre x post d = ground (
  arith,
  has-append a pre post,
  has-append a pre (x ∷ post),
  (Distinct-erase pre x post d).1,
  has-append x pre post,
)

pub has_middle : (pre : List ℕ) (x : ℕ) (post : List ℕ) → has x (pre ++ x ∷ post) ≡ true
has_middle pre x post = ground (arith, has-append x pre (x ∷ post))
