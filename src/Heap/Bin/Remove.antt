-- ===== src/Heap/Bin/Remove.antt =====
-- `bin_remove` takes a node out of its bin.
use mathlib.Core.Path.{subst}
use mathlib.Core.List.{append-nil}
use pentinum_os.Base.{ℕ, ◌≡◌, refl, sym, ◌≢◌, List, [], ◌∷◌, ◌++◌, arith}
use pentinum_os.Heap.Bin.{Store, HeapNode, HeapBin, write, set_next, set_prev, unlink, bin_remove}
use pentinum_os.Heap.Bin.Seg.{
  has-append, IsBin, SameBlocks, SameOutside, frame, split, join, last-has, has-ne-zero,
  set_next-last, set_prev-first, Distinct-append, Distinct-erase,
}

-- What a removal leaves of a bin of `zs`.
abbrev pub Removed : Store → List ℕ → Store × HeapBin → Type 0
Removed m zs (m', b') = IsBin m' b' zs × SameBlocks m m' × SameOutside zs m m'

write_ne : (m : Store) (p : ℕ) (n : HeapNode) (a : ℕ) → a ≢ p → write m p n a ≡ m a
unfolding write
write_ne m p n a ne = ground arith

-- The inner case of a removal, when the neighbours are known.
unlink_lem :
    (m : Store) (x l y : ℕ)
    → x ≢ l
    → (m x).next ≡ y
    → (m x).prev ≡ l
    → unlink m x ≡ set_prev (set_next m l y) y l
unfolding unlink
unlink_lem m x l y apart e f = rw (f, e, write_ne m l (record (m l) { next = y }) x apart, e, f)

module _ (m : Store) (b : HeapBin) (x : ℕ) (ne : x ≢ 0) (full : b.head ≢ 0) where
  bin_remove_only :
      (m x).next ≡ 0 → (m x).prev ≡ 0 → bin_remove m b x ≡ (m, record { head = 0; tail = 0 })
  unfolding bin_remove
  bin_remove_only e f = ground arith

  bin_remove_last :
      (l : ℕ)
      → l ≢ 0
      → (m x).next ≡ 0
      → (m x).prev ≡ l
      → bin_remove m b x ≡ (set_next m l 0, record b { tail = l })
  unfolding bin_remove
  bin_remove_last l g e f = rw (← f) (ground arith)

  bin_remove_first :
      (y : ℕ)
      → y ≢ 0
      → (m x).next ≡ y
      → (m x).prev ≡ 0
      → bin_remove m b x ≡ (set_prev m y 0, record b { head = y })
  unfolding bin_remove
  bin_remove_first y g e f = rw (← e) (ground arith)

  bin_remove_inner :
      (l y : ℕ)
      → l ≢ 0
      → y ≢ 0
      → x ≢ l
      → (m x).next ≡ y
      → (m x).prev ≡ l
      → bin_remove m b x ≡ (set_prev (set_next m l y) y l, b)
  unfolding bin_remove
  bin_remove_inner l y g h apart e f =
      let joined = unlink_lem m x l y apart e f in ground (arith, joined)

module _ (m : Store) (b : HeapBin) (x : ℕ) where
  erase_only : IsBin m b (x ∷ []) → Removed m [] (bin_remove m b x)
  erase_only (s, d) =
      subst (Removed m []) (sym (bin_remove_only m b x s.1 (ground arith) s.3.0 s.2))
        (((refl, refl), tt), (λ a. (refl, refl)), λ a o. refl)

  erase_first :
      (y : ℕ) (ys : List ℕ) → IsBin m b (x ∷ y ∷ ys) → Removed m (y ∷ ys) (bin_remove m b x)
  unfolding write
  erase_first y ys (s, d) =
      let next = s.3 in
      let kept = set_prev-first m x 0 (m x).next b.tail 0 y ys next d.1.0 in
      subst (Removed m (y ∷ ys))
        (sym (bin_remove_first m b x s.1 (ground arith) y next.1 next.0 s.2))
        (((refl, kept.1, kept.2, kept.3), d.1), ground arith, ground arith)

  module _ (z : ℕ) (zs : List ℕ) where
    erase_last : IsBin m b (z ∷ zs ++ x ∷ []) → Removed m (z ∷ zs) (bin_remove m b x)
    unfolding write
    erase_last (s, d) =
        let (l, e, front, back) = split m 0 b.head b.tail 0 (z ∷ zs) (x ∷ []) s in
        let real =
          has-ne-zero m 0 b.head l e l (z ∷ zs) front (last-has m 0 b.head l e z zs front) in
        let (left, right, apart) = Distinct-append (z ∷ zs) (x ∷ []) d in
        let kept = set_next-last m 0 b.head l e 0 z zs front left in
        subst (Removed m (z ∷ zs))
          (sym (bin_remove_last m b x back.1 (ground arith) l real back.3.0 back.2))
          ((kept, left), ground arith, λ a o. ground (arith, last-has m 0 b.head l e z zs front))

    erase_inner :
        (y : ℕ) (ys : List ℕ)
        → IsBin m b (z ∷ zs ++ x ∷ y ∷ ys)
        → Removed m (z ∷ zs ++ y ∷ ys) (bin_remove m b x)
    unfolding write
    erase_inner y ys (s, d) =
        let (l, e, front, back) = split m 0 b.head b.tail 0 (z ∷ zs) (x ∷ y ∷ ys) s in
        let linked = last-has m 0 b.head l e z zs front in
        let real = has-ne-zero m 0 b.head l e l (z ∷ zs) front linked in
        let (left, right, apart) = Distinct-append (z ∷ zs) (x ∷ y ∷ ys) d in
        let cut = set_next m l y in
        let before = set_next-last m 0 b.head l e y z zs front left in
        let after =
          frame m cut x (m x).next b.tail 0 (y ∷ ys) (λ a i. ground (arith, apart l)) back.3 in
        let both = set_prev cut y l in
        let front' = frame cut both 0 b.head l y (z ∷ zs) (λ a i. ground (arith, apart y)) before in
        let back' = set_prev-first cut x l (m x).next b.tail 0 y ys after right.1.0 in
        let target : y ≡ (m x).next = sym back.3.0 in
        subst (Removed m (z ∷ zs ++ y ∷ ys))
          (sym (
            bin_remove_inner m b x back.1 (ground arith) l y real back.3.1
              (λ q. ground (arith, apart l)) back.3.0 back.2))
          (
            (
              join both 0 b.head l y b.tail 0 (z ∷ zs) (y ∷ ys) front'
                  (refl, back'.1, back'.2, back'.3),
              (Distinct-erase (z ∷ zs) x (y ∷ ys) d).0,
            ),
            ground arith,
            λ a o. ground (arith, has-append a (z ∷ zs) (y ∷ ys)),
          )

-- On an intact bin that holds the node, `bin_remove` leaves an intact bin of the other nodes in
-- their order, and changes no size, no flags and no node but those that stay in the bin.
pub bin_remove-erase :
    (m : Store) (b : HeapBin) (xs : List ℕ) (x : ℕ) (ys : List ℕ)
    → IsBin m b (xs ++ x ∷ ys)
    → Removed m (xs ++ ys) (bin_remove m b x)
bin_remove-erase m b [] x [] v = erase_only m b x v
bin_remove-erase m b [] x (y ∷ ys) v = erase_first m b x y ys v
bin_remove-erase m b (z ∷ zs) x [] v = rw append-nil (erase_last m b x z zs v)
bin_remove-erase m b (z ∷ zs) x (y ∷ ys) v = erase_inner m b x z zs y ys v
