-- ===== src/Heap/Bin/Find.antt =====
-- `bin_find_node` searches its bin from the head.
use pentinum_os.Base.{
  ℕ, zero, suc, ◌≤◌, ◌<◌, ◌≡◌, refl, sym, ap, ◌≢◌, ◌⊎◌, inl, inr, false, Option, some, List, [],
  ◌∷◌, ◌++◌, arith, leb, ◌==◌, Bool-cases, length,
}
use pentinum_os.Heap.Bin.{Store, HeapBin, find_loop, bin_find_node}
use pentinum_os.Heap.Bin.Seg.{Seg, IsBin}

-- Every node of `xs` is smaller than the request.
abbrev pub AllSmaller : Store → ℕ → List ℕ → Type 0
AllSmaller m req [] = Unit
AllSmaller m req (x ∷ xs) = ((m x).size < req) × AllSmaller m req xs

-- The first node of the list that is large enough.
pub record FoundAt (m : Store) (req : ℕ) (xs : List ℕ) (r : ℕ) : Type 0 where
  pub before : List ℕ
  pub after : List ℕ
  pub place : xs ≡ before ++ r ∷ after
  pub skipped : AllSmaller m req before
  pub fits : req ≤ (m r).size
  pub real : r ≢ 0

-- Either no node fits, and the result is null, or the result is the first that does.
abbrev pub Found : Store → ℕ → List ℕ → Option ℕ → Type 0
Found m req xs out =
    ((out ≡ some 0) × AllSmaller m req xs) ⊎ ((r : ℕ) × (out ≡ some r) × FoundAt m req xs r)

abbrev Found-cons :
    (m : Store) (req x : ℕ) (xs : List ℕ) (out : Option ℕ)
    → (m x).size < req
    → Found m req xs out
    → Found m req (x ∷ xs) out
Found-cons m req x xs out small (inl f) = inl (f.0, (small, f.1))
Found-cons m req x xs out small (inr f) = inr (
  f.0,
  f.1,
  record {
    before = x ∷ f.2.before;
    after = f.2.after;
    place = ap (◌∷◌ x) f.2.place;
    skipped = (small, f.2.skipped);
    fits = f.2.fits;
    real = f.2.real;
  },
)

find_loop-Found :
    (k : ℕ) (m : Store) (p h t req : ℕ) (xs : List ℕ)
    → Seg m p h xs t 0
    → length xs < k
    → Found m req xs (find_loop k m h req)
unfolding find_loop
find_loop-Found zero m p h t req xs s fuel = absurd (omega arith)
find_loop-Found (suc k) m p h t req [] s fuel = rw s.0 (inl (refl, tt))
find_loop-Found (suc k) m p h t req (x ∷ xs) s fuel =
    let real : (h == 0) ≡ false = ground arith in
    let rest = find_loop-Found k m x (m x).next t req xs s.3 (omega arith) in
    elim (Bool-cases (leb req (m h).size)) [
      | inl fits ↦
          rw (real, fits)
            (inr (
              h,
              refl,
              record {
                before = [];
                after = xs;
                place = ap (λ a. a ∷ xs) (sym s.0);
                skipped = tt;
                fits = ground arith;
                real = ground arith;
              },
            ))
      | inr small ↦ rw (real, small) (rw s.0 (Found-cons m req x xs _ (ground arith) rest))
    ]

-- On an intact bin with fewer nodes than its fuel, `bin_find_node` ends, and returns the first node
-- whose size is at least the request, or null if every node is smaller.
pub bin_find_node-first :
    (fuel : ℕ) (m : Store) (b : HeapBin) (xs : List ℕ) (req : ℕ)
    → IsBin m b xs
    → length xs < fuel
    → Found m req xs (bin_find_node fuel m b req)
unfolding bin_find_node
bin_find_node-first fuel m b xs req (s, d) enough =
    find_loop-Found fuel m 0 b.head b.tail req xs s enough
