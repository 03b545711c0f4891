-- ===== src/Heap/Bin/Push.antt =====
-- `bin_push` appends a node to its bin.
use mathlib.Core.Path.{subst}
use pentinum_os.Base.{ℕ, ◌≡◌, refl, sym, ◌≢◌, false, List, [], ◌∷◌, ◌++◌, arith}
use pentinum_os.Heap.Bin.{Store, HeapBin, write, set_next, set_prev, bin_push}
use pentinum_os.Heap.Bin.Seg.{
  has, has-append, Seg, IsBin, SameBlocks, SameOutside, frame, join, last-has, set_next-last,
  Distinct-concat,
}

-- What a push of `x` onto a bin of `xs` leaves.
abbrev pub Pushed : Store → List ℕ → ℕ → Store × HeapBin → Type 0
Pushed m xs x (m', b') =
    IsBin m' b' (xs ++ x ∷ []) × SameBlocks m m' × SameOutside (xs ++ x ∷ []) m m'

module _ (m : Store) (b : HeapBin) (x : ℕ) (ne : x ≢ 0) where
  -- The store once the node's own links are set.
  abbrev linked_back : Store
  linked_back = set_prev (set_next m x 0) x b.tail

  bin_push_empty :
      b.head ≡ 0 → bin_push m b x ≡ (set_prev (set_next m x 0) x 0, record { head = x; tail = x })
  unfolding bin_push
  bin_push_empty e = ground arith

  bin_push_full :
      b.head ≢ 0 → bin_push m b x ≡ (set_next linked_back b.tail x, record b { tail = x })
  unfolding bin_push
  bin_push_full e = ground arith

-- On an intact bin and a node that is not in it, `bin_push` makes that node the last one, keeps the
-- order of the others, and changes no size, no flags and no node outside the bin.
pub bin_push-concat :
    (m : Store) (b : HeapBin) (xs : List ℕ) (x : ℕ)
    → IsBin m b xs
    → x ≢ 0
    → has x xs ≡ false
    → Pushed m xs x (bin_push m b x)
unfolding write
bin_push-concat m b [] x (s, d) ne out =
    subst (Pushed m [] x) (sym (bin_push_empty m b x ne s.0))
      ((ground arith, (refl, tt)), ground arith, ground arith)
bin_push-concat m b (y ∷ ys) x (s, d) ne out =
    let fresh = linked_back m b x ne in
    let linked = last-has m 0 b.head b.tail 0 y ys s in
    let apart : x ≢ b.tail = λ e. ground arith in
    let chain = frame m fresh 0 b.head b.tail 0 (y ∷ ys) (λ a i. ground arith) s in
    let front = set_next-last fresh 0 b.head b.tail 0 x y ys chain d in
    let back : Seg (set_next fresh b.tail x) b.tail x (x ∷ []) x 0 = ground arith in
    subst (Pushed m (y ∷ ys) x) (sym (bin_push_full m b x ne (ground arith))) (
      (
        join (set_next fresh b.tail x) 0 b.head b.tail x x 0 (y ∷ ys) (x ∷ []) front back,
        Distinct-concat (y ∷ ys) x d out,
      ),
      ground arith,
      λ a o. ground (arith, has-append a (y ∷ ys) (x ∷ [])),
    )
