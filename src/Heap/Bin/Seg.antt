-- ===== src/Heap/Bin/Seg.antt =====
-- Doubly linked segments in the store.
pub use pentinum_os.Base.{has, Distinct, has-append}
use pentinum_os.Base.{ℕ, ◌≡◌, refl, ◌≢◌, true, false, List, [], ◌∷◌, ◌++◌, arith}
use pentinum_os.Heap.Bin.{Store, HeapBin, write, set_next, set_prev}

-- From `h` the `next` pointers lead through `xs` to `q`, and the `prev` pointers back to `p`; `t`
-- is the last node, or `p` if there is none.
abbrev pub Seg : Store → ℕ → ℕ → List ℕ → ℕ → ℕ → Type 0
Seg m p h [] t q = (h ≡ q) × (t ≡ p)
Seg m p h (x ∷ xs) t q = (h ≡ x) × (x ≢ 0) × ((m x).prev ≡ p) × Seg m x (m x).next xs t q

-- The bin links exactly the nodes `xs`, in this order.
abbrev pub IsBin : Store → HeapBin → List ℕ → Type 0
IsBin m b xs = Seg m 0 b.head xs b.tail 0 × Distinct xs

-- Only the links of the segment's own nodes matter.
abbrev pub SameLinks : Store → Store → List ℕ → Type 0
SameLinks m m' xs =
    (a : ℕ) → has a xs ≡ true → ((m' a).next ≡ (m a).next) × ((m' a).prev ≡ (m a).prev)

pub frame :
    (m m' : Store) (p h t q : ℕ) (xs : List ℕ)
    → SameLinks m m' xs
    → Seg m p h xs t q
    → Seg m' p h xs t q
frame m m' p h t q [] same s = s
frame m m' p h t q (x ∷ xs) same s = (
  s.0,
  s.1,
  ground (arith, same x),
  rw (same x (ground arith)).0 (frame m m' x _ t q xs (λ a i. same a (ground arith)) s.3),
)

pub split :
    (m : Store) (p h t q : ℕ) (xs ys : List ℕ)
    → Seg m p h (xs ++ ys) t q
    → (l : ℕ) × (e : ℕ) × Seg m p h xs l e × Seg m l e ys t q
split m p h t q [] ys s = (p, h, (refl, refl), s)
split m p h t q (x ∷ xs) ys s =
    let (l, e, front, back) = split m x (m x).next t q xs ys s.3 in
    (l, e, (s.0, s.1, s.2, front), back)

pub join :
    (m : Store) (p h l e t q : ℕ) (xs ys : List ℕ)
    → Seg m p h xs l e
    → Seg m l e ys t q
    → Seg m p h (xs ++ ys) t q
join m p h l e t q [] ys s r = rw (s.0, ← s.1) r
join m p h l e t q (x ∷ xs) ys s r = (s.0, s.1, s.2, join m x (m x).next l e t q xs ys s.3 r)

-- The last node of a segment that has one.
pub last-has :
    (m : Store) (p h t q x : ℕ) (xs : List ℕ) → Seg m p h (x ∷ xs) t q → has t (x ∷ xs) ≡ true
last-has m p h t q x [] s = ground arith
last-has m p h t q x (y ∷ ys) s = ground (arith, last-has m x (m x).next t q y ys s.3)

pub has-ne-zero :
    (m : Store) (p h t q a : ℕ) (xs : List ℕ) → Seg m p h xs t q → has a xs ≡ true → a ≢ 0
has-ne-zero m p h t q a [] s i = cc
has-ne-zero m p h t q a (x ∷ xs) s i = ground (arith, has-ne-zero m x (m x).next t q a xs s.3)

-- A write of the last node's `next` moves the end of the segment.
pub set_next-last :
    (m : Store) (p h t q q' x : ℕ) (xs : List ℕ)
    → Seg m p h (x ∷ xs) t q
    → Distinct (x ∷ xs)
    → Seg (set_next m t q') p h (x ∷ xs) t q'
unfolding write
set_next-last m p h t q q' x [] s d = ground arith
set_next-last m p h t q q' x (y ∷ ys) s d =
    let at_end = last-has m x (m x).next t q y ys s.3 in
    let differs : x ≢ t = ground arith in
    ground (arith, set_next-last m x (m x).next t q q' y ys s.3 d.1)

-- A write of the first node's `prev` moves the start.
pub set_prev-first :
    (m : Store) (p p' h t q x : ℕ) (xs : List ℕ)
    → Seg m p h (x ∷ xs) t q
    → has x xs ≡ false
    → Seg (set_prev m x p') p' h (x ∷ xs) t q
unfolding write
set_prev-first m p p' h t q x xs s out =
    ground (arith, frame m (set_prev m x p') x (m x).next t q xs (λ a i. ground arith) s.3)

-- No node's size or flags change.
abbrev pub SameBlocks : Store → Store → Type 0
SameBlocks m m' = (a : ℕ) → ((m' a).size ≡ (m a).size) × ((m' a).flags ≡ (m a).flags)

-- Nothing changes but at the nodes of `xs`.
abbrev pub SameOutside : List ℕ → Store → Store → Type 0
SameOutside xs m m' = (a : ℕ) → has a xs ≡ false → m' a ≡ m a

pub Distinct-concat :
    (xs : List ℕ) (x : ℕ) → Distinct xs → has x xs ≡ false → Distinct (xs ++ x ∷ [])
Distinct-concat [] x d out = (refl, tt)
Distinct-concat (y ∷ ys) x d out =
    (ground (arith, has-append y ys (x ∷ [])), Distinct-concat ys x d.1 (ground arith))

-- A node taken out of the middle.
pub Distinct-erase :
    (xs : List ℕ) (x : ℕ) (ys : List ℕ)
    → Distinct (xs ++ x ∷ ys)
    → Distinct (xs ++ ys) × (has x (xs ++ ys) ≡ false)
Distinct-erase [] x ys d = (d.1, d.0)
Distinct-erase (z ∷ zs) x ys d =
    let (rest, out) = Distinct-erase zs x ys d.1 in
    (
      (ground (arith, has-append z zs (x ∷ ys), has-append z zs ys), rest),
      ground (arith, has-append z zs (x ∷ ys)),
    )

pub Distinct-append :
    (xs ys : List ℕ)
    → Distinct (xs ++ ys)
    → Distinct xs × Distinct ys × ((a : ℕ) → has a xs ≡ true → has a ys ≡ false)
Distinct-append [] ys d = (tt, d, λ a i. cc)
Distinct-append (x ∷ xs) ys d =
    let (left, right, apart) = Distinct-append xs ys d.1 in
    (
      (ground (arith, has-append x xs ys), left),
      right,
      λ a i. ground (arith, has-append x xs ys, apart a),
    )
