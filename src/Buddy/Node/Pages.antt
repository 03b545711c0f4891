-- ===== src/Buddy/Node/Pages.antt =====
-- The abstract view of the tree, the flags of each page, and the invariant of its nodes.
use native.Mathlib.Nat.{one-le-pow, pow-suc}
use pentinum_os.Base.{
  ℕ, suc, ◌+◌, ◌-◌, ◌%◌, ◌^◌, ◌≤◌, ◌<◌, ◌≡◌, refl, sym, ap, ◌∙◌, bit_or, arith, ltb, if◌then◌else◌,
  true, false, some, [], ◌∷◌,
}
use pentinum_os.Base.Bits.{or_low, bit_or-zero, bit_or_comm, bit_or_self}
use mathlib.Core.Path.{subst}
use pentinum_os.Buddy.Node.{
  NodePtr, deref, BaNode, leaf, fork, address, flags, order, ba_flags, buddy_bit, ba_make_child,
  ba_split_node,
}

-- The flags of the leaf that holds page `q`.
abbrev pub page_flags : BaNode → ℕ → ℕ
page_flags (leaf a f o) q = ba_flags f
page_flags (fork a f o l r) q = if ltb q (address r) then page_flags l q else page_flags r q

-- A node's flags join those of its children, its children halve its pages, and the right child alone
-- has the buddy bit.
abbrev pub IsTree : BaNode → Type 0
IsTree (leaf a f o) = f < 256
IsTree (fork a f o l r) =
    (f < 256)
    × (suc (order l) ≡ o)
    × (suc (order r) ≡ o)
    × (address l ≡ a)
    × (address r ≡ a + 2 ^ order r)
    × (ba_flags f ≡ bit_or (ba_flags (flags l)) (ba_flags (flags r)))
    × (buddy_bit (flags l) ≡ 0)
    × (buddy_bit (flags r) ≡ 128)
    × IsTree l
    × IsTree r

-- The pairs of children in the tree.
abbrev pub pairs : BaNode → ℕ
pairs (leaf a f o) = 0
pairs (fork a f o l r) = suc (pairs l + pairs r)

-- The page lies in the node's block.
abbrev pub Holds : BaNode → ℕ → Type 0
Holds t q = (address t ≤ q) × (q < address t + 2 ^ order t)

pub left_flags : (f : ℕ) → bit_or (f % 128) 0 ≡ f % 128
left_flags f = bit_or-zero (f % 128)

pub right_flags : (f : ℕ) → bit_or (f % 128) 128 ≡ 128 + f % 128
right_flags f = bit_or_comm (f % 128) 128 ∙ or_low 1 (f % 128) (omega arith)

-- A split of a leaf of order `k + 1`, with flags in a byte, gives an intact tree.
pub ba_split_node-IsTree : (a f k : ℕ) → f < 256 → IsTree (ba_split_node (leaf a f (suc k)))
unfolding ba_split_node ba_make_child
ba_split_node-IsTree a f k h =
    let down : suc k - 1 ≡ k = omega arith in
    let left : f % 128 % 128 ≡ f % 128 = omega arith in
    let right : (128 + f % 128) % 128 ≡ f % 128 = omega arith in
    rw (left_flags f, right_flags f, down)
      (
        h,
        refl,
        refl,
        omega arith,
        refl,
        rw (left, right) (sym (bit_or_self (f % 128))),
        omega arith,
        omega arith,
        omega arith,
        omega arith,
      )

pub page_flags-ba_split_node :
    (a f k q : ℕ) → page_flags (ba_split_node (leaf a f (suc k))) q ≡ ba_flags f
unfolding ba_split_node ba_make_child
page_flags-ba_split_node a f k q = rw (left_flags f, right_flags f) (ground arith)

-- The halves of a node are of one size.
pub halves :
    (a f o : ℕ) (l r : BaNode)
    → IsTree (fork a f o l r)
    → (2 ^ order l ≡ 2 ^ order r) × (2 ^ o ≡ 2 ^ order r + 2 ^ order r)
halves a f o l r w =
    let same : order l ≡ order r = omega arith in
    (ap (λ k. 2 ^ k) same, rw (← w.2, pow-suc) (omega arith))

-- A node that a path leads to lies inside the node that the path starts from.
pub deref-inside :
    (t : BaNode) (p : NodePtr) (u : BaNode)
    → IsTree t
    → deref t p ≡ some u
    → (address t ≤ address u) × (address u + 2 ^ order u ≤ address t + 2 ^ order t)
deref-inside t [] u w e = let same : t ≡ u = cc in rw same (omega arith)
deref-inside (leaf a f o) (b ∷ p) u w e = cc
deref-inside (fork a f o l r) (false ∷ p) u w e =
    omega (arith, deref-inside l p u w.8 e, halves a f o l r w)
deref-inside (fork a f o l r) (true ∷ p) u w e =
    omega (arith, deref-inside r p u w.9 e, halves a f o l r w)

-- The invariant holds at every node.
pub deref-IsTree :
    (t : BaNode) (p : NodePtr) (u : BaNode) → IsTree t → deref t p ≡ some u → IsTree u
deref-IsTree t [] u w e = let same : t ≡ u = cc in subst IsTree same w
deref-IsTree (leaf a f o) (b ∷ p) u w e = cc
deref-IsTree (fork a f o l r) (false ∷ p) u w e = deref-IsTree l p u w.8 e
deref-IsTree (fork a f o l r) (true ∷ p) u w e = deref-IsTree r p u w.9 e

-- A tree has fewer pairs of children than pages.
pub pairs-below : (t : BaNode) → IsTree t → pairs t < 2 ^ order t
pairs-below (leaf a f o) w = one-le-pow o 2 (omega arith)
pairs-below (fork a f o l r) w =
    omega (arith, pairs-below l w.8, pairs-below r w.9, halves a f o l r w)

-- The pages of a node are those of its block in the tree.
pub page_flags-deref :
    (t : BaNode) (p : NodePtr) (u : BaNode) (q : ℕ)
    → IsTree t
    → deref t p ≡ some u
    → Holds u q
    → page_flags t q ≡ page_flags u q
page_flags-deref t [] u q w e h = let same : t ≡ u = cc in ap (λ n. page_flags n q) same
page_flags-deref (leaf a f o) (b ∷ p) u q w e h = cc
page_flags-deref (fork a f o l r) (false ∷ p) u q w e h =
    ground (arith, page_flags-deref l p u q w.8 e h, deref-inside l p u w.8 e, halves a f o l r w)
page_flags-deref (fork a f o l r) (true ∷ p) u q w e h =
    ground (arith, page_flags-deref r p u q w.9 e h, deref-inside r p u w.9 e, halves a f o l r w)

-- A node whose pages all have the same flags has those flags.
pub uniform-flags :
    (t : BaNode) (v : ℕ)
    → IsTree t
    → ((q : ℕ) → Holds t q → page_flags t q ≡ v)
    → ba_flags (flags t) ≡ v
uniform-flags (leaf a f o) v w h = h a (omega (arith, one-le-pow o 2 (omega arith)))
uniform-flags (fork a f o l r) v w h =
    let two = halves a f o l r w in
    let left : ba_flags (flags l) ≡ v =
      uniform-flags l v w.8 (λ q i. ground (arith, h q (omega (arith, two, i)), i, two)) in
    let right : ba_flags (flags r) ≡ v =
      uniform-flags r v w.9 (λ q i. ground (arith, h q (omega (arith, two, i)), i, two)) in
    w.5 ∙ rw (left, right) (bit_or_self v)
