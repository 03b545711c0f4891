-- ===== src/Buddy/Find/Leaf.antt =====
-- The walk of `ba_find_node` to a leaf of the order that is asked for.
use native.Mathlib.Nat.{one-le-pow}
use mathlib.Core.Path.{subst}
use pentinum_os.Base.{
  ℕ, zero, suc, ◌+◌, ◌-◌, ◌*◌, ◌^◌, ◌≤◌, ◌≡◌, refl, sym, ap, arith, true, false, some, [], ◌∷◌,
}
use pentinum_os.Buddy.Node.{BaNode, leaf, fork, address, order, NodePtr, deref}
use pentinum_os.Buddy.Node.Pages.{IsTree, Holds, deref-inside}
use pentinum_os.Buddy.Find.{found, below_left, below_right, find_down, ba_find_node}
use pentinum_os.Buddy.Find.Half.{IsAligned, left_half, right_half}

-- A node below another has a smaller order.
pub order-deref :
    (t : BaNode) (p : NodePtr) (u : BaNode) → IsTree t → deref t p ≡ some u → order u ≤ order t
order-deref t [] u w e = let same : t ≡ u = cc in rw same (omega arith)
order-deref (leaf a f o) (b ∷ p) u w e = cc
order-deref (fork a f o l r) (false ∷ p) u w e = omega (arith, order-deref l p u w.8 e, w.1)
order-deref (fork a f o l r) (true ∷ p) u w e = omega (arith, order-deref r p u w.9 e, w.2)

Holds-deref :
    (t : BaNode) (p : NodePtr) (u : BaNode) → IsTree t → deref t p ≡ some u → Holds t (address u)
Holds-deref t p u w e = omega (arith, deref-inside t p u w e, one-le-pow (order u) 2 (omega arith))

-- A node starts at a multiple of its size.
below-IsAligned :
    (t : BaNode) (m : ℕ) (p : NodePtr) (u : BaNode)
    → IsTree t
    → IsAligned t m
    → deref t p ≡ some u
    → (i : ℕ) × (address u ≡ i * 2 ^ order u)
below-IsAligned t m [] u w al e =
    let same : t ≡ u = cc in (m, subst (λ n. address n ≡ m * 2 ^ order n) same al)
below-IsAligned (leaf a' f' o') m (b ∷ p) u w al e = cc
below-IsAligned (fork a' f' o' l r) m (false ∷ p) u w al e =
    let half =
      left_half (address u) (order l) m a' f' o' l r w al (sym w.1) (Holds-deref l p u w.8 e) in
    below-IsAligned l (2 * m) p u w.8 half.1 e
below-IsAligned (fork a' f' o' l r) m (true ∷ p) u w al e =
    let half =
      right_half (address u) (order r) m a' f' o' l r w al (sym w.2) (Holds-deref r p u w.9 e) in
    below-IsAligned r (2 * m + 1) p u w.9 half.1 e

pub node-IsAligned :
    (t : BaNode) (p : NodePtr) (u : BaNode)
    → IsTree t
    → address t ≡ 0
    → order t ≡ 20
    → deref t p ≡ some u
    → (i : ℕ) × (address u ≡ i * 2 ^ order u)
node-IsAligned t p u w start top e = below-IsAligned t 0 p u w (omega arith) e

pub deref-IsAligned :
    (t : BaNode) (p : NodePtr) (a f k : ℕ)
    → IsTree t
    → address t ≡ 0
    → order t ≡ 20
    → deref t p ≡ some (leaf a f k)
    → (i : ℕ) × (a ≡ i * 2 ^ k)
deref-IsAligned t p a f k w start top e = node-IsAligned t p (leaf a f k) w start top e

find_down-leaf :
    (n k room : ℕ) (t : BaNode) (m : ℕ) (p : NodePtr) (a f : ℕ)
    → IsTree t
    → IsAligned t m
    → order t ≡ k + n
    → deref t p ≡ some (leaf a f k)
    → find_down n true k a room t ≡ found p t room
unfolding find_down
find_down-leaf zero k room t m [] a f w al h e = refl
find_down-leaf zero k room (leaf a' f' o') m (b ∷ p) a f w al h e = cc
find_down-leaf zero k room (fork a' f' o' l r) m (false ∷ p) a f w al h e =
    absurd (omega (arith, order-deref l p (leaf a f k) w.8 e, w.1))
find_down-leaf zero k room (fork a' f' o' l r) m (true ∷ p) a f w al h e =
    absurd (omega (arith, order-deref r p (leaf a f k) w.9 e, w.2))
find_down-leaf (suc n) k room (leaf a' f' o') m [] a f w al h e =
    let same : o' ≡ k = cc in absurd (omega arith)
find_down-leaf (suc n) k room (leaf a' f' o') m (b ∷ p) a f w al h e = cc
find_down-leaf (suc n) k room (fork a' f' o' l r) m [] a f w al h e = cc
find_down-leaf (suc n) k room (fork a' f' o' l r) m (false ∷ p) a f w al h e =
    let height : o' ≡ suc (k + n) = omega arith in
    let (bit, aligned) =
      left_half a (k + n) m a' f' o' l r w al height (Holds-deref l p (leaf a f k) w.8 e) in
    let rec = find_down-leaf n k room l (2 * m) p a f w.8 aligned (omega (arith, w.1)) e in
    rw bit (ap (below_left a' f' o' r) rec)
find_down-leaf (suc n) k room (fork a' f' o' l r) m (true ∷ p) a f w al h e =
    let height : o' ≡ suc (k + n) = omega arith in
    let (bit, aligned) =
      right_half a (k + n) m a' f' o' l r w al height (Holds-deref r p (leaf a f k) w.9 e) in
    let rec = find_down-leaf n k room r (2 * m + 1) p a f w.9 aligned (omega (arith, w.2)) e in
    rw bit (ap (below_right a' f' o' l) rec)

-- On an intact tree of all pages, `ba_find_node` with the first page and the order of a leaf reaches
-- that leaf and splits nothing.
pub ba_find_node-leaf :
    (t : BaNode) (room : ℕ) (p : NodePtr) (a f k : ℕ)
    → IsTree t
    → address t ≡ 0
    → order t ≡ 20
    → deref t p ≡ some (leaf a f k)
    → ba_find_node t room a (some k) ≡ found p t room
unfolding ba_find_node
ba_find_node-leaf t room p a f k w start top e =
    let small = order-deref t p (leaf a f k) w e in
    find_down-leaf (20 - k) k room t 0 p a f w (omega arith) (omega arith) e
