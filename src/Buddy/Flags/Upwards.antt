-- ===== src/Buddy/Flags/Upwards.antt =====
-- What an update of a leaf's flags, joined upwards, does to the pages and to the invariant.
use pentinum_os.Base.{
  ℕ, suc, ◌+◌, ◌^◌, ◌<◌, ◌≡◌, refl, sym, ap, ◌∙◌, bit_or, arith, ltb, leb, ◌&&◌, if◌then◌else◌,
  Bool, true, false, some, [], ◌∷◌,
}
use pentinum_os.Buddy.Node.{
  BaNode, leaf, fork, address, flags, order, NodePtr, deref, ba_flags, buddy_bit,
}
use pentinum_os.Buddy.Node.Pages.{page_flags, IsTree, Holds, halves, deref-inside}
use pentinum_os.Buddy.Flags.{set_upwards}

-- The page is one of the `2 ^ o` pages from `a` on.
abbrev pub in_block : ℕ → ℕ → ℕ → Bool
in_block a o q = leb a q && ltb q (a + 2 ^ o)

-- The flags of the pages of a leaf.
pub page_flags-leaf :
    (t : BaNode) (p : NodePtr) (a f o q : ℕ)
    → IsTree t
    → deref t p ≡ some (leaf a f o)
    → in_block a o q ≡ true
    → page_flags t q ≡ ba_flags f
page_flags-leaf (leaf a' f' o') [] a f o q w e h = let same : f' ≡ f = cc in rw same refl
page_flags-leaf (fork a' f' o' l r) [] a f o q w e h = cc
page_flags-leaf (leaf a' f' o') (b ∷ p) a f o q w e h = cc
page_flags-leaf (fork a' f' o' l r) (false ∷ p) a f o q w e h = ground (
  arith,
  page_flags-leaf l p a f o q w.8 e h,
  deref-inside l p (leaf a f o) w.8 e,
  halves a' f' o' l r w,
)
page_flags-leaf (fork a' f' o' l r) (true ∷ p) a f o q w e h = ground (
  arith,
  page_flags-leaf r p a f o q w.9 e h,
  deref-inside r p (leaf a f o) w.9 e,
  halves a' f' o' l r w,
)

-- An ancestor of a leaf that changed: a byte with the same buddy bit that joins its children.
abbrev pub Joins : (ℕ → ℕ → Type 0) → ℕ → ℕ → ℕ → ℕ → Type 0
Joins Same v l r new =
    (new < 256)
    × (buddy_bit new ≡ buddy_bit v)
    × (ba_flags new ≡ bit_or (ba_flags l) (ba_flags r))
    × Same v new

-- `Same` is what the update keeps of a node's flags.
module _ (update : ℕ → ℕ) (join : ℕ → ℕ → ℕ → ℕ) (Same : ℕ → ℕ → Type 0) where
  abbrev KeepsByte : Type 0
  KeepsByte =
      (v : ℕ)
      → v < 256
      → (update v < 256) × (buddy_bit (update v) ≡ buddy_bit v) × Same v (update v)

  abbrev JoinsLeft : Type 0
  JoinsLeft =
      (v l l' r : ℕ)
      → v < 256
      → ba_flags v ≡ bit_or (ba_flags l) (ba_flags r)
      → Same l l'
      → Joins Same v l' r (join v l' r)

  abbrev JoinsRight : Type 0
  JoinsRight =
      (v l r r' : ℕ)
      → v < 256
      → ba_flags v ≡ bit_or (ba_flags l) (ba_flags r)
      → Same r r'
      → Joins Same v l r' (join v l r')

  abbrev after : BaNode → NodePtr → BaNode
  after t p = set_upwards update join t p

  -- The shape of the tree stays.
  pub set_upwards_shape :
      (t : BaNode) (p : NodePtr) → (address (after t p) ≡ address t) × (order (after t p) ≡ order t)
  unfolding set_upwards
  set_upwards_shape (leaf a f o) [] = (refl, refl)
  set_upwards_shape (fork a f o l r) [] = (refl, refl)
  set_upwards_shape (leaf a f o) (b ∷ p) = (refl, refl)
  set_upwards_shape (fork a f o l r) (false ∷ p) = (refl, refl)
  set_upwards_shape (fork a f o l r) (true ∷ p) = (refl, refl)

  -- The pages of the leaf get the new flags, and no other page changes.
  pub page_flags-set_upwards :
      (a f o : ℕ) (t : BaNode) (p : NodePtr) (q : ℕ)
      → IsTree t
      → deref t p ≡ some (leaf a f o)
      → Holds t q
      → page_flags (after t p) q ≡ (if in_block a o q then ba_flags (update f) else page_flags t q)
  unfolding set_upwards
  page_flags-set_upwards a f o (leaf a' f' o') [] q w e h =
      let same : f' ≡ f = cc in rw same (ground arith)
  page_flags-set_upwards a f o (fork a' f' o' l r) [] q w e h = cc
  page_flags-set_upwards a f o (leaf a' f' o') (b ∷ p) q w e h = cc
  page_flags-set_upwards a f o (fork a' f' o' l r) (false ∷ p) q w e h = ground (
    arith,
    page_flags-set_upwards a f o l p q w.8 e,
    deref-inside l p (leaf a f o) w.8 e,
    halves a' f' o' l r w,
  )
  page_flags-set_upwards a f o (fork a' f' o' l r) (true ∷ p) q w e h = ground (
    arith,
    set_upwards_shape r p,
    page_flags-set_upwards a f o r p q w.9 e,
    deref-inside r p (leaf a f o) w.9 e,
    halves a' f' o' l r w,
  )

  -- The invariant stays: the target keeps its buddy bit, and each ancestor joins its children again.
  pub set_upwards-IsTree :
      KeepsByte
      → JoinsLeft
      → JoinsRight
      → (a f o : ℕ) (t : BaNode) (p : NodePtr) → IsTree t
      → deref t p ≡ some (leaf a f o)
      → IsTree (after t p)
        × (buddy_bit (flags (after t p)) ≡ buddy_bit (flags t))
        × Same (flags t) (flags (after t p))
  unfolding set_upwards
  set_upwards-IsTree byte x y a f o (leaf a' f' o') [] w e = byte f' w
  set_upwards-IsTree byte x y a f o (fork a' f' o' l r) [] w e = cc
  set_upwards-IsTree byte x y a f o (leaf a' f' o') (b ∷ p) w e = cc
  set_upwards-IsTree byte x y a f o (fork a' f' o' l r) (false ∷ p) w e =
      let (inner, bit, same) = set_upwards-IsTree byte x y a f o l p w.8 e in
      let (start, size) = set_upwards_shape l p in
      let (small, kept, joined, still) =
        x f' (flags l) (flags (after l p)) (flags r) w.0 w.5 same in
      (
        (small, ap suc size ∙ w.1, w.2, start ∙ w.3, w.4, joined, bit ∙ w.6, w.7, inner, w.9),
        kept,
        still,
      )
  set_upwards-IsTree byte x y a f o (fork a' f' o' l r) (true ∷ p) w e =
      let (inner, bit, same) = set_upwards-IsTree byte x y a f o r p w.9 e in
      let (start, size) = set_upwards_shape r p in
      let (small, kept, joined, still) =
        y f' (flags l) (flags r) (flags (after r p)) w.0 w.5 same in
      (
        (
          small,
          w.1,
          ap suc size ∙ w.2,
          w.3,
          start ∙ w.4 ∙ ap (λ k. a' + 2 ^ k) (sym size),
          joined,
          w.6,
          bit ∙ w.7,
          w.8,
          inner,
        ),
        kept,
        still,
      )
