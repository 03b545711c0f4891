-- ===== src/Buddy/Leaves/Neighbour.antt =====
-- The neighbours of a leaf.
use pentinum_os.Base.{
  ℕ, ◌+◌, ◌^◌, ◌≡◌, ◌⊎◌, refl, ap, ◌∙◌, arith, Bool, true, false, some, [], ◌∷◌, inl, inr,
  if◌then◌else◌,
}
use pentinum_os.Buddy.Node.{BaNode, leaf, fork, address, flags, order, NodePtr, deref}
use pentinum_os.Buddy.Node.Pages.{IsTree, halves}
use pentinum_os.Buddy.Leaves.{
  ba_get_min_leaf, ba_get_max_leaf, Climb, rising, turning, turned, is_second, test_next, test_prev,
  climb_next, climb_prev, at_leaf, no_leaf, enopage, at_root, ba_get_next_leaf, ba_get_prev_leaf,
}

deref-min :
    (t : BaNode)
    → IsTree t
    → (f : ℕ) × (o : ℕ) × (deref t (ba_get_min_leaf t) ≡ some (leaf (address t) f o))
unfolding ba_get_min_leaf
deref-min (leaf a f o) w = (f, o, refl)
deref-min (fork a f o l r) w =
    let (f', o', e) = deref-min l w.8 in (f', o', e ∙ ap (λ x. some (leaf x f' o')) w.3)

deref-max :
    (t : BaNode)
    → IsTree t
    → (a : ℕ) × (f : ℕ) × (o : ℕ) × (deref t (ba_get_max_leaf t) ≡ some (leaf a f o))
      × (a + 2 ^ o ≡ address t + 2 ^ order t)
unfolding ba_get_max_leaf
deref-max (leaf a f o) w = (a, f, o, refl, refl)
deref-max (fork a f o l r) w =
    let (a', f', o', e, ends) = deref-max r w.9 in
    (a', f', o', e, omega (arith, ends, w.4, halves a f o l r w))

-- The way up from the leaf at `a`, of `2 ^ o` pages: it leaves the node at its end, or it has turned
-- to the leaf that follows.
abbrev NextClimb : BaNode → ℕ → ℕ → Climb → Type 0
NextClimb t a o c =
    ((a + 2 ^ o ≡ address t + 2 ^ order t) × (c ≡ test_next (flags t)))
    ⊎ ((q : NodePtr) × (f' : ℕ) × (o' : ℕ) × (c ≡ turned q)
        × (deref t q ≡ some (leaf (a + 2 ^ o) f' o')))

climb_next-NextClimb :
    (t : BaNode) (p : NodePtr) (a f o : ℕ)
    → IsTree t
    → deref t p ≡ some (leaf a f o)
    → NextClimb t a o (climb_next t p)
unfolding climb_next
climb_next-NextClimb (leaf a' f' o') [] a f o w e =
    let start : a' ≡ a = cc in let size : o' ≡ o = cc in inl (rw (start, size) refl, refl)
climb_next-NextClimb (fork a' f' o' l r) [] a f o w e = cc
climb_next-NextClimb (leaf a' f' o') (b ∷ p) a f o w e = cc
climb_next-NextClimb (fork a' f' o' l r) (false ∷ p) a f o w e =
    elim (climb_next-NextClimb l p a f o w.8 e) [
      | inl end_of_l ↦
          let (f2, o2, min) = deref-min r w.9 in
          let first : is_second (flags l) ≡ false = ground (arith, w.6) in
          let next : address r ≡ a + 2 ^ o =
            omega (arith, end_of_l.0, w.3, w.4, halves a' f' o' l r w) in
          inr (
            true ∷ ba_get_min_leaf r,
            f2,
            o2,
            rw (end_of_l.1, first) refl,
            min ∙ ap (λ x. some (leaf x f2 o2)) next,
          )
      | inr (q, f2, o2, c, there) ↦ inr (false ∷ q, f2, o2, rw c refl, there)
    ]
climb_next-NextClimb (fork a' f' o' l r) (true ∷ p) a f o w e =
    elim (climb_next-NextClimb r p a f o w.9 e) [
      | inl end_of_r ↦
          let second : is_second (flags r) ≡ true = ground (arith, w.7) in
          inl (omega (arith, end_of_r.0, w.4, halves a' f' o' l r w), rw (end_of_r.1, second) refl)
      | inr (q, f2, o2, c, there) ↦ inr (true ∷ q, f2, o2, rw c refl, there)
    ]

-- On an intact tree, from a leaf: `ba_get_next_leaf` reaches the leaf that starts where this one
-- ends, or returns ENOPAGE where the tree ends with it.
pub ba_get_next_leaf-follows :
    (t : BaNode) (p : NodePtr) (a f o : ℕ)
    → IsTree t
    → deref t p ≡ some (leaf a f o)
    → ((a + 2 ^ o ≡ address t + 2 ^ order t) × (ba_get_next_leaf t p ≡ no_leaf enopage))
      ⊎ ((q : NodePtr) × (f' : ℕ) × (o' : ℕ) × (ba_get_next_leaf t p ≡ at_leaf q)
          × (deref t q ≡ some (leaf (a + 2 ^ o) f' o')))
unfolding ba_get_next_leaf
ba_get_next_leaf-follows t p a f o w e = elim (climb_next-NextClimb t p a f o w e) [
  | inl (end_of_t, c) ↦ inl (end_of_t, rw c (at_end (is_second (flags t))))
  | inr (q, f', o', c, there) ↦ inr (q, f', o', rw c refl, there)
]
  where
    at_end : (b : Bool) → at_root (if b then rising else turning) ≡ no_leaf enopage
    at_end true = refl
    at_end false = refl

-- The same way to the leaf before.
abbrev PrevClimb : BaNode → ℕ → Climb → Type 0
PrevClimb t a c =
    ((a ≡ address t) × (c ≡ test_prev (flags t)))
    ⊎ ((q : NodePtr) × (a' : ℕ) × (f' : ℕ) × (o' : ℕ) × (c ≡ turned q)
        × (deref t q ≡ some (leaf a' f' o'))
        × (a' + 2 ^ o' ≡ a))

climb_prev-PrevClimb :
    (t : BaNode) (p : NodePtr) (a f o : ℕ)
    → IsTree t
    → deref t p ≡ some (leaf a f o)
    → PrevClimb t a (climb_prev t p)
unfolding climb_prev
climb_prev-PrevClimb (leaf a' f' o') [] a f o w e = let start : a ≡ a' = cc in inl (start, refl)
climb_prev-PrevClimb (fork a' f' o' l r) [] a f o w e = cc
climb_prev-PrevClimb (leaf a' f' o') (b ∷ p) a f o w e = cc
climb_prev-PrevClimb (fork a' f' o' l r) (true ∷ p) a f o w e =
    elim (climb_prev-PrevClimb r p a f o w.9 e) [
      | inl start_of_r ↦
          let (a2, f2, o2, max, ends) = deref-max l w.8 in
          let second : is_second (flags r) ≡ true = ground (arith, w.7) in
          inr (
            false ∷ ba_get_max_leaf l,
            a2,
            f2,
            o2,
            rw (start_of_r.1, second) refl,
            max,
            omega (arith, ends, start_of_r.0, w.3, w.4, halves a' f' o' l r w),
          )
      | inr (q, a2, f2, o2, c, there, ends) ↦ inr (true ∷ q, a2, f2, o2, rw c refl, there, ends)
    ]
climb_prev-PrevClimb (fork a' f' o' l r) (false ∷ p) a f o w e =
    elim (climb_prev-PrevClimb l p a f o w.8 e) [
      | inl start_of_l ↦
          let first : is_second (flags l) ≡ false = ground (arith, w.6) in
          inl (start_of_l.0 ∙ w.3, rw (start_of_l.1, first) refl)
      | inr (q, a2, f2, o2, c, there, ends) ↦ inr (false ∷ q, a2, f2, o2, rw c refl, there, ends)
    ]

-- On an intact tree, from a leaf: `ba_get_prev_leaf` reaches the leaf that ends where this one
-- starts, or returns ENOPAGE where the tree starts with it.
pub ba_get_prev_leaf-precedes :
    (t : BaNode) (p : NodePtr) (a f o : ℕ)
    → IsTree t
    → deref t p ≡ some (leaf a f o)
    → ((a ≡ address t) × (ba_get_prev_leaf t p ≡ no_leaf enopage))
      ⊎ ((q : NodePtr) × (a' : ℕ) × (f' : ℕ) × (o' : ℕ) × (ba_get_prev_leaf t p ≡ at_leaf q)
          × (deref t q ≡ some (leaf a' f' o'))
          × (a' + 2 ^ o' ≡ a))
unfolding ba_get_prev_leaf
ba_get_prev_leaf-precedes t p a f o w e = elim (climb_prev-PrevClimb t p a f o w e) [
  | inl (start_of_t, c) ↦ inl (start_of_t, rw c (at_start (is_second (flags t))))
  | inr (q, a', f', o', c, there, ends) ↦ inr (q, a', f', o', rw c refl, there, ends)
]
  where
    at_start : (b : Bool) → at_root (if b then turning else rising) ≡ no_leaf enopage
    at_start true = refl
    at_start false = refl
