-- ===== src/Buddy/Search/Carve.antt =====
-- The rounds at a leaf: the halving of a larger block.
use mathlib.Core.Path.{ap₂}
use mathlib.Core.List.{append-nil}
use pentinum_os.Base.{
  ℕ, zero, suc, ◌+◌, ◌-◌, ◌<◌, ◌≡◌, refl, ap, ◌∙◌, sym, arith, Bool, true, false, not, some, List,
  [], ◌∷◌, ◌++◌, Bool-cases, inl, inr, length, ◌==◌, ltb,
}
use pentinum_os.Buddy.Node.{
  BaNode, leaf, address, flags, order, NodePtr, deref, ba_split_node, ba_make_child,
}
use pentinum_os.Buddy.Find.{Walk, found}
use pentinum_os.Buddy.Search.{
  is_common, ba_match_flags, may_modify, is_reverse, replace, split, round, search_loop, carve,
  is_full, halve, below, Next,
}
use pentinum_os.Buddy.Search.Match.{is_common-child}
use pentinum_os.Buddy.Search.Point.{
  lift, child, deref-child, deref-replace, replace_same, lift-below, lift_again,
}

child-half :
    (u : BaNode) (b : Bool)
    → child b (ba_make_child u false) (ba_make_child u true) ≡ ba_make_child u b
child-half u false = refl
child-half u true = refl

-- A halving, by the room on the stack and on the heap.
module _ (n k : ℕ) (b : Bool) (u : BaNode) where
  abbrev pub halved_walk : ℕ → Walk
  halved_walk room =
      below b (address u) (flags u) (order u) (ba_make_child u false) (ba_make_child u true)
        (carve n b (suc k) room (ba_make_child u b))

  pub carve_by :
      (c : Bool) (room : ℕ) → is_full k ≡ c → carve (suc n) b k room u ≡ halve c room halved_walk
  unfolding carve
  carve_by c room e = ap (λ x. halve x room halved_walk) e

module _ (g m : ℕ) where
  -- One round, by the node that it visits.
  pub round_at :
      (n room : ℕ) (t : BaNode) (stack : List NodePtr) (p : NodePtr) (u : BaNode)
      → deref t p ≡ some u
      → search_loop (suc n) g m room t stack p
        ≡ round (search_loop n g m) g m room t stack p (some u)
  unfolding search_loop
  round_at n room t stack p u e = ap (round (search_loop n g m) g m room t stack p) e

  -- A round at a leaf.
  pub round_hit :
      (next : Next) (room : ℕ) (t : BaNode) (stack : List NodePtr) (p : NodePtr) (a f o : ℕ)
      → is_common f g ≡ true
      → o ≡ m
      → round next g m room t stack p (some (leaf a f o)) ≡ some (found p t room)
  unfolding ba_match_flags
  round_hit next room t stack p a f o c e = rw c (ground (arith, e))

  round-split :
      (next : Next) (room : ℕ) (t : BaNode) (stack : List NodePtr) (p : NodePtr) (a f o : ℕ)
      → is_common f g ≡ true
      → m < o
      → may_modify g ≡ true
      → round next g m room t stack p (some (leaf a f o)) ≡ split next g room t stack p (leaf a f o)
  unfolding ba_match_flags
  round-split next room t stack p a f o c e modify =
      let other : (o == m) ≡ false = ground arith in
      let larger : ltb m o ≡ true = ground arith in rw (c, other, larger, modify) refl

  module _ (b : Bool) (way : is_reverse g ≡ b) (modify : may_modify g ≡ true) where
    -- A leaf of a larger order is halved down to the order.
    pub carve_loop :
        (n N room : ℕ) (t : BaNode) (stack : List NodePtr) (p : NodePtr) (a f o : ℕ)
        → deref t p ≡ some (leaf a f o)
        → o ≡ m + n
        → is_common f g ≡ true
        → n < N
        → search_loop N g m room t stack p
          ≡ some (lift t p (carve n b (length stack) room (leaf a f o)))
    unfolding ba_split_node ba_make_child carve
    carve_loop n zero room t stack p a f o e size c enough = absurd (omega arith)
    carve_loop zero (suc N) room t stack p a f o e size c enough =
        round_at N room t stack p (leaf a f o) e
        ∙ round_hit (search_loop N g m) room t stack p a f o c (omega arith)
        ∙ ap some
            (sym (ap₂ (λ q u. found q u room) (append-nil p) (replace_same t p (leaf a f o) e)))
    carve_loop (suc n) (suc N) zero t stack p a f o e size c enough =
        round_at N zero t stack p (leaf a f o) e
        ∙ round-split (search_loop N g m) zero t stack p a f o c (omega arith) modify
        ∙ elim (Bool-cases (is_full (length stack))) [
          | inl full ↦ rw (carve_by n (length stack) b (leaf a f o) true zero full, full) refl
          | inr free ↦ rw (carve_by n (length stack) b (leaf a f o) false zero free, free) refl
        ]
    carve_loop (suc n) (suc N) (suc room) t stack p a f o e size c enough =
        round_at N (suc room) t stack p (leaf a f o) e
        ∙ round-split (search_loop N g m) (suc room) t stack p a f o c (omega arith) modify
        ∙ elim (Bool-cases (is_full (length stack))) [
          | inl full ↦ rw (carve_by n (length stack) b (leaf a f o) true (suc room) full, full) refl
          | inr free ↦
              rw (carve_by n (length stack) b (leaf a f o) false (suc room) free, free, way)
                (let u = leaf a f o in
                  let L = ba_make_child u false in
                  let R = ba_make_child u true in
                  let halved = replace t p (ba_split_node u) in
                  let here = deref-replace t p u (ba_split_node u) e in
                  let half : deref halved (p ++ (b ∷ [])) ≡ some (ba_make_child u b) =
                    deref-child halved p b a f o L R here ∙ ap some (child-half u b) in
                  let rest = carve n b (suc (length stack)) room (ba_make_child u b) in
                  carve_loop n N room halved ((p ++ (not b ∷ [])) ∷ stack) (p ++ (b ∷ []))
                    (address (ba_make_child u b)) (flags (ba_make_child u b)) (o - 1) half
                    (omega arith) (is_common-child u b g ∙ c) (omega arith)
                  ∙ ap some (
                      lift-below halved p b a f o L R rest here
                      ∙ lift_again t p (ba_split_node u) (below b a f o L R rest)))
        ]
