-- ===== src/Buddy/Search/Bounds.antt =====
-- The stack of `ba_search`: 20 entries, of which the last only holds the null that a push writes.
use mathlib.Core.Path.{subst}
use pentinum_os.Base.{
  ℕ, zero, suc, ◌+◌, ◌-◌, ◌≤◌, ◌<◌, ◌≡◌, refl, ◌∙◌, arith, Bool, true, false, none, Bool-cases, inl,
  inr, ◌==◌, ltb, replicate, ◌&&◌,
}
use pentinum_os.Buddy.Node.{BaNode, leaf, fork, order, deref, ba_make_child}
use pentinum_os.Buddy.Node.Pages.{IsTree}
use pentinum_os.Buddy.Find.{Walk, found, failed, fault}
use pentinum_os.Buddy.Search.{
  is_common, may_modify, is_reverse, Dive, missed, stopped, carve, halve, dive, is_full, below,
  or_else, map_dive,
}
use pentinum_os.Buddy.Search.Point.{child}
use pentinum_os.Buddy.Search.Carve.{carve_by, halved_walk}

abbrev pub has_overrun : Walk → Bool
has_overrun (found p t room) = false
has_overrun (failed e) = false
has_overrun fault = true

abbrev pub overruns : Dive → Bool
overruns missed = false
overruns (stopped w) = has_overrun w

has_overrun-below :
    (b : Bool) (a f o : ℕ) (l r : BaNode) (w : Walk)
    → has_overrun (below b a f o l r w) ≡ has_overrun w
has_overrun-below false a f o l r (found p t room) = refl
has_overrun-below true a f o l r (found p t room) = refl
has_overrun-below false a f o l r (failed e) = refl
has_overrun-below true a f o l r (failed e) = refl
has_overrun-below false a f o l r fault = refl
has_overrun-below true a f o l r fault = refl

-- With the entries for all its halvings, a leaf is halved inside the stack.
carve_bounded :
    (b : Bool) (n k room : ℕ) (u : BaNode) → k + n ≤ 19 → has_overrun (carve n b k room u) ≡ false
unfolding carve
carve_bounded b zero k room u h = refl
carve_bounded b (suc n) k zero u h =
    let free : is_full k ≡ false = ground arith in rw (carve_by n k b u false zero free) refl
carve_bounded b (suc n) k (suc room) u h =
    let free : is_full k ≡ false = ground arith in
    rw (carve_by n k b u false (suc room) free) (
      has_overrun-below b _ _ _ _ _ _
      ∙ carve_bounded b n (suc k) room (ba_make_child u b) (omega arith))

-- Without them, it overruns the stack, unless the heap's room ends first.
pub carve_overruns :
    (b : Bool) (n k room : ℕ) (u : BaNode)
    → 19 < k + n
    → 19 ≤ k + room
    → k ≤ 19
    → has_overrun (carve n b k room u) ≡ true
unfolding carve
carve_overruns b zero k room u h j i = absurd (omega arith)
carve_overruns b (suc n) k room u h j i = elim (Bool-cases (is_full k)) [
  | inl full ↦ rw (carve_by n k b u true room full) refl
  | inr free ↦ rw (carve_by n k b u false room free) (
      halved room (ground (arith, free)) (ground (arith, free)) (λ left more.
        carve_overruns b n (suc k) left (ba_make_child u b) (omega arith) (omega arith)
          (ground (arith, free))))
]
  where
    halved :
        (left : ℕ)
        → 19 ≤ k + left
        → k < 19
        → ((left' : ℕ)
            → 19 ≤ suc k + left'
            → has_overrun (carve n b (suc k) left' (ba_make_child u b)) ≡ true)
        → has_overrun (halve false left (halved_walk n k b u)) ≡ true
    halved zero e c rec = absurd (omega arith)
    halved (suc left) e c rec = has_overrun-below b _ _ _ _ _ _ ∙ rec left (omega arith)

overruns-or_else :
    (b c : Bool) (a f o : ℕ) (l r : BaNode) (d1 d2 : Dive)
    → overruns d1 ≡ false
    → overruns d2 ≡ false
    → overruns (or_else (map_dive (below b a f o l r) d1) (map_dive (below c a f o l r) d2)) ≡ false
overruns-or_else b c a f o l r missed missed x y = refl
overruns-or_else b c a f o l r missed (stopped w) x y = has_overrun-below c a f o l r w ∙ y
overruns-or_else b c a f o l r (stopped w) d2 x y = has_overrun-below b a f o l r w ∙ x

-- A leaf, whose halvings have their entries.
leaf_bounded :
    (g m room k a f o : ℕ) → k + (o - m) ≤ 19 → overruns (dive g m room k (leaf a f o)) ≡ false
unfolding dive
leaf_bounded g m room k a f o h = elim (Bool-cases (is_common f g)) [
  | inr other ↦ rw (other, dive) refl
  | inl match ↦ elim (Bool-cases (o == m)) [
    | inl same ↦ rw (match, same, dive) refl
    | inr differs ↦ elim (Bool-cases (ltb m o && may_modify g)) [
      | inr kept ↦ rw (match, differs, kept, dive) refl
      | inl halved ↦
          rw (match, differs, halved, dive)
            (carve_bounded (is_reverse g) (o - m) k room (leaf a f o) h)
    ]
  ]
]

-- A search from a stack of `k` entries at a node of order at most `19 - k` stays inside the stack.
dive_bounded :
    (g m room k : ℕ) (t : BaNode)
    → IsTree t
    → k + order t ≤ 19
    → overruns (dive g m room k t) ≡ false
unfolding dive
dive_bounded g m room k (leaf a f o) w h = leaf_bounded g m room k a f o (omega arith)
dive_bounded g m room k (fork a f o l r) w h =
    let free : is_full k ≡ false = ground (arith, w.1) in
    elim (Bool-cases (is_common f g)) [
      | inr other ↦ rw (other, dive) refl
      | inl match ↦ elim (Bool-cases (is_reverse g)) [
        | inl back ↦
            rw (match, free, back, dive)
              (overruns-or_else true false a f o l r _ _
                (dive_bounded g m room (suc k) r w.9 (omega (arith, w.2)))
                (dive_bounded g m room k l w.8 (omega (arith, w.1))))
        | inr forth ↦
            rw (match, free, forth, dive)
              (overruns-or_else false true a f o l r _ _
                (dive_bounded g m room (suc k) l w.8 (omega (arith, w.1)))
                (dive_bounded g m room k r w.9 (omega (arith, w.2))))
      ]
    ]

edge_below :
    (b : Bool) (a f o : ℕ) (l r : BaNode)
    → IsTree (fork a f (suc o) l r)
    → deref (fork a f (suc o) l r) (replicate (suc o) b) ≡ none
    → deref (child b l r) (replicate (order (child b l r)) b) ≡ none
edge_below false a f o l r w h = let same : order l ≡ o = omega (arith, w.1) in rw same h
edge_below true a f o l r w h = let same : order r ≡ o = omega (arith, w.2) in rw same h

edge_order : (b : Bool) (t : BaNode) → deref t (replicate (order t) b) ≡ none → 1 ≤ order t
edge_order b (leaf a f zero) h = cc
edge_order b (fork a f zero l r) h = cc
edge_order b (leaf a f (suc o)) h = omega arith
edge_order b (fork a f (suc o) l r) h = omega arith

order-child :
    (b : Bool) (a f o : ℕ) (l r : BaNode) → IsTree (fork a f o l r) → suc (order (child b l r)) ≡ o
order-child false a f o l r w = w.1
order-child true a f o l r w = w.2

-- Along the nodes that the search comes to first.
pub dive_edge :
    (g m room k : ℕ) (t : BaNode)
    → IsTree t
    → 1 ≤ m
    → k + order t ≡ 20
    → deref t (replicate (order t) (is_reverse g)) ≡ none
    → overruns (dive g m room k t) ≡ false
unfolding dive
dive_edge g m room k (leaf a f zero) w pos h edge = cc
dive_edge g m room k (leaf a f (suc o)) w pos h edge =
    leaf_bounded g m room k a f (suc o) (omega arith)
dive_edge g m room k (fork a f zero l r) w pos h edge = absurd (omega (arith, w.1))
dive_edge g m room k (fork a f (suc o) l r) w pos h edge = elim (Bool-cases (is_common f g)) [
  | inr other ↦ rw (other, dive) refl
  | inl match ↦
      let below_edge = edge_below (is_reverse g) a f o l r w edge in
      let deeper = edge_order (is_reverse g) (child (is_reverse g) l r) below_edge in
      let free : is_full k ≡ false =
        ground (arith, deeper, order-child (is_reverse g) a f (suc o) l r w) in
      elim (Bool-cases (is_reverse g)) [
        | inl back ↦
            rw (match, free, back, dive)
              (overruns-or_else true false a f (suc o) l r _ _
                (dive_edge g m room (suc k) r w.9 pos (omega (arith, w.2)) (
                  subst
                    (λ b.
                      deref (child b l r) (replicate (order (child b l r)) (is_reverse g)) ≡ none)
                    back below_edge))
                (dive_bounded g m room k l w.8 (omega (arith, w.1))))
        | inr forth ↦
            rw (match, free, forth, dive)
              (overruns-or_else false true a f (suc o) l r _ _
                (dive_edge g m room (suc k) l w.8 pos (omega (arith, w.1)) (
                  subst
                    (λ b.
                      deref (child b l r) (replicate (order (child b l r)) (is_reverse g)) ≡ none)
                    forth below_edge))
                (dive_bounded g m room k r w.9 (omega (arith, w.2))))
      ]
]
