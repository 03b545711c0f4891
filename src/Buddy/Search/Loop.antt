-- ===== src/Buddy/Search/Loop.antt =====
-- The search with a stack does what the recursion over the tree does.
use mathlib.Core.List.{append-nil}
use pentinum_os.Base.{
  ℕ, suc, ◌+◌, ◌-◌, ◌≤◌, ◌<◌, ◌≡◌, refl, ap, ◌∙◌, arith, Bool, true, false, not, Option, some, List,
  [], ◌∷◌, ◌++◌, Bool-cases, inl, inr, length, ◌==◌, ltb,
}
use pentinum_os.Buddy.Node.{BaNode, leaf, fork, NodePtr, deref}
use pentinum_os.Buddy.Find.{Walk, found, failed, fault}
use pentinum_os.Buddy.Search.{
  is_common, ba_match_flags, may_modify, is_reverse, pop, round, search_loop, rounds, ba_search,
  Dive, missed, stopped, carve, dive, is_full, below, enotfound, map_dive, or_else, Next,
}
use pentinum_os.Buddy.Search.Point.{lift, deref-child, replace_same, lift-below}
use pentinum_os.Buddy.Search.Carve.{round_at, carve_loop}

-- What the loop does after the nodes below a node have been searched.
abbrev resume : Next → ℕ → BaNode → List NodePtr → NodePtr → Dive → Option Walk
resume next room t stack p missed = pop next room t stack
resume next room t stack p (stopped w) = some (lift t p w)

-- The loop, come to a node, searches all below it in at most `limit` rounds.
record Met (g m room : ℕ) (t : BaNode) (stack : List NodePtr) (p : NodePtr) (d : Dive) (limit : ℕ)
    : Type 0 where
  cost : ℕ
  enough : cost ≤ limit
  run :
      (N n : ℕ)
      → N ≡ cost + n
      → search_loop N g m room t stack p ≡ resume (search_loop n g m) room t stack p d

Met-less :
    {g m room : ℕ} {t : BaNode} {stack : List NodePtr} {p : NodePtr} {d : Dive} {i j : ℕ}
    → Met g m room t stack p d i
    → i ≤ j
    → Met g m room t stack p d j
Met-less s small = record { cost = s.cost; enough = omega (arith, s.enough); run = s.run }

-- The two children, one after the other.
module _ (g m room : ℕ) (t : BaNode) (stack : List NodePtr) (p : NodePtr) (b : Bool) (a f o : ℕ)
    (l r : BaNode) (e : deref t p ≡ some (fork a f o l r)) where
  second_run :
      (d2 : Dive) (i2 : ℕ) (s2 : Met g m room t stack (p ++ (not b ∷ [])) d2 i2) (N n : ℕ)
      → N ≡ s2.cost + n
      → search_loop N g m room t stack (p ++ (not b ∷ []))
        ≡ resume (search_loop n g m) room t stack p (map_dive (below (not b) a f o l r) d2)
  second_run missed i2 s2 N n h = s2.run N n h
  second_run (stopped w) i2 s2 N n h = s2.run N n h ∙ ap some (lift-below t p (not b) a f o l r w e)

  both_run :
      (d1 d2 : Dive) (i1 i2 : ℕ)
      (s1 : Met g m room t ((p ++ (not b ∷ [])) ∷ stack) (p ++ (b ∷ [])) d1 i1)
      (s2 : Met g m room t stack (p ++ (not b ∷ [])) d2 i2) (N n : ℕ)
      → N ≡ s1.cost + (s2.cost + n)
      → search_loop N g m room t ((p ++ (not b ∷ [])) ∷ stack) (p ++ (b ∷ []))
        ≡ resume
            (search_loop n g m)
            room
            t
            stack
            p
            (or_else (map_dive (below b a f o l r) d1) (map_dive (below (not b) a f o l r) d2))
  both_run (stopped w) d2 i1 i2 s1 s2 N n h =
      s1.run N (s2.cost + n) h ∙ ap some (lift-below t p b a f o l r w e)
  both_run missed d2 i1 i2 s1 s2 N n h =
      s1.run N (s2.cost + n) h ∙ second_run d2 i2 s2 (s2.cost + n) n refl

  both-Met :
      (d1 d2 : Dive) (i1 i2 : ℕ)
      → Met g m room t ((p ++ (not b ∷ [])) ∷ stack) (p ++ (b ∷ [])) d1 i1
      → Met g m room t stack (p ++ (not b ∷ [])) d2 i2
      → is_common f g ≡ true
      → is_full (length stack) ≡ false
      → is_reverse g ≡ b
      → Met g m room t stack p
          (or_else (map_dive (below b a f o l r) d1) (map_dive (below (not b) a f o l r) d2))
          (suc (i1 + i2))
  unfolding ba_match_flags
  both-Met d1 d2 i1 i2 s1 s2 match free way = record {
    cost = suc (s1.cost + s2.cost);
    enough = omega (arith, s1.enough, s2.enough);
    run = λ N n size.
        let next : N ≡ suc (s1.cost + (s2.cost + n)) = omega arith in
        rw next (
          round_at g m (s1.cost + (s2.cost + n)) room t stack p (fork a f o l r) e
          ∙ rw (match, free, way) (both_run d1 d2 i1 i2 s1 s2 (s1.cost + (s2.cost + n)) n refl));
  }

-- The first round at a node.
module _ (g m room : ℕ) (t : BaNode) (stack : List NodePtr) (p : NodePtr) (u : BaNode)
    (e : deref t p ≡ some u) where
  first_round :
      (limit : ℕ) (d : Dive)
      → 1 ≤ limit
      → ((n : ℕ)
          → round (search_loop n g m) g m room t stack p (some u)
            ≡ resume (search_loop n g m) room t stack p d)
      → Met g m room t stack p d limit
  first_round limit d small h = record {
    cost = 1;
    enough = small;
    run = λ N n size.
        let next : N ≡ suc n = omega arith in rw next (round_at g m n room t stack p u e ∙ h n);
  }

-- The search at a leaf, by the tests of its round.
module _ (g m room : ℕ) (t : BaNode) (stack : List NodePtr) (p : NodePtr) (a f o : ℕ)
    (e : deref t p ≡ some (leaf a f o)) where
  abbrev LeafMet : Dive → Type 0
  LeafMet d = Met g m room t stack p d (suc o)

  leaf_round :
      (d : Dive)
      → ((n : ℕ)
          → round (search_loop n g m) g m room t stack p (some (leaf a f o))
            ≡ resume (search_loop n g m) room t stack p d)
      → LeafMet d
  leaf_round d = first_round g m room t stack p (leaf a f o) e (suc o) d (omega arith)

  leaf_split :
      is_common f g ≡ true
      → m < o
      → may_modify g ≡ true
      → LeafMet (stopped (carve (o - m) (is_reverse g) (length stack) room (leaf a f o)))
  leaf_split match larger modify = record {
    cost = suc o;
    enough = omega arith;
    run = λ N n size.
        carve_loop g m (is_reverse g) refl modify (o - m) N room t stack p a f o e (omega arith)
          match (omega arith);
  }

  leaf_met : LeafMet (dive g m room (length stack) (leaf a f o))
  unfolding dive ba_match_flags
  leaf_met = elim (Bool-cases (is_common f g)) [
    | inr other ↦ rw (other, dive) (leaf_round missed (λ n. rw other refl))
    | inl match ↦ elim (Bool-cases (o == m)) [
      | inl same ↦
          rw (match, same, dive)
            (leaf_round (stopped (found [] (leaf a f o) room))
              (λ n. rw (match, same, append-nil p, replace_same t p (leaf a f o) e) refl))
      | inr differs ↦ elim (Bool-cases (ltb m o)) [
        | inr small ↦
            rw (match, differs, small, dive)
              (leaf_round missed (λ n. rw (match, differs, small) refl))
        | inl large ↦ elim (Bool-cases (may_modify g)) [
          | inr kept ↦
              rw (match, differs, large, kept, dive)
                (leaf_round missed (λ n. rw (match, differs, large, kept) refl))
          | inl modify ↦
              rw (match, differs, large, modify, dive)
                (leaf_split match (ground (arith, large)) modify)
        ]
      ]
    ]
  ]

-- The search below any node is the recursion there.
dive_loop :
    (g m room : ℕ) (u t : BaNode) (stack : List NodePtr) (p : NodePtr)
    → deref t p ≡ some u
    → Met g m room t stack p (dive g m room (length stack) u) (rounds u)
unfolding dive ba_match_flags
dive_loop g m room (leaf a f o) t stack p e = leaf_met g m room t stack p a f o e
dive_loop g m room (fork a f o l r) t stack p e =
    let first = first_round g m room t stack p (fork a f o l r) e (rounds (fork a f o l r)) in
    elim (Bool-cases (is_common f g)) [
      | inr other ↦ rw (other, dive) (first missed (omega arith) (λ n. rw other refl))
      | inl match ↦ elim (Bool-cases (is_full (length stack))) [
        | inl full ↦
            rw (match, full, dive)
              (first (stopped fault) (omega arith) (λ n. rw (match, full) refl))
        | inr free ↦ elim (Bool-cases (is_reverse g)) [
          | inl back ↦
              rw (match, free, back, dive)
                (Met-less
                  (both-Met g m room t stack p true a f o l r e _ _ _ _
                    (dive_loop g m room r t ((p ++ (false ∷ [])) ∷ stack) (p ++ (true ∷ []))
                      (deref-child t p true a f o l r e))
                    (dive_loop g m room l t stack (p ++ (false ∷ []))
                      (deref-child t p false a f o l r e))
                    match free back)
                  (omega arith))
          | inr forth ↦
              rw (match, free, forth, dive)
                (both-Met g m room t stack p false a f o l r e _ _ _ _
                  (dive_loop g m room l t ((p ++ (true ∷ [])) ∷ stack) (p ++ (false ∷ []))
                    (deref-child t p false a f o l r e))
                  (dive_loop g m room r t stack (p ++ (true ∷ []))
                    (deref-child t p true a f o l r e))
                  match free forth)
        ]
      ]
    ]

-- What a search ends with.
abbrev pub outcome : Dive → Walk
outcome missed = failed enotfound
outcome (stopped w) = w

lift_root : (t : BaNode) (w : Walk) → lift t [] w ≡ w
lift_root t (found p u room) = refl
lift_root t (failed c) = refl
lift_root t fault = refl

after_root :
    (next : Next) (room : ℕ) (t : BaNode) (d : Dive) → resume next room t [] [] d ≡ some (outcome d)
after_root next room t missed = refl
after_root next room t (stopped w) = ap some (lift_root t w)

-- For every tree, room on the heap, order and search flags, `ba_search` ends, within its rounds,
-- with what the plain recursion over the tree finds: the loop visits the nodes below a node before
-- those on its stack.
pub ba_search-dive :
    (t : BaNode) (room m g : ℕ) → ba_search t room m g ≡ some (outcome (dive g m room 0 t))
unfolding ba_search
ba_search-dive t room m g =
    let s = dive_loop g m room t t [] [] refl in
    s.run (rounds t) (rounds t - s.cost) (omega (arith, s.enough))
    ∙ after_root (search_loop (rounds t - s.cost) g m) room t (dive g m room 0 t)
