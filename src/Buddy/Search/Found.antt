-- ===== src/Buddy/Search/Found.antt =====
-- What `ba_search` finds, on an intact tree.
use pentinum_os.Base.{
  Option, none, Option-cases, replicate, ℕ, zero, suc, ◌-◌, ◌≤◌, ◌<◌, ◌≡◌, ◌⊎◌, refl, ap, ◌∙◌,
  arith, true, false, [], some, Bool-cases, inl, inr, ◌==◌, ltb,
}
use pentinum_os.Buddy.Node.{BaNode, leaf, fork, order, NodePtr, deref}
use pentinum_os.Buddy.Node.Pages.{IsTree}
use pentinum_os.Buddy.Flags.Repair.{Keeps-refl}
use pentinum_os.Buddy.Find.{Walk, found, failed, fault}
use pentinum_os.Buddy.Search.{
  is_common, may_modify, is_reverse, Dive, missed, stopped, dive, is_full, enotfound, ba_search,
}
use pentinum_os.Buddy.Search.Loop.{outcome, ba_search-dive}
use pentinum_os.Buddy.Search.Bounds.{has_overrun, overruns, dive_edge, carve_overruns}
use pentinum_os.Buddy.Search.Outcome.{Chosen, NoneFits, Outcome, carve-WalkOutcome}
use pentinum_os.Buddy.Search.Missed.{pruned, NoneFits-leaf, both-Outcome}

module _ (g m room k a f o : ℕ) where
  leaf-Outcome : f < 256 → Outcome (leaf a f o) g m room (dive g m room k (leaf a f o))
  unfolding dive
  leaf-Outcome small = elim (Bool-cases (is_common f g)) [
    | inr other ↦ rw (other, dive) (pruned g m (leaf a f o) small other)
    | inl match ↦ elim (Bool-cases (o == m)) [
      | inl same ↦
          rw (match, same, dive)
            (record {
              start = a;
              mark = f;
              keeps = Keeps-refl (leaf a f o) small;
              target = ap (λ n. some (leaf a f n)) (ground arith);
              matches = match;
              origin = record {
                path = [];
                leaf_start = a;
                leaf_flags = f;
                leaf_order = o;
                at_path = refl;
                fits = inl (ground arith);
                common = match;
                from = omega arith;
                ends = ground arith;
              };
              used = omega arith;
              paid = refl;
            })
      | inr differs ↦ elim (Bool-cases (ltb m o)) [
        | inr less ↦
            rw (match, differs, less, dive) (NoneFits-leaf g m a f o (λ fits. ground arith))
        | inl large ↦ elim (Bool-cases (may_modify g)) [
          | inr kept ↦
              rw (match, differs, large, kept, dive)
                (NoneFits-leaf g m a f o (λ fits. ground arith))
          | inl modify ↦
              rw (match, differs, large, modify, dive)
                (carve-WalkOutcome g m (is_reverse g) (o - m) k room a f o (ground (arith, large))
                  small modify match)
        ]
      ]
    ]
  ]

dive-Outcome : (g m room k : ℕ) (t : BaNode) → IsTree t → Outcome t g m room (dive g m room k t)
unfolding dive
dive-Outcome g m room k (leaf a f o) w = leaf-Outcome g m room k a f o w
dive-Outcome g m room k (fork a f o l r) w = elim (Bool-cases (is_common f g)) [
  | inr other ↦ rw (other, dive) (pruned g m (fork a f o l r) w other)
  | inl match ↦ elim (Bool-cases (is_full k)) [
    | inl full ↦ rw (match, full, dive) tt
    | inr free ↦ elim (Bool-cases (is_reverse g)) [
      | inl back ↦
          rw (match, free, back, dive)
            (both-Outcome g m room a f o l r w true _ _ (dive-Outcome g m room (suc k) r w.9)
              (dive-Outcome g m room k l w.8))
      | inr forth ↦
          rw (match, free, forth, dive)
            (both-Outcome g m room a f o l r w false _ _ (dive-Outcome g m room (suc k) l w.8)
              (dive-Outcome g m room k r w.9))
    ]
  ]
]

-- How a search of an intact tree ends.
abbrev pub Searched : BaNode → ℕ → ℕ → ℕ → Option Walk → Type 0
Searched t g m room out =
    ((p : NodePtr) × (t' : BaNode) × (left : ℕ) × (out ≡ some (found p t' left))
      × Chosen t g m room p t' left)
    ⊎ ((out ≡ some (failed enotfound)) × NoneFits t g m)
    ⊎ ((out ≡ some fault)
        × ((m ≡ 0) ⊎ ((u : BaNode) × (deref t (replicate (order t) (is_reverse g)) ≡ some u))))

Searched-outcome :
    (t : BaNode) (g m room : ℕ) (d : Dive)
    → order t ≤ room
    → Outcome t g m room d
    → (overruns d ≡ false
        ⊎ (m ≡ 0)
        ⊎ ((u : BaNode) × (deref t (replicate (order t) (is_reverse g)) ≡ some u)))
    → Searched t g m room (some (outcome d))
Searched-outcome t g m room missed enough h safe = inr (inl (refl, h))
Searched-outcome t g m room (stopped (found p t' left)) enough h safe = inl (p, t', left, refl, h)
Searched-outcome t g m room (stopped (failed e)) enough h safe = absurd (omega (arith, h.1))
Searched-outcome t g m room (stopped fault) enough h (inl e) = cc
Searched-outcome t g m room (stopped fault) enough h (inr e) = inr (inr (refl, e))

-- For every order and search flags, on an intact tree of order 20 with room on the heap for 20
-- splits, `ba_search` ends with a leaf of the order that matches the flags, in an intact tree that
-- stands for the same pages, and which is or lies in a leaf of the tree before that matches and has the
-- order, or a larger one and may be split; or with ENOTFOUND, and then no such leaf of the tree
-- matches; or it writes past its stack, and then the order is 0 or the page that the
-- search comes to first is a node of its own.
pub ba_search-Searched :
    (t : BaNode) (room m g : ℕ)
    → IsTree t
    → order t ≡ 20
    → 20 ≤ room
    → Searched t g m room (ba_search t room m g)
ba_search-Searched t room m g w top enough = rw (ba_search-dive t room m g) (
    Searched-outcome t g m room (dive g m room 0 t) (omega arith) (dive-Outcome g m room 0 t w)
      (safe m (Option-cases (deref t (replicate (order t) (is_reverse g))))))
  where
    safe :
        (n : ℕ)
        → (deref t (replicate (order t) (is_reverse g)) ≡ none)
          ⊎ ((u : BaNode) × (deref t (replicate (order t) (is_reverse g)) ≡ some u))
        → (overruns (dive g n room 0 t) ≡ false
            ⊎ (n ≡ 0)
            ⊎ ((u : BaNode) × (deref t (replicate (order t) (is_reverse g)) ≡ some u)))
    safe zero edge = inr (inl refl)
    safe (suc n) (inr edge) = inr (inr edge)
    safe (suc n) (inl whole) =
        inl (dive_edge g (suc n) room 0 t w (omega arith) (omega arith) whole)

-- On a tree of one block of all pages that matches, with permission to split it and room on the heap
-- for 19 splits, `ba_search` for a single page writes past the end of its stack.
pub ba_search_overruns :
    (a f room g : ℕ)
    → is_common f g ≡ true
    → may_modify g ≡ true
    → 19 ≤ room
    → ba_search (leaf a f 20) room 0 g ≡ some fault
unfolding dive
ba_search_overruns a f room g match modify enough =
    ba_search-dive (leaf a f 20) room 0 g
    ∙ ap some (
        rw (match, modify, dive)
          (only_fault _ (
            carve_overruns (is_reverse g) 20 0 room (leaf a f 20) (omega arith) (omega arith)
              (omega arith))))
  where
    only_fault : (w : Walk) → has_overrun w ≡ true → w ≡ fault
    only_fault fault e = refl
    only_fault (found p t r) e = cc
    only_fault (failed c) e = cc
