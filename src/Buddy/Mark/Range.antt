-- ===== src/Buddy/Mark/Range.antt =====
-- The pages that `ba_mark_pages` marks.
use native.Mathlib.Nat.{one-le-pow}
use mathlib.Core.Path.{subst, ap₂}
use pentinum_os.Base.{
  ℕ, zero, suc, ◌+◌, ◌-◌, ◌^◌, ◌≤◌, ◌<◌, ◌≡◌, ◌≢◌, refl, ap, ◌∙◌, arith, Bool, true, false, ◌&&◌,
  some, ltb, leb, Bool-cases, inl, inr, if◌then◌else◌, sub32,
}
use pentinum_os.Buddy.Node.{
  BaNode, leaf, fork, address, order, NodePtr, deref, ba_flags, ba_status, pnode_free, pnode_used,
  pnode_blocked,
}
use pentinum_os.Buddy.Node.Pages.{IsTree, page_flags, Holds, pairs, pairs-below, deref-IsTree}
use pentinum_os.Buddy.Flags.{
  done, esuccess, pnode_validate_flags_update, pnode_set_flags, set_masked_flags,
}
use pentinum_os.Buddy.Flags.Upwards.{page_flags-leaf}
use pentinum_os.Buddy.Flags.Update.{flags_value}
use pentinum_os.Buddy.Flags.Setter.{after, after-Marked, set_flags_run}
use pentinum_os.Buddy.Flags.Still.{deref-after}
use pentinum_os.Buddy.Find.{found, ba_find_node}
use pentinum_os.Buddy.Find.Page.{ba_find_node-Reached}
use pentinum_os.Buddy.Leaves.Neighbour.{ba_get_next_leaf-follows}
use pentinum_os.Buddy.Mark.{mark_loop, ba_mark_pages}

-- The pages `lo` to `hi - 1` have the new flags, and all others those of `t0`.
pub record Ranged (t0 : BaNode) (flag lo hi : ℕ) (t : BaNode) : Type 0 where
  pub tree : IsTree t
  pub start : address t ≡ 0
  pub top : order t ≡ 20
  pub pages :
      (q : ℕ)
      → q < 2 ^ 20
      → page_flags t q ≡ (if leb lo q && ltb q hi then ba_flags flag else page_flags t0 q)

-- A page whose flags a caller may set: not in use, and not blocked either unless it bypasses the guard.
abbrev pub IsOpen : Bool → ℕ → Type 0
IsOpen true v = ba_status v ≢ pnode_used
IsOpen false v = (ba_status v ≢ pnode_used) × (ba_status v ≢ pnode_blocked)

IsOpen-status : (b : Bool) (v w : ℕ) → ba_status v ≡ ba_status w → IsOpen b v → IsOpen b w
IsOpen-status true v w e h = λ used. h (e ∙ used)
IsOpen-status false v w e h = (λ used. h.0 (e ∙ used), λ blocked. h.1 (e ∙ blocked))

open_valid : (b : Bool) (f flag : ℕ) → IsOpen b f → pnode_validate_flags_update f flag b ≡ true
unfolding pnode_validate_flags_update
open_valid true f flag h = ground arith
open_valid false f flag h = ground arith

module _ (cap flag lo end_page : ℕ) (bypass quiet : Bool) (t0 : BaNode) (room : 2 ^ 20 + 20 ≤ cap)
    (kept : ba_status flag ≢ pnode_free) (inside : end_page ≤ 2 ^ 20)
    (open_to : (q : ℕ) → lo ≤ q → q < end_page → IsOpen bypass (page_flags t0 q)) where
  -- A leaf at the end of the marked pages is marked.
  mark_one :
      (t : BaNode) (p : NodePtr) (hi f o : ℕ) (r : Ranged t0 flag lo hi t)
      (e : deref t p ≡ some (leaf hi f o))
      → lo ≤ hi
      → hi < end_page
      → (pnode_set_flags t p flag bypass quiet ≡ done esuccess (after t p flag hi f o r.tree e))
        × Ranged t0 flag lo (hi + 2 ^ o) (after t p flag hi f o r.tree e)
        × (deref (after t p flag hi f o r.tree e) p ≡ some (leaf hi (set_masked_flags f flag) o))
  mark_one t p hi f o r e from below =
      let m = after-Marked t p flag hi f o r.tree e in
      let pos = one-le-pow o 2 (omega arith) in
      let size : 2 ^ order t ≡ 2 ^ 20 = ap (λ n. 2 ^ n) r.top in
      let small : f < 256 = deref-IsTree t p (leaf hi f o) r.tree e in
      let old : ba_flags f ≡ page_flags t0 hi =
        ground (
          arith,
          page_flags-leaf t p hi f o hi r.tree e (ground arith),
          r.pages hi (omega arith),
        ) in
      let status : ba_status (page_flags t0 hi) ≡ ba_status f = omega (arith, old) in
      let valid : pnode_validate_flags_update f flag bypass ≡ true =
        open_valid bypass f flag
          (IsOpen-status bypass (page_flags t0 hi) f status (open_to hi from below)) in
      (
        set_flags_run t p flag hi f o r.tree e bypass quiet valid,
        record {
          tree = m.tree;
          start = m.same_address ∙ r.start;
          top = m.same_order ∙ r.top;
          pages = λ q h.
              let holds : Holds t q = omega (arith, r.start, size) in
              ground (arith, m.pages q holds, r.pages q h);
        },
        deref-after _ _ t p hi f o e (λ free. kept (omega (arith, flags_value f flag small, free))),
      )

  -- What `ba_find_node` reaches at order 0 is a leaf of one page, in a tree with the same pages.
  find_page :
      (t : BaNode) (hi : ℕ)
      → Ranged t0 flag lo hi t
      → hi < 2 ^ 20
      → (t' : BaNode) × (p : NodePtr) × (left : ℕ) × (f : ℕ) × (ba_find_node t
            (cap - pairs t)
            hi
            (some 0)
          ≡ found p t' left)
        × Ranged t0 flag lo hi t'
        × (deref t' p ≡ some (leaf hi f 0))
  find_page t hi r h =
      let size : 2 ^ order t ≡ 2 ^ 20 = ap (λ n. 2 ^ n) r.top in
      let g =
        ba_find_node-Reached t hi 0 (cap - pairs t) r.tree r.start r.top h (omega arith)
          (omega (arith, pairs-below t r.tree)) in
      let (f, node) =
        single g.node hi (deref-IsTree g.tree g.ptr g.node g.keeps.tree g.target) g.size g.holds in
      (
        g.tree,
        g.ptr,
        g.left,
        f,
        g.result,
        record {
          tree = g.keeps.tree;
          start = g.keeps.same_address ∙ r.start;
          top = g.keeps.same_order ∙ r.top;
          pages = λ q l. g.keeps.pages q ∙ r.pages q l;
        },
        g.target ∙ ap some node,
      )
    where
      single :
          (u : BaNode) (page : ℕ)
          → IsTree u
          → order u ≡ 0
          → Holds u page
          → (f : ℕ) × (u ≡ leaf page f 0)
      single (leaf a f o) page w zero_order holds =
          let here : a ≡ page = ground (arith, zero_order) in
          (f, ap₂ (λ x y. leaf x f y) here zero_order)
      single (fork a f o l r) page w zero_order holds = absurd (omega (arith, w.1))

  -- The loop, from the leaf that was marked last.
  mark_loop-Ranged :
      (n cnt : ℕ) (t : BaNode) (p : NodePtr) (a f o hi : ℕ)
      → Ranged t0 flag lo hi t
      → deref t p ≡ some (leaf a f o)
      → a + 2 ^ o ≡ hi
      → cnt ≤ n
      → lo ≤ hi
      → hi + cnt ≡ end_page
      → (t' : BaNode) × (mark_loop n cap t p cnt flag bypass quiet ≡ done esuccess t')
        × Ranged t0 flag lo end_page t'
  unfolding mark_loop
  mark_loop-Ranged n zero t p a f o hi r e last enough from ends =
      let same : hi ≡ end_page = omega arith in (t, refl, subst (λ x. Ranged t0 flag lo x t) same r)
  mark_loop-Ranged zero (suc c) t p a f o hi r e last enough from ends = absurd (omega arith)
  mark_loop-Ranged (suc n) (suc c) t p a f o hi r e last enough from ends =
      let size : 2 ^ order t ≡ 2 ^ 20 = ap (λ k. 2 ^ k) r.top in
      elim (ba_get_next_leaf-follows t p a f o r.tree e) [
        | inl no_more ↦ absurd (omega (arith, no_more.0, r.start, size))
        | inr (q, f', o', next, there) ↦
            let here : deref t q ≡ some (leaf hi f' o') =
              there ∙ ap (λ x. some (leaf x f' o')) last in
            elim (Bool-cases (ltb (suc c) (2 ^ o'))) [
              | inr fits ↦
                  let (run, ranged, still) = mark_one t q hi f' o' r here from (omega arith) in
                  let pos = one-le-pow o' 2 (omega arith) in
                  let rest =
                    mark_loop-Ranged n (suc c - 2 ^ o') _ q hi _ o' (hi + 2 ^ o') ranged still refl
                      (omega arith) (omega arith) (ground (arith, fits)) in
                  (rest.0, rw (next, here, fits, run, still) rest.1, rest.2)
              | inl large ↦
                  let (t1, q1, left, f1, find, r1, target) = find_page t hi r (omega arith) in
                  let (run, ranged, still) = mark_one t1 q1 hi f1 0 r1 target from (omega arith) in
                  let rest =
                    mark_loop-Ranged n (suc c - 2 ^ 0) _ q1 hi _ 0 (hi + 2 ^ 0) ranged still refl
                      (omega arith) (omega arith) (omega arith) in
                  (rest.0, rw (next, here, large, find, run, still) rest.1, rest.2)
            ]
      ]

  -- The call, from its first page.
  mark_pages_run :
      (c : ℕ) (t t1 t2 : BaNode) (p : NodePtr) (left : ℕ)
      → c < 2 ^ 20
      → ba_find_node t (cap - pairs t) lo (some 0) ≡ found p t1 left
      → pnode_set_flags t1 p flag bypass quiet ≡ done esuccess t2
      → ba_mark_pages cap t lo (suc c) flag bypass quiet ≡ mark_loop c cap t2 p c flag bypass quiet
  unfolding ba_mark_pages
  mark_pages_run c t t1 t2 p left small find run =
      let count : sub32 (suc c) 1 ≡ c = omega arith in rw (find, run, count) refl

  mark_pages-Ranged :
      (c : ℕ) (t : BaNode)
      → Ranged t0 flag lo lo t
      → c < 2 ^ 20
      → lo + suc c ≡ end_page
      → (t' : BaNode) × (ba_mark_pages cap t lo (suc c) flag bypass quiet ≡ done esuccess t')
        × Ranged t0 flag lo end_page t'
  mark_pages-Ranged c t r small ends =
      let (t1, p, left, f, find, r1, target) = find_page t lo r (omega arith) in
      let (run, ranged, still) = mark_one t1 p lo f 0 r1 target (omega arith) (omega arith) in
      let rest =
        mark_loop-Ranged c c _ p lo _ 0 (lo + 2 ^ 0) ranged still refl (omega arith) (omega arith)
          (omega arith) in
      (rest.0, mark_pages_run c t t1 _ p left small find run ∙ rest.1, rest.2)

-- On an intact tree of all pages, with room on the heap for all of its nodes, for a range of at least
-- one page that ends inside memory and in which no page is in use, nor blocked where the call does
-- not bypass that guard, and for flags whose status is not free: `ba_mark_pages` succeeds, the tree stays intact, exactly the pages of the
-- range have the new flags, and every other page keeps its own.
pub ba_mark_pages-Ranged :
    (cap : ℕ) (t : BaNode) (page page_cnt flag : ℕ) (bypass quiet : Bool)
    → IsTree t
    → address t ≡ 0
    → order t ≡ 20
    → 2 ^ 20 + 20 ≤ cap
    → ba_status flag ≢ pnode_free
    → 1 ≤ page_cnt
    → page + page_cnt ≤ 2 ^ 20
    → ((q : ℕ) → page ≤ q → q < page + page_cnt → IsOpen bypass (page_flags t q))
    → (t' : BaNode) × (ba_mark_pages cap t page page_cnt flag bypass quiet ≡ done esuccess t')
      × Ranged t flag page (page + page_cnt) t'
ba_mark_pages-Ranged cap t page zero flag bypass quiet w start top room kept pos inside open_to =
    absurd (omega arith)
ba_mark_pages-Ranged cap t page (suc c) flag bypass quiet w start top room kept pos inside open_to =
    mark_pages-Ranged cap flag page (page + suc c) bypass quiet t room kept inside open_to c t
      (record { tree = w; start = start; top = top; pages = λ q h. ground arith }) (omega arith)
      refl
