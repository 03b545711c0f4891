-- ===== src/Pagemgr/Twice.antt =====
-- What a second `free_pages` of the same block does, c-kernel/syscore/mem/pagemgr.c.
use native.Mathlib.Nat.{one-le-pow, mul-le-mul_left}
use mathlib.Core.Path.{subst}
use pentinum_os.Base.{
  ℕ, suc, ◌+◌, ◌-◌, ◌*◌, ◌^◌, ◌≤◌, ◌<◌, ◌≡◌, ◌≢◌, refl, ap, ◌∙◌, sym, arith, true, false, some,
  ◌==◌, ltb, Bool-cases, inl, inr, if◌then◌else◌,
}
use pentinum_os.Buddy.Node.{
  BaNode, leaf, address, flags, order, NodePtr, deref, ba_flags, ba_status, ba_mapping, pnode_free,
  pnode_used, pnode_on_ram,
}
use pentinum_os.Buddy.Node.Pages.{
  IsTree, page_flags, Holds, pairs, pairs-below, deref-IsTree, deref-inside, page_flags-deref,
  uniform-flags,
}
use pentinum_os.Buddy.Flags.{done, panic, esuccess}
use pentinum_os.Buddy.Flags.Update.{status_value}
use pentinum_os.Buddy.Flags.Setter.{Marked}
use pentinum_os.Buddy.Find.Leaf.{order-deref, deref-IsAligned, node-IsAligned}
use pentinum_os.Buddy.Find.Page.{ba_find_node-Reached}
use pentinum_os.Pagemgr.{info_of, free_pages, free_node}
use pentinum_os.Pagemgr.Release.{freed, free_pages-Frees, free_pages_walks}

freed_status : (f : ℕ) → ba_status (freed f) ≡ pnode_free
freed_status f = elim (Bool-cases (ba_mapping f == pnode_on_ram)) [
  | inl ram ↦ rw ram (omega (arith, status_value f pnode_free))
  | inr mapped ↦ rw mapped (omega arith)
]

-- Two multiples of a size, of which one lies less than the size behind the other, are the same.
same_multiple : (i j n : ℕ) → j * n ≤ i * n → i * n < j * n + n → i ≡ j
same_multiple i j n low high = elim (Bool-cases (ltb i j)) [
  | inl less ↦
      let le : suc i ≤ j = ground arith in absurd (omega (arith, low, mul-le-mul_left n le))
  | inr more ↦ elim (Bool-cases (ltb j i)) [
    | inl less ↦
        let le : suc j ≤ i = ground arith in absurd (omega (arith, high, mul-le-mul_left n le))
    | inr other ↦ ground arith
  ]
]

panics :
    (t : BaNode) (p : NodePtr) (u : BaNode)
    → ba_status (flags u) ≢ pnode_used
    → free_node p (some u) t ≡ panic
panics t p u h =
    let idle : (ba_status (flags u) == pnode_used) ≡ false = ground arith in rw idle refl

module _ (cap : ℕ) (t : BaNode) (a f k m : ℕ) (w : IsTree t) (start : address t ≡ 0)
    (top : order t ≡ 20) (small : k ≤ 20) (inside : a + 2 ^ k ≤ 2 ^ 20) (aligned : a ≡ m * 2 ^ k)
    (room : 2 ^ 20 + 20 ≤ cap) (v : ℕ) (unused : ba_status v ≢ pnode_used)
    (all : (q : ℕ) → a ≤ q → q < a + 2 ^ k → page_flags t q ≡ ba_flags v) where
  -- A block whose pages are all alike and not in use is refused, merged or not.
  refused : free_pages cap t (some (info_of (leaf a f k))) ≡ panic
  refused =
      let pos = one-le-pow k 2 (omega arith) in
      let size : 2 ^ order t ≡ 2 ^ 20 = ap (λ n. 2 ^ n) top in
      let r =
        ba_find_node-Reached t a k (cap - pairs t) w start top (omega arith) small
          (omega (arith, pairs-below t w)) in
      let (i, multiple) =
        node-IsAligned r.tree r.ptr r.node r.keeps.tree (r.keeps.same_address ∙ start)
          (r.keeps.same_order ∙ top) r.target in
      let width : 2 ^ order r.node ≡ 2 ^ k = ap (λ n. 2 ^ n) r.size in
      let place : address r.node ≡ i * 2 ^ k = multiple ∙ ap (λ n. i * n) width in
      let same : m ≡ i =
        same_multiple m i (2 ^ k) (omega (arith, r.holds, place, aligned))
          (omega (arith, r.holds, place, aligned, width)) in
      let here : address r.node ≡ a = place ∙ ap (λ n. n * 2 ^ k) (sym same) ∙ sym aligned in
      let alike =
        uniform-flags r.node (ba_flags v) (deref-IsTree r.tree r.ptr r.node r.keeps.tree r.target)
          (λ q h.
            sym (page_flags-deref r.tree r.ptr r.node q r.keeps.tree r.target h)
            ∙ r.keeps.pages q
            ∙ all q (omega (arith, here, h)) (omega (arith, here, h, width))) in
      rw (free_pages_walks cap t a f k m small inside aligned, r.result, r.target)
        (panics r.tree r.ptr r.node (λ used. unused (omega (arith, alike, used))))

-- On an intact tree of all pages, with room on the heap for all of its nodes, for a leaf that is in use
-- and its block as an allocator describes it: the first `free_pages` succeeds, and a second one of the
-- same block panics, though the block may have been merged with its buddy in between.
pub free_pages_twice :
    (cap : ℕ) (t : BaNode) (p : NodePtr) (a f k : ℕ)
    → IsTree t
    → address t ≡ 0
    → order t ≡ 20
    → 2 ^ 20 + 20 ≤ cap
    → deref t p ≡ some (leaf a f k)
    → ba_status f ≡ pnode_used
    → (t' : BaNode) × (free_pages cap t (some (info_of (leaf a f k))) ≡ done esuccess t')
      × (free_pages cap t' (some (info_of (leaf a f k))) ≡ panic)
free_pages_twice cap t p a f k w start top room e used =
    let (m, aligned) = deref-IsAligned t p a f k w start top e in
    let inside = deref-inside t p (leaf a f k) w e in
    let size : 2 ^ order t ≡ 2 ^ 20 = ap (λ n. 2 ^ n) top in
    let in_use : (ba_status f == pnode_used) ≡ true = ground arith in
    let (t', run, marked) =
      subst
        (λ b.
          if b
          then ((t' : BaNode) × (free_pages cap t (some (info_of (leaf a f k))) ≡ done esuccess t')
              × Marked t (freed f) a k t')
          else (free_pages cap t (some (info_of (leaf a f k))) ≡ panic))
        in_use (free_pages-Frees cap t p a f k w start top e) in
    (
      t',
      run,
      refused cap t' a f k m marked.tree (marked.same_address ∙ start) (marked.same_order ∙ top)
          (omega (arith, order-deref t p (leaf a f k) w e)) (omega (arith, inside, size, start))
          aligned room (freed f) (λ u. absurd (omega (arith, u, freed_status f)))
          (λ q low high.
            let holds : Holds t q = omega (arith, inside, low, high) in
            ground (arith, marked.pages q holds, low, high)),
    )
