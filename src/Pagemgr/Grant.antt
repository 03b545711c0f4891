-- ===== src/Pagemgr/Grant.antt =====
-- What `allocate_pages` grants.
use native.Mathlib.Nat.{one-le-pow}
use pentinum_os.Base.{
  ℕ, zero, suc, ◌+◌, ◌-◌, ◌*◌, ◌^◌, ◌≤◌, ◌<◌, ◌≡◌, ◌⊎◌, refl, ap, ◌∙◌, sym, arith, Bool, true,
  false, not, some, [], ◌∷◌, ◌++◌, inl, inr, if◌then◌else◌, replicate,
}
use pentinum_os.Buddy.Node.{
  BaNode, leaf, address, order, NodePtr, deref, ba_status, ba_mapping, pnode_free, pnode_used,
  pnode_on_ram,
}
use pentinum_os.Buddy.Node.Pages.{IsTree, pairs, page_flags, Holds, deref-inside}
use pentinum_os.Buddy.Flags.{pnode_set_status, set_masked_status}
use pentinum_os.Buddy.Flags.Upwards.{in_block, page_flags-leaf}
use pentinum_os.Buddy.Flags.Update.{status_value}
use pentinum_os.Buddy.Flags.Setter.{after_status, after_status-Marked}
use pentinum_os.Buddy.Search.{ba_search}
use pentinum_os.Buddy.Search.Outcome.{Chosen, NoneFits}
use pentinum_os.Buddy.Search.Found.{Searched, ba_search-Searched}
use pentinum_os.Pagemgr.{
  PageAllocInfo, PageMgrCtx, Alloc, allocated, refused, faulted, enopage, info_of, allocate_pages,
  finish_ram, taken, chosen, search_modify, append_info, link_info,
}
use pentinum_os.Pagemgr.Order.{req_order-Covers}
use pentinum_os.Pagemgr.Block.{IsFreeRam, is_common-IsFreeRam, pairs-used, use_leaf, deref-used}

-- The list of the context's allocations after one more.
abbrev pub Recorded : PageMgrCtx → PageAllocInfo → PageMgrCtx → Type 0
Recorded ctx info ctx' =
    if ctx.tracked
    then ((ctx'.alloc_pages ≡ ctx.alloc_pages ++ (info ∷ []))
        × (ctx'.tracked ≡ ctx.tracked)
        × (suc ctx'.node_room ≡ ctx.node_room))
    else (ctx' ≡ ctx)

link_info-append :
    (n : ℕ) (ctx : PageMgrCtx) (info : PageAllocInfo) (t : BaNode)
    → 1 ≤ n
    → (out : PageMgrCtx) × (link_info n ctx info t ≡ allocated info out t)
      × (out.alloc_pages ≡ ctx.alloc_pages ++ (info ∷ []))
      × (out.tracked ≡ ctx.tracked)
      × (suc out.node_room ≡ n)
link_info-append zero ctx info t h = absurd (omega arith)
link_info-append (suc left) ctx info t h = (_, refl, refl, refl, refl)

-- The end of `allocate_pages` at a node, by whether the context tracks its allocations.
by_tracked :
    (b : Bool) (ctx : PageMgrCtx) (u t : BaNode)
    → (b ≡ true → 1 ≤ ctx.node_room)
    → (out : PageMgrCtx) × ((if not b
          then allocated (info_of u) ctx t
          else append_info ctx (info_of u) t)
        ≡ allocated (info_of u) out t)
      × (if b
          then ((out.alloc_pages ≡ ctx.alloc_pages ++ (info_of u ∷ []))
              × (out.tracked ≡ ctx.tracked)
              × (suc out.node_room ≡ ctx.node_room))
          else (out ≡ ctx))
by_tracked false ctx u t nodes = (ctx, refl, refl)
by_tracked true ctx u t nodes =
    let (out, run, list, kind, room) =
      link_info-append ctx.node_room ctx (info_of u) t (nodes refl) in
    (out, run, (list, kind, room))

-- The allocation is a block of `2 ^ k` pages that were free and on RAM; they are used now, with the
-- mapping they had, and no other page of the tree changed.
pub record Granted (t : BaNode) (ctx : PageMgrCtx) (k : ℕ) (info : PageAllocInfo)
    (ctx' : PageMgrCtx) (t' : BaNode) : Type 0 where
  pub page : ℕ
  pub memory : info.memory ≡ page * 4096
  pub count : info.count ≡ 2 ^ k
  pub inside : page + 2 ^ k ≤ 2 ^ 20
  pub was_free : (q : ℕ) → in_block page k q ≡ true → IsFreeRam (page_flags t q)
  pub is_used :
      (q : ℕ)
      → in_block page k q ≡ true
      → (ba_status (page_flags t' q) ≡ pnode_used)
        × (ba_mapping (page_flags t' q) ≡ ba_mapping (page_flags t q))
  pub others : (q : ℕ) → Holds t q → in_block page k q ≡ false → page_flags t' q ≡ page_flags t q
  pub tree : IsTree t'
  pub same_address : address t' ≡ address t
  pub same_order : order t' ≡ order t
  pub splits : pairs t' ≤ pairs t + 20
  pub recorded : Recorded ctx info ctx'

module _ (cap : ℕ) (ctx ctx' : PageMgrCtx) (t : BaNode) (k room left : ℕ) (p : NodePtr)
    (t1 : BaNode) (c : Chosen t (pnode_free + pnode_on_ram + search_modify) k room p t1 left)
    (start : address t ≡ 0) (top : order t ≡ 20) where
  mark_free : IsFreeRam c.mark
  mark_free = is_common-IsFreeRam c.mark c.matches

  abbrev after_use : BaNode
  after_use = after_status t1 p pnode_used c.start c.mark k c.keeps.tree c.target

  abbrev used_leaf : BaNode
  used_leaf = leaf c.start (set_masked_status c.mark pnode_used) k

  block_inside : c.start + 2 ^ k ≤ 2 ^ 20
  block_inside =
      let root_size : 2 ^ order t1 ≡ 2 ^ 20 = ap (λ n. 2 ^ n) (c.keeps.same_order ∙ top) in
      omega (
        arith,
        deref-inside t1 p (leaf c.start c.mark k) c.keeps.tree c.target,
        root_size,
        c.keeps.same_address,
      )

  block-Granted :
      Recorded ctx (info_of used_leaf) ctx' → Granted t ctx k (info_of used_leaf) ctx' after_use
  block-Granted recorded =
      let m = after_status-Marked t1 p pnode_used c.start c.mark k c.keeps.tree c.target in
      let root_size : 2 ^ order t1 ≡ 2 ^ 20 = ap (λ n. 2 ^ n) (c.keeps.same_order ∙ top) in
      let size : 2 ^ order t ≡ 2 ^ 20 = ap (λ n. 2 ^ n) top in
      let before = λ (q : ℕ) (h : in_block c.start k q ≡ true).
        sym (c.keeps.pages q) ∙ page_flags-leaf t1 p c.start c.mark k q c.keeps.tree c.target h in
      let value = status_value c.mark pnode_used in
      record {
        page = c.start;
        memory = omega (arith, block_inside, one-le-pow k 2 (omega arith));
        count = refl;
        inside = block_inside;
        was_free = λ q h. omega (arith, before q h, mark_free);
        is_used = λ q h.
            let holds : Holds t1 q =
              ground (arith, h, block_inside, root_size, c.keeps.same_address) in
            ground (arith, m.pages q holds, h, value, before q h);
        others = λ q holds h.
            let holds1 : Holds t1 q =
              ground (arith, holds, size, root_size, c.keeps.same_address) in
            ground (arith, m.pages q holds1, h, c.keeps.pages q);
        tree = m.tree;
        same_address = m.same_address ∙ c.keeps.same_address;
        same_order = m.same_order ∙ c.keeps.same_order;
        splits = omega (
          arith,
          c.used,
          c.paid,
          pairs-used t1 p c.start c.mark k c.keeps.tree c.target mark_free.0,
        );
        recorded = recorded;
      }

  -- The rest of the call, after the search.
  after_search :
      (ctx.tracked ≡ true → 1 ≤ ctx.node_room)
      → (out : PageMgrCtx) × (taken ctx
            (finish_ram ctx)
            p
            (pnode_set_status t1 p pnode_used false false)
          ≡ allocated (info_of used_leaf) out after_use)
        × Recorded ctx (info_of used_leaf) out
  after_search nodes =
      let run = use_leaf t1 p c.start c.mark k c.keeps.tree c.target mark_free.0 in
      let here = deref-used t1 p c.start c.mark k c.keeps.tree c.target mark_free.0 in
      rw (run, here) (by_tracked ctx.tracked ctx used_leaf after_use nodes)

-- How `allocate_pages` ends for a request of order `k`.
abbrev pub Allocates : BaNode → PageMgrCtx → ℕ → Alloc → Type 0
Allocates t ctx k out =
    ((info : PageAllocInfo) × (ctx' : PageMgrCtx) × (t' : BaNode) × (out ≡ allocated info ctx' t')
      × Granted t ctx k info ctx' t')
    ⊎ ((out ≡ refused enopage) × NoneFits t (pnode_free + pnode_on_ram + search_modify) k)
    ⊎ ((out ≡ faulted)
        × ((k ≡ 0) ⊎ ((u : BaNode) × (deref t (replicate (order t) false) ≡ some u))))

-- For a number of pages that is not zero, on an intact tree of all pages, with room for 20 splits and,
-- where the context tracks its allocations, for a node of its list: `allocate_pages` works with the
-- least power of two that covers the pages. It grants a block of that many pages, all of them free and
-- on RAM before and used after the call, with the same mapping, in an intact tree whose other pages
-- have not changed, and the context lists the block if it tracks; or it returns ENOPAGE, and then no
-- leaf of the order or a larger one is free and on RAM; or the search writes past its stack, and then
-- a single page was requested or page 0 is a node of its own.
pub allocate_pages-Allocates :
    (cap page_cnt : ℕ) (ctx : PageMgrCtx) (t : BaNode)
    → IsTree t
    → address t ≡ 0
    → order t ≡ 20
    → pairs t + 20 ≤ cap
    → 1 ≤ page_cnt
    → page_cnt < 2 ^ 32
    → (ctx.tracked ≡ true → 1 ≤ ctx.node_room)
    → (k : ℕ) × (page_cnt ≤ 2 ^ k)
      × (2 ^ k < 2 * page_cnt)
      × Allocates t ctx k (allocate_pages cap ctx t page_cnt)
unfolding allocate_pages
allocate_pages-Allocates cap page_cnt ctx t w start top room pos small nodes =
    let (k, request, covers, least) = req_order-Covers page_cnt pos small in
    (
      k,
      covers,
      least,
      rw request (by_search k (ba_search-Searched t (cap - pairs t) k _ w top (omega arith))),
    )
  where
    by_search :
        (k : ℕ)
        → Searched t
            (pnode_free + pnode_on_ram + search_modify)
            k
            (cap - pairs t)
            (ba_search t (cap - pairs t) k (pnode_free + pnode_on_ram + search_modify))
        → Allocates t ctx k (
            chosen
              (λ p t'. taken ctx (finish_ram ctx) p (pnode_set_status t' p pnode_used false false))
              (ba_search t (cap - pairs t) k (pnode_free + pnode_on_ram + search_modify)))
    by_search k (inl (p, t1, left, run, c)) =
        let (out, end, recorded) = after_search cap ctx ctx t k _ left p t1 c start top nodes in
        inl (
          info_of (used_leaf cap ctx ctx t k _ left p t1 c start top),
          out,
          after_use cap ctx ctx t k _ left p t1 c start top,
          rw run end,
          block-Granted cap ctx out t k _ left p t1 c start top recorded,
        )
    by_search k (inr (inl (run, none_fits))) = inr (inl (rw run refl, none_fits))
    by_search k (inr (inr (run, why))) = inr (inr (rw run refl, why))
