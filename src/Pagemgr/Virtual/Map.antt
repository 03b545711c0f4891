-- ===== src/Pagemgr/Virtual/Map.antt =====
-- What `pmgr_alloc_pages` maps.
use mathlib.Core.Path.{subst}
use pentinum_os.Base.{
  ℕ, zero, suc, ◌+◌, ◌*◌, ◌/◌, ◌^◌, ◌≤◌, ◌<◌, ◌≡◌, ◌⊎◌, refl, ap, ◌∙◌, arith, true, false, ◌++◌,
  some, [], ◌∷◌, ◌==◌, Bool-cases, inl, inr, if◌then◌else◌, replicate,
}
use pentinum_os.Buddy.Node.{BaNode, address, order, deref, pnode_free, pnode_on_ram}
use pentinum_os.Buddy.Node.Pages.{IsTree, page_flags, Holds, pairs}
use pentinum_os.Buddy.Flags.Upwards.{in_block}
use pentinum_os.Buddy.Search.Outcome.{NoneFits}
use pentinum_os.Paging.{Memory, esuccess, x86_map_pages, x86_map_pages_get_page_count}
use pentinum_os.Paging.Table.{IsMap}
use pentinum_os.Paging.Round.{IsFresh}
use pentinum_os.Paging.Map.{Mapped}
use pentinum_os.Pagemgr.{PageAllocInfo, PageMgrCtx, enopage, search_modify}
use pentinum_os.Pagemgr.Block.{IsFreeRam}
use pentinum_os.Pagemgr.Grant.{Granted, allocate_pages-Allocates}
use pentinum_os.Pagemgr.Virtual.{Mapping, ended, no_pages, stopped, map_info, pmgr_alloc_pages}
use pentinum_os.Pagemgr.Virtual.Tables.{get_page_count-le, maps_all}

-- The tables lie in pages that the page manager does not hand out.
abbrev pub KeepsTables : BaNode → Memory → ℕ → Type 0
KeepsTables t m dir = (q : ℕ) → q < 2 ^ 20 → IsFreeRam (page_flags t q) → IsFresh m dir (q * 4096)

abbrev pub NoBlock : BaNode → ℕ → Type 0
NoBlock t n =
    (k : ℕ) × (n ≤ 2 ^ k)
    × (2 ^ k < 2 * n)
    × NoneFits t (pnode_free + pnode_on_ram + search_modify) k

abbrev pub Overran : BaNode → ℕ → Type 0
Overran t n =
    (k : ℕ) × (n ≤ 2 ^ k)
    × (2 ^ k < 2 * n)
    × ((k ≡ 0) ⊎ ((u : BaNode) × (deref t (replicate (order t) false) ≡ some u)))

-- The pages granted in a second allocation were free before the first one.
module _ (t t1 t2 : BaNode) (ctx ctx1 ctx2 : PageMgrCtx) (k j : ℕ) (info tables : PageAllocInfo)
    (top : (address t ≡ 0) × (order t ≡ 20)) (g : Granted t ctx k info ctx1 t1)
    (h : Granted t1 ctx1 j tables ctx2 t2) where
  still_free : (q : ℕ) → in_block h.page j q ≡ true → (q < 2 ^ 20) × IsFreeRam (page_flags t q)
  still_free q b =
      let size : 2 ^ order t ≡ 2 ^ 20 = ap (λ n. 2 ^ n) top.1 in
      let low : q < 2 ^ 20 = ground (arith, b, h.inside) in
      let holds : Holds t q = omega (arith, top.0) in
      let free = h.was_free q b in
      elim (Bool-cases (in_block g.page k q)) [
        | inl first ↦ absurd (omega (arith, free, (g.is_used q first).0))
        | inr other ↦ (low, subst IsFreeRam (g.others q holds other) free)
      ]

-- Where the missing page tables lie: none are needed and nothing more is allocated, or they are the
-- pages of a second block of the least power of two that covers them.
abbrev pub TablesGranted :
    BaNode
    → PageMgrCtx
    → Memory
    → ℕ
    → ℕ
    → ℕ
    → ℕ
    → PageAllocInfo
    → Memory
    → PageMgrCtx
    → BaNode
    → Type 0
TablesGranted t1 ctx1 m dir v n flags info m' ctx' t' =
    let needed = x86_map_pages_get_page_count m dir v n in
    ((needed ≡ 0) × (ctx' ≡ ctx1) × (t' ≡ t1))
    ⊎ ((j : ℕ) × (tables : PageAllocInfo) × (needed ≤ 2 ^ j)
        × (2 ^ j < 2 * needed)
        × Granted t1 ctx1 j tables ctx' t'
        × (x86_map_pages m dir v info.memory n flags tables.memory needed ≡ (esuccess, m')))

-- The mapping of a granted block: it is mapped, or the allocation of its tables ends the call.
abbrev pub MapsBlock :
    BaNode → PageMgrCtx → Memory → ℕ → ℕ → ℕ → ℕ → PageAllocInfo → Mapping → Type 0
MapsBlock t1 ctx1 m dir v n flags info out =
    ((m' : Memory) × (ctx' : PageMgrCtx) × (t' : BaNode) × (out ≡ ended (esuccess, m') ctx' t')
      × IsTree t'
      × IsMap m' dir
      × Mapped m m' dir (v / 4096) (info.memory / 4096) flags (v / 4096) (v / 4096 + n)
      × TablesGranted t1 ctx1 m dir v n flags info m' ctx' t')
    ⊎ ((out ≡ no_pages enopage) × NoBlock t1 (x86_map_pages_get_page_count m dir v n))
    ⊎ ((out ≡ stopped) × Overran t1 (x86_map_pages_get_page_count m dir v n))

module _ (cap : ℕ) (t t1 : BaNode) (ctx ctx1 : PageMgrCtx) (k : ℕ) (info : PageAllocInfo)
    (m : Memory) (dir v n flags : ℕ) (top : (address t ≡ 0) × (order t ≡ 20))
    (g : Granted t ctx k info ctx1 t1) (covers : n ≤ 2 ^ k) (tracks : ctx1.tracked ≡ true)
    (nodes : 1 ≤ ctx1.node_room) (room : pairs t + 40 ≤ cap) (map : IsMap m dir)
    (keeps : KeepsTables t m dir) (ends : v / 4096 + n ≤ 2 ^ 20) where
  abbrev tables_needed : ℕ
  tables_needed = x86_map_pages_get_page_count m dir v n

  frames_end : info.memory / 4096 + n ≤ 2 ^ 20
  frames_end = omega (arith, g.memory, g.inside)

  -- The tables have been granted.
  with_tables-MapsBlock :
      (j : ℕ) (tables : PageAllocInfo) (ctx2 : PageMgrCtx) (t2 : BaNode)
      → tables_needed ≤ 2 ^ j
      → 2 ^ j < 2 * tables_needed
      → Granted t1 ctx1 j tables ctx2 t2
      → MapsBlock t1 ctx1 m dir v n flags info (
          ended
            (x86_map_pages m dir v
              (if ctx1.tracked then info.memory else tables.memory)
              n
              flags
              tables.memory
              tables_needed)
            ctx2
            t2)
  with_tables-MapsBlock j tables ctx2 t2 enough least h =
      let size : tables.memory + tables_needed * 4096 ≤ 2 ^ 32 =
        omega (arith, h.memory, h.inside) in
      let fresh = λ (i : ℕ) (l : i < tables_needed).
        let free =
          still_free t t1 t2 ctx ctx1 ctx2 k j info tables top g h (h.page + i)
            (ground (arith, h.inside)) in
        let here : (h.page + i) * 4096 ≡ tables.memory + i * 4096 = omega (arith, h.memory) in
        subst (IsFresh m dir) here (keeps (h.page + i) free.0 free.1) in
      let (m', run, map', mapped) =
        maps_all m dir v info.memory n flags tables.memory map size fresh ends frames_end in
      let own : (if ctx1.tracked then info.memory else tables.memory) ≡ info.memory =
        ap (λ b. if b then info.memory else tables.memory) tracks in
      inl (
        m',
        ctx2,
        t2,
        ap (λ a. ended (x86_map_pages m dir v a n flags tables.memory tables_needed) ctx2 t2) own
            ∙ ap (λ x. ended x ctx2 t2) run,
        h.tree,
        map',
        mapped,
        inr (j, tables, enough, least, h, run),
      )

  map_info-MapsBlock :
      (c : ℕ)
      → tables_needed ≡ c
      → MapsBlock t1 ctx1 m dir v n flags info (
          map_info cap ctx1 t1 info
            (λ paddress tables. x86_map_pages m dir v paddress n flags tables tables_needed)
            c)
  map_info-MapsBlock zero none_needed =
      let (m', run, map', mapped) =
        maps_all m dir v info.memory n flags 0 map (omega arith) (λ i l. absurd (omega arith)) ends
          frames_end in
      inl (
        m',
        ctx1,
        t1,
        ap (λ x. ended x ctx1 t1) run,
        g.tree,
        map',
        mapped,
        inl (none_needed, refl, refl),
      )
  map_info-MapsBlock (suc c) needed =
      let small : suc c < 2 ^ 32 = omega (arith, get_page_count-le m dir v n) in
      let (j, enough, least, out) =
        allocate_pages-Allocates cap (suc c) ctx1 t1 g.tree (g.same_address ∙ top.0)
          (g.same_order ∙ top.1) (omega (arith, g.splits)) (omega arith) small (λ e. nodes) in
      elim out [
        | inl (tables, ctx2, t2, run, h) ↦
            rw run (
              with_tables-MapsBlock j tables ctx2 t2 (omega arith) (omega (arith, least, needed)) h)
        | inr rest ↦ elim rest [
          | inl (run, none_fits) ↦
              rw (run, needed) (inr (inl (refl, (j, enough, least, none_fits))))
          | inr (run, why) ↦ rw (run, needed) (inr (inr (refl, (j, enough, least, why))))
        ]
      ]

-- Where the pages are mapped: at the address that is given, or at their own for the address 0.
abbrev pub map_address : ℕ → PageAllocInfo → ℕ
map_address vaddress info = if vaddress == 0 then info.memory else vaddress

-- How `pmgr_alloc_pages` ends.
abbrev pub Maps : BaNode → PageMgrCtx → Memory → ℕ → ℕ → ℕ → ℕ → Mapping → Type 0
Maps t ctx m dir vaddress n flags out =
    ((k : ℕ) × (info : PageAllocInfo) × (ctx1 : PageMgrCtx) × (t1 : BaNode) × (n ≤ 2 ^ k)
      × (2 ^ k < 2 * n)
      × Granted t ctx k info ctx1 t1
      × MapsBlock t1 ctx1 m dir (map_address vaddress info) n flags info out)
    ⊎ ((out ≡ no_pages enopage) × NoBlock t n)
    ⊎ ((out ≡ stopped) × Overran t n)

-- For a context that tracks its allocations and an intact tree of all pages, with room for two
-- searches and two list nodes, for page tables that lie in pages that are not free, and for a range
-- that stays below the end of the address space: `pmgr_alloc_pages` grants a block that covers the
-- pages and maps each of them, at the address that is given or at its own for the address 0, and
-- changes no other page's entry; the tables that are missing are the pages of a second block, granted
-- after the first, of the least power of two that covers them; or it returns
-- ENOPAGE, and then no free block fits the pages, or their tables once the pages are granted; or one
-- of the two searches overruns its stack.
pub pmgr_alloc_pages-Maps :
    (cap : ℕ) (ctx : PageMgrCtx) (t : BaNode) (m : Memory) (dir vaddress n flags : ℕ)
    → IsTree t
    → address t ≡ 0
    → order t ≡ 20
    → pairs t + 40 ≤ cap
    → 1 ≤ n
    → ctx.tracked ≡ true
    → 2 ≤ ctx.node_room
    → IsMap m dir
    → KeepsTables t m dir
    → vaddress / 4096 + n ≤ 2 ^ 20
    → Maps t ctx m dir vaddress n flags (pmgr_alloc_pages cap (some ctx) t m dir vaddress n flags)
unfolding pmgr_alloc_pages
pmgr_alloc_pages-Maps cap ctx t m dir vaddress n flags w start top room pos tracks nodes map keeps
      ends =
    let some_pages : (n == 0) ≡ false = ground arith in
    let (k, covers, least, out) =
      allocate_pages-Allocates cap n ctx t w start top (omega arith) pos (omega arith)
        (λ e. omega arith) in
    elim out [
      | inl (info, ctx1, t1, run, g) ↦
          let recorded =
            subst
              (λ b.
                if b
                then ((ctx1.alloc_pages ≡ ctx.alloc_pages ++ (info ∷ []))
                    × (ctx1.tracked ≡ ctx.tracked)
                    × (suc ctx1.node_room ≡ ctx.node_room))
                else (ctx1 ≡ ctx))
              tracks g.recorded in
          let here : map_address vaddress info / 4096 + n ≤ 2 ^ 20 =
            ground (arith, g.memory, g.inside) in
          rw (some_pages, run)
            (inl (
              k,
              info,
              ctx1,
              t1,
              covers,
              least,
              g,
              map_info-MapsBlock cap t t1 ctx ctx1 k info m dir (map_address vaddress info) n flags
                  (start, top) g covers (recorded.1 ∙ tracks) (omega (arith, recorded.2)) room map
                  keeps here _ refl,
            ))
      | inr rest ↦ elim rest [
        | inl (run, none_fits) ↦
            rw (some_pages, run) (inr (inl (refl, (k, covers, least, none_fits))))
        | inr (run, why) ↦ rw (some_pages, run) (inr (inr (refl, (k, covers, least, why))))
      ]
    ]
