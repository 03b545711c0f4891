-- ===== src/Pagemgr/Virtual.antt =====
-- `pmgr_alloc_pages` and `pmgr_alloc_unmapped_pages` of c-kernel/syscore/mem/pagemgr.c: an allocation
-- that is mapped in the page tables of its context.
pub mod Tables
pub mod Map
use pentinum_os.Base.{
  ℕ, zero, suc, ◌+◌, ◌*◌, ◌/◌, Bool, true, false, Option, none, some, if◌then◌else◌, ◌==◌,
}
use pentinum_os.Buddy.Node.{BaNode}
use pentinum_os.Buddy.Flags.{esuccess, einval}
use pentinum_os.Paging.{Memory, x86_map_pages, x86_map_pages_get_page_count}
use pentinum_os.Pagemgr.{
  PageAllocInfo, PageMgrCtx, Alloc, allocated, refused, panicked, faulted, allocate_pages,
  allocate_mapped_pages,
}

-- The error code with the context, the tree and memory, which holds the page tables; an error pointer
-- of an allocation; a panic or a fault.
pub data Mapping : Type 0 where
  ended : ℕ × Memory → PageMgrCtx → BaNode → Mapping
  no_pages : ℕ → Mapping
  stopped : Mapping

-- The allocation of the pages that become tables. A context without a heap hands out the address of
-- one shared record, so the first allocation's record is overwritten by the second.
abbrev pub with_tables : (ℕ → ℕ → ℕ × Memory) → PageMgrCtx → PageAllocInfo → ℕ → Alloc → Mapping
with_tables map ctx info req_page_cnt (allocated tables ctx' t) =
    ended (map (if ctx.tracked then info.memory else tables.memory) tables.memory) ctx' t
with_tables map ctx info req_page_cnt (refused e) = no_pages e
with_tables map ctx info req_page_cnt panicked = stopped
with_tables map ctx info req_page_cnt faulted = stopped

-- The mapping of the pages of `info`, at `paddress` with tables from `tables`.
abbrev pub map_info : ℕ → PageMgrCtx → BaNode → PageAllocInfo → (ℕ → ℕ → ℕ × Memory) → ℕ → Mapping
map_info cap ctx t info map zero = ended (map info.memory 0) ctx t
map_info cap ctx t info map (suc n) =
    with_tables map ctx info (suc n) (allocate_pages cap ctx t (suc n))

abbrev pub with_pages : (PageAllocInfo → PageMgrCtx → BaNode → Mapping) → Alloc → Mapping
with_pages next (allocated info ctx t) = next info ctx t
with_pages next (refused e) = no_pages e
with_pages next panicked = stopped
with_pages next faulted = stopped

-- `ctx->ptable`, at `dir`, for `page_cnt` pages at `vaddress`.
abbrev pub map_granted : ℕ → Memory → ℕ → ℕ → ℕ → ℕ → PageAllocInfo → PageMgrCtx → BaNode → Mapping
map_granted cap m dir vaddress page_cnt flags info ctx t =
    let count = x86_map_pages_get_page_count m dir vaddress page_cnt in
    map_info cap ctx t info
      (λ paddress tables. x86_map_pages m dir vaddress paddress page_cnt flags tables count) count

unfoldable pub pmgr_alloc_pages : ℕ → Option PageMgrCtx → BaNode → Memory → ℕ → ℕ → ℕ → ℕ → Mapping
pmgr_alloc_pages cap none t m dir vaddress page_cnt flags = no_pages einval
pmgr_alloc_pages cap (some ctx) t m dir vaddress page_cnt flags =
    if page_cnt == 0
    then ended (esuccess, m) ctx t
    else with_pages
        (λ info ctx' t'.
          map_granted cap m dir (if vaddress == 0 then info.memory else vaddress) page_cnt flags
            info ctx' t')
        (allocate_pages cap ctx t page_cnt)

unfoldable pub pmgr_alloc_unmapped_pages :
    ℕ → Option PageMgrCtx → BaNode → Memory → ℕ → ℕ → ℕ → ℕ → ℕ → Mapping
pmgr_alloc_unmapped_pages cap none t m dir vaddress page_cnt map_flags page_flags = no_pages einval
pmgr_alloc_unmapped_pages cap (some ctx) t m dir vaddress page_cnt map_flags page_flags =
    if page_cnt == 0
    then ended (esuccess, m) ctx t
    else with_pages (map_granted cap m dir vaddress page_cnt page_flags)
        (allocate_mapped_pages cap ctx t map_flags page_cnt)
