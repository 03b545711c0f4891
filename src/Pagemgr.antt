-- ===== src/Pagemgr.antt =====
-- The page manager: c-kernel/syscore/mem/pagemgr.c and pagemgr.h, over the buddy tree and the page
-- tables.
pub mod Order
pub mod Block
pub mod Grant
pub mod Release
pub mod Twice
pub mod Virtual
mod Tests
use pentinum_os.Base.{
  ℕ, zero, suc, ◌+◌, ◌-◌, ◌*◌, ◌/◌, ◌%◌, ◌^◌, bit_and, bit_or, Bool, true, false, not, ◌&&◌, ◌||◌,
  Option, none, some, List, [], ◌∷◌, ◌++◌, if◌then◌else◌, ◌==◌, ltb, sub32,
}
use pentinum_os.Buddy.Node.Pages.{pairs}
use pentinum_os.Buddy.Node.{
  BaNode, leaf, fork, address, flags, order, NodePtr, deref, ba_status, ba_mapping, pnode_free,
  pnode_used, pnode_unmapped, pnode_on_ram, pnode_io_mapped, pnode_blk_mapped,
}
use pentinum_os.Buddy.Flags.{
  Run, done, panic, fault, esuccess, einval, pnode_set_status, pnode_set_flags,
}
use pentinum_os.Buddy.Find.{Walk, ba_find_node}
use pentinum_os.Buddy.Find
use pentinum_os.Buddy.Search.{ba_search, enotfound}

-- `__builtin_clz` on the lowest `n` bits.
unfoldable pub leading_zeros : ℕ → ℕ → ℕ
leading_zeros zero v = 0
leading_zeros (suc n) v = let rest = leading_zeros n v in if v / 2 ^ n % 2 == 1 then 0 else suc rest

-- `__builtin_clz` has no result at 0.
unfoldable pub get_highest_setbit_loc : ℕ → Option ℕ
get_highest_setbit_loc v = if v == 0 then none else some (32 - leading_zeros 32 v)

abbrev pub is_power : ℕ → Bool
is_power n = bit_and n (sub32 n 1) == 0

-- `req_order` of both allocators.
abbrev pub exact : Bool → Option ℕ → Option ℕ
exact power none = none
exact power (some loc) = some (if power then loc - 1 else loc)

unfoldable pub req_order : ℕ → Option ℕ
req_order page_cnt = exact (is_power page_cnt) (get_highest_setbit_loc page_cnt)

pub record PageAllocInfo : Type 0 where
  pub memory : ℕ
  pub count : ℕ

-- `cap` below is the number of pairs of children that the heap of the buddy allocator holds at most.
-- `page_mgr_ctx_t`: `tracked` when `heap_allocator` is not null, the allocations from the head of
-- their list to its tail, and the number of further list nodes that the heap has room for.
pub record PageMgrCtx : Type 0 where
  pub tracked : Bool
  pub alloc_pages : List PageAllocInfo
  pub node_room : ℕ

unfoldable pub construct_page_mgr_ctx : Bool → ℕ → PageMgrCtx
construct_page_mgr_ctx tracked node_room = record {
  tracked = tracked;
  alloc_pages = [];
  node_room = node_room;
}

-- What an allocator returns: the allocation with the context and the tree, an error pointer, a panic,
-- or an access through a pointer that leads nowhere. After an error the tree may have been split.
pub data Alloc : Type 0 where
  allocated : PageAllocInfo → PageMgrCtx → BaNode → Alloc
  refused : ℕ → Alloc
  panicked : Alloc
  faulted : Alloc

abbrev pub enopage : ℕ
enopage = 0x11

abbrev pub info_of : BaNode → PageAllocInfo
info_of u = record { memory = address u * 4096 % 2 ^ 32; count = 2 ^ order u }

-- The new list node; the result of its `malloc` is not checked.
abbrev pub link_info : ℕ → PageMgrCtx → PageAllocInfo → BaNode → Alloc
link_info zero ctx info t = faulted
link_info (suc left) ctx info t =
    allocated info
      (record {
        tracked = ctx.tracked;
        alloc_pages = ctx.alloc_pages ++ (info ∷ []);
        node_room = left;
      })
      t

abbrev pub append_info : PageMgrCtx → PageAllocInfo → BaNode → Alloc
append_info ctx = link_info ctx.node_room ctx

abbrev pub with_order : (ℕ → Alloc) → Option ℕ → Alloc
with_order search none = faulted
with_order search (some m) = search m

-- After the update of the node's flags, whose result is ignored.
abbrev pub taken : PageMgrCtx → (Option BaNode → BaNode → Alloc) → NodePtr → Run → Alloc
taken ctx finish p (done e t) = finish (deref t p) t
taken ctx finish p panic = panicked
taken ctx finish p fault = faulted

-- The result of the search.
abbrev pub chosen : (NodePtr → BaNode → Alloc) → Option Walk → Alloc
chosen take none = faulted
chosen take (some (Find.found p t left)) = take p t
chosen take (some (Find.failed e)) = refused (if e == enotfound then enopage else e)
chosen take (some Find.fault) = faulted

abbrev pub finish_ram : PageMgrCtx → Option BaNode → BaNode → Alloc
finish_ram ctx none t = faulted
finish_ram ctx (some u) t =
    if not ctx.tracked then allocated (info_of u) ctx t else append_info ctx (info_of u) t

abbrev pub search_modify : ℕ
search_modify = 0x0400

abbrev pub search_reverse : ℕ
search_reverse = 0x0800

unfoldable pub allocate_pages : ℕ → PageMgrCtx → BaNode → ℕ → Alloc
allocate_pages cap ctx t page_cnt =
    with_order
      (λ m.
        chosen (λ p t'. taken ctx (finish_ram ctx) p (pnode_set_status t' p pnode_used false false))
          (ba_search t (cap - pairs t) m (pnode_free + pnode_on_ram + search_modify)))
      (req_order page_cnt)

-- Without a heap the `malloc` of the list node reads through a null pointer.
abbrev pub finish_mapped : PageMgrCtx → Option BaNode → BaNode → Alloc
finish_mapped ctx none t = faulted
finish_mapped ctx (some u) t = if not ctx.tracked then faulted else append_info ctx (info_of u) t

abbrev pub validated_map : ℕ → ℕ
validated_map status = bit_and status (pnode_blk_mapped + pnode_io_mapped)

unfoldable pub allocate_mapped_pages : ℕ → PageMgrCtx → BaNode → ℕ → ℕ → Alloc
allocate_mapped_pages cap ctx t status page_cnt =
    if (page_cnt == 0) || (validated_map status == 0)
    then refused einval
    else with_order
        (λ m.
          chosen
            (λ p t'.
              taken ctx (finish_mapped ctx) p
                (pnode_set_flags t' p (bit_or pnode_used (validated_map status)) false false))
            (ba_search t (cap - pairs t) m
              (pnode_free + pnode_unmapped + search_modify + search_reverse)))
        (req_order page_cnt)

-- The node that is freed; the results of the setters are ignored.
abbrev pub succeeds : Run → Run
succeeds (done e t) = done esuccess t
succeeds panic = panic
succeeds fault = fault

abbrev pub free_node : NodePtr → Option BaNode → BaNode → Run
free_node p none t = fault
free_node p (some u) t =
    if not (ba_status (flags u) == pnode_used)
    then panic
    else if ba_mapping (flags u) == pnode_on_ram
    then succeeds (pnode_set_status t p pnode_free true false)
    else succeeds (pnode_set_flags t p (pnode_free + pnode_unmapped) true false)

abbrev pub free_found : BaNode → Walk → Run
free_found t (Find.found p t' left) = free_node p (deref t' p) t'
free_found t (Find.failed e) = done e t
free_found t Find.fault = fault

abbrev pub free_at : ℕ → BaNode → ℕ → Option ℕ → Run
free_at cap t page none = fault
free_at cap t page (some loc) = free_found t (ba_find_node t (cap - pairs t) page (some (loc - 1)))

unfoldable pub free_pages : ℕ → BaNode → Option PageAllocInfo → Run
free_pages cap t none = done einval t
free_pages cap t (some info) =
    if (info.count == 0) || not (is_power info.count) || not (info.memory % info.count == 0)
    then done einval t
    else free_at cap t (info.memory / 4096) (get_highest_setbit_loc info.count)

-- The loop of `destroy_page_mgr_ctx`, which ignores the error codes.
abbrev pub free_next : (BaNode → Run) → Run → Run
free_next rest (done e t) = rest t
free_next rest panic = panic
free_next rest fault = fault

unfoldable pub free_all : ℕ → BaNode → List PageAllocInfo → Run
free_all cap t [] = done esuccess t
free_all cap t (info ∷ infos) =
    free_next (λ t'. free_all cap t' infos) (free_pages cap t (some info))

unfoldable pub destroy_page_mgr_ctx : ℕ → BaNode → PageMgrCtx → Run
unfolding free_all
destroy_page_mgr_ctx cap t ctx = free_all cap t ctx.alloc_pages
