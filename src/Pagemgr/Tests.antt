-- ===== src/Pagemgr/Tests.antt =====
-- The page manager at small inputs, and the theorems at inputs that meet their hypotheses.
use pentinum_os.Base.{ℕ, ◌*◌, ◌^◌, ◌≤◌, ◌<◌, ◌≡◌, refl, arith, true, false, some, [], ◌∷◌}
use pentinum_os.Buddy.Node.{BaNode, leaf, fork}
use pentinum_os.Buddy.Node.Pages.{IsTree}
use pentinum_os.Buddy.Flags.{
  done, panic, esuccess, pnode_set_status, pnode_validate_flags_update, set_upwards,
  pnode_repair_tree,
}
use pentinum_os.Buddy.Search.{ba_search, search_loop, ba_match_flags}
use pentinum_os.Paging.{Memory}
use pentinum_os.Paging.Table.{IsMap}
use pentinum_os.Pagemgr.{
  leading_zeros, get_highest_setbit_loc, req_order, PageMgrCtx, construct_page_mgr_ctx, allocated,
  refused, allocate_pages, info_of, free_pages,
}
use pentinum_os.Pagemgr.Order.{req_order-Covers}
use pentinum_os.Pagemgr.Grant.{Allocates, allocate_pages-Allocates}
use pentinum_os.Pagemgr.Release.{Frees, free_pages-Frees}
use pentinum_os.Pagemgr.Twice.{free_pages_twice}
use pentinum_os.Pagemgr.Virtual.{pmgr_alloc_pages}
use pentinum_os.Pagemgr.Virtual.Map.{KeepsTables, Maps, pmgr_alloc_pages-Maps}

order_run : req_order 5 ≡ some 3
unfolding req_order get_highest_setbit_loc leading_zeros
order_run = refl

exact_run : req_order 8 ≡ some 3
unfolding req_order get_highest_setbit_loc leading_zeros
exact_run = refl

req_order-Covers_example : (k : ℕ) × (req_order 5 ≡ some k) × (5 ≤ 2 ^ k) × (2 ^ k < 2 * 5)
req_order-Covers_example = req_order-Covers 5 (omega arith) (omega arith)

-- The first half of memory is in use, the second one is free; all of it is RAM.
abbrev half_used : BaNode
half_used = fork 0 0x13 20 (leaf 0 0x12 19) (leaf (2 ^ 19) 0x91 19)

half_used-IsTree : IsTree half_used
half_used-IsTree = (omega arith, refl, refl, refl, refl, refl, refl, refl, omega arith, omega arith)

-- A context with room for three list nodes.
abbrev context : PageMgrCtx
context = record { tracked = true; alloc_pages = []; node_room = 3 }

construct_run : construct_page_mgr_ctx true 3 ≡ context
unfolding construct_page_mgr_ctx
construct_run = refl

-- All of the free half is granted, and nothing is left for a second request.
grant_run :
    allocate_pages 64 context half_used (2 ^ 19)
    ≡ allocated
        (info_of (leaf (2 ^ 19) 0x91 19))
        (record {
          tracked = true;
          alloc_pages = info_of (leaf (2 ^ 19) 0x91 19) ∷ [];
          node_room = 2;
        })
        (fork 0 0x12 20 (leaf 0 0x12 19) (leaf (2 ^ 19) 0x92 19))
unfolding allocate_pages req_order get_highest_setbit_loc leading_zeros ba_search search_loop
    ba_match_flags pnode_set_status pnode_validate_flags_update set_upwards pnode_repair_tree
grant_run = refl

refuse_run :
    allocate_pages 64 context (fork 0 0x12 20 (leaf 0 0x12 19) (leaf (2 ^ 19) 0x92 19)) 1
    ≡ refused 0x11
unfolding allocate_pages req_order get_highest_setbit_loc leading_zeros ba_search search_loop
    ba_match_flags
refuse_run = refl

allocate_pages-Allocates_example :
    (k : ℕ) × (5 ≤ 2 ^ k)
    × (2 ^ k < 2 * 5)
    × Allocates half_used context k (allocate_pages 64 context half_used 5)
allocate_pages-Allocates_example =
    allocate_pages-Allocates 64 5 context half_used half_used-IsTree refl refl (omega arith)
      (omega arith) (omega arith) (λ e. omega arith)

free_pages-Frees_example :
    Frees half_used
      (false ∷ [])
      0
      0x12
      19
      half_used-IsTree
      refl
      (free_pages 64 half_used (some (info_of (leaf 0 0x12 19))))
free_pages-Frees_example =
    free_pages-Frees 64 half_used (false ∷ []) 0 0x12 19 half_used-IsTree refl refl refl

free_pages_twice_example :
    (t' : BaNode) × (free_pages 1048596 half_used (some (info_of (leaf 0 0x12 19)))
      ≡ done esuccess t')
    × (free_pages 1048596 t' (some (info_of (leaf 0 0x12 19))) ≡ panic)
free_pages_twice_example =
    free_pages_twice 1048596 half_used (false ∷ []) 0 0x12 19 half_used-IsTree refl refl
      (omega arith) refl refl

-- Memory of zeros, with an empty directory at 0x1000.
abbrev blank : Memory
blank a = 0

blank-IsMap : IsMap blank 0x1000
blank-IsMap = record {
  based = refl;
  absent = λ d h z. refl;
  present = λ d h o. absurd (omega arith);
  apart = λ d e h k n q. refl;
}

blank-KeepsTables : KeepsTables half_used blank 0x1000
blank-KeepsTables q h free =
    let high : 2 ^ 19 ≤ q = ground (arith, free) in
    record {
      page = omega arith;
      nonzero = omega arith;
      no_dir = omega arith;
      no_table = λ e l. omega arith;
    }

pmgr_alloc_pages-Maps_example :
    Maps half_used context blank 0x1000 0x400000 2 2
      (pmgr_alloc_pages 64 (some context) half_used blank 0x1000 0x400000 2 2)
pmgr_alloc_pages-Maps_example =
    pmgr_alloc_pages-Maps 64 context half_used blank 0x1000 0x400000 2 2 half_used-IsTree refl refl
      (omega arith) (omega arith) refl (omega arith) blank-IsMap blank-KeepsTables (omega arith)
