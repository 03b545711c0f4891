-- ===== src/Buddy/Tests.antt =====
-- The buddy tree at small inputs, and the theorems at inputs that meet their hypotheses.
use pentinum_os.Base.{ℕ, ◌+◌, ◌^◌, ◌≡◌, ◌⊎◌, refl, true, false, some, [], ◌∷◌, map, arith}
use pentinum_os.Buddy.Node.{
  BaNode, leaf, fork, address, order, NodePtr, deref, ba_split_node, ba_make_child,
}
use pentinum_os.Buddy.Node.Pages.{IsTree, page_flags}
use pentinum_os.Buddy.Mark.{ba_mark_pages, mark_loop}
use pentinum_os.Buddy.Mark.Range.{Ranged, ba_mark_pages-Ranged}
use pentinum_os.Buddy.Flags.{
  merge, done, panic, fault, esuccess, pnode_validate_flags_update, set_upwards, pnode_repair_tree,
  pnode_set_flags, pnode_set_status, set_masked_status,
}
use pentinum_os.Buddy.Flags.Repair.{Keeps, pnode_repair_tree-Keeps}
use pentinum_os.Buddy.Flags.Setter.{Marked, pnode_set_flags-Marked, pnode_set_status-Marked}
use pentinum_os.Buddy.Find.{found, failed, ba_find_node, find_down}
use pentinum_os.Buddy.Find
use pentinum_os.Buddy.Find.Page.{Reached, ba_find_node-Reached}
use pentinum_os.Buddy.Search.{ba_search, search_loop, ba_match_flags, enotfound, dive}
use pentinum_os.Buddy.Search.Loop.{outcome, ba_search-dive}
use pentinum_os.Buddy.Search.Found.{Searched, ba_search-Searched, ba_search_overruns}
use pentinum_os.Buddy.Leaves.{
  at_leaf, no_leaf, enopage, ba_get_next_leaf, climb_next, ba_get_min_leaf, ba_get_prev_leaf,
  climb_prev, ba_get_max_leaf,
}
use pentinum_os.Buddy.Leaves.Neighbour.{ba_get_next_leaf-follows}

-- Two free pages without a mapping, under one node.
abbrev pair : BaNode
pair = fork 0 0x09 1 (leaf 0 0x09 0) (leaf 1 0x89 0)

pair-IsTree : IsTree pair
pair-IsTree = (omega arith, refl, refl, refl, refl, refl, refl, refl, omega arith, omega arith)

split_run : ba_split_node (leaf 0 0x09 1) ≡ pair
unfolding ba_split_node ba_make_child
split_run = refl

use_run :
    pnode_set_flags pair (true ∷ []) 0x12 false false
    ≡ done 0 (fork 0 0x1b 1 (leaf 0 0x09 0) (leaf 1 0x92 0))
unfolding pnode_set_flags pnode_validate_flags_update set_upwards pnode_repair_tree
use_run = refl

-- Freed again, the page is merged with its buddy.
free_run :
    pnode_set_flags (fork 0 0x1b 1 (leaf 0 0x09 0) (leaf 1 0x92 0)) (true ∷ []) 0x09 true false
    ≡ done 0 (leaf 0 0x09 1)
unfolding pnode_set_flags pnode_validate_flags_update set_upwards pnode_repair_tree
free_run = refl

-- The mapping of a used page cannot change without being freed.
remap_run : pnode_set_flags (leaf 0 0x12 0) [] 0x0a false false ≡ panic
unfolding pnode_set_flags pnode_validate_flags_update
remap_run = refl

pnode_repair_tree-Keeps_example : Keeps pair (pnode_repair_tree pair (true ∷ []))
pnode_repair_tree-Keeps_example = pnode_repair_tree-Keeps pair (true ∷ []) pair-IsTree

pnode_set_flags-Marked_example :
    (t' : BaNode) × (pnode_set_flags pair (true ∷ []) 0x12 false false ≡ done esuccess t')
    × Marked pair 0x12 1 0 t'
unfolding pnode_validate_flags_update
pnode_set_flags-Marked_example =
    pnode_set_flags-Marked pair (true ∷ []) 0x12 1 0x89 0 false false pair-IsTree refl

ba_find_node-Reached_example :
    Reached (leaf 0 0x09 20) 3 77 17 17 (ba_find_node (leaf 0 0x09 20) 17 77 (some 3))
ba_find_node-Reached_example =
    ba_find_node-Reached (leaf 0 0x09 20) 77 3 17 (omega arith) refl refl (omega arith)
      (omega arith) (omega arith)

-- Two of four pages free and on RAM, behind two used ones.
abbrev quarter : BaNode
quarter = fork 0 0x13 2 (leaf 0 0x12 1) (leaf 2 0x91 1)

-- A single page is split off the free half: from the front, and from the back.
search_run :
    ba_search quarter 5 0 0x411
    ≡ some (
        found
          (true ∷ false ∷ [])
          (fork 0 0x13 2 (leaf 0 0x12 1) (fork 2 0x91 1 (leaf 2 0x11 0) (leaf 3 0x91 0)))
          4)
unfolding ba_search search_loop ba_match_flags ba_split_node ba_make_child
search_run = refl

reverse_run :
    ba_search quarter 5 0 0xc11
    ≡ some (
        found
          (true ∷ true ∷ [])
          (fork 0 0x13 2 (leaf 0 0x12 1) (fork 2 0x91 1 (leaf 2 0x11 0) (leaf 3 0x91 0)))
          4)
unfolding ba_search search_loop ba_match_flags ba_split_node ba_make_child
reverse_run = refl

-- Without permission to split there is none, and without memory neither.
miss_run : ba_search quarter 5 0 0x11 ≡ some (failed enotfound)
unfolding ba_search search_loop ba_match_flags
miss_run = refl

no_memory_run : ba_search quarter 0 0 0x411 ≡ some (failed enotfound)
unfolding ba_search search_loop ba_match_flags
no_memory_run = refl

ba_search-dive_example : ba_search quarter 5 0 0x411 ≡ some (outcome (dive 0x411 0 5 0 quarter))
ba_search-dive_example = ba_search-dive quarter 5 0 0x411

-- All of memory free and on RAM.
abbrev all_free : BaNode
all_free = leaf 0 0x11 20

ba_search-Searched_example : Searched all_free 0x411 3 20 (ba_search all_free 20 3 0x411)
ba_search-Searched_example = ba_search-Searched all_free 20 3 0x411 (omega arith) refl (omega arith)

ba_search_overruns_example : ba_search all_free 20 0 0x411 ≡ some Find.fault
ba_search_overruns_example = ba_search_overruns 0 0x11 20 0x411 refl refl (omega arith)

status_run :
    pnode_set_status pair (true ∷ []) 0x02 false false
    ≡ done 0 (fork 0 0x0b 1 (leaf 0 0x09 0) (leaf 1 0x8a 0))
unfolding pnode_set_status pnode_validate_flags_update set_upwards pnode_repair_tree
status_run = refl

pnode_set_status-Marked_example :
    (t' : BaNode) × (pnode_set_status pair (true ∷ []) 0x02 false false ≡ done esuccess t')
    × Marked pair (set_masked_status 0x89 0x02) 1 0 t'
unfolding pnode_validate_flags_update
pnode_set_status-Marked_example =
    pnode_set_status-Marked pair (true ∷ []) 0x02 1 0x89 0 false false pair-IsTree refl

next_run : ba_get_next_leaf pair (false ∷ []) ≡ at_leaf (true ∷ [])
unfolding ba_get_next_leaf climb_next ba_get_min_leaf
next_run = refl

last_run : ba_get_next_leaf pair (true ∷ []) ≡ no_leaf enopage
unfolding ba_get_next_leaf climb_next ba_get_min_leaf
last_run = refl

ba_get_next_leaf-follows_example :
    ((0 + 2 ^ 0 ≡ address pair + 2 ^ order pair)
      × (ba_get_next_leaf pair (false ∷ []) ≡ no_leaf enopage))
    ⊎ ((q : NodePtr) × (f' : ℕ) × (o' : ℕ) × (ba_get_next_leaf pair (false ∷ []) ≡ at_leaf q)
        × (deref pair q ≡ some (leaf 1 f' o')))
ba_get_next_leaf-follows_example =
    ba_get_next_leaf-follows pair (false ∷ []) 0 0x09 0 pair-IsTree refl

prev_run : ba_get_prev_leaf pair (true ∷ []) ≡ at_leaf (false ∷ [])
unfolding ba_get_prev_leaf climb_prev ba_get_max_leaf
prev_run = refl

-- Three pages from page 1 of a memory of which all is free.
mark_run :
    elim (ba_mark_pages 64 (leaf 0 0x09 20) 1 3 0x14 true false) [
      | done e t ↦ map (page_flags t) (0 ∷ 1 ∷ 2 ∷ 3 ∷ 4 ∷ [])
      | panic ↦ []
      | fault ↦ []
    ]
    ≡ 0x09 ∷ 0x14 ∷ 0x14 ∷ 0x14 ∷ 0x09 ∷ []
unfolding ba_mark_pages mark_loop pnode_set_flags pnode_validate_flags_update set_upwards
    pnode_repair_tree ba_find_node find_down ba_split_node ba_make_child ba_get_next_leaf climb_next
    ba_get_min_leaf merge
mark_run = refl

-- Pages 2 and 3 are buddies: marked free, they are merged, and the walk goes on from a node that is
-- no longer there.
mark_merge_run : ba_mark_pages 64 (leaf 0 0x09 20) 2 3 0x11 true false ≡ fault
unfolding ba_mark_pages mark_loop pnode_set_flags pnode_validate_flags_update set_upwards
    pnode_repair_tree ba_find_node find_down ba_split_node ba_make_child ba_get_next_leaf climb_next
    ba_get_min_leaf merge
mark_merge_run = refl

ba_mark_pages-Ranged_example :
    (t' : BaNode) × (ba_mark_pages 1048596 (leaf 0 0x09 20) 1 3 0x14 false false ≡ done esuccess t')
    × Ranged (leaf 0 0x09 20) 0x14 1 4 t'
ba_mark_pages-Ranged_example =
    ba_mark_pages-Ranged 1048596 (leaf 0 0x09 20) 1 3 0x14 false false (omega arith) refl refl
      (omega arith) (omega arith) (omega arith) (omega arith)
      (λ q low high. (omega arith, omega arith))
