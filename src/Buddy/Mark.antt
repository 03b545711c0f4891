-- ===== src/Buddy/Mark.antt =====
-- `ba_mark_pages` and `ba_mark_stack` of c-kernel/syscore/mem/buddy.c.
pub mod Range
use pentinum_os.Base.{
  ℕ, zero, suc, ◌-◌, ◌^◌, Bool, false, Option, none, some, if◌then◌else◌, ltb, sub32, bit_or,
}
use pentinum_os.Buddy.Node.{BaNode, address, order, NodePtr, deref, pnode_on_ram, pnode_used}
use pentinum_os.Buddy.Node.Pages.{pairs}
use pentinum_os.Buddy.Flags.{Run, done, panic, fault, esuccess, pnode_set_flags}
use pentinum_os.Buddy.Find.{Walk, ba_find_node}
use pentinum_os.Buddy.Find
use pentinum_os.Buddy.Leaves.{LeafPtr, at_leaf, no_leaf, stray, ba_get_next_leaf}
use pentinum_os.Cstd.Math.{div_ceil, div_floor}

-- The node that a walk found is marked; the result of the setter is ignored unless it panics.
abbrev pub mark_found : (BaNode → NodePtr → Run) → BaNode → Walk → Run
mark_found mark t (Find.found p t' left) = mark t' p
mark_found mark t (Find.failed e) = done e t
mark_found mark t Find.fault = fault

-- `cnt -= 1 << node->order`: the setter may have merged the node with its buddy, and then there is
-- no node at the pointer.
abbrev pub next_count : (BaNode → ℕ → Run) → NodePtr → Run → Run
next_count rest p panic = panic
next_count rest p fault = fault
next_count rest p (done e t) = by_node (deref t p)
  where
    by_node : Option BaNode → Run
    by_node none = fault
    by_node (some u) = rest t (2 ^ order u)

-- The node that is marked next: the leaf itself, or its first page where it has too many.
abbrev pub mark_leaf : (BaNode → NodePtr → Run) → ℕ → BaNode → ℕ → LeafPtr → Run
mark_leaf mark cap t cnt (no_leaf e) = done e t
mark_leaf mark cap t cnt stray = fault
mark_leaf mark cap t cnt (at_leaf q) = by_node (deref t q)
  where
    by_node : Option BaNode → Run
    by_node none = fault
    by_node (some u) =
        if ltb cnt (2 ^ order u)
        then mark_found mark t (ba_find_node t (cap - pairs t) (address u) (some 0))
        else mark t q

-- `n` bounds the rounds; each marks a page at least.
unfoldable pub mark_loop : ℕ → ℕ → BaNode → NodePtr → ℕ → ℕ → Bool → Bool → Run
mark_loop n cap t p zero flag bypass fail_silently = done esuccess t
mark_loop zero cap t p (suc c) flag bypass fail_silently = fault
mark_loop (suc n) cap t p (suc c) flag bypass fail_silently =
    mark_leaf
      (λ t' q.
        next_count (λ t'' size. mark_loop n cap t'' q (suc c - size) flag bypass fail_silently) q
          (pnode_set_flags t' q flag bypass fail_silently))
      cap t (suc c) (ba_get_next_leaf t p)

abbrev pub and_then : (BaNode → Run) → Run → Run
and_then rest (done e t) = rest t
and_then rest panic = panic
and_then rest fault = fault

-- `cnt--` is not guarded: for no pages it wraps.
unfoldable pub ba_mark_pages : ℕ → BaNode → ℕ → ℕ → ℕ → Bool → Bool → Run
ba_mark_pages cap t page page_cnt flag bypass fail_silently =
    mark_found
      (λ t' p.
        and_then
          (λ t''.
            mark_loop (sub32 page_cnt 1) cap t'' p (sub32 page_cnt 1) flag bypass fail_silently)
          (pnode_set_flags t' p flag bypass fail_silently))
      t (ba_find_node t (cap - pairs t) page (some 0))

unfoldable pub ba_mark_stack : ℕ → BaNode → ℕ → ℕ → Run
ba_mark_stack cap t stack_bottom stack_top =
    let bottom = div_floor stack_bottom 4096 in
    let top = div_ceil stack_top 4096 in
    ba_mark_pages cap t bottom (sub32 top bottom) (bit_or pnode_on_ram pnode_used) false false
