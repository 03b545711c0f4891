-- ===== src/Pagemgr/Block.antt =====
-- The block of a leaf: its pages' flags, and the change of its status to PNODE_USED.
use pentinum_os.Base.{ℕ, ◌+◌, ◌/◌, ◌%◌, ◌≡◌, arith, true, false, some}
use pentinum_os.Base.Bits.{bit_and_step, bit_and-zero}
use pentinum_os.Buddy.Node.{BaNode, leaf, NodePtr, deref, pnode_free, pnode_used, pnode_on_ram}
use pentinum_os.Buddy.Node.Pages.{IsTree, pairs}
use pentinum_os.Buddy.Flags.{
  done, esuccess, pnode_validate_flags_update, pnode_set_status, set_masked_status,
}
use pentinum_os.Buddy.Flags.Update.{status_value}
use pentinum_os.Buddy.Flags.Setter.{after_status, set_status_run}
use pentinum_os.Buddy.Flags.Still.{deref-after, pairs-after}
use pentinum_os.Buddy.Search.{is_common}
use pentinum_os.Pagemgr.{search_modify}

-- What the search flags of `allocate_pages` match: PNODE_FREE and PNODE_ON_RAM.
abbrev pub IsFreeRam : ℕ → Type 0
IsFreeRam f = (f % 2 ≡ 1) × (f / 16 % 2 ≡ 1)

pub is_common-IsFreeRam :
    (f : ℕ) → is_common f (pnode_free + pnode_on_ram + search_modify) ≡ true → IsFreeRam f
is_common-IsFreeRam f h = ground (
  arith,
  h,
  bit_and_step f 17,
  bit_and_step (f / 2) 8,
  bit_and_step (f / 2 / 2) 4,
  bit_and_step (f / 2 / 2 / 2) 2,
  bit_and_step (f / 2 / 2 / 2 / 2) 1,
  bit_and-zero (f / 2 / 2 / 2 / 2 / 2),
)

-- `pnode_set_status` at a free leaf, to PNODE_USED.
module _ (t : BaNode) (p : NodePtr) (a f o : ℕ) (w : IsTree t) (e : deref t p ≡ some (leaf a f o))
    (free : f % 2 ≡ 1) where
  pub use_leaf :
      pnode_set_status t p pnode_used false false
      ≡ done esuccess (after_status t p pnode_used a f o w e)
  unfolding pnode_validate_flags_update
  use_leaf =
      set_status_run t p pnode_used a f o w e false false (ground (arith, free))
        (ground (arith, free)) (ground (arith, free))

  pub deref-used :
      deref (after_status t p pnode_used a f o w e) p
      ≡ some (leaf a (set_masked_status f pnode_used) o)
  deref-used = deref-after _ _ t p a f o e (ground (arith, status_value f pnode_used))

  pub pairs-used : pairs (after_status t p pnode_used a f o w e) ≡ pairs t
  pairs-used = pairs-after _ _ t p a f o e (ground (arith, status_value f pnode_used))
