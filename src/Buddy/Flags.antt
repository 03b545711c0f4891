-- ===== src/Buddy/Flags.antt =====
-- The updates of a node's flags: `pnode_validate_flags_update`, `pnode_set_flags`,
-- `pnode_set_status`, `pnode_set_mapping` and `pnode_repair_tree` of c-kernel/syscore/mem/buddy.c.
pub mod Repair
pub mod Setter
pub mod Update
pub mod Still
pub mod Upwards
use pentinum_os.Base.{
  ℕ, ◌+◌, ◌-◌, ◌*◌, ◌/◌, ◌%◌, bit_or, Bool, true, false, not, ◌&&◌, Option, none, some, List, [],
  ◌∷◌, if◌then◌else◌, ◌==◌, ltb,
}
use pentinum_os.Buddy.Node.{
  BaNode, leaf, fork, address, flags, order, NodePtr, deref, ba_status, ba_mapping, ba_flags,
  pnode_free, pnode_used, pnode_blocked,
}

-- `SET_MASKED_FLAGS(mask, value, flags)` at PNODE_FLAG_MASK, PNODE_STATUS_MASK and PNODE_MAP_MASK.
abbrev pub set_masked_flags : ℕ → ℕ → ℕ
set_masked_flags value new = bit_or (value / 128 * 128) (ba_flags new)

abbrev pub set_masked_status : ℕ → ℕ → ℕ
set_masked_status value new = bit_or (value / 8 * 8) (ba_status new)

abbrev pub set_masked_mapping : ℕ → ℕ → ℕ
set_masked_mapping value new = bit_or (value - ba_mapping value) (ba_mapping new)

unfoldable pub pnode_validate_flags_update : ℕ → ℕ → Bool → Bool
pnode_validate_flags_update target new bypass =
    let is_status_upgrading = ltb (ba_status new) (ba_status target) in
    let is_blocked = ba_status target == pnode_blocked in
    let is_used = ba_status target == pnode_used in
    let is_mapping_updating = not (ba_mapping target == ba_mapping new) in
    if target == new
    then true
    else if is_used && is_mapping_updating
    then is_status_upgrading && bypass
    else if bypass
    then true
    else if is_blocked
    then is_mapping_updating
    else true

-- The write at the target, and the walk that joins the children's flags in each ancestor.
unfoldable pub set_upwards : (ℕ → ℕ) → (ℕ → ℕ → ℕ → ℕ) → BaNode → NodePtr → BaNode
set_upwards update join (leaf a f o) [] = leaf a (update f) o
set_upwards update join (fork a f o l r) [] = fork a (update f) o l r
set_upwards update join (leaf a f o) (b ∷ p) = leaf a f o
set_upwards update join (fork a f o l r) (false ∷ p) =
    let l' = set_upwards update join l p in fork a (join f (flags l') (flags r)) o l' r
set_upwards update join (fork a f o l r) (true ∷ p) =
    let r' = set_upwards update join r p in fork a (join f (flags l) (flags r')) o l r'

-- Both children are free leaves with the same flags: they are freed and the node becomes a leaf.
unfoldable pub merge : BaNode → BaNode
merge (fork a f o (leaf a1 f1 o1) (leaf a2 f2 o2)) =
    if (ba_flags f1 == ba_flags f2) && (ba_status f1 == pnode_free)
    then leaf a f o
    else fork a f o (leaf a1 f1 o1) (leaf a2 f2 o2)
merge t = t

-- The ancestors of the target are merged from its parent up.
unfoldable pub pnode_repair_tree : BaNode → NodePtr → BaNode
unfolding merge
pnode_repair_tree t [] = t
pnode_repair_tree (leaf a f o) (b ∷ p) = leaf a f o
pnode_repair_tree (fork a f o l r) (false ∷ p) = merge (fork a f o (pnode_repair_tree l p) r)
pnode_repair_tree (fork a f o l r) (true ∷ p) = merge (fork a f o l (pnode_repair_tree r p))

abbrev pub esuccess : ℕ
esuccess = 0x0

abbrev pub einval : ℕ
einval = 0x23

-- What a call ends with: an error code and the tree, a kernel panic, which does not return, or an
-- access through a pointer that leads nowhere.
pub data Run : Type 0 where
  done : ℕ → BaNode → Run
  panic : Run
  fault : Run

-- The guard that the three setters share, before their own work on the target's flags.
abbrev pub checked : Option BaNode → BaNode → ℕ → Bool → Bool → (ℕ → Run) → Run
checked none t flag bypass fail_silently act = fault
checked (some u) t flag bypass fail_silently act =
    if pnode_validate_flags_update (flags u) flag bypass
    then act (flags u)
    else if fail_silently
    then done einval t
    else panic

unfoldable pub pnode_set_flags : BaNode → NodePtr → ℕ → Bool → Bool → Run
pnode_set_flags t p flag bypass fail_silently =
    checked (deref t p) t flag bypass fail_silently (λ f. done esuccess (
      pnode_repair_tree
        (set_upwards (λ v. set_masked_flags v flag) (λ v l r. set_masked_flags v (bit_or l r)) t p)
        p))

unfoldable pub pnode_set_status : BaNode → NodePtr → ℕ → Bool → Bool → Run
pnode_set_status t p flag bypass fail_silently =
    checked (deref t p) t flag bypass fail_silently (λ f.
      if ba_status f == pnode_blocked
      then done einval t
      else if ba_status f == ba_status flag
      then done einval t
      else done esuccess (
          pnode_repair_tree
            (set_upwards (λ v. set_masked_status v flag)
              (λ v l r. set_masked_status v (bit_or (ba_status l) (ba_status r))) t p)
            p))

-- The test against PNODE_BLOCKED is the source's; a mapping never has that value.
unfoldable pub pnode_set_mapping : BaNode → NodePtr → ℕ → Bool → Bool → Run
pnode_set_mapping t p flag bypass fail_silently =
    checked (deref t p) t flag bypass fail_silently (λ f.
      if ba_mapping f == pnode_blocked
      then done einval t
      else if ba_mapping f == ba_mapping flag
      then done einval t
      else done esuccess (
          pnode_repair_tree
            (set_upwards (λ v. set_masked_mapping v flag)
              (λ v l r. set_masked_mapping v (bit_or (ba_mapping l) (ba_mapping r))) t p)
            p))
