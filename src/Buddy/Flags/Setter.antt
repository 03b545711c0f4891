-- ===== src/Buddy/Flags/Setter.antt =====
-- `pnode_set_flags` and `pnode_set_status` at a leaf, on every branch.
use pentinum_os.Base.{
  ℕ, ◌≡◌, refl, ap, ◌∙◌, if◌then◌else◌, Bool, true, false, ◌||◌, ◌==◌, some, Bool-cases, inl, inr,
}
use pentinum_os.Buddy.Node.{
  BaNode, leaf, address, order, NodePtr, deref, ba_flags, ba_status, pnode_blocked,
}
use pentinum_os.Buddy.Node.Pages.{page_flags, IsTree, Holds, deref-IsTree}
use pentinum_os.Buddy.Flags.{
  Run, done, panic, esuccess, einval, pnode_validate_flags_update, pnode_repair_tree,
  pnode_set_flags, pnode_set_status, set_masked_status, checked,
}
use pentinum_os.Buddy.Flags.Repair.{pnode_repair_tree-Keeps}
use pentinum_os.Buddy.Flags.Upwards.{in_block}
use pentinum_os.Buddy.Flags.Update.{
  set_all, page_flags-set_all, set_all-IsTree, set_all_shape, set_all_status,
  page_flags-set_all_status, set_all_status-IsTree, set_all_status_shape,
}

-- The tree after an update of the leaf at `a`: its pages have the new flags, all others their own.
pub record Marked (t : BaNode) (flag a o : ℕ) (t' : BaNode) : Type 0 where
  pub tree : IsTree t'
  pub same_address : address t' ≡ address t
  pub same_order : order t' ≡ order t
  pub pages :
      (q : ℕ)
      → Holds t q
      → page_flags t' q ≡ (if in_block a o q then ba_flags flag else page_flags t q)

module _ (t : BaNode) (p : NodePtr) (flag a f o : ℕ) (w : IsTree t)
    (at_leaf : deref t p ≡ some (leaf a f o)) where
  abbrev pub after : BaNode
  after = pnode_repair_tree (set_all flag t p) p

  abbrev pub after_status : BaNode
  after_status = pnode_repair_tree (set_all_status flag t p) p

  pub after-Marked : Marked t flag a o after
  after-Marked =
      let k =
        pnode_repair_tree-Keeps (set_all flag t p) p (set_all-IsTree flag a f o t p w at_leaf) in
      record {
        tree = k.tree;
        same_address = k.same_address ∙ (set_all_shape flag t p).0;
        same_order = k.same_order ∙ (set_all_shape flag t p).1;
        pages = λ q h.
            k.pages q
            ∙ page_flags-set_all flag a f o t p q (deref-IsTree t p (leaf a f o) w at_leaf) w
                at_leaf h;
      }

  pub after_status-Marked : Marked t (set_masked_status f flag) a o after_status
  after_status-Marked =
      let k =
        pnode_repair_tree-Keeps (set_all_status flag t p) p
          (set_all_status-IsTree flag a f o t p w at_leaf) in
      record {
        tree = k.tree;
        same_address = k.same_address ∙ (set_all_status_shape flag t p).0;
        same_order = k.same_order ∙ (set_all_status_shape flag t p).1;
        pages = λ q h. k.pages q ∙ page_flags-set_all_status flag a f o t p q w at_leaf h;
      }

  -- A valid change of the status of a leaf that is not blocked.
  pub set_status_run :
      (bypass quiet : Bool)
      → pnode_validate_flags_update f flag bypass ≡ true
      → (ba_status f == pnode_blocked) ≡ false
      → (ba_status f == ba_status flag) ≡ false
      → pnode_set_status t p flag bypass quiet ≡ done esuccess after_status
  unfolding pnode_set_status
  set_status_run bypass quiet valid other differs = rw (at_leaf, valid, other, differs) refl

  set_flags_cases :
      (bypass quiet : Bool)
      → pnode_set_flags t p flag bypass quiet ≡ (
          if pnode_validate_flags_update f flag bypass
          then done esuccess after
          else if quiet
          then done einval t
          else panic)
  unfolding pnode_set_flags
  set_flags_cases bypass quiet =
      ap (λ target. checked target t flag bypass quiet (λ v. done esuccess after)) at_leaf

  -- A valid update.
  pub set_flags_run :
      (bypass quiet : Bool)
      → pnode_validate_flags_update f flag bypass ≡ true
      → pnode_set_flags t p flag bypass quiet ≡ done esuccess after
  set_flags_run bypass quiet valid = rw (set_flags_cases bypass quiet, valid) refl

-- On an intact tree and a pointer to one of its leaves: if the update is valid, `pnode_set_flags`
-- succeeds, the tree stays intact, the leaf's pages have the new flags and no other page changes;
-- if it is not, the call returns EINVAL and changes nothing, or panics where it may not fail
-- silently.
pub pnode_set_flags-Marked :
    (t : BaNode) (p : NodePtr) (flag a f o : ℕ) (bypass quiet : Bool)
    → IsTree t
    → deref t p ≡ some (leaf a f o)
    → if pnode_validate_flags_update f flag bypass
      then ((t' : BaNode) × (pnode_set_flags t p flag bypass quiet ≡ done esuccess t')
          × Marked t flag a o t')
      else (pnode_set_flags t p flag bypass quiet ≡ (if quiet then done einval t else panic))
pnode_set_flags-Marked t p flag a f o bypass quiet w e =
    elim (Bool-cases (pnode_validate_flags_update f flag bypass)) [
      | inl valid ↦
          rw (set_flags_cases t p flag a f o w e bypass quiet, valid)
            (after t p flag a f o w e, refl, after-Marked t p flag a f o w e)
      | inr bad ↦ rw (set_flags_cases t p flag a f o w e bypass quiet, bad)
    ]

-- What `pnode_set_status` does to a leaf's flags `f`, once the update is valid.
abbrev pub StatusSet : BaNode → NodePtr → ℕ → ℕ → ℕ → ℕ → Run → Type 0
StatusSet t p flag a f o out =
    if (ba_status f == pnode_blocked) || (ba_status f == ba_status flag)
    then (out ≡ done einval t)
    else ((t' : BaNode) × (out ≡ done esuccess t') × Marked t (set_masked_status f flag) a o t')

-- On an intact tree and a pointer to one of its leaves: if the update is valid and changes the
-- status of a leaf that is not blocked, `pnode_set_status` succeeds, the tree stays intact, the
-- leaf's pages have the new status with the mapping they had, and no other page changes. Otherwise
-- the call returns EINVAL and changes nothing, or panics where the update is not valid and may not
-- fail silently.
pub pnode_set_status-Marked :
    (t : BaNode) (p : NodePtr) (flag a f o : ℕ) (bypass quiet : Bool)
    → IsTree t
    → deref t p ≡ some (leaf a f o)
    → if pnode_validate_flags_update f flag bypass
      then StatusSet t p flag a f o (pnode_set_status t p flag bypass quiet)
      else (pnode_set_status t p flag bypass quiet ≡ (if quiet then done einval t else panic))
unfolding pnode_set_status
pnode_set_status-Marked t p flag a f o bypass quiet w e =
    elim (Bool-cases (pnode_validate_flags_update f flag bypass)) [
      | inr bad ↦ rw (e, bad) refl
      | inl valid ↦ elim (Bool-cases (ba_status f == pnode_blocked)) [
        | inl blocked ↦ rw (e, valid, blocked) refl
        | inr other ↦ elim (Bool-cases (ba_status f == ba_status flag)) [
          | inl same ↦ rw (e, valid, other, same) refl
          | inr differs ↦
              rw (e, valid, other, differs)
                (after_status t p flag a f o w e, refl, after_status-Marked t p flag a f o w e)
        ]
      ]
    ]
