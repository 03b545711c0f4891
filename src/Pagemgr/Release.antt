-- ===== src/Pagemgr/Release.antt =====
-- What `free_pages` does with a block that is in use.
use native.Mathlib.Nat.{one-le-pow, pow-le-pow_right, pow-suc, mul-mod_left}
use mathlib.Core.Path.{subst}
use pentinum_os.Base.{
  ℕ, suc, ◌+◌, ◌-◌, ◌*◌, ◌/◌, ◌%◌, ◌^◌, ◌≤◌, ◌≡◌, refl, ap, ◌∙◌, sym, arith, true, false, some,
  ◌==◌, ltb, Bool-cases, inl, inr, if◌then◌else◌,
}
use pentinum_os.Buddy.Node.{
  BaNode, leaf, address, order, NodePtr, deref, ba_status, ba_mapping, pnode_free, pnode_used,
  pnode_unmapped, pnode_on_ram,
}
use pentinum_os.Buddy.Node.Pages.{IsTree, pairs, deref-inside}
use pentinum_os.Buddy.Flags.{
  Run, done, panic, esuccess, pnode_validate_flags_update, pnode_set_flags, set_masked_status,
}
use pentinum_os.Buddy.Flags.Setter.{
  Marked, after_status, after_status-Marked, set_status_run, pnode_set_flags-Marked,
}
use pentinum_os.Buddy.Find.{ba_find_node}
use pentinum_os.Buddy.Find.Leaf.{ba_find_node-leaf, order-deref, deref-IsAligned}
use pentinum_os.Pagemgr.{
  info_of, is_power, get_highest_setbit_loc, free_pages, free_found, free_node,
}
use pentinum_os.Pagemgr.Order.{IsTop, get_highest_setbit_loc-IsTop, is_power-IsTop}

-- The highest bit of a power of two.
IsTop-pow : (j k : ℕ) → IsTop (2 ^ k) j → j ≡ k
IsTop-pow j k top = elim (Bool-cases (ltb j k)) [
  | inl below ↦
      absurd
        (omega (arith, pow-le-pow_right {n = 2} (omega arith) {i = suc j} {j = k} (ground arith)))
  | inr other ↦ elim (Bool-cases (ltb k j)) [
    | inl above ↦ absurd (
        omega (
          arith,
          pow-le-pow_right {n = 2} (omega arith) {i = suc k} {j = j} (ground arith),
          pow-suc 2 k,
          one-le-pow k 2 (omega arith),
        ))
    | inr same ↦ ground arith
  ]
]

pub get_highest_setbit_loc-pow :
    (k : ℕ) → k ≤ 20 → (get_highest_setbit_loc (2 ^ k) ≡ some (suc k)) × (is_power (2 ^ k) ≡ true)
get_highest_setbit_loc-pow k small =
    let pos = one-le-pow k 2 (omega arith) in
    let word : 2 ^ k ≤ 2 ^ 20 = pow-le-pow_right {n = 2} (omega arith) small in
    let (j, loc, bound, top) = get_highest_setbit_loc-IsTop (2 ^ k) pos (omega arith) in
    let same = IsTop-pow j k top in
    let test = is_power-IsTop (2 ^ k) j pos (omega arith) top in
    (
      loc ∙ ap (λ n. some (suc n)) same,
      elim (Bool-cases (is_power (2 ^ k))) [
        | inl power ↦ power
        | inr other ↦ absurd (test.1 other (ap (λ n. 2 ^ n) (sym same)))
      ],
    )

-- The flags of the pages that `free_pages` frees.
abbrev pub freed : ℕ → ℕ
freed f =
    if ba_mapping f == pnode_on_ram
    then set_masked_status f pnode_free
    else pnode_free + pnode_unmapped

-- The end of `free_pages` at a leaf.
module _ (t : BaNode) (p : NodePtr) (a f k : ℕ) (w : IsTree t)
    (e : deref t p ≡ some (leaf a f k)) where
  abbrev pub Frees : Run → Type 0
  Frees out =
      if ba_status f == pnode_used
      then ((t' : BaNode) × (out ≡ done esuccess t') × Marked t (freed f) a k t')
      else (out ≡ panic)

  free_node-Frees : Frees (free_node p (some (leaf a f k)) t)
  unfolding pnode_validate_flags_update
  free_node-Frees = elim (Bool-cases (ba_status f == pnode_used)) [
    | inr idle ↦ rw idle refl
    | inl used ↦ elim (Bool-cases (ba_mapping f == pnode_on_ram)) [
      | inl ram ↦
          let run =
            set_status_run t p pnode_free a f k w e true false (ground (arith, used))
              (ground (arith, used)) (ground (arith, used)) in
          rw (used, ram, run)
            (
              after_status t p pnode_free a f k w e,
              refl,
              after_status-Marked t p pnode_free a f k w e,
            )
      | inr mapped ↦
          let valid : pnode_validate_flags_update f (pnode_free + pnode_unmapped) true ≡ true =
            ground (arith, used) in
          let (t', run, marked) = set_flags-valid valid in rw (used, mapped, run) (t', refl, marked)
    ]
  ]
    where
      set_flags-valid :
          pnode_validate_flags_update f (pnode_free + pnode_unmapped) true ≡ true
          → (t' : BaNode) × (pnode_set_flags t p (pnode_free + pnode_unmapped) true false
              ≡ done esuccess t')
            × Marked t (pnode_free + pnode_unmapped) a k t'
      set_flags-valid valid =
          subst
            (λ b.
              if b
              then ((t' : BaNode) × (pnode_set_flags t p (pnode_free + pnode_unmapped) true false
                    ≡ done esuccess t')
                  × Marked t (pnode_free + pnode_unmapped) a k t')
              else (pnode_set_flags t p (pnode_free + pnode_unmapped) true false ≡ panic))
            valid (pnode_set_flags-Marked t p (pnode_free + pnode_unmapped) a f k true false w e)

-- The call on a block of `2 ^ k` pages at a multiple of its size, as an allocator describes it, walks to
-- the block.
pub free_pages_walks :
    (cap : ℕ) (t : BaNode) (a f k m : ℕ)
    → k ≤ 20
    → a + 2 ^ k ≤ 2 ^ 20
    → a ≡ m * 2 ^ k
    → free_pages cap t (some (info_of (leaf a f k)))
      ≡ free_found t (ba_find_node t (cap - pairs t) a (some k))
unfolding free_pages
free_pages_walks cap t a f k m small inside aligned =
    let pos = one-le-pow k 2 (omega arith) in
    let (loc, power) = get_highest_setbit_loc-pow k small in
    let memory : a * 4096 % 2 ^ 32 ≡ a * 4096 = omega (arith, inside, pos) in
    let page : a * 4096 / 4096 ≡ a = omega arith in
    let count : (2 ^ k == 0) ≡ false = ground (arith, pos) in
    let multiple : a * 4096 ≡ m * 4096 * 2 ^ k = omega (arith, aligned) in
    let divides : a * 4096 % 2 ^ k ≡ 0 =
      ap (λ n. n % 2 ^ k) multiple ∙ mul-mod_left (m * 4096) (2 ^ k) in
    let down : suc k - 1 ≡ k = omega arith in
    rw (memory, count, power, divides, loc, page, down) refl

-- On an intact tree of all pages, `free_pages` of the block of a leaf, as an allocator describes it:
-- if the leaf is in use, the call succeeds, the tree stays intact, the block's pages are free, on RAM
-- if they were, else unmapped, and no other page changes; if the leaf is not in use, the call panics.
pub free_pages-Frees :
    (cap : ℕ) (t : BaNode) (p : NodePtr) (a f k : ℕ) (w : IsTree t)
    → address t ≡ 0
    → order t ≡ 20
    → (e : deref t p ≡ some (leaf a f k))
    → Frees t p a f k w e (free_pages cap t (some (info_of (leaf a f k))))
free_pages-Frees cap t p a f k w start top e =
    let (m, aligned) = deref-IsAligned t p a f k w start top e in
    let inside = deref-inside t p (leaf a f k) w e in
    let root_size : 2 ^ order t ≡ 2 ^ 20 = ap (λ n. 2 ^ n) top in
    let walks =
      free_pages_walks cap t a f k m (omega (arith, order-deref t p (leaf a f k) w e))
        (omega (arith, inside, root_size, start)) aligned in
    let find = ba_find_node-leaf t (cap - pairs t) p a f k w start top e in
    rw (walks, find, e) (free_node-Frees t p a f k w e)
