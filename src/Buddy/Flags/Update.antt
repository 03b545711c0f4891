-- ===== src/Buddy/Flags/Update.antt =====
-- The updates of `pnode_set_flags` and `pnode_set_status`, joined upwards.
use pentinum_os.Base.{
  ℕ, ◌+◌, ◌*◌, ◌/◌, ◌%◌, ◌<◌, ◌≡◌, ap, ◌∙◌, refl, bit_or, arith, if◌then◌else◌, some,
}
use pentinum_os.Base.Bits.{or_low, or_status, OrMod-page_flags, OrMod-eight}
use pentinum_os.Base.Masks.{or_mapping}
use pentinum_os.Buddy.Node.{BaNode, leaf, address, order, NodePtr, deref, ba_flags, ba_status}
use pentinum_os.Buddy.Node.Pages.{page_flags, IsTree, Holds}
use pentinum_os.Buddy.Flags.{set_masked_flags, set_masked_status, set_upwards}
use pentinum_os.Buddy.Flags.Upwards.{
  in_block, Joins, set_upwards_shape, page_flags-set_upwards, set_upwards-IsTree,
}

-- A write under the page mask keeps the buddy bit.
pub flags_value : (v new : ℕ) → v < 256 → (set_masked_flags v new ≡ v / 128 * 128 + new % 128)
flags_value v new h =
    ap (λ t. bit_or t (new % 128)) (omega arith)
    ∙ or_low (v / 128) (new % 128) (omega arith)
    ∙ omega arith

abbrev Nothing : ℕ → ℕ → Type 0
Nothing v new = Unit

Joins-flags : (v l r : ℕ) → v < 256 → Joins Nothing v l r (set_masked_flags v (bit_or l r))
Joins-flags v l r h =
    let value = flags_value v (bit_or l r) h in
    (omega (arith, value), omega (arith, value), omega (arith, value, OrMod-page_flags l r), tt)

abbrev pub set_all : ℕ → BaNode → NodePtr → BaNode
set_all flag = set_upwards (λ v. set_masked_flags v flag) (λ v l r. set_masked_flags v (bit_or l r))

pub set_all_shape :
    (flag : ℕ) (t : BaNode) (p : NodePtr)
    → (address (set_all flag t p) ≡ address t) × (order (set_all flag t p) ≡ order t)
set_all_shape flag = set_upwards_shape _ _ Nothing

pub page_flags-set_all :
    (flag a f o : ℕ) (t : BaNode) (p : NodePtr) (q : ℕ)
    → f < 256
    → IsTree t
    → deref t p ≡ some (leaf a f o)
    → Holds t q
    → page_flags (set_all flag t p) q ≡ (if in_block a o q then ba_flags flag else page_flags t q)
page_flags-set_all flag a f o t p q small w e h =
    let value : ba_flags (set_masked_flags f flag) ≡ ba_flags flag =
      omega (arith, flags_value f flag small) in
    page_flags-set_upwards _ _ Nothing a f o t p q w e h
    ∙ ap (λ x. if in_block a o q then x else page_flags t q) value

pub set_all-IsTree :
    (flag a f o : ℕ) (t : BaNode) (p : NodePtr)
    → IsTree t
    → deref t p ≡ some (leaf a f o)
    → IsTree (set_all flag t p)
set_all-IsTree flag a f o t p w e =
    (set_upwards-IsTree _ _ Nothing
      (λ v small.
        let value = flags_value v flag small in (omega (arith, value), omega (arith, value), tt))
      (λ v l l' r small b s. Joins-flags v l' r small)
      (λ v l r r' small b s. Joins-flags v l r' small) a f o t p w e).0

-- A write under the status mask keeps the mapping and the buddy bit.
pub status_value : (v new : ℕ) → (set_masked_status v new ≡ v / 8 * 8 + new % 8)
status_value v new =
    ap (λ t. bit_or t (new % 8)) (omega arith)
    ∙ or_status (v / 8) (new % 8) (omega arith)
    ∙ omega arith

abbrev SameMapping : ℕ → ℕ → Type 0
SameMapping v new = v / 8 % 16 ≡ new / 8 % 16

Joins-status :
    (v l r l' r' : ℕ)
    → v < 256
    → ba_flags v ≡ bit_or (ba_flags l) (ba_flags r)
    → SameMapping l l'
    → SameMapping r r'
    → Joins SameMapping v l' r' (set_masked_status v (bit_or (ba_status l') (ba_status r')))
Joins-status v l r l' r' h join x y =
    let value = status_value v (bit_or (ba_status l') (ba_status r')) in
    let old = or_mapping l r in
    let new = or_mapping l' r' in
    let same : bit_or (l / 8 % 16) (r / 8 % 16) ≡ bit_or (l' / 8 % 16) (r' / 8 % 16) =
      rw (x, y) refl in
    let status = OrMod-eight l' r' in
    let twice : bit_or (l' % 8) (r' % 8) % 8 ≡ bit_or (l' % 8) (r' % 8) = omega arith in
    (
      omega (arith, value),
      omega (arith, value),
      omega (arith, value, OrMod-page_flags l r, OrMod-page_flags l' r', old, new, same, status),
      omega (arith, value),
    )

abbrev pub set_all_status : ℕ → BaNode → NodePtr → BaNode
set_all_status flag =
    set_upwards (λ v. set_masked_status v flag)
      (λ v l r. set_masked_status v (bit_or (ba_status l) (ba_status r)))

pub set_all_status_shape :
    (flag : ℕ) (t : BaNode) (p : NodePtr)
    → (address (set_all_status flag t p) ≡ address t) × (order (set_all_status flag t p) ≡ order t)
set_all_status_shape flag = set_upwards_shape _ _ SameMapping

pub set_all_status-IsTree :
    (flag a f o : ℕ) (t : BaNode) (p : NodePtr)
    → IsTree t
    → deref t p ≡ some (leaf a f o)
    → IsTree (set_all_status flag t p)
set_all_status-IsTree flag a f o t p w e =
    (set_upwards-IsTree _ _ SameMapping
      (λ v small.
        let value = status_value v flag in
        (omega (arith, value), omega (arith, value), omega (arith, value)))
      (λ v l l' r small b s. Joins-status v l r l' r small b s refl)
      (λ v l r r' small b s. Joins-status v l r l r' small b refl s) a f o t p w e).0

pub page_flags-set_all_status :
    (flag a f o : ℕ) (t : BaNode) (p : NodePtr) (q : ℕ)
    → IsTree t
    → deref t p ≡ some (leaf a f o)
    → Holds t q
    → page_flags (set_all_status flag t p) q
      ≡ (if in_block a o q then ba_flags (set_masked_status f flag) else page_flags t q)
page_flags-set_all_status flag = page_flags-set_upwards _ _ SameMapping
