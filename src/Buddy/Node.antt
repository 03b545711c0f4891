-- ===== src/Buddy/Node.antt =====
-- `ba_node_t`: a binary tree of blocks of pages. A node pointer is the path that leads to the node
-- from the root, so `parent` is the path without its last step; `children` is null at a leaf.
-- Both children of a node are allocated together, from a heap of their own that has room for a
-- limited number of such pairs.
pub mod Pages
use pentinum_os.Base.{
  ℕ, zero, suc, ◌+◌, ◌-◌, ◌*◌, ◌/◌, ◌%◌, ◌^◌, bit_or, Bool, true, false, Option, none, some, List,
  [], ◌∷◌, if◌then◌else◌,
}

pub data BaNode : Type 0 where
  leaf : ℕ → ℕ → ℕ → BaNode
  fork : ℕ → ℕ → ℕ → BaNode → BaNode → BaNode

abbrev pub address : BaNode → ℕ
address (leaf a f o) = a
address (fork a f o l r) = a

abbrev pub flags : BaNode → ℕ
flags (leaf a f o) = f
flags (fork a f o l r) = f

abbrev pub order : BaNode → ℕ
order (leaf a f o) = o
order (fork a f o l r) = o

-- `BA_IS_LEAF`
abbrev pub is_leaf : BaNode → Bool
is_leaf (leaf a f o) = true
is_leaf (fork a f o l r) = false

abbrev pub NodePtr : Type 0
NodePtr = List Bool

-- `*p`; `none` where the path leaves the tree.
abbrev pub deref : BaNode → NodePtr → Option BaNode
deref t [] = some t
deref (leaf a f o) (b ∷ p) = none
deref (fork a f o l r) (false ∷ p) = deref l p
deref (fork a f o l r) (true ∷ p) = deref r p

-- `flags & PNODE_STATUS_MASK`, `flags & PNODE_MAP_MASK` and `flags & PNODE_FLAG_MASK`: bits 0 to 2,
-- bits 3 to 6 and both. Bit 7 is PNODE_BUDDY_OFFSET_NEGATIVE, which is left by `~PNODE_FLAG_MASK`.
abbrev pub ba_status : ℕ → ℕ
ba_status f = f % 8

abbrev pub ba_mapping : ℕ → ℕ
ba_mapping f = f / 8 % 16 * 8

abbrev pub ba_flags : ℕ → ℕ
ba_flags f = f % 128

abbrev pub buddy_bit : ℕ → ℕ
buddy_bit f = f / 128 % 2 * 128

-- PNODE_FREE, PNODE_USED, PNODE_BLOCKED; PNODE_UNMAPPED, PNODE_ON_RAM, PNODE_IO_MAPPED, PNODE_BLK_MAPPED
abbrev pub pnode_free : ℕ
pnode_free = 0x01

abbrev pub pnode_used : ℕ
pnode_used = 0x02

abbrev pub pnode_blocked : ℕ
pnode_blocked = 0x04

abbrev pub pnode_unmapped : ℕ
pnode_unmapped = 0x08

abbrev pub pnode_on_ram : ℕ
pnode_on_ram = 0x10

abbrev pub pnode_io_mapped : ℕ
pnode_io_mapped = 0x20

abbrev pub pnode_blk_mapped : ℕ
pnode_blk_mapped = 0x40

-- `ba_make_child` at child index 0 (`false`) and 1 (`true`).
unfoldable pub ba_make_child : BaNode → Bool → BaNode
ba_make_child parent idx =
    leaf (address parent + (if idx then 2 ^ (order parent - 1) else 0))
      (bit_or (ba_flags (flags parent)) (if idx then 128 else 0)) (order parent - 1)

-- `ba_split_node`, when its `malloc` returns memory.
unfoldable pub ba_split_node : BaNode → BaNode
ba_split_node t =
    fork (address t) (flags t) (order t) (ba_make_child t false) (ba_make_child t true)
