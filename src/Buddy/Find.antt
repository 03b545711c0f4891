-- ===== src/Buddy/Find.antt =====
-- `ba_find_node` of c-kernel/syscore/mem/buddy.c: the walk from the root to the node of a page.
pub mod Page
pub mod Half
pub mod Leaf
use pentinum_os.Base.{
  Option, none, some, ◌-◌, ℕ, zero, suc, ◌+◌, ◌/◌, ◌%◌, ◌^◌, Bool, true, false, [], ◌∷◌, ◌==◌,
  if◌then◌else◌,
}
use pentinum_os.Buddy.Node.{BaNode, leaf, fork, NodePtr, ba_split_node, ba_make_child}

-- The walk ends at a node, with the tree as its splits have left it and the number of child pairs
-- that the heap has room for; or with an error code; or it goes on through the null `children` of a
-- node whose split got no memory, since ERR_CAST of a null pointer reads as ESUCCESS. An error code comes
-- without the splits of the rounds before it.
pub data Walk : Type 0 where
  found : NodePtr → BaNode → ℕ → Walk
  failed : ℕ → Walk
  fault : Walk

abbrev pub eunexpexec : ℕ
eunexpexec = 0x30

-- The walk below a child, seen from its parent.
abbrev pub below_left : ℕ → ℕ → ℕ → BaNode → Walk → Walk
below_left a f o r (found p l room) = found (false ∷ p) (fork a f o l r) room
below_left a f o r (failed e) = failed e
below_left a f o r fault = fault

abbrev pub below_right : ℕ → ℕ → ℕ → BaNode → Walk → Walk
below_right a f o l (found p r room) = found (true ∷ p) (fork a f o l r) room
below_right a f o l (failed e) = failed e
below_right a f o l fault = fault

-- One round of the loop at a node with children: `bit` is `address & ((1 << order) >> 1)`, as 0 or 1.
abbrev pub choose : ℕ → (BaNode → Walk) → BaNode → Walk
choose bit walk (leaf a f o) = fault
choose bit walk (fork a f o l r) = elim (bit == 1) [
  | true ↦ below_right a f o l (walk r)
  | false ↦ below_left a f o r (walk l)
]

-- A split that gets no memory leaves `children` null, and the walk goes on to `&children[0]` or
-- `&children[1]`: a round that is left reads through it; after the last one the pointer itself, 0 or 16,
-- is the result, which a caller reads as an error code.
abbrev pub sizeof_ba_node : ℕ
sizeof_ba_node = 16

abbrev pub unsplit : ℕ → ℕ → Walk
unsplit zero bit = failed (if bit == 1 then sizeof_ba_node else 0)
unsplit (suc n) bit = fault

-- `n` rounds are left; the loop variable `order` is `req + n`.
unfoldable pub find_down : ℕ → Bool → ℕ → ℕ → ℕ → BaNode → Walk
find_down zero true req addr room t = found [] t room
find_down zero false req addr room t = failed eunexpexec
find_down (suc n) false req addr room (leaf a f o) = found [] (leaf a f o) room
find_down (suc n) true req addr zero (leaf a f o) = unsplit n (addr / 2 ^ (req + n) % 2)
find_down (suc n) true req addr (suc room) (leaf a f o) =
    choose (addr / 2 ^ (req + n) % 2) (find_down n true req addr room) (ba_split_node (leaf a f o))
find_down (suc n) can_split req addr room (fork a f o l r) =
    choose (addr / 2 ^ (req + n) % 2) (find_down n can_split req addr room) (fork a f o l r)

abbrev pub ba_max_order : ℕ
ba_max_order = 20

-- `req_order` is the order to split to, or `none` for a negative one, which forbids splits.
unfoldable pub ba_find_node : BaNode → ℕ → ℕ → Option ℕ → Walk
unfolding find_down
ba_find_node root room address none = find_down ba_max_order false 0 address room root
ba_find_node root room address (some req) =
    find_down (ba_max_order - req) true req address room root
