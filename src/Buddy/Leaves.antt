-- ===== src/Buddy/Leaves.antt =====
-- `ba_get_min_leaf`, `ba_get_next_leaf`, `ba_get_max_leaf` and `ba_get_prev_leaf` of
-- c-kernel/syscore/mem/buddy.c: the walk over the leaves in the order of their addresses.
pub mod Neighbour
use pentinum_os.Base.{ℕ, ◌/◌, ◌%◌, Bool, true, false, List, [], ◌∷◌, if◌then◌else◌, ◌==◌}
use pentinum_os.Buddy.Node.{BaNode, leaf, fork, NodePtr}

unfoldable pub ba_get_min_leaf : BaNode → NodePtr
ba_get_min_leaf (leaf a f o) = []
ba_get_min_leaf (fork a f o l r) = false ∷ ba_get_min_leaf l

unfoldable pub ba_get_max_leaf : BaNode → NodePtr
ba_get_max_leaf (leaf a f o) = []
ba_get_max_leaf (fork a f o l r) = true ∷ ba_get_max_leaf r

-- The way up from a leaf, seen from a node on it: the loop is to go on at the node's parent, or it
-- has ended at the node and turns to the parent's other child, or it has turned below; or the
-- pointer leads nowhere.
pub data Climb : Type 0 where
  rising : Climb
  turning : Climb
  turned : NodePtr → Climb
  lost : Climb

-- `flags & PNODE_BUDDY_OFFSET_NEGATIVE`
abbrev pub is_second : ℕ → Bool
is_second f = f / 128 % 2 == 1

-- The test of the loop of `ba_get_next_leaf` at a node, and of `ba_get_prev_leaf`.
abbrev pub test_next : ℕ → Climb
test_next f = if is_second f then rising else turning

abbrev pub test_prev : ℕ → Climb
test_prev f = if is_second f then turning else rising

-- The step from a child to its parent.
abbrev pub to_parent : Climb → NodePtr → Bool → Climb → Climb
to_parent test other b rising = test
to_parent test other b turning = turned other
to_parent test other b (turned p) = turned (b ∷ p)
to_parent test other b lost = lost

unfoldable pub climb_next : BaNode → NodePtr → Climb
climb_next (leaf a f o) [] = test_next f
climb_next (fork a f o l r) [] = test_next f
climb_next (leaf a f o) (b ∷ p) = lost
climb_next (fork a f o l r) (false ∷ p) =
    to_parent (test_next f) (true ∷ ba_get_min_leaf r) false (climb_next l p)
climb_next (fork a f o l r) (true ∷ p) =
    to_parent (test_next f) (true ∷ ba_get_min_leaf r) true (climb_next r p)

unfoldable pub climb_prev : BaNode → NodePtr → Climb
climb_prev (leaf a f o) [] = test_prev f
climb_prev (fork a f o l r) [] = test_prev f
climb_prev (leaf a f o) (b ∷ p) = lost
climb_prev (fork a f o l r) (false ∷ p) =
    to_parent (test_prev f) (false ∷ ba_get_max_leaf l) false (climb_prev l p)
climb_prev (fork a f o l r) (true ∷ p) =
    to_parent (test_prev f) (false ∷ ba_get_max_leaf l) true (climb_prev r p)

-- A leaf, or an error pointer; or an access through a pointer that leads nowhere.
pub data LeafPtr : Type 0 where
  at_leaf : NodePtr → LeafPtr
  no_leaf : ℕ → LeafPtr
  stray : LeafPtr

abbrev pub enopage : ℕ
enopage = 0x11

-- The root has no parent.
abbrev pub at_root : Climb → LeafPtr
at_root rising = no_leaf enopage
at_root turning = no_leaf enopage
at_root (turned p) = at_leaf p
at_root lost = stray

unfoldable pub ba_get_next_leaf : BaNode → NodePtr → LeafPtr
unfolding climb_next
ba_get_next_leaf t p = at_root (climb_next t p)

unfoldable pub ba_get_prev_leaf : BaNode → NodePtr → LeafPtr
unfolding climb_prev
ba_get_prev_leaf t p = at_root (climb_prev t p)
