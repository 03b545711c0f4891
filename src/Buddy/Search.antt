-- ===== src/Buddy/Search.antt =====
-- `ba_search` of c-kernel/syscore/mem/buddy.c: the search for a block of an order, with a stack of
-- the nodes that are still to be visited, and its plain recursion.
pub mod Match
pub mod Point
pub mod Carve
pub mod Loop
pub mod Outcome
pub mod Missed
pub mod Found
pub mod Bounds
use pentinum_os.Base.{
  ℕ, zero, suc, ◌+◌, ◌-◌, ◌/◌, ◌%◌, bit_and, Bool, true, false, not, ◌&&◌, Option, none, some, List,
  [], ◌∷◌, ◌++◌, if◌then◌else◌, ◌==◌, ltb, leb, length,
}
use pentinum_os.Buddy.Node.{
  BaNode, leaf, fork, address, flags, order, NodePtr, deref, is_leaf, ba_status, ba_mapping,
  ba_split_node, ba_make_child,
}
use pentinum_os.Buddy.Find.{Walk, found, failed, fault, below_left, below_right}

abbrev pub enotfound : ℕ
enotfound = 0x50

-- The argument `flags` of `ba_match_flags` is a byte.
abbrev pub is_common : ℕ → ℕ → Bool
is_common f g =
    not (ba_status (bit_and f (g % 256)) == 0) && not (ba_mapping (bit_and f (g % 256)) == 0)

unfoldable pub ba_match_flags : BaNode → ℕ → Bool
ba_match_flags t g = is_common (flags t) g

-- `search_flag & PNODE_SEARCH_MODIFY` and `search_flag & PNODE_SEARCH_REVERSE`
abbrev pub may_modify : ℕ → Bool
may_modify g = g / 1024 % 2 == 1

abbrev pub is_reverse : ℕ → Bool
is_reverse g = g / 2048 % 2 == 1

-- The write at a pointer.
abbrev pub replace : BaNode → NodePtr → BaNode → BaNode
replace t [] u = u
replace (leaf a f o) (b ∷ p) u = leaf a f o
replace (fork a f o l r) (false ∷ p) u = fork a f o (replace l p u) r
replace (fork a f o l r) (true ∷ p) u = fork a f o l (replace r p u)

-- What the loop does next, from the heap's room, the tree, the stack and the current node.
abbrev pub Next : Type 0
Next = ℕ → BaNode → List NodePtr → NodePtr → Option Walk

abbrev pub pop : Next → ℕ → BaNode → List NodePtr → Option Walk
pop next room t [] = some (failed enotfound)
pop next room t (q ∷ stack) = next room t stack q

-- The stack has 20 entries, and the entry above the pushed one is cleared.
abbrev pub is_full : ℕ → Bool
is_full k = leb 19 k

abbrev pub push : Next → ℕ → ℕ → BaNode → List NodePtr → NodePtr → Option Walk
push next g room t stack p =
    if is_full (length stack)
    then some fault
    else next room t ((p ++ (not (is_reverse g) ∷ [])) ∷ stack) (p ++ (is_reverse g ∷ []))

-- Without memory the node's `children` stay null, and the loop ends at the null pointer.
abbrev pub split : Next → ℕ → ℕ → BaNode → List NodePtr → NodePtr → BaNode → Option Walk
split next g zero t stack p u =
    if is_full (length stack) then some fault else some (failed enotfound)
split next g (suc room) t stack p u = push next g room (replace t p (ba_split_node u)) stack p

abbrev pub round : Next → ℕ → ℕ → ℕ → BaNode → List NodePtr → NodePtr → Option BaNode → Option Walk
round next g m room t stack p none = some fault
round next g m room t stack p (some u) =
    if not (ba_match_flags u g)
    then pop next room t stack
    else if not (is_leaf u)
    then push next g room t stack p
    else if order u == m
    then some (found p t room)
    else if ltb m (order u) && may_modify g
    then split next g room t stack p u
    else pop next room t stack

-- `none` when the fuel is used up.
unfoldable pub search_loop : ℕ → ℕ → ℕ → Next
search_loop zero g m room t stack p = none
search_loop (suc n) g m room t stack p = round (search_loop n g m) g m room t stack p (deref t p)

-- The rounds that a search can take: each node once, and a leaf once for each order that it can be
-- split to.
abbrev pub rounds : BaNode → ℕ
rounds (leaf a f o) = suc o
rounds (fork a f o l r) = suc (rounds l + rounds r)

unfoldable pub ba_search : BaNode → ℕ → ℕ → ℕ → Option Walk
ba_search root room m g = search_loop (rounds root) g m room root [] []

-- The same search as a recursion over the tree.
pub data Dive : Type 0 where
  missed : Dive
  stopped : Walk → Dive

abbrev pub map_dive : (Walk → Walk) → Dive → Dive
map_dive f missed = missed
map_dive f (stopped w) = stopped (f w)

abbrev pub or_else : Dive → Dive → Dive
or_else missed y = y
or_else (stopped w) y = stopped w

abbrev pub below : Bool → ℕ → ℕ → ℕ → BaNode → BaNode → Walk → Walk
below false a f o l r = below_left a f o r
below true a f o l r = below_right a f o l

-- A halving takes an entry of the stack and a pair of children from the heap.
abbrev pub halve : Bool → ℕ → (ℕ → Walk) → Walk
halve true room next = fault
halve false zero next = failed enotfound
halve false (suc room) next = next room

-- A leaf is halved `n` times, always going on in the first half; `k` nodes are on the stack.
unfoldable pub carve : ℕ → Bool → ℕ → ℕ → BaNode → Walk
carve zero b k room u = found [] u room
carve (suc n) b k room u = halve (is_full k) room (λ left.
    below b (address u) (flags u) (order u) (ba_make_child u false) (ba_make_child u true)
      (carve n b (suc k) left (ba_make_child u b)))

-- The first child is searched while its sibling is on the stack.
abbrev pub in_order : Bool → (ℕ → Dive) → (ℕ → Dive) → ℕ → Dive
in_order false l r k = or_else (l (suc k)) (r k)
in_order true l r k = or_else (r (suc k)) (l k)

unfoldable pub dive : ℕ → ℕ → ℕ → ℕ → BaNode → Dive
dive g m room k (leaf a f o) =
    if not (is_common f g)
    then missed
    else if o == m
    then stopped (found [] (leaf a f o) room)
    else if ltb m o && may_modify g
    then stopped (carve (o - m) (is_reverse g) k room (leaf a f o))
    else missed
dive g m room k (fork a f o l r) =
    if not (is_common f g)
    then missed
    else if is_full k
    then stopped fault
    else in_order (is_reverse g) (λ j. map_dive (below_left a f o r) (dive g m room j l))
        (λ j. map_dive (below_right a f o l) (dive g m room j r)) k
