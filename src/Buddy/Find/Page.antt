-- ===== src/Buddy/Find/Page.antt =====
-- The node that `ba_find_node` reaches.
use pentinum_os.Base.{
  some, ℕ, zero, suc, ◌+◌, ◌-◌, ◌*◌, ◌/◌, ◌%◌, ◌^◌, ◌≤◌, ◌<◌, ◌≡◌, refl, ap, arith, true, false, [],
  ◌∷◌, Bool-cases, ltb, inl, inr,
}
use pentinum_os.Buddy.Node.{
  BaNode, leaf, fork, address, order, NodePtr, deref, ba_split_node, ba_make_child,
}
use pentinum_os.Buddy.Node.Pages.{
  IsTree, Holds, halves, ba_split_node-IsTree, page_flags-ba_split_node,
}
use pentinum_os.Buddy.Flags.Repair.{Keeps, Keeps-refl, Keeps-trans, Keeps-left, Keeps-right}
use pentinum_os.Buddy.Find.Half.{IsAligned, order-halves, left_half, right_half}
use pentinum_os.Buddy.Find.{Walk, found, below_left, below_right, choose, find_down, ba_find_node}

-- The walk ended at a node of the wanted order that holds the page, in a tree that stands for the
-- same pages, after at most `n` splits.
pub record Reached (t : BaNode) (req addr room n : ℕ) (out : Walk) : Type 0 where
  pub ptr : NodePtr
  pub tree : BaNode
  pub left : ℕ
  pub node : BaNode
  pub result : out ≡ found ptr tree left
  pub keeps : Keeps t tree
  pub target : deref tree ptr ≡ some node
  pub size : order node ≡ req
  pub holds : Holds node addr
  pub used : room ≤ left + n

-- A split stands for the same pages.
pub ba_split_node-Keeps :
    (a f o k : ℕ) → o ≡ suc k → f < 256 → Keeps (leaf a f o) (ba_split_node (leaf a f o))
unfolding ba_split_node
ba_split_node-Keeps a f o k e small = rw e (record {
  tree = ba_split_node-IsTree a f k small;
  pages = page_flags-ba_split_node a f k;
  same_address = refl;
  same_order = refl;
  same_flags = refl;
})

-- What is reached below a child is reached from the node.
module _ (req addr room n a f o : ℕ) (l r : BaNode) (w : IsTree (fork a f o l r)) where
  Reached-left :
      (out : Walk)
      → Reached l req addr room n out
      → Reached (fork a f o l r) req addr room n (below_left a f o r out)
  Reached-left out g = record {
    ptr = false ∷ g.ptr;
    tree = fork a f o g.tree r;
    left = g.left;
    node = g.node;
    result = ap (below_left a f o r) g.result;
    keeps = Keeps-left a f o l g.tree r w g.keeps;
    target = g.target;
    size = g.size;
    holds = g.holds;
    used = g.used;
  }

  Reached-right :
      (out : Walk)
      → Reached r req addr room n out
      → Reached (fork a f o l r) req addr room n (below_right a f o l out)
  Reached-right out g = record {
    ptr = true ∷ g.ptr;
    tree = fork a f o l g.tree;
    left = g.left;
    node = g.node;
    result = ap (below_right a f o l) g.result;
    keeps = Keeps-right a f o l r g.tree w g.keeps;
    target = g.target;
    size = g.size;
    holds = g.holds;
    used = g.used;
  }

module _ (req addr room n : ℕ) (walk : BaNode → Walk)
    (rec : (u : BaNode) (m : ℕ)
      → IsTree u
      → IsAligned u m
      → order u ≡ req + n
      → Holds u addr
      → Reached u req addr room n (walk u)) where
  -- One round below a node with children.
  choose-Reached :
      (a f o : ℕ) (l r : BaNode) (m : ℕ)
      → IsTree (fork a f o l r)
      → IsAligned (fork a f o l r) m
      → o ≡ suc (req + n)
      → Holds (fork a f o l r) addr
      → Reached
          (fork a f o l r)
          req
          addr
          room
          n
          (choose (addr / 2 ^ (req + n) % 2) walk (fork a f o l r))
  choose-Reached a f o l r m w al e h = elim (Bool-cases (ltb addr (address r))) [
    | inl low ↦
        let inside : Holds l addr =
          ground (arith, w.3, w.4, order-halves (req + n) a f o l r w e) in
        let (bit, aligned) = left_half addr (req + n) m a f o l r w al e inside in
        rw bit (
          Reached-left req addr room n a f o l r w (walk l)
            (rec l (2 * m) w.8 aligned (omega arith) inside))
    | inr high ↦
        let inside : Holds r addr = ground (arith, halves a f o l r w) in
        let (bit, aligned) = right_half addr (req + n) m a f o l r w al e inside in
        rw bit (
          Reached-right req addr room n a f o l r w (walk r)
            (rec r (2 * m + 1) w.9 aligned (omega arith) inside))
  ]

-- One more split allowed, and one made.
Reached-more :
    (req addr room n : ℕ) (t : BaNode) (out : Walk)
    → Reached t req addr room n out
    → Reached t req addr room (suc n) out
Reached-more req addr room n t out g = record {
  ptr = g.ptr;
  tree = g.tree;
  left = g.left;
  node = g.node;
  result = g.result;
  keeps = g.keeps;
  target = g.target;
  size = g.size;
  holds = g.holds;
  used = omega (arith, g.used);
}

Reached-split :
    (req addr room n a f o k : ℕ)
    → o ≡ suc k
    → f < 256
    → (out : Walk) → Reached (ba_split_node (leaf a f o)) req addr room n out
    → Reached (leaf a f o) req addr (suc room) (suc n) out
Reached-split req addr room n a f o k e small out g = record {
  ptr = g.ptr;
  tree = g.tree;
  left = g.left;
  node = g.node;
  result = g.result;
  keeps = Keeps-trans (ba_split_node-Keeps a f o k e small) g.keeps;
  target = g.target;
  size = g.size;
  holds = g.holds;
  used = omega (arith, g.used);
}

find_down-Reached :
    (n req addr room : ℕ) (t : BaNode) (m : ℕ)
    → IsTree t
    → IsAligned t m
    → order t ≡ req + n
    → Holds t addr
    → n ≤ room
    → Reached t req addr room n (find_down n true req addr room t)
unfolding find_down ba_split_node
find_down-Reached zero req addr room t m w al e h k = record {
  ptr = [];
  tree = t;
  left = room;
  node = t;
  result = refl;
  keeps = Keeps-refl t w;
  target = refl;
  size = omega arith;
  holds = h;
  used = omega arith;
}
find_down-Reached (suc n) req addr zero (leaf a f o) m w al e h k = absurd (omega arith)
find_down-Reached (suc n) req addr (suc room) (leaf a f o) m w al e h k =
    let height : o ≡ suc (req + n) = omega arith in
    Reached-split req addr room n a f o (req + n) height w _ (
      choose-Reached req addr room n (find_down n true req addr room)
        (λ u i v j size inside. find_down-Reached n req addr room u i v j size inside (omega arith))
        a f o (ba_make_child (leaf a f o) false) (ba_make_child (leaf a f o) true) m
        (rw height (ba_split_node-IsTree a f (req + n) w)) al height h)
find_down-Reached (suc n) req addr room (fork a f o l r) m w al e h k =
    let height : o ≡ suc (req + n) = omega arith in
    Reached-more req addr room n (fork a f o l r) _ (
      choose-Reached req addr room n (find_down n true req addr room)
        (λ u i v j size inside. find_down-Reached n req addr room u i v j size inside (omega arith))
        a f o l r m w al height h)

-- On an intact tree of all 2 ^ 20 pages, for every page and every order up to 20, if the heap has
-- room for the splits on the way, `ba_find_node` with a non-negative order reaches a node of that
-- order whose block holds the page. The tree stays intact, every page keeps its flags, and the
-- splits take no more than one child pair for each level.
pub ba_find_node-Reached :
    (t : BaNode) (addr req room : ℕ)
    → IsTree t
    → address t ≡ 0
    → order t ≡ 20
    → addr < 2 ^ 20
    → req ≤ 20
    → 20 - req ≤ room
    → Reached t req addr room (20 - req) (ba_find_node t room addr (some req))
unfolding ba_find_node
ba_find_node-Reached t addr req room w start top inside small enough =
    find_down-Reached (20 - req) req addr room t 0 w (omega arith) (omega arith)
      (let size : 2 ^ order t ≡ 2 ^ 20 = ap (λ k. 2 ^ k) top in omega arith) enough
