-- ===== src/Buddy/Flags/Repair.antt =====
-- Merging free buddies changes no page.
use Prim.Native.Nat.{suc}
use pentinum_os.Base.{
  ℕ, ◌≡◌, refl, ap, ◌∙◌, arith, ◌&&◌, true, false, [], ◌∷◌, ◌==◌, Bool-cases, inl, inr,
}
use pentinum_os.Base.Bits.{bit_or_self}
use pentinum_os.Buddy.Node.{
  BaNode, leaf, fork, address, flags, order, NodePtr, ba_flags, ba_status, pnode_free,
}
use pentinum_os.Buddy.Node.Pages.{page_flags, IsTree}
use pentinum_os.Buddy.Flags.{merge, pnode_repair_tree}

-- A tree that stands for the same pages, with the same root block and flags.
pub record Keeps (t t' : BaNode) : Type 0 where
  pub tree : IsTree t'
  pub pages : (q : ℕ) → page_flags t' q ≡ page_flags t q
  pub same_address : address t' ≡ address t
  pub same_order : order t' ≡ order t
  pub same_flags : flags t' ≡ flags t

pub Keeps-refl : (t : BaNode) → IsTree t → Keeps t t
Keeps-refl t w = record {
  tree = w;
  pages = λ q. refl;
  same_address = refl;
  same_order = refl;
  same_flags = refl;
}

pub Keeps-trans : {t u v : BaNode} → Keeps t u → Keeps u v → Keeps t v
Keeps-trans j k = record {
  tree = k.tree;
  pages = λ q. k.pages q ∙ j.pages q;
  same_address = k.same_address ∙ j.same_address;
  same_order = k.same_order ∙ j.same_order;
  same_flags = k.same_flags ∙ j.same_flags;
}

-- A child that stands for the same pages can take its place.
pub Keeps-left :
    (a f o : ℕ) (l l' r : BaNode)
    → IsTree (fork a f o l r)
    → Keeps l l'
    → Keeps (fork a f o l r) (fork a f o l' r)
Keeps-left a f o l l' r w k = record {
  tree = (
    w.0,
    ap suc k.same_order ∙ w.1,
    w.2,
    k.same_address ∙ w.3,
    w.4,
    rw k.same_flags w.5,
    rw k.same_flags w.6,
    w.7,
    k.tree,
    w.9,
  );
  pages = λ q. ground (arith, k.pages q);
  same_address = refl;
  same_order = refl;
  same_flags = refl;
}

pub Keeps-right :
    (a f o : ℕ) (l r r' : BaNode)
    → IsTree (fork a f o l r)
    → Keeps r r'
    → Keeps (fork a f o l r) (fork a f o l r')
Keeps-right a f o l r r' w k = record {
  tree = (
    w.0,
    w.1,
    ap suc k.same_order ∙ w.2,
    w.3,
    rw (k.same_address, k.same_order) w.4,
    rw k.same_flags w.5,
    w.6,
    rw k.same_flags w.7,
    w.8,
    k.tree,
  );
  pages = λ q. ground (arith, k.pages q, k.same_address);
  same_address = refl;
  same_order = refl;
  same_flags = refl;
}

merge_leaves :
    (a f o a1 f1 o1 a2 f2 o2 : ℕ)
    → let t = fork a f o (leaf a1 f1 o1) (leaf a2 f2 o2) in IsTree t → Keeps t (merge t)
unfolding merge
merge_leaves a f o a1 f1 o1 a2 f2 o2 w =
    elim (Bool-cases ((ba_flags f1 == ba_flags f2) && (ba_status f1 == pnode_free))) [
      | inr apart ↦ rw apart (Keeps-refl _ w)
      | inl equal ↦ rw equal (record {
        tree = w.0;
        pages = λ q. ground (arith, bit_or_self (ba_flags f1), equal);
        same_address = refl;
        same_order = refl;
        same_flags = refl;
      })
    ]

merge-Keeps :
    (a f o : ℕ) (l r : BaNode)
    → IsTree (fork a f o l r)
    → Keeps (fork a f o l r) (merge (fork a f o l r))
unfolding merge
merge-Keeps a f o (leaf a1 f1 o1) (leaf a2 f2 o2) w = merge_leaves a f o a1 f1 o1 a2 f2 o2 w
merge-Keeps a f o (leaf a1 f1 o1) (fork a2 f2 o2 l r) w = Keeps-refl _ w
merge-Keeps a f o (fork a1 f1 o1 l r) s w = Keeps-refl _ w

-- `pnode_repair_tree` keeps the invariant, the root's block and flags, and the flags of every page.
pub pnode_repair_tree-Keeps :
    (t : BaNode) (p : NodePtr) → IsTree t → Keeps t (pnode_repair_tree t p)
unfolding pnode_repair_tree
pnode_repair_tree-Keeps t [] w = Keeps-refl t w
pnode_repair_tree-Keeps (leaf a f o) (b ∷ p) w = Keeps-refl _ w
pnode_repair_tree-Keeps (fork a f o l r) (false ∷ p) w =
    let k = Keeps-left a f o l (pnode_repair_tree l p) r w (pnode_repair_tree-Keeps l p w.8) in
    Keeps-trans k (merge-Keeps a f o (pnode_repair_tree l p) r k.tree)
pnode_repair_tree-Keeps (fork a f o l r) (true ∷ p) w =
    let k = Keeps-right a f o l r (pnode_repair_tree r p) w (pnode_repair_tree-Keeps r p w.9) in
    Keeps-trans k (merge-Keeps a f o l (pnode_repair_tree r p) k.tree)
