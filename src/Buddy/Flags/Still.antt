-- ===== src/Buddy/Flags/Still.antt =====
-- A leaf that is not free stays in the tree when its ancestors are repaired.
use pentinum_os.Base.{
  ℕ, suc, ◌+◌, ◌≡◌, ◌≢◌, refl, ap, arith, true, false, some, [], ◌∷◌, ◌==◌, ◌&&◌, ◌⊎◌, inl, inr,
}
use pentinum_os.Buddy.Node.{BaNode, leaf, fork, NodePtr, deref, ba_flags, ba_status, pnode_free}
use pentinum_os.Buddy.Node.Pages.{pairs}
use pentinum_os.Buddy.Flags.{set_upwards, merge, pnode_repair_tree}

deref-set_upwards :
    (update : ℕ → ℕ) (join : ℕ → ℕ → ℕ → ℕ) (t : BaNode) (p : NodePtr) (a f o : ℕ)
    → deref t p ≡ some (leaf a f o)
    → deref (set_upwards update join t p) p ≡ some (leaf a (update f) o)
unfolding set_upwards
deref-set_upwards update join (leaf a' f' o') [] a f o e = cc
deref-set_upwards update join (fork a' f' o' l r) [] a f o e = cc
deref-set_upwards update join (leaf a' f' o') (b ∷ p) a f o e = cc
deref-set_upwards update join (fork a' f' o' l r) (false ∷ p) a f o e =
    deref-set_upwards update join l p a f o e
deref-set_upwards update join (fork a' f' o' l r) (true ∷ p) a f o e =
    deref-set_upwards update join r p a f o e

-- The test of `pnode_repair_tree` fails where one of two leaves is not free.
not_merged :
    (f1 f2 : ℕ)
    → (ba_status f1 ≢ pnode_free) ⊎ (ba_status f2 ≢ pnode_free)
    → ((ba_flags f1 == ba_flags f2) && (ba_status f1 == pnode_free)) ≡ false
not_merged f1 f2 h = ground arith

merge_left :
    (a f o : ℕ) (l r : BaNode) (p : NodePtr) (a' f' o' : ℕ)
    → deref l p ≡ some (leaf a' f' o')
    → ba_status f' ≢ pnode_free
    → merge (fork a f o l r) ≡ fork a f o l r
unfolding merge
merge_left a f o (leaf a1 f1 o1) (leaf a2 f2 o2) [] a' f' o' e used =
    let same : f1 ≡ f' = cc in rw (not_merged f1 f2 (inl (rw same used))) refl
merge_left a f o (leaf a1 f1 o1) (leaf a2 f2 o2) (b ∷ p) a' f' o' e used = cc
merge_left a f o (leaf a1 f1 o1) (fork a2 f2 o2 l r) p a' f' o' e used = refl
merge_left a f o (fork a1 f1 o1 l r) s p a' f' o' e used = refl

merge_right :
    (a f o : ℕ) (l r : BaNode) (p : NodePtr) (a' f' o' : ℕ)
    → deref r p ≡ some (leaf a' f' o')
    → ba_status f' ≢ pnode_free
    → merge (fork a f o l r) ≡ fork a f o l r
unfolding merge
merge_right a f o (leaf a1 f1 o1) (leaf a2 f2 o2) [] a' f' o' e used =
    let same : f2 ≡ f' = cc in rw (not_merged f1 f2 (inr (rw same used))) refl
merge_right a f o (leaf a1 f1 o1) (leaf a2 f2 o2) (b ∷ p) a' f' o' e used = cc
merge_right a f o (leaf a1 f1 o1) (fork a2 f2 o2 l r) p a' f' o' e used = refl
merge_right a f o (fork a1 f1 o1 l r) s p a' f' o' e used = refl

-- A repair above a leaf that is not free changes nothing.
pub pnode_repair_tree_still :
    (t : BaNode) (p : NodePtr) (a f o : ℕ)
    → deref t p ≡ some (leaf a f o)
    → ba_status f ≢ pnode_free
    → pnode_repair_tree t p ≡ t
unfolding pnode_repair_tree
pnode_repair_tree_still t [] a f o e used = refl
pnode_repair_tree_still (leaf a' f' o') (b ∷ p) a f o e used = refl
pnode_repair_tree_still (fork a' f' o' l r) (false ∷ p) a f o e used =
    rw (pnode_repair_tree_still l p a f o e used) (merge_left a' f' o' l r p a f o e used)
pnode_repair_tree_still (fork a' f' o' l r) (true ∷ p) a f o e used =
    rw (pnode_repair_tree_still r p a f o e used) (merge_right a' f' o' l r p a f o e used)

-- The pointer to the leaf still leads to it after the update.
pub deref-after :
    (update : ℕ → ℕ) (join : ℕ → ℕ → ℕ → ℕ) (t : BaNode) (p : NodePtr) (a f o : ℕ)
    → deref t p ≡ some (leaf a f o)
    → ba_status (update f) ≢ pnode_free
    → deref (pnode_repair_tree (set_upwards update join t p) p) p ≡ some (leaf a (update f) o)
deref-after update join t p a f o e used =
    let here = deref-set_upwards update join t p a f o e in
    rw (pnode_repair_tree_still (set_upwards update join t p) p a (update f) o here used) here

pairs-set_upwards :
    (update : ℕ → ℕ) (join : ℕ → ℕ → ℕ → ℕ) (t : BaNode) (p : NodePtr)
    → pairs (set_upwards update join t p) ≡ pairs t
unfolding set_upwards
pairs-set_upwards update join (leaf a f o) [] = refl
pairs-set_upwards update join (fork a f o l r) [] = refl
pairs-set_upwards update join (leaf a f o) (b ∷ p) = refl
pairs-set_upwards update join (fork a f o l r) (false ∷ p) =
    ap (λ n. suc (n + pairs r)) (pairs-set_upwards update join l p)
pairs-set_upwards update join (fork a f o l r) (true ∷ p) =
    ap (λ n. suc (pairs l + n)) (pairs-set_upwards update join r p)

pub pairs-after :
    (update : ℕ → ℕ) (join : ℕ → ℕ → ℕ → ℕ) (t : BaNode) (p : NodePtr) (a f o : ℕ)
    → deref t p ≡ some (leaf a f o)
    → ba_status (update f) ≢ pnode_free
    → pairs (pnode_repair_tree (set_upwards update join t p) p) ≡ pairs t
pairs-after update join t p a f o e used =
    let here = deref-set_upwards update join t p a f o e in
    rw (pnode_repair_tree_still (set_upwards update join t p) p a (update f) o here used)
      (pairs-set_upwards update join t p)
