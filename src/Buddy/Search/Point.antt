-- ===== src/Buddy/Search/Point.antt =====
-- Reads and writes at a pointer, and a walk seen from the root.
use mathlib.Core.List.{append_assoc}
use pentinum_os.Base.{ℕ, ◌≡◌, refl, ap, Bool, true, false, some, [], ◌∷◌, ◌++◌}
use pentinum_os.Buddy.Node.{BaNode, leaf, fork, NodePtr, deref}
use pentinum_os.Buddy.Find.{Walk, found, failed, fault}
use pentinum_os.Buddy.Search.{replace, below}

-- A walk below a node, seen from the root.
abbrev pub lift : BaNode → NodePtr → Walk → Walk
lift t p (found q u room) = found (p ++ q) (replace t p u) room
lift t p (failed e) = failed e
lift t p fault = fault

abbrev pub child : Bool → BaNode → BaNode → BaNode
child false l r = l
child true l r = r

pub deref-child :
    (t : BaNode) (p : NodePtr) (b : Bool) (a f o : ℕ) (l r : BaNode)
    → deref t p ≡ some (fork a f o l r)
    → deref t (p ++ (b ∷ [])) ≡ some (child b l r)
deref-child (leaf a' f' o') [] b a f o l r e = cc
deref-child (fork a' f' o' l' r') [] false a f o l r e = cc
deref-child (fork a' f' o' l' r') [] true a f o l r e = cc
deref-child (leaf a' f' o') (c ∷ p) b a f o l r e = cc
deref-child (fork a' f' o' l' r') (false ∷ p) b a f o l r e = deref-child l' p b a f o l r e
deref-child (fork a' f' o' l' r') (true ∷ p) b a f o l r e = deref-child r' p b a f o l r e

pub deref-replace :
    (t : BaNode) (p : NodePtr) (u v : BaNode)
    → deref t p ≡ some u
    → deref (replace t p v) p ≡ some v
deref-replace t [] u v e = refl
deref-replace (leaf a f o) (b ∷ p) u v e = cc
deref-replace (fork a f o l r) (false ∷ p) u v e = deref-replace l p u v e
deref-replace (fork a f o l r) (true ∷ p) u v e = deref-replace r p u v e

pub replace_same : (t : BaNode) (p : NodePtr) (u : BaNode) → deref t p ≡ some u → replace t p u ≡ t
replace_same t [] u e = cc
replace_same (leaf a f o) (b ∷ p) u e = cc
replace_same (fork a f o l r) (false ∷ p) u e = ap (λ x. fork a f o x r) (replace_same l p u e)
replace_same (fork a f o l r) (true ∷ p) u e = ap (fork a f o l) (replace_same r p u e)

replace_again :
    (t : BaNode) (p : NodePtr) (u v : BaNode) → replace (replace t p u) p v ≡ replace t p v
replace_again t [] u v = refl
replace_again (leaf a f o) (b ∷ p) u v = refl
replace_again (fork a f o l r) (false ∷ p) u v = ap (λ x. fork a f o x r) (replace_again l p u v)
replace_again (fork a f o l r) (true ∷ p) u v = ap (fork a f o l) (replace_again r p u v)

-- The write at a child is a write of the node.
replace-child :
    (t : BaNode) (p : NodePtr) (a f o : ℕ) (l r v : BaNode)
    → deref t p ≡ some (fork a f o l r)
    → (replace t (p ++ (false ∷ [])) v ≡ replace t p (fork a f o v r))
      × (replace t (p ++ (true ∷ [])) v ≡ replace t p (fork a f o l v))
replace-child (leaf a' f' o') [] a f o l r v e = cc
replace-child (fork a' f' o' l' r') [] a f o l r v e = (cc, cc)
replace-child (leaf a' f' o') (c ∷ p) a f o l r v e = cc
replace-child (fork a' f' o' l' r') (false ∷ p) a f o l r v e =
    let h = replace-child l' p a f o l r v e in
    (ap (λ x. fork a' f' o' x r') h.0, ap (λ x. fork a' f' o' x r') h.1)
replace-child (fork a' f' o' l' r') (true ∷ p) a f o l r v e =
    let h = replace-child r' p a f o l r v e in
    (ap (fork a' f' o' l') h.0, ap (fork a' f' o' l') h.1)

pub lift-below :
    (t : BaNode) (p : NodePtr) (b : Bool) (a f o : ℕ) (l r : BaNode) (w : Walk)
    → deref t p ≡ some (fork a f o l r)
    → lift t (p ++ (b ∷ [])) w ≡ lift t p (below b a f o l r w)
lift-below t p false a f o l r (found q v room) e =
    rw (append_assoc p (false ∷ []) q, (replace-child t p a f o l r v e).0) refl
lift-below t p true a f o l r (found q v room) e =
    rw (append_assoc p (true ∷ []) q, (replace-child t p a f o l r v e).1) refl
lift-below t p false a f o l r (failed c) e = refl
lift-below t p true a f o l r (failed c) e = refl
lift-below t p false a f o l r fault e = refl
lift-below t p true a f o l r fault e = refl

pub lift_again :
    (t : BaNode) (p : NodePtr) (u : BaNode) (w : Walk) → lift (replace t p u) p w ≡ lift t p w
lift_again t p u (found q v room) = ap (λ x. found (p ++ q) x room) (replace_again t p u v)
lift_again t p u (failed c) = refl
lift_again t p u fault = refl
