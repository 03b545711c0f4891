-- ===== src/Buddy/Search/Missed.antt =====
-- What a search of an intact tree may miss, and the search of both children.
use pentinum_os.Base.{ℕ, ◌≡◌, Bool, true, false, not, some, [], ◌∷◌, Bool-cases, inl, inr}
use pentinum_os.Buddy.Node.{BaNode, leaf, fork, flags, NodePtr, deref}
use pentinum_os.Buddy.Node.Pages.{IsTree}
use pentinum_os.Buddy.Search.{is_common, Dive, missed, stopped, below, or_else, map_dive}
use pentinum_os.Buddy.Search.Match.{is_common-left, is_common-right}
use pentinum_os.Buddy.Search.Point.{child}
use pentinum_os.Buddy.Search.Outcome.{Fits, NoneFits, Outcome, below-WalkOutcome}

-- A node matches what any node below it matches.
pub is_common-deref :
    (g : ℕ) (t : BaNode) (p : NodePtr) (u : BaNode)
    → IsTree t
    → deref t p ≡ some u
    → is_common (flags u) g ≡ true
    → is_common (flags t) g ≡ true
is_common-deref g t [] u w e h = let same : t ≡ u = cc in rw same h
is_common-deref g (leaf a f o) (b ∷ p) u w e h = cc
is_common-deref g (fork a f o l r) (false ∷ p) u w e h =
    is_common-left a f o l r g w (is_common-deref g l p u w.8 e h)
is_common-deref g (fork a f o l r) (true ∷ p) u w e h =
    is_common-right a f o l r g w (is_common-deref g r p u w.9 e h)

-- So a node that does not match has nothing to be found below it.
pub pruned : (g m : ℕ) (t : BaNode) → IsTree t → is_common (flags t) g ≡ false → NoneFits t g m
pruned g m t w other p a f o e fits = elim (Bool-cases (is_common f g)) [
  | inr h ↦ h
  | inl h ↦ let both = is_common-deref g t p (leaf a f o) w e h in cc
]

NoneFits-fork :
    (g m a f o : ℕ) (l r : BaNode) → NoneFits l g m → NoneFits r g m → NoneFits (fork a f o l r) g m
NoneFits-fork g m a f o l r x y [] a' f' o' e fits = cc
NoneFits-fork g m a f o l r x y (false ∷ p) a' f' o' e fits = x p a' f' o' e fits
NoneFits-fork g m a f o l r x y (true ∷ p) a' f' o' e fits = y p a' f' o' e fits

-- A leaf of the wrong order.
pub NoneFits-leaf :
    (g m a f o : ℕ) → (Fits g m o → is_common f g ≡ false) → NoneFits (leaf a f o) g m
NoneFits-leaf g m a f o h [] a' f' o' e fits =
    let same_order : o ≡ o' = cc in
    let same_flags : f ≡ f' = cc in rw (← same_flags) (h (rw same_order fits))
NoneFits-leaf g m a f o h (b ∷ p) a' f' o' e fits = cc

-- Both children searched, in either order.
module _ (g m room a f o : ℕ) (l r : BaNode) (w : IsTree (fork a f o l r)) (b : Bool) where
  pub both-Outcome :
      (d1 d2 : Dive)
      → Outcome (child b l r) g m room d1
      → Outcome (child (not b) l r) g m room d2
      → Outcome
          (fork a f o l r)
          g
          m
          room
          (or_else (map_dive (below b a f o l r) d1) (map_dive (below (not b) a f o l r) d2))
  both-Outcome (stopped x) d2 h1 h2 = below-WalkOutcome g m room a f o l r w b x h1
  both-Outcome missed (stopped x) h1 h2 = below-WalkOutcome g m room a f o l r w (not b) x h2
  both-Outcome missed missed h1 h2 = none b h1 h2
    where
      none :
          (c : Bool)
          → NoneFits (child c l r) g m
          → NoneFits (child (not c) l r) g m
          → NoneFits (fork a f o l r) g m
      none false x y = NoneFits-fork g m a f o l r x y
      none true x y = NoneFits-fork g m a f o l r y x
