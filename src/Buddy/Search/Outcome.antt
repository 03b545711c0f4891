-- ===== src/Buddy/Search/Outcome.antt =====
-- What a search of an intact tree may end with, from the ends of the searches below its nodes.
use native.Mathlib.Nat.{two-pow-succ}
use pentinum_os.Base.{
  ℕ, zero, suc, ◌+◌, ◌-◌, ◌^◌, ◌≤◌, ◌<◌, ◌≡◌, ◌⊎◌, refl, ◌∙◌, arith, Bool, true, false, some, [],
  ◌∷◌, inl, inr,
}
use pentinum_os.Buddy.Node.{BaNode, leaf, fork, order, NodePtr, deref, ba_split_node, ba_make_child}
use pentinum_os.Buddy.Node.Pages.{IsTree, pairs, deref-inside, ba_split_node-IsTree}
use pentinum_os.Buddy.Flags.Repair.{Keeps, Keeps-refl, Keeps-trans, Keeps-left, Keeps-right}
use pentinum_os.Buddy.Find.{Walk, found, failed, fault}
use pentinum_os.Buddy.Find.Page.{ba_split_node-Keeps}
use pentinum_os.Buddy.Search.{
  is_common, may_modify, Dive, missed, stopped, carve, halve, is_full, below, enotfound,
}
use pentinum_os.Buddy.Search.Match.{is_common-child}
use pentinum_os.Buddy.Search.Point.{child}
use pentinum_os.Buddy.Search.Carve.{halved_walk}

-- A leaf of the order, or a larger one that may be split.
abbrev pub Fits : ℕ → ℕ → ℕ → Type 0
Fits g m o = (o ≡ m) ⊎ ((m < o) × (may_modify g ≡ true))

-- Where a block of order `m` at `start` comes from: it lies in a leaf that matches and fits.
pub record Origin (t : BaNode) (g m start : ℕ) : Type 0 where
  pub path : NodePtr
  pub leaf_start : ℕ
  pub leaf_flags : ℕ
  pub leaf_order : ℕ
  pub at_path : deref t path ≡ some (leaf leaf_start leaf_flags leaf_order)
  pub fits : Fits g m leaf_order
  pub common : is_common leaf_flags g ≡ true
  pub from : leaf_start ≤ start
  pub ends : start + 2 ^ m ≤ leaf_start + 2 ^ leaf_order

-- The block that was found: a leaf of the order that matches, in a tree that stands for the same
-- pages, and which is or lies in a leaf of the tree before that matches and fits.
pub record Chosen (t : BaNode) (g m room : ℕ) (p : NodePtr) (t' : BaNode) (left : ℕ) : Type 0 where
  pub start : ℕ
  pub mark : ℕ
  pub keeps : Keeps t t'
  pub target : deref t' p ≡ some (leaf start mark m)
  pub matches : is_common mark g ≡ true
  pub origin : Origin t g m start
  pub used : room ≤ left + order t
  pub paid : left + pairs t' ≡ room + pairs t

abbrev pub WalkOutcome : BaNode → ℕ → ℕ → ℕ → Walk → Type 0
WalkOutcome t g m room (found p t' left) = Chosen t g m room p t' left
WalkOutcome t g m room (failed e) = (e ≡ enotfound) × (room < order t)
WalkOutcome t g m room fault = Unit

abbrev pub NoneFits : BaNode → ℕ → ℕ → Type 0
NoneFits t g m =
    (p : NodePtr) (a f o : ℕ) → deref t p ≡ some (leaf a f o) → Fits g m o → is_common f g ≡ false

abbrev pub Outcome : BaNode → ℕ → ℕ → ℕ → Dive → Type 0
Outcome t g m room missed = NoneFits t g m
Outcome t g m room (stopped w) = WalkOutcome t g m room w

Origin-below :
    (b : Bool) (g m start a f o : ℕ) (l r : BaNode)
    → Origin (child b l r) g m start
    → Origin (fork a f o l r) g m start
Origin-below false g m start a f o l r h = record {
  path = false ∷ h.path;
  leaf_start = h.leaf_start;
  leaf_flags = h.leaf_flags;
  leaf_order = h.leaf_order;
  at_path = h.at_path;
  fits = h.fits;
  common = h.common;
  from = h.from;
  ends = h.ends;
}
Origin-below true g m start a f o l r h = record {
  path = true ∷ h.path;
  leaf_start = h.leaf_start;
  leaf_flags = h.leaf_flags;
  leaf_order = h.leaf_order;
  at_path = h.at_path;
  fits = h.fits;
  common = h.common;
  from = h.from;
  ends = h.ends;
}

-- What was found below a child was found below its parent.
module _ (g m room a f o : ℕ) (l r : BaNode) (w : IsTree (fork a f o l r)) where
  pub below-WalkOutcome :
      (b : Bool) (out : Walk)
      → WalkOutcome (child b l r) g m room out
      → WalkOutcome (fork a f o l r) g m room (below b a f o l r out)
  below-WalkOutcome false (found p v left) h = record {
    start = h.start;
    mark = h.mark;
    keeps = Keeps-left a f o l v r w h.keeps;
    target = h.target;
    matches = h.matches;
    origin = Origin-below false g m h.start a f o l r h.origin;
    used = omega (arith, h.used, w.1);
    paid = omega (arith, h.paid);
  }
  below-WalkOutcome true (found p v left) h = record {
    start = h.start;
    mark = h.mark;
    keeps = Keeps-right a f o l r v w h.keeps;
    target = h.target;
    matches = h.matches;
    origin = Origin-below true g m h.start a f o l r h.origin;
    used = omega (arith, h.used, w.2);
    paid = omega (arith, h.paid);
  }
  below-WalkOutcome false (failed e) h = (h.0, omega (arith, h.1, w.1))
  below-WalkOutcome true (failed e) h = (h.0, omega (arith, h.1, w.2))
  below-WalkOutcome false fault h = tt
  below-WalkOutcome true fault h = tt

-- A leaf that is split: what was found in a half was found in the leaf.
module _ (g m room a f k : ℕ) (small : f < 256) (modify : may_modify g ≡ true)
    (match : is_common f g ≡ true) (below_order : m ≤ k) where
  abbrev left_half : BaNode
  left_half = ba_make_child (leaf a f (suc k)) false

  abbrev right_half : BaNode
  right_half = ba_make_child (leaf a f (suc k)) true

  half-IsTree : (b : Bool) → IsTree (ba_make_child (leaf a f (suc k)) b)
  unfolding ba_split_node
  half-IsTree false = (ba_split_node-IsTree a f k small).8
  half-IsTree true = (ba_split_node-IsTree a f k small).9

  Origin-half :
      (b : Bool) (start : ℕ)
      → Origin (ba_make_child (leaf a f (suc k)) b) g m start
      → Origin (leaf a f (suc k)) g m start
  unfolding ba_make_child
  Origin-half b start h =
      let inside =
        deref-inside (ba_make_child (leaf a f (suc k)) b) h.path
          (leaf h.leaf_start h.leaf_flags h.leaf_order) (half-IsTree b) h.at_path in
      let double : 2 ^ suc k ≡ 2 ^ k + 2 ^ k = two-pow-succ k in
      record {
        path = [];
        leaf_start = a;
        leaf_flags = f;
        leaf_order = suc k;
        at_path = refl;
        fits = inr (omega (arith, below_order), modify);
        common = match;
        from = ground (arith, inside, h.from);
        ends = ground (arith, inside, h.ends, double);
      }

  half-WalkOutcome :
      (b : Bool) (out : Walk)
      → WalkOutcome (ba_make_child (leaf a f (suc k)) b) g m room out
      → WalkOutcome (leaf a f (suc k)) g m (suc room) (below b a f (suc k) left_half right_half out)
  unfolding ba_split_node ba_make_child
  half-WalkOutcome false (found p v left) h =
      let w = ba_split_node-IsTree a f k small in
      record {
        start = h.start;
        mark = h.mark;
        keeps =
            Keeps-trans (ba_split_node-Keeps a f (suc k) k refl small)
              (Keeps-left a f (suc k) left_half v right_half w h.keeps);
        target = h.target;
        matches = h.matches;
        origin = Origin-half false h.start h.origin;
        used = omega (arith, h.used);
        paid = omega (arith, h.paid);
      }
  half-WalkOutcome true (found p v left) h =
      let w = ba_split_node-IsTree a f k small in
      record {
        start = h.start;
        mark = h.mark;
        keeps =
            Keeps-trans (ba_split_node-Keeps a f (suc k) k refl small)
              (Keeps-right a f (suc k) left_half right_half v w h.keeps);
        target = h.target;
        matches = h.matches;
        origin = Origin-half true h.start h.origin;
        used = omega (arith, h.used);
        paid = omega (arith, h.paid);
      }
  half-WalkOutcome false (failed e) h = (h.0, omega (arith, h.1))
  half-WalkOutcome true (failed e) h = (h.0, omega (arith, h.1))
  half-WalkOutcome false fault h = tt
  half-WalkOutcome true fault h = tt

halve-WalkOutcome :
    (g m room a f k : ℕ) (c : Bool) (next : ℕ → Walk)
    → ((room' : ℕ) → WalkOutcome (leaf a f (suc k)) g m (suc room') (next room'))
    → WalkOutcome (leaf a f (suc k)) g m room (halve c room next)
halve-WalkOutcome g m room a f k true next h = tt
halve-WalkOutcome g m zero a f k false next h = (refl, omega arith)
halve-WalkOutcome g m (suc room) a f k false next h = h room

-- A leaf of order `n + m`, halved `n` times.
pub carve-WalkOutcome :
    (g m : ℕ) (b : Bool) (n k room a f : ℕ) (o : ℕ)
    → o ≡ m + n
    → f < 256
    → may_modify g ≡ true
    → is_common f g ≡ true
    → WalkOutcome (leaf a f o) g m room (carve n b k room (leaf a f o))
unfolding carve ba_make_child ba_split_node
carve-WalkOutcome g m b zero k room a f o size small modify match =
    let same : o ≡ m = omega arith in
    rw same (record {
      start = a;
      mark = f;
      keeps = Keeps-refl (leaf a f m) small;
      target = refl;
      matches = match;
      origin = record {
        path = [];
        leaf_start = a;
        leaf_flags = f;
        leaf_order = m;
        at_path = refl;
        fits = inl refl;
        common = match;
        from = omega arith;
        ends = omega arith;
      };
      used = omega arith;
      paid = refl;
    })
carve-WalkOutcome g m b (suc n) k room a f zero size small modify match = absurd (omega arith)
carve-WalkOutcome g m false (suc n) k room a f (suc o) size small modify match =
    halve-WalkOutcome g m room a f o (is_full k) (halved_walk n k false (leaf a f (suc o)))
      (λ room'. half-WalkOutcome g m room' a f o small modify match (omega arith) false _ (
        carve-WalkOutcome g m false n (suc k) room' _ _ (suc o - 1) (omega arith)
          (ba_split_node-IsTree a f o small).8 modify
          (is_common-child (leaf a f (suc o)) false g ∙ match)))
carve-WalkOutcome g m true (suc n) k room a f (suc o) size small modify match =
    halve-WalkOutcome g m room a f o (is_full k) (halved_walk n k true (leaf a f (suc o))) (λ room'.
      half-WalkOutcome g m room' a f o small modify match (omega arith) true _ (
        carve-WalkOutcome g m true n (suc k) room' _ _ (suc o - 1) (omega arith)
          (ba_split_node-IsTree a f o small).9 modify
          (is_common-child (leaf a f (suc o)) true g ∙ match)))
