-- ===== src/Heap/Alloc/Blocks.antt =====
-- The blocks of a heap: where they lie, and what their flags say. The predicates `used` and `idle`
-- say which headers belong to handed-out and to free blocks.
use mathlib.Core.Path.{subst₂, fun_ext}
use pentinum_os.Base.{ℕ, ◌+◌, ◌≤◌, ◌≡◌, ◌≢◌, ◌⊎◌, Bool, true, false, not, ◌&&◌, ◌||◌, arith, ◌==◌}
use pentinum_os.Heap.Bin.{HeapNode, Store, write, idflag}
use pentinum_os.Heap.Bin.Seg.{SameBlocks}

abbrev pub UsedFlags : ℕ → Type 0
UsedFlags f = (f ≡ idflag) ⊎ (f ≡ idflag + 2)

abbrev pub IdleFlags : ℕ → Type 0
IdleFlags f = (f ≡ idflag + 1) ⊎ (f ≡ idflag + 3)

-- The blocks at `x` and `y`, headers included, do not meet.
abbrev pub Disjoint : Store → ℕ → ℕ → Type 0
Disjoint s x y = (x + 16 + (s x).size ≤ y) ⊎ (y + 16 + (s y).size ≤ x)

pub record Blocks (s : Store) (lo hi : ℕ) (used idle : ℕ → Bool) : Type 0 where
  pub either : (x : ℕ) → used x ≡ true → idle x ≡ false
  pub inside : (x : ℕ) → (used x || idle x) ≡ true → (lo ≤ x) × (x + 16 + (s x).size ≤ hi)
  pub apart :
      (x y : ℕ) → (used x || idle x) ≡ true → (used y || idle y) ≡ true → x ≢ y → Disjoint s x y
  pub used_flags : (x : ℕ) → used x ≡ true → UsedFlags (s x).flags
  pub idle_flags : (x : ℕ) → idle x ≡ true → IdleFlags (s x).flags

module _ {s : Store} {lo hi : ℕ} {used idle : ℕ → Bool} (b : Blocks s lo hi used idle) where
  pub Blocks-same : (s' : Store) → SameBlocks s s' → Blocks s' lo hi used idle
  Blocks-same s' same = record {
    either = b.either;
    inside = λ x o. ground (arith, same x, b.inside x);
    apart = λ x y o o' ne. ground (arith, same x, same y, b.apart x y);
    used_flags = λ x o. ground (arith, same x, b.used_flags x);
    idle_flags = λ x o. ground (arith, same x, b.idle_flags x);
  }

  -- A new block at the end.
  pub Blocks-bump :
      (n : HeapNode)
      → n.flags ≡ idflag
      → lo ≤ hi
      → Blocks (write s hi n) lo (hi + 16 + n.size) (λ a. used a || (a == hi)) idle
  unfolding write
  Blocks-bump n f order = record {
    either = λ x o. ground (arith, b.either x, b.inside x);
    inside = λ x o. ground (arith, b.inside x);
    apart = λ x y o o' ne. ground (arith, b.apart x y, b.inside x, b.inside y);
    used_flags = λ x o. ground (arith, b.used_flags x);
    idle_flags = λ x o. ground (arith, b.idle_flags x, b.inside x);
  }

  -- A block changes hands whole, one way or the other.
  pub Blocks-take :
      (x : ℕ) (n : HeapNode)
      → idle x ≡ true
      → n.size ≡ (s x).size
      → UsedFlags n.flags
      → Blocks (write s x n) lo hi (λ a. used a || (a == x)) (λ a. idle a && not (a == x))
  unfolding write
  Blocks-take x n i e f = record {
    either = λ y o. ground (arith, b.either y);
    inside = λ y o. ground (arith, b.inside y);
    apart = λ y z o o' ne. ground (arith, b.apart y z);
    used_flags = λ y o. ground (arith, b.used_flags y);
    idle_flags = λ y o. ground (arith, b.idle_flags y);
  }

  pub Blocks-give :
      (x : ℕ) (n : HeapNode)
      → used x ≡ true
      → n.size ≡ (s x).size
      → IdleFlags n.flags
      → Blocks (write s x n) lo hi (λ a. used a && not (a == x)) (λ a. idle a || (a == x))
  unfolding write
  Blocks-give x n u e f = record {
    either = λ y o. ground (arith, b.either y);
    inside = λ y o. ground (arith, b.inside y);
    apart = λ y z o o' ne. ground (arith, b.apart y z);
    used_flags = λ y o. ground (arith, b.used_flags y);
    idle_flags = λ y o. ground (arith, b.idle_flags y);
  }

  -- The last block goes back to the uncarved part.
  pub Blocks-drop :
      (x : ℕ) (n : HeapNode)
      → used x ≡ true
      → x + 16 + (s x).size ≡ hi
      → Blocks (write s x n) lo x (λ a. used a && not (a == x)) idle
  unfolding write
  Blocks-drop x n u e = record {
    either = λ y o. ground (arith, b.either y);
    inside = λ y o. ground (arith, b.inside y, b.apart y x, b.either x);
    apart = λ y z o o' ne. ground (arith, b.apart y z, b.either x);
    used_flags = λ y o. ground (arith, b.used_flags y);
    idle_flags = λ y o. ground (arith, b.idle_flags y, b.either x);
  }

  -- A free block becomes a used one of `n.size` bytes and a free one behind it.
  pub Blocks-split :
      (x : ℕ) (n rest : HeapNode)
      → idle x ≡ true
      → n.size + 16 + rest.size ≡ (s x).size
      → UsedFlags n.flags
      → IdleFlags rest.flags
      → let r = x + 16 + n.size in
        Blocks
          (write (write s r rest) x n)
          lo
          hi
          (λ a. used a || (a == x))
          (λ a. (idle a && not (a == x)) || (a == r))
  unfolding write
  Blocks-split x n rest i e f g =
      let r = x + 16 + n.size in
      record {
        either = λ y o. ground (arith, b.either y, b.apart y x);
        inside = λ y o. ground (arith, b.inside y, b.inside x);
        apart = λ y z o o' ne. ground (arith, b.apart y z, b.apart y x, b.apart z x);
        used_flags = λ y o. ground (arith, b.used_flags y, b.apart y x);
        idle_flags = λ y o. ground (arith, b.idle_flags y);
      }

-- The predicates count only by their values.
pub Blocks-cong :
    {s : Store} {lo hi : ℕ} {used idle used' idle' : ℕ → Bool}
    → ((a : ℕ) → used a ≡ used' a)
    → ((a : ℕ) → idle a ≡ idle' a)
    → Blocks s lo hi used idle
    → Blocks s lo hi used' idle'
Blocks-cong {s} {lo} {hi} p q b = subst₂ (λ u i. Blocks s lo hi u i) (fun_ext p) (fun_ext q) b
