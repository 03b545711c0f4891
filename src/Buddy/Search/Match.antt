-- ===== src/Buddy/Search/Match.antt =====
-- What `ba_match_flags` sees of a node and of its children.
use pentinum_os.Base.{
  ℕ, ◌*◌, ◌/◌, ◌%◌, ◌≡◌, ap, ◌∙◌, sym, arith, bit_and, bit_or, true, false, not, ◌&&◌, ◌==◌, Bool,
}
use pentinum_os.Base.Bits.{bit_or_comm, OrMod-eight, OrMod-page_flags}
use pentinum_os.Base.Masks.{AndMod-page_flags, mask-join, bit_or-above, or_mapping}
use pentinum_os.Buddy.Node.{BaNode, flags, ba_make_child, fork, ba_status, ba_mapping}
use pentinum_os.Buddy.Node.Pages.{IsTree, left_flags, right_flags}
use pentinum_os.Buddy.Search.{is_common}

-- The test on the masked flags.
abbrev pub both_parts : ℕ → Bool
both_parts x = not (ba_status x == 0) && not (ba_mapping x == 0)

-- Bit 7 is outside both masks.
low_part : (f g : ℕ) → bit_and f g % 128 ≡ bit_and (f % 128) g % 128
low_part f g =
    let again : bit_and (f % 128 % 128) (g % 128) ≡ bit_and (f % 128) (g % 128) =
      ap (λ x. bit_and x (g % 128)) (omega arith) in
    AndMod-page_flags f g ∙ sym again ∙ sym (AndMod-page_flags (f % 128) g)

both_parts-low : (x y : ℕ) → x % 128 ≡ y % 128 → both_parts x ≡ both_parts y
both_parts-low x y e =
    let status : x % 8 ≡ y % 8 = omega arith in
    let mapping : x / 8 % 16 * 8 ≡ y / 8 % 16 * 8 = omega arith in rw (status, mapping)

pub is_common-low : (f f' g : ℕ) → f % 128 ≡ f' % 128 → is_common f g ≡ is_common f' g
is_common-low f f' g e =
    both_parts-low (bit_and f (g % 256)) (bit_and f' (g % 256))
      (low_part f (g % 256) ∙ ap (λ x. bit_and x (g % 256) % 128) e ∙ sym (low_part f' (g % 256)))

-- A half of a block matches what the block matches.
pub is_common-child :
    (u : BaNode) (b : Bool) (g : ℕ)
    → is_common (flags (ba_make_child u b)) g ≡ is_common (flags u) g
unfolding ba_make_child
is_common-child u false g = is_common-low _ (flags u) g (rw (left_flags (flags u)) (omega arith))
is_common-child u true g = is_common-low _ (flags u) g (rw (right_flags (flags u)) (omega arith))

-- The status and the mapping of a disjunction are those of its parts together.
both_parts-or : (x y : ℕ) → both_parts x ≡ true → both_parts (bit_or x y) ≡ true
both_parts-or x y h = ground (
  arith,
  OrMod-eight x y,
  bit_or-above (x % 8) (y % 8),
  or_mapping x y,
  bit_or-above (x / 8 % 16) (y / 8 % 16),
)

is_common-or : (f f' g : ℕ) → is_common f g ≡ true → is_common (bit_or f f') g ≡ true
is_common-or f f' g h =
    rw (mask-join f f' (g % 256)) (both_parts-or (bit_and f (g % 256)) (bit_and f' (g % 256)) h)

-- What a child matches its parent matches too: the search does not skip it.
pub is_common-left :
    (a f o : ℕ) (l r : BaNode) (g : ℕ)
    → IsTree (fork a f o l r)
    → is_common (flags l) g ≡ true
    → is_common f g ≡ true
is_common-left a f o l r g w h =
    is_common-low f (bit_or (flags l) (flags r)) g
      (w.5 ∙ sym (OrMod-page_flags (flags l) (flags r)))
    ∙ is_common-or (flags l) (flags r) g h

pub is_common-right :
    (a f o : ℕ) (l r : BaNode) (g : ℕ)
    → IsTree (fork a f o l r)
    → is_common (flags r) g ≡ true
    → is_common f g ≡ true
is_common-right a f o l r g w h =
    is_common-low f (bit_or (flags r) (flags l)) g (
      w.5
      ∙ sym (OrMod-page_flags (flags l) (flags r))
      ∙ ap (λ x. x % 128) (bit_or_comm (flags l) (flags r)))
    ∙ is_common-or (flags r) (flags l) g h
