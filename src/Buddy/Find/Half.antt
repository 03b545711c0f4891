-- ===== src/Buddy/Find/Half.antt =====
-- The half of a block in which a page lies, and the bit that `ba_find_node` tests.
use native.Mathlib.Nat.{div-eq_of_lt-le}
use mathlib.Core.Path.{ap₂}
use pentinum_os.Base.{ℕ, suc, ◌+◌, ◌*◌, ◌/◌, ◌%◌, ◌^◌, ◌≤◌, ◌<◌, ◌≡◌, sym, ap, ◌∙◌, arith}
use pentinum_os.Buddy.Node.{BaNode, fork, address, order}
use pentinum_os.Buddy.Node.Pages.{IsTree, Holds, halves}

-- The bit that the walk tests says in which half of the block the page lies.
bit_of_half :
    (addr P m : ℕ)
    → (m * (P + P) ≤ addr → addr < m * (P + P) + P → addr / P % 2 ≡ 0)
      × (m * (P + P) + P ≤ addr → addr < m * (P + P) + P + P → addr / P % 2 ≡ 1)
bit_of_half addr P m = (
  (λ low high.
      let q = div-eq_of_lt-le {k = 2 * m} P {m = addr} (omega arith) (omega arith) in
      omega (arith, q)),
  (λ low high.
      let q = div-eq_of_lt-le {k = 2 * m + 1} P {m = addr} (omega arith) (omega arith) in
      omega (arith, q)),
)

-- The block starts at a multiple of its size.
abbrev pub IsAligned : BaNode → ℕ → Type 0
IsAligned t m = address t ≡ m * 2 ^ order t

-- The halves of a node of order `h + 1` have `2 ^ h` pages.
pub order-halves :
    (h a f o : ℕ) (l r : BaNode)
    → IsTree (fork a f o l r)
    → o ≡ suc h
    → (2 ^ order l ≡ 2 ^ h) × (2 ^ order r ≡ 2 ^ h)
order-halves h a f o l r w e =
    let height_l : order l ≡ h = omega (arith, w.1) in
    let height_r : order r ≡ h = omega (arith, w.2) in
    (ap (λ k. 2 ^ k) height_l, ap (λ k. 2 ^ k) height_r)

module _ (addr h m a f o : ℕ) (l r : BaNode) (w : IsTree (fork a f o l r))
    (al : IsAligned (fork a f o l r) m) (e : o ≡ suc h) where
  start : a ≡ m * (2 ^ h + 2 ^ h)
  start =
      let (size_l, size_r) = order-halves h a f o l r w e in
      let size : 2 ^ o ≡ 2 ^ h + 2 ^ h = omega (arith, (halves a f o l r w).1, size_r) in
      al ∙ ap (λ k. m * k) size

  pub left_half : Holds l addr → (addr / 2 ^ h % 2 ≡ 0) × IsAligned l (2 * m)
  left_half inside =
      let (size_l, size_r) = order-halves h a f o l r w e in
      let twice : 2 * m * 2 ^ h ≡ m * (2 ^ h + 2 ^ h) = omega arith in
      (
        (bit_of_half addr (2 ^ h) m).0 (omega (arith, start, w.3))
            (omega (arith, start, w.3, size_l)),
        w.3 ∙ start ∙ sym twice ∙ ap (λ k. 2 * m * k) (sym size_l),
      )

  pub right_half : Holds r addr → (addr / 2 ^ h % 2 ≡ 1) × IsAligned r (2 * m + 1)
  right_half inside =
      let (size_l, size_r) = order-halves h a f o l r w e in
      let twice : (2 * m + 1) * 2 ^ h ≡ m * (2 ^ h + 2 ^ h) + 2 ^ h = omega arith in
      (
        (bit_of_half addr (2 ^ h) m).1 (omega (arith, start, w.4, size_r))
            (omega (arith, start, w.4, size_r)),
        w.4 ∙ ap₂ ◌+◌ start size_r ∙ sym twice ∙ ap (λ k. (2 * m + 1) * k) (sym size_r),
      )
