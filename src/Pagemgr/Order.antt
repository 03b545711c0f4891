-- ===== src/Pagemgr/Order.antt =====
-- The order of a request: the smallest power of two that covers it.
use native.Mathlib.Nat.{pow-suc, div-eq_of_lt-le}
use pentinum_os.Base.{
  ℕ, zero, suc, ◌+◌, ◌-◌, ◌*◌, ◌/◌, ◌%◌, ◌^◌, ◌≤◌, ◌<◌, ◌≡◌, ◌≢◌, refl, ap, ◌∙◌, arith, bit_and,
  true, false, some, ◌==◌, ltb, Bool-cases, inl, inr, sub32,
}
use pentinum_os.Base.Bits.{bit_and_step}
use pentinum_os.Base.Masks.{bit_and_self}
use pentinum_os.Pagemgr.{leading_zeros, get_highest_setbit_loc, is_power, req_order}

-- The bit above which there are none.
abbrev pub IsTop : ℕ → ℕ → Type 0
IsTop v j = (2 ^ j ≤ v) × (v < 2 ^ suc j)

leading_zeros-IsTop :
    (n v : ℕ) → 1 ≤ v → v < 2 ^ n → (j : ℕ) × (leading_zeros n v + suc j ≡ n) × IsTop v j
unfolding leading_zeros
leading_zeros-IsTop zero v pos small = absurd (omega arith)
leading_zeros-IsTop (suc n) v pos small = elim (Bool-cases (ltb v (2 ^ n))) [
  | inl low ↦
      let below : v < 2 ^ n = ground arith in
      let q : v / 2 ^ n ≡ 0 = div-eq_of_lt-le {k = 0} (2 ^ n) {m = v} (omega arith) (omega arith) in
      let (j, sum, top) = leading_zeros-IsTop n v pos below in rw q (j, omega arith, top)
  | inr high ↦
      let above : 2 ^ n ≤ v = ground arith in
      let double : 2 ^ suc n ≡ 2 ^ n + 2 ^ n = omega (arith, pow-suc 2 n) in
      let q : v / 2 ^ n ≡ 1 = div-eq_of_lt-le {k = 1} (2 ^ n) {m = v} (omega arith) (omega arith) in
      rw q (n, omega arith, (above, small))
]

-- `n & (n - 1)` is zero at the powers of two alone.
power_test :
    (j a : ℕ)
    → IsTop a j
    → (bit_and a (a - 1) ≡ 0 → a ≡ 2 ^ j) × (a ≡ 2 ^ j → bit_and a (a - 1) ≡ 0)
power_test zero a top = let one : a ≡ 1 = omega arith in rw one ((λ e. refl), (λ e. refl))
power_test (suc j) a top =
    let double : 2 ^ suc j ≡ 2 * 2 ^ j = omega (arith, pow-suc 2 j) in
    let double' : 2 ^ suc (suc j) ≡ 2 * 2 ^ suc j = omega (arith, pow-suc 2 (suc j)) in
    let half : IsTop (a / 2) j = (omega arith, omega arith) in
    let step = bit_and_step a (a - 1) in
    elim (Bool-cases (a % 2 == 0)) [
      | inl even ↦
          let r : a % 2 ≡ 0 = ground arith in
          let rec = power_test j (a / 2) half in
          let high : bit_and (a / 2) ((a - 1) / 2) ≡ bit_and (a / 2) (a / 2 - 1) =
            ap (bit_and (a / 2)) (omega arith) in
          (
            (λ e. let small = rec.0 (omega (arith, step, high, e)) in omega (arith, small)),
            (λ e. omega (arith, step, high, rec.1 (omega arith))),
          )
      | inr odd ↦
          let r : a % 2 ≡ 1 = ground arith in
          let high : bit_and (a / 2) ((a - 1) / 2) ≡ a / 2 =
            ap (bit_and (a / 2)) (omega arith) ∙ bit_and_self (a / 2) in
          ((λ e. absurd (omega (arith, step, high, e))), (λ e. absurd (omega arith)))
    ]

-- The highest set bit of a word that is not zero, counted from 1.
pub get_highest_setbit_loc-IsTop :
    (v : ℕ)
    → 1 ≤ v
    → v < 2 ^ 32
    → (j : ℕ) × (get_highest_setbit_loc v ≡ some (suc j)) × (j < 32) × IsTop v j
unfolding get_highest_setbit_loc
get_highest_setbit_loc-IsTop v pos small =
    let (j, sum, top) = leading_zeros-IsTop 32 v pos small in
    let some_bit : (v == 0) ≡ false = ground arith in
    let place : 32 - leading_zeros 32 v ≡ suc j = omega arith in
    (j, rw (some_bit, place) refl, omega arith, top)

-- The test of both allocators and of `free_pages`.
pub is_power-IsTop :
    (v j : ℕ)
    → 1 ≤ v
    → v < 2 ^ 32
    → IsTop v j
    → (is_power v ≡ true → v ≡ 2 ^ j) × (is_power v ≡ false → v ≢ 2 ^ j)
is_power-IsTop v j pos small top =
    let down : sub32 v 1 ≡ v - 1 = omega arith in
    let test = power_test j v top in
    rw down ((λ e. test.0 (ground (arith, e))), (λ e same. ground (arith, test.1 same, e)))

-- For a number of pages that is not zero, the order that is requested exists, covers the pages, and
-- no smaller order would.
pub req_order-Covers :
    (page_cnt : ℕ)
    → 1 ≤ page_cnt
    → page_cnt < 2 ^ 32
    → (k : ℕ) × (req_order page_cnt ≡ some k) × (page_cnt ≤ 2 ^ k) × (2 ^ k < 2 * page_cnt)
unfolding req_order
req_order-Covers page_cnt pos small =
    let (j, loc, bound, top) = get_highest_setbit_loc-IsTop page_cnt pos small in
    let test = is_power-IsTop page_cnt j pos small top in
    let double : 2 ^ suc j ≡ 2 * 2 ^ j = omega (arith, pow-suc 2 j) in
    elim (Bool-cases (is_power page_cnt)) [
      | inl power ↦
          let same = test.0 power in
          let back : suc j - 1 ≡ j = omega arith in
          rw (loc, power, req_order) (j, ap some back, omega arith, omega arith)
      | inr other ↦
          let differs = test.1 other in
          rw (loc, other, req_order) (suc j, refl, omega arith, ground (arith, differs))
    ]
