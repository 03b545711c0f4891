-- ===== src/Base/Masks.antt =====
-- Masks: `bit_and` at variables, over the digits of its arguments.
use Prim.Native.Nat.{
  ℕ, suc, ◌+◌, ◌*◌, ◌/◌, ◌%◌, ◌≤◌, bit_and, bit_or, bit_and-bitwise, bit_or-bitwise,
}
use mathlib.Core.Path.{◌≡◌, refl, ◌∙◌, sym}
use native.Mathlib.Omega.{arith}
use pentinum_os.Base.Bits.{halving, bit_or_step, bit_and_step, bit_and-zero, OrMod-sixteen}

zero_mask : (b : ℕ) → bit_and 0 b ≡ 0
zero_mask b = bit_and-bitwise 0 b

pub bit_and_comm : (a b : ℕ) → bit_and a b ≡ bit_and b a
bit_and_comm =
    halving (λ a. (b : ℕ) → bit_and a b ≡ bit_and b a) (λ b. zero_mask b ∙ sym (bit_and-zero b))
      (λ a h b. omega (arith, bit_and_step (suc a) b, bit_and_step b (suc a), h (b / 2)))

-- A disjunction is at least each of its parts.
pub bit_or-above : (a b : ℕ) → a ≤ bit_or a b
bit_or-above =
    halving (λ a. (b : ℕ) → a ≤ bit_or a b) (λ b. omega arith)
      (λ a h b. omega (arith, bit_or_step (suc a) b, h (b / 2)))

-- The lowest digits of a conjunction are those of its parts.
abbrev AndMod : ℕ → Type 0
AndMod m = (a b : ℕ) → bit_and a b % m ≡ bit_and (a % m) (b % m)

AndMod-double :
    (m : ℕ) → ((a : ℕ) → a % (2 * m) ≡ a / 2 % m * 2 + a % 2) → AndMod m → AndMod (2 * m)
AndMod-double m parts h a b =
    let left : a % (2 * m) / 2 ≡ a / 2 % m = omega (arith, parts a) in
    let right : b % (2 * m) / 2 ≡ b / 2 % m = omega (arith, parts b) in
    let low : bit_and a b / 2 ≡ bit_and (a / 2) (b / 2) = omega (arith, bit_and_step a b) in
    let halved : bit_and (a % (2 * m) / 2) (b % (2 * m) / 2) ≡ bit_and (a / 2 % m) (b / 2 % m) =
      rw (left, right) in
    let quotient : bit_and a b / 2 % m ≡ bit_and (a / 2 % m) (b / 2 % m) =
      rw low (h (a / 2) (b / 2)) in
    omega (
      arith,
      parts (bit_and a b),
      parts a,
      parts b,
      bit_and_step a b,
      bit_and_step (a % (2 * m)) (b % (2 * m)),
      halved,
      quotient,
    )

AndMod-one : AndMod 1
AndMod-one a b =
    let zeros : bit_and (a % 1) (b % 1) ≡ bit_and 0 0 = rw (mod-one a, mod-one b) in
    omega (arith, zeros)
  where
    mod-one : (n : ℕ) → n % 1 ≡ 0
    mod-one n = omega arith

AndMod-eight : AndMod 8
AndMod-eight =
    AndMod-double 4 (λ a. omega arith)
      (AndMod-double 2 (λ a. omega arith) (AndMod-double 1 (λ a. omega arith) AndMod-one))

pub AndMod-page_flags : AndMod 128
AndMod-page_flags =
    AndMod-double 64 (λ a. omega arith)
      (AndMod-double 32 (λ a. omega arith)
        (AndMod-double 16 (λ a. omega arith) (AndMod-double 8 (λ a. omega arith) AndMod-eight)))

-- A mask of a disjunction is the disjunction of the masked parts.
pub mask-join : (a b c : ℕ) → bit_and (bit_or a b) c ≡ bit_or (bit_and a c) (bit_and b c)
mask-join =
    halving (λ a. (b c : ℕ) → bit_and (bit_or a b) c ≡ bit_or (bit_and a c) (bit_and b c))
      (λ b c. rw (bit_or-bitwise 0 b, zero_mask c) (sym (bit_or-bitwise 0 (bit_and b c))))
      (λ a h b c. join_step (suc a) b c (h (b / 2) (c / 2)))
  where
    join_step :
        (a b c : ℕ)
        → bit_and (bit_or (a / 2) (b / 2)) (c / 2)
          ≡ bit_or (bit_and (a / 2) (c / 2)) (bit_and (b / 2) (c / 2))
        → bit_and (bit_or a b) c ≡ bit_or (bit_and a c) (bit_and b c)
    join_step a b c h =
        let high : bit_or a b / 2 ≡ bit_or (a / 2) (b / 2) = omega (arith, bit_or_step a b) in
        let left : bit_and a c / 2 ≡ bit_and (a / 2) (c / 2) = omega (arith, bit_and_step a c) in
        let right : bit_and b c / 2 ≡ bit_and (b / 2) (c / 2) = omega (arith, bit_and_step b c) in
        let masked : bit_and (bit_or a b / 2) (c / 2) ≡ bit_or (bit_and a c / 2) (bit_and b c / 2) =
          rw (high, left, right) h in
        omega (
          arith,
          bit_or_step a b,
          bit_and_step a c,
          bit_and_step b c,
          bit_and_step (bit_or a b) c,
          bit_or_step (bit_and a c) (bit_and b c),
          masked,
        )

-- Bits 3 to 6 of a disjunction are the disjunction of those of its parts.
pub or_mapping : (x y : ℕ) → bit_or x y / 8 % 16 ≡ bit_or (x / 8 % 16) (y / 8 % 16)
or_mapping x y =
    let high : bit_or x y / 8 ≡ bit_or (x / 2 / 2 / 2) (y / 2 / 2 / 2) =
      omega (
        arith,
        bit_or_step x y,
        bit_or_step (x / 2) (y / 2),
        bit_or_step (x / 2 / 2) (y / 2 / 2),
      ) in
    let left : x / 2 / 2 / 2 ≡ x / 8 = omega arith in
    let right : y / 2 / 2 / 2 ≡ y / 8 = omega arith in
    rw high (rw (left, right) (OrMod-sixteen (x / 8) (y / 8)))

pub bit_and_self : (a : ℕ) → bit_and a a ≡ a
bit_and_self =
    halving (λ a. bit_and a a ≡ a) refl (λ a h. omega (arith, bit_and_step (suc a) (suc a), h))
