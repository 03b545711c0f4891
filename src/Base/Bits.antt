-- ===== src/Base/Bits.antt =====
-- Facts about `bit_and` and `bit_or` at variables, from the digits that they work on.
use Prim.Native.Nat.{
  ℕ, zero, suc, ◌+◌, ◌*◌, ◌/◌, ◌%◌, ◌≤◌, ◌<◌, max, min, bit_and, bit_or, digits, bit_and-bitwise,
  bit_or-bitwise,
}
use mathlib.Core.Path.{◌≡◌, refl, ap, ◌∙◌, sym}
use native.Mathlib.Omega.{arith}

-- A property of numbers that holds of zero, and of a positive number when it holds of its half.
pub halving : (P : ℕ → Type 0) → P 0 → ((a : ℕ) → P (suc a / 2) → P (suc a)) → (a : ℕ) → P a
halving P base step a = go a a (omega arith)
  where
    go : (bound x : ℕ) → x ≤ bound → P x
    go bound zero below = base
    go zero (suc x) below = absurd (omega arith)
    go (suc bound) (suc x) below = step x (go bound (suc x / 2) (omega arith))

-- `op` works on one binary digit after the other, by `bit`.
abbrev ByDigit : (ℕ → ℕ → ℕ) → (ℕ → ℕ → ℕ) → Type 0
ByDigit op bit = (a b : ℕ) → op a b ≡ op (a / 2) (b / 2) * 2 + bit (a % 2) (b % 2)

module _ (z : ℕ → ℕ) (bit : ℕ → ℕ → ℕ) where
  -- The native operation takes its first number as fuel; more fuel changes nothing.
  more_fuel : (x y n : ℕ) → x ≤ n → (m : ℕ) → x ≤ m → digits z bit n x y ≡ digits z bit m x y
  more_fuel zero y zero p zero q = refl
  more_fuel zero y zero p (suc m) q = refl
  more_fuel zero y (suc n) p zero q = refl
  more_fuel zero y (suc n) p (suc m) q = refl
  more_fuel (suc x) y zero p m q = absurd (omega arith)
  more_fuel (suc x) y (suc n) p zero q = absurd (omega arith)
  more_fuel (suc x) y (suc n) p (suc m) q =
      ap (λ t. t * 2 + bit (suc x % 2) (y % 2))
        (more_fuel (suc x / 2) (y / 2) n (omega arith) m (omega arith))

  by_digit :
      (op : ℕ → ℕ → ℕ)
      → ((x y : ℕ) → op x y ≡ digits z bit x x y)
      → ((y : ℕ) → z y ≡ z (y / 2) * 2 + bit 0 (y % 2))
      → ByDigit op bit
  by_digit op means base zero y =
      means 0 y ∙ base y ∙ ap (λ t. t * 2 + bit 0 (y % 2)) (sym (means 0 (y / 2)))
  by_digit op means base (suc x) y =
      let shorter : digits z bit x (suc x / 2) (y / 2) ≡ op (suc x / 2) (y / 2) =
        more_fuel (suc x / 2) (y / 2) x (omega arith) (suc x / 2) (omega arith)
        ∙ sym (means (suc x / 2) (y / 2)) in
      means (suc x) y ∙ ap (λ t. t * 2 + bit (suc x % 2) (y % 2)) shorter

pub bit_or_step : ByDigit bit_or max
bit_or_step = by_digit (λ y. y) max bit_or bit_or-bitwise (λ y. omega arith)

pub bit_and_step : ByDigit bit_and min
bit_and_step = by_digit (λ y. 0) min bit_and bit_and-bitwise (λ y. omega arith)

-- Nothing joined with a number is the number.
pub bit_or-zero : (a : ℕ) → bit_or a 0 ≡ a
bit_or-zero = halving (λ a. bit_or a 0 ≡ a) refl (λ a h. omega (arith, bit_or_step (suc a) 0, h))

pub bit_and-zero : (a : ℕ) → bit_and a 0 ≡ 0
bit_and-zero = halving (λ a. bit_and a 0 ≡ 0) refl (λ a h. omega (arith, bit_and_step (suc a) 0, h))

-- Joining a multiple of `m` with a number below `m` is adding.
abbrev OrIsAdd : ℕ → Type 0
OrIsAdd m = (a b : ℕ) → b < m → bit_or (m * a) b ≡ m * a + b

OrIsAdd-double : (m : ℕ) → OrIsAdd m → OrIsAdd (2 * m)
OrIsAdd-double m h a b lt =
    omega (arith, bit_or_step (2 * m * a) b, h a (b / 2) (omega arith), half)
  where
    half : bit_or (2 * m * a / 2) (b / 2) ≡ bit_or (m * a) (b / 2)
    half = ap (λ t. bit_or t (b / 2)) (omega arith)

OrIsAdd-one : OrIsAdd 1
OrIsAdd-one a zero lt = bit_or-zero (1 * a) ∙ omega arith
OrIsAdd-one a (suc b) lt = absurd (omega arith)

pub or_status : OrIsAdd 8
or_status = OrIsAdd-double 4 (OrIsAdd-double 2 (OrIsAdd-double 1 OrIsAdd-one))

OrIsAdd-sixteen : OrIsAdd 16
OrIsAdd-sixteen = OrIsAdd-double 8 or_status

-- A page's address and a number below the page size.
pub or_page : OrIsAdd 4096
or_page = OrIsAdd-double 2048 (
    OrIsAdd-double 1024 (
      OrIsAdd-double 512 (
        OrIsAdd-double 256 (
          OrIsAdd-double 128
            (OrIsAdd-double 64 (OrIsAdd-double 32 (OrIsAdd-double 16 OrIsAdd-sixteen)))))))

-- A disjunction of two numbers below a power of two stays below it.
abbrev OrIsBelow : ℕ → Type 0
OrIsBelow m = (a b : ℕ) → a < m → b < m → bit_or a b < m

OrIsBelow-double : (m : ℕ) → OrIsBelow m → OrIsBelow (2 * m)
OrIsBelow-double m h a b p q =
    omega (arith, bit_or_step a b, h (a / 2) (b / 2) (omega arith) (omega arith))

OrIsBelow-one : OrIsBelow 1
OrIsBelow-one zero zero p q = omega arith
OrIsBelow-one a b p q = absurd (omega arith)

OrIsBelow-sixteen : OrIsBelow 16
OrIsBelow-sixteen =
    OrIsBelow-double 8 (OrIsBelow-double 4 (OrIsBelow-double 2 (OrIsBelow-double 1 OrIsBelow-one)))

pub or_byte_below : OrIsBelow 256
or_byte_below =
    OrIsBelow-double 128
      (OrIsBelow-double 64 (OrIsBelow-double 32 (OrIsBelow-double 16 OrIsBelow-sixteen)))

pub or_page_below : OrIsBelow 4096
or_page_below =
    OrIsBelow-double 2048
      (OrIsBelow-double 1024 (OrIsBelow-double 512 (OrIsBelow-double 256 or_byte_below)))

-- `a & k`, where `k` is a mask of ones below `m`.
abbrev AndIsMod : ℕ → ℕ → Type 0
AndIsMod k m = (a : ℕ) → bit_and a k ≡ a % m

AndIsMod-double :
    (k m : ℕ)
    → ((a : ℕ) → a % (2 * m) ≡ a / 2 % m * 2 + a % 2)
    → AndIsMod k m
    → AndIsMod (2 * k + 1) (2 * m)
AndIsMod-double k m parts h a =
    omega (arith, bit_and_step a (2 * k + 1), h (a / 2), ap (λ t. bit_and (a / 2) t) half, parts a)
  where
    half : (2 * k + 1) / 2 ≡ k
    half = omega arith

AndIsMod-zero : AndIsMod 0 1
AndIsMod-zero a = bit_and-zero a ∙ omega arith

pub and_one : AndIsMod 1 2
and_one = AndIsMod-double 0 1 (λ a. omega arith) AndIsMod-zero

-- A word rounded down to 16 bytes, by its mask.
pub and_fifteen : AndIsMod 15 16
and_fifteen =
    AndIsMod-double 7 8 (λ a. omega arith)
      (AndIsMod-double 3 4 (λ a. omega arith) (AndIsMod-double 1 2 (λ a. omega arith) and_one))

-- The lowest seven bits, joined with the eighth, and a number joined with itself.
pub or_low : OrIsAdd 128
or_low = OrIsAdd-double 64 (OrIsAdd-double 32 (OrIsAdd-double 16 OrIsAdd-sixteen))

pub bit_or_self : (a : ℕ) → bit_or a a ≡ a
bit_or_self =
    halving (λ a. bit_or a a ≡ a) refl (λ a h. omega (arith, bit_or_step (suc a) (suc a), h))

pub bit_or_comm : (a b : ℕ) → bit_or a b ≡ bit_or b a
bit_or_comm =
    halving (λ a. (b : ℕ) → bit_or a b ≡ bit_or b a) (λ b. bit_or-bitwise 0 b ∙ sym (bit_or-zero b))
      (λ a h b. omega (arith, bit_or_step (suc a) b, bit_or_step b (suc a), h (b / 2)))

-- The lowest digits of a disjunction are those of its parts.
abbrev OrMod : ℕ → Type 0
OrMod m = (a b : ℕ) → bit_or a b % m ≡ bit_or (a % m) (b % m)

OrMod-double : (m : ℕ) → ((a : ℕ) → a % (2 * m) ≡ a / 2 % m * 2 + a % 2) → OrMod m → OrMod (2 * m)
OrMod-double m parts h a b =
    let left : a % (2 * m) / 2 ≡ a / 2 % m = omega (arith, parts a) in
    let right : b % (2 * m) / 2 ≡ b / 2 % m = omega (arith, parts b) in
    let low : bit_or a b / 2 ≡ bit_or (a / 2) (b / 2) = omega (arith, bit_or_step a b) in
    let halved : bit_or (a % (2 * m) / 2) (b % (2 * m) / 2) ≡ bit_or (a / 2 % m) (b / 2 % m) =
      rw (left, right) in
    let quotient : bit_or a b / 2 % m ≡ bit_or (a / 2 % m) (b / 2 % m) =
      rw low (h (a / 2) (b / 2)) in
    omega (
      arith,
      parts (bit_or a b),
      parts a,
      parts b,
      bit_or_step a b,
      bit_or_step (a % (2 * m)) (b % (2 * m)),
      halved,
      quotient,
    )

OrMod-one : OrMod 1
OrMod-one a b =
    let zeros : bit_or (a % 1) (b % 1) ≡ bit_or 0 0 = rw (mod-one a, mod-one b) in
    omega (arith, zeros)
  where
    mod-one : (n : ℕ) → n % 1 ≡ 0
    mod-one n = omega arith

pub OrMod-eight : OrMod 8
OrMod-eight =
    OrMod-double 4 (λ a. omega arith)
      (OrMod-double 2 (λ a. omega arith) (OrMod-double 1 (λ a. omega arith) OrMod-one))

pub OrMod-page_flags : OrMod 128
OrMod-page_flags =
    OrMod-double 64 (λ a. omega arith)
      (OrMod-double 32 (λ a. omega arith)
        (OrMod-double 16 (λ a. omega arith) (OrMod-double 8 (λ a. omega arith) OrMod-eight)))

pub OrMod-sixteen : OrMod 16
OrMod-sixteen = OrMod-double 8 (λ a. omega arith) OrMod-eight
