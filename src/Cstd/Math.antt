-- ===== src/Cstd/Math.antt =====
-- The arithmetic helpers of c-kernel/utils/cstdlib.c.
use pentinum_os.Base.{ℕ, ◌+◌, ◌-◌, ◌/◌, ◌%◌, ◌^◌, bit_or, add32, sub32}

unfoldable pub div_ceil : ℕ → ℕ → ℕ
div_ceil p q = (p + q + 2 ^ 64 - 1) % 2 ^ 64 / q

unfoldable pub div_floor : ℕ → ℕ → ℕ
div_floor p q = p / q

abbrev smear : ℕ → ℕ → ℕ
smear v n = bit_or v (v / 2 ^ n)

unfoldable pub ceil_to_2power : ℕ → ℕ
ceil_to_2power v = add32 (smear (smear (smear (smear (smear (sub32 v 1) 1) 2) 4) 8) 16) 1
