-- ===== src/Base/Words.antt =====
-- Unsigned 32-bit arithmetic: a word is a number below 2 ^ 32, and the wrap is written out.
use Prim.Native.Nat.{ℕ, ◌+◌, ◌-◌, ◌%◌, ◌^◌}

abbrev pub add32 : ℕ → ℕ → ℕ
add32 a b = (a + b) % 2 ^ 32

abbrev pub sub32 : ℕ → ℕ → ℕ
sub32 a b = (a + 2 ^ 32 - b) % 2 ^ 32

-- `~a`
abbrev pub not32 : ℕ → ℕ
not32 a = 2 ^ 32 - 1 - a
