-- ===== src/Cstd.antt =====
-- The byte and string helpers of c-kernel/utils/cstdlib.c. Memory is a function from addresses to
-- bytes. Addresses do not wrap: a range ends below the end of the address space.
pub mod Copy
pub mod Math
pub mod Scan
mod Tests
use pentinum_os.Base.{
  ℕ, zero, suc, ◌+◌, ◌%◌, Bool, true, false, not, ◌==◌, if◌then◌else◌, Option, none, some,
}

abbrev pub Bytes : Type 0
Bytes = ℕ → ℕ

unfoldable pub set_byte : Bytes → ℕ → ℕ → Bytes
set_byte m a b x = if x == a then b else m x

-- The loop of `strlen` from index `i`, with `fuel` rounds left.
unfoldable pub length_from : ℕ → Bytes → ℕ → ℕ → Option ℕ
length_from zero m a i = none
length_from (suc fuel) m a i =
    let rest = length_from fuel m a (suc i) in if not (m (a + i) == 0) then rest else some i

unfoldable pub strlen : ℕ → Bytes → ℕ → Option ℕ
unfolding length_from
strlen fuel m a = length_from fuel m a 0

-- The loop of `strcmp` with `n` bytes left from index `i`.
unfoldable pub agree_from : Bytes → ℕ → ℕ → ℕ → ℕ → Bool
agree_from m a b i zero = true
agree_from m a b i (suc n) =
    let rest = agree_from m a b (suc i) n in if not (m (a + i) == m (b + i)) then false else rest

unfoldable pub strcmp : Bytes → ℕ → ℕ → ℕ → Bool
unfolding agree_from
strcmp m a b length = agree_from m a b 0 length

-- The loop of `memcpy` with `n` bytes left from index `i`.
unfoldable pub copy_from : Bytes → ℕ → ℕ → ℕ → ℕ → Bytes
copy_from m dst src i zero = m
copy_from m dst src i (suc n) = copy_from (set_byte m (dst + i) (m (src + i))) dst src (suc i) n

unfoldable pub memcpy : Bytes → ℕ → ℕ → ℕ → Bytes
unfolding copy_from
memcpy m dst src bytelength = copy_from m dst src 0 bytelength

-- The loop of `memset` with `n` bytes left from index `i`.
unfoldable pub fill_from : Bytes → ℕ → ℕ → ℕ → ℕ → Bytes
fill_from m target value i zero = m
fill_from m target value i (suc n) =
    fill_from (set_byte m (target + i) value) target value (suc i) n

unfoldable pub memset : Bytes → ℕ → ℕ → ℕ → Bytes
unfolding fill_from
memset m target bytelength value = fill_from m target value 0 bytelength
