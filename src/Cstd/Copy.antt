-- ===== src/Cstd/Copy.antt =====
-- `memcpy` and `memset` of c-kernel/utils/cstdlib.c.
use pentinum_os.Base.{
  ℕ, zero, suc, ◌+◌, ◌-◌, ◌≤◌, ◌<◌, ◌≡◌, ◌⊎◌, inl, inr, ltb, leb, ◌&&◌, ◌==◌, if◌then◌else◌, arith,
  ap, Bool-cases,
}
use pentinum_os.Cstd.{Bytes, set_byte, copy_from, memcpy, fill_from, memset}

-- The bytes from `lo` to `hi - 1` are those `back` before them in `m`, and the others are unchanged.
abbrev pub Shifted : Bytes → Bytes → ℕ → ℕ → ℕ → ℕ → Type 0
Shifted m m' dst src lo hi =
    (x : ℕ) → m' x ≡ (if leb (dst + lo) x && ltb x (dst + hi) then m (src + (x - dst)) else m x)

copy_from-Shifted :
    (n i : ℕ) (m : Bytes) (dst src : ℕ)
    → (dst ≤ src) ⊎ (src + i + n ≤ dst + i)
    → Shifted m (copy_from m dst src i n) dst src i (i + n)
unfolding copy_from set_byte
copy_from-Shifted zero i m dst src apart x = ground arith
copy_from-Shifted (suc n) i m dst src apart x =
    let m1 : Bytes = set_byte m (dst + i) (m (src + i)) in
    let rest = copy_from-Shifted n (suc i) m1 dst src (ground arith) x in
    elim (Bool-cases (x == dst + i)) [
      | inl here ↦
          let q : m (src + (x - dst)) ≡ m (src + i) = ap m (ground arith) in ground (arith, rest, q)
      | inr there ↦ ground (arith, rest)
    ]

-- `memcpy` over a target that does not begin inside the source: the target's bytes are the source's
-- as they were, and no other byte changes.
pub memcpy-copies :
    (m : Bytes) (dst src n : ℕ)
    → (dst ≤ src) ⊎ (src + n ≤ dst)
    → ((i : ℕ) → i < n → memcpy m dst src n (dst + i) ≡ m (src + i))
      × ((x : ℕ) → (x < dst) ⊎ (dst + n ≤ x) → memcpy m dst src n x ≡ m x)
unfolding memcpy
memcpy-copies m dst src n apart =
    let all = copy_from-Shifted n 0 m dst src (ground arith) in
    (
      λ i h.
          let q : m (src + (dst + i - dst)) ≡ m (src + i) = ap m (omega arith) in
          ground (arith, all (dst + i), q),
      λ x out. ground (arith, all x),
    )

fill_from-fills :
    (n i : ℕ) (m : Bytes) (target value x : ℕ)
    → fill_from m target value i n x
      ≡ (if leb (target + i) x && ltb x (target + (i + n)) then value else m x)
unfolding fill_from set_byte
fill_from-fills zero i m target value x = ground arith
fill_from-fills (suc n) i m target value x =
    ground (arith, fill_from-fills n (suc i) (set_byte m (target + i) value) target value x)

-- `memset` gives each byte of its range the value, and changes no other byte.
pub memset-fills :
    (m : Bytes) (target n value x : ℕ)
    → memset m target n value x ≡ (if leb target x && ltb x (target + n) then value else m x)
unfolding memset
memset-fills m target n value x = ground (arith, fill_from-fills n 0 m target value x)
