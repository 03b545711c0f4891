-- ===== src/Format/Number.antt =====
-- The digits of a number, `gfmt_format_num_buf` of c-kernel/utils/impl/gfmt.c. A buffer is a function
-- from indices to characters.
pub mod Turn
pub mod Value
use pentinum_os.Base.{
  ℕ, zero, suc, ◌+◌, ◌-◌, ◌/◌, ◌%◌, Bool, true, false, Option, none, some, ◌==◌, ltb, if◌then◌else◌,
  update,
}

abbrev pub Buf : Type 0
Buf = ℕ → ℕ

-- "0123456789abcdef" and "0123456789ABCDEF"
abbrev pub map_small : ℕ → ℕ
map_small d = if ltb d 10 then 48 + d else 87 + d

abbrev pub map_big : ℕ → ℕ
map_big d = if ltb d 10 then 48 + d else 55 + d

abbrev pub digit_char : Bool → ℕ → ℕ
digit_char use_capital d = if use_capital then map_big d else map_small d

-- The loop over the digits, the last digit first, with at most `fuel` tests of its condition.
unfoldable pub digits_loop : ℕ → ℕ → Bool → ℕ → Buf → ℕ → Option (ℕ × Buf)
digits_loop zero base use_capital value buf i = none
digits_loop (suc fuel) base use_capital value buf i = elim (value == 0) [
  | true ↦ some (i, buf)
  | false ↦
      digits_loop fuel base use_capital (value / base)
        (update buf i (digit_char use_capital (value % base))) (suc i)
]

-- `n` rounds of the loop that reverses the first `len` characters, from index `j` on.
unfoldable pub reverse_loop : ℕ → ℕ → ℕ → Buf → Buf
reverse_loop zero j len buf = buf
reverse_loop (suc n) j len buf =
    let temp = buf j in
    reverse_loop n (suc j) len (update (update buf j (buf (len - 1 - j))) (len - 1 - j) temp)

abbrev pub reversed : Option (ℕ × Buf) → Option (ℕ × Buf)
reversed none = none
reversed (some r) = some (r.0, reverse_loop (r.0 / 2) 0 r.0 r.1)

-- The length of the number, and the buffer.
unfoldable pub gfmt_format_num_buf : ℕ → Buf → ℕ → Bool → Option (ℕ × Buf)
gfmt_format_num_buf value buf base use_capital =
    if value == 0
    then some (1, update buf 0 48)
    else reversed (digits_loop 33 base use_capital value buf 0)
