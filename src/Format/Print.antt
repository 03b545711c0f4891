-- ===== src/Format/Print.antt =====
-- The printer of c-kernel/utils/impl/gfmt.c. The characters that are given to `gfmt_putc`, which the
-- user of the printer provides, are a list in their order. The variable arguments are a list of
-- values; `none` is a read behind their end or behind the memory that `fuel` lets a string take.
pub mod Escape
pub mod Padding
use pentinum_os.Base.{
  ℕ, zero, suc, ◌+◌, ◌-◌, ◌*◌, ◌/◌, ◌%◌, ◌^◌, Bool, true, false, not, ◌&&◌, ◌||◌, List, [], ◌∷◌,
  ◌++◌, Option, none, some, ◌==◌, ltb, leb, if◌then◌else◌, replicate,
}
use pentinum_os.Format.Number.{Buf, gfmt_format_num_buf}
use pentinum_os.Format.Spec.{Spec, gfmt_ok, gfmt_parse_fmt_spec}

-- What a call prints, and the arguments that are left.
pub record Out : Type 0 where
  pub printed : List ℕ
  pub args : List ℕ

abbrev pub emit : List ℕ → Option Out → Option Out
emit cs none = none
emit cs (some o) = some (record { printed = cs ++ o.printed; args = o.args })

unfoldable pub gfmt_cstr_len : ℕ → Buf → ℕ → Option ℕ
gfmt_cstr_len zero cstr len = none
gfmt_cstr_len (suc fuel) cstr len = elim (cstr len == 0) [
  | true ↦ some len
  | false ↦ gfmt_cstr_len fuel cstr (suc len)
]

-- The `len` characters of a string from index `i` on.
unfoldable pub gfmt_putstr : Buf → ℕ → ℕ → List ℕ
gfmt_putstr cstr i zero = []
gfmt_putstr cstr i (suc len) = cstr i ∷ gfmt_putstr cstr (suc i) len

abbrev pub padding_of : ℕ → Spec → List ℕ
padding_of len spec = replicate (if ltb len spec.width then spec.width - len else 0) spec.fill

unfoldable pub gfmt_print_formatted_string : Buf → ℕ → Spec → List ℕ
gfmt_print_formatted_string str len spec =
    (if spec.align == 62 then padding_of len spec else [])
    ++ (gfmt_putstr str 0 len ++ (if spec.align == 60 then padding_of len spec else []))

-- "[gfmt_printer] invalid format specifier: "
abbrev pub invalid_text : List ℕ
invalid_text =
    91 ∷ 103 ∷ 102 ∷ 109 ∷ 116 ∷ 95 ∷ 112 ∷ 114 ∷ 105 ∷ 110 ∷ 116 ∷ 101 ∷ 114 ∷ 93 ∷ 32 ∷ 105 ∷ 110
    ∷ 118 ∷ 97 ∷ 108 ∷ 105 ∷ 100 ∷ 32 ∷ 102 ∷ 111 ∷ 114 ∷ 109 ∷ 97 ∷ 116 ∷ 32 ∷ 115 ∷ 112 ∷ 101 ∷ 99
    ∷ 105 ∷ 102 ∷ 105 ∷ 101 ∷ 114 ∷ 58 ∷ 32 ∷ []

-- The texts of `gfmt_error_strings`.
abbrev pub gfmt_error_strings : ℕ → List ℕ
gfmt_error_strings error =
    if error == 1
    then 110 ∷ 111 ∷ 32 ∷ 116 ∷ 121 ∷ 112 ∷ 101 ∷ 32 ∷ 115 ∷ 112 ∷ 101 ∷ 99 ∷ 105 ∷ 102 ∷ 105 ∷ 101
      ∷ 100 ∷ []
    else if error == 2
    then 117 ∷ 110 ∷ 101 ∷ 120 ∷ 112 ∷ 101 ∷ 99 ∷ 116 ∷ 101 ∷ 100 ∷ 32 ∷ 99 ∷ 104 ∷ 97 ∷ 114 ∷ 97
      ∷ 99 ∷ 116 ∷ 101 ∷ 114 ∷ 32 ∷ 97 ∷ 102 ∷ 116 ∷ 101 ∷ 114 ∷ 32 ∷ 100 ∷ 97 ∷ 116 ∷ 97 ∷ 116
      ∷ 121 ∷ 112 ∷ 101 ∷ []
    else if error == 3
    then 117 ∷ 110 ∷ 101 ∷ 120 ∷ 112 ∷ 101 ∷ 99 ∷ 116 ∷ 101 ∷ 100 ∷ 32 ∷ 99 ∷ 104 ∷ 97 ∷ 114 ∷ 97
      ∷ 99 ∷ 116 ∷ 101 ∷ 114 ∷ 32 ∷ 97 ∷ 102 ∷ 116 ∷ 101 ∷ 114 ∷ 32 ∷ 100 ∷ 97 ∷ 116 ∷ 97 ∷ 115
      ∷ 105 ∷ 122 ∷ 101 ∷ []
    else if error == 4
    then 117 ∷ 110 ∷ 115 ∷ 117 ∷ 112 ∷ 112 ∷ 111 ∷ 114 ∷ 116 ∷ 101 ∷ 100 ∷ 32 ∷ 100 ∷ 97 ∷ 116 ∷ 97
      ∷ 116 ∷ 121 ∷ 112 ∷ 101 ∷ 40 ∷ 111 ∷ 110 ∷ 108 ∷ 121 ∷ 32 ∷ 117 ∷ 105 ∷ 120 ∷ 88 ∷ 118 ∷ 115
      ∷ 83 ∷ 99 ∷ 122 ∷ 112 ∷ 41 ∷ []
    else 97 ∷ 108 ∷ 108 ∷ 32 ∷ 111 ∷ 107 ∷ []

abbrev pub print_error : Spec → List ℕ
print_error spec = 10 ∷ (invalid_text ++ (gfmt_error_strings spec.error ++ 10 ∷ []))

abbrev pub printed_with : List ℕ → List ℕ → Option Out
printed_with cs args = some (record { printed = cs; args = args })

-- The digits are written before they are read.
abbrev pub no_buf : Buf
no_buf i = 0

-- The number in its buffer, printed by `show`.
abbrev pub with_number : Option (ℕ × Buf) → (ℕ → Buf → List ℕ) → List ℕ → Option Out
with_number none show args = none
with_number (some r) show args = printed_with (show r.0 r.1) args

-- The case of `s`: a string up to its null character.
abbrev pub print_cstr : ℕ → Buf → Spec → List ℕ → Option Out
print_cstr fuel memory spec [] = none
print_cstr fuel memory spec (str ∷ args) = elim (gfmt_cstr_len fuel (λ i. memory (str + i)) 0) [
  | none ↦ none
  | some len ↦ printed_with (gfmt_print_formatted_string (λ i. memory (str + i)) len spec) args
]

-- The case of `S`: a string and its length.
abbrev pub print_str : Buf → Spec → List ℕ → Option Out
print_str memory spec (str ∷ len ∷ args) =
    printed_with (gfmt_print_formatted_string (λ i. memory (str + i)) len spec) args
print_str memory spec (str ∷ []) = none
print_str memory spec [] = none

-- The case of `c`.
abbrev pub print_char : Spec → List ℕ → Option Out
print_char spec (ch ∷ args) = printed_with (gfmt_print_formatted_string (λ i. ch % 256) 1 spec) args
print_char spec [] = none

-- The cases of `x`, `X` and `u`. The parameter of `gfmt_format_num_buf` is a word of 32 bits for either
-- size.
abbrev pub print_unsigned : Spec → List ℕ → Option Out
print_unsigned spec (value ∷ args) =
    with_number
      (gfmt_format_num_buf (value % 2 ^ 32) no_buf
        (if spec.type == 120 || spec.type == 88 then 16 else 10) (spec.type == 88))
      (λ len buf. gfmt_print_formatted_string buf len spec) args
print_unsigned spec [] = none

-- The sign, and the magnitude, of a word of `n` bits.
abbrev pub is_negative : ℕ → ℕ → Bool
is_negative n value = leb (2 ^ (n - 1)) (value % 2 ^ n)

abbrev pub magnitude : ℕ → ℕ → ℕ
magnitude n value = if is_negative n value then 2 ^ n - value % 2 ^ n else value % 2 ^ n

abbrev pub sign_chars : Bool → ℕ → List ℕ
sign_chars negative sign =
    if negative then 45 ∷ [] else if sign == 43 then 43 ∷ [] else if sign == 32 then 32 ∷ [] else []

-- The case of `i`.
abbrev pub print_signed : Spec → List ℕ → Option Out
print_signed spec (value ∷ args) =
    let n = if leb spec.bytesize 32 then 32 else 64 in
    with_number (gfmt_format_num_buf (magnitude n value % 2 ^ 32) no_buf 10 false)
      (λ len buf.
        sign_chars (is_negative n value) spec.sign ++ gfmt_print_formatted_string buf len spec)
      args
print_signed spec [] = none

-- "0x", the zeros up to the size, and the digits of the number.
abbrev pub big_buf : ℕ → Buf → Buf
big_buf zero_padding buf i =
    if i == 0
    then 48
    else if i == 1
    then 120
    else if ltb i (2 + zero_padding)
    then 48
    else buf (i - (2 + zero_padding))

-- The case of `p`.
abbrev pub print_pointer : Spec → List ℕ → Option Out
print_pointer spec (value ∷ args) =
    with_number (gfmt_format_num_buf (value % 2 ^ 32) no_buf 16 false)
      (λ len buf.
        let zero_padding = if ltb len (spec.bytesize / 4) then spec.bytesize / 4 - len else 0 in
        gfmt_print_formatted_string (big_buf zero_padding buf) (2 + zero_padding + len) spec)
      args
print_pointer spec [] = none

-- For the other types, `v` and `z`, nothing is printed. The sizes are those that `gfmt_parse_fmt_spec`
-- lets through, up to 32 or 64.
unfoldable pub gfmt_print_spec : ℕ → Buf → Spec → List ℕ → Option Out
gfmt_print_spec fuel memory spec args =
    let t = spec.type in
    if not (spec.error == gfmt_ok)
    then printed_with (print_error spec) args
    else if t == 115
    then print_cstr fuel memory spec args
    else if t == 83
    then print_str memory spec args
    else if t == 99
    then print_char spec args
    else if t == 120 || (t == 88 || t == 117)
    then print_unsigned spec args
    else if t == 105
    then print_signed spec args
    else if t == 112
    then print_pointer spec args
    else printed_with [] args

-- Between specifiers, or in one: the text from its start on, and how many characters have passed.
pub data Mode : Type 0 where
  plain : Mode
  in_spec : List ℕ → ℕ → Mode

-- "unexpected '{' in specifier" and "unexpected '}'" behind the common text, each with a line's end.
abbrev pub unexpected_open : List ℕ
unexpected_open =
    10
    ∷ (invalid_text
        ++ (117 ∷ 110 ∷ 101 ∷ 120 ∷ 112 ∷ 101 ∷ 99 ∷ 116 ∷ 101 ∷ 100 ∷ 32 ∷ 39 ∷ 123 ∷ 39 ∷ 32 ∷ 105
            ∷ 110 ∷ 32 ∷ 115 ∷ 112 ∷ 101 ∷ 99 ∷ 105 ∷ 102 ∷ 105 ∷ 101 ∷ 114 ∷ 10 ∷ []))

abbrev pub unexpected_close : List ℕ
unexpected_close =
    10
    ∷ (invalid_text
        ++ (117 ∷ 110 ∷ 101 ∷ 120 ∷ 112 ∷ 101 ∷ 99 ∷ 116 ∷ 101 ∷ 100 ∷ 32 ∷ 39 ∷ 125 ∷ 39 ∷ 10
            ∷ []))

-- What follows a specifier that has been printed.
abbrev pub then_print : Option Out → (List ℕ → Option Out) → Option Out
then_print none next = none
then_print (some o) next = emit o.printed (next o.args)

-- The loop over the characters of the format.
unfoldable pub print_from : ℕ → Buf → Mode → List ℕ → List ℕ → Option Out
print_from fuel memory mode [] args = printed_with [] args
print_from fuel memory (in_spec start n) (c ∷ text) args =
    let literal = print_from fuel memory plain text args in
    let longer = print_from fuel memory (in_spec start (suc n)) text args in
    if c == 123
    then (if n == 0 then emit (123 ∷ []) literal else printed_with unexpected_open args)
    else if c == 125
    then then_print (gfmt_print_spec fuel memory (gfmt_parse_fmt_spec start n) args)
        (λ left. print_from fuel memory plain text left)
    else longer
print_from fuel memory plain (c ∷ []) args =
    if c == 123
    then printed_with [] args
    else if c == 125
    then printed_with unexpected_close args
    else printed_with (c ∷ []) args
print_from fuel memory plain (c ∷ d ∷ text) args =
    let opened = print_from fuel memory (in_spec (d ∷ text) 0) (d ∷ text) args in
    let closed = print_from fuel memory plain text args in
    let next = print_from fuel memory plain (d ∷ text) args in
    if c == 123
    then opened
    else if c == 125
    then (if d == 125 then emit (125 ∷ []) closed else printed_with unexpected_close args)
    else emit (c ∷ []) next

-- `fmt` is the format, without its null character.
abbrev pub gfmt_printer : ℕ → Buf → List ℕ → List ℕ → Option Out
gfmt_printer fuel memory fmt vargs = print_from fuel memory plain fmt vargs
