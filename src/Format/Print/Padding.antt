-- ===== src/Format/Print/Padding.antt =====
-- What `gfmt_print_spec` prints for a number, c-kernel/utils/impl/gfmt.c.
use pentinum_os.Base.{
  ℕ, zero, suc, ◌+◌, ◌*◌, ◌-◌, ◌%◌, ◌^◌, ◌≤◌, ◌<◌, ◌≡◌, ◌≢◌, ◌⊎◌, true, false, List, [], ◌∷◌, ◌++◌,
  some, ◌==◌, ltb, if◌then◌else◌, inl, inr, refl, sym, ap, ◌∙◌, arith, length, replicate,
  append_nil_right,
}
use pentinum_os.Format.Number.{Buf, gfmt_format_num_buf}
use pentinum_os.Format.Number.Value.{read_back, digit_of, IsDigit, gfmt_format_num_buf-read_back}
use pentinum_os.Format.Spec.{Spec}
use pentinum_os.Format.Print.{
  printed_with, no_buf, gfmt_putstr, gfmt_print_formatted_string, print_unsigned, gfmt_print_spec,
}

-- A text that is filled up to the width on the side that the alignment leaves: `>` is 62, `<` is 60.
abbrev pub padded : Spec → List ℕ → List ℕ
padded spec cs =
    if spec.align == 62
    then replicate (spec.width - length cs) spec.fill ++ cs
    else cs ++ replicate (spec.width - length cs) spec.fill

abbrev pub AllDigits : List ℕ → Type 0
AllDigits [] = Unit
AllDigits (c ∷ cs) = (48 ≤ c) × (c < 58) × AllDigits cs

-- The number that decimal digits stand for, behind those that stand for `n`.
abbrev pub number : ℕ → List ℕ → ℕ
number n [] = n
number n (c ∷ cs) = number (n * 10 + (c - 48)) cs

abbrev pub first : List ℕ → ℕ
first [] = 0
first (c ∷ cs) = c

-- The numeral of a number: its decimal digits, without a leading zero.
pub record IsNumeral (n : ℕ) (cs : List ℕ) : Type 0 where
  pub not_empty : 1 ≤ length cs
  pub digits : AllDigits cs
  pub value : number 0 cs ≡ n
  pub leading : 1 < length cs → first cs ≢ 48

length-putstr : (str : Buf) (i len : ℕ) → length (gfmt_putstr str i len) ≡ len
unfolding gfmt_putstr
length-putstr str i zero = refl
length-putstr str i (suc len) = ap suc (length-putstr str (suc i) len)

decimal : (c : ℕ) → IsDigit 10 false c → (48 ≤ c) × (c < 58)
decimal c (inl h) = omega (arith, h)
decimal c (inr h) = absurd (omega (arith, h))

putstr-AllDigits :
    (str : Buf) (i len : ℕ)
    → ((x : ℕ) → i ≤ x → x < i + len → IsDigit 10 false (str x))
    → AllDigits (gfmt_putstr str i len)
unfolding gfmt_putstr
putstr-AllDigits str i zero h = tt
putstr-AllDigits str i (suc len) h =
    let d = decimal (str i) (h i (omega arith) (omega arith)) in
    (
      d.0,
      d.1,
      putstr-AllDigits str (suc i) len (λ x l r. h x (omega (arith, l)) (omega (arith, r))),
    )

number-putstr :
    (str : Buf) (i len : ℕ)
    → ((x : ℕ) → i ≤ x → x < i + len → IsDigit 10 false (str x))
    → number (read_back 10 str i) (gfmt_putstr str i len) ≡ read_back 10 str (i + len)
unfolding gfmt_putstr read_back
number-putstr str i zero h = ap (read_back 10 str) (omega arith)
number-putstr str i (suc len) h =
    let d = decimal (str i) (h i (omega arith) (omega arith)) in
    let digit : digit_of (str i) ≡ str i - 48 = ground (arith, d) in
    let next : suc i + len ≡ i + suc len = omega arith in
    ap (λ n. number (read_back 10 str i * 10 + n) (gfmt_putstr str (suc i) len)) (sym digit)
    ∙ number-putstr str (suc i) len (λ x l r. h x (omega (arith, l)) (omega (arith, r)))
    ∙ ap (read_back 10 str) next

first-putstr : (str : Buf) (len : ℕ) → 1 ≤ len → first (gfmt_putstr str 0 len) ≡ str 0
unfolding gfmt_putstr
first-putstr str zero h = absurd (omega arith)
first-putstr str (suc len) h = refl

padding-length :
    (len : ℕ) (spec : Spec)
    → (if ltb len spec.width then spec.width - len else 0) ≡ spec.width - len
padding-length len spec = ground arith

print_formatted-padded :
    (str : Buf) (len : ℕ) (spec : Spec)
    → (spec.align ≡ 60) ⊎ (spec.align ≡ 62)
    → gfmt_print_formatted_string str len spec ≡ padded spec (gfmt_putstr str 0 len)
unfolding gfmt_print_formatted_string
print_formatted-padded str len spec (inl l) =
    rw (l, length-putstr str 0 len, padding-length len spec) refl
print_formatted-padded str len spec (inr r) =
    rw
      (
        r,
        length-putstr str 0 len,
        padding-length len spec,
        append_nil_right (gfmt_putstr str 0 len),
      )
      refl

unsigned_case :
    (fuel : ℕ) (memory : Buf) (spec : Spec) (args : List ℕ)
    → spec.error ≡ 0
    → spec.type ≡ 117
    → gfmt_print_spec fuel memory spec args ≡ print_unsigned spec args
unfolding gfmt_print_spec
unsigned_case fuel memory spec args ok unsigned =
    let a : (spec.error == 0) ≡ true = ground arith in
    let b : (spec.type == 115) ≡ false = ground (arith, unsigned) in
    let c : (spec.type == 83) ≡ false = ground (arith, unsigned) in
    let d : (spec.type == 99) ≡ false = ground (arith, unsigned) in
    let e : (spec.type == 120) ≡ false = ground (arith, unsigned) in
    let f : (spec.type == 88) ≡ false = ground (arith, unsigned) in
    let g : (spec.type == 117) ≡ true = ground (arith, unsigned) in rw (a, b, c, d, e, f, g) refl

decimal_case :
    (spec : Spec) (value len : ℕ) (buf : Buf) (args : List ℕ)
    → spec.type ≡ 117
    → gfmt_format_num_buf (value % 2 ^ 32) no_buf 10 false ≡ some (len, buf)
    → print_unsigned spec (value ∷ args)
      ≡ printed_with (gfmt_print_formatted_string buf len spec) args
decimal_case spec value len buf args unsigned run =
    let e : (spec.type == 120) ≡ false = ground (arith, unsigned) in
    let f : (spec.type == 88) ≡ false = ground (arith, unsigned) in rw (e, f, run) refl

-- The specifier `u`, aligned to the left or to the right, takes one argument and prints the decimal
-- numeral of its last 32 bits, without a leading zero, filled up to the width: behind the digits for
-- `<` and before them for `>`.
pub gfmt_print_spec-read_back :
    (fuel : ℕ) (memory : Buf) (spec : Spec) (value : ℕ) (args : List ℕ)
    → spec.error ≡ 0
    → spec.type ≡ 117
    → (spec.align ≡ 60) ⊎ (spec.align ≡ 62)
    → (cs : List ℕ) × (gfmt_print_spec fuel memory spec (value ∷ args)
        ≡ printed_with (padded spec cs) args)
      × IsNumeral (value % 2 ^ 32) cs
unfolding read_back
gfmt_print_spec-read_back fuel memory spec value args ok unsigned side =
    let (len, buf, e, some_digits, few, back, of_base, lead) =
      gfmt_format_num_buf-read_back (value % 2 ^ 32) no_buf 10 false (omega arith) (omega arith)
        (omega arith) in
    let size : length (gfmt_putstr buf 0 len) ≡ len = length-putstr buf 0 len in
    let up : 0 + len ≡ len = omega arith in
    (
      gfmt_putstr buf 0 len,
      unsigned_case fuel memory spec (value ∷ args) ok unsigned
          ∙ decimal_case spec value len buf args unsigned e
          ∙ ap (λ cs. printed_with cs args) (print_formatted-padded buf len spec side),
      record {
        not_empty = rw size some_digits;
        digits = putstr-AllDigits buf 0 len (λ x l r. of_base x (omega (arith, r)));
        value =
            number-putstr buf 0 len (λ x l r. of_base x (omega (arith, r)))
            ∙ ap (read_back 10 buf) up
            ∙ back;
        leading = λ l z.
            let zero_first : buf 0 ≡ 48 =
              sym (first-putstr buf len (omega (arith, some_digits))) ∙ z in
            lead (omega (arith, l, size)) (ap digit_of zero_first);
      },
    )
