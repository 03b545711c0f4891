-- ===== src/Format/Number/Value.antt =====
-- What the digits of `gfmt_format_num_buf` stand for, c-kernel/utils/impl/gfmt.c.
use native.Mathlib.Nat.{div-add-mod', div-mul-le_self, mul-le-mul_left, two-pow-succ}
use pentinum_os.Base.{
  ℕ, zero, suc, ◌+◌, ◌-◌, ◌*◌, ◌/◌, ◌%◌, ◌^◌, ◌≤◌, ◌<◌, ◌≡◌, ◌≢◌, ◌⊎◌, inl, inr, Bool, true, false,
  some, ◌==◌, ltb, if◌then◌else◌, update, arith, refl, sym, ap, ◌∙◌, Bool-cases,
}
use pentinum_os.Format.Number.{Buf, digit_char, digits_loop, reverse_loop, gfmt_format_num_buf}
use pentinum_os.Format.Number.Turn.{turned}

-- The number that a character stands for as a digit.
abbrev pub digit_of : ℕ → ℕ
digit_of c = if ltb c 58 then c - 48 else if ltb c 71 then c - 55 else c - 87

-- The number that `n` digits stand for, the first digit first.
unfoldable pub read_back : ℕ → Buf → ℕ → ℕ
read_back base buf zero = 0
read_back base buf (suc n) = read_back base buf n * base + digit_of (buf n)

-- The same with the last digit first, from index `i` on.
backwards : ℕ → Buf → ℕ → ℕ → ℕ
backwards base buf i zero = 0
backwards base buf i (suc n) = digit_of (buf i) + backwards base buf (suc i) n * base

-- A digit of the base: one of `0` to `9`, or a letter of the wanted case behind them.
abbrev pub IsDigit : ℕ → Bool → ℕ → Type 0
IsDigit base capital c =
    ((48 ≤ c) × (c < 58) × (c < 48 + base))
    ⊎ (if capital then (65 ≤ c) × (c < 55 + base) else (97 ≤ c) × (c < 87 + base))

digit_char-IsDigit : (b : Bool) (d base : ℕ) → d < base → IsDigit base b (digit_char b d)
digit_char-IsDigit true d base h = elim (Bool-cases (ltb d 10)) [
  | inl low ↦ rw low (inl (ground arith))
  | inr high ↦ rw high (inr (ground arith))
]
digit_char-IsDigit false d base h = elim (Bool-cases (ltb d 10)) [
  | inl low ↦ rw low (inl (ground arith))
  | inr high ↦ rw high (inr (ground arith))
]

digit_of-digit_char : (b : Bool) (d : ℕ) → d < 16 → digit_of (digit_char b d) ≡ d
digit_of-digit_char true d h = ground arith
digit_of-digit_char false d h = ground arith

backwards_same :
    (base : ℕ) (a b : Buf) (i n : ℕ)
    → ((x : ℕ) → i ≤ x → a x ≡ b x)
    → backwards base a i n ≡ backwards base b i n
unfolding backwards
backwards_same base a b i zero e = refl
backwards_same base a b i (suc n) e =
    rw (e i (omega arith), backwards_same base a b (suc i) n (λ x h. e x (omega (arith, h)))) refl

quotient_small : (value base k : ℕ) → 2 ≤ base → value < 2 ^ suc k → value / base < 2 ^ k
quotient_small value base k h l =
    omega (arith, div-mul-le_self value base, mul-le-mul_left (value / base) h, two-pow-succ k, l)

remainder_small : (value base : ℕ) → 2 ≤ base → value % base < base
remainder_small value base h = omega arith

last_digit : (value base : ℕ) → value / base ≡ 0 → value % base ≡ 0 → value ≡ 0
last_digit value base q r = sym (div-add-mod' value base) ∙ rw (q, r) (omega arith)

-- What the loop over the digits gives, from index `i` on.
record Digits (base : ℕ) (cap : Bool) (value i : ℕ) (buf : Buf) (n : ℕ) (buf' : Buf) : Type 0 where
  pub value_back : backwards base buf' i n ≡ value
  pub empty : value ≡ 0 → n ≡ 0
  pub kept : (x : ℕ) → x < i → buf' x ≡ buf x
  pub of_base : (x : ℕ) → i ≤ x → x < i + n → IsDigit base cap (buf' x)
  pub leading : value ≢ 0 → (0 < n) × (digit_of (buf' (i + n - 1)) ≢ 0)

module _ (base : ℕ) (cap : Bool) (two : 2 ≤ base) (sixteen : base ≤ 16) where
  digits_step :
      (value i n : ℕ) (buf buf' : Buf)
      → value ≢ 0
      → Digits base cap (value / base) (suc i) (update buf i (digit_char cap (value % base))) n buf'
      → Digits base cap value i buf (suc n) buf'
  unfolding backwards
  digits_step value i n buf buf' some_left d =
      let small : value % base < base = remainder_small value base two in
      let self : (i == i) ≡ true = ground arith in
      let first : buf' i ≡ digit_char cap (value % base) = d.kept i (omega arith) ∙ rw self refl in
      let digit : digit_of (buf' i) ≡ value % base =
        ap digit_of first
        ∙ digit_of-digit_char cap (value % base) (omega (arith, small, sixteen)) in
      record {
        value_back = rw (digit, d.value_back) (omega (arith, div-add-mod' value base));
        empty = λ e. absurd (some_left e);
        kept = λ x h.
            let e : (x == i) ≡ false = ground arith in d.kept x (omega (arith, h)) ∙ rw e refl;
        of_base = λ x l h. elim (Bool-cases (x == i)) [
          | inl here ↦
              let q : x ≡ i = ground arith in
              rw (q, first) (digit_char-IsDigit cap (value % base) base small)
          | inr later ↦ d.of_base x (ground (arith, l)) (omega (arith, h))
        ];
        leading = λ real. elim (Bool-cases (value / base == 0)) [
          | inl none_left ↦
              let z : value / base ≡ 0 = ground arith in
              let e : i + suc n - 1 ≡ i = omega (arith, d.empty z) in
              (
                omega arith,
                λ q.
                    real (
                      last_digit value base z
                        (sym digit ∙ ap (λ x. digit_of (buf' x)) (sym e) ∙ q)),
              )
          | inr more ↦
              let l = d.leading (ground arith) in
              let e : suc i + n - 1 ≡ i + suc n - 1 = omega arith in
              (omega arith, λ q. l.1 (ap (λ x. digit_of (buf' x)) e ∙ q))
        ];
      }

  loop_ends :
      (fuel value : ℕ) (buf : Buf) (i : ℕ)
      → (value == 0) ≡ true
      → digits_loop (suc fuel) base cap value buf i ≡ some (i, buf)
  unfolding digits_loop
  loop_ends fuel value buf i e = rw (e, digits_loop) refl

  loop_goes_on :
      (fuel value : ℕ) (buf : Buf) (i : ℕ)
      → (value == 0) ≡ false
      → digits_loop (suc fuel) base cap value buf i
        ≡ digits_loop fuel base cap
            (value / base)
            (update buf i (digit_char cap (value % base)))
            (suc i)
  unfolding digits_loop
  loop_goes_on fuel value buf i e = rw (e, digits_loop) refl

  no_digits : (value : ℕ) (buf : Buf) (i : ℕ) → value ≡ 0 → Digits base cap value i buf 0 buf
  unfolding backwards
  no_digits value buf i z = record {
    value_back = sym z;
    empty = λ e. refl;
    kept = λ x h. refl;
    of_base = λ x l h. absurd (omega (arith, l, h));
    leading = λ real. absurd (real z);
  }

  digits :
      (k value : ℕ) (buf : Buf) (i : ℕ)
      → value < 2 ^ k
      → (n : ℕ) × (buf' : Buf) × (digits_loop (suc k) base cap value buf i ≡ some (i + n, buf'))
        × (n ≤ k)
        × Digits base cap value i buf n buf'
  digits zero value buf i l =
      let z : value ≡ 0 = omega (arith, l) in
      (
        0,
        buf,
        loop_ends 0 value buf i (ground arith) ∙ ap (λ x. some (x, buf)) (omega arith),
        omega arith,
        no_digits value buf i z,
      )
  digits (suc k) value buf i l = elim (Bool-cases (value == 0)) [
    | inl done ↦ (
      0,
      buf,
      loop_ends (suc k) value buf i done ∙ ap (λ x. some (x, buf)) (omega arith),
      omega arith,
      no_digits value buf i (ground arith),
    )
    | inr left ↦
        let (n, buf', e, few, d) =
          digits k (value / base) (update buf i (digit_char cap (value % base))) (suc i)
            (quotient_small value base k two l) in
        (
          suc n,
          buf',
          loop_goes_on (suc k) value buf i left ∙ e ∙ ap (λ x. some (x, buf')) (omega arith),
          omega (arith, few),
          digits_step value i n buf buf' (ground (arith, left)) d,
        )
  ]

-- The first `n` of the turned digits are the last `n` of the others.
read_back-backwards :
    (base len : ℕ) (a b : Buf) (n : ℕ)
    → n ≤ len
    → ((x : ℕ) → x < len → a x ≡ b (len - 1 - x))
    → read_back base a n ≡ backwards base b (len - n) n
unfolding read_back backwards
read_back-backwards base len a b zero h e = refl
read_back-backwards base len a b (suc n) h e =
    let i : suc (len - suc n) ≡ len - n = omega (arith, h) in
    let j : len - 1 - n ≡ len - suc n = omega arith in
    rw (e n h, read_back-backwards base len a b n (omega (arith, h)) e, i, j) (omega arith)

-- For a base of 2 to 16, `gfmt_format_num_buf` ends with 1 to 32 characters, each a digit of the base in
-- the wanted case, that read back as the number, and the first of several digits is not zero.
pub gfmt_format_num_buf-read_back :
    (value : ℕ) (buf : Buf) (base : ℕ) (use_capital : Bool)
    → value < 2 ^ 32
    → 2 ≤ base
    → base ≤ 16
    → (len : ℕ) × (buf' : Buf) × (gfmt_format_num_buf value buf base use_capital ≡ some (len, buf'))
      × (1 ≤ len)
      × (len ≤ 32)
      × (read_back base buf' len ≡ value)
      × ((x : ℕ) → x < len → IsDigit base use_capital (buf' x))
      × (1 < len → digit_of (buf' 0) ≢ 0)
unfolding gfmt_format_num_buf read_back
gfmt_format_num_buf-read_back value buf base use_capital small two sixteen =
    elim (Bool-cases (value == 0)) [
      | inl z ↦
          let e : value ≡ 0 = ground arith in
          (
            1,
            update buf 0 48,
            rw z refl,
            omega arith,
            omega arith,
            rw e (omega arith),
            λ x l. let q : (x == 0) ≡ true = ground (arith, l) in rw q (inl (omega arith)),
            λ l. absurd (omega (arith, l)),
          )
      | inr real ↦
          let (n, b, e, few, d) = digits base use_capital two sixteen 32 value buf 0 small in
          let at : (x : ℕ) → x < n → reverse_loop (n / 2) 0 n b x ≡ b (n - 1 - x) = λ x l.
            turned (n / 2) 0 n b x (omega arith) (omega arith) (omega arith) (omega (arith, l)) in
          let some_left : value ≢ 0 = ground (arith, real) in
          let i : 0 + n ≡ n = omega arith in
          let zero_up : n - n ≡ 0 = omega arith in
          (
            n,
            reverse_loop (n / 2) 0 n b,
            rw (real, e, i) refl,
            (d.leading some_left).0,
            few,
            read_back-backwards base n (reverse_loop (n / 2) 0 n b) b n (omega arith) at
                ∙ rw zero_up d.value_back,
            λ x l. rw (at x l) (d.of_base (n - 1 - x) (omega arith) (omega (arith, l))),
            λ l q. (d.leading some_left).1 (
                ap (λ x. digit_of (b x)) (omega arith)
                ∙ sym (ap digit_of (at 0 (omega (arith, l))))
                ∙ q),
          )
    ]
