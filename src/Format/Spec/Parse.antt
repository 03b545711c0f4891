-- ===== src/Format/Spec/Parse.antt =====
-- Specifiers that are written out and read by `gfmt_parse_fmt_spec`, c-kernel/utils/impl/gfmt.c.
use pentinum_os.Base.{
  ℕ, suc, ◌+◌, ◌-◌, ◌*◌, ◌%◌, ◌^◌, ◌≡◌, true, false, ◌||◌, List, [], ◌∷◌, ◌++◌, ◌==◌, if◌then◌else◌,
  refl, ap, ◌∙◌, arith, length, length-append,
}
use pentinum_os.Format.Spec.{
  Spec, gfmt_ok, gfmt_create_spec, gfmt_is_num, State, pre_width, pre_size, pre_char, parse_pre,
  accepted, with_default, is_bad_size, parse_ops, after_pre, checked, gfmt_parse_fmt_spec,
}

-- The characters are digits.
abbrev pub AllDigits : List ℕ → Type 0
AllDigits [] = Unit
AllDigits (c ∷ cs) = (gfmt_is_num c ≡ true) × AllDigits cs

-- The number below `m` that digits stand for, behind a number `acc`.
abbrev pub number_in : ℕ → ℕ → List ℕ → ℕ
number_in m acc [] = acc
number_in m acc (c ∷ cs) = number_in m ((acc * 10 + (c - 48)) % m) cs

-- A specifier: the digits of the width, the type, the digits of the size, and the three characters
-- behind the `%`.
pub record Written : Type 0 where
  pub width_digits : List ℕ
  pub type : ℕ
  pub size_digits : List ℕ
  pub sign : ℕ
  pub align : ℕ
  pub fill : ℕ

abbrev pub ending : Written → List ℕ
ending w = 37 ∷ w.sign ∷ w.align ∷ w.fill ∷ []

abbrev pub write : Written → List ℕ
write w = w.width_digits ++ w.type ∷ (w.size_digits ++ ending w)

-- The size that the digits ask for.
abbrev pub size_of : Written → ℕ
size_of w = let b = number_in 256 0 w.size_digits in if b == 0 then 32 else b

pub record IsWritten (w : Written) : Type 0 where
  pub width : AllDigits w.width_digits
  pub size : AllDigits w.size_digits
  pub known : accepted w.type ≡ true
  pub fits : is_bad_size (size_of w) ≡ false
  pub sign : (w.sign == 42 || (w.sign == 43 || w.sign == 32)) ≡ true

pre_step :
    (n c : ℕ) (text : List ℕ) (state : State) (spec : Spec)
    → (c == 37) ≡ false
    → parse_pre (suc n) (c ∷ text) state spec
      ≡ parse_pre n text (pre_char state spec c).0 (pre_char state spec c).1
unfolding parse_pre
pre_step n c text state spec e = rw e refl

pre_stop :
    (n : ℕ) (text : List ℕ) (state : State) (spec : Spec)
    → parse_pre (suc n) (37 ∷ text) state spec
      ≡ record { spec = spec; text = 37 ∷ text; left = suc n }
unfolding parse_pre
pre_stop n text state spec = refl

no_percent : (c : ℕ) → gfmt_is_num c ≡ true → (c == 37) ≡ false
no_percent c e = ground arith

width_step :
    (spec : Spec) (c : ℕ)
    → gfmt_is_num c ≡ true
    → pre_char pre_width spec c
      ≡ (pre_width, record spec { width = (spec.width * 10 + (c - 48)) % 2 ^ 32 })
unfolding pre_char
width_step spec c e = rw e refl

size_step :
    (spec : Spec) (c : ℕ)
    → gfmt_is_num c ≡ true
    → pre_char pre_size spec c
      ≡ (pre_size, record spec { bytesize = (spec.bytesize * 10 + (c - 48)) % 256 })
unfolding pre_char
size_step spec c e = rw e refl

type_step :
    (spec : Spec) (c : ℕ)
    → accepted c ≡ true
    → pre_char pre_width spec c ≡ (pre_size, record spec { type = c })
unfolding pre_char
type_step spec c e = let letter : gfmt_is_num c ≡ false = ground arith in rw letter refl

read_width :
    (ws : List ℕ) (n : ℕ) (text : List ℕ) (spec : Spec)
    → AllDigits ws
    → parse_pre (length ws + n) (ws ++ text) pre_width spec
      ≡ parse_pre n text pre_width (record spec { width = number_in (2 ^ 32) spec.width ws })
read_width [] n text spec d = ap (λ m. parse_pre m text pre_width spec) (omega arith)
read_width (c ∷ ws) n text spec d =
    let next : Spec = record spec { width = (spec.width * 10 + (c - 48)) % 2 ^ 32 } in
    ap (λ m. parse_pre m (c ∷ (ws ++ text)) pre_width spec) (omega arith)
    ∙ pre_step (length ws + n) c (ws ++ text) pre_width spec (no_percent c d.0)
    ∙ ap (λ p. parse_pre (length ws + n) (ws ++ text) p.0 p.1) (width_step spec c d.0)
    ∙ read_width ws n text next d.1

read_size :
    (ss : List ℕ) (n : ℕ) (text : List ℕ) (spec : Spec)
    → AllDigits ss
    → parse_pre (length ss + n) (ss ++ text) pre_size spec
      ≡ parse_pre n text pre_size (record spec { bytesize = number_in 256 spec.bytesize ss })
read_size [] n text spec d = ap (λ m. parse_pre m text pre_size spec) (omega arith)
read_size (c ∷ ss) n text spec d =
    let next : Spec = record spec { bytesize = (spec.bytesize * 10 + (c - 48)) % 256 } in
    ap (λ m. parse_pre m (c ∷ (ss ++ text)) pre_size spec) (omega arith)
    ∙ pre_step (length ss + n) c (ss ++ text) pre_size spec (no_percent c d.0)
    ∙ ap (λ p. parse_pre (length ss + n) (ss ++ text) p.0 p.1) (size_step spec c d.0)
    ∙ read_size ss n text next d.1

-- What the loop before the `%` has read of a written specifier.
abbrev pre_read : Written → Spec
pre_read w = record (gfmt_create_spec gfmt_ok) {
  type = w.type;
  bytesize = number_in 256 0 w.size_digits;
  width = number_in (2 ^ 32) 0 w.width_digits;
}

read_pre :
    (w : Written)
    → IsWritten w
    → parse_pre (length (write w)) (write w) pre_width (gfmt_create_spec gfmt_ok)
      ≡ record { spec = pre_read w; text = ending w; left = 4 }
read_pre w v =
    let rest : List ℕ = w.size_digits ++ ending w in
    let start : Spec = gfmt_create_spec gfmt_ok in
    let wide : Spec = record start { width = number_in (2 ^ 32) 0 w.width_digits } in
    let typed : Spec = record wide { type = w.type } in
    let letter : (w.type == 37) ≡ false = ground (arith, v.known) in
    ap (λ m. parse_pre m (write w) pre_width start) (length-append w.width_digits (w.type ∷ rest))
    ∙ read_width w.width_digits (suc (length rest)) (w.type ∷ rest) start v.width
    ∙ pre_step (length rest) w.type rest pre_width wide letter
    ∙ ap (λ p. parse_pre (length rest) rest p.0 p.1) (type_step wide w.type v.known)
    ∙ ap (λ m. parse_pre m rest pre_size typed) (length-append w.size_digits (ending w))
    ∙ read_size w.size_digits 4 (ending w) typed v.size
    ∙ pre_stop 3 (w.sign ∷ w.align ∷ w.fill ∷ []) pre_size (pre_read w)

read_ops :
    (w : Written) (spec : Spec)
    → IsWritten w
    → after_pre (ending w) 4 spec ≡ record spec { sign = w.sign; align = w.align; fill = w.fill }
unfolding parse_ops
read_ops w spec v = rw v.sign refl

-- `gfmt_parse_fmt_spec` reads a specifier with a known type, a fitting size or none, and a sign, an
-- alignment and a fill character behind the `%`: it gives those, the width below 2 ^ 32, and no error.
pub gfmt_parse_fmt_spec-write :
    (w : Written)
    → IsWritten w
    → gfmt_parse_fmt_spec (write w) (length (write w)) ≡ record {
      error = gfmt_ok;
      type = w.type;
      bytesize = size_of w;
      sign = w.sign;
      align = w.align;
      fill = w.fill;
      width = number_in (2 ^ 32) 0 w.width_digits;
    }
unfolding gfmt_parse_fmt_spec
gfmt_parse_fmt_spec-write w v =
    ap checked (read_pre w v) ∙ rw (v.known, v.fits) (read_ops w (with_default (pre_read w)) v)
