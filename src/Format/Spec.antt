-- ===== src/Format/Spec.antt =====
-- The format specifiers of c-kernel/utils/impl/gfmt.c: `gfmt_parse_fmt_spec`. A text is the list of
-- its characters; behind its end a null character is read.
pub mod Parse
use pentinum_os.Base.{
  ℕ, zero, suc, ◌+◌, ◌-◌, ◌*◌, ◌%◌, ◌^◌, Bool, true, false, not, ◌&&◌, ◌||◌, List, [], ◌∷◌, ◌==◌,
  ltb, leb, if◌then◌else◌, bit_and,
}

-- `gfmt_fmt_spec`
pub record Spec : Type 0 where
  pub error : ℕ
  pub type : ℕ
  pub bytesize : ℕ
  pub sign : ℕ
  pub align : ℕ
  pub fill : ℕ
  pub width : ℕ

abbrev pub gfmt_ok : ℕ
gfmt_ok = 0

abbrev pub gfmt_err_unexp_size : ℕ
gfmt_err_unexp_size = 3

abbrev pub gfmt_err_usup_type : ℕ
gfmt_err_usup_type = 4

abbrev pub gfmt_create_spec : ℕ → Spec
gfmt_create_spec error = record {
  error = error;
  type = 0;
  bytesize = 0;
  sign = 42;
  align = 60;
  fill = 32;
  width = 0;
}

abbrev pub gfmt_is_num : ℕ → Bool
gfmt_is_num c = leb 48 c && leb c 57

abbrev pub head_of : List ℕ → ℕ
head_of [] = 0
head_of (c ∷ text) = c

abbrev pub tail_of : List ℕ → List ℕ
tail_of [] = []
tail_of (c ∷ text) = text

-- The states of the part before the `%`.
pub data State : Type 0 where
  pre_width : State
  pre_type : State
  pre_size : State
  pre_done : State

-- A round of the loop over that part.
unfoldable pub pre_char : State → Spec → ℕ → State × Spec
pre_char pre_width spec c =
    if gfmt_is_num c
    then (pre_width, record spec { width = (spec.width * 10 + (c - 48)) % 2 ^ 32 })
    else (pre_size, record spec { type = c })
pre_char pre_type spec c = (pre_size, record spec { type = c })
pre_char pre_size spec c =
    if gfmt_is_num c
    then (pre_size, record spec { bytesize = (spec.bytesize * 10 + (c - 48)) % 256 })
    else (pre_done, spec)
pre_char pre_done spec c = (pre_done, spec)

-- What the loop leaves: the specifier, the text from `c` on, and how much of the specifier is left.
pub record Rest : Type 0 where
  pub spec : Spec
  pub text : List ℕ
  pub left : ℕ

unfoldable pub parse_pre : ℕ → List ℕ → State → Spec → Rest
parse_pre zero text state spec = record { spec = spec; text = text; left = 0 }
parse_pre (suc n) text state spec =
    let next = pre_char state spec (head_of text) in
    let rest = parse_pre n (tail_of text) next.0 next.1 in
    if head_of text == 37 then record { spec = spec; text = text; left = suc n } else rest

-- One of the characters of "uixXvsSczp".
abbrev pub accepted : ℕ → Bool
accepted t =
    t == 117
    || (t == 105
        || (t == 120
            || (t == 88
                || (t == 118 || (t == 115 || (t == 83 || (t == 99 || (t == 122 || t == 112))))))))

-- A size of 0 stands for 32.
abbrev pub with_default : Spec → Spec
with_default spec = record spec { bytesize = if spec.bytesize == 0 then 32 else spec.bytesize }

abbrev pub is_bad_size : ℕ → Bool
is_bad_size b = not (bit_and b (b - 1) == 0) || (ltb b 8 || ltb 64 b)

-- The cases of the switch on the first character behind the `%`, from the last one up: each goes on
-- with the case below it.
abbrev pub fill_op : List ℕ → ℕ → Spec → Spec
fill_op text op_size spec = if op_size == 0 then spec else record spec { fill = head_of text }

abbrev pub align_op : List ℕ → ℕ → Spec → Spec
align_op text op_size spec =
    if op_size == 0
    then spec
    else fill_op (tail_of text) (op_size - 1) (record spec { align = head_of text })

abbrev pub sign_op : List ℕ → ℕ → Spec → Spec
sign_op text op_size spec =
    align_op (tail_of text) (op_size - 1) (record spec { sign = head_of text })

unfoldable pub parse_ops : List ℕ → ℕ → Spec → Spec
parse_ops text op_size spec =
    let c = head_of text in
    if op_size == 0
    then spec
    else if c == 42 || (c == 43 || c == 32)
    then sign_op text op_size spec
    else if c == 60 || c == 62
    then align_op text op_size spec
    else fill_op text op_size spec

-- The part behind the `%`. `op_size` is a byte, and the subtraction wraps.
abbrev pub after_pre : List ℕ → ℕ → Spec → Spec
after_pre text left spec =
    if head_of text == 37
    then parse_ops (tail_of text) ((left + 2 ^ 32 - 1) % 256) spec
    else parse_ops text (left % 256) spec

abbrev pub checked : Rest → Spec
checked r =
    let spec = with_default r.spec in
    if not (accepted r.spec.type)
    then gfmt_create_spec gfmt_err_usup_type
    else if is_bad_size spec.bytesize
    then gfmt_create_spec gfmt_err_unexp_size
    else after_pre r.text r.left spec

unfoldable pub gfmt_parse_fmt_spec : List ℕ → ℕ → Spec
gfmt_parse_fmt_spec fmt_spec size =
    checked (parse_pre size fmt_spec pre_width (gfmt_create_spec gfmt_ok))
