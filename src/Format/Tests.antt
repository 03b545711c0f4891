-- ===== src/Format/Tests.antt =====
-- The formatted output at small inputs, and the theorems at inputs that meet their hypotheses.
use pentinum_os.Base.{
  ℕ, List, ◌^◌, ◌≤◌, ◌<◌, ◌≡◌, ◌≢◌, ◌⊎◌, inl, true, [], ◌∷◌, some, arith, refl, length,
}
use pentinum_os.Format.Number.{Buf, gfmt_format_num_buf, digits_loop, reverse_loop}
use pentinum_os.Format.Number.Value.{read_back, digit_of, IsDigit, gfmt_format_num_buf-read_back}
use pentinum_os.Format.Spec.{
  Spec, gfmt_create_spec, gfmt_parse_fmt_spec, parse_pre, pre_char, parse_ops,
}
use pentinum_os.Format.Spec.Parse.{
  Written, write, IsWritten, size_of, number_in, gfmt_parse_fmt_spec-write,
}
use pentinum_os.Format.Print.{
  printed_with, no_buf, gfmt_printer, print_from, gfmt_print_spec, gfmt_print_formatted_string,
  gfmt_putstr,
}
use pentinum_os.Format.Print.Escape.{escape, gfmt_printer-escape}
use pentinum_os.Format.Print.Padding.{padded, IsNumeral, gfmt_print_spec-read_back}
use pentinum_os.Format.Buffer.{format}
use pentinum_os.Format.Buffer.Bounds.{Holds, format-Holds}

-- "a{u}" with the argument 42
number_run :
    gfmt_printer 1 no_buf (97 ∷ 123 ∷ 117 ∷ 125 ∷ []) (42 ∷ [])
    ≡ printed_with (97 ∷ 52 ∷ 50 ∷ []) []
unfolding print_from gfmt_print_spec gfmt_parse_fmt_spec parse_pre pre_char parse_ops
    gfmt_format_num_buf digits_loop reverse_loop gfmt_print_formatted_string gfmt_putstr
number_run = refl

gfmt_format_num_buf-read_back_example :
    (len : ℕ) × (buf' : Buf) × (gfmt_format_num_buf 48879 no_buf 16 true ≡ some (len, buf'))
    × (1 ≤ len)
    × (len ≤ 32)
    × (read_back 16 buf' len ≡ 48879)
    × ((x : ℕ) → x < len → IsDigit 16 true (buf' x))
    × (1 < len → digit_of (buf' 0) ≢ 0)
gfmt_format_num_buf-read_back_example =
    gfmt_format_num_buf-read_back 48879 no_buf 16 true (omega arith) (omega arith) (omega arith)

-- "8x16%+>0"
abbrev hex : Written
hex = record {
  width_digits = 56 ∷ [];
  type = 120;
  size_digits = 49 ∷ 54 ∷ [];
  sign = 43;
  align = 62;
  fill = 48;
}

hex-IsWritten : IsWritten hex
hex-IsWritten = record {
  width = (refl, tt);
  size = (refl, (refl, tt));
  known = refl;
  fits = refl;
  sign = refl;
}

gfmt_parse_fmt_spec-write_example : gfmt_parse_fmt_spec (write hex) (length (write hex)) ≡ record {
  error = 0;
  type = 120;
  bytesize = size_of hex;
  sign = 43;
  align = 62;
  fill = 48;
  width = number_in (2 ^ 32) 0 (56 ∷ []);
}
gfmt_parse_fmt_spec-write_example = gfmt_parse_fmt_spec-write hex hex-IsWritten

-- "{a}"
gfmt_printer-escape_example :
    gfmt_printer 1 no_buf (escape (123 ∷ 97 ∷ 125 ∷ [])) (7 ∷ [])
    ≡ printed_with (123 ∷ 97 ∷ 125 ∷ []) (7 ∷ [])
gfmt_printer-escape_example = gfmt_printer-escape 1 no_buf (7 ∷ []) (123 ∷ 97 ∷ 125 ∷ [])

abbrev decimal : Spec
decimal = record (gfmt_create_spec 0) { type = 117; bytesize = 32; width = 6 }

gfmt_print_spec-read_back_example :
    (cs : List ℕ) × (gfmt_print_spec 1 no_buf decimal (42 ∷ 7 ∷ [])
      ≡ printed_with (padded decimal cs) (7 ∷ []))
    × IsNumeral 42 cs
gfmt_print_spec-read_back_example =
    gfmt_print_spec-read_back 1 no_buf decimal 42 (7 ∷ []) refl refl (inl refl)

two_run : gfmt_printer 1 no_buf (97 ∷ 98 ∷ []) [] ≡ printed_with (97 ∷ 98 ∷ []) []
unfolding print_from
two_run = refl

format-Holds_example :
    (n : ℕ) × (buffer' : Buf) × (format 1 no_buf no_buf 8 (97 ∷ 98 ∷ []) [] ≡ some (n, buffer'))
    × ((x : ℕ) → 8 ≤ x → buffer' x ≡ 0)
    × (((2 < 8) × (n ≡ 2) × Holds buffer' (97 ∷ 98 ∷ [])) ⊎ ((8 ≤ 2) × (n ≡ 0)))
format-Holds_example = format-Holds 1 no_buf no_buf 8 (97 ∷ 98 ∷ []) [] (97 ∷ 98 ∷ []) [] two_run
