-- ===== src/Format/Print/Escape.antt =====
-- A text whose braces are doubled, printed by the printer of c-kernel/utils/impl/gfmt.c.
use pentinum_os.Base.{
  ℕ, ◌≡◌, false, List, [], ◌∷◌, ◌==◌, if◌then◌else◌, inl, inr, Bool-cases, refl, ap, ◌∙◌, arith,
}
use pentinum_os.Format.Number.{Buf}
use pentinum_os.Format.Print.{emit, printed_with, plain, print_from, gfmt_printer}

-- Each brace of the text twice.
pub escape : List ℕ → List ℕ
escape [] = []
escape (c ∷ text) =
    let rest = escape text in
    if c == 123 then 123 ∷ 123 ∷ rest else if c == 125 then 125 ∷ 125 ∷ rest else c ∷ rest

module _ (fuel : ℕ) (memory : Buf) (args : List ℕ) where
  -- A character that is no brace is printed as it is.
  literal :
      (c : ℕ) (text : List ℕ)
      → (c == 123) ≡ false
      → (c == 125) ≡ false
      → print_from fuel memory plain (c ∷ text) args
        ≡ emit (c ∷ []) (print_from fuel memory plain text args)
  unfolding print_from
  literal c [] a b = rw (a, b) refl
  literal c (d ∷ text) a b = rw (a, b) refl

  open_brace :
      (text : List ℕ)
      → print_from fuel memory plain (123 ∷ 123 ∷ text) args
        ≡ emit (123 ∷ []) (print_from fuel memory plain text args)
  unfolding print_from
  open_brace text = refl

  close_brace :
      (text : List ℕ)
      → print_from fuel memory plain (125 ∷ 125 ∷ text) args
        ≡ emit (125 ∷ []) (print_from fuel memory plain text args)
  unfolding print_from
  close_brace text = refl

  nothing : print_from fuel memory plain [] args ≡ printed_with [] args
  unfolding print_from
  nothing = refl

  -- A text whose braces are doubled is printed as the text, and takes no argument.
  pub gfmt_printer-escape :
      (text : List ℕ) → gfmt_printer fuel memory (escape text) args ≡ printed_with text args
  unfolding escape
  gfmt_printer-escape [] = nothing
  gfmt_printer-escape (c ∷ text) =
      let rest = gfmt_printer-escape text in
      elim (Bool-cases (c == 123)) [
        | inl opens ↦
            let e : c ≡ 123 = ground arith in
            rw e (open_brace (escape text) ∙ ap (emit (123 ∷ [])) rest)
        | inr not_open ↦ elim (Bool-cases (c == 125)) [
          | inl closes ↦
              let e : c ≡ 125 = ground arith in
              rw e (close_brace (escape text) ∙ ap (emit (125 ∷ [])) rest)
          | inr other ↦
              rw (not_open, other)
                (literal c (escape text) not_open other ∙ ap (emit (c ∷ [])) rest)
        ]
      ]
