-- ===== src/Format/Number/Turn.antt =====
-- The loop of `gfmt_format_num_buf` that reverses the digits, c-kernel/utils/impl/gfmt.c.
use pentinum_os.Base.{
  ℕ, zero, suc, ◌+◌, ◌-◌, ◌*◌, ◌≤◌, ◌<◌, ◌≡◌, ◌⊎◌, inl, inr, false, ◌==◌, update, arith, refl, ap,
  ◌∙◌, Bool-cases,
}
use pentinum_os.Format.Number.{Buf, reverse_loop}

-- The loop that reverses leaves alone what it has passed.
passed :
    (n j len : ℕ) (buf : Buf) (x : ℕ)
    → 2 * (j + n) ≤ len
    → (x < j) ⊎ (len ≤ x + j)
    → reverse_loop n j len buf x ≡ buf x
unfolding reverse_loop
passed zero j len buf x h o = refl
passed (suc n) j len buf x h o =
    let a : (x == j) ≡ false = ground (arith, h, o) in
    let b : (x == len - 1 - j) ≡ false = ground (arith, h, o) in
    passed n (suc j) len (update (update buf j (buf (len - 1 - j))) (len - 1 - j) (buf j)) x
      (omega (arith, h))
      (elim o [ inl l ↦ inl (omega (arith, l)) | inr l ↦ inr (omega (arith, l)) ])
    ∙ rw (a, b) refl

pub turned :
    (n j len : ℕ) (buf : Buf) (x : ℕ)
    → 2 * (j + n) ≤ len
    → len ≤ 2 * (j + n) + 1
    → j ≤ x
    → x + j < len
    → reverse_loop n j len buf x ≡ buf (len - 1 - x)
unfolding reverse_loop
turned zero j len buf x h k a b = ap buf (omega (arith, h, k, a, b))
turned (suc n) j len buf x h k a b =
    let buf2 : Buf = update (update buf j (buf (len - 1 - j))) (len - 1 - j) (buf j) in
    elim (Bool-cases (x == j)) [
      | inl first ↦
          let far : (x == len - 1 - j) ≡ false = ground (arith, h) in
          passed n (suc j) len buf2 x (omega (arith, h)) (inl (ground arith))
          ∙ rw (far, first) (ap (λ i. buf (len - 1 - i)) (ground arith))
      | inr not_first ↦ elim (Bool-cases (x == len - 1 - j)) [
        | inl other ↦
            passed n (suc j) len buf2 x (omega (arith, h)) (inr (ground (arith, h)))
            ∙ rw other (ap buf (ground (arith, h, a, b)))
        | inr inner ↦
            let c : (len - 1 - x == j) ≡ false = ground (arith, h, a, b) in
            let d : (len - 1 - x == len - 1 - j) ≡ false = ground (arith, h, a, b) in
            turned n (suc j) len buf2 x (omega (arith, h)) (omega (arith, k)) (ground (arith, a))
              (ground (arith, h, a, b))
            ∙ rw (d, c) refl
      ]
    ]
