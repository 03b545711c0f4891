-- ===== src/Format/Buffer/Bounds.antt =====
-- What `format` writes, c-kernel/utils/fmt.c.
use pentinum_os.Base.{
  ℕ, zero, suc, ◌+◌, ◌≤◌, ◌<◌, ◌≡◌, ◌⊎◌, inl, inr, true, false, List, [], ◌∷◌, some, ◌==◌, ltb,
  update, length, get_or, refl, ap, ◌∙◌, arith, Bool-cases,
}
use pentinum_os.Format.Number.{Buf}
use pentinum_os.Format.Print.{gfmt_printer, printed_with}
use pentinum_os.Format.Buffer.{
  no_error, estrtoobig, FmtCtx, gfmt_putc, put_all, terminate, format_out, format,
}

-- The buffer with characters written from index `i` on.
written : Buf → ℕ → List ℕ → Buf
written b i [] = b
written b i (c ∷ cs) = written (update b i c) (suc i) cs

written_before : (b : Buf) (i : ℕ) (cs : List ℕ) (x : ℕ) → x < i → written b i cs x ≡ b x
unfolding written
written_before b i [] x h = refl
written_before b i (c ∷ cs) x h =
    let e : (x == i) ≡ false = ground arith in
    written_before (update b i c) (suc i) cs x (omega (arith, h)) ∙ rw e refl

written_at :
    (b : Buf) (i : ℕ) (cs : List ℕ) (k : ℕ) → k < length cs → written b i cs (i + k) ≡ get_or cs k 0
unfolding written
written_at b i [] k h = absurd (omega (arith, h))
written_at b i (c ∷ cs) zero h =
    let self : (i == i) ≡ true = ground arith in
    ap (written (update b i c) (suc i) cs) (omega arith)
    ∙ written_before (update b i c) (suc i) cs i (omega arith)
    ∙ rw self refl
written_at b i (c ∷ cs) (suc k) h =
    ap (written (update b i c) (suc i) cs) (omega arith)
    ∙ written_at (update b i c) (suc i) cs k (omega (arith, h))

abbrev ctx_at : Buf → ℕ → ℕ → FmtCtx
ctx_at b size i = record { buffer = b; buffer_size = size; buffer_index = i; error = no_error }

put_all-written :
    (cs : List ℕ) (b : Buf) (size i : ℕ)
    → i + length cs ≤ size
    → put_all (ctx_at b size i) cs ≡ ctx_at (written b i cs) size (i + length cs)
unfolding put_all gfmt_putc written
put_all-written [] b size i h = ap (ctx_at b size) (omega arith)
put_all-written (c ∷ cs) b size i h =
    let room : ltb i size ≡ true = ground (arith, h) in
    rw room (
      put_all-written cs (update b i c) size (suc i) (omega (arith, h))
      ∙ ap (ctx_at (written (update b i c) (suc i) cs) size) (omega arith))

putc_stops : (ctx : FmtCtx) (c : ℕ) → ctx.error ≡ estrtoobig → gfmt_putc ctx c ≡ ctx
unfolding gfmt_putc
putc_stops ctx c e =
    let f : (ctx.error == no_error) ≡ false = ground (arith, e) in rw (f, gfmt_putc) refl

putc_room :
    (b : Buf) (size i c : ℕ)
    → i < size
    → gfmt_putc (ctx_at b size i) c ≡ ctx_at (update b i c) size (suc i)
unfolding gfmt_putc
putc_room b size i c h = let room : ltb i size ≡ true = ground (arith, h) in rw room refl

putc_full : (b : Buf) (size i c : ℕ) → size ≤ i → (gfmt_putc (ctx_at b size i) c).error ≡ estrtoobig
unfolding gfmt_putc
putc_full b size i c h = let full : ltb i size ≡ false = ground (arith, h) in rw full refl

put_all-stops :
    (ctx : FmtCtx) (cs : List ℕ) → ctx.error ≡ estrtoobig → (put_all ctx cs).error ≡ estrtoobig
unfolding put_all
put_all-stops ctx [] e = e
put_all-stops ctx (c ∷ cs) e =
    ap (λ t. (put_all t cs).error) (putc_stops ctx c e) ∙ put_all-stops ctx cs e

put_all-error :
    (cs : List ℕ) (b : Buf) (size i : ℕ)
    → size < i + length cs
    → i ≤ size
    → (put_all (ctx_at b size i) cs).error ≡ estrtoobig
unfolding put_all
put_all-error [] b size i h k = absurd (omega (arith, h, k))
put_all-error (c ∷ cs) b size i h k = elim (Bool-cases (ltb i size)) [
  | inl room ↦
      ap (λ t. (put_all t cs).error) (putc_room b size i c (ground arith))
      ∙ put_all-error cs (update b i c) size (suc i) (omega (arith, h)) (ground arith)
  | inr full ↦
      put_all-stops (gfmt_putc (ctx_at b size i) c) cs (putc_full b size i c (ground arith))
]

-- No character goes behind the end of the buffer.
putc-inside :
    (ctx : FmtCtx) (c x : ℕ)
    → ctx.buffer_size ≤ x
    → ((gfmt_putc ctx c).buffer x ≡ ctx.buffer x)
      × ((gfmt_putc ctx c).buffer_size ≡ ctx.buffer_size)
unfolding gfmt_putc
putc-inside ctx c x h = elim (Bool-cases (ctx.error == no_error)) [
  | inl fine ↦ elim (Bool-cases (ltb ctx.buffer_index ctx.buffer_size)) [
    | inl room ↦
        let e : (x == ctx.buffer_index) ≡ false = ground (arith, h) in
        rw (fine, room) (rw e refl, refl)
    | inr full ↦ rw (fine, full) (refl, refl)
  ]
  | inr bad ↦ rw bad (refl, refl)
]

put_all-inside :
    (cs : List ℕ) (ctx : FmtCtx) (x : ℕ)
    → ctx.buffer_size ≤ x
    → ((put_all ctx cs).buffer x ≡ ctx.buffer x) × ((put_all ctx cs).buffer_size ≡ ctx.buffer_size)
unfolding put_all
put_all-inside [] ctx x h = (refl, refl)
put_all-inside (c ∷ cs) ctx x h =
    let one = putc-inside ctx c x h in
    let rest = put_all-inside cs (gfmt_putc ctx c) x (omega (arith, h, one.1)) in
    (rest.0 ∙ one.0, rest.1 ∙ one.1)

terminate-inside : (ctx : FmtCtx) (x : ℕ) → ctx.buffer_size ≤ x → (terminate ctx).1 x ≡ ctx.buffer x
unfolding terminate
terminate-inside ctx x h = elim (Bool-cases (ctx.error == no_error)) [
  | inl fine ↦ elim (Bool-cases (ltb ctx.buffer_index ctx.buffer_size)) [
    | inl room ↦
        let e : (x == ctx.buffer_index) ≡ false = ground (arith, h) in rw (fine, room) (rw e refl)
    | inr full ↦ rw (fine, full) refl
  ]
  | inr bad ↦ rw bad refl
]

-- A buffer that holds a text with its null character.
pub record Holds (b : Buf) (cs : List ℕ) : Type 0 where
  pub chars : (k : ℕ) → k < length cs → b k ≡ get_or cs k 0
  pub ends : b (length cs) ≡ 0

fitting :
    (b : Buf) (size : ℕ) (cs : List ℕ)
    → length cs < size
    → terminate (put_all (ctx_at b size 0) cs) ≡ (length cs, update (written b 0 cs) (length cs) 0)
unfolding terminate
fitting b size cs h =
    let e : 0 + length cs ≡ length cs = omega arith in
    let room : ltb (length cs) size ≡ true = ground (arith, h) in
    rw (put_all-written cs b size 0 (omega (arith, h)), e, room) refl

written-Holds : (b : Buf) (cs : List ℕ) → Holds (update (written b 0 cs) (length cs) 0) cs
written-Holds b cs =
    let self : (length cs == length cs) ≡ true = ground arith in
    record {
      chars = λ k h.
          let e : (k == length cs) ≡ false = ground (arith, h) in
          rw e (ap (written b 0 cs) (omega arith) ∙ written_at b 0 cs k h);
      ends = rw self refl;
    }

exact_end :
    (b : Buf) (size : ℕ) (cs : List ℕ)
    → length cs ≡ size
    → (terminate (put_all (ctx_at b size 0) cs)).0 ≡ 0
unfolding terminate
exact_end b size cs h =
    let e : 0 + length cs ≡ length cs = omega arith in
    let full : ltb (length cs) size ≡ false = ground (arith, h) in
    rw (put_all-written cs b size 0 (omega (arith, h)), e, full) refl

error_end : (ctx : FmtCtx) → ctx.error ≡ estrtoobig → (terminate ctx).0 ≡ 0
unfolding terminate
error_end ctx e = rw e refl

outcome :
    (b : Buf) (size : ℕ) (cs : List ℕ)
    → ((length cs < size)
        × ((terminate (put_all (ctx_at b size 0) cs)).0 ≡ length cs)
        × Holds (terminate (put_all (ctx_at b size 0) cs)).1 cs)
      ⊎ ((size ≤ length cs) × ((terminate (put_all (ctx_at b size 0) cs)).0 ≡ 0))
outcome b size cs = elim (Bool-cases (ltb (length cs) size)) [
  | inl room ↦
      let h : length cs < size = ground arith in
      inl (h, ap (λ r. r.0) (fitting b size cs h), rw (fitting b size cs h) (written-Holds b cs))
  | inr full ↦ inr (
    ground arith,
    elim (Bool-cases (length cs == size)) [
      | inl same ↦ exact_end b size cs (ground arith)
      | inr more ↦
          error_end (put_all (ctx_at b size 0) cs)
            (put_all-error cs b size 0 (ground arith) (omega arith))
    ],
  )
]

-- `format` never writes behind the end of its buffer. It returns the length of what is printed, with the
-- text and a null character in the buffer, if there is room for both, and 0 otherwise.
pub format-Holds :
    (fuel : ℕ) (memory buffer : Buf) (size : ℕ) (fmt vargs cs left : List ℕ)
    → gfmt_printer fuel memory fmt vargs ≡ printed_with cs left
    → (n : ℕ) × (buffer' : Buf) × (format fuel memory buffer size fmt vargs ≡ some (n, buffer'))
      × ((x : ℕ) → size ≤ x → buffer' x ≡ buffer x)
      × (((length cs < size) × (n ≡ length cs) × Holds buffer' cs) ⊎ ((size ≤ length cs) × (n ≡ 0)))
unfolding format
format-Holds fuel memory buffer size fmt vargs cs left e =
    let ctx : FmtCtx = put_all (ctx_at buffer size 0) cs in
    (
      (terminate ctx).0,
      (terminate ctx).1,
      ap (format_out buffer size) e,
      λ x h.
          let inside = put_all-inside cs (ctx_at buffer size 0) x h in
          terminate-inside ctx x (omega (arith, inside.1, h)) ∙ inside.0,
      outcome buffer size cs,
    )
