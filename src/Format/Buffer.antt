-- ===== src/Format/Buffer.antt =====
-- Output into a buffer, `format` of c-kernel/utils/fmt.c. Only `formatA` gives `gfmt_putc` a heap that
-- the buffer can grow on, and that branch is left out.
pub mod Bounds
use pentinum_os.Base.{
  ℕ, zero, suc, ◌+◌, Bool, true, false, not, List, [], ◌∷◌, Option, none, some, ◌==◌, ltb,
  if◌then◌else◌, update,
}
use pentinum_os.Format.Number.{Buf}
use pentinum_os.Format.Print.{Out, gfmt_printer}

-- `EPENDING`, which is no error, and `ESTRTOOBIG`
abbrev pub no_error : ℕ
no_error = 0x70000000

abbrev pub estrtoobig : ℕ
estrtoobig = 0x14

-- `fmt_ctx_t`
pub record FmtCtx : Type 0 where
  pub buffer : Buf
  pub buffer_size : ℕ
  pub buffer_index : ℕ
  pub error : ℕ

unfoldable pub gfmt_putc : FmtCtx → ℕ → FmtCtx
gfmt_putc ctx ch =
    if not (ctx.error == no_error)
    then ctx
    else if ltb ctx.buffer_index ctx.buffer_size
    then record ctx {
      buffer = update ctx.buffer ctx.buffer_index ch;
      buffer_index = suc ctx.buffer_index;
    }
    else record ctx { error = estrtoobig }

-- The characters that the printer gives, in their order.
unfoldable pub put_all : FmtCtx → List ℕ → FmtCtx
put_all ctx [] = ctx
put_all ctx (c ∷ cs) = put_all (gfmt_putc ctx c) cs

-- The end of `format`: what it returns, 0 on a failure, and the buffer.
unfoldable pub terminate : FmtCtx → ℕ × Buf
terminate ctx =
    if not (ctx.error == no_error)
    then (0, ctx.buffer)
    else if ltb ctx.buffer_index ctx.buffer_size
    then (ctx.buffer_index, update ctx.buffer ctx.buffer_index 0)
    else (0, ctx.buffer)

abbrev pub format_out : Buf → ℕ → Option Out → Option (ℕ × Buf)
format_out buffer buffer_size none = none
format_out buffer buffer_size (some o) = some (
    terminate (
      put_all
        (record { buffer = buffer; buffer_size = buffer_size; buffer_index = 0; error = no_error })
        o.printed))

unfoldable pub format : ℕ → Buf → Buf → ℕ → List ℕ → List ℕ → Option (ℕ × Buf)
format fuel memory buffer buffer_size fmt vargs =
    format_out buffer buffer_size (gfmt_printer fuel memory fmt vargs)
