-- ===== src/Compress.antt =====
-- pinenut/src/compress.rs: the loops around the streaming calls of the library zstd, which is a
-- parameter.
pub mod Stream
pub mod Frame
pub mod RoundTrip
use pinenut.Prelude.{
  ℕ, zero, suc, List, [], ◌∷◌, length, drop, Bool, true, false, ◌==◌, if◌then◌else◌, Result, ok,
  err, Exec, Sink, Fault, stuck, raised, map_err, continue,
}
use pinenut.Errors.{CompressionError}

-- `CompressOp`
pub data CompressOp : Type 0 where
  bytes_in : List ℕ → CompressOp
  flush_out : CompressOp
  end_out : CompressOp

-- What one call of the library does: how many bytes of the input it takes, its output, and an error
-- code or the number that it returns.
pub record Call (C : Type 0) : Type 0 where
  pub context : C
  pub consumed : ℕ
  pub output : List ℕ
  pub result : Result ℕ ℕ

-- `ZSTD_EndDirective`
pub data Directive : Type 0 where
  go_on flush_all end_frame : Directive

-- `compress_stream2` and `decompress_stream`, given the room for the output and the input that is left.
pub record Zstd : Type 1 where
  pub CCtx : Type 0
  pub DCtx : Type 0
  pub compress_stream2 : CCtx → ℕ → List ℕ → Directive → Call CCtx
  pub decompress_stream : DCtx → ℕ → List ℕ → Call DCtx

-- `From<CompressOp> for ZSTD_EndDirective`
abbrev pub directive : CompressOp → Directive
directive (bytes_in bytes) = go_on
directive flush_out = flush_all
directive end_out = end_frame

abbrev pub input_of : CompressOp → List ℕ
input_of (bytes_in bytes) = bytes
input_of flush_out = []
input_of end_out = []

abbrev pub is_input : CompressOp → Bool
is_input (bytes_in bytes) = true
is_input flush_out = false
is_input end_out = false

-- The lengths of the output buffers.
abbrev pub compress_buffer_len : ℕ
compress_buffer_len = 256

abbrev pub decompress_buffer_len : ℕ
decompress_buffer_len = 1024

abbrev pub is_empty : List ℕ → Bool
is_empty [] = true
is_empty (x ∷ xs) = false

-- Whether the loop is done: with all input taken, or with everything put out.
abbrev pub finished : CompressOp → List ℕ → ℕ → Bool
finished op rest remaining = if is_input op then is_empty rest else remaining == 0

module _ {S E : Type 0} (sink : Sink S E) (of_error : CompressionError → E) where
  -- `if output.pos() > 0 { sink.sink(output.as_slice())?; }`
  unfoldable pub emit : {C : Type 0} → C → List ℕ → S → Result (Fault E) (Unit {0}) × (C × S)
  emit c [] s = (ok tt, (c, s))
  emit c (x ∷ output) s = let (r, s') = sink (x ∷ output) s in (map_err raised r, (c, s'))

  -- What a call of the library leads to; `next` is the rest of the loop.
  unfoldable pub on_result :
      {C : Type 0}
      → (ℕ → Exec (C × S) (Fault E) (Unit {0}))
      → C
      → List ℕ
      → S
      → Result ℕ ℕ
      → Result (Fault E) (Unit {0}) × (C × S)
  on_result next c output s (err code) = (err (raised (of_error (record { code = code }))), (c, s))
  on_result next c output s (ok n) = let (r, st) = emit c output s in continue r (λ _. next n) st

  abbrev pub after_call :
      {C : Type 0}
      → (ℕ → Exec (C × S) (Fault E) (Unit {0}))
      → Call C
      → S
      → Result (Fault E) (Unit {0}) × (C × S)
  after_call next call s = on_result next call.context call.output s call.result

  module _ (zstd : Zstd) where
    open zstd use {CCtx, DCtx, compress_stream2, decompress_stream}

    -- `Compressor::compress`, on fuel.
    unfoldable pub compress_loop : ℕ → CompressOp → List ℕ → Exec (CCtx × S) (Fault E) (Unit {0})
    compress_loop zero op bytes st = (err stuck, st)
    compress_loop (suc fuel) op bytes (z, s) =
        let call = compress_stream2 z compress_buffer_len bytes (directive op) in
        let rest = drop call.consumed bytes in
        after_call
          (λ remaining.
            let again = compress_loop fuel op rest in
            if finished op rest remaining then (λ st. (ok tt, st)) else again)
          call s

    unfoldable pub compress : ℕ → CompressOp → Exec (CCtx × S) (Fault E) (Unit {0})
    compress fuel op = compress_loop fuel op (input_of op)

    -- `Decompressor::decompress`, on fuel.
    unfoldable pub decompress : ℕ → List ℕ → Exec (DCtx × S) (Fault E) (Unit {0})
    decompress fuel [] st = (ok tt, st)
    decompress zero (x ∷ xs) st = (err stuck, st)
    decompress (suc fuel) (x ∷ xs) (z, s) =
        let call = decompress_stream z decompress_buffer_len (x ∷ xs) in
        after_call (λ _. decompress fuel (drop call.consumed (x ∷ xs))) call s

    -- `Compressor` and `Decompressor` for `Option<T>`: without one the bytes pass.
    unfoldable pub compress_optional : ℕ → Bool → CompressOp → Exec (CCtx × S) (Fault E) (Unit {0})
    compress_optional fuel true op st = compress fuel op st
    compress_optional fuel false (bytes_in bytes) (z, s) =
        let (r, s') = sink bytes s in (map_err raised r, (z, s'))
    compress_optional fuel false flush_out st = (ok tt, st)
    compress_optional fuel false end_out st = (ok tt, st)

    unfoldable pub decompress_optional : ℕ → Bool → List ℕ → Exec (DCtx × S) (Fault E) (Unit {0})
    decompress_optional fuel true bytes st = decompress fuel bytes st
    decompress_optional fuel false bytes (z, s) =
        let (r, s') = sink bytes s in (map_err raised r, (z, s'))
