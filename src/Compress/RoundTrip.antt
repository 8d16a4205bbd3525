-- ===== src/Compress/RoundTrip.antt =====
-- A chunk's worth of operations makes one frame, which the decompressor undoes.
use pinenut.Prelude.{
  ℕ, ◌+◌, ◌≤◌, ◌<◌, ◌≡◌, ◌≢◌, refl, sym, ap, subst, ◌∙◌, List, [], ◌∷◌, ◌++◌, append_assoc, map,
  length, concat, concat-append, All, Exec, Sink, Fault, ◌>>◌,
}
use pinenut.Errors.{CompressionError}
use pinenut.Codec.Writes.{sink_all}
use pinenut.Common.Ends.{Ends, Ends-then}
use pinenut.Compress.{
  CompressOp, bytes_in, flush_out, end_out, end_frame, Zstd, directive, input_of, compress,
}
use pinenut.Compress.Frame.{Holding, IsEncoder, Added, compress-Compresses}
use pinenut.Compress.Stream.{IsDecoder, Decompressed, decompress_all, decompress_all-Decompressed}

-- The inputs and flushes of a chunk, and its end.
abbrev pub compress_all :
    {S E : Type 0}
    → (sink : Sink S E) → (CompressionError → E)
    → (zstd : Zstd) → ℕ
    → List CompressOp
    → Exec (zstd.CCtx × S) (Fault E) (Unit {0})
compress_all sink of_error zstd fuel [] = compress sink of_error zstd fuel end_out
compress_all sink of_error zstd fuel (op ∷ ops) =
    compress sink of_error zstd fuel op >> compress_all sink of_error zstd fuel ops

module _ {zstd : Zstd} {holding : Holding zstd} (laws : IsEncoder holding) where
  open zstd use {CCtx}
  open holding use {IsFrame, Holds, rounds}

  -- An operation in the middle of a frame, for which the fuel is enough.
  pub record Middle (fuel : ℕ) (op : CompressOp) : Type 0 where
    pub not_end : directive op ≢ end_frame
    pub enough : (ctx : CCtx) → rounds ctx (input_of op) (directive op) < fuel

  pub Middle-Holds :
      (op : CompressOp) (ctx : CCtx) (plain out : List ℕ)
      → directive op ≢ end_frame
      → Added holding (directive op) 0 ctx plain out
      → Holds ctx plain out
  Middle-Holds (bytes_in bytes) ctx plain out e h = h
  Middle-Holds flush_out ctx plain out e h = h
  Middle-Holds end_out ctx plain out e h = absurd (e refl)

  module _ {S E : Type 0} (sink : Sink S E) (of_error : CompressionError → E) where
    -- The sink is handed the rest of one frame of `plain`, behind `out`, up to its first error, and the
    -- context is then at the start of a frame.
    pub record Framed (ctx : CCtx) (plain out : List ℕ) (m : Exec (CCtx × S) (Fault E) (Unit {0}))
        : Type 0 where
      pub after : CCtx
      pub pieces : List (List ℕ)
      pub frame : IsFrame (out ++ concat pieces) plain
      pub ready : Holds after [] []
      pub ends : (s : S) → Ends sink after (sink_all sink pieces s) (m (ctx, s))

    ops-Framed :
        (ops : List CompressOp) (fuel : ℕ) (ctx : CCtx) (plain out : List ℕ)
        → All (Middle fuel) ops
        → ((c : CCtx) → rounds c [] end_frame < fuel)
        → Holds ctx plain out
        → Framed ctx
            (plain ++ concat (map input_of ops))
            out
            (compress_all sink of_error zstd fuel ops)
    ops-Framed [] fuel ctx plain out mid enough holds =
        let r =
          compress-Compresses laws sink of_error fuel end_out ctx plain out (enough ctx) holds in
        record {
          after = r.after;
          pieces = r.pieces;
          frame = r.holds.0;
          ready = r.holds.1;
          ends = r.ends;
        }
    ops-Framed (op ∷ ops) fuel ctx plain out (m, mid) enough holds =
        let one =
          compress-Compresses laws sink of_error fuel op ctx plain out (m.enough ctx) holds in
        let two =
          ops-Framed ops fuel one.after (plain ++ input_of op) (out ++ concat one.pieces) mid enough
            (Middle-Holds op one.after _ _ m.not_end one.holds) in
        record {
          after = two.after;
          pieces = one.pieces ++ two.pieces;
          frame =
              subst (λ f. IsFrame f (plain ++ (input_of op ++ concat (map input_of ops))))
                (append_assoc out (concat one.pieces) (concat two.pieces)
                  ∙ ap (λ t. out ++ t) (sym (concat-append one.pieces two.pieces)))
                (subst (IsFrame _) (append_assoc plain (input_of op) (concat (map input_of ops)))
                  two.frame);
          ready = two.ready;
          ends =
              Ends-then sink ctx one.after two.after one.pieces two.pieces
                (compress sink of_error zstd fuel op) (compress_all sink of_error zstd fuel ops)
                one.ends two.ends;
        }

    -- From the start of a frame, inputs and flushes in any order and then an end hand the sink the
    -- pieces of exactly one frame, which holds the inputs in order, up to the first error of the sink;
    -- the context is then at the start of a frame again, unless the sink fails. The library behaves as
    -- it documents, and the fuel is above the rounds that it needs for each operation.
    pub compress_all-Framed :
        (ops : List CompressOp) (fuel : ℕ) (ctx : CCtx)
        → All (Middle fuel) ops
        → ((c : CCtx) → rounds c [] end_frame < fuel)
        → Holds ctx [] []
        → Framed ctx (concat (map input_of ops)) [] (compress_all sink of_error zstd fuel ops)
    compress_all-Framed ops fuel ctx mid enough ready =
        ops-Framed ops fuel ctx [] [] mid enough ready

    -- What the compressor hands its sink for a chunk, cut in any other way into inputs, makes the
    -- decompressor hand its own sink the bytes that were compressed, in order, up to the first error of
    -- that sink. The compressor starts at the start of a frame and the decompressor at the end of one, the
    -- library behaves as it documents, its frames are the same on both sides, and the fuel is enough
    -- for both.
    pub decompress_all-compressed :
        {T F : Type 0} (target : Sink T F) (of_failure : CompressionError → F)
        (decoder : IsDecoder zstd) (ops : List CompressOp) (inputs : List (List ℕ)) (fuel : ℕ)
        (ctx : CCtx) (dctx : zstd.DCtx)
        → (frames : (f p : List ℕ) → IsFrame f p → decoder.IsFrame f p)
        → (mid : All (Middle fuel) ops) → (enough : (c : CCtx) → rounds c [] end_frame < fuel)
        → (ready : Holds ctx [] [])
        → concat inputs ≡ concat (compress_all-Framed ops fuel ctx mid enough ready).pieces
        → decoder.Decodes dctx [] []
        → length (concat inputs) + length (concat (map input_of ops)) ≤ fuel
        → Decompressed target of_failure decoder dctx
            (concat (map input_of ops))
            (decompress_all target of_failure decoder fuel inputs)
    decompress_all-compressed target of_failure decoder ops inputs fuel ctx dctx frames mid enough
          ready cut at_end h =
        decompress_all-Decompressed target of_failure decoder inputs fuel dctx
          (concat (map input_of ops)) h at_end
          (frames _ _ (
            subst (λ f. IsFrame f (concat (map input_of ops))) (sym cut)
              (compress_all-Framed ops fuel ctx mid enough ready).frame))
