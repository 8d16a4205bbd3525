-- ===== src/Compress/Stream.antt =====
-- What the compressor and the decompressor hand their sinks, by what the library documents.
use pinenut.Prelude.{
  ℕ, zero, suc, ◌+◌, ◌≤◌, ◌≡◌, refl, sym, ap, ap₂, subst, ◌∙◌, arith, List, [], ◌∷◌, ◌++◌,
  append_assoc, length, length-append, length-drop, drop, concat, concat-append, Result, ok, err,
  Exec, Sink, Fault, raised, continue, map_err, ◌>>◌, pure,
}
use pinenut.Errors.{CompressionError}
use pinenut.Codec.Writes.{sink_all}
use pinenut.Common.Ends.{Ends, Ends-then, calls, concat-calls}
use pinenut.Compress.{Zstd, decompress_buffer_len, emit, on_result, decompress}

-- What the library documents of a decompressor. `Decodes ctx frames plain` says that a context, given
-- the bytes `frames`, puts out the bytes `plain`; `IsFrame frame plain` that `plain` is what `frame`
-- holds.
pub record IsDecoder (zstd : Zstd) : Type 1 where
  pub Decodes : zstd.DCtx → List ℕ → List ℕ → Type 0
  pub IsFrame : List ℕ → List ℕ → Type 0
  -- A context at the end of a frame takes another.
  pub next_frame :
      (ctx : zstd.DCtx) (frame plain : List ℕ)
      → Decodes ctx [] []
      → IsFrame frame plain
      → Decodes ctx frame plain
  -- A call on the first of the bytes succeeds, takes some of them, and its output is the first of
  -- what is to come.
  pub succeeds :
      (ctx : zstd.DCtx) (bytes rest plain : List ℕ)
      → 1 ≤ length bytes
      → Decodes ctx (bytes ++ rest) plain
      → (n : ℕ) × ((zstd.decompress_stream ctx decompress_buffer_len bytes).result ≡ ok n)
  pub left_over :
      (ctx : zstd.DCtx) (bytes rest plain : List ℕ)
      → 1 ≤ length bytes
      → Decodes ctx (bytes ++ rest) plain
      → (plain' : List ℕ) × (plain
          ≡ (zstd.decompress_stream ctx decompress_buffer_len bytes).output ++ plain')
        × Decodes
            (zstd.decompress_stream ctx decompress_buffer_len bytes).context
            (drop (zstd.decompress_stream ctx decompress_buffer_len bytes).consumed bytes ++ rest)
            plain'
  pub takes_at_most :
      (ctx : zstd.DCtx) (bytes : List ℕ)
      → (zstd.decompress_stream ctx decompress_buffer_len bytes).consumed ≤ length bytes
  -- A call takes a byte or puts one out.
  pub progress :
      (ctx : zstd.DCtx) (bytes rest plain : List ℕ)
      → 1 ≤ length bytes
      → Decodes ctx (bytes ++ rest) plain
      → 1
        ≤ (zstd.decompress_stream ctx decompress_buffer_len bytes).consumed
          + length (zstd.decompress_stream ctx decompress_buffer_len bytes).output
  -- The last byte is not taken before all is put out.
  pub flushed : (ctx : zstd.DCtx) (plain : List ℕ) → Decodes ctx [] plain → plain ≡ []

module _ {S E : Type 0} (sink : Sink S E) (of_error : CompressionError → E) where
  pub emit-Ends :
      {C : Type 0} (ctx : C) (output : List ℕ) (s : S)
      → Ends sink ctx (sink_all sink (calls output) s) (emit sink of_error ctx output s)
  unfolding emit
  emit-Ends ctx [] s = refl
  emit-Ends ctx (x ∷ output) s = go (sink (x ∷ output) s)
    where
      go :
          (r : Result E (Unit {0}) × S)
          → Ends sink ctx
              (let (a, s') = r in continue a (λ _. sink_all sink []) s')
              (let (a, s') = r in (map_err raised a, (ctx, s')))
      go (ok u, s') = refl
      go (err e, s') = (refl, refl)

  -- A successful call, and the rest of the loop behind it.
  pub call-Ends :
      {C : Type 0} (start left : C) (next : ℕ → Exec (C × S) (Fault E) (Unit {0})) (ctx : C)
      (output : List ℕ) (r : Result ℕ ℕ) (n : ℕ) (pieces : List (List ℕ))
      → r ≡ ok n
      → ((s : S) → Ends sink left (sink_all sink pieces s) (next n (ctx, s)))
      → (s : S)
      → Ends sink left
          (sink_all sink (calls output ++ pieces) s)
          (on_result sink of_error next ctx output s r)
  unfolding on_result
  call-Ends start left next ctx output r n pieces e ends s = rw e (
      Ends-then sink start ctx left (calls output) pieces (λ st. emit sink of_error ctx output st.1)
        (next n) (emit-Ends ctx output) ends s)

  module _ {zstd : Zstd} (laws : IsDecoder zstd) where
    open zstd use {DCtx, decompress_stream}
    open laws use {Decodes}

    -- A step that is given the first bytes of what decodes to `plain`, with `rest` behind them.
    pub record Decompresses (ctx : DCtx) (rest plain : List ℕ)
        (m : Exec (DCtx × S) (Fault E) (Unit {0})) : Type 0 where
      pub after : DCtx
      pub plain' : List ℕ
      pub pieces : List (List ℕ)
      pub out : concat pieces ++ plain' ≡ plain
      pub decodes : Decodes after rest plain'
      pub ends : (s : S) → Ends sink after (sink_all sink pieces s) (m (ctx, s))

    decompress-Decompresses :
        (fuel : ℕ) (ctx : DCtx) (bytes rest plain : List ℕ)
        → length bytes + length plain ≤ fuel
        → Decodes ctx (bytes ++ rest) plain
        → Decompresses ctx rest plain (decompress sink of_error zstd fuel bytes)
    unfolding decompress
    decompress-Decompresses fuel ctx [] rest plain h d = record {
      after = ctx;
      plain' = plain;
      pieces = [];
      out = refl;
      decodes = d;
      ends = λ s. refl;
    }
    decompress-Decompresses zero ctx (x ∷ xs) rest plain h d = absurd (omega arith)
    decompress-Decompresses (suc fuel) ctx (x ∷ xs) rest plain h d =
        let bytes = x ∷ xs in
        let call = decompress_stream ctx decompress_buffer_len bytes in
        let some_bytes : 1 ≤ length bytes = omega arith in
        let (n, okay) = laws.succeeds ctx bytes rest plain some_bytes d in
        let (plain', split, d') = laws.left_over ctx bytes rest plain some_bytes d in
        let less : length (drop call.consumed bytes) + length plain' ≤ fuel = omega (
          arith,
          length-drop call.consumed bytes,
          laws.takes_at_most ctx bytes,
          laws.progress ctx bytes rest plain some_bytes d,
          ap length split,
          length-append call.output plain',
        ) in
        let r =
          decompress-Decompresses fuel call.context (drop call.consumed bytes) rest plain' less
            d' in
        record {
          after = r.after;
          plain' = r.plain';
          pieces = calls call.output ++ r.pieces;
          out =
              ap (λ t. t ++ r.plain') (concat-append (calls call.output) r.pieces)
              ∙ append_assoc (concat (calls call.output)) (concat r.pieces) r.plain'
              ∙ ap₂ (λ a b. a ++ b) (concat-calls call.output) r.out
              ∙ sym split;
          decodes = r.decodes;
          ends =
              call-Ends ctx r.after
                (λ _. decompress sink of_error zstd fuel (drop call.consumed bytes)) call.context
                call.output call.result n r.pieces okay r.ends;
        }

    abbrev pub decompress_all : ℕ → List (List ℕ) → Exec (DCtx × S) (Fault E) (Unit {0})
    decompress_all fuel [] = pure tt
    decompress_all fuel (bytes ∷ inputs) =
        decompress sink of_error zstd fuel bytes >> decompress_all fuel inputs

    -- The sink is handed `plain`, in some pieces, up to its first error, and the context is then at the
    -- end of a frame.
    pub record Decompressed (ctx : DCtx) (plain : List ℕ) (m : Exec (DCtx × S) (Fault E) (Unit {0}))
        : Type 0 where
      pub after : DCtx
      pub pieces : List (List ℕ)
      pub out : concat pieces ≡ plain
      pub at_end : Decodes after [] []
      pub ends : (s : S) → Ends sink after (sink_all sink pieces s) (m (ctx, s))

    inputs-Decompressed :
        (inputs : List (List ℕ)) (fuel : ℕ) (ctx : DCtx) (plain : List ℕ)
        → length (concat inputs) + length plain ≤ fuel
        → Decodes ctx (concat inputs) plain
        → Decompressed ctx plain (decompress_all fuel inputs)
    inputs-Decompressed [] fuel ctx plain h d = record {
      after = ctx;
      pieces = [];
      out = sym (laws.flushed ctx plain d);
      at_end = subst (Decodes ctx []) (laws.flushed ctx plain d) d;
      ends = λ s. refl;
    }
    inputs-Decompressed (bytes ∷ inputs) fuel ctx plain h d =
        let size = length-append bytes (concat inputs) in
        let one =
          decompress-Decompresses fuel ctx bytes (concat inputs) plain (omega (arith, size)) d in
        let two =
          inputs-Decompressed inputs fuel one.after one.plain'
            (omega (arith, size, ap length one.out, length-append (concat one.pieces) one.plain'))
            one.decodes in
        record {
          after = two.after;
          pieces = one.pieces ++ two.pieces;
          out =
              concat-append one.pieces two.pieces
              ∙ ap (λ t. concat one.pieces ++ t) two.out
              ∙ one.out;
          at_end = two.at_end;
          ends =
              Ends-then sink ctx one.after two.after one.pieces two.pieces
                (decompress sink of_error zstd fuel bytes) (decompress_all fuel inputs) one.ends
                two.ends;
        }

    -- However a frame is cut into inputs, a decompressor that is at the end of a frame hands its sink
    -- exactly what the frame holds, in order, up to the first error of the sink, and is then at the end
    -- of a frame again, unless the sink fails. The library behaves as it documents, and the loop has as
    -- many rounds as there are bytes on both sides.
    pub decompress_all-Decompressed :
        (inputs : List (List ℕ)) (fuel : ℕ) (ctx : DCtx) (plain : List ℕ)
        → length (concat inputs) + length plain ≤ fuel
        → Decodes ctx [] []
        → laws.IsFrame (concat inputs) plain
        → Decompressed ctx plain (decompress_all fuel inputs)
    decompress_all-Decompressed inputs fuel ctx plain h ready frame =
        inputs-Decompressed inputs fuel ctx plain h
          (laws.next_frame ctx (concat inputs) plain ready frame)
