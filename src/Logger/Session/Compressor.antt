-- ===== src/Logger/Session/Compressor.antt =====
-- The compressor in front of the encryptor, and the encoder in front of both.
use pinenut.Prelude.{
  ℕ, ◌≤◌, ◌<◌, ◌≡◌, ◌≢◌, refl, sym, ap, subst, ◌∙◌, arith, List, [], ◌∷◌, ◌++◌, append_assoc,
  append-nil, length, length-append, concat, concat-append, All, Bool, true, ok, Exec, Fault,
  raised, map_err, ◌>>◌,
}
use pinenut.Chrono.{Chrono, IsChrono}
use pinenut.Record.{Record}
use pinenut.Common.BytesBuf.{BytesBuf}
use pinenut.Common.Ends.{Ends-ok}
use pinenut.Codec.{encode_record}
use pinenut.Codec.Accumulate.{encode, encode_record-Delivers}
use pinenut.Codec.Values.{IsRecord, record_bytes}
use pinenut.Codec.Writes.{sink_all}
use pinenut.Encrypt.{Aes, IsAes}
use pinenut.Compress.{
  CompressOp, bytes_in, Directive, end_frame, Zstd, directive, input_of, compress,
  compress_optional,
}
use pinenut.Compress.Frame.{Holding, IsEncoder, compress-Compresses}
use pinenut.Compress.RoundTrip.{Middle-Holds}
use pinenut.Chunk.{Chunk, capacity}
use pinenut.Logger.{
  LoggerError, Compress, compress_error, flat, zstd_compressor, to_encryptor, to_compressor,
  run_compressor, encode_step,
}
use pinenut.Logger.Session.Encryptor.{Handed, Took, Same-then, sink_all-Took}

module _ {c : Chrono} (chrono : IsChrono c) {aes : Aes} (cipher : IsAes aes) (cap : ℕ)
    (room : 32 ≤ cap) (has_key : Bool) {zstd : Zstd} {holding : Holding zstd}
    (encoder : IsEncoder holding) (fuel : ℕ) where
  open zstd use {CCtx}
  open holding use {IsFrame, Holds, rounds}

  abbrev pub compressor : Compress CCtx (BytesBuf × Chunk) (Fault LoggerError)
  compressor = zstd_compressor zstd fuel true

  abbrev pub Stepping : Type 0
  Stepping = Exec (CCtx × (BytesBuf × Chunk)) (Fault LoggerError) (Unit {0})

  -- A step takes `more` behind `plain`, and hands the encryptor something behind `out`. It succeeds if
  -- the chunk has room for that.
  pub record Feeds (z : CCtx) (plain out more : List ℕ) (m : Stepping) : Type 0 where
    pub after : CCtx
    pub added : List ℕ
    pub holds : Holds after (plain ++ more) (out ++ added)
    pub runs :
        (st : BytesBuf × Chunk)
        → Handed cipher cap has_key out st
        → length (out ++ added) ≤ capacity st.1
        → (st' : BytesBuf × Chunk) × (m (z, st) ≡ (ok tt, (after, st')))
          × Took cipher cap (λ e. e) has_key (out ++ added) st st'

  -- A call of the compressor, by what the encryptor makes of its output.
  pub run-ok :
      (op : CompressOp) (z after : CCtx) (pieces : List (List ℕ)) (out : List ℕ)
      → ((s : BytesBuf × Chunk)
          → pinenut.Common.Ends.Ends
              (to_encryptor c aes has_key compressor)
              after
              (sink_all (to_encryptor c aes has_key compressor) pieces s)
              (compress
                (to_encryptor c aes has_key compressor)
                (λ e. raised (compress_error e))
                zstd
                fuel
                op
                (z, s)))
      → (st : BytesBuf × Chunk) → Handed cipher cap has_key out st
      → length (out ++ concat pieces) ≤ capacity st.1
      → (st' : BytesBuf × Chunk) × (run_compressor c aes has_key compressor op (z, st)
          ≡ (ok tt, (after, st')))
        × Took cipher cap (λ e. e) has_key (out ++ concat pieces) st st'
  unfolding run_compressor zstd_compressor compress_optional
  run-ok op z after pieces out ends st h fits =
      let (st', e, t) = sink_all-Took cipher cap c compressor room has_key pieces out st h fits in
      let okay =
        Ends-ok (to_encryptor c aes has_key compressor) after pieces
          (compress (to_encryptor c aes has_key compressor) (λ e. raised (compress_error e)) zstd
            fuel op)
          (z, st) st st' (ends st) e in
      (st', ap (λ r. (map_err flat r.0, r.1)) okay, t)

  pub run_compressor-Feeds :
      (op : CompressOp) (z : CCtx) (plain out : List ℕ)
      → directive op ≢ end_frame
      → rounds z (input_of op) (directive op) < fuel
      → Holds z plain out
      → Feeds z plain out (input_of op) (run_compressor c aes has_key compressor op)
  run_compressor-Feeds op z plain out not_end enough holds =
      let r =
        compress-Compresses encoder (to_encryptor c aes has_key compressor)
          (λ e. raised (compress_error e)) fuel op z plain out enough holds in
      record {
        after = r.after;
        added = concat r.pieces;
        holds = Middle-Holds encoder op r.after _ _ not_end r.holds;
        runs = run-ok op z r.after r.pieces out r.ends;
      }

  Feeds-then :
      (z : CCtx) (plain out a b : List ℕ) (m n : Stepping)
      → (p : Feeds z plain out a m) → Feeds p.after (plain ++ a) (out ++ p.added) b n
      → Feeds z plain out (a ++ b) (m >> n)
  Feeds-then z plain out a b m n p q =
      let assoc = append_assoc out p.added q.added in
      record {
        after = q.after;
        added = p.added ++ q.added;
        holds =
            subst (λ o. Holds q.after (plain ++ (a ++ b)) o) assoc
              (subst (λ t. Holds q.after t ((out ++ p.added) ++ q.added)) (append_assoc plain a b)
                q.holds);
        runs = λ st h fits.
            let (mid, one, t) =
              p.runs st h
                (omega (arith, ap length assoc, length-append (out ++ p.added) q.added)) in
            let (end, two, u) =
              q.runs mid t.holds (omega (arith, ap length assoc, t.same.same_capacity)) in
            (
              end,
              rw one two,
              record {
                holds = subst (λ o. Handed cipher cap has_key o end) assoc u.holds;
                same = Same-then cipher cap st.1 mid.1 end.1 t.same u.same;
                ended = u.ended ∙ t.ended;
              },
            );
      }

  -- The library needs fewer rounds than the loop has, for inputs of at most `len` bytes.
  abbrev pub IsEnough : ℕ → Type 0
  IsEnough len =
      (z : CCtx) (bytes : List ℕ) (d : Directive) → length bytes ≤ len → rounds z bytes d < fuel

  Feeds-nil :
      (z : CCtx) (plain out : List ℕ) → Holds z plain out → Feeds z plain out [] (λ st. (ok tt, st))
  Feeds-nil z plain out holds = record {
    after = z;
    added = [];
    holds =
        subst (λ o. Holds z (plain ++ []) o) (sym (append-nil out))
          (subst (λ p. Holds z p out) (sym (append-nil plain)) holds);
    runs = λ st h fits. (
      st,
      refl,
      record {
        holds = subst (λ o. Handed cipher cap has_key o st) (sym (append-nil out)) h;
        same = record { same_capacity = refl; same_fixed = refl };
        ended = refl;
      },
    );
  }

  to_compressor-Feeds :
      (len : ℕ) (pieces : List (List ℕ)) (z : CCtx) (plain out : List ℕ)
      → IsEnough len
      → All (λ p. length p ≤ len) pieces
      → Holds z plain out
      → Feeds z plain out (concat pieces) (sink_all (to_compressor c aes has_key compressor) pieces)
  unfolding to_compressor
  to_compressor-Feeds len [] z plain out enough short holds = Feeds-nil z plain out holds
  to_compressor-Feeds len (p ∷ pieces) z plain out enough short holds =
      let one =
        run_compressor-Feeds (bytes_in p) z plain out (λ e. cc) (enough z p _ short.0) holds in
      Feeds-then z plain out p (concat pieces) (to_compressor c aes has_key compressor p)
        (sink_all (to_compressor c aes has_key compressor) pieces) one
        (to_compressor-Feeds len pieces one.after (plain ++ p) (out ++ one.added) enough short.1
          one.holds)

  module _ (len : ℕ) (positive : 0 < len) (enough : IsEnough len) where
    -- The buffer of the encoder between two records.
    abbrev pub encoder_buffer : BytesBuf
    encoder_buffer = record { capacity = len; bytes = [] }

    pub record StageFeeds (ends : List ℕ → List ℕ) (z : CCtx) (plain out more : List ℕ)
        (m : Exec (BytesBuf × (CCtx × (BytesBuf × Chunk))) (Fault LoggerError) (Unit {0}))
        : Type 0 where
      pub after : CCtx
      pub added : List ℕ
      pub holds : Holds after (plain ++ more) (out ++ added)
      pub runs :
          (st : BytesBuf × Chunk)
          → Handed cipher cap has_key out st
          → length (out ++ added) ≤ capacity st.1
          → (st' : BytesBuf × Chunk) × (m (encoder_buffer, (z, st))
              ≡ (ok tt, (encoder_buffer, (after, st'))))
            × Took cipher cap ends has_key (out ++ added) st st'

    each_short :
        (full : List (List ℕ)) (last : List ℕ)
        → All (λ p. length p ≡ len) full
        → length last ≤ len
        → All (λ p. length p ≤ len) (full ++ (last ∷ []))
    each_short [] last h l = (l, tt)
    each_short (p ∷ full) last h l = (omega arith, each_short full last h.1 l)

    pub encode_step-Feeds :
        (r : Record c) (z : CCtx) (plain out : List ℕ)
        → IsRecord c r
        → Holds z plain out
        → StageFeeds
            (λ e. e)
            z
            plain
            out
            (record_bytes c r)
            (encode_step c aes has_key compressor r)
    unfolding encode_step
    encode_step-Feeds r z plain out valid holds =
        let d =
          encode_record-Delivers chrono (to_compressor c aes has_key compressor) r encoder_buffer
            valid positive (omega arith) in
        let pieces = d.full ++ (d.last ∷ []) in
        let all : concat pieces ≡ record_bytes c r =
          concat-append d.full (d.last ∷ [])
          ∙ ap (λ t. concat d.full ++ t) (append-nil d.last)
          ∙ d.same in
        let f =
          to_compressor-Feeds len pieces z plain out enough
            (each_short d.full d.last d.all_full d.last_fits) holds in
        record {
          after = f.after;
          added = f.added;
          holds = subst (λ t. Holds f.after (plain ++ t) (out ++ f.added)) all f.holds;
          runs = λ st h fits.
              let (st', e, t) = f.runs st h fits in
              let okay =
                Ends-ok (to_compressor c aes has_key compressor) encoder_buffer pieces
                  (encode (to_compressor c aes has_key compressor)
                    (λ inner. encode_record c inner r))
                  (encoder_buffer, (z, st)) (z, st) (f.after, st') (d.gives (z, st)) e in
              (st', ap (λ x. (map_err flat x.0, x.1)) okay, t);
        }
