-- ===== src/Logger/Session.antt =====
-- A chunk's worth of records through the processor: the encoder, the compressor and the encryptor make
-- one sealed frame of them in the chunk.
pub mod Stored
pub mod Encryptor
pub mod Compressor
use pinenut.Prelude.{
  ℕ, ◌+◌, ◌≤◌, ◌<◌, ◌≡◌, refl, sym, ap, subst, ◌∙◌, arith, List, [], ◌∷◌, ◌++◌, append_assoc,
  append-nil, length, length-append, concat, map, All, Bool, true, false, ok, Exec, Fault, raised,
  ◌>>◌,
}
use pinenut.Chrono.{Chrono, IsChrono}
use pinenut.Record.{Record}
use pinenut.Common.BytesBuf.{BytesBuf}
use pinenut.Common.LittleEndian.{i64_to_le_bytes}
use pinenut.Codec.Values.{IsRecord, record_bytes}
use pinenut.Encrypt.{Aes, IsAes}
use pinenut.Compress.{flush_out, end_out, flush_all, end_frame, Zstd}
use pinenut.Compress.Frame.{Holding, IsEncoder, compress-Compresses}
use pinenut.Chunk.Write.{contents}
use pinenut.Chunk.{Chunk, capacity, set_end_datetime}
use pinenut.Parse.Split.{stream}
use pinenut.Logger.{
  LoggerError, Operation, record_in, rotate, process, compress_step, flush_step, end_datetime_step,
  compress_error, to_encryptor,
}
use pinenut.Logger.Session.Stored.{end_after, set_end_datetime-Dates}
use pinenut.Logger.Session.Encryptor.{
  Handed, Sealing, Took, Same-then, Sealed, sealed_by, flush-Sealed,
}
use pinenut.Logger.Session.Compressor.{
  compressor, IsEnough, encoder_buffer, run_compressor-Feeds, run-ok, StageFeeds, encode_step-Feeds,
}

module _ {c : Chrono} (chrono : IsChrono c) {aes : Aes} (cipher : IsAes aes) (cap : ℕ)
    (room : 32 ≤ cap) (has_key : Bool) {zstd : Zstd} {holding : Holding zstd}
    (encoder : IsEncoder holding) (fuel len : ℕ) (positive : 0 < len)
    (enough : IsEnough chrono cipher cap room has_key encoder fuel len) where
  open zstd use {CCtx}
  open holding use {IsFrame, Holds}

  abbrev pub Stage : Type 0
  Stage = BytesBuf × (CCtx × (BytesBuf × Chunk))

  abbrev pub to_process : Operation c → Exec Stage (Fault LoggerError) (Unit {0})
  to_process = process c aes has_key (compressor chrono cipher cap room has_key encoder fuel)

  -- The records of a chunk, and the rotation that ends it.
  abbrev pub process_each : List (Record c) → Exec Stage (Fault LoggerError) (Unit {0})
  process_each [] = to_process rotate
  process_each (r ∷ rs) = to_process (record_in r) >> process_each rs

  abbrev pub empty : BytesBuf
  empty = encoder_buffer chrono cipher cap room has_key encoder fuel len positive enough

  abbrev pub Logs :
      (List ℕ → List ℕ)
      → CCtx
      → List ℕ
      → List ℕ
      → List ℕ
      → Exec Stage (Fault LoggerError) (Unit {0})
      → Type 0
  Logs = StageFeeds chrono cipher cap room has_key encoder fuel len positive enough

  pub process-Logs :
      (r : Record c) (z : CCtx) (plain out : List ℕ)
      → IsRecord c r
      → Holds z plain out
      → Logs
          (λ _. i64_to_le_bytes (c.timestamp r.meta.datetime))
          z
          plain
          out
          (record_bytes c r)
          (to_process (record_in r))
  unfolding process compress_step end_datetime_step
  process-Logs r z plain out valid holds =
      let one =
        encode_step-Feeds chrono cipher cap room has_key encoder fuel len positive enough r z plain
          out valid holds in
      let two =
        run_compressor-Feeds chrono cipher cap room has_key encoder fuel flush_out one.after
          (plain ++ record_bytes c r) (out ++ one.added) (λ e. cc)
          (enough one.after [] flush_all (omega arith)) one.holds in
      let assoc = append_assoc out one.added two.added in
      record {
        after = two.after;
        added = one.added ++ two.added;
        holds =
            subst (λ o. Holds two.after (plain ++ record_bytes c r) o) assoc
              (subst (λ p. Holds two.after p ((out ++ one.added) ++ two.added))
                (append-nil (plain ++ record_bytes c r)) two.holds);
        runs = λ st h fits.
            let (mid, first, t) =
              one.runs st h
                (omega (arith, ap length assoc, length-append (out ++ one.added) two.added)) in
            let (end, second, u) =
              two.runs mid t.holds (omega (arith, ap length assoc, t.same.same_capacity)) in
            let dated = set_end_datetime c r.meta.datetime end.1 in
            let s = set_end_datetime-Dates c r.meta.datetime end.1 u.holds.valid in
            (
              (end.0, dated),
              rw (first, second) refl,
              record {
                holds = record {
                  valid = s.valid;
                  seals =
                      subst (λ o. Sealing cipher cap has_key o end.0 (contents dated)) assoc
                        (subst (Sealing cipher cap has_key ((out ++ one.added) ++ two.added) end.0)
                          (sym s.written) u.holds.seals);
                };
                same = Same-then cipher cap st.1 mid.1 dated t.same (
                    Same-then cipher cap mid.1 end.1 dated u.same
                      (record { same_capacity = s.same_capacity; same_fixed = s.same_fixed }));
                ended = s.ended;
              },
            );
      }

  -- The rest of a chunk ends with a frame of everything behind `plain`, sealed, if there is room for
  -- it; the stage is then ready for the next chunk.
  pub record Closes (z : CCtx) (plain out : List ℕ) (rs : List (Record c)) : Type 0 where
    pub after : CCtx
    pub frame : List ℕ
    pub framed : IsFrame frame (plain ++ stream c rs)
    pub ready : Holds after [] []
    pub longer : length out ≤ length frame
    pub runs :
        (st : BytesBuf × Chunk)
        → Handed cipher cap has_key out st
        → length (sealed_by cipher cap has_key frame) ≤ capacity st.1
        → (st' : BytesBuf × Chunk) × (process_each rs (empty, (z, st))
            ≡ (ok tt, (empty, (after, st'))))
          × Sealed cipher cap c
              (compressor chrono cipher cap room has_key encoder fuel)
              room
              (end_after c rs)
              has_key
              frame
              st
              st'

  pub length-sealed_by :
      (key : Bool) (frame : List ℕ) → length frame ≤ length (sealed_by cipher cap key frame)
  length-sealed_by true frame = omega (
    arith,
    cipher.encrypt_length (aes.pad frame) (cipher.pad-IsWhole frame),
    cipher.pad_longer frame,
  )
  length-sealed_by false frame = omega arith

  pub process-Closes : (z : CCtx) (plain out : List ℕ) → Holds z plain out → Closes z plain out []
  unfolding process compress_step flush_step stream
  process-Closes z plain out holds =
      let op = compressor chrono cipher cap room has_key encoder fuel in
      let r =
        compress-Compresses encoder (to_encryptor c aes has_key op) (λ e. raised (compress_error e))
          fuel end_out z plain out (enough z [] end_frame (omega arith)) holds in
      let frame = out ++ concat r.pieces in
      record {
        after = r.after;
        frame = frame;
        framed = r.holds.0;
        ready = r.holds.1;
        longer = omega (arith, length-append out (concat r.pieces));
        runs = λ st h fits.
            let (mid, one, t) =
              run-ok chrono cipher cap room has_key encoder fuel end_out z r.after r.pieces out
                r.ends st h (omega (arith, length-sealed_by has_key frame)) in
            let (end, two, f) =
              flush-Sealed cipher cap c op room has_key frame mid t.holds
                (omega (arith, t.same.same_capacity)) in
            (
              end,
              rw (one, two) refl,
              record {
                valid = f.valid;
                payload = f.payload;
                buffer = f.buffer;
                same = Same-then cipher cap st.1 mid.1 end.1 t.same f.same;
                ended = f.ended ∙ t.ended;
              },
            );
      }

  pub process_each-Closes :
      (rs : List (Record c)) (z : CCtx) (plain out : List ℕ)
      → All (IsRecord c) rs
      → Holds z plain out
      → Closes z plain out rs
  unfolding stream
  process_each-Closes [] z plain out valid holds = process-Closes z plain out holds
  process_each-Closes (r ∷ rs) z plain out valid holds =
      let one = process-Logs r z plain out valid.0 holds in
      let two =
        process_each-Closes rs one.after (plain ++ record_bytes c r) (out ++ one.added) valid.1
          one.holds in
      record {
        after = two.after;
        frame = two.frame;
        framed =
            subst (IsFrame two.frame) (append_assoc plain (record_bytes c r) (stream c rs))
              two.framed;
        ready = two.ready;
        longer = omega (arith, two.longer, length-append out one.added);
        runs = λ st h fits.
            let (mid, first, t) =
              one.runs st h (omega (arith, two.longer, length-sealed_by has_key two.frame)) in
            let (end, second, f) = two.runs mid t.holds (omega (arith, t.same.same_capacity)) in
            (
              end,
              rw first second,
              record {
                valid = f.valid;
                payload = f.payload;
                buffer = f.buffer;
                same = Same-then cipher cap st.1 mid.1 end.1 t.same f.same;
                ended = f.ended ∙ ap (end_after c rs) t.ended;
              },
            );
      }
