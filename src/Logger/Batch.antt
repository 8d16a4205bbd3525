-- ===== src/Logger/Batch.antt =====
-- Records that are logged into one chunk, by the core logger: `log` for each, and no rotation is due.
pub mod InputSide
pub mod Flush
pub mod Sent
pub mod Arrives
pub mod Lost
pub mod RoundTrip
pub mod Series
use pinenut.Prelude.{
  ℕ, ◌+◌, ◌*◌, ◌≤◌, ◌<◌, ◌≡◌, refl, sym, ap, subst, ◌∙◌, arith, List, [], ◌∷◌, ◌++◌, append_assoc,
  append-nil, length, length-append, All, Bool, true, false, ok, Fault, none, leb,
}
use pinenut.Chrono.{Chrono, IsChrono, unwrap_or_default}
use pinenut.Record.{Record}
use pinenut.Common.BytesBuf.{BytesBuf}
use pinenut.Common.LittleEndian.{i64_to_le_bytes, i64_from_le_bytes}
use pinenut.Codec.Values.{IsRecord, record_bytes}
use pinenut.Encrypt.{Aes, IsAes}
use pinenut.Compress.{Zstd}
use pinenut.Compress.Frame.{Holding, IsEncoder}
use pinenut.Chunk.{
  Chunk, Header, bind, chunk_bytes, capacity, payload_len, is_almost_full, start_datetime,
}
use pinenut.Chunk.Write.{IsChunk, contents, length-contents}
use pinenut.Buffer.{Side, left, right, as_slice, side_len}
use pinenut.Parse.Split.{stream}
use pinenut.TimeDimension.{check_match}
use pinenut.Logger.{
  LoggerError, Compress, Core, Operation, tracked, record_in, process, run, bind_input, unbind,
  rotate_chunk, write_operation, rotate_if, input_if, on, log,
}
use pinenut.Logger.Session.Stored.{fixed}
use pinenut.Logger.Session.Encryptor.{Handed, Blocks, Same, Same-then, sealed_by}
use pinenut.Logger.Session.Compressor.{compressor, IsEnough, encoder_buffer, StageFeeds}
use pinenut.Logger.Session.{process-Logs}
use pinenut.Logger.Batch.InputSide.{Input, Input-bind, write_slice-PutBack}

module _ {c : Chrono} (chrono : IsChrono c) {aes : Aes} (cipher : IsAes aes) (cap : ℕ)
    (room : 32 ≤ cap) (has_key : Bool) {zstd : Zstd} {holding : Holding zstd}
    (encoder : IsEncoder holding) (fuel len : ℕ) (positive : 0 < len)
    (enough : IsEnough chrono cipher cap room has_key encoder fuel len) where
  open zstd use {CCtx}
  open holding use {IsFrame, Holds}

  abbrev empty : BytesBuf
  empty = encoder_buffer chrono cipher cap room has_key encoder fuel len positive enough

  abbrev pub compress_op : Compress CCtx (BytesBuf × Chunk) (Fault LoggerError)
  compress_op = compressor chrono cipher cap room has_key encoder fuel

  abbrev pub logging : c.DateTime → Record c → Core CCtx → Core CCtx
  logging = log c aes has_key compress_op

  -- What a log leaves as it is.
  pub record Steady (before after : Core CCtx) : Type 0 where
    pub errors : after.errors ≡ before.errors
    pub events : after.events ≡ before.events
    pub pub_key : after.pub_key ≡ before.pub_key
    pub rotation : after.rotation ≡ before.rotation
    pub other : as_slice right after.memory ≡ as_slice right before.memory
    pub same_len : side_len after.memory ≡ side_len before.memory

  -- The processor is in the middle of the chunk `k` on the input side; `out` has reached the encryptor.
  pub record Logging (alpha : Side) (z : CCtx) (out : List ℕ) (k : Chunk) (core : Core CCtx)
      : Type 0 where
    pub encoder_empty : core.encoder ≡ empty
    pub context : core.compressor ≡ z
    pub handed : Handed cipher cap has_key out (core.encryptor, k)
    pub side : Input alpha k core.memory

  length-Handed :
      (key : Bool) (out : List ℕ) (st : BytesBuf × Chunk)
      → Handed cipher cap key out st
      → payload_len st.1 ≤ length out
  length-Handed true out (e, k) h =
      let b = h.seals in
      omega (
        arith,
        length-contents k h.valid.within,
        ap length b.encrypted,
        cipher.encrypt_length b.whole b.blocks,
        ap length b.same,
        length-append b.whole b.left,
      )
  length-Handed false out (e, k) h =
      omega (arith, length-contents k h.valid.within, ap length h.seals.1)

  not_full : (k : Chunk) → 5 * payload_len k < 4 * capacity k → is_almost_full k ≡ false
  unfolding is_almost_full
  not_full k h = ground arith

  -- Without a rotation the record goes to the chunk that is bound.
  log-run :
      (alpha : Side) (now : c.DateTime) (r : Record c) (core : Core CCtx) (k : Chunk)
      → Input alpha k core.memory
      → is_almost_full k ≡ false
      → check_match c core.rotation (start_datetime c k.header) r.meta.datetime ≡ true
      → logging now r core
        ≡ unbind c aes has_key compress_op (run c aes has_key compress_op (record_in r) (core, k))
  unfolding log on bind_input write_operation rotate_chunk rotate_if input_if
  log-run alpha now r core k side not_full matches =
      rw (Input-bind alpha k core.memory side, not_full, matches) refl

  pub record LoggedOne (r : Record c) (alpha : Side) (z : CCtx) (out : List ℕ) (k : Chunk)
      (core core' : Core CCtx) : Type 0 where
    pub k' : Chunk
    pub logging_on : Logging alpha z out k' core'
    pub same : Same cipher cap k k'
    pub ended : k'.header.end_ ≡ i64_to_le_bytes (c.timestamp r.meta.datetime)
    pub steady : Steady core core'

  pub start-Same :
      (k k' : Chunk) → Same cipher cap k k' → start_datetime c k'.header ≡ start_datetime c k.header
  unfolding start_datetime
  start-Same k k' s =
      ap (λ f. unwrap_or_default c.default (c.from_timestamp (i64_from_le_bytes f.3) 0))
        s.same_fixed

  abbrev pub Logs : CCtx → List ℕ → List ℕ → Record c → Type 0
  Logs z plain out r =
      StageFeeds chrono cipher cap room has_key encoder fuel len positive enough
        (λ _. i64_to_le_bytes (c.timestamp r.meta.datetime)) z plain out (record_bytes c r)
        (process c aes has_key compress_op (record_in r))

  -- An operation that succeeds, on the chunk that is bound.
  pub run_lem :
      (op : Operation c) (core : Core CCtx) (k : Chunk) (b : BytesBuf) (z : CCtx)
      (st : BytesBuf × Chunk)
      → process c aes has_key compress_op op (core.encoder, (core.compressor, (core.encryptor, k)))
        ≡ (ok tt, (b, (z, st)))
      → run c aes has_key compress_op op (core, k)
        ≡ (record core { encoder = b; compressor = z; encryptor = st.0 }, st.1)
  unfolding run
  run_lem op core k b z st e =
      ap
        (λ p. (
          record core {
            encoder = p.1.0;
            compressor = p.1.1.0;
            encryptor = p.1.1.1.0;
            errors = tracked c aes has_key compress_op p.0 core.errors;
          },
          p.1.1.1.1,
        ))
        e

  -- The processor of the core has the state that is known of it.
  pub process_on :
      (op : Operation c) (core : Core CCtx) (k : Chunk) (z : CCtx)
      → core.encoder ≡ empty
      → core.compressor ≡ z
      → process c aes has_key compress_op op (core.encoder, (core.compressor, (core.encryptor, k)))
        ≡ process c aes has_key compress_op op (empty, (z, (core.encryptor, k)))
  process_on op core k z p q =
      λ i. process c aes has_key compress_op op (p i, (q i, (core.encryptor, k)))

  pub log-LoggedOne :
      (alpha : Side) (now : c.DateTime) (r : Record c) (core : Core CCtx) (z : CCtx)
      (plain out : List ℕ) (k : Chunk) (f : Logs z plain out r)
      → Logging alpha z out k core
      → check_match c core.rotation (start_datetime c k.header) r.meta.datetime ≡ true
      → 5 * length (out ++ f.added) < 4 * capacity k
      → LoggedOne r alpha f.after (out ++ f.added) k core (logging now r core)
  unfolding unbind
  log-LoggedOne alpha now r core z plain out k f l matches small =
      let size = length-append out f.added in
      let full =
        not_full k (omega (arith, length-Handed has_key out (core.encryptor, k) l.handed)) in
      let ((e', k'), returns, t) = f.runs (core.encryptor, k) l.handed (omega arith) in
      let back =
        write_slice-PutBack alpha k k' core.memory l.side t.holds.valid.layout
          t.same.same_capacity in
      let ran =
        run_lem (record_in r) core k empty f.after (e', k')
          (process_on (record_in r) core k z l.encoder_empty l.context ∙ returns) in
      subst (LoggedOne r alpha f.after (out ++ f.added) k core)
        (sym (
          log-run alpha now r core k l.side full matches
          ∙ ap (unbind c aes has_key compress_op) ran))
        (record {
          k' = k';
          logging_on = record {
            encoder_empty = refl;
            context = refl;
            handed = t.holds;
            side = back.holds;
          };
          same = t.same;
          ended = t.ended;
          steady = record {
            errors = refl;
            events = refl;
            pub_key = refl;
            rotation = refl;
            other = back.other;
            same_len = back.same_len;
          };
        })
