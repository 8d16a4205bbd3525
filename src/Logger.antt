-- ===== src/Logger.antt =====
-- pinenut/src/logger.rs: the processor, the core logger and the handler of its file writes. The
-- compressor is a parameter, and zstd_compressor the one of LoggerInner. The two threads share the
-- memory of the double buffer and a queue of events; the tracker's errors are collected.
pub mod Rotation
pub mod Io
pub mod Handover
pub mod Start
pub mod FirstRun
pub mod Session
pub mod Batch
use pinenut.Prelude.{
  ℕ, ◌<◌, List, [], ◌∷◌, ◌++◌, Bool, true, false, ◌||◌, not, ltb, if◌then◌else◌, Option, none, some,
  Result, ok, err, Exec, Sink, Fault, stuck, raised, map_err, ◌>>=◌, ◌>>◌, pure,
}
use pinenut.Errors.{IoError, CipherError, CompressionError}
use pinenut.Chrono.{Chrono}
use pinenut.Record.{Record}
use pinenut.Common.BytesBuf
use pinenut.Common.BytesBuf.{BytesBuf}
use pinenut.Codec.{encode_record}
use pinenut.Codec.Accumulate.{encode}
use pinenut.Encrypt.{Aes, EncryptOp, input, flush, encrypt_optional}
use pinenut.Compress.{CompressOp, bytes_in, flush_out, end_out, Zstd, compress_optional}
use pinenut.Chunk.{
  validate, Chunk, Overflow, bind, chunk_bytes, payload_len, is_almost_full, initialize, write,
  set_writeback, set_end_datetime, start_datetime,
}
use pinenut.Buffer.{initialize_buffer, right, left, switch, as_slice, write_slice}
use pinenut.TimeDimension.{TimeDimension, file_dimension, check_match}

-- `logger::Error`. The panic of `Chunk::write` ends the program; it is a value here.
pub data LoggerError : Type 0 where
  compress_error : CompressionError → LoggerError
  encrypt_error : CipherError → LoggerError
  chunk_error : Overflow → LoggerError
  panics : LoggerError

-- `Operation`
pub data Operation (c : Chrono) : Type 0 where
  record_in : Record c → Operation c
  rotate : Operation c
  writeback : Operation c

pub data IoEvent : Type 0 where
  write_chunk : IoEvent
  trim : ℕ → IoEvent
  shutdown : IoEvent

abbrev pub chunk_result :
    Chunk → Option (Result Overflow (Unit {0}) × Chunk) → Result LoggerError (Unit {0}) × Chunk
chunk_result c none = (err panics, c)
chunk_result c (some (r, c')) = (map_err chunk_error r, c')

-- `to_chunk` of `Processor::process`
unfoldable pub to_chunk : Sink Chunk LoggerError
to_chunk bytes c = chunk_result c (write bytes c)

-- One error for the loops around each other.
abbrev pub flat : {E : Type 0} → Fault (Fault E) → Fault E
flat stuck = stuck
flat (raised e) = e

-- `Compressor::compress` on a target of state `T` and errors `E`.
abbrev pub Compress : Type 0 → Type 0 → Type 0 → Type 0
Compress Z T E = Sink T E → (CompressionError → E) → CompressOp → Exec (Z × T) E (Unit {0})

-- The compressor of `LoggerInner`: that of zstd, or none. The loop around the library has as many rounds
-- as are given.
unfoldable pub zstd_compressor :
    {T : Type 0} → (zstd : Zstd) → ℕ → Bool → Compress zstd.CCtx T (Fault LoggerError)
zstd_compressor zstd rounds has_compressor sink of_error op st =
    let (r, st') = compress_optional sink of_error zstd rounds has_compressor op st in
    (map_err flat r, st')

-- `Core`, with the queue of its runloop and the errors tracked; `compressor` is the state of the
-- compressor, `encoder` and `encryptor` are the buffers of the other two. `pub_key` and `rotation` are
-- those of its `Context`.
pub record Core (Z : Type 0) : Type 0 where
  pub encoder : BytesBuf
  pub compressor : Z
  pub encryptor : BytesBuf
  pub memory : List ℕ
  pub events : List IoEvent
  pub errors : List (Fault LoggerError)
  pub pub_key : List ℕ
  pub rotation : TimeDimension

-- `Context::rotate_file` for a log file of a date.
unfoldable pub rotate_file : (c : Chrono) → TimeDimension → c.DateTime → Chunk → Bool
rotate_file c rotation logfile chunk =
    not (check_match c (file_dimension rotation) (start_datetime c chunk.header) logfile)

module _ (c : Chrono) (aes : Aes) (has_key : Bool) {Z : Type 0}
    (compress_op : Compress Z (BytesBuf × Chunk) (Fault LoggerError)) where
  unfoldable pub to_encryptor : Sink (BytesBuf × Chunk) (Fault LoggerError)
  to_encryptor bytes = encrypt_optional aes to_chunk encrypt_error has_key (input bytes)

  unfoldable pub run_compressor :
      CompressOp → Exec (Z × (BytesBuf × Chunk)) (Fault LoggerError) (Unit {0})
  run_compressor = compress_op to_encryptor (λ e. raised (compress_error e))

  unfoldable pub to_compressor : Sink (Z × (BytesBuf × Chunk)) (Fault LoggerError)
  to_compressor bytes = run_compressor (bytes_in bytes)

  -- The encoder's buffer, the compressor, the encryptor's buffer and the chunk.
  abbrev pub Stage : Type 0
  Stage = BytesBuf × (Z × (BytesBuf × Chunk))

  unfoldable pub encode_step : Record c → Exec Stage (Fault LoggerError) (Unit {0})
  encode_step r st =
      let (res, st') = encode to_compressor (λ inner. encode_record c inner r) st in
      (map_err flat res, st')

  unfoldable pub compress_step : CompressOp → Exec Stage (Fault LoggerError) (Unit {0})
  compress_step op (b, rest) = let (res, rest') = run_compressor op rest in (res, (b, rest'))

  unfoldable pub flush_step : Exec Stage (Fault LoggerError) (Unit {0})
  flush_step (b, (z, rest)) =
      let (res, rest') = encrypt_optional aes to_chunk encrypt_error has_key flush rest in
      (res, (b, (z, rest')))

  unfoldable pub end_datetime_step : c.DateTime → Exec Stage (Fault LoggerError) (Unit {0})
  end_datetime_step datetime (b, (z, (e, chunk))) =
      (ok tt, (b, (z, (e, set_end_datetime c datetime chunk))))

  -- `Processor::process`
  unfoldable pub process : Operation c → Exec Stage (Fault LoggerError) (Unit {0})
  process (record_in r) = do
    encode_step r
    compress_step flush_out
    end_datetime_step r.meta.datetime
  process rotate = do compress_step end_out; flush_step
  process writeback = pure tt

  abbrev pub tracked :
      Result (Fault LoggerError) (Unit {0}) → List (Fault LoggerError) → List (Fault LoggerError)
  tracked (ok _) errors = errors
  tracked (err e) errors = errors ++ (e ∷ [])

  -- `self.processor.process(..).unwrap_or_else(track!(..))` on the chunk that is bound.
  unfoldable pub run : Operation c → Core Z × Chunk → Core Z × Chunk
  run op (core, chunk) =
      let (res, (b, (z, (e, chunk')))) =
        process op (core.encoder, (core.compressor, (core.encryptor, chunk))) in
      (
        record core {
          encoder = b;
          compressor = z;
          encryptor = e;
          errors = tracked res core.errors;
        },
        chunk',
      )

  -- `Chunk::bind(self.buffer.handle())` of the input side, and what was done to the chunk put back.
  unfoldable pub bind_input : Core Z → Chunk
  bind_input core = bind (as_slice left core.memory)

  unfoldable pub unbind : Core Z × Chunk → Core Z
  unbind (core, chunk) = record core { memory = write_slice left 0 (chunk_bytes chunk) core.memory }

  -- `Context::rotate_chunk`
  unfoldable pub rotate_chunk : Core Z → Chunk → Record c → Bool
  rotate_chunk core chunk r =
      not (check_match c core.rotation (start_datetime c chunk.header) r.meta.datetime)

  -- The operation to process before the one given, and the chunk.
  unfoldable pub write_operation : Operation c → Core Z → Chunk → Option (Operation c) × Chunk
  write_operation rotate core chunk = (some rotate, chunk)
  write_operation writeback core chunk =
      if ltb 0 (payload_len chunk) then (some writeback, set_writeback chunk) else (none, chunk)
  write_operation (record_in r) core chunk =
      (if is_almost_full chunk || rotate_chunk core chunk r then some rotate else none, chunk)

  -- The double buffer is switched, the chunk bound again, and the event sent.
  unfoldable pub switched : Core Z → Core Z × Chunk
  switched core =
      let core' = record core {
        memory = switch core.memory;
        events = core.events ++ (write_chunk ∷ []);
      } in
      (core', bind_input core')

  -- The chunk with bytes in it goes to the other thread.
  unfoldable pub hand_over : Core Z × Chunk → Core Z × Chunk
  hand_over (core, chunk) =
      if ltb 0 (payload_len chunk) then switched (unbind (core, chunk)) else (core, chunk)

  -- `now` is `chrono::Utc::now()`.
  abbrev pub datetime_of : c.DateTime → Operation c → c.DateTime
  datetime_of now (record_in r) = r.meta.datetime
  datetime_of now rotate = now
  datetime_of now writeback = now

  unfoldable pub rotate_if :
      c.DateTime → Operation c → Option (Operation c) → Core Z × Chunk → Core Z × Chunk
  rotate_if now operation none st = st
  rotate_if now operation (some op) st =
      let (core, chunk) = hand_over (run op st) in
      (core, initialize c (datetime_of now operation) core.pub_key chunk)

  unfoldable pub input_if : Operation c → Core Z × Chunk → Core Z × Chunk
  input_if (record_in r) st = run (record_in r) st
  input_if rotate st = st
  input_if writeback st = st

  -- `Core::on`
  unfoldable pub on : c.DateTime → Operation c → Core Z → Core Z
  on now operation core =
      let (op, chunk) = write_operation operation core (bind_input core) in
      unbind (input_if operation (rotate_if now operation op (core, chunk)))

  -- `Core::initialize_buffer`: both chunks are initialized if either is invalid.
  unfoldable pub initialize_sides : c.DateTime → List ℕ → List ℕ → List ℕ
  initialize_sides now pub_key memory =
      let memory' = initialize_buffer memory in
      let input_chunk = bind (as_slice left memory') in
      let output_chunk = bind (as_slice right memory') in
      if not (validate input_chunk) || not (validate output_chunk)
      then write_slice right 0 (chunk_bytes (initialize c now pub_key output_chunk))
          (write_slice left 0 (chunk_bytes (initialize c now pub_key input_chunk)) memory')
      else memory'

  -- `Core::trim`
  unfoldable pub trim_files : ℕ → Core Z → Core Z
  trim_files lifetime core = record core { events = core.events ++ (trim lifetime ∷ []) }

  -- `Logger::log` and `Logger::flush`
  unfoldable pub log : c.DateTime → Record c → Core Z → Core Z
  log now r core = on now (record_in r) core

  unfoldable pub flush_log : c.DateTime → Core Z → Core Z
  flush_log now core = on now rotate core
