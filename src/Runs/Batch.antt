-- ===== src/Runs/Batch.antt =====
-- A record through the logger and both threads to the log file.
pub mod Start
pub mod FirstRun
pub mod Series
pub mod Lost
use pinenut.Prelude.{ℕ, ◌≤◌, ◌<◌, ◌≡◌, refl, ap, arith, List, [], ◌∷◌, ◌++◌, length, true, some}
use pinenut.Codec.Varint.{varint}
use pinenut.Common.LittleEndian.{from_le_bytes, to_le_bytes, i64_to_le_bytes, i64_from_le_bytes}
use pinenut.Chunk.{Chunk, initialize, chunk_bytes, header_bytes, start_datetime}
use pinenut.Chunk.Write.Initialize.{Fresh, initialize-Fresh}
use pinenut.Buffer.{left, raw, as_slice, side_offset}
use pinenut.Parse.Split.{stream}
use pinenut.TimeDimension.{minute, check_match}
use pinenut.Logger.{Core}
use pinenut.Logger.Session.Encryptor.{Handed-nil, sealed_by}
use pinenut.Logger.Session.Compressor.{IsEnough}
use pinenut.Logger.Batch.Sent.{log_batch-from}
use pinenut.Logger.Batch.Arrives.{IsIdle, frame_of, batch, Arrives, log_batch-Arrives}
use pinenut.Logger.Batch.RoundTrip.{Parsed, disk_after, log_batch-Parsed}
use pinenut.Logger.Io.{io_write_chunk}
use pinenut.Runs.Clock.{clock, clock-IsChrono, morning, noon, up, up-IsRecord}
use pinenut.Runs.Chunk.{key, slow}
use pinenut.Runs.Encrypt.{plus, plus-IsAes, repeat}
use pinenut.Runs.Compress.{copy-IsEncoder, copy-IsDecoder}
use pinenut.Runs.Io.{app, disk_files, disk_files-IsDisk, idle}
use pinenut.Runs.Parse.{keep, agree}

-- Sixty bytes behind the header.
abbrev pub chunk : Chunk
unfolding initialize
chunk =
    initialize clock morning key (record { header = pinenut.Runs.Chunk.top; payload = repeat 60 0 })

pub chunk-Fresh : Fresh clock-IsChrono morning key 60 chunk
unfolding initialize
chunk-Fresh =
    initialize-Fresh clock-IsChrono morning key
      (record { header = pinenut.Runs.Chunk.top; payload = repeat 60 0 }) refl (omega arith)

abbrev memory : List ℕ
unfolding chunk_bytes
memory =
    (0x7B ∷ 0xCA ∷ 0xED ∷ 0xFE ∷ 0xBC ∷ 0x0A ∷ 0 ∷ 0 ∷ []) ++ (chunk_bytes chunk ++ repeat 120 0)

abbrev pub core : Core (Unit {0})
unfolding chunk_bytes
core = record {
  encoder = record { capacity = 256; bytes = [] };
  compressor = tt;
  encryptor = record { capacity = 256; bytes = [] };
  memory = memory;
  events = [];
  errors = [];
  pub_key = key;
  rotation = minute;
}

pub room : 32 ≤ 256
room = omega arith

pub positive : 0 < 256
positive = omega arith

pub rounds-IsEnough : IsEnough clock-IsChrono plus-IsAes 256 room true copy-IsEncoder 257 256
rounds-IsEnough z bytes d h = omega arith

pub core-IsIdle :
    IsIdle clock-IsChrono plus-IsAes 256 room true copy-IsEncoder 257 256 positive rounds-IsEnough
      tt chunk core
unfolding raw to_le_bytes from_le_bytes as_slice side_offset chunk_bytes header_bytes initialize
    i64_to_le_bytes
core-IsIdle = record {
  alpha = left;
  start = morning;
  ready = refl;
  on = record {
    encoder_empty = refl;
    context = refl;
    handed = Handed-nil plus-IsAes 256 true chunk chunk-Fresh.valid chunk-Fresh.empty;
    side = record {
      valid = record { long = omega arith; magic = refl; side = refl };
      layout = chunk-Fresh.valid.layout;
      input = refl;
    };
  };
  fresh = chunk-Fresh;
  pub_key_len = refl;
}

abbrev pub one_record : List (pinenut.Record.Record clock)
one_record = up ∷ []

abbrev frame : List ℕ
frame =
    frame_of clock-IsChrono plus-IsAes 256 room true copy-IsEncoder 257 256 positive rounds-IsEnough
      noon one_record tt (up-IsRecord, tt) core-IsIdle.ready

-- The frame is the bytes of the record, and its padding fills it up to 32.
length-frame : length frame ≡ 25
unfolding stream varint pinenut.Codec.u64_or_zero
length-frame =
    ap length
      (log_batch-from clock-IsChrono plus-IsAes 256 room true copy-IsEncoder 257 256 positive
        rounds-IsEnough noon one_record tt [] [] (up-IsRecord, tt) core-IsIdle.ready).framed

length-sealed : length (sealed_by plus-IsAes 256 true frame) ≡ length (plus.pad frame)
length-sealed = plus-IsAes.encrypt_length (plus.pad frame) (plus-IsAes.pad-IsWhole frame)

pub up-matches : check_match clock minute (start_datetime clock chunk.header) morning ≡ true
unfolding check_match start_datetime initialize i64_to_le_bytes i64_from_le_bytes from_le_bytes
    to_le_bytes
up-matches = refl

log_batch-Arrives_example :
    Arrives clock-IsChrono plus-IsAes 256 room true copy-IsEncoder 257 256 positive rounds-IsEnough
      disk_files-IsDisk app minute noon frame one_record idle chunk core
      (batch clock-IsChrono plus-IsAes 256 room true copy-IsEncoder 257 256 positive rounds-IsEnough
        noon one_record core)
      (io_write_chunk clock disk_files app minute (
        idle,
        (batch clock-IsChrono plus-IsAes 256 room true copy-IsEncoder 257 256 positive
            rounds-IsEnough noon one_record core).memory,
      ))
unfolding core chunk
log_batch-Arrives_example =
    log_batch-Arrives clock-IsChrono plus-IsAes 256 room true copy-IsEncoder 257 256 positive
      rounds-IsEnough disk_files-IsDisk app minute noon one_record tt chunk core idle
      (up-IsRecord, tt) core-IsIdle (up-matches, tt)
      (omega (arith, length-sealed, plus-IsAes.pad_longer frame))
      (omega (arith, length-sealed, plus-IsAes.pad_short frame, length-frame)) tt
