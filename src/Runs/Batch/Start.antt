-- ===== src/Runs/Batch/Start.antt =====
-- The core logger as it starts: on a buffer that was left with two bytes, on one that was left empty, and
-- on a memory of zeros.
use pinenut.Prelude.{ℕ, ◌≡◌, refl, arith, List, [], ◌∷◌, ◌++◌, length, true, false, some}
use pinenut.Common.LittleEndian.{from_le_bytes, to_le_bytes, i64_to_le_bytes}
use pinenut.Chunk.{
  Chunk, header, bind, chunk_bytes, header_bytes, initialize, validate, validate_header,
  payload_len, header_payload_len,
}
use pinenut.Buffer.{
  left, raw, as_slice, side_offset, validate_buffer, initialize_buffer, default_header,
}
use pinenut.TimeDimension.{minute}
use pinenut.Logger.Session.Encryptor.{sealed_by}
use pinenut.Logger.Batch.Sent.{log_batch-from}
use pinenut.Logger.Batch.Arrives.{frame_of, batch}
use pinenut.Logger.Start.Restart.{LeftOver, started}
use pinenut.Logger.Start.Recovered.{Recovered}
use pinenut.Logger.Start.Reset.{Reset, new_core-Reset}
use pinenut.Logger.Start.StaleKey.{StaleKey, new_core-StaleKey}
use pinenut.Codec.Varint.{varint}
use pinenut.Parse.Split.{stream}
use pinenut.Runs.Clock.{clock-IsChrono, morning, noon, up-IsRecord}
use pinenut.Runs.Chunk.{key}
use pinenut.Runs.Encrypt.{plus, plus-IsAes, repeat}
use pinenut.Runs.Compress.{copy-IsEncoder}
use pinenut.Runs.Io.{app, disk_files-IsDisk}
use pinenut.Runs.Batch.{chunk, chunk-Fresh, room, positive, rounds-IsEnough, one_record, up-matches}

abbrev other_key : List ℕ
other_key = 3 ∷ repeat 32 7

abbrev two_bytes : Chunk
unfolding chunk
two_bytes = record chunk { header = record chunk.header { length = 2 ∷ 0 ∷ 0 ∷ 0 ∷ [] } }

abbrev buffer_of : Chunk → List ℕ
unfolding chunk_bytes
buffer_of k =
    (0x7B ∷ 0xCA ∷ 0xED ∷ 0xFE ∷ 0xBC ∷ 0x0A ∷ 0 ∷ 0 ∷ []) ++ (chunk_bytes k ++ chunk_bytes chunk)

empty-LeftOver : LeftOver left chunk chunk (buffer_of chunk)
unfolding buffer_of raw to_le_bytes from_le_bytes as_slice side_offset chunk_bytes header_bytes
    initialize i64_to_le_bytes
empty-LeftOver = record {
  input = record {
    valid = record { long = omega arith; magic = refl; side = refl };
    layout = chunk-Fresh.valid.layout;
    input = refl;
  };
  output = refl;
  size = refl;
  input_valid = chunk-Fresh.valid;
  output_valid = chunk-Fresh.valid;
}

none_written : payload_len chunk ≡ 0
unfolding chunk payload_len header_payload_len from_le_bytes to_le_bytes initialize
none_written = refl

zeros-invalid : validate (bind (as_slice left (initialize_buffer (repeat 128 0)))) ≡ false
unfolding validate validate_header bind header as_slice side_offset initialize_buffer
    validate_buffer default_header raw to_le_bytes from_le_bytes
zeros-invalid = refl

new_core-Reset_example :
    Reset clock-IsChrono plus-IsAes 256 room true copy-IsEncoder 257 positive rounds-IsEnough
      disk_files-IsDisk app minute morning other_key tt 60
      (λ n. [])
      (started clock-IsChrono plus-IsAes 256 room true copy-IsEncoder 257 positive rounds-IsEnough
        disk_files-IsDisk app minute morning noon tt
        (some other_key)
        (repeat 128 0)
        (λ n. []))
new_core-Reset_example =
    new_core-Reset clock-IsChrono plus-IsAes 256 room true copy-IsEncoder 257 positive
      rounds-IsEnough disk_files-IsDisk app minute morning noon tt (some other_key) (repeat 128 0)
      (λ n. []) (rw zeros-invalid refl) (omega arith) (omega arith) refl refl

abbrev frame : List ℕ
frame =
    frame_of clock-IsChrono plus-IsAes 256 room true copy-IsEncoder 257 256 positive rounds-IsEnough
      noon one_record tt (up-IsRecord, tt) refl

length-frame : length frame ≡ 25
unfolding stream varint pinenut.Codec.u64_or_zero
length-frame =
    pinenut.Prelude.ap length
      (log_batch-from clock-IsChrono plus-IsAes 256 room true copy-IsEncoder 257 256 positive
        rounds-IsEnough noon one_record tt [] [] (up-IsRecord, tt) refl).framed

length-sealed : length (sealed_by plus-IsAes 256 true frame) ≡ length (plus.pad frame)
length-sealed = plus-IsAes.encrypt_length (plus.pad frame) (plus-IsAes.pad-IsWhole frame)

new_core-StaleKey_example :
    StaleKey clock-IsChrono plus-IsAes 256 room true copy-IsEncoder 257 positive rounds-IsEnough
      disk_files-IsDisk app minute frame key other_key
      (batch clock-IsChrono plus-IsAes 256 room true copy-IsEncoder 257 256 positive rounds-IsEnough
        noon one_record
        (started clock-IsChrono plus-IsAes 256 room true copy-IsEncoder 257 positive rounds-IsEnough
          disk_files-IsDisk app minute morning noon tt
          (some other_key)
          (buffer_of chunk)
          (λ n. [])).0)
unfolding chunk initialize
new_core-StaleKey_example =
    new_core-StaleKey clock-IsChrono plus-IsAes 256 room true copy-IsEncoder 257 positive
      rounds-IsEnough disk_files-IsDisk app minute left morning noon noon tt (some other_key)
      (buffer_of chunk) (λ n. []) chunk chunk one_record empty-LeftOver none_written none_written
      refl refl (up-IsRecord, tt) (up-matches, tt)
      (omega (arith, length-sealed, plus-IsAes.pad_longer frame))
      (omega (arith, length-sealed, plus-IsAes.pad_short frame, length-frame))
