-- ===== src/Runs/Batch/Series.antt =====
-- Two batches through the logger, both threads, the log file and the parser.
use pinenut.Prelude.{ℕ, ◌≡◌, refl, ap, arith, List, [], ◌∷◌, length, true, some}
use pinenut.Codec.Varint.{varint}
use pinenut.Chunk.Reader.{File}
use pinenut.Parse.Split.{stream}
use pinenut.Logger.Session.Encryptor.{sealed_by}
use pinenut.Logger.Batch.Sent.{log_batch-from}
use pinenut.Logger.Batch.Arrives.{frame_of}
use pinenut.Logger.Batch.Series.{Round, IsRound, series}
use pinenut.TimeDimension.{minute, check_match}
use pinenut.Runs.Clock.{clock, clock-IsChrono, morning, up-IsRecord}
use pinenut.Runs.Chunk.{slow}
use pinenut.Runs.Encrypt.{plus, plus-IsAes}
use pinenut.Runs.Compress.{copy-Holding, copy-IsEncoder, copy-IsDecoder}
use pinenut.Runs.Io.{app, disk_files-IsDisk, idle}
use pinenut.Runs.Parse.{keep, agree}
use pinenut.Runs.Batch.{core, room, positive, rounds-IsEnough, one_record}

abbrev pub two_batches : List (Round clock)
two_batches = (morning, one_record) ∷ (morning, one_record) ∷ []

-- The compressor has taken nothing and put out nothing.
abbrev AtStart : Type 0
AtStart = copy-Holding.Holds tt [] []

abbrev frame : AtStart → List ℕ
frame ready =
    frame_of clock-IsChrono plus-IsAes 256 room true copy-IsEncoder 257 256 positive rounds-IsEnough
      morning one_record tt (up-IsRecord, tt) ready

length-frame : (ready : AtStart) → length (frame ready) ≡ 25
unfolding stream varint pinenut.Codec.u64_or_zero
length-frame ready =
    ap length
      (log_batch-from clock-IsChrono plus-IsAes 256 room true copy-IsEncoder 257 256 positive
        rounds-IsEnough morning one_record tt [] [] (up-IsRecord, tt) ready).framed

length-sealed :
    (ready : AtStart)
    → length (sealed_by plus-IsAes 256 true (frame ready)) ≡ length (plus.pad (frame ready))
length-sealed ready =
    plus-IsAes.encrypt_length (plus.pad (frame ready)) (plus-IsAes.pad-IsWhole (frame ready))

pub up_now : check_match clock minute morning morning ≡ true
unfolding check_match
up_now = refl

pub morning-IsRound :
    IsRound clock-IsChrono
      (λ k. plus)
      (λ k. plus-IsAes)
      (5 ∷ 2 ∷ [])
      true
      256
      room
      copy-IsEncoder
      copy-IsDecoder
      (λ f p e. e)
      257
      256
      positive
      rounds-IsEnough
      keep
      200
      agree
      (some (5 ∷ []))
      disk_files-IsDisk
      app
      minute
      60
      morning
      (morning, one_record)
unfolding stream varint pinenut.Codec.u64_or_zero
morning-IsRound = record {
  valid = (up-IsRecord, tt);
  in_time = (up_now, tt);
  some_bytes = λ z ready. omega (arith, length-sealed ready, plus-IsAes.pad_longer (frame ready));
  small = λ z ready.
      omega (arith, length-sealed ready, plus-IsAes.pad_short (frame ready), length-frame ready);
  fits = (record { valid = up-IsRecord; since_epoch = tt; short = omega arith }, tt);
  in_rounds = λ z ready. omega (arith, length-frame ready);
}

-- The log file as it is opened again, with short reads.
abbrev opened : List ℕ → File
opened n = slow (
    (series clock-IsChrono (λ k. plus) (λ k. plus-IsAes) (5 ∷ 2 ∷ []) true 256 room copy-IsEncoder
        copy-IsDecoder (λ f p e. e) 257 256 positive rounds-IsEnough keep 200 agree (some (5 ∷ []))
        disk_files-IsDisk app minute two_batches (core, idle)).1.disk
      n)
