-- ===== src/Runs/Batch/Lost.antt =====
-- Two batches that are flushed before the first event is handled.
use pinenut.Prelude.{true}
use pinenut.Logger.Batch.Arrives.{batch}
use pinenut.Logger.Batch.Lost.{Lost, frame_after, log_batch-Lost}
use pinenut.Logger.Io.{io_write_chunk}
use pinenut.TimeDimension.{minute}
use pinenut.Runs.Clock.{clock, clock-IsChrono, morning}
use pinenut.Runs.Encrypt.{plus-IsAes}
use pinenut.Runs.Compress.{copy-IsEncoder}
use pinenut.Runs.Io.{app, disk_files, disk_files-IsDisk, idle}
use pinenut.Runs.Batch.{
  chunk, core, core-IsIdle, room, positive, rounds-IsEnough, one_record, up-matches,
}
use pinenut.Runs.Batch.Series.{up_now, morning-IsRound}

abbrev logged : pinenut.Logger.Core (Unit {0}) → pinenut.Logger.Core (Unit {0})
logged =
    batch clock-IsChrono plus-IsAes 256 room true copy-IsEncoder 257 256 positive rounds-IsEnough
      morning one_record

log_batch-Lost_example :
    Lost clock-IsChrono plus-IsAes 256 room true copy-IsEncoder 257 256 positive rounds-IsEnough
      disk_files-IsDisk app minute morning
      (frame_after clock-IsChrono plus-IsAes 256 room true copy-IsEncoder 257 256 positive
        rounds-IsEnough morning morning one_record one_record tt morning-IsRound.valid
        morning-IsRound.valid core-IsIdle.ready)
      one_record
      idle
      core
      (logged (logged core))
      (io_write_chunk clock disk_files app minute
        (io_write_chunk clock disk_files app minute (idle, (logged (logged core)).memory)))
unfolding core chunk
log_batch-Lost_example =
    log_batch-Lost clock-IsChrono plus-IsAes 256 room true copy-IsEncoder 257 256 positive
      rounds-IsEnough disk_files-IsDisk app minute morning morning one_record one_record tt chunk
      core idle morning-IsRound.valid morning-IsRound.valid core-IsIdle (up-matches, tt)
      (up_now, tt) (morning-IsRound.some_bytes tt core-IsIdle.ready)
      (morning-IsRound.small tt core-IsIdle.ready) (morning-IsRound.some_bytes tt _)
      (morning-IsRound.small tt _) tt
