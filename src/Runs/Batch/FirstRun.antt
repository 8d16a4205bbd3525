-- ===== src/Runs/Batch/FirstRun.antt =====
-- A program's first run, on a memory of zeros.
use pinenut.Prelude.{ℕ, List, [], ◌∷◌, true, some}
use pinenut.Chunk.Reader.{File}
use pinenut.Logger.Batch.Series.{series}
use pinenut.Logger.FirstRun.{start_up}
use pinenut.TimeDimension.{minute}
use pinenut.Runs.Clock.{clock-IsChrono, morning, noon}
use pinenut.Runs.Chunk.{key, slow}
use pinenut.Runs.Encrypt.{plus, plus-IsAes, repeat}
use pinenut.Runs.Compress.{copy-IsEncoder, copy-IsDecoder}
use pinenut.Runs.Io.{app, disk_files-IsDisk}
use pinenut.Runs.Parse.{keep, agree}
use pinenut.Runs.Batch.{room, positive, rounds-IsEnough}
use pinenut.Runs.Batch.Series.{two_batches}

-- The log files as they are opened again, with short reads.
abbrev opened : List ℕ → File
opened n = slow (
    (series clock-IsChrono (λ k. plus) (λ k. plus-IsAes) (5 ∷ 2 ∷ []) true 256 room copy-IsEncoder
        copy-IsDecoder (λ f p e. e) 257 256 positive rounds-IsEnough keep 200 agree (some (5 ∷ []))
        disk_files-IsDisk app minute two_batches
        (start_up clock-IsChrono (λ k. plus) (λ k. plus-IsAes) (5 ∷ 2 ∷ []) true 256 room
          copy-IsEncoder copy-IsDecoder (λ f p e. e) 257 positive rounds-IsEnough keep 200 agree
          (some (5 ∷ [])) disk_files-IsDisk app minute morning noon tt (some key) (repeat 248 0)
          (λ g. []))).1.disk
      n)
