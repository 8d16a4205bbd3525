-- ===== src/Logger/Start/Recovered.antt =====
-- What a process that did not shut down left in the buffer, at the next start.
use pinenut.Prelude.{ℕ, ◌<◌, ◌≤◌, ◌≡◌, List, [], ◌∷◌, ◌++◌, Bool, true}
use pinenut.Chrono.{Chrono, IsChrono}
use pinenut.Encrypt.{Aes, IsAes}
use pinenut.Compress.{Zstd}
use pinenut.Compress.Frame.{Holding, IsEncoder}
use pinenut.Chunk.{Chunk, capacity, header_bytes, set_writeback}
use pinenut.Chunk.Write.{contents}
use pinenut.TimeDimension.{TimeDimension}
use pinenut.Logfile.Files.{FileSystem}
use pinenut.Logfile.Files.Disk.{IsDisk}
use pinenut.Logger.{Core, write_chunk}
use pinenut.Logger.Session.Compressor.{IsEnough}
use pinenut.Logger.Batch.Arrives.{IsIdle}
use pinenut.Logger.Io.{Io, io_write_chunk}
use pinenut.Logger.Io.Delivered.{Appended}
use pinenut.Logger.Start.{encoder_buffer_len}
use pinenut.Logger.Start.Opening.{first_io}
use pinenut.Logger.Start.Restart.{Emptied}

module _ {c : Chrono} (chrono : IsChrono c) {aes : Aes} (cipher : IsAes aes) (cap : ℕ)
    (room : 32 ≤ cap) (has_key : Bool) {zstd : Zstd} {holding : Holding zstd}
    (encoder : IsEncoder holding) (fuel : ℕ) (positive : 0 < encoder_buffer_len)
    (enough : IsEnough chrono cipher cap room has_key encoder fuel encoder_buffer_len)
    {F D : Type 0} {fs : FileSystem F D} {content : D → List ℕ → List ℕ} {name_of : F → List ℕ}
    (disk : IsDisk fs content name_of) (identifier : List ℕ) (rotation : TimeDimension) where
  open zstd use {CCtx}
  open holding use {IsFrame, Holds}

  -- The core logger and the other thread's part as they start, and the event that is then handled.
  pub record Recovered (k m : Chunk) (z : CCtx) (d : D) (start : Core CCtx × Io c F D)
      : Type 0 where
    pub handed_over :
        Emptied c disk identifier rotation m (first_io c fs identifier rotation d) start.1
    pub marked : (set_writeback k).header.writeback ≡ true
    pub unfinished :
        Appended c disk identifier rotation start.1
          (header_bytes (set_writeback k).header ++ contents k)
          (io_write_chunk c fs identifier rotation (start.1, start.0.memory)).0
    pub chunk : Chunk
    pub idle :
        IsIdle chrono cipher cap room has_key encoder fuel encoder_buffer_len positive enough z
          chunk
          (record start.0 {
            memory = (io_write_chunk c fs identifier rotation (start.1, start.0.memory)).1;
          })
    pub same_capacity : capacity chunk ≡ capacity k
    pub events : start.0.events ≡ write_chunk ∷ []
    pub errors : start.0.errors ≡ []
    pub io_errors :
        (io_write_chunk c fs identifier rotation (start.1, start.0.memory)).0.errors ≡ []
