-- ===== src/Logger/FirstRun.antt =====
-- A program's run, from the start of its logger to the parsing of its log files.
use pinenut.Prelude.{ℕ, ◌≤◌, ◌<◌, List, Bool, Option, Result, Exec}
use pinenut.Errors.{IoError, CipherError}
use pinenut.Chrono.{Chrono, IsChrono}
use pinenut.Record.{Record}
use pinenut.Encrypt.{Aes, IsAes}
use pinenut.Compress.{Zstd}
use pinenut.Compress.Frame.{Holding, IsEncoder}
use pinenut.Compress.Stream.{IsDecoder}
use pinenut.TimeDimension.{TimeDimension}
use pinenut.Logger.{Core}
use pinenut.Logger.Session.Compressor.{IsEnough}
use pinenut.Logger.Io.{Io}
use pinenut.Logfile.Files.{FileSystem}
use pinenut.Logfile.Files.Disk.{IsDisk}
use pinenut.Logger.Start.{encoder_buffer_len}
use pinenut.Logger.Start.Restart.{started}

module _ {c : Chrono} (chrono : IsChrono c) (aes : List ℕ → Aes)
    (ciphers : (key : List ℕ) → IsAes (aes key)) (key : List ℕ) (has_key : Bool) (cap : ℕ)
    (room : 32 ≤ cap) {zstd : Zstd} {holding : Holding zstd} (encoder : IsEncoder holding)
    (decoder : IsDecoder zstd) (frames : (f p : List ℕ) → holding.IsFrame f p → decoder.IsFrame f p)
    (fuel : ℕ) (positive : 0 < encoder_buffer_len)
    (enough : IsEnough chrono (ciphers key) cap room has_key encoder fuel encoder_buffer_len)
    {C : Type 0} (callback : Record c → Exec C IoError (Unit {0})) (rounds : ℕ)
    (ecdh_encryption_key : List ℕ → List ℕ → Result CipherError (List ℕ))
    (secret_key : Option (List ℕ)) {F D : Type 0} {fs : FileSystem F D}
    {content : D → List ℕ → List ℕ} {name_of : F → List ℕ} (disk : IsDisk fs content name_of)
    (identifier : List ℕ) (rotation : TimeDimension) where
  open zstd use {CCtx, DCtx}

  abbrev pub start_up :
      c.DateTime → c.DateTime → CCtx → Option (List ℕ) → List ℕ → D → Core CCtx × Io c F D
  start_up =
      started chrono (ciphers key) cap room has_key encoder fuel positive enough disk identifier
        rotation
