-- ===== src/Logger/Batch/Series/Read.antt =====
-- A series of batches is parsed again.
use pinenut.Prelude.{ℕ, ◌≤◌, ◌<◌, ◌≡◌, List, ◌++◌, map, All, Bool, Option, Result, ok, Exec}
use pinenut.Errors.{IoError, CipherError}
use pinenut.Chrono.{Chrono, IsChrono}
use pinenut.Record.{Record}
use pinenut.Encrypt.{Aes, IsAes}
use pinenut.Compress.{Zstd}
use pinenut.Compress.Frame.{Holding, IsEncoder}
use pinenut.Compress.Stream.{IsDecoder}
use pinenut.Chunk.{Chunk}
use pinenut.Parse.RecordParser.{buffer_len}
use pinenut.Parse.Streaming.{call_all}
use pinenut.TimeDimension.{TimeDimension}
use pinenut.Logger.Session.Compressor.{IsEnough}
use pinenut.Logger.Batch.RoundTrip.{IsInFile}
use pinenut.Logger.Io.{Io}
use pinenut.Logfile.Files.{FileSystem}
use pinenut.Logfile.Files.Disk.{IsDisk}
use pinenut.Chunk.Reader.{File}
use pinenut.Parse.Processor.{parse_file}
use pinenut.Parse.Chunks.{FileParsed}
use pinenut.Logger.Batch.RoundTrip.{logged_in}
use pinenut.Logger.Batch.Series.{Threads, Round, Sealed, series, sent_to, in_chunks}

module _ {c : Chrono} (chrono : IsChrono c) (aes : List ℕ → Aes)
    (ciphers : (key : List ℕ) → IsAes (aes key)) (key : List ℕ) (has_key : Bool) (cap : ℕ)
    (room : 32 ≤ cap) {zstd : Zstd} {holding : Holding zstd} (encoder : IsEncoder holding)
    (decoder : IsDecoder zstd) (frames : (f p : List ℕ) → holding.IsFrame f p → decoder.IsFrame f p)
    (fuel len : ℕ) (positive : 0 < len)
    (enough : IsEnough chrono (ciphers key) cap room has_key encoder fuel len) {C : Type 0}
    (callback : Record c → Exec C IoError (Unit {0})) (rounds : ℕ)
    (ecdh_encryption_key : List ℕ → List ℕ → Result CipherError (List ℕ))
    (secret_key : Option (List ℕ)) {F D : Type 0} {fs : FileSystem F D}
    {content : D → List ℕ → List ℕ} {name_of : F → List ℕ} (disk : IsDisk fs content name_of)
    (identifier : List ℕ) (rotation : TimeDimension) where
  open zstd use {CCtx, DCtx}

  abbrev Part : Type 0
  Part =
      Sealed chrono aes ciphers key has_key cap room encoder decoder frames fuel len positive enough
        callback rounds ecdh_encryption_key secret_key disk identifier rotation

  -- A callback that accepts every record.
  abbrev pub Accepts : Type 0
  Accepts = (r : Record c) (st : C) → (st' : C) × (callback r st ≡ (ok tt, st'))

  -- A file's chunks are parsed from a state of the callback on.
  pub record Reads (ws : List Part) (context : DCtx) (st : C) (file : File) : Type 0 where
    pub ends : C
    pub calls :
        call_all chrono callback buffer_len
          (logged_in chrono aes ciphers key has_key cap room encoder decoder frames fuel len
            positive enough callback rounds ecdh_encryption_key secret_key ws)
          st
        ≡ (ok tt, ends)
    pub parsed :
        FileParsed chrono callback decoder aes ciphers rounds ecdh_encryption_key secret_key ends
          (parse_file c callback zstd aes rounds ecdh_encryption_key secret_key context st file)

  pub record SeriesParsed
      (start : Threads chrono aes ciphers key has_key cap room encoder decoder frames fuel len
        positive enough callback rounds ecdh_encryption_key secret_key disk identifier rotation)
      (bs : List (Round c)) (files : List ℕ → List Part) (context : DCtx) (st : C)
      (opened : List ℕ → File) : Type 0 where
    pub sent : List (List ℕ × Part)
    pub batches : map (λ p. p.1.records) sent ≡ map (λ b. b.1) bs
    pub logged_chunks :
        (n : List ℕ)
        → All
            (IsInFile chrono aes ciphers key has_key cap room encoder decoder frames fuel len
              positive enough callback rounds ecdh_encryption_key secret_key)
            (sent_to n sent)
    pub stored :
        (n : List ℕ)
        → content
            (series chrono aes ciphers key has_key cap room encoder decoder frames fuel len positive
              enough callback rounds ecdh_encryption_key secret_key disk identifier rotation bs
              start).1.disk
            n
          ≡ in_chunks chrono aes ciphers key has_key cap room encoder decoder frames fuel len
              positive enough callback rounds ecdh_encryption_key secret_key disk identifier
              rotation
              (files n ++ sent_to n sent)
    pub each : (n : List ℕ) → Reads (files n ++ sent_to n sent) context st (opened n)
