-- ===== src/Logger/Batch/Series.antt =====
-- Batches that are logged one after the other, each into the chunk after that of the one before.
pub mod Kept
pub mod Read
use pinenut.Prelude.{
  ℕ, ◌+◌, ◌*◌, ◌≤◌, ◌<◌, ◌≡◌, refl, sym, ap, ap₂, subst, ◌∙◌, List, [], ◌∷◌, ◌++◌, append-nil,
  append_assoc, map, length, All, Bool, Bool-cases, inl, inr, true, false, if◌then◌else◌, bytes_eq,
  bytes_eq_refl, bytes_eq→eq, Option, Result, ok, Exec,
}
use pinenut.Errors.{IoError, CipherError}
use pinenut.Chrono.{Chrono, IsChrono, unwrap_or_default}
use pinenut.Record.{Record}
use pinenut.Codec.Values.{IsRecord}
use pinenut.Encrypt.{Aes, IsAes}
use pinenut.Compress.{Zstd}
use pinenut.Compress.Frame.{Holding, IsEncoder}
use pinenut.Compress.Stream.{IsDecoder}
use pinenut.Chunk.{Chunk, capacity, start_datetime, header_bytes}
use pinenut.Parse.RecordParser.{buffer_len}
use pinenut.Parse.Split.{stream}
use pinenut.Parse.Streaming.{Fits}
use pinenut.Parse.Keys.{decryptor_key}
use pinenut.TimeDimension.{TimeDimension, check_match}
use pinenut.Logger.{Core}
use pinenut.Logger.Session.Encryptor.{sealed_by}
use pinenut.Logger.Session.Compressor.{IsEnough}
use pinenut.Logger.Batch.Sent.{Matching}
use pinenut.Logger.Batch.Arrives.{log_batch-Arrives}
use pinenut.Logger.Batch.RoundTrip.{
  key_if, InFile, IsInFile, bytes_of, frame_for, Idle, logged, Arrived, Arrives-IsWritten, one_more,
  sealed-by,
}
use pinenut.Logger.Io.{Io, io_write_chunk}
use pinenut.Logger.Io.Delivered.{HasWritable}
use pinenut.Logfile.Files.{FileSystem}
use pinenut.Logfile.Files.Disk.{IsDisk}

-- What goes to a file, of what goes to files in turn.
module _ {A : Type 0} where
  abbrev pub sent_to : List ℕ → List (List ℕ × A) → List A
  sent_to n [] = []
  sent_to n ((name, w) ∷ ws) = let rest = sent_to n ws in if bytes_eq name n then w ∷ rest else rest

  -- One more at the end of a file.
  abbrev pub files_with : List ℕ → A → (List ℕ → List A) → List ℕ → List A
  files_with name w files n = if bytes_eq name n then files n ++ (w ∷ []) else files n

  pub files-sent_to :
      (name n : List ℕ) (w : A) (files : List ℕ → List A) (sent : List (List ℕ × A))
      → files_with name w files n ++ sent_to n sent ≡ files n ++ sent_to n ((name, w) ∷ sent)
  files-sent_to name n w files sent = elim (Bool-cases (bytes_eq name n)) [
    | inl e ↦ rw e (append_assoc (files n) (w ∷ []) (sent_to n sent))
    | inr e ↦ rw e refl
  ]

  pub sent_to-All :
      (P : A → Type 0) (name n : List ℕ) (w : A) (sent : List (List ℕ × A))
      → P w
      → All P (sent_to n sent)
      → All P (sent_to n ((name, w) ∷ sent))
  sent_to-All P name n w sent h hs = elim (Bool-cases (bytes_eq name n)) [
    | inl e ↦ rw e (h, hs)
    | inr e ↦ rw e hs
  ]

-- The time of the flush, and the records that are logged before it.
abbrev pub Round : Chrono → Type 0
Round c = c.DateTime × List (Record c)

module _ {c : Chrono} (chrono : IsChrono c) (aes : List ℕ → Aes)
    (ciphers : (key : List ℕ) → IsAes (aes key)) (key : List ℕ) (has_key : Bool) (cap : ℕ)
    (room : 32 ≤ cap) {zstd : Zstd} {holding : Holding zstd} (encoder : IsEncoder holding)
    (decoder : IsDecoder zstd) (frames : (f p : List ℕ) → holding.IsFrame f p → decoder.IsFrame f p)
    (fuel len : ℕ) (positive : 0 < len)
    (enough : IsEnough chrono (ciphers key) cap room has_key encoder fuel len) {C : Type 0}
    (callback : Record c → Exec C IoError (Unit {0})) (rounds : ℕ)
    (ecdh_encryption_key : List ℕ → List ℕ → Result CipherError (List ℕ))
    (secret_key : Option (List ℕ)) {F D : Type 0} {fs : FileSystem F D}
    {content : D → List ℕ → List ℕ} {name_of : F → List ℕ} (disk : IsDisk fs content name_of)
    (identifier : List ℕ) (rotation : TimeDimension) where
  open zstd use {CCtx, DCtx}

  abbrev pub Threads : Type 0
  Threads = Core CCtx × Io c F D

  abbrev pub Sealed : Type 0
  Sealed =
      InFile chrono aes ciphers key has_key cap room encoder decoder frames fuel len positive enough
        callback rounds ecdh_encryption_key secret_key

  abbrev pub Chunks : Type 0
  Chunks = List Sealed

  -- A batch, and the event that it sends handled by the other thread.
  abbrev pub round : Round c → Threads → Threads
  round (now, rs) (core, io) =
      let core' =
        logged chrono aes ciphers key has_key cap room encoder decoder frames fuel len positive
          enough callback rounds ecdh_encryption_key secret_key disk identifier rotation now rs
          core in
      let (io', memory) = io_write_chunk c fs identifier rotation (io, core'.memory) in
      (record core' { memory = memory }, io')

  abbrev pub series : List (Round c) → Threads → Threads
  series [] st = st
  series (b ∷ bs) st = series bs (round b st)

  -- The date that the chunk after a flush has.
  abbrev pub second_of : c.DateTime → c.DateTime
  second_of now = unwrap_or_default c.default (c.from_timestamp (c.timestamp now) 0)

  abbrev frame : (b : Round c) (z : CCtx) → All (IsRecord c) b.1 → holding.Holds z [] [] → List ℕ
  frame b =
      frame_for chrono aes ciphers key has_key cap room encoder decoder frames fuel len positive
        enough callback rounds ecdh_encryption_key secret_key disk identifier rotation b.0 b.1

  -- A batch for a chunk of `size` bytes that starts at `start`.
  pub record IsRound (size : ℕ) (start : c.DateTime) (b : Round c) : Type 0 where
    pub valid : All (IsRecord c) b.1
    pub in_time : All (λ r. check_match c rotation (second_of start) r.meta.datetime ≡ true) b.1
    pub some_bytes :
        (z : CCtx) (ready : holding.Holds z [] [])
        → 0 < length (sealed_by (ciphers key) cap has_key (frame b z valid ready))
    pub small :
        (z : CCtx) (ready : holding.Holds z [] [])
        → 5 * length (sealed_by (ciphers key) cap has_key (frame b z valid ready)) < 4 * size
    pub fits : All (Fits chrono callback buffer_len) b.1
    pub in_rounds :
        (z : CCtx) (ready : holding.Holds z [] [])
        → length (frame b z valid ready) + length (stream c b.1) ≤ rounds

  -- Each starts when the one before was flushed.
  abbrev pub AreRounds : ℕ → c.DateTime → List (Round c) → Type 0
  AreRounds size start [] = Unit
  AreRounds size start (b ∷ bs) = IsRound size start b × AreRounds size b.0 bs

  abbrev pub in_chunks : Chunks → List ℕ
  in_chunks =
      bytes_of chrono aes ciphers key has_key cap room encoder decoder frames fuel len positive
        enough callback rounds ecdh_encryption_key secret_key

  abbrev pub IsLogged : Sealed → Type 0
  IsLogged =
      IsInFile chrono aes ciphers key has_key cap room encoder decoder frames fuel len positive
        enough callback rounds ecdh_encryption_key secret_key

  -- Every batch is in one chunk of one file, in order, behind the chunks that the files had.
  pub record Stored (bs : List (Round c)) (files : List ℕ → Chunks) (before after : Threads)
      : Type 0 where
    pub sent : List (List ℕ × Sealed)
    pub batches : map (λ p. p.1.records) sent ≡ map (λ b. b.1) bs
    pub logged_chunks : (n : List ℕ) → All IsLogged (sent_to n sent)
    pub stored : (n : List ℕ) → content after.1.disk n ≡ in_chunks (files n ++ sent_to n sent)
    pub no_errors : after.1.errors ≡ before.1.errors
