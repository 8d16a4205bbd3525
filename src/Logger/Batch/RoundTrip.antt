-- ===== src/Logger/Batch/RoundTrip.antt =====
-- What is logged is parsed again.
use pinenut.Prelude.{
  ℕ, ◌+◌, ◌*◌, ◌≤◌, ◌<◌, ◌≡◌, ◌≢◌, refl, sym, ap, ◌∙◌, List, [], ◌∷◌, ◌++◌, append-nil, map,
  map-append, concat, concat-append, length, All, Bool, true, false, Option, none, some, Result, ok,
  Exec,
}
use pinenut.Errors.{IoError, CipherError}
use pinenut.Chrono.{Chrono, IsChrono}
use pinenut.Record.{Record}
use pinenut.Codec.Values.{IsRecord}
use pinenut.Encrypt.{Aes, IsAes}
use pinenut.Compress.{Zstd}
use pinenut.Compress.Frame.{Holding, IsEncoder}
use pinenut.Compress.Stream.{IsDecoder}
use pinenut.Chunk.{Chunk, capacity, payload_len, header_bytes}
use pinenut.Chunk.Write.{length-contents}
use pinenut.Chunk.Reader.{File}
use pinenut.Chunk.Reader.Headers.{Mild}
use pinenut.Parse.RecordParser.{buffer_len}
use pinenut.Parse.Split.{stream}
use pinenut.Parse.Streaming.{Fits, call_all}
use pinenut.Parse.Keys.{decryptor_key}
use pinenut.Parse.Processor.{parse_file}
use pinenut.Parse.Chunks.{
  Written, IsWritten, written_bytes, payload_of, records_of, FileParsed, parse_file-FileParsed,
}
use pinenut.Parse.Chunks.Payload.{sealed}
use pinenut.TimeDimension.{TimeDimension}
use pinenut.Logger.{Core}
use pinenut.Logger.Session.Encryptor.{sealed_by}
use pinenut.Logger.Session.Compressor.{IsEnough}
use pinenut.Logger.Batch.Sent.{Matching}
use pinenut.Logger.Batch.Arrives.{IsIdle, frame_of, batch, Arrives, log_batch-Arrives}
use pinenut.Logger.Io.{Io, io_write_chunk}
use pinenut.Logger.Io.Delivered.{HasWritable}
use pinenut.Logfile.Files.{FileSystem}
use pinenut.Logfile.Files.Disk.{IsDisk}

-- The key that the program logs with, if it does with one.
abbrev pub key_if : Bool → List ℕ → Option (List ℕ)
key_if true key = some key
key_if false key = none

module _ {c : Chrono} (chrono : IsChrono c) (aes : List ℕ → Aes)
    (ciphers : (key : List ℕ) → IsAes (aes key)) (key : List ℕ) (has_key : Bool) (cap : ℕ)
    (room : 32 ≤ cap) {zstd : Zstd} {holding : Holding zstd} (encoder : IsEncoder holding)
    (decoder : IsDecoder zstd) (frames : (f p : List ℕ) → holding.IsFrame f p → decoder.IsFrame f p)
    (fuel len : ℕ) (positive : 0 < len)
    (enough : IsEnough chrono (ciphers key) cap room has_key encoder fuel len) {C : Type 0}
    (callback : Record c → Exec C IoError (Unit {0})) (rounds : ℕ)
    (ecdh_encryption_key : List ℕ → List ℕ → Result CipherError (List ℕ))
    (secret_key : Option (List ℕ)) where
  open zstd use {CCtx, DCtx}

  abbrev pub InFile : Type 0
  InFile = Written chrono callback decoder aes ciphers rounds ecdh_encryption_key secret_key

  abbrev pub IsInFile : InFile → Type 0
  IsInFile = IsWritten chrono callback decoder aes ciphers rounds ecdh_encryption_key secret_key

  abbrev pub bytes_of : List InFile → List ℕ
  bytes_of ws = concat (
      map (written_bytes chrono callback decoder aes ciphers rounds ecdh_encryption_key secret_key)
        ws)

  abbrev pub logged_in : List InFile → List (Record c)
  logged_in = records_of chrono callback decoder aes ciphers rounds ecdh_encryption_key secret_key

  pub sealed-by :
      (b : Bool) (frame : List ℕ)
      → sealed chrono callback decoder aes ciphers rounds (key_if b key) frame
        ≡ sealed_by (ciphers key) cap b frame
  sealed-by true frame = refl
  sealed-by false frame = refl

  module _ {F D : Type 0} {fs : FileSystem F D} {content : D → List ℕ → List ℕ}
      {name_of : F → List ℕ} (disk : IsDisk fs content name_of) (identifier : List ℕ)
      (rotation : TimeDimension) where
    abbrev pub frame_for :
        (now : c.DateTime) (rs : List (Record c)) (z : CCtx)
        → All (IsRecord c) rs
        → holding.Holds z [] []
        → List ℕ
    frame_for = frame_of chrono (ciphers key) cap room has_key encoder fuel len positive enough

    abbrev pub Idle : CCtx → Chunk → Core CCtx → Type 0
    Idle = IsIdle chrono (ciphers key) cap room has_key encoder fuel len positive enough

    abbrev pub logged : c.DateTime → List (Record c) → Core CCtx → Core CCtx
    logged = batch chrono (ciphers key) cap room has_key encoder fuel len positive enough

    -- The log files after a batch and the event that it sends.
    abbrev pub disk_after : c.DateTime → List (Record c) → Core CCtx → Io c F D → D
    disk_after now rs core io =
        (io_write_chunk c fs identifier rotation (io, (logged now rs core).memory)).0.disk

    abbrev pub Arrived :
        (frame : List ℕ) (rs : List (Record c)) (io : Io c F D) (k : Chunk) (core : Core CCtx)
        (now : c.DateTime)
        → Type 0
    Arrived frame rs io k core now =
        Arrives chrono (ciphers key) cap room has_key encoder fuel len positive enough disk
          identifier rotation now frame rs io k core (logged now rs core)
          (io_write_chunk c fs identifier rotation (io, (logged now rs core).memory))

    pub Arrives-IsWritten :
        (frame : List ℕ) (rs : List (Record c)) (io : Io c F D) (k : Chunk) (core : Core CCtx)
        (now : c.DateTime) (a : Arrived frame rs io k core now)
        → All (Fits chrono callback buffer_len) rs
        → length frame + length (stream c rs) ≤ rounds
        → decryptor_key ecdh_encryption_key secret_key core.pub_key ≡ ok (key_if has_key key)
        → IsInFile (record {
          header = a.sent.header;
          key = key_if has_key key;
          frame = frame;
          records = rs;
        })
    unfolding payload_len
    Arrives-IsWritten frame rs io k core now a fits small obtains = record {
      bytes = a.valid.layout;
      magic = a.valid.magic;
      version = a.version;
      len =
          sym (length-contents a.sent a.valid.within)
          ∙ ap length (a.payload ∙ sym (sealed-by has_key frame));
      complete = a.complete;
      obtains = ap (decryptor_key ecdh_encryption_key secret_key) a.key ∙ obtains;
      framed = frames frame (stream c rs) a.framed;
      fits = fits;
      enough = small;
    }

    -- Another chunk at the end of a file.
    pub one_more :
        (w : InFile) (ws : List InFile) (before after : List ℕ)
        → before ≡ bytes_of ws
        → after
          ≡ before
            ++ (header_bytes w.header
                ++ payload_of chrono callback decoder aes ciphers rounds ecdh_encryption_key
                    secret_key w)
        → after ≡ bytes_of (ws ++ (w ∷ []))
    one_more w ws before after p q =
        let bytes =
          written_bytes chrono callback decoder aes ciphers rounds ecdh_encryption_key secret_key in
        q
        ∙ ap (λ t. t ++ bytes w) p
        ∙ ap (λ t. bytes_of ws ++ t) (sym (append-nil (bytes w)))
        ∙ sym (concat-append (map bytes ws) (bytes w ∷ []))
        ∙ ap concat (sym (map-append bytes ws (w ∷ [])))

    pub logged_in-last :
        (w : InFile) (ws : List InFile) → logged_in (ws ++ (w ∷ [])) ≡ logged_in ws ++ w.records
    logged_in-last w ws =
        ap concat (map-append (λ v. v.records) ws (w ∷ []))
        ∙ concat-append (map (λ v. v.records) ws) (w.records ∷ [])
        ∙ ap (λ t. logged_in ws ++ t) (append-nil w.records)

    pub All-last :
        (ws : List InFile) (w : InFile)
        → All IsInFile ws
        → IsInFile w
        → All IsInFile (ws ++ (w ∷ []))
    All-last [] w h p = (p, tt)
    All-last (v ∷ ws) w h p = (h.0, All-last ws w h.1 p)

    -- Parsing the log file that a batch went to.
    pub record Parsed (st : C) (io : Io c F D) (after : D) (opened : List ℕ → File)
        (ends : List ℕ → C) (context : DCtx) : Type 0 where
      pub name : List ℕ
      pub others : (g : List ℕ) → name ≢ g → content after g ≡ content io.disk g
      pub parsed :
          FileParsed chrono callback decoder aes ciphers rounds ecdh_encryption_key secret_key
            (ends name)
            (parse_file c callback zstd aes rounds ecdh_encryption_key secret_key context st
              (opened name))

    -- Logging and parsing undo each other: when a batch of records has been logged and flushed and the
    -- other thread has handled the event, one of the log files has changed, and parsing it calls back the
    -- records that were in it before, and then those of the batch, in order, without an error. The core
    -- logger is ready for a batch, no record calls for a rotation, the frame is not empty and fills less
    -- than four fifths of the chunk; all files hold chunks that a logger wrote, the log file of the
    -- handler can be written to and the disk does not fail; the key agrees with that in the header, no
    -- record is longer than the parser's buffer, the callback accepts the records, reading the files does
    -- not fail, and the libraries behave as they document.
    pub log_batch-Parsed :
        (now : c.DateTime) (rs : List (Record c)) (z : CCtx) (k : Chunk) (core : Core CCtx)
        (io : Io c F D) (files : List ℕ → List InFile) (opened : List ℕ → File) (context : DCtx)
        (st : C) (ends : List ℕ → C)
        → (valid : All (IsRecord c) rs) → (idle : Idle z k core)
        → Matching chrono (ciphers key) cap room has_key encoder fuel len positive enough core k rs
        → 0 < length (sealed_by (ciphers key) cap has_key (frame_for now rs z valid idle.ready))
        → 5 * length (sealed_by (ciphers key) cap has_key (frame_for now rs z valid idle.ready))
          < 4 * capacity k
        → HasWritable c disk identifier rotation io.logfile
        → ((n : List ℕ) → All IsInFile (files n))
        → ((n : List ℕ) → content io.disk n ≡ bytes_of (files n))
        → decryptor_key ecdh_encryption_key secret_key core.pub_key ≡ ok (key_if has_key key)
        → All (Fits chrono callback buffer_len) rs
        → length (frame_for now rs z valid idle.ready) + length (stream c rs) ≤ rounds
        → ((n : List ℕ) → (opened n).ahead ≡ content (disk_after now rs core io) n)
        → ((n : List ℕ) → All Mild (opened n).events)
        → decoder.Decodes context [] []
        → ((n : List ℕ)
            → call_all chrono callback buffer_len (logged_in (files n) ++ rs) st ≡ (ok tt, ends n))
        → Parsed st io (disk_after now rs core io) opened ends context
    log_batch-Parsed now rs z k core io files opened context st ends valid idle matches pos small
          can_write in_files holds obtains fits enough_rounds ahead mild at_end calls =
        let a =
          log_batch-Arrives chrono (ciphers key) cap room has_key encoder fuel len positive enough
            disk identifier rotation now rs z k core io valid idle matches pos small can_write in
        let frame = frame_for now rs z valid idle.ready in
        let w : InFile = record {
          header = a.sent.header;
          key = key_if has_key key;
          frame = frame;
          records = rs;
        } in
        let name = a.stored.file in
        let ws = files name in
        let payload = a.payload ∙ sym (sealed-by has_key frame) in
        record {
          name = name;
          others = a.stored.other_files;
          parsed =
              parse_file-FileParsed chrono callback decoder aes ciphers rounds ecdh_encryption_key
                secret_key (ws ++ (w ∷ [])) context (opened name) st (ends name)
                (All-last ws w (in_files name)
                  (Arrives-IsWritten frame rs io k core now a fits enough_rounds obtains))
                (ahead name
                  ∙ one_more w ws (content io.disk name) _ (holds name) (
                      a.stored.written
                      ∙ ap (λ p. content io.disk name ++ (header_bytes a.sent.header ++ p))
                          payload))
                (mild name) at_end
                (ap (λ l. call_all chrono callback buffer_len l st) (logged_in-last w ws)
                  ∙ calls name);
        }
