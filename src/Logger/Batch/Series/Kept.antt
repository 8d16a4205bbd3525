-- ===== src/Logger/Batch/Series/Kept.antt =====
-- The chunks in the files after a series of batches.
use pinenut.Prelude.{
  arith, ℕ, ◌≤◌, ◌<◌, ◌≡◌, ◌≢◌, refl, sym, ap, ap₂, subst, ◌∙◌, List, [], ◌∷◌, ◌++◌, append-nil,
  All, Bool, Bool-cases, inl, inr, true, false, bytes_eq, bytes_eq_refl, bytes_eq→eq, Option,
  Result, ok, Exec,
}
use pinenut.Errors.{IoError, CipherError}
use pinenut.Chrono.{Chrono, IsChrono}
use pinenut.Record.{Record}
use pinenut.Encrypt.{Aes, IsAes}
use pinenut.Compress.{Zstd}
use pinenut.Compress.Frame.{Holding, IsEncoder}
use pinenut.Compress.Stream.{IsDecoder}
use pinenut.Chunk.{Chunk, capacity, start_datetime, header_bytes}
use pinenut.Parse.Keys.{decryptor_key}
use pinenut.TimeDimension.{TimeDimension, check_match}
use pinenut.Logger.{Core}
use pinenut.Logger.Session.Compressor.{IsEnough}
use pinenut.Logger.Batch.Sent.{Matching}
use pinenut.Logger.Batch.Arrives.{log_batch-Arrives}
use pinenut.Logger.Batch.RoundTrip.{
  key_if, IsInFile, frame_for, Idle, Arrives-IsWritten, one_more, sealed-by,
}
use pinenut.Logger.Io.{Io}
use pinenut.Logger.Io.Delivered.{HasWritable}
use pinenut.Logfile.Files.{FileSystem}
use pinenut.Logfile.Files.Disk.{IsDisk}
use pinenut.Logger.Batch.Series.{
  Round, Threads, Sealed, round, series, second_of, AreRounds, files_with, files-sent_to,
  sent_to-All, in_chunks, Stored,
}

module _ {c : Chrono} (chrono : IsChrono c) (aes : List ℕ → Aes)
    (ciphers : (key : List ℕ) → IsAes (aes key)) (key : List ℕ) (has_key : Bool) (cap : ℕ)
    (room : 32 ≤ cap) {zstd : Zstd} {holding : Holding zstd} (encoder : IsEncoder holding)
    (decoder : IsDecoder zstd) (frames : (f p : List ℕ) → holding.IsFrame f p → decoder.IsFrame f p)
    (fuel len : ℕ) (positive : 0 < len)
    (enough : IsEnough chrono (ciphers key) cap room has_key encoder fuel len) {C : Type 0}
    (callback : Record c → Exec C IoError (Unit {0})) (rounds : ℕ)
    (ecdh_encryption_key : List ℕ → List ℕ → Result CipherError (List ℕ))
    (secret_key : Option (List ℕ)) {F D : Type 0} {fs : FileSystem F D}
    {content : D → List ℕ → List ℕ} {name_of : F → List ℕ} (disk : IsDisk fs content name_of)
    (identifier : List ℕ) (rotation : TimeDimension) where
  open zstd use {CCtx, DCtx}

  abbrev Part : Type 0
  Part =
      Sealed chrono aes ciphers key has_key cap room encoder decoder frames fuel len positive enough
        callback rounds ecdh_encryption_key secret_key disk identifier rotation

  abbrev bytes : List Part → List ℕ
  bytes =
      in_chunks chrono aes ciphers key has_key cap room encoder decoder frames fuel len positive
        enough callback rounds ecdh_encryption_key secret_key disk identifier rotation

  -- One file has a chunk more, the others are as they were.
  one_file :
      (name : List ℕ) (w : Part) (files : List ℕ → List Part) (before after : D)
      → ((n : List ℕ) → content before n ≡ bytes (files n))
      → content after name ≡ bytes (files name ++ (w ∷ []))
      → ((n : List ℕ) → name ≢ n → content after n ≡ content before n)
      → (n : List ℕ) → content after n ≡ bytes (files_with name w files n)
  one_file name w files before after holds here others n = elim (Bool-cases (bytes_eq name n)) [
    | inl e ↦
        rw e
          (subst (λ m. content after m ≡ bytes (files m ++ (w ∷ []))) (bytes_eq→eq name n e) here)
    | inr e ↦ rw e (others n (λ same. differs e same) ∙ holds n)
  ]
    where
      differs : bytes_eq name n ≡ false → name ≡ n → ⊥
      differs e same =
          absurd (ground (arith, e, sym (bytes_eq_refl name) ∙ ap (bytes_eq name) same))

  Stored-first :
      (b : Round c) (bs : List (Round c)) (name : List ℕ) (w : Part) (files : List ℕ → List Part)
      (before mid after : Threads chrono aes ciphers key has_key cap room encoder decoder frames
        fuel len positive enough callback rounds ecdh_encryption_key secret_key disk identifier
        rotation)
      → w.records ≡ b.1
      → IsInFile chrono aes ciphers key has_key cap room encoder decoder frames fuel len positive
          enough callback rounds ecdh_encryption_key secret_key w
      → mid.1.errors ≡ before.1.errors
      → Stored chrono aes ciphers key has_key cap room encoder decoder frames fuel len positive
          enough callback rounds ecdh_encryption_key secret_key disk identifier rotation bs
          (files_with name w files)
          mid
          after
      → Stored chrono aes ciphers key has_key cap room encoder decoder frames fuel len positive
          enough callback rounds ecdh_encryption_key secret_key disk identifier rotation
          (b ∷ bs)
          files
          before
          after
  Stored-first b bs name w files before mid after records written no_errors s = record {
    sent = (name, w) ∷ s.sent;
    batches = ap₂ (λ r rs. r ∷ rs) records s.batches;
    logged_chunks = λ n.
        sent_to-All
          (IsInFile chrono aes ciphers key has_key cap room encoder decoder frames fuel len positive
            enough callback rounds ecdh_encryption_key secret_key)
          name n w s.sent written (s.logged_chunks n);
    stored = λ n. s.stored n ∙ ap (bytes) (files-sent_to name n w files s.sent);
    no_errors = s.no_errors ∙ no_errors;
  }

  in_time-Matching :
      (start : c.DateTime) (core : Core zstd.CCtx) (k : Chunk) (rs : List (Record c))
      → core.rotation ≡ rotation
      → start_datetime c k.header
        ≡ second_of chrono aes ciphers key has_key cap room encoder decoder frames fuel len positive
            enough callback rounds ecdh_encryption_key secret_key disk identifier rotation start
      → All
          (λ r.
            check_match c rotation
              (second_of chrono aes ciphers key has_key cap room encoder decoder frames fuel len
                positive enough callback rounds ecdh_encryption_key secret_key disk identifier
                rotation start)
              r.meta.datetime
            ≡ true)
          rs
      → Matching chrono (ciphers key) cap room has_key encoder fuel len positive enough core k rs
  in_time-Matching start core k rs p q h =
      subst (λ t. All (λ r. check_match c t (start_datetime c k.header) r.meta.datetime ≡ true) rs)
        (sym p)
        (subst (λ t. All (λ r. check_match c rotation t r.meta.datetime ≡ true) rs) (sym q) h)

  pub series-Stored :
      (bs : List (Round c)) (files : List ℕ → List Part) (start : c.DateTime) (z : zstd.CCtx)
      (k : Chunk) (core : Core zstd.CCtx) (io : Io c F D)
      (idle : Idle chrono aes ciphers key has_key cap room encoder decoder frames fuel len positive
        enough callback rounds ecdh_encryption_key secret_key disk identifier rotation z k core)
      → idle.start ≡ start
      → core.rotation ≡ rotation
      → decryptor_key ecdh_encryption_key secret_key core.pub_key ≡ ok (key_if has_key key)
      → HasWritable c disk identifier rotation io.logfile
      → ((n : List ℕ) → content io.disk n ≡ bytes (files n))
      → AreRounds chrono aes ciphers key has_key cap room encoder decoder frames fuel len positive
          enough callback rounds ecdh_encryption_key secret_key disk identifier rotation
          (capacity k)
          start
          bs
      → Stored chrono aes ciphers key has_key cap room encoder decoder frames fuel len positive
          enough callback rounds ecdh_encryption_key secret_key disk identifier rotation bs files
          (core, io)
          (series chrono aes ciphers key has_key cap room encoder decoder frames fuel len positive
            enough callback rounds ecdh_encryption_key secret_key disk identifier rotation bs
            (core, io))
  series-Stored [] files start z k core io idle begun rotates obtains can_write holds rounds' =
      record {
        sent = [];
        batches = refl;
        logged_chunks = λ n. tt;
        stored = λ n. holds n ∙ ap (bytes) (sym (append-nil (files n)));
        no_errors = refl;
      }
  series-Stored (b ∷ bs) files start z k core io idle begun rotates obtains can_write holds
        (r, more) =
      let a =
        log_batch-Arrives chrono (ciphers key) cap room has_key encoder fuel len positive enough
          disk identifier rotation b.0 b.1 z k core io r.valid idle
          (in_time-Matching start core k b.1 rotates
            (idle.fresh.start
              ∙ ap
                  (second_of chrono aes ciphers key has_key cap room encoder decoder frames fuel len
                    positive enough callback rounds ecdh_encryption_key secret_key disk identifier
                    rotation)
                  begun)
            r.in_time)
          (r.some_bytes z idle.ready) (r.small z idle.ready) can_write in
      let frame =
        frame_for chrono aes ciphers key has_key cap room encoder decoder frames fuel len positive
          enough callback rounds ecdh_encryption_key secret_key disk identifier rotation b.0 b.1 z
          r.valid idle.ready in
      let w : Part = record {
        header = a.sent.header;
        key = key_if has_key key;
        frame = frame;
        records = b.1;
      } in
      let name = a.stored.file in
      let mid =
        round chrono aes ciphers key has_key cap room encoder decoder frames fuel len positive
          enough callback rounds ecdh_encryption_key secret_key disk identifier rotation b
          (core, io) in
      let payload =
        a.payload
        ∙ sym (
            sealed-by chrono aes ciphers key has_key cap room encoder decoder frames fuel len
              positive enough callback rounds ecdh_encryption_key secret_key has_key frame) in
      Stored-first b bs name w files (core, io) mid
        (series chrono aes ciphers key has_key cap room encoder decoder frames fuel len positive
          enough callback rounds ecdh_encryption_key secret_key disk identifier rotation bs mid)
        refl
        (Arrives-IsWritten chrono aes ciphers key has_key cap room encoder decoder frames fuel len
          positive enough callback rounds ecdh_encryption_key secret_key disk identifier rotation
          frame b.1 io k core b.0 a r.fits (r.in_rounds z idle.ready) obtains)
        a.stored.no_errors
        (series-Stored bs (files_with name w files) b.0 a.context a.chunk mid.0 mid.1 a.idle a.begun
          (a.same_rotation ∙ rotates)
          (ap (decryptor_key ecdh_encryption_key secret_key) a.same_key ∙ obtains) a.stored.writable
          (one_file name w files io.disk mid.1.disk holds
            (one_more chrono aes ciphers key has_key cap room encoder decoder frames fuel len
              positive enough callback rounds ecdh_encryption_key secret_key disk identifier
              rotation w (files name) (content io.disk name) _ (holds name)
              (a.stored.written
                ∙ ap (λ p. content io.disk name ++ (header_bytes a.sent.header ++ p)) payload))
            a.stored.other_files)
          (subst
            (λ n.
              AreRounds chrono aes ciphers key has_key cap room encoder decoder frames fuel len
                positive enough callback rounds ecdh_encryption_key secret_key disk identifier
                rotation n b.0 bs)
            (sym a.same_capacity) more))
