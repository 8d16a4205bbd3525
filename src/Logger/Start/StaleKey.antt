-- ===== src/Logger/Start/StaleKey.antt =====
-- The key of a chunk that was left empty, at the next start.
use pinenut.Prelude.{
  ℕ, ◌<◌, ◌*◌, ◌≤◌, ◌≡◌, refl, sym, ap, subst, ◌∙◌, List, [], ◌∷◌, length, take, Bool, true, Option,
  All,
}
use pinenut.Chrono.{Chrono, IsChrono}
use pinenut.Record.{Record}
use pinenut.Codec.Values.{IsRecord}
use pinenut.Encrypt.{Aes, IsAes}
use pinenut.Compress.{Zstd}
use pinenut.Compress.Frame.{Holding, IsEncoder}
use pinenut.Chunk.{Chunk, bind, chunk_bytes, capacity, payload_len, start_datetime}
use pinenut.Chunk.Layout.{bind-chunk_bytes}
use pinenut.Chunk.Write.{contents}
use pinenut.Buffer.{Side, right, as_slice}
use pinenut.TimeDimension.{TimeDimension, check_match}
use pinenut.Logfile.Files.{FileSystem}
use pinenut.Logfile.Files.Disk.{IsDisk}
use pinenut.Logger.{Core, write_chunk, unbind}
use pinenut.Logger.Session.Encryptor.{Handed-nil, sealed_by}
use pinenut.Logger.Session.Compressor.{IsEnough}
use pinenut.Logger.Batch.Flush.{On}
use pinenut.Logger.Batch.InputSide.{write_slice-PutBack}
use pinenut.Logger.Batch.Sent.{log_batch-from}
use pinenut.Logger.Batch.Arrives.{frame_of, batch}
use pinenut.Logger.Start.{encoder_buffer_len, context_key, new_parts}
use pinenut.Logger.Start.Opening.{writeback-empty, first_io, new_io-empty}
use pinenut.Logger.Start.Restart.{LeftOver, op, started, parts, started-valid}

module _ {c : Chrono} (chrono : IsChrono c) {aes : Aes} (cipher : IsAes aes) (cap : ℕ)
    (room : 32 ≤ cap) (has_key : Bool) {zstd : Zstd} {holding : Holding zstd}
    (encoder : IsEncoder holding) (fuel : ℕ) (positive : 0 < encoder_buffer_len)
    (enough : IsEnough chrono cipher cap room has_key encoder fuel encoder_buffer_len)
    {F D : Type 0} {fs : FileSystem F D} {content : D → List ℕ → List ℕ} {name_of : F → List ℕ}
    (disk : IsDisk fs content name_of) (identifier : List ℕ) (rotation : TimeDimension) where
  open zstd use {CCtx}
  open holding use {IsFrame, Holds}

  -- Nothing is written at the start, and the chunk that was left is logged to.
  reused :
      (alpha : Side) (now later : c.DateTime) (z : CCtx) (pub_key : Option (List ℕ))
      (memory : List ℕ) (d : D) (k m : Chunk)
      → LeftOver alpha k m memory
      → payload_len k ≡ 0
      → payload_len m ≡ 0
      → started chrono cipher cap room has_key encoder fuel positive enough disk identifier rotation
          now later z pub_key memory d
        ≡ (
          unbind c aes has_key
              (op chrono cipher cap room has_key encoder fuel positive enough disk identifier
                rotation)
              (
                parts chrono cipher cap room has_key encoder fuel positive enough disk identifier
                    rotation z pub_key memory,
                k,
              ),
          first_io c fs identifier rotation d,
        )
  unfolding new_parts
  reused alpha now later z pub_key memory d k m left_over none_yet none_there =
      let op' =
        op chrono cipher cap room has_key encoder fuel positive enough disk identifier rotation in
      let parts' =
        parts chrono cipher cap room has_key encoder fuel positive enough disk identifier rotation z
          pub_key in
      let out : payload_len (bind (as_slice right memory)) ≡ 0 =
        ap payload_len (ap bind left_over.output ∙ bind-chunk_bytes m left_over.output_valid.layout)
        ∙ none_there in
      started-valid chrono cipher cap room has_key encoder fuel positive enough disk identifier
        rotation alpha now later z pub_key memory d k m left_over
      ∙ ap
          (λ st. (
            pinenut.Logger.on c aes has_key op' later pinenut.Logger.writeback (parts' st.1),
            st.0,
          ))
          (new_io-empty c fs identifier rotation d memory out)
      ∙ ap (λ core. (core, first_io c fs identifier rotation d))
          (writeback-empty c aes has_key op' alpha later (parts' memory) k left_over.input none_yet)

  -- The chunk that a batch hands over, its frame, the key of the chunk that was left and that of the start.
  pub record StaleKey (frame old_key new_key : List ℕ) (after : Core CCtx) : Type 0 where
    pub sent : Chunk
    pub output : as_slice right after.memory ≡ chunk_bytes sent
    pub payload : contents sent ≡ sealed_by cipher cap has_key frame
    pub stale : sent.header.pub_key ≡ old_key
    pub current : after.pub_key ≡ new_key
    pub events : after.events ≡ write_chunk ∷ []

  -- A chunk that was left empty by a shutdown keeps the key of that process: what is logged to it after the
  -- next start, before a rotation is due, is encrypted with the key agreed on at that start and goes to the
  -- other thread under the public key that the chunk had before, whatever the public key of the start is.
  -- The left-over chunks are valid and empty, and the batch is one that fits in the chunk.
  pub new_core-StaleKey :
      (alpha : Side) (now later flushed : c.DateTime) (z : CCtx) (pub_key : Option (List ℕ))
      (memory : List ℕ) (d : D) (k m : Chunk) (rs : List (Record c))
      → LeftOver alpha k m memory
      → payload_len k ≡ 0
      → payload_len m ≡ 0
      → (ready : Holds z [] []) → length (context_key pub_key) ≡ 33
      → (valid : All (IsRecord c) rs)
      → All (λ r. check_match c rotation (start_datetime c k.header) r.meta.datetime ≡ true) rs
      → 0
        < length (
            sealed_by cipher cap has_key (
              frame_of chrono cipher cap room has_key encoder fuel encoder_buffer_len positive
                enough flushed rs z valid ready))
      → 5
          * length (
              sealed_by cipher cap has_key (
                frame_of chrono cipher cap room has_key encoder fuel encoder_buffer_len positive
                  enough flushed rs z valid ready))
        < 4 * capacity k
      → StaleKey
          (frame_of chrono cipher cap room has_key encoder fuel encoder_buffer_len positive enough
            flushed rs z valid ready)
          k.header.pub_key
          (context_key pub_key)
          (batch chrono cipher cap room has_key encoder fuel encoder_buffer_len positive enough
            flushed rs
            (started chrono cipher cap room has_key encoder fuel positive enough disk identifier
              rotation now later z pub_key memory d).0)
  unfolding payload_len new_parts unbind
  new_core-StaleKey alpha now later flushed z pub_key memory d k m rs left_over none_yet none_there
        ready key valid matches pos small =
      let op' =
        op chrono cipher cap room has_key encoder fuel positive enough disk identifier rotation in
      let core = unbind c aes has_key op' (
        parts chrono cipher cap room has_key encoder fuel positive enough disk identifier rotation z
            pub_key memory,
        k,
      ) in
      let back =
        write_slice-PutBack alpha k k memory left_over.input left_over.input_valid.layout refl in
      let on : On chrono cipher cap room has_key encoder fuel encoder_buffer_len positive enough
          alpha z [] k core =
        record {
          encoder_empty = refl;
          context = refl;
          handed =
              Handed-nil cipher cap has_key k left_over.input_valid
                (ap (λ n. take n k.payload) none_yet);
          side = back.holds;
        } in
      let f =
        (log_batch-from chrono cipher cap room has_key encoder fuel encoder_buffer_len positive
            enough flushed rs z [] [] valid ready).runs
          alpha core k on matches pos small key in
      subst (StaleKey _ k.header.pub_key (context_key pub_key))
        (sym (
          ap
            (λ start.
              batch chrono cipher cap room has_key encoder fuel encoder_buffer_len positive enough
                flushed rs start.0)
            (reused alpha now later z pub_key memory d k m left_over none_yet none_there)))
        (record {
          sent = f.sent;
          output = f.output;
          payload = f.payload;
          stale = ap (λ t. t.4) f.same.same_fixed;
          current = f.pub_key;
          events = f.events;
        })
