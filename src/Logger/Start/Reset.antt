-- ===== src/Logger/Start/Reset.antt =====
-- The start on a memory that holds no valid buffer, or a chunk that is not valid.
use pinenut.Prelude.{
  ℕ, ◌-◌, ◌<◌, ◌^◌, ◌≤◌, ◌≡◌, refl, sym, ap, subst, ◌∙◌, List, [], length, Bool, false, ◌&&◌,
  Option,
}
use pinenut.Chrono.{Chrono, IsChrono}
use pinenut.Encrypt.{Aes, IsAes}
use pinenut.Compress.{Zstd}
use pinenut.Compress.Frame.{Holding, IsEncoder}
use pinenut.Chunk.{Chunk, bind, capacity, payload_len, validate}
use pinenut.Chunk.Layout.{bind-chunk_bytes}
use pinenut.Chunk.Write.{length-contents}
use pinenut.Chunk.Write.Initialize.{Fresh}
use pinenut.Buffer.{left, right, as_slice, side_len, initialize_buffer}
use pinenut.TimeDimension.{TimeDimension}
use pinenut.Logfile.Files.{FileSystem}
use pinenut.Logfile.Files.Disk.{IsDisk}
use pinenut.Logger.{Core, writeback, on, unbind, initialize_sides}
use pinenut.Logger.Session.Encryptor.{Handed-nil}
use pinenut.Logger.Session.Compressor.{IsEnough}
use pinenut.Logger.Batch.InputSide.{write_slice-PutBack}
use pinenut.Logger.Batch.Arrives.{IsIdle}
use pinenut.Logger.Io.{Io}
use pinenut.Logger.Start.{encoder_buffer_len, context_key, new_parts, new_core}
use pinenut.Logger.Start.Opening.{writeback-empty, first_io, new_io-empty}
use pinenut.Logger.Start.Restart.{op, started, parts}
use pinenut.Logger.Start.BothSides.{initialize_sides-BothFresh}

Fresh-none :
    {c : Chrono} {chrono : IsChrono c} {now : c.DateTime} {pub_key : List ℕ} {cap : ℕ} {k : Chunk}
    → Fresh chrono now pub_key cap k
    → payload_len k ≡ 0
Fresh-none {k = k} f = sym (length-contents k f.valid.within) ∙ ap length f.empty

module _ {c : Chrono} (chrono : IsChrono c) {aes : Aes} (cipher : IsAes aes) (cap : ℕ)
    (room : 32 ≤ cap) (has_key : Bool) {zstd : Zstd} {holding : Holding zstd}
    (encoder : IsEncoder holding) (fuel : ℕ) (positive : 0 < encoder_buffer_len)
    (enough : IsEnough chrono cipher cap room has_key encoder fuel encoder_buffer_len)
    {F D : Type 0} {fs : FileSystem F D} {content : D → List ℕ → List ℕ} {name_of : F → List ℕ}
    (disk : IsDisk fs content name_of) (identifier : List ℕ) (rotation : TimeDimension) where
  open zstd use {CCtx}
  open holding use {IsFrame, Holds}

  -- The core logger and the other thread's part as they start.
  pub record Reset (now : c.DateTime) (pub_key : List ℕ) (z : CCtx) (len : ℕ) (d : D)
      (start : Core CCtx × Io c F D) : Type 0 where
    pub chunk : Chunk
    pub idle :
        IsIdle chrono cipher cap room has_key encoder fuel encoder_buffer_len positive enough z
          chunk start.0
    pub begun : idle.start ≡ now
    pub same_capacity : capacity chunk ≡ len - 60
    pub output_empty : payload_len (bind (as_slice right start.0.memory)) ≡ 0
    pub events : start.0.events ≡ []
    pub errors : start.0.errors ≡ []
    pub key : start.0.pub_key ≡ pub_key
    pub same_rotation : start.0.rotation ≡ rotation
    pub io : start.1 ≡ first_io c fs identifier rotation d

  -- Whatever bytes are in the memory of the core logger when it starts, if after the initialization of the
  -- buffer's header the chunk on one side is not valid, then it starts ready for a batch, in a fresh chunk
  -- that fills its side behind the header and has the key of this start; the chunk on the other side is
  -- empty, no event is sent, nothing is written to the disk and there is no error. The memory has room for
  -- two headers of chunks, and for fewer than 2^32 bytes on a side.
  pub new_core-Reset :
      (now later : c.DateTime) (z : CCtx) (pub_key : Option (List ℕ)) (memory : List ℕ) (d : D)
      → (validate (bind (as_slice left (initialize_buffer memory)))
          && validate (bind (as_slice right (initialize_buffer memory))))
        ≡ false
      → 60 ≤ side_len memory
      → side_len memory < 2 ^ 32
      → Holds z [] []
      → length (context_key pub_key) ≡ 33
      → Reset now (context_key pub_key) z (side_len memory) d (
          started chrono cipher cap room has_key encoder fuel positive enough disk identifier
            rotation now later z pub_key memory d)
  unfolding new_core new_parts unbind
  new_core-Reset now later z pub_key memory d invalid large small ready key =
      let op' =
        op chrono cipher cap room has_key encoder fuel positive enough disk identifier rotation in
      let parts' =
        parts chrono cipher cap room has_key encoder fuel positive enough disk identifier rotation z
          pub_key in
      let mem = initialize_sides c aes has_key op' now (context_key pub_key) memory in
      let b =
        initialize_sides-BothFresh chrono aes has_key op' now (context_key pub_key) memory invalid
          key large small in
      let k = b.chunk in
      let out : payload_len (bind (as_slice right mem)) ≡ 0 =
        ap payload_len (ap bind b.output ∙ bind-chunk_bytes b.other b.other_fresh.valid.layout)
        ∙ Fresh-none b.other_fresh in
      let back = write_slice-PutBack b.alpha k k mem b.side b.is_fresh.valid.layout refl in
      subst (Reset now (context_key pub_key) z (side_len memory) d)
        (sym (
          ap (λ st. (on c aes has_key op' later writeback (parts' st.1), st.0))
            (new_io-empty c fs identifier rotation d mem out)
          ∙ ap (λ core. (core, first_io c fs identifier rotation d))
              (writeback-empty c aes has_key op' b.alpha later (parts' mem) k b.side
                (Fresh-none b.is_fresh))))
        (record {
          chunk = k;
          idle = record {
            alpha = b.alpha;
            start = now;
            ready = ready;
            on = record {
              encoder_empty = refl;
              context = refl;
              handed = Handed-nil cipher cap has_key k b.is_fresh.valid b.is_fresh.empty;
              side = back.holds;
            };
            fresh =
                subst (λ n. Fresh chrono now (context_key pub_key) n k)
                  (sym b.is_fresh.same_capacity) b.is_fresh;
            pub_key_len = key;
          };
          begun = refl;
          same_capacity = b.is_fresh.same_capacity;
          output_empty = ap (λ s. payload_len (bind s)) back.other ∙ out;
          events = refl;
          errors = refl;
          key = refl;
          same_rotation = refl;
          io = refl;
        })
