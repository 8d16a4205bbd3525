-- ===== src/Logger/Start/Restart.antt =====
-- The core logger that is started on a buffer with a chunk on each side.
use pinenut.Prelude.{
  ℕ, ◌<◌, ◌≤◌, ◌≡◌, refl, sym, ap, subst, ◌∙◌, arith, List, [], ◌∷◌, ◌++◌, length, Bool, true,
  Option, Bool-cases, ◌==◌, inl, inr,
}
use pinenut.Chrono.{Chrono, IsChrono}
use pinenut.Common.BytesBuf
use pinenut.Encrypt.{Aes, IsAes}
use pinenut.Compress.{Zstd}
use pinenut.Compress.Frame.{Holding, IsEncoder}
use pinenut.Chunk.{Chunk, bind, chunk_bytes, payload_len, header_bytes, validate}
use pinenut.Chunk.Layout.{bind-chunk_bytes}
use pinenut.Chunk.Write.{IsChunk, contents, validate-IsChunk}
use pinenut.Buffer.{Side, left, right, as_slice, side_len}
use pinenut.Buffer.Sides.{IsBuffer}
use pinenut.TimeDimension.{TimeDimension}
use pinenut.Logfile.Files.{FileSystem}
use pinenut.Logfile.Files.Disk.{IsDisk}
use pinenut.Logger.{Core, write_chunk, writeback, on, unbind, switched}
use pinenut.Logger.Session.Encryptor.{buffering}
use pinenut.Logger.Session.Compressor.{IsEnough}
use pinenut.Logger.Batch.{compress_op}
use pinenut.Logger.Batch.InputSide.{Input}
use pinenut.Logger.Io.{Io, logfile_for, io_write_chunk, new_io}
use pinenut.Logger.Io.Written.{io_write_chunk-WrittenOut}
use pinenut.Logger.Io.Delivered.{HasWritable, Appended, logfile_for-IsWritable, write_to-Appended}
use pinenut.Logger.Start.{encoder_buffer_len, context_key, new_parts, new_core}
use pinenut.Logger.Start.Opening.{initialize_sides-valid, first_io, new_io-empty, new_io-full}

module _ (c : Chrono) {F D : Type 0} {fs : FileSystem F D} {content : D → List ℕ → List ℕ}
    {name_of : F → List ℕ} (disk : IsDisk fs content name_of) (identifier : List ℕ)
    (rotation : TimeDimension) where
  -- A chunk with bytes in it is stored.
  pub data Emptied (m : Chunk) (before : Io c F D) : Io c F D → Type 0 where
    nothing : payload_len m ≡ 0 → Emptied m before before
    stores :
        {after : Io c F D}
        → Appended c disk identifier rotation before (header_bytes m.header ++ contents m) after
        → Emptied m before after

  pub record WrittenChunk (io : Io c F D) (memory : List ℕ) (k : Chunk) (after : Io c F D × List ℕ)
      : Type 0 where
    pub alpha : Side
    pub valid : IsBuffer alpha after.1
    pub untouched : as_slice left after.1 ≡ as_slice left memory
    pub stored :
        Appended c disk identifier rotation io (header_bytes k.header ++ contents k) after.0

  pub io_write_chunk-WrittenChunk :
      (alpha : Side) (io : Io c F D) (memory : List ℕ) (k : Chunk)
      → HasWritable c disk identifier rotation io.logfile
      → IsBuffer alpha memory
      → IsChunk k
      → as_slice right memory ≡ chunk_bytes k
      → length (chunk_bytes k) ≡ side_len memory
      → 0 < payload_len k
      → WrittenChunk io memory k (io_write_chunk c fs identifier rotation (io, memory))
  io_write_chunk-WrittenChunk alpha io memory k can_write valid is_chunk at size pos =
      let w =
        io_write_chunk-WrittenOut c fs identifier rotation alpha io memory k valid is_chunk at size
          pos in
      record {
        alpha = w.alpha;
        valid = w.valid;
        untouched = w.untouched;
        stored =
            subst (Appended c disk identifier rotation io (header_bytes k.header ++ contents k))
              (sym w.file)
              (write_to-Appended c disk identifier rotation
                (logfile_for c fs identifier rotation io.logfile k) _ io
                (logfile_for-IsWritable c disk identifier rotation io.logfile k can_write));
      }

  pub record Opened (d : D) (memory : List ℕ) (m : Chunk) (after : Io c F D × List ℕ) : Type 0 where
    pub alpha : Side
    pub valid : IsBuffer alpha after.1
    pub untouched : as_slice left after.1 ≡ as_slice left memory
    pub emptied : Emptied m (first_io c fs identifier rotation d) after.0
    pub no_errors : after.0.errors ≡ []
    pub can_write : HasWritable c disk identifier rotation after.0.logfile

  pub new_io-Opened :
      (alpha : Side) (d : D) (memory : List ℕ) (m : Chunk)
      → IsBuffer alpha memory
      → IsChunk m
      → as_slice right memory ≡ chunk_bytes m
      → length (chunk_bytes m) ≡ side_len memory
      → Opened d memory m (new_io c fs identifier rotation d memory)
  new_io-Opened alpha d memory m valid is_chunk at size =
      let bound : payload_len (bind (as_slice right memory)) ≡ payload_len m =
        ap payload_len (ap bind at ∙ bind-chunk_bytes m is_chunk.layout) in
      elim (Bool-cases (payload_len m == 0)) [
        | inl e ↦
            let none_yet : payload_len m ≡ 0 = ground arith in
            subst (Opened d memory m)
              (sym (new_io-empty c fs identifier rotation d memory (bound ∙ none_yet)))
              (record {
                alpha = alpha;
                valid = valid;
                untouched = refl;
                emptied = nothing none_yet;
                no_errors = refl;
                can_write = tt;
              })
        | inr e ↦
            let pos : 0 < payload_len m = ground arith in
            let w =
              io_write_chunk-WrittenChunk alpha (first_io c fs identifier rotation d) memory m tt
                valid is_chunk at size pos in
            subst (Opened d memory m)
              (sym (new_io-full c fs identifier rotation d memory (omega (arith, bound))))
              (record {
                alpha = w.alpha;
                valid = w.valid;
                untouched = w.untouched;
                emptied = stores w.stored;
                no_errors = w.stored.no_errors;
                can_write = w.stored.writable;
              })
      ]

-- A buffer that is valid, with a chunk on each side.
pub record LeftOver (alpha : Side) (k m : Chunk) (memory : List ℕ) : Type 0 where
  pub input : Input alpha k memory
  pub output : as_slice right memory ≡ chunk_bytes m
  pub size : length (chunk_bytes m) ≡ side_len memory
  pub input_valid : IsChunk k
  pub output_valid : IsChunk m

module _ {c : Chrono} (chrono : IsChrono c) {aes : Aes} (cipher : IsAes aes) (cap : ℕ)
    (room : 32 ≤ cap) (has_key : Bool) {zstd : Zstd} {holding : Holding zstd}
    (encoder : IsEncoder holding) (fuel : ℕ) (positive : 0 < encoder_buffer_len)
    (enough : IsEnough chrono cipher cap room has_key encoder fuel encoder_buffer_len)
    {F D : Type 0} {fs : FileSystem F D} {content : D → List ℕ → List ℕ} {name_of : F → List ℕ}
    (disk : IsDisk fs content name_of) (identifier : List ℕ) (rotation : TimeDimension) where
  open zstd use {CCtx}
  open holding use {IsFrame, Holds}

  abbrev pub op :
      pinenut.Logger.Compress CCtx
        (BytesBuf.BytesBuf × Chunk)
        (pinenut.Prelude.Fault pinenut.Logger.LoggerError)
  op = compress_op chrono cipher cap room has_key encoder fuel encoder_buffer_len positive enough

  -- `Core::new` with a new compressor and encryptor.
  abbrev pub started :
      c.DateTime → c.DateTime → CCtx → Option (List ℕ) → List ℕ → D → Core CCtx × Io c F D
  started now later z pub_key memory d =
      new_core c aes has_key op fs identifier rotation now later z (buffering cipher cap []) pub_key
        memory d

  abbrev pub parts : CCtx → Option (List ℕ) → List ℕ → Core CCtx
  parts z pub_key memory =
      new_parts c aes has_key op fs identifier rotation z (buffering cipher cap []) pub_key memory

  pub started-valid :
      (alpha : Side) (now later : c.DateTime) (z : CCtx) (pub_key : Option (List ℕ))
      (memory : List ℕ) (d : D) (k m : Chunk)
      → LeftOver alpha k m memory
      → started now later z pub_key memory d ≡ (
          let st = new_io c fs identifier rotation d memory in
          (on c aes has_key op later writeback (parts z pub_key st.1), st.0))
  unfolding new_core
  started-valid alpha now later z pub_key memory d k m left_over =
      ap
        (λ mem.
          let st = new_io c fs identifier rotation d mem in
          (on c aes has_key op later writeback (parts z pub_key st.1), st.0))
        (initialize_sides-valid c aes has_key op alpha now (context_key pub_key) memory
          left_over.input.valid
          (ap validate
              (ap bind left_over.input.input ∙ bind-chunk_bytes k left_over.input_valid.layout)
            ∙ validate-IsChunk k left_over.input_valid)
          (ap validate (ap bind left_over.output ∙ bind-chunk_bytes m left_over.output_valid.layout)
            ∙ validate-IsChunk m left_over.output_valid))
