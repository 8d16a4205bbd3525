-- ===== src/Logger/Batch/Arrives.antt =====
-- A batch through both threads, to the log file.
use pinenut.Prelude.{
  ℕ, ◌*◌, ◌≤◌, ◌<◌, ◌≡◌, refl, sym, ap, subst, ◌∙◌, arith, List, [], ◌∷◌, ◌++◌, length, All, Bool,
  false,
}
use pinenut.Chrono.{Chrono, IsChrono}
use pinenut.Record.{Record}
use pinenut.Codec.Values.{IsRecord}
use pinenut.Encrypt.{Aes, IsAes}
use pinenut.Compress.{Zstd}
use pinenut.Compress.Frame.{Holding, IsEncoder}
use pinenut.Chunk.{Chunk, capacity, payload_len, header_bytes, header_version, format_version}
use pinenut.Chunk.Write.{IsChunk, contents, length-contents}
use pinenut.Chunk.Write.Initialize.{Fresh}
use pinenut.Buffer.{Side}
use pinenut.Parse.Split.{stream}
use pinenut.TimeDimension.{TimeDimension}
use pinenut.Logger.{Core, write_chunk}
use pinenut.Logger.Session.Stored.{fixed, end_after}
use pinenut.Logger.Session.Encryptor.{sealed_by}
use pinenut.Logger.Session.Compressor.{IsEnough}
use pinenut.Logger.Batch.Flush.{On}
use pinenut.Logger.Batch.Sent.{log_batch, Matching, log_batch-from}
use pinenut.Logger.Io.{Io, logfile_for, io_write_chunk}
use pinenut.Logger.Io.Written.{io_write_chunk-WrittenOut}
use pinenut.Logger.Io.Delivered.{HasWritable, Appended, logfile_for-IsWritable, write_to-Appended}
use pinenut.Logfile.Files.{FileSystem}
use pinenut.Logfile.Files.Disk.{IsDisk}

module _ {c : Chrono} (chrono : IsChrono c) {aes : Aes} (cipher : IsAes aes) (cap : ℕ)
    (room : 32 ≤ cap) (has_key : Bool) {zstd : Zstd} {holding : Holding zstd}
    (encoder : IsEncoder holding) (fuel len : ℕ) (positive : 0 < len)
    (enough : IsEnough chrono cipher cap room has_key encoder fuel len) where
  open zstd use {CCtx}
  open holding use {IsFrame, Holds}

  -- The core logger between two batches, with a chunk of `size` bytes that starts at `start`.
  pub record IsIdle (z : CCtx) (k : Chunk) (core : Core CCtx) : Type 0 where
    pub alpha : Side
    pub start : c.DateTime
    pub ready : Holds z [] []
    pub on : On chrono cipher cap room has_key encoder fuel len positive enough alpha z [] k core
    pub fresh : Fresh chrono start core.pub_key (capacity k) k
    pub pub_key_len : length core.pub_key ≡ 33

  -- The frame that a batch makes does not depend on the chunk or on the time of the flush.
  abbrev pub frame_of :
      (now : c.DateTime) (rs : List (Record c)) (z : CCtx)
      → All (IsRecord c) rs
      → Holds z [] []
      → List ℕ
  frame_of now rs z valid ready =
      (log_batch-from chrono cipher cap room has_key encoder fuel len positive enough now rs z [] []
        valid ready).frame

  abbrev pub batch : c.DateTime → List (Record c) → Core CCtx → Core CCtx
  batch = log_batch chrono cipher cap room has_key encoder fuel len positive enough

  module _ {F D : Type 0} {fs : FileSystem F D} {content : D → List ℕ → List ℕ}
      {name_of : F → List ℕ} (disk : IsDisk fs content name_of) (identifier : List ℕ)
      (rotation : TimeDimension) where
    -- One file has a chunk more, whose payload is the sealed frame.
    pub record Arrives (now : c.DateTime) (frame : List ℕ) (rs : List (Record c)) (io : Io c F D)
        (k : Chunk) (core : Core CCtx) (after : Core CCtx) (io_after : Io c F D × List ℕ)
        : Type 0 where
      pub framed : IsFrame frame (stream c rs)
      pub sent : Chunk
      pub valid : IsChunk sent
      pub payload : contents sent ≡ sealed_by cipher cap has_key frame
      pub same_header : fixed sent.header ≡ fixed k.header
      pub ended : sent.header.end_ ≡ end_after c rs k.header.end_
      pub full_length : payload_len sent ≡ length (contents sent)
      pub version : header_version sent.header ≡ format_version
      pub complete : sent.header.writeback ≡ false
      pub key : sent.header.pub_key ≡ core.pub_key
      pub stored :
          Appended c disk identifier rotation io
            (header_bytes sent.header ++ contents sent)
            io_after.0
      pub context : CCtx
      pub chunk : Chunk
      pub idle : IsIdle context chunk (record after { memory = io_after.1 })
      pub begun : idle.start ≡ now
      pub same_capacity : capacity chunk ≡ capacity k
      pub same_key : after.pub_key ≡ core.pub_key
      pub same_rotation : after.rotation ≡ core.rotation
      pub events : after.events ≡ core.events ++ (write_chunk ∷ [])
      pub errors : after.errors ≡ core.errors

    -- A batch reaches the log file: when records are logged one after the other and flushed, and the other
    -- thread handles the event, one log file has the bytes of one chunk more, whose header is that of the
    -- chunk that the records were logged to, but for the length, which is that of the payload, and the
    -- end, which is the time of the last record, and whose payload is one frame of the records in order,
    -- encrypted if there is a key; no other file changes and there is no error. Both threads are then ready
    -- for the next batch, in a fresh chunk of the same length that starts at the flush. The core logger is
    -- ready for a batch before, no record calls for a rotation, the frame is not empty and fills less than
    -- four fifths of the chunk, the log file can be written to and the disk does not fail, and the
    -- libraries behave as they document.
    pub log_batch-Arrives :
        (now : c.DateTime) (rs : List (Record c)) (z : CCtx) (k : Chunk) (core : Core CCtx)
        (io : Io c F D)
        → (valid : All (IsRecord c) rs) → (idle : IsIdle z k core)
        → Matching chrono cipher cap room has_key encoder fuel len positive enough core k rs
        → 0 < length (sealed_by cipher cap has_key (frame_of now rs z valid idle.ready))
        → 5 * length (sealed_by cipher cap has_key (frame_of now rs z valid idle.ready))
          < 4 * capacity k
        → HasWritable c disk identifier rotation io.logfile
        → Arrives now
            (frame_of now rs z valid idle.ready)
            rs
            io
            k
            core
            (batch now rs core)
            (io_write_chunk c fs identifier rotation (io, (batch now rs core).memory))
    unfolding header_version
    log_batch-Arrives now rs z k core io valid idle matches pos small can_write =
        let b =
          log_batch-from chrono cipher cap room has_key encoder fuel len positive enough now rs z []
            [] valid idle.ready in
        let f = b.runs idle.alpha core k idle.on matches pos small idle.pub_key_len in
        let after = batch now rs core in
        let w =
          io_write_chunk-WrittenOut c fs identifier rotation f.alpha io after.memory f.sent
            f.logging_on.side.valid f.valid f.output f.size
            (omega (arith, length-contents f.sent f.valid.within, ap length f.payload)) in
        record {
          framed = b.framed;
          sent = f.sent;
          valid = f.valid;
          payload = f.payload;
          same_header = f.same.same_fixed;
          ended = f.ended;
          full_length = sym (length-contents f.sent f.valid.within);
          version =
              ap (λ t. pinenut.Common.LittleEndian.from_le_bytes t.1) f.same.same_fixed
              ∙ idle.fresh.version;
          complete = ap (λ t. t.2) f.same.same_fixed ∙ idle.fresh.writeback;
          key = ap (λ t. t.4) f.same.same_fixed ∙ idle.fresh.key;
          stored =
              subst
                (Appended c disk identifier rotation io
                  (header_bytes f.sent.header ++ contents f.sent))
                (sym w.file)
                (write_to-Appended c disk identifier rotation
                  (logfile_for c fs identifier rotation io.logfile f.sent) _ io
                  (logfile_for-IsWritable c disk identifier rotation io.logfile f.sent can_write));
          context = b.after;
          chunk = f.fresh;
          idle = record {
            alpha = w.alpha;
            start = now;
            ready = b.ready;
            on = record {
              encoder_empty = f.logging_on.encoder_empty;
              context = f.logging_on.context;
              handed = f.logging_on.handed;
              side = record {
                valid = w.valid;
                layout = f.logging_on.side.layout;
                input = w.untouched ∙ f.logging_on.side.input;
              };
            };
            fresh =
                subst (λ key. Fresh chrono now key (capacity f.fresh) f.fresh) (sym f.pub_key)
                  (subst (λ n. Fresh chrono now core.pub_key n f.fresh)
                    (sym f.is_fresh.same_capacity) f.is_fresh);
            pub_key_len = ap length f.pub_key ∙ idle.pub_key_len;
          };
          begun = refl;
          same_capacity = f.is_fresh.same_capacity;
          same_key = f.pub_key;
          same_rotation = f.rotation;
          events = f.events;
          errors = f.errors;
        }
