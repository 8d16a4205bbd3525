-- ===== src/Logger/Batch/Lost.antt =====
-- A batch that is flushed before the other thread has handled the event of the one before it.
use pinenut.Prelude.{
  ℕ, ◌*◌, ◌<◌, ◌≤◌, ◌≡◌, refl, sym, ap, subst, ◌∙◌, arith, List, [], ◌∷◌, ◌++◌, append_assoc,
  length, All, Bool, true,
}
use pinenut.Chrono.{Chrono, IsChrono, unwrap_or_default}
use pinenut.Record.{Record}
use pinenut.Codec.Values.{IsRecord}
use pinenut.Encrypt.{Aes, IsAes}
use pinenut.Compress.{Zstd}
use pinenut.Compress.Frame.{Holding, IsEncoder}
use pinenut.Chunk.{Chunk, bind, capacity, payload_len, header_bytes, start_datetime}
use pinenut.Chunk.Write.{contents, length-contents}
use pinenut.Chunk.Write.Initialize.{Fresh}
use pinenut.Buffer.{right, as_slice}
use pinenut.Parse.Split.{stream}
use pinenut.TimeDimension.{TimeDimension, check_match}
use pinenut.Logger.{Core, write_chunk}
use pinenut.Logger.Session.Stored.{end_after}
use pinenut.Logger.Session.Encryptor.{sealed_by}
use pinenut.Logger.Session.Compressor.{IsEnough}
use pinenut.Logger.Batch.Sent.{FlushedAs, Matching, log_batch-from}
use pinenut.Logger.Batch.Arrives.{IsIdle, frame_of, batch}
use pinenut.Logger.Io.{Io, logfile_for, io_write_chunk}
use pinenut.Logger.Io.Written.{io_write_chunk-WrittenOut}
use pinenut.Logger.Io.Delivered.{HasWritable, Appended, logfile_for-IsWritable, write_to-Appended}
use pinenut.Logfile.Files.{FileSystem}
use pinenut.Logfile.Files.Disk.{IsDisk}

-- An event that finds nothing in its side of the buffer.
io_write_chunk-nothing :
    (c : Chrono) {F D : Type 0} (fs : FileSystem F D) (identifier : List ℕ)
    (rotation : TimeDimension) (st : Io c F D × List ℕ)
    → payload_len (bind (as_slice right st.1)) ≡ 0
    → io_write_chunk c fs identifier rotation st ≡ st
unfolding io_write_chunk
io_write_chunk-nothing c fs identifier rotation st e = rw e refl

module _ {c : Chrono} (chrono : IsChrono c) {aes : Aes} (cipher : IsAes aes) (cap : ℕ)
    (room : 32 ≤ cap) (has_key : Bool) {zstd : Zstd} {holding : Holding zstd}
    (encoder : IsEncoder holding) (fuel len : ℕ) (positive : 0 < len)
    (enough : IsEnough chrono cipher cap room has_key encoder fuel len) where
  open zstd use {CCtx}
  open holding use {Holds}

  abbrev Idle : CCtx → Chunk → Core CCtx → Type 0
  Idle = IsIdle chrono cipher cap room has_key encoder fuel len positive enough

  abbrev frame_at :
      (now : c.DateTime) (rs : List (Record c)) (z : CCtx)
      → All (IsRecord c) rs
      → Holds z [] []
      → List ℕ
  frame_at = frame_of chrono cipher cap room has_key encoder fuel len positive enough

  abbrev sealed : List ℕ → List ℕ
  sealed = sealed_by cipher cap has_key

  abbrev Flushes :
      (List ℕ → List ℕ) → CCtx → List ℕ → c.DateTime → Chunk → Core CCtx → Core CCtx → Type 0
  Flushes = FlushedAs chrono cipher cap room has_key encoder fuel len positive enough

  abbrev logged : c.DateTime → List (Record c) → Core CCtx → Core CCtx
  logged = batch chrono cipher cap room has_key encoder fuel len positive enough

  -- The second batch starts with the compressor as the first has left it.
  abbrev pub frame_after :
      (now now' : c.DateTime) (rs rs' : List (Record c)) (z : CCtx)
      → All (IsRecord c) rs
      → All (IsRecord c) rs'
      → Holds z [] []
      → List ℕ
  frame_after now now' rs rs' z valid valid' ready =
      let b =
        log_batch-from chrono cipher cap room has_key encoder fuel len positive enough now rs z []
          [] valid ready in
      frame_at now' rs' b.after valid' b.ready

  module _ {F D : Type 0} {fs : FileSystem F D} {content : D → List ℕ → List ℕ}
      {name_of : F → List ℕ} (disk : IsDisk fs content name_of) (identifier : List ℕ)
      (rotation : TimeDimension) where
    abbrev handled : Io c F D × List ℕ → Io c F D × List ℕ
    handled = io_write_chunk c fs identifier rotation

    -- Two events were sent, and the files have the second batch alone.
    pub record Lost (now' : c.DateTime) (frame : List ℕ) (rs' : List (Record c)) (io : Io c F D)
        (core after : Core CCtx) (io_after : Io c F D × List ℕ) : Type 0 where
      pub framed : holding.IsFrame frame (stream c rs')
      pub events : after.events ≡ core.events ++ (write_chunk ∷ write_chunk ∷ [])
      pub errors : after.errors ≡ core.errors
      pub sent : Chunk
      pub payload : contents sent ≡ sealed frame
      pub stored :
          Appended c disk identifier rotation io
            (header_bytes sent.header ++ contents sent)
            io_after.0
      pub nothing_left : payload_len (bind (as_slice right io_after.1)) ≡ 0
      pub context : CCtx
      pub chunk : Chunk
      pub idle : Idle context chunk (record after { memory = io_after.1 })
      pub begun : idle.start ≡ now'

    -- The first event finds the second chunk, and the second event nothing.
    Flushed-Lost :
        (now now' : c.DateTime) (ends ends' : List ℕ → List ℕ) (z z' : CCtx) (frame frame' : List ℕ)
        (rs' : List (Record c)) (k : Chunk) (core mid after : Core CCtx) (io : Io c F D)
        → holding.IsFrame frame' (stream c rs')
        → Holds z' [] []
        → length core.pub_key ≡ 33
        → 0 < length (sealed frame')
        → HasWritable c disk identifier rotation io.logfile
        → (f : Flushes ends z frame now k core mid) → Flushes ends' z' frame' now' f.fresh mid after
        → Lost now' frame' rs' io core after (handled (handled (io, after.memory)))
    Flushed-Lost now now' ends ends' z z' frame frame' rs' k core mid after io framed ready key_len
          pos can_write f g =
        let w =
          io_write_chunk-WrittenOut c fs identifier rotation g.alpha io after.memory g.sent
            g.logging_on.side.valid g.valid g.output g.size
            (omega (arith, length-contents g.sent g.valid.within, ap length g.payload)) in
        let key = g.pub_key ∙ f.pub_key in
        subst (Lost now' frame' rs' io core after)
          (sym
            (io_write_chunk-nothing c fs identifier rotation (handled (io, after.memory)) w.empty))
          (record {
            framed = framed;
            events =
                g.events
                ∙ ap (λ e. e ++ (write_chunk ∷ [])) f.events
                ∙ append_assoc core.events (write_chunk ∷ []) (write_chunk ∷ []);
            errors = g.errors ∙ f.errors;
            sent = g.sent;
            payload = g.payload;
            stored =
                subst
                  (Appended c disk identifier rotation io
                    (header_bytes g.sent.header ++ contents g.sent))
                  (sym w.file)
                  (write_to-Appended c disk identifier rotation
                    (logfile_for c fs identifier rotation io.logfile g.sent) _ io
                    (logfile_for-IsWritable c disk identifier rotation io.logfile g.sent
                      can_write));
            nothing_left = w.empty;
            context = z';
            chunk = g.fresh;
            idle = record {
              alpha = w.alpha;
              start = now';
              ready = ready;
              on = record {
                encoder_empty = g.logging_on.encoder_empty;
                context = g.logging_on.context;
                handed = g.logging_on.handed;
                side = record {
                  valid = w.valid;
                  layout = g.logging_on.side.layout;
                  input = w.untouched ∙ g.logging_on.side.input;
                };
              };
              fresh =
                  subst (λ key. Fresh chrono now' key (capacity g.fresh) g.fresh) (sym g.pub_key)
                    (subst (λ n. Fresh chrono now' mid.pub_key n g.fresh)
                      (sym g.is_fresh.same_capacity) g.is_fresh);
              pub_key_len = ap length key ∙ key_len;
            };
            begun = refl;
          })

    -- Two flushes with no event handled between them lose the first batch: when records are logged and
    -- flushed, and others are logged and flushed before the other thread handles the event, and that
    -- thread then handles both events, one log file has one chunk more, whose payload is one frame of the
    -- records of the second batch, and no other file changes. There is no error on either thread, the
    -- side of the thread that writes files has nothing left to be written, and the other side is a fresh
    -- chunk that starts at the second flush. The core logger is ready for a batch before, no record calls
    -- for a rotation, both frames are not empty and fill less than four fifths of the chunk, the log file
    -- can be written to and the disk does not fail, and the libraries behave as they document.
    pub log_batch-Lost :
        (now now' : c.DateTime) (rs rs' : List (Record c)) (z : CCtx) (k : Chunk) (core : Core CCtx)
        (io : Io c F D)
        → (valid : All (IsRecord c) rs) → (valid' : All (IsRecord c) rs') → (idle : Idle z k core)
        → Matching chrono cipher cap room has_key encoder fuel len positive enough core k rs
        → All
            (λ r.
              check_match c core.rotation
                (unwrap_or_default c.default (c.from_timestamp (c.timestamp now) 0))
                r.meta.datetime
              ≡ true)
            rs'
        → 0 < length (sealed (frame_at now rs z valid idle.ready))
        → 5 * length (sealed (frame_at now rs z valid idle.ready)) < 4 * capacity k
        → 0 < length (sealed (frame_after now now' rs rs' z valid valid' idle.ready))
        → 5 * length (sealed (frame_after now now' rs rs' z valid valid' idle.ready))
          < 4 * capacity k
        → HasWritable c disk identifier rotation io.logfile
        → Lost now'
            (frame_after now now' rs rs' z valid valid' idle.ready)
            rs'
            io
            core
            (logged now' rs' (logged now rs core))
            (handled (handled (io, (logged now' rs' (logged now rs core)).memory)))
    log_batch-Lost now now' rs rs' z k core io valid valid' idle matches matches' pos small pos'
          small' can_write =
        let one =
          log_batch-from chrono cipher cap room has_key encoder fuel len positive enough now rs z []
            [] valid idle.ready in
        let f = one.runs idle.alpha core k idle.on matches pos small idle.pub_key_len in
        let two =
          log_batch-from chrono cipher cap room has_key encoder fuel len positive enough now' rs'
            one.after [] [] valid' one.ready in
        let in_time =
          subst
            (λ t.
              All (λ r. check_match c t (start_datetime c f.fresh.header) r.meta.datetime ≡ true)
                rs')
            (sym f.rotation)
            (subst (λ t. All (λ r. check_match c core.rotation t r.meta.datetime ≡ true) rs')
              (sym f.is_fresh.start) matches') in
        let g =
          two.runs f.alpha (logged now rs core) f.fresh f.logging_on in_time pos'
            (omega (arith, f.is_fresh.same_capacity)) (ap length f.pub_key ∙ idle.pub_key_len) in
        Flushed-Lost now now' (end_after c rs) (end_after c rs') one.after two.after one.frame
          two.frame rs' k core (logged now rs core) (logged now' rs' (logged now rs core)) io
          two.framed two.ready idle.pub_key_len pos' can_write f g
