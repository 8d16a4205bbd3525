-- ===== src/Logger/Batch/Flush.antt =====
-- The flush that ends a chunk: it goes to the other thread, and the core logger is ready for another.
use pinenut.Prelude.{
  ℕ, ◌≤◌, ◌<◌, ◌≡◌, refl, sym, ap, subst, ◌∙◌, arith, List, [], ◌∷◌, ◌++◌, length, Bool, Fault,
  some,
}
use pinenut.Chrono.{Chrono, IsChrono}
use pinenut.Common.BytesBuf.{BytesBuf}
use pinenut.Encrypt.{Aes, IsAes}
use pinenut.Compress.{Zstd}
use pinenut.Compress.Frame.{Holding, IsEncoder}
use pinenut.Chunk.{Chunk, chunk_bytes, capacity, payload_len, initialize}
use pinenut.Chunk.Write.{IsChunk, contents, length-contents}
use pinenut.Chunk.Write.Initialize.{Fresh}
use pinenut.Buffer.{Side, right, as_slice, side_len}
use pinenut.Logger.{
  Core, Operation, rotate, write_chunk, process, run, bind_input, unbind, hand_over, switched,
  write_operation, rotate_if, input_if, on, flush_log,
}
use pinenut.Logger.Rotation.{hand_over-full}
use pinenut.Logger.Session.Encryptor.{Handed, Handed-nil, sealed_by, buffering, Same}
use pinenut.Logger.Session.Compressor.{IsEnough}
use pinenut.Logger.Session.{Closes}
use pinenut.Logger.Handover.{switched-Moved}
use pinenut.Logger.Batch.InputSide.{Input, Input-bind}
use pinenut.Logger.Batch.{empty, compress_op, Logging, run_lem, process_on}

module _ {c : Chrono} (chrono : IsChrono c) {aes : Aes} (cipher : IsAes aes) (cap : ℕ)
    (room : 32 ≤ cap) (has_key : Bool) {zstd : Zstd} {holding : Holding zstd}
    (encoder : IsEncoder holding) (fuel len : ℕ) (positive : 0 < len)
    (enough : IsEnough chrono cipher cap room has_key encoder fuel len) where
  open zstd use {CCtx}
  open holding use {IsFrame, Holds}

  abbrev op : pinenut.Logger.Compress CCtx (BytesBuf × Chunk) (Fault pinenut.Logger.LoggerError)
  op = compress_op chrono cipher cap room has_key encoder fuel len positive enough

  abbrev pub On : Side → CCtx → List ℕ → Chunk → Core CCtx → Type 0
  On = Logging chrono cipher cap room has_key encoder fuel len positive enough

  abbrev pub flushing : c.DateTime → Core CCtx → Core CCtx
  flushing = flush_log c aes has_key op

  -- The chunk that was bound is on the other side, and the input side has a fresh one.
  pub record Flushed (ends : List ℕ → List ℕ) (z : CCtx) (frame : List ℕ) (now : c.DateTime)
      (k : Chunk) (before after : Core CCtx) : Type 0 where
    pub alpha : Side
    pub sent : Chunk
    pub valid : IsChunk sent
    pub payload : contents sent ≡ sealed_by cipher cap has_key frame
    pub same : Same cipher cap k sent
    pub ended : sent.header.end_ ≡ ends k.header.end_
    pub output : as_slice right after.memory ≡ chunk_bytes sent
    pub size : length (chunk_bytes sent) ≡ side_len after.memory
    pub fresh : Chunk
    pub is_fresh : Fresh chrono now before.pub_key (capacity k) fresh
    pub logging_on : On alpha z [] fresh after
    pub events : after.events ≡ before.events ++ (write_chunk ∷ [])
    pub errors : after.errors ≡ before.errors
    pub pub_key : after.pub_key ≡ before.pub_key
    pub rotation : after.rotation ≡ before.rotation

  flush-run :
      (alpha : Side) (now : c.DateTime) (core : Core CCtx) (k : Chunk)
      → Input alpha k core.memory
      → flushing now core
        ≡ unbind c aes has_key op (rotate_if c aes has_key op now rotate (some rotate) (core, k))
  unfolding flush_log on bind_input write_operation input_if
  flush-run alpha now core k side = rw (Input-bind alpha k core.memory side) refl

  -- A chunk that was processed is handed over, and another is initialized.
  next_chunk :
      (alpha : Side) (now : c.DateTime) (core : Core CCtx) (k sent : Chunk) (z : CCtx)
      (frame : List ℕ)
      → Input alpha k core.memory
      → core.encoder ≡ empty chrono cipher cap room has_key encoder fuel len positive enough
      → core.compressor ≡ z
      → core.encryptor ≡ buffering cipher cap []
      → IsChunk sent
      → contents sent ≡ sealed_by cipher cap has_key frame
      → Same cipher cap k sent
      → sent.header.end_ ≡ k.header.end_
      → 0 < payload_len sent
      → length core.pub_key ≡ 33
      → (let x = switched c aes has_key op (unbind c aes has_key op (core, sent)) in
          Flushed
            (λ e. e)
            z
            frame
            now
            k
            core
            (unbind c aes has_key op (x.0, initialize c now core.pub_key x.1)))
  unfolding unbind switched
  next_chunk alpha now core k sent z frame side e1 e2 e3 valid payload same ended pos key =
      let m =
        switched-Moved chrono aes has_key op alpha now core k sent side valid same.same_capacity pos
          key in
      record {
        alpha = m.alpha;
        sent = sent;
        valid = valid;
        payload = payload;
        same = same;
        ended = ended;
        output = m.output;
        size = m.size;
        fresh = m.fresh;
        is_fresh =
            subst (λ n. Fresh chrono now core.pub_key n m.fresh) same.same_capacity m.is_fresh;
        logging_on = record {
          encoder_empty = e1;
          context = e2;
          handed =
              subst (λ e. Handed cipher cap has_key [] (e, m.fresh)) (sym e3)
                (Handed-nil cipher cap has_key m.fresh m.is_fresh.valid m.is_fresh.empty);
          side = m.side;
        };
        events = refl;
        errors = refl;
        pub_key = refl;
        rotation = refl;
      }

  -- The states of the processor before do not matter.
  processed :
      (core : Core CCtx) (b e : BytesBuf) (z z' : CCtx) (frame : List ℕ) (now : c.DateTime)
      (k : Chunk) (after : Core CCtx)
      → Flushed
          (λ e. e)
          z
          frame
          now
          k
          (record core { encoder = b; compressor = z'; encryptor = e })
          after
      → Flushed (λ e. e) z frame now k core after
  processed core b e z z' frame now k after f = record {
    alpha = f.alpha;
    sent = f.sent;
    valid = f.valid;
    payload = f.payload;
    same = f.same;
    ended = f.ended;
    output = f.output;
    size = f.size;
    fresh = f.fresh;
    is_fresh = f.is_fresh;
    logging_on = f.logging_on;
    events = f.events;
    errors = f.errors;
    pub_key = f.pub_key;
    rotation = f.rotation;
  }

  handed_on :
      (now : c.DateTime) (core core' : Core CCtx) (k sent : Chunk)
      → run c aes has_key op rotate (core, k) ≡ (core', sent)
      → 0 < payload_len sent
      → core'.pub_key ≡ core.pub_key
      → rotate_if c aes has_key op now rotate (some rotate) (core, k) ≡ (
          let x = switched c aes has_key op (unbind c aes has_key op (core', sent)) in
          (x.0, initialize c now core'.pub_key x.1))
  unfolding rotate_if switched unbind
  handed_on now core core' k sent ran pos key =
      rw (ran, hand_over-full c aes has_key op core' sent pos) refl

  -- The flush of a chunk that is being logged to, with room for what the processor still puts out.
  pub flush_log-Flushed :
      (alpha : Side) (now : c.DateTime) (core : Core CCtx) (z : CCtx) (plain out : List ℕ)
      (k : Chunk)
      (f : Closes chrono cipher cap room has_key encoder fuel len positive enough z plain out [])
      → On alpha z out k core
      → 0 < length (sealed_by cipher cap has_key f.frame)
      → length (sealed_by cipher cap has_key f.frame) ≤ capacity k
      → length core.pub_key ≡ 33
      → Flushed (λ e. e) f.after f.frame now k core (flushing now core)
  flush_log-Flushed alpha now core z plain out k f l pos fits key =
      let ((e', sent), returns, s) = f.runs (core.encryptor, k) l.handed fits in
      let ran =
        run_lem chrono cipher cap room has_key encoder fuel len positive enough rotate core k
          (empty chrono cipher cap room has_key encoder fuel len positive enough) f.after (e', sent)
          (process_on chrono cipher cap room has_key encoder fuel len positive enough rotate core k
              z l.encoder_empty l.context
            ∙ returns) in
      let core' : Core CCtx = record core {
        encoder = empty chrono cipher cap room has_key encoder fuel len positive enough;
        compressor = f.after;
        encryptor = e';
      } in
      let some_bytes : 0 < payload_len sent =
        omega (arith, length-contents sent s.valid.within, ap length s.payload) in
      let next =
        next_chunk alpha now core' k sent f.after f.frame l.side refl refl s.buffer s.valid
          s.payload s.same s.ended some_bytes key in
      processed core _ e' f.after f.after f.frame now k (flushing now core) (
        subst (Flushed (λ e. e) f.after f.frame now k core')
          (sym (
            flush-run alpha now core k l.side
            ∙ ap (unbind c aes has_key op) (handed_on now core core' k sent ran some_bytes refl)))
          next)
