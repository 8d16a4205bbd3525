-- ===== src/Logger/Batch/Sent.antt =====
-- A batch: records that are logged into one chunk, and the flush that ends it.
use pinenut.Prelude.{
  ℕ, ◌*◌, ◌≤◌, ◌<◌, ◌≡◌, ap, subst, ◌∙◌, arith, List, [], ◌∷◌, ◌++◌, append_assoc, length,
  length-append, All, Bool, true,
}
use pinenut.Chrono.{Chrono, IsChrono}
use pinenut.Record.{Record}
use pinenut.Codec.Values.{IsRecord, record_bytes}
use pinenut.Encrypt.{Aes, IsAes}
use pinenut.Compress.{Zstd}
use pinenut.Compress.Frame.{Holding, IsEncoder}
use pinenut.Chunk.{Chunk, capacity, start_datetime}
use pinenut.Chunk.Write.Initialize.{Fresh}
use pinenut.Buffer.{Side}
use pinenut.Parse.Split.{stream}
use pinenut.TimeDimension.{check_match}
use pinenut.Logger.{Core}
use pinenut.Common.LittleEndian.{i64_to_le_bytes}
use pinenut.Logger.Session.Stored.{end_after}
use pinenut.Logger.Session.Encryptor.{sealed_by, Same, Same-then}
use pinenut.Logger.Session.Compressor.{IsEnough}
use pinenut.Logger.Session.{process-Logs, process-Closes, length-sealed_by}
use pinenut.Logger.Batch.{Steady, logging, log-LoggedOne, start-Same}
use pinenut.Logger.Batch.Flush.{On, flushing, Flushed, flush_log-Flushed}

module _ {c : Chrono} (chrono : IsChrono c) {aes : Aes} (cipher : IsAes aes) (cap : ℕ)
    (room : 32 ≤ cap) (has_key : Bool) {zstd : Zstd} {holding : Holding zstd}
    (encoder : IsEncoder holding) (fuel len : ℕ) (positive : 0 < len)
    (enough : IsEnough chrono cipher cap room has_key encoder fuel len) where
  open zstd use {CCtx}
  open holding use {IsFrame, Holds}

  -- `Logger::log` for each record, and `Logger::flush`.
  abbrev pub log_batch : c.DateTime → List (Record c) → Core CCtx → Core CCtx
  log_batch now [] core =
      flushing chrono cipher cap room has_key encoder fuel len positive enough now core
  log_batch now (r ∷ rs) core =
      log_batch now rs
        (logging chrono cipher cap room has_key encoder fuel len positive enough now r core)

  -- No record is of another moment, on the dimension of the chunks, than the chunk's start.
  abbrev pub Matching : Core CCtx → Chunk → List (Record c) → Type 0
  Matching core k =
      All (λ r. check_match c core.rotation (start_datetime c k.header) r.meta.datetime ≡ true)

  abbrev pub FlushedAs :
      (List ℕ → List ℕ) → CCtx → List ℕ → c.DateTime → Chunk → Core CCtx → Core CCtx → Type 0
  FlushedAs = Flushed chrono cipher cap room has_key encoder fuel len positive enough

  -- What was logged before the flush does not matter.
  Flushed-before :
      (ends : List ℕ → List ℕ) (one : List ℕ) (z : CCtx) (frame : List ℕ) (now : c.DateTime)
      (k k' : Chunk) (core core' after : Core CCtx)
      → Same cipher cap k k'
      → Steady chrono cipher cap room has_key encoder fuel len positive enough core core'
      → k'.header.end_ ≡ one
      → FlushedAs ends z frame now k' core' after
      → FlushedAs (λ _. ends one) z frame now k core after
  Flushed-before ends one z frame now k k' core core' after same steady ended f = record {
    alpha = f.alpha;
    sent = f.sent;
    valid = f.valid;
    payload = f.payload;
    same = Same-then cipher cap k k' f.sent same f.same;
    ended = f.ended ∙ ap ends ended;
    output = f.output;
    size = f.size;
    fresh = f.fresh;
    is_fresh =
        subst (λ n. Fresh chrono now core.pub_key n f.fresh) same.same_capacity
          (subst (λ key. Fresh chrono now key (capacity k') f.fresh) steady.pub_key f.is_fresh);
    logging_on = f.logging_on;
    events = f.events ∙ ap (λ e. e ++ (pinenut.Logger.write_chunk ∷ [])) steady.events;
    errors = f.errors ∙ steady.errors;
    pub_key = f.pub_key ∙ steady.pub_key;
    rotation = f.rotation ∙ steady.rotation;
  }

  Matching-before :
      (rs : List (Record c)) (k k' : Chunk) (core core' : Core CCtx)
      → Same cipher cap k k'
      → core'.rotation ≡ core.rotation
      → Matching core k rs
      → Matching core' k' rs
  Matching-before [] k k' core core' same e h = tt
  Matching-before (r ∷ rs) k k' core core' same e h = (
    (λ i.
          check_match c (e i)
            (start-Same chrono cipher cap room has_key encoder fuel len positive enough k k' same i)
            r.meta.datetime)
        ∙ h.0,
    Matching-before rs k k' core core' same e h.1,
  )

  -- The frame that a batch makes, and what becomes of the core logger if the chunk has room for it.
  pub record Makes (now : c.DateTime) (z : CCtx) (plain out : List ℕ) (rs : List (Record c))
      : Type 0 where
    pub after : CCtx
    pub frame : List ℕ
    pub framed : IsFrame frame (plain ++ stream c rs)
    pub ready : Holds after [] []
    pub longer : length out ≤ length frame
    pub runs :
        (alpha : Side) (core : Core CCtx) (k : Chunk)
        → On chrono cipher cap room has_key encoder fuel len positive enough alpha z out k core
        → Matching core k rs
        → 0 < length (sealed_by cipher cap has_key frame)
        → 5 * length (sealed_by cipher cap has_key frame) < 4 * capacity k
        → length core.pub_key ≡ 33
        → FlushedAs (end_after c rs) after frame now k core (log_batch now rs core)

  pub log_batch-from :
      (now : c.DateTime) (rs : List (Record c)) (z : CCtx) (plain out : List ℕ)
      → All (IsRecord c) rs
      → Holds z plain out
      → Makes now z plain out rs
  unfolding stream
  log_batch-from now [] z plain out valid holds =
      let f =
        process-Closes chrono cipher cap room has_key encoder fuel len positive enough z plain out
          holds in
      record {
        after = f.after;
        frame = f.frame;
        framed = f.framed;
        ready = f.ready;
        longer = f.longer;
        runs = λ alpha core k on matches pos small key.
            flush_log-Flushed chrono cipher cap room has_key encoder fuel len positive enough alpha
              now core z plain out k f on pos (omega arith) key;
      }
  log_batch-from now (r ∷ rs) z plain out valid holds =
      let one =
        process-Logs chrono cipher cap room has_key encoder fuel len positive enough r z plain out
          valid.0 holds in
      let two =
        log_batch-from now rs one.after (plain ++ record_bytes c r) (out ++ one.added) valid.1
          one.holds in
      record {
        after = two.after;
        frame = two.frame;
        framed =
            subst (IsFrame two.frame) (append_assoc plain (record_bytes c r) (stream c rs))
              two.framed;
        ready = two.ready;
        longer = omega (arith, two.longer, length-append out one.added);
        runs = λ alpha core k on matches pos small key.
            let l =
              log-LoggedOne chrono cipher cap room has_key encoder fuel len positive enough alpha
                now r core z plain out k one on matches.0
                (omega (
                  arith,
                  two.longer,
                  length-sealed_by chrono cipher cap room has_key encoder fuel len positive enough
                      has_key two.frame,
                )) in
            let core' =
              logging chrono cipher cap room has_key encoder fuel len positive enough now r core in
            let s = l.steady in
            Flushed-before (end_after c rs) (i64_to_le_bytes (c.timestamp r.meta.datetime))
              two.after two.frame now k l.k' core core' (log_batch now (r ∷ rs) core) l.same s
              l.ended
              (two.runs alpha core' l.k' l.logging_on
                (Matching-before rs k l.k' core core' l.same s.rotation matches.1) pos
                (omega (arith, l.same.same_capacity)) (ap length s.pub_key ∙ key));
      }
