-- ===== src/Compress/Frame.antt =====
-- The compressor makes one frame of the inputs up to the end of a chunk.
use pinenut.Prelude.{
  ℕ, zero, suc, ◌≤◌, ◌<◌, ◌≡◌, ◌≢◌, refl, sym, ap, subst, ◌∙◌, arith, List, [], ◌∷◌, ◌++◌,
  append_assoc, append-nil, length, take, drop, drop_all, take-append-drop, concat, concat-append,
  true, false, ◌==◌, ==_iff, Bool-cases, inl, inr, if◌then◌else◌, ok, Exec, Sink, Fault,
}
use pinenut.Errors.{CompressionError}
use pinenut.Codec.Writes.{sink_all}
use pinenut.Common.Ends.{Ends, calls, concat-calls}
use pinenut.Compress.{
  CompressOp, bytes_in, flush_out, end_out, Call, Directive, go_on, flush_all, end_frame, Zstd,
  directive, input_of, is_input, finished, is_empty, compress_buffer_len, compress_loop, compress,
}
use pinenut.Compress.Stream.{call-Ends}

-- What the library documents of a compressor. `Holds ctx plain out` says that a context has taken
-- `plain` and put out `out` since the last frame.
pub record Holding (zstd : Zstd) : Type 1 where
  pub IsFrame : List ℕ → List ℕ → Type 0
  pub Holds : zstd.CCtx → List ℕ → List ℕ → Type 0
  -- How many calls are left, at most, of a loop that has this input.
  pub rounds : zstd.CCtx → List ℕ → Directive → ℕ

-- A call of the compressor, with its buffer for the output.
abbrev pub calling : (zstd : Zstd) → zstd.CCtx → List ℕ → Directive → Call zstd.CCtx
calling zstd ctx bytes d = zstd.compress_stream2 ctx compress_buffer_len bytes d

-- The state behind a call that returns a number: the frame ends when it is 0.
abbrev pub Added :
    {zstd : Zstd} → Holding zstd → Directive → ℕ → zstd.CCtx → List ℕ → List ℕ → Type 0
Added holding end_frame zero ctx plain out = holding.IsFrame out plain × holding.Holds ctx [] []
Added holding end_frame (suc n) ctx plain out = holding.Holds ctx plain out
Added holding go_on n ctx plain out = holding.Holds ctx plain out
Added holding flush_all n ctx plain out = holding.Holds ctx plain out

pub record IsEncoder {zstd : Zstd} (holding : Holding zstd) : Type 0 where
  pub succeeds :
      (ctx : zstd.CCtx) (bytes : List ℕ) (d : Directive)
      → (n : ℕ) × ((calling zstd ctx bytes d).result ≡ ok n)
  -- A call that leaves bytes, or that returns another number than 0 when it is to flush or to end.
  pub takes_more :
      (ctx : zstd.CCtx) (bytes : List ℕ)
      → 1 ≤ length (drop (calling zstd ctx bytes go_on).consumed bytes)
      → holding.rounds
          (calling zstd ctx bytes go_on).context
          (drop (calling zstd ctx bytes go_on).consumed bytes)
          go_on
        < holding.rounds ctx bytes go_on
  pub puts_out :
      (ctx : zstd.CCtx) (bytes : List ℕ) (d : Directive) (n : ℕ)
      → d ≢ go_on
      → (calling zstd ctx bytes d).result ≡ ok n
      → n ≢ 0
      → holding.rounds
          (calling zstd ctx bytes d).context
          (drop (calling zstd ctx bytes d).consumed bytes)
          d
        < holding.rounds ctx bytes d
  -- What a call takes and puts out is added to what the context holds, until it ends the frame.
  pub adds :
      (ctx : zstd.CCtx) (bytes : List ℕ) (d : Directive) (n : ℕ) (plain out : List ℕ)
      → holding.Holds ctx plain out
      → (calling zstd ctx bytes d).result ≡ ok n
      → Added holding d n
          (calling zstd ctx bytes d).context
          (plain ++ take (calling zstd ctx bytes d).consumed bytes)
          (out ++ (calling zstd ctx bytes d).output)

-- The bytes that are left in the loop of an operation.
abbrev Fits : CompressOp → List ℕ → Type 0
Fits op bytes = is_input op ≡ false → bytes ≡ []

input_of-Fits : (op : CompressOp) → Fits op (input_of op)
input_of-Fits (bytes_in bytes) e = cc
input_of-Fits flush_out e = refl
input_of-Fits end_out e = refl

is_empty-true : (xs : List ℕ) → is_empty xs ≡ true → xs ≡ []
is_empty-true [] e = refl
is_empty-true (x ∷ xs) e = cc

is_empty-false : (xs : List ℕ) → is_empty xs ≡ false → 1 ≤ length xs
is_empty-false [] e = cc
is_empty-false (x ∷ xs) e = omega arith

==-false : (n : ℕ) → (n == 0) ≡ false → n ≢ 0
==-false n e z = cc

module _ {zstd : Zstd} {holding : Holding zstd} (laws : IsEncoder holding) where
  open zstd use {CCtx}
  open holding use {IsFrame, Holds, rounds}

  unfinished-Holds :
      (op : CompressOp) (rest : List ℕ) (n : ℕ) (ctx : CCtx) (plain out : List ℕ)
      → finished op rest n ≡ false
      → Added holding (directive op) n ctx plain out
      → Holds ctx plain out
  unfinished-Holds (bytes_in bytes) rest n ctx plain out e h = h
  unfinished-Holds flush_out rest n ctx plain out e h = h
  unfinished-Holds end_out rest zero ctx plain out e h = cc
  unfinished-Holds end_out rest (suc n) ctx plain out e h = h

  finished-Added :
      (op : CompressOp) (rest : List ℕ) (n : ℕ) (ctx : CCtx) (plain out : List ℕ)
      → finished op rest n ≡ true
      → Added holding (directive op) n ctx plain out
      → Added holding (directive op) 0 ctx plain out
  finished-Added (bytes_in bytes) rest n ctx plain out e h = h
  finished-Added flush_out rest n ctx plain out e h = h
  finished-Added end_out rest zero ctx plain out e h = h
  finished-Added end_out rest (suc n) ctx plain out e h =
      absurd (omega (arith, (==_iff (suc n) 0).0 e))

  unfinished-rounds :
      (op : CompressOp) (ctx : CCtx) (bytes : List ℕ) (n : ℕ)
      → (calling zstd ctx bytes (directive op)).result ≡ ok n
      → finished op (drop (calling zstd ctx bytes (directive op)).consumed bytes) n ≡ false
      → rounds
          (calling zstd ctx bytes (directive op)).context
          (drop (calling zstd ctx bytes (directive op)).consumed bytes)
          (directive op)
        < rounds ctx bytes (directive op)
  unfinished-rounds (bytes_in _) ctx bytes n okay e = laws.takes_more ctx bytes (is_empty-false _ e)
  unfinished-rounds flush_out ctx bytes n okay e =
      laws.puts_out ctx bytes flush_all n (λ d. cc) okay (==-false n e)
  unfinished-rounds end_out ctx bytes n okay e =
      laws.puts_out ctx bytes end_frame n (λ d. cc) okay (==-false n e)

  finished-rest :
      (op : CompressOp) (bytes : List ℕ) (k n : ℕ)
      → Fits op bytes
      → finished op (drop k bytes) n ≡ true
      → drop k bytes ≡ []
  finished-rest (bytes_in _) bytes k n fits e = is_empty-true (drop k bytes) e
  finished-rest flush_out bytes k n fits e = drop_all k bytes (rw (fits refl) (omega arith))
  finished-rest end_out bytes k n fits e = drop_all k bytes (rw (fits refl) (omega arith))

  module _ {S E : Type 0} (sink : Sink S E) (of_error : CompressionError → E) where
    -- A step that takes all of the bytes of an operation, behind the plain bytes and the output that the
    -- context holds.
    pub record Compresses (op : CompressOp) (ctx : CCtx) (plain out : List ℕ)
        (m : Exec (CCtx × S) (Fault E) (Unit {0})) : Type 0 where
      pub after : CCtx
      pub pieces : List (List ℕ)
      pub holds : Added holding (directive op) 0 after plain (out ++ concat pieces)
      pub ends : (s : S) → Ends sink after (sink_all sink pieces s) (m (ctx, s))

    -- The output of a call in front of what the rest of the loop puts out.
    behind :
        (out output : List ℕ) (pieces : List (List ℕ))
        → (out ++ output) ++ concat pieces ≡ out ++ concat (calls output ++ pieces)
    behind out output pieces =
        append_assoc out output (concat pieces)
        ∙ ap (λ t. out ++ t)
            (sym (
              concat-append (calls output) pieces
              ∙ ap (λ t. t ++ concat pieces) (concat-calls output)))

    compress_loop-Compresses :
        (fuel : ℕ) (op : CompressOp) (ctx : CCtx) (bytes plain out : List ℕ)
        → rounds ctx bytes (directive op) < fuel
        → Fits op bytes
        → Holds ctx plain out
        → Compresses op ctx (plain ++ bytes) out (compress_loop sink of_error zstd fuel op bytes)
    unfolding compress_loop
    compress_loop-Compresses zero op ctx bytes plain out h fits holds = absurd (omega arith)
    compress_loop-Compresses (suc fuel) op ctx bytes plain out h fits holds =
        let call = calling zstd ctx bytes (directive op) in
        let rest = drop call.consumed bytes in
        let (n, okay) = laws.succeeds ctx bytes (directive op) in
        let added = laws.adds ctx bytes (directive op) n plain out holds okay in
        let next : ℕ → Exec (CCtx × S) (Fault E) (Unit {0}) = λ remaining.
          let again = compress_loop sink of_error zstd fuel op rest in
          if finished op rest remaining then (λ st. (ok tt, st)) else again in
        elim (Bool-cases (finished op rest n)) [
          | inl done ↦
              let all_taken : take call.consumed bytes ≡ bytes =
                sym (append-nil (take call.consumed bytes))
                ∙ ap (λ t. take call.consumed bytes ++ t)
                    (sym (finished-rest op bytes call.consumed n fits done))
                ∙ take-append-drop call.consumed bytes in
              record {
                after = call.context;
                pieces = calls call.output ++ [];
                holds =
                    subst (Added holding (directive op) 0 call.context (plain ++ bytes))
                      (sym (append-nil (out ++ call.output)) ∙ behind out call.output [])
                      (subst
                        (λ t.
                          Added holding (directive op) 0 call.context (plain ++ t)
                            (out ++ call.output))
                        all_taken (finished-Added op rest n call.context _ _ done added));
                ends =
                    call-Ends sink of_error ctx call.context next call.context call.output
                      call.result n [] okay (λ s. rw done refl);
              }
          | inr more ↦
              let r =
                compress_loop-Compresses fuel op call.context rest
                  (plain ++ take call.consumed bytes) (out ++ call.output)
                  (omega (arith, unfinished-rounds op ctx bytes n okay more))
                  (λ e. drop_all call.consumed bytes (rw (fits e) (omega arith)))
                  (unfinished-Holds op rest n call.context _ _ more added) in
              record {
                after = r.after;
                pieces = calls call.output ++ r.pieces;
                holds =
                    subst
                      (λ p.
                        Added holding (directive op) 0 r.after p
                          (out ++ concat (calls call.output ++ r.pieces)))
                      (append_assoc plain (take call.consumed bytes) rest
                        ∙ ap (λ t. plain ++ t) (take-append-drop call.consumed bytes))
                      (subst (Added holding (directive op) 0 r.after _)
                        (behind out call.output r.pieces) r.holds);
                ends =
                    call-Ends sink of_error ctx r.after next call.context call.output call.result n
                      r.pieces okay (λ s. rw more (r.ends s));
              }
        ]

    -- An operation takes its input.
    pub compress-Compresses :
        (fuel : ℕ) (op : CompressOp) (ctx : CCtx) (plain out : List ℕ)
        → rounds ctx (input_of op) (directive op) < fuel
        → Holds ctx plain out
        → Compresses op ctx (plain ++ input_of op) out (compress sink of_error zstd fuel op)
    unfolding compress
    compress-Compresses fuel op ctx plain out h holds =
        compress_loop-Compresses fuel op ctx (input_of op) plain out h (input_of-Fits op) holds
