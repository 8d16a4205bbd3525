-- ===== src/Extract/Chunks/Calls.antt =====
-- The calls of the writer that extraction makes.
use pinenut.Prelude.{
  ℕ, ◌≡◌, refl, sym, ap, ◌∙◌, List, [], ◌∷◌, ◌++◌, concat, concat-append, Result, ok, err, map_err,
  Sink, Fault, raised, continue,
}
use pinenut.Errors.{IoError}
use pinenut.Chrono.{Chrono}
use pinenut.Codec.Writes.{sink_all, sink_all-append}
use pinenut.Chunk.Reader.{ReadError, io, File}
use pinenut.Parse.Errors.{TimeRange}
use pinenut.Extract.{to_writer, Extraction, proceed}

module _ (c : Chrono) {W : Type 0} (write_all : Sink W IoError) (range : TimeRange c.DateTime) where
  -- The calls of the writer make these bytes, and how they end is how a step ends.
  pub record Passes (bytes : List ℕ) (w : W) (out : Extraction c write_all range) : Type 0 where
    pub pieces : List (List ℕ)
    pub same : concat pieces ≡ bytes
    pub result : out.0 ≡ map_err raised (sink_all (to_writer c write_all range) pieces w).0
    pub state : out.1.0 ≡ (sink_all (to_writer c write_all range) pieces w).1

  pub Passes-then :
      (pieces : List (List ℕ)) (bytes : List ℕ) (w : W) (out : Extraction c write_all range)
      (next : W × File → Extraction c write_all range)
      → out.0 ≡ map_err raised (sink_all (to_writer c write_all range) pieces w).0
      → out.1.0 ≡ (sink_all (to_writer c write_all range) pieces w).1
      → Passes bytes out.1.0 (next out.1)
      → Passes (concat pieces ++ bytes) w (proceed c write_all range next out)
  unfolding proceed
  Passes-then pieces bytes w (res, (w1, file)) next result state n =
      let (p, q) =
        go (sink_all (to_writer c write_all range) pieces w) res w1 result state n.result n.state in
      record {
        pieces = pieces ++ n.pieces;
        same = concat-append pieces n.pieces ∙ ap (λ t. concat pieces ++ t) n.same;
        result = rw (sink_all-append (to_writer c write_all range) pieces n.pieces) p;
        state = rw (sink_all-append (to_writer c write_all range) pieces n.pieces) q;
      }
    where
      go :
          (r : Result ReadError (Unit {0}) × W) (res : Result (Fault ReadError) (Unit {0})) (w1 : W)
          → res ≡ map_err raised r.0
          → w1 ≡ r.1
          → (next (w1, file)).0
            ≡ map_err raised (sink_all (to_writer c write_all range) n.pieces w1).0
          → (next (w1, file)).1.0 ≡ (sink_all (to_writer c write_all range) n.pieces w1).1
          → ((proceed c write_all range next (res, (w1, file))).0
              ≡ map_err raised
                  (let (a, w') = r in
                    continue a (λ _. sink_all (to_writer c write_all range) n.pieces) w').0)
            × ((proceed c write_all range next (res, (w1, file))).1.0
                ≡ (let (a, w') = r in
                    continue a (λ _. sink_all (to_writer c write_all range) n.pieces) w').1)
      go (ok u, w2) res w1 e f p q = rw e (rw (sym f) (p, q))
      go (err x, w2) res w1 e f p q = rw e (refl, f)

  -- The sink of extraction makes the calls of the writer, and has its errors.
  pub to_writer-calls :
      (pieces : List (List ℕ)) (w : W)
      → sink_all (to_writer c write_all range) pieces w
        ≡ (map_err io (sink_all write_all pieces w).0, (sink_all write_all pieces w).1)
  to_writer-calls [] w = refl
  to_writer-calls (p ∷ pieces) w = go (write_all p w) (to_writer-calls pieces)
    where
      go :
          (r : Result IoError (Unit {0}) × W)
          → ((w : W)
              → sink_all (to_writer c write_all range) pieces w
                ≡ (map_err io (sink_all write_all pieces w).0, (sink_all write_all pieces w).1))
          → continue (map_err io r.0) (λ _. sink_all (to_writer c write_all range) pieces) r.1 ≡ (
            map_err io (continue r.0 (λ _. sink_all write_all pieces) r.1).0,
            (continue r.0 (λ _. sink_all write_all pieces) r.1).1,
          )
      go (ok u, w') again = again w'
      go (err e, w') again = refl

  pub raised-io :
      (r : Result IoError (Unit {0}))
      → map_err {E = ReadError} raised (map_err io r) ≡ map_err (λ e. raised (io e)) r
  raised-io (ok u) = refl
  raised-io (err e) = refl
