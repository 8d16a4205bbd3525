-- ===== src/Extract/Chunks.antt =====
-- What is extracted from a file of chunks.
pub mod Layout
pub mod Calls
use pinenut.Prelude.{
  ℕ, zero, suc, ◌+◌, ◌≤◌, ◌<◌, ◌≡◌, refl, sym, ap, ◌∙◌, arith, List, [], ◌∷◌, ◌++◌, append_assoc,
  append-nil, map, bind-pure, drop-append, length, length-append, concat, concat-append, Bool-cases,
  inl, inr, if◌then◌else◌, not, subst, drop, Option, none, some, All, Result, ok, err, map_err,
  Sink, Fault, raised, continue,
}
use pinenut.Errors.{IoError}
use pinenut.Chrono.{Chrono}
use pinenut.Common.LittleEndian.{from_le_bytes}
use pinenut.Codec.Writes.{sink_all, sink_all-append}
use pinenut.Chunk.{
  Header, header_bytes, header_payload_len, chunk_magic, start_datetime, end_datetime,
}
use pinenut.Chunk.Layout.{IsHeader, length-header_bytes}
use pinenut.Chunk.Reader.{ReadError, io, File, read_payload, seek, skip}
use pinenut.Chunk.Reader.Headers.{Mild, read_header-ReadsHeader, read_header-end}
use pinenut.Chunk.Reader.Payload.{Succeeds, read_payload-Sinks, seeks-Ends}
use pinenut.Parse.RecordParser.{buffer_len}
use pinenut.Parse.Errors.{TimeRange}
use pinenut.Chunk.Reader.Skips.{skip-Skips}
use pinenut.Extract.Chunks.Layout.{Stored, stored_bytes, IsStored}
use pinenut.Extract.Chunks.Calls.{Passes, Passes-then, to_writer-calls, raised-io}
use pinenut.Extract.{
  gt, lt, to_writer, Extraction, proceed, copy_chunk, extract_chunk, after_skip, after_header,
  extract_loop, extract_chunks,
}

module _ (c : Chrono) {W : Type 0} (write_all : Sink W IoError) (range : TimeRange c.DateTime) where
  -- The chunks before the first that starts behind the range, without those that end before it.
  abbrev pub in_range : {A : Type 0} → (A → Header) → List A → List A
  in_range header_of [] = []
  in_range header_of (s ∷ ss) =
      let rest = in_range header_of ss in
      if not (c.leb (start_datetime c (header_of s)) range.1)
      then []
      else if not (c.leb range.0 (end_datetime c (header_of s)))
      then rest
      else s ∷ rest

  copy_chunk-Passes :
      (next : W × File → Extraction c write_all range) (s : Stored) (rest bytes : List ℕ) (w : W)
      (file : File)
      → IsStored s
      → file.ahead ≡ s.payload ++ rest
      → All Mild file.events
      → All Succeeds file.seeks
      → ((w' : W) (file' : File)
          → file'.ahead ≡ rest
          → All Mild file'.events
          → All Succeeds file'.seeks
          → Passes c write_all range bytes w' (next (w', file')))
      → Passes c write_all range
          (stored_bytes s ++ bytes)
          w
          (copy_chunk c write_all range next s.header (w, file))
  unfolding copy_chunk
  copy_chunk-Passes next s rest bytes w file stored ahead mild sought again =
      let header = header_bytes s.header in
      let out = to_writer c write_all range header w in
      let p =
        read_payload-Sinks (to_writer c write_all range) (λ e. e) buffer_len s.payload rest file
          (omega arith) ahead mild in
      let e = p.ends out.1 in
      let left =
        seeks-Ends (to_writer c write_all range) (λ e. e) buffer_len file.seeks rest _ _ e sought in
      let copied =
        Passes-then c write_all range p.pieces bytes out.1 _ next e.result e.state
          (again _ _ left.0 e.mild left.1) in
      let both =
        Passes-then c write_all range (header ∷ []) (concat p.pieces ++ bytes) w
          (map_err raised out.0, (out.1, file))
          (λ st. proceed c write_all range next (
            read_payload (to_writer c write_all range) (λ e. e) buffer_len
              (header_payload_len s.header) st))
          (ap (λ r. map_err raised r.0) (sym (bind-pure (to_writer c write_all range header) w)))
          (ap (λ r. r.1) (sym (bind-pure (to_writer c write_all range header) w)))
          (rw stored.len copied) in
      record {
        pieces = both.pieces;
        same =
            both.same
            ∙ ap (λ h. h ++ (concat p.pieces ++ bytes)) (append-nil header)
            ∙ ap (λ t. header ++ (t ++ bytes)) p.same
            ∙ sym (append_assoc header s.payload bytes);
        result = both.result;
        state = both.state;
      }

  loop-Passes :
      (ss : List Stored) (fuel : ℕ) (w : W) (file : File)
      → length ss < fuel
      → All IsStored ss
      → file.ahead ≡ concat (map stored_bytes ss)
      → All Mild file.events
      → All Succeeds file.seeks
      → Passes c write_all range
          (concat (map stored_bytes (in_range (λ s. s.header) ss)))
          w
          (extract_loop c write_all range fuel (w, file))
  unfolding extract_loop after_header extract_chunk after_skip
  loop-Passes ss zero w file h stored ahead mild sought = absurd (omega arith)
  loop-Passes [] (suc fuel) w file h stored ahead mild sought =
      let (left, e) = read_header-end file ahead mild in
      record { pieces = []; same = refl; result = rw e refl; state = rw e refl }
  loop-Passes (s ∷ ss) (suc fuel) w file h stored ahead mild sought =
      let rest = concat (map stored_bytes ss) in
      let r =
        read_header-ReadsHeader s.header (s.payload ++ rest) file stored.0.bytes stored.0.magic
          (ahead ∙ append_assoc (header_bytes s.header) s.payload rest) mild in
      rw r.returns (elim (Bool-cases (gt c write_all range (start_datetime c s.header) range.1)) [
        | inl behind ↦ rw behind (record { pieces = []; same = refl; result = refl; state = refl })
        | inr not_behind ↦
            elim (Bool-cases (lt c write_all range (end_datetime c s.header) range.0)) [
              | inl before ↦
                  rw (not_behind, before)
                    (let k =
                        skip-Skips (header_payload_len s.header) r.after
                          (subst (All Succeeds) (sym r.same_seeks) sought) in
                      rw k.returns (
                        loop-Passes ss fuel w k.after (omega arith) stored.1
                          (rw (k.behind, stored.0.len, r.ahead)
                            (drop-append (length s.payload) s.payload rest refl))
                          (subst (All Mild) (sym k.same_events) r.mild) k.succeed))
              | inr within ↦
                  rw (not_behind, within)
                    (copy_chunk-Passes (extract_loop c write_all range fuel) s rest
                      (concat (map stored_bytes (in_range (λ s. s.header) ss))) w r.after stored.0
                      r.ahead r.mild (subst (All Succeeds) (sym r.same_seeks) sought)
                      (λ w' file' ahead' mild' sought'.
                        loop-Passes ss fuel w' file' (omega arith) stored.1 ahead' mild' sought'))
            ]
      ])

  length-stored :
      (ss : List Stored) → All IsStored ss → length ss ≤ length (concat (map stored_bytes ss))
  length-stored [] stored = omega arith
  length-stored (s ∷ ss) stored = omega (
    arith,
    length-stored ss stored.1,
    length-append (stored_bytes s) (concat (map stored_bytes ss)),
    length-append (header_bytes s.header) s.payload,
    length-header_bytes s.header stored.0.bytes,
  )

  -- The calls of the writer are given these bytes, and how they end is how a step ends.
  pub record Writes (bytes : List ℕ) (w : W) (out : Extraction c write_all range) : Type 0 where
    pub pieces : List (List ℕ)
    pub same : concat pieces ≡ bytes
    pub result : out.0 ≡ map_err (λ e. raised (io e)) (sink_all write_all pieces w).0
    pub state : out.1.0 ≡ (sink_all write_all pieces w).1

  -- Of a file of chunks whose headers fit their payloads, the writer is given exactly the bytes of the
  -- chunks before the first that starts behind the range, without those that end before it, in order
  -- and up to the writer's first error, which is then the result; the reads, however they are cut and
  -- interrupted, and the seeks do not fail.
  pub extract_chunks-Writes :
      (ss : List Stored) (w : W) (file : File)
      → All IsStored ss
      → file.ahead ≡ concat (map stored_bytes ss)
      → All Mild file.events
      → All Succeeds file.seeks
      → Writes
          (concat (map stored_bytes (in_range (λ s. s.header) ss)))
          w
          (extract_chunks c write_all range (w, file))
  unfolding extract_chunks
  extract_chunks-Writes ss w file stored ahead mild sought =
      let p =
        loop-Passes ss (length file.ahead + 1) w file
          (omega (arith, ap length ahead, length-stored ss stored)) stored ahead mild sought in
      let calls = to_writer-calls c write_all range p.pieces w in
      record {
        pieces = p.pieces;
        same = p.same;
        result = p.result ∙ ap (λ r. map_err raised r.0) calls ∙ raised-io c write_all range _;
        state = p.state ∙ ap (λ r. r.1) calls;
      }
