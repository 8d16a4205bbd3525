-- ===== src/Extract/Found.antt =====
-- Extraction from several files into one.
use pinenut.Prelude.{
  ◌<◌, arith, length, length-append, concat-append, map-append, err, ℕ, suc, ◌≡◌, refl, sym, ap,
  ◌∙◌, List, [], ◌∷◌, ◌++◌, append_assoc, append-nil, map, concat, Bool, All, Result, ok, map_err,
  Sink, Fault, raised,
}
use pinenut.Errors.{IoError}
use pinenut.Chrono.{Chrono}
use pinenut.Chunk.Reader.{File}
use pinenut.Chunk.Reader.Payload.{Succeeds}
use pinenut.Chunk.Reader.Headers.{Mild}
use pinenut.Parse.Errors.{TimeRange}
use pinenut.Compress.{is_empty}
use pinenut.Extract.{
  ExtractError, not_found, Extraction, extract_chunks, after_file, extract_file, extract_files,
  check_found, finish, extract,
}
use pinenut.Extract.Chunks.Layout.{Stored, IsStored, stored_bytes}
use pinenut.Extract.Chunks.{in_range, extract_chunks-Writes}
use pinenut.Extract.Parsed.{IsWriter, written-content, in_range-All}
use pinenut.Chunk.{header_bytes}
use pinenut.Chunk.Layout.{length-header_bytes}

-- A file, and the chunks that it holds.
pub record Held : Type 0 where
  pub file : File
  pub chunks : List Stored

pub record IsHeld (h : Held) : Type 0 where
  pub stored : All IsStored h.chunks
  pub ahead : h.file.ahead ≡ concat (map stored_bytes h.chunks)
  pub mild : All Mild h.file.events
  pub seeks : All Succeeds h.file.seeks

module _ (c : Chrono) {W : Type 0} {write_all : Sink W IoError} {content : W → List ℕ}
    (writer : IsWriter write_all content) (range : TimeRange c.DateTime) where
  abbrev pub bytes_of : Held → List ℕ
  bytes_of h = concat (map stored_bytes (in_range c write_all range (λ s. s.header) h.chunks))

  extract_chunks-content :
      (h : Held) (w : W)
      → IsHeld h
      → ((extract_chunks c write_all range (w, h.file)).0 ≡ ok tt)
        × (content (extract_chunks c write_all range (w, h.file)).1.0 ≡ content w ++ bytes_of h)
  extract_chunks-content h w held =
      let e =
        extract_chunks-Writes c write_all range h.chunks w h.file held.stored held.ahead held.mild
          held.seeks in
      let (fine, given) = written-content c writer range e.pieces w in
      (
        e.result ∙ ap (map_err (λ e. raised (pinenut.Chunk.Reader.io e))) fine,
        ap content e.state ∙ given ∙ ap (λ t. content w ++ t) e.same,
      )

  after_file-ok :
      (path : ℕ) (next : W → Result (Fault ExtractError) (Unit {0}) × W)
      (out : Extraction c write_all range)
      → out.0 ≡ ok tt
      → after_file c write_all range path next out ≡ next out.1.0
  unfolding after_file
  after_file-ok path next (r, (w, file)) e = rw e refl

  -- All files are extracted, with what is written by then.
  record Copied (path : ℕ) (hs : List Held) (w : W) : Type 0 where
    left : W
    returns : extract_files c write_all range path (map (λ h. ok h.file) hs) w ≡ (ok tt, left)
    written : content left ≡ content w ++ concat (map bytes_of hs)

  extract_files-Copied : (hs : List Held) (path : ℕ) (w : W) → All IsHeld hs → Copied path hs w
  unfolding extract_files extract_file
  extract_files-Copied [] path w held = record {
    left = w;
    returns = refl;
    written = sym (append-nil (content w));
  }
  extract_files-Copied (h ∷ hs) path w held =
      let out = extract_chunks c write_all range (w, h.file) in
      let (fine, given) = extract_chunks-content h w held.0 in
      let more = extract_files-Copied hs (suc path) out.1.0 held.1 in
      record {
        left = more.left;
        returns =
            after_file-ok path
              (extract_files c write_all range (suc path) (map (λ h. ok h.file) hs)) out fine
            ∙ more.returns;
        written =
            more.written
            ∙ ap (λ t. t ++ concat (map bytes_of hs)) given
            ∙ append_assoc (content w) (bytes_of h) (concat (map bytes_of hs));
      }

  -- The chunks of all files that overlap with the range.
  abbrev pub in_files : List Held → List Stored
  in_files hs = concat (map (λ h. in_range c write_all range (λ s. s.header) h.chunks) hs)

  -- `NotFound` for no chunk at all.
  abbrev pub found : List Stored → Result (Fault ExtractError) (Unit {0})
  found [] = err (raised not_found)
  found (s ∷ ss) = ok tt

  bytes-in_files :
      (hs : List Held) → concat (map bytes_of hs) ≡ concat (map stored_bytes (in_files hs))
  bytes-in_files [] = refl
  bytes-in_files (h ∷ hs) =
      let these = in_range c write_all range (λ s. s.header) h.chunks in
      ap (λ t. bytes_of h ++ t) (bytes-in_files hs)
      ∙ sym (concat-append (map stored_bytes these) (map stored_bytes (in_files hs)))
      ∙ ap concat (sym (map-append stored_bytes these (in_files hs)))

  found-check :
      (ss : List Stored)
      → All IsStored ss
      → check_found c write_all range (ok (is_empty (concat (map stored_bytes ss)))) ≡ found ss
  found-check [] h = refl
  found-check (s ∷ ss) h = go (concat (map stored_bytes (s ∷ ss))) (
      omega (
        arith,
        length-append (stored_bytes s) (concat (map stored_bytes ss)),
        length-append (header_bytes s.header) s.payload,
        length-header_bytes s.header h.0.bytes,
      ))
    where
      go :
          (bytes : List ℕ)
          → 0 < length bytes
          → check_found c write_all range (ok (is_empty bytes)) ≡ ok tt
      go [] p = absurd (omega arith)
      go (b ∷ bytes) p = refl

  All-concat : (hs : List Held) → All IsHeld hs → All IsStored (in_files hs)
  All-concat [] held = tt
  All-concat (h ∷ hs) held =
      All-both (in_range c write_all range (λ s. s.header) h.chunks) (in_files hs)
        (in_range-All c writer range IsStored (λ s. s.header) h.chunks held.0.stored)
        (All-concat hs held.1)
    where
      All-both : (xs ys : List Stored) → All IsStored xs → All IsStored ys → All IsStored (xs ++ ys)
      All-both [] ys p q = q
      All-both (x ∷ xs) ys p q = (p.0, All-both xs ys p.1 q)

  -- From files of chunks whose headers fit their payloads, a writer that does not fail and was given
  -- nothing is given the chunks of every file that overlap with the range, one file after the other; the
  -- result is that nothing was found if there is no such chunk, and success otherwise. The reads,
  -- however they are cut and interrupted, and the seeks do not fail, and finishing the writer changes nothing and
  -- tells whether it was given a byte.
  pub extract-found :
      (into_inner : W → Result IoError Bool × W) (hs : List Held) (w : W)
      → ((v : W)
          → ((into_inner v).0 ≡ ok (is_empty (content v))) × (content (into_inner v).1 ≡ content v))
      → content w ≡ []
      → All IsHeld hs
      → ((extract c write_all range into_inner (map (λ h. ok h.file) hs) w).0 ≡ found (in_files hs))
        × (content (extract c write_all range into_inner (map (λ h. ok h.file) hs) w).1
            ≡ concat (map bytes_of hs))
  unfolding extract finish
  extract-found into_inner hs w tells empty held =
      let r = extract_files-Copied hs 0 w held in
      let (told, same) = tells r.left in
      let all = r.written ∙ ap (λ t. t ++ concat (map bytes_of hs)) empty in
      rw r.returns (
        ap (check_found c write_all range) told
            ∙ ap (λ b. check_found c write_all range (ok (is_empty b))) (all ∙ bytes-in_files hs)
            ∙ found-check (in_files hs) (All-concat hs held),
        same ∙ all,
      )
