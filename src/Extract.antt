-- ===== src/Extract.antt =====
-- pinenut/src/extract.rs: the chunks of log files that overlap with a range of time are copied. The
-- target for the bytes and the order of the files' dates are parameters.
pub mod Chunks
pub mod Files
pub mod Listing
pub mod Parsed
pub mod Found
use pinenut.Prelude.{
  ℕ, zero, suc, ◌+◌, List, [], ◌∷◌, ◌++◌, length, Bool, true, false, not, ◌&&◌, if◌then◌else◌,
  Option, none, some, Result, ok, err, map_err, Exec, Sink, Fault, stuck, raised,
}
use pinenut.Errors.{IoError}
use pinenut.Chrono.{Chrono}
use pinenut.Chunk.{Header, header_bytes, header_payload_len, start_datetime, end_datetime}
use pinenut.Chunk.Reader.{
  ReadError, invalid, unexpected_end, io as read_io, File, read_header_or_reach_to_end,
  read_payload, skip,
}
use pinenut.Parse.RecordParser.{buffer_len}
use pinenut.Parse.Errors.{TimeRange, join_fault, map_fault}

-- `extract::Error`, with the number of the file in place of its path.
pub data ExtractError : Type 0 where
  io : IoError → ExtractError
  file_invalid file_incomplete : ℕ → ExtractError
  not_found : ExtractError

abbrev pub from_chunk_error : ℕ → ReadError → ExtractError
from_chunk_error path (read_io e) = io e
from_chunk_error path invalid = file_invalid path
from_chunk_error path unexpected_end = file_incomplete path

module _ (c : Chrono) {W : Type 0} (write_all : Sink W IoError) (range : TimeRange c.DateTime) where
  open c use {DateTime}

  -- `a.gt(b)` and `a.lt(b)`
  abbrev pub gt : DateTime → DateTime → Bool
  gt a b = not (c.leb a b)

  abbrev pub lt : DateTime → DateTime → Bool
  lt a b = not (c.leb b a)

  abbrev pub to_writer : Sink W ReadError
  to_writer bytes w = let (r, w') = write_all bytes w in (map_err read_io r, w')

  abbrev pub Extraction : Type 0
  Extraction = Result (Fault ReadError) (Unit {0}) × (W × File)

  -- Behind the `?` of a step of the loop.
  unfoldable pub proceed :
      (W × File → Extraction) → Result (Fault ReadError) (Unit {0}) × (W × File) → Extraction
  proceed next (ok _, st) = next st
  proceed next (err e, st) = (err e, st)

  -- The header and the payload of a chunk.
  unfoldable pub copy_chunk : (W × File → Extraction) → Header → W × File → Extraction
  copy_chunk next header (w, file) =
      let (r, w') = to_writer (header_bytes header) w in
      proceed
        (λ st.
          proceed next (read_payload to_writer (λ e. e) buffer_len (header_payload_len header) st))
        (map_err raised r, (w', file))

  -- Behind the `?` of `skip`.
  unfoldable pub after_skip :
      (W × File → Extraction) → W → Result ReadError (Unit {0}) × File → Extraction
  after_skip next w (ok _, file) = next (w, file)
  after_skip next w (err e, file) = (err (raised e), (w, file))

  unfoldable pub extract_chunk : (W × File → Extraction) → Header → W × File → Extraction
  extract_chunk next header (w, file) =
      let skipped = after_skip next w (skip (header_payload_len header) file) in
      let copied = copy_chunk next header (w, file) in
      if gt (start_datetime c header) range.1
      then (ok tt, (w, file))
      else if lt (end_datetime c header) range.0
      then skipped
      else copied

  unfoldable pub after_header :
      (W × File → Extraction) → W → Result (Fault ReadError) (Option Header) × File → Extraction
  after_header next w (err e, file) = (err e, (w, file))
  after_header next w (ok none, file) = (ok tt, (w, file))
  after_header next w (ok (some header), file) = extract_chunk next header (w, file)

  -- The loop of `extract_chunks`, on fuel.
  unfoldable pub extract_loop : ℕ → W × File → Extraction
  extract_loop zero st = (err stuck, st)
  extract_loop (suc fuel) (w, file) =
      after_header (extract_loop fuel) w (read_header_or_reach_to_end file)

  -- `extract_chunks`. Every round reads a header.
  unfoldable pub extract_chunks : W × File → Extraction
  extract_chunks (w, file) = extract_loop (length file.ahead + 1) (w, file)

  -- The loop of `logfiles` over the files in the order of their dates; `date` is `Logfile::datetime`.
  unfoldable pub select : {F : Type 0} → (F → DateTime) → List F → List F → List F
  select date chosen [] = chosen
  select date chosen (f ∷ files) =
      if c.leb range.1 (date f)
      then chosen
      else select date ((if c.leb (date f) range.0 then [] else chosen) ++ (f ∷ [])) files

  -- The loop of `extract`. Every file is opened before it is read; `path` is the number of the first.
  abbrev pub Opened : Type 0
  Opened = Result IoError File

  unfoldable pub after_file :
      ℕ
      → (W → Result (Fault ExtractError) (Unit {0}) × W)
      → Extraction
      → Result (Fault ExtractError) (Unit {0}) × W
  after_file path next (ok _, (w, file)) = next w
  after_file path next (err e, (w, file)) = (err (map_fault (from_chunk_error path) e), w)

  unfoldable pub extract_file :
      ℕ
      → (W → Result (Fault ExtractError) (Unit {0}) × W)
      → Opened
      → W
      → Result (Fault ExtractError) (Unit {0}) × W
  extract_file path next (err e) w = (err (raised (io e)), w)
  extract_file path next (ok file) w = after_file path next (extract_chunks (w, file))

  unfoldable pub extract_files : ℕ → List Opened → W → Result (Fault ExtractError) (Unit {0}) × W
  extract_files path [] w = (ok tt, w)
  extract_files path (f ∷ files) w = extract_file path (extract_files (suc path) files) f w

  -- `writer.into_inner()` flushes the writer and tells whether anything was written.
  abbrev pub check_found : Result IoError Bool → Result (Fault ExtractError) (Unit {0})
  check_found (err e) = err (raised (io e))
  check_found (ok empty) = if empty then err (raised not_found) else ok tt

  unfoldable pub finish :
      (W → Result IoError Bool × W)
      → Result (Fault ExtractError) (Unit {0}) × W
      → Result (Fault ExtractError) (Unit {0}) × W
  finish into_inner (err e, w) = (err e, w)
  finish into_inner (ok _, w) = let (r, w') = into_inner w in (check_found r, w')

  -- `extract`, of the files that `logfiles` selects.
  unfoldable pub extract :
      (W → Result IoError Bool × W) → List Opened → W → Result (Fault ExtractError) (Unit {0}) × W
  extract into_inner files w = finish into_inner (extract_files 0 files w)
