-- ===== src/Logger/Io.antt =====
-- `Io` of pinenut/src/logger.rs, which the other thread runs. The file system is a parameter.
pub mod Written
pub mod Delivered
pub mod Shutdown
use pinenut.Prelude.{
  ℕ, suc, ◌+◌, ◌-◌, ◌^◌, List, [], ◌∷◌, ◌++◌, Bool, true, false, ◌==◌, leb, if◌then◌else◌, Option,
  none, some, Result, ok, err, Exec, ℤ, pos, negsuc, ltb_ℤ,
}
use pinenut.Errors.{IoError}
use pinenut.Chrono.{Chrono}
use pinenut.Chunk.{Chunk, bind, chunk_bytes, payload_len, start_datetime, clear, deref}
use pinenut.Buffer.{right, as_slice, write_slice}
use pinenut.TimeDimension.{TimeDimension}
use pinenut.Logfile.Files.{
  FileSystem, Logfile, read_mode, write_mode, new_logfile, write_logfile, flush_logfile,
  delete_logfile, logfiles,
}
use pinenut.Logger.{IoEvent, write_chunk, trim, shutdown, rotate_file}

-- `Io`, with the disk and the errors tracked. The memory of the buffer stands beside it.
pub record Io (c : Chrono) (F D : Type 0) : Type 0 where
  pub logfile : Option (Logfile c F)
  pub disk : D
  pub errors : List IoError

-- `saturating_sub_unsigned` of an `i64`: what is below the least value becomes it.
abbrev pub sub_ℕ : ℕ → ℕ → ℤ
sub_ℕ n m = if leb m n then pos (n - m) else negsuc (m - n - 1)

abbrev pub at_least_min : ℤ → ℤ
at_least_min (pos n) = pos n
at_least_min (negsuc n) = if leb (2 ^ 63) n then negsuc (2 ^ 63 - 1) else negsuc n

abbrev pub saturating_sub_unsigned : ℤ → ℕ → ℤ
saturating_sub_unsigned (pos n) m = at_least_min (sub_ℕ n m)
saturating_sub_unsigned (negsuc n) m = at_least_min (negsuc (n + m))

module _ (c : Chrono) {F D : Type 0} (fs : FileSystem F D) (identifier : List ℕ)
    (rotation : TimeDimension) where
  open c use {DateTime}

  -- `unwrap_or_else(track!(..))`
  abbrev pub track : Result IoError (Unit {0}) → List IoError → List IoError
  track (ok _) found = found
  track (err e) found = found ++ (e ∷ [])

  -- `take_if(..)`, and a new log file if there is none then.
  abbrev pub logfile_for : Option (Logfile c F) → Chunk → Logfile c F
  logfile_for none chunk = new_logfile c fs identifier (start_datetime c chunk.header) write_mode
  logfile_for (some f) chunk =
      if rotate_file c rotation f.datetime chunk
      then new_logfile c fs identifier (start_datetime c chunk.header) write_mode
      else f

  -- `chunk.clear()`, whose panic cannot happen.
  abbrev pub put_back : Option Chunk → List ℕ → List ℕ
  put_back none memory = memory
  put_back (some chunk) memory = write_slice right 0 (chunk_bytes chunk) memory

  -- The write and the flush of a log file.
  unfoldable pub write_to : Logfile c F → List ℕ → Io c F D → Io c F D
  write_to f bytes io =
      let (written, (f', disk)) = write_logfile c fs identifier bytes (f, io.disk) in
      let (flushed, (f'', disk')) = flush_logfile c fs identifier (f', disk) in
      record { logfile = some f''; disk = disk'; errors = track flushed (track written io.errors) }

  -- `Io::write_chunk`
  unfoldable pub io_write_chunk : Io c F D × List ℕ → Io c F D × List ℕ
  io_write_chunk (io, memory) =
      let chunk = bind (as_slice right memory) in
      if payload_len chunk == 0
      then (io, memory)
      else (write_to (logfile_for io.logfile chunk) (deref chunk) io, put_back (clear chunk) memory)

  -- The log files before a date are deleted.
  unfoldable pub delete_expired : ℤ → List (Logfile c F) → D × List IoError → D × List IoError
  delete_expired expires [] st = st
  delete_expired expires (f ∷ fs') (disk, found) =
      let (deleted, disk') = delete_logfile c fs identifier f disk in
      let kept = delete_expired expires fs' (disk, found) in
      let rest = delete_expired expires fs' (disk', track deleted found) in
      if ltb_ℤ (c.timestamp f.datetime) expires then rest else kept

  unfoldable pub trim_listed : ℤ → Io c F D → Result IoError (List (Logfile c F)) × D → Io c F D
  trim_listed expires io (err e, disk) = record io { disk = disk; errors = io.errors ++ (e ∷ []) }
  trim_listed expires io (ok fs', disk) =
      let (disk', found) = delete_expired expires fs' (disk, io.errors) in
      record io { disk = disk'; errors = found }

  -- `Io::trim`, where `now` is `chrono::Utc::now()`.
  unfoldable pub io_trim : DateTime → ℕ → Io c F D → Io c F D
  io_trim now lifetime io =
      trim_listed (saturating_sub_unsigned (c.timestamp now) lifetime) io
        (logfiles c fs identifier read_mode io.disk)

  -- `Io::handle`: the state after an event, and whether it stops the runloop.
  unfoldable pub handle : DateTime → IoEvent → Io c F D × List ℕ → (Io c F D × List ℕ) × Bool
  handle now write_chunk st = (io_write_chunk st, false)
  handle now (trim lifetime) (io, memory) = ((io_trim now lifetime io, memory), false)
  handle now shutdown st = (st, true)

  -- `Io::new`: a chunk that was left in the buffer is written.
  unfoldable pub new_io : D → List ℕ → Io c F D × List ℕ
  new_io disk memory =
      let io : Io c F D = record { logfile = none; disk = disk; errors = [] } in
      let pending = io_write_chunk (io, memory) in
      if payload_len (bind (as_slice right memory)) == 0 then (io, memory) else pending
