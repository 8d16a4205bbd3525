-- ===== src/Logger/Io/Delivered.antt =====
-- From a rotation to the log file, through both threads.
use pinenut.Prelude.{
  ℕ, ◌<◌, ◌≡◌, ◌≢◌, refl, sym, subst, ◌∙◌, Bool-cases, inl, inr, Option, none, some, List, ◌++◌,
  length, Fault, Bool,
}
use pinenut.Chrono.{Chrono}
use pinenut.Common.BytesBuf.{BytesBuf}
use pinenut.Encrypt.{Aes}
use pinenut.Chunk.{Chunk, bind, chunk_bytes, header_bytes, payload_len}
use pinenut.Chunk.Write.{IsChunk, contents}
use pinenut.Buffer.{Side, left, right, as_slice, side_len}
use pinenut.Buffer.Sides.{IsBuffer}
use pinenut.TimeDimension.{TimeDimension}
use pinenut.Logger.{Core, Compress, LoggerError, hand_over, rotate_file}
use pinenut.Logger.Rotation.{hand_over-HandedOver}
use pinenut.Logfile.Files.{FileSystem, Logfile, new_logfile, path}
use pinenut.Logfile.Files.Disk.{IsDisk, IsWritable, write_logfile-Stores}
use pinenut.Logger.Io.{Io, logfile_for, write_to, io_write_chunk}
use pinenut.Logger.Io.Written.{io_write_chunk-WrittenOut}

module _ (c : Chrono) {F D : Type 0} {fs : FileSystem F D} {content : D → List ℕ → List ℕ}
    {name_of : F → List ℕ} (disk : IsDisk fs content name_of) (identifier : List ℕ)
    (rotation : TimeDimension) where
  -- The handler has no log file, or one that it can write to.
  abbrev pub HasWritable : Option (Logfile c F) → Type 0
  HasWritable none = Unit
  HasWritable (some f) = IsWritable c disk identifier f

  pub logfile_for-IsWritable :
      (f : Option (Logfile c F)) (k : Chunk)
      → HasWritable f
      → IsWritable c disk identifier (logfile_for c fs identifier rotation f k)
  unfolding new_logfile
  logfile_for-IsWritable none k h = record { to_write = refl; handle = inl refl }
  logfile_for-IsWritable (some f) k h = elim (Bool-cases (rotate_file c rotation f.datetime k)) [
    | inl rotates ↦ rw rotates (record { to_write = refl; handle = inl refl })
    | inr stays ↦ rw stays h
  ]

  -- `bytes` are appended to the file of that name.
  pub record Appended (io : Io c F D) (bytes : List ℕ) (after : Io c F D) : Type 0 where
    pub file : List ℕ
    pub written : content after.disk file ≡ content io.disk file ++ bytes
    pub other_files : (g : List ℕ) → file ≢ g → content after.disk g ≡ content io.disk g
    pub no_errors : after.errors ≡ io.errors
    pub writable : HasWritable after.logfile

  pub write_to-Appended :
      (f : Logfile c F) (bytes : List ℕ) (io : Io c F D)
      → IsWritable c disk identifier f
      → Appended io bytes (write_to c fs identifier rotation f bytes io)
  unfolding write_to
  write_to-Appended f bytes io w =
      let s = write_logfile-Stores c disk identifier f bytes io.disk w in
      let after : Appended io bytes
          (record { logfile = some s.after; disk = s.left; errors = io.errors }) =
        record {
          file = path c fs identifier f;
          written = s.appended;
          other_files = s.other_files;
          no_errors = refl;
          writable = s.writable;
        } in
      rw (s.written, s.flushed) after

  module _ (aes : Aes) (has_key : Bool) {Z : Type 0}
      (compress_op : Compress Z (BytesBuf × Chunk) (Fault LoggerError)) where
    pub record Delivered (io : Io c F D) (core : Core Z) (chunk : Chunk) (after : Io c F D × List ℕ)
        : Type 0 where
      pub stored : Appended io (header_bytes chunk.header ++ contents chunk) after.0
      pub empty : payload_len (bind (as_slice right after.1)) ≡ 0
      pub input : as_slice left after.1 ≡ as_slice right core.memory

    -- When the other thread handles the event of a chunk that is handed over, before another one is, the
    -- bytes of the chunk, its header and what was written to it, are appended to one log file, no other
    -- file changes, there is no error, and the log file can be written to again; the chunk on the output
    -- side is then empty, and the input side, to which the chunk that was on the other side has come,
    -- is untouched. The chunk is valid and not empty and fills the input side of a valid buffer, the
    -- handler's log file, if it has one, can be written to, and the disk does not fail.
    pub hand_over-Delivered :
        (alpha : Side) (io : Io c F D) (core : Core Z) (chunk : Chunk)
        → HasWritable io.logfile
        → IsBuffer alpha core.memory
        → IsChunk chunk
        → length (chunk_bytes chunk) ≡ side_len core.memory
        → 0 < payload_len chunk
        → Delivered io core chunk (
            io_write_chunk c fs identifier rotation
              (io, (hand_over c aes has_key compress_op (core, chunk)).0.memory))
    hand_over-Delivered alpha io core chunk can_write valid is_chunk size pos =
        let h = hand_over-HandedOver c aes has_key compress_op alpha core chunk valid size pos in
        let memory = (hand_over c aes has_key compress_op (core, chunk)).0.memory in
        let w =
          io_write_chunk-WrittenOut c fs identifier rotation h.alpha io memory chunk h.valid
            is_chunk h.output (size ∙ sym h.same_len) pos in
        record {
          stored = subst (Appended io (header_bytes chunk.header ++ contents chunk)) (sym w.file) (
              write_to-Appended (logfile_for c fs identifier rotation io.logfile chunk) _ io
                (logfile_for-IsWritable io.logfile chunk can_write));
          empty = w.empty;
          input = w.untouched ∙ h.input;
        }
