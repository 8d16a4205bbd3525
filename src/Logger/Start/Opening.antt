-- ===== src/Logger/Start/Opening.antt =====
-- The steps of `Core::new`, on a buffer that is valid.
use pinenut.Prelude.{
  ℕ, ◌<◌, ◌≡◌, refl, ap, arith, List, [], Bool, true, false, ◌==◌, lt→ltb, none, some, Fault,
}
use pinenut.Chrono.{Chrono}
use pinenut.Common.BytesBuf.{BytesBuf}
use pinenut.Encrypt.{Aes}
use pinenut.Chunk.{
  Chunk, bind, payload_len, header_payload_len, validate, initialize, set_writeback,
}
use pinenut.Chunk.Write.{IsChunk}
use pinenut.Buffer.{Side, left, right, as_slice}
use pinenut.Buffer.Sides.{IsBuffer}
use pinenut.Buffer.Writes.{initialize_valid, validate-IsBuffer}
use pinenut.TimeDimension.{TimeDimension}
use pinenut.Logfile.Files.{FileSystem}
use pinenut.Logger.{
  Core, Compress, LoggerError, writeback, process, run, bind_input, unbind, switched,
  write_operation, rotate_if, input_if, on, initialize_sides,
}
use pinenut.Logger.Rotation.{hand_over-full}
use pinenut.Logger.Batch.InputSide.{Input, Input-bind}
use pinenut.Logger.Io.{Io, io_write_chunk, new_io}

pub set_writeback-IsChunk : (k : Chunk) → IsChunk k → IsChunk (set_writeback k)
unfolding set_writeback payload_len header_payload_len
set_writeback-IsChunk k h = record {
  layout = record {
    magic_len = h.layout.magic_len;
    version_len = h.layout.version_len;
    length_len = h.layout.length_len;
    start_len = h.layout.start_len;
    end_len = h.layout.end_len;
    pub_key_len = h.layout.pub_key_len;
  };
  magic = h.magic;
  within = h.within;
  u32 = h.u32;
}

module _ (c : Chrono) (aes : Aes) (has_key : Bool) {Z : Type 0}
    (compress_op : Compress Z (BytesBuf × Chunk) (Fault LoggerError)) where
  pub initialize_sides-valid :
      (alpha : Side) (now : c.DateTime) (pub_key memory : List ℕ)
      → IsBuffer alpha memory
      → validate (bind (as_slice left memory)) ≡ true
      → validate (bind (as_slice right memory)) ≡ true
      → initialize_sides c aes has_key compress_op now pub_key memory ≡ memory
  unfolding initialize_sides
  initialize_sides-valid alpha now pub_key memory valid l r =
      rw (initialize_valid memory (validate-IsBuffer alpha memory valid), l, r) refl

  -- Nothing is written back when the chunk is empty.
  pub writeback-empty :
      (alpha : Side) (later : c.DateTime) (core : Core Z) (k : Chunk)
      → Input alpha k core.memory
      → payload_len k ≡ 0
      → on c aes has_key compress_op later writeback core
        ≡ unbind c aes has_key compress_op (core, k)
  unfolding on bind_input write_operation rotate_if input_if
  writeback-empty alpha later core k side none_yet =
      rw (Input-bind alpha k core.memory side, none_yet) refl

  written_back :
      (later : c.DateTime) (core : Core Z) (sent : Chunk)
      → 0 < payload_len sent
      → rotate_if c aes has_key compress_op later writeback (some writeback) (core, sent) ≡ (
          let x =
            switched c aes has_key compress_op (unbind c aes has_key compress_op (core, sent)) in
          (x.0, initialize c later core.pub_key x.1))
  unfolding rotate_if run process switched unbind
  written_back later core sent pos =
      rw (hand_over-full c aes has_key compress_op core sent pos) refl

  -- Otherwise the chunk is marked, and handed over without a change to what it holds.
  pub writeback-full :
      (alpha : Side) (later : c.DateTime) (core : Core Z) (k : Chunk)
      → Input alpha k core.memory
      → 0 < payload_len k
      → on c aes has_key compress_op later writeback core ≡ (
          let x =
            switched c aes has_key compress_op
              (unbind c aes has_key compress_op (core, set_writeback k)) in
          unbind c aes has_key compress_op (x.0, initialize c later core.pub_key x.1))
  unfolding on bind_input write_operation input_if set_writeback payload_len header_payload_len
  writeback-full alpha later core k side pos =
      rw (Input-bind alpha k core.memory side, lt→ltb 0 (payload_len k) pos)
        (ap (unbind c aes has_key compress_op) (written_back later core (set_writeback k) pos))

module _ (c : Chrono) {F D : Type 0} (fs : FileSystem F D) (identifier : List ℕ)
    (rotation : TimeDimension) where
  abbrev pub first_io : D → Io c F D
  first_io disk = record { logfile = none; disk = disk; errors = [] }

  pub new_io-empty :
      (disk : D) (memory : List ℕ)
      → payload_len (bind (as_slice right memory)) ≡ 0
      → new_io c fs identifier rotation disk memory ≡ (first_io disk, memory)
  unfolding new_io
  new_io-empty disk memory e = rw e refl

  pub new_io-full :
      (disk : D) (memory : List ℕ)
      → 0 < payload_len (bind (as_slice right memory))
      → new_io c fs identifier rotation disk memory
        ≡ io_write_chunk c fs identifier rotation (first_io disk, memory)
  unfolding new_io
  new_io-full disk memory pos =
      let full : (payload_len (bind (as_slice right memory)) == 0) ≡ false = ground arith in
      rw full refl
