-- ===== src/Runs/Logger.antt =====
-- A logger whose compressor copies.
use pinenut.Prelude.{ℕ, refl, arith, List, [], ◌∷◌, ◌++◌, ok, Fault}
use pinenut.Common.BytesBuf.{BytesBuf}
use pinenut.Common.LittleEndian.{to_le_bytes, from_le_bytes}
use pinenut.Chunk.{Chunk}
use pinenut.Buffer.{right, raw}
use pinenut.Buffer.Sides.{IsBuffer}
use pinenut.TimeDimension.{minute}
use pinenut.Compress.{bytes_in, flush_out, end_out}
use pinenut.Logger.{Core, Compress, LoggerError}
use pinenut.Runs.Chunk.{top}
use pinenut.Runs.Encrypt.{repeat}

abbrev pub copy : Compress (Unit {0}) (BytesBuf × Chunk) (Fault LoggerError)
copy sink of_error (bytes_in bytes) (z, t) = let (r, t') = sink bytes t in (r, (z, t'))
copy sink of_error flush_out st = (ok tt, st)
copy sink of_error end_out st = (ok tt, st)

-- Two sides of 62 bytes.
abbrev pub memory : List ℕ
memory = (0x7B ∷ 0xCA ∷ 0xED ∷ 0xFE ∷ 0xEF ∷ 0x0D ∷ 0 ∷ 0 ∷ []) ++ repeat 124 0

pub memory-IsBuffer : IsBuffer right memory
unfolding raw to_le_bytes from_le_bytes
memory-IsBuffer = record { long = omega arith; magic = refl; side = refl }

abbrev pub core : Core (Unit {0})
core = record {
  encoder = record { capacity = 256; bytes = [] };
  compressor = tt;
  encryptor = record { capacity = 256; bytes = [] };
  memory = memory;
  events = [];
  errors = [];
  pub_key = [];
  rotation = minute;
}

abbrev pub one : Chunk
one = record { header = top; payload = 1 ∷ 2 ∷ [] }
