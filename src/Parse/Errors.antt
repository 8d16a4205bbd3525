-- ===== src/Parse/Errors.antt =====
-- The errors of pinenut/src/parse.rs, and which of them end the parsing of a file.
use pinenut.Prelude.{Bool, true, false, Fault, stuck, raised}
use pinenut.Errors.{
  IoError, CipherError, CompressionError, ChunkError, io as chunk_io, decrypt as chunk_decrypt,
  decompress as chunk_decompress, decode as chunk_decode,
}
use pinenut.Codec.{DecodingError}
use pinenut.Chunk.Reader.{ReadError, invalid, unexpected_end, io as read_io}

-- `RangeInclusive<DateTime>`
abbrev pub TimeRange : Type 0 → Type 0
TimeRange D = D × D

-- `parse::Error`, and the vector that it holds.
mutual
  pub data ParseError (D : Type 0) : Type 0 where
    io : IoError → ParseError D
    file_invalid : ParseError D
    file_incomplete : ParseError D
    decrypt : CipherError → TimeRange D → ParseError D
    decompress : CompressionError → TimeRange D → ParseError D
    decode : DecodingError → TimeRange D → ParseError D
    chunks : ParseErrors D → ParseError D

  pub data ParseErrors (D : Type 0) : Type 0 where
    no_errors : ParseErrors D
    push : ParseErrors D → ParseError D → ParseErrors D

module _ {D : Type 0} where
  abbrev pub can_continue_to_read_chunk : ParseError D → Bool
  can_continue_to_read_chunk (io e) = false
  can_continue_to_read_chunk file_invalid = false
  can_continue_to_read_chunk file_incomplete = false
  can_continue_to_read_chunk (decrypt e range) = true
  can_continue_to_read_chunk (decompress e range) = true
  can_continue_to_read_chunk (decode e range) = true
  can_continue_to_read_chunk (chunks found) = false

  abbrev pub from_chunk_error : TimeRange D → ChunkError → ParseError D
  from_chunk_error range (chunk_io e) = io e
  from_chunk_error range (chunk_decrypt e) = decrypt e range
  from_chunk_error range (chunk_decompress e) = decompress e range
  from_chunk_error range (chunk_decode e) = decode e range

  -- `From<chunk::ReadError>`
  abbrev pub from_read_error : ReadError → ParseError D
  from_read_error (read_io e) = io e
  from_read_error invalid = file_invalid
  from_read_error unexpected_end = file_incomplete

-- A step inside a step that is on fuel too.
abbrev pub join_fault {ℓ} : {E : Type ℓ} → Fault (Fault E) → Fault E
join_fault stuck = stuck
join_fault (raised f) = f

abbrev pub map_fault {ℓ} : {E F : Type ℓ} → (E → F) → Fault E → Fault F
map_fault f stuck = stuck
map_fault f (raised e) = raised (f e)
