-- ===== src/Errors.antt =====
-- The error types of pinenut/src: those of encryption, compression, parsing and of `std::io`.
use pinenut.Prelude.{ℕ}
use pinenut.Codec.{DecodingError}

-- `io::Error`: the code only tells `ErrorKind::Interrupted` from the rest, here told apart by a code.
pub data IoError : Type 0 where
  interrupted : IoError
  other : ℕ → IoError

-- `encrypt::Error`
pub data CipherError : Type 0 where
  padding ecdh : CipherError

-- `compress::Error`: the library's code; the message is its name.
pub record CompressionError : Type 0 where
  pub code : ℕ

-- `ChunkError` of parse.rs
pub data ChunkError : Type 0 where
  io : IoError → ChunkError
  decrypt : CipherError → ChunkError
  decompress : CompressionError → ChunkError
  decode : DecodingError → ChunkError
