-- ===== src/Extract/Chunks/Layout.antt =====
-- A file as the chunks in it.
use pinenut.Prelude.{ℕ, ◌≡◌, List, ◌++◌, length}
use pinenut.Common.LittleEndian.{from_le_bytes}
use pinenut.Chunk.{Header, header_bytes, header_payload_len, chunk_magic}
use pinenut.Chunk.Layout.{IsHeader}

-- A chunk in a file.
pub record Stored : Type 0 where
  pub header : Header
  pub payload : List ℕ

abbrev pub stored_bytes : Stored → List ℕ
stored_bytes s = header_bytes s.header ++ s.payload

pub record IsStored (s : Stored) : Type 0 where
  pub bytes : IsHeader s.header
  pub magic : from_le_bytes s.header.magic ≡ chunk_magic
  pub len : header_payload_len s.header ≡ length s.payload
