-- ===== src/Chunk.antt =====
-- pinenut/src/chunk.rs: the unit of storage, a header of 60 bytes and a payload. The header overlays
-- the memory: `bind` cuts memory into the header's fields and `chunk_bytes` is the memory again.
pub mod Layout
pub mod Write
pub mod Reader
use pinenut.Prelude.{
  ℕ, ◌+◌, ◌-◌, ◌*◌, ◌<◌, ◌^◌, ◌≡◌, List, [], ◌∷◌, ◌++◌, length, take, drop, min, Bool, true, false,
  ◌&&◌, not, leb, ltb, ◌==◌, if◌then◌else◌, Option, none, some, Result, ok, err, ℤ,
}
use pinenut.Chrono.{Chrono, unwrap_or_default}
use pinenut.Common.Memory.{slice, put}
use pinenut.Common.LittleEndian.{to_le_bytes, from_le_bytes, i64_to_le_bytes, i64_from_le_bytes}

-- `chunk::Error`
pub data Overflow : Type 0 where
  overflow : Overflow

-- `Header` with its `TimeRange`: every field but `writeback` is an array of bytes.
pub record Header : Type 0 where
  pub magic : List ℕ
  pub version : List ℕ
  pub length : List ℕ
  pub writeback : Bool
  pub start : List ℕ
  pub end_ : List ℕ
  pub pub_key : List ℕ

abbrev pub header_len : ℕ
header_len = 60

-- `Header::MAGIC` and `FORMAT_VERSION`
abbrev pub chunk_magic : ℕ
chunk_magic = 0xFEEDCA7C

abbrev pub format_version : ℕ
format_version = 1

-- `payload` is all the memory behind the header.
pub record Chunk : Type 0 where
  pub header : Header
  pub payload : List ℕ

abbrev pub bool_byte : Bool → ℕ
bool_byte true = 1
bool_byte false = 0

abbrev pub byte_bool : List ℕ → Bool
byte_bool bytes = not (from_le_bytes bytes == 0)

-- `Header::bytes`
unfoldable pub header_bytes : Header → List ℕ
header_bytes h =
    h.magic
    ++ (h.version
        ++ (h.length ++ ((bool_byte h.writeback ∷ []) ++ (h.start ++ (h.end_ ++ h.pub_key)))))

-- The header that overlays 60 bytes.
unfoldable pub header : List ℕ → Header
unfolding from_le_bytes
header memory = record {
  magic = slice 0 4 memory;
  version = slice 4 2 memory;
  length = slice 6 4 memory;
  writeback = byte_bool (slice 10 1 memory);
  start = slice 11 8 memory;
  end_ = slice 19 8 memory;
  pub_key = slice 27 33 memory;
}

unfoldable pub chunk_bytes : Chunk → List ℕ
unfolding header_bytes
chunk_bytes c = header_bytes c.header ++ c.payload

unfoldable pub bind : List ℕ → Chunk
unfolding header
bind memory = record { header = header memory; payload = drop header_len memory }

-- `Header::validate`
unfoldable pub validate_header : Header → Bool
validate_header h = from_le_bytes h.magic == chunk_magic

unfoldable pub header_version : Header → ℕ
header_version h = from_le_bytes h.version

unfoldable pub header_payload_len : Header → ℕ
header_payload_len h = from_le_bytes h.length

unfoldable pub payload_len : Chunk → ℕ
payload_len c = header_payload_len c.header

abbrev pub capacity : Chunk → ℕ
capacity c = length c.payload

-- `Chunk::validate`
unfoldable pub validate : Chunk → Bool
validate c = validate_header c.header && leb (payload_len c) (capacity c)

-- `payload_len as f64 >= 0.8 * capacity as f64`, which is exact for lengths below 2^50: the product
-- is rounded by much less than the fifth by which it can miss a whole number.
unfoldable pub is_almost_full : Chunk → Bool
is_almost_full c = leb (4 * capacity c) (5 * payload_len c)

-- `set_payload_len`: `none` is the panic of its `expect`.
unfoldable pub set_payload_len : ℕ → Chunk → Option Chunk
set_payload_len len c =
    if ltb len (2 ^ 32)
    then some (record c { header = record c.header { length = to_le_bytes 4 len } })
    else none

abbrev pub after_set : Option Chunk → Option (Result Overflow (Unit {0}) × Chunk)
after_set none = none
after_set (some c) = some (ok tt, c)

unfoldable pub write : List ℕ → Chunk → Option (Result Overflow (Unit {0}) × Chunk)
write bytes c =
    let old_len = payload_len c in
    let new_len = old_len + length bytes in
    if ltb (capacity c) new_len
    then some (err overflow, c)
    else after_set (set_payload_len new_len (record c { payload = put old_len bytes c.payload }))

unfoldable pub set_writeback : Chunk → Chunk
set_writeback c = record c { header = record c.header { writeback = true } }

unfoldable pub clear : Chunk → Option Chunk
clear c = set_payload_len 0 c

-- `Deref`: the bytes of the header and of what was written.
unfoldable pub deref : Chunk → List ℕ
deref c = take (min (payload_len c) (capacity c) + header_len) (chunk_bytes c)

module _ (c : Chrono) where
  open c use {DateTime, timestamp, from_timestamp, default}

  unfoldable pub initialize : DateTime → List ℕ → Chunk → Chunk
  initialize datetime pub_key chunk =
      let datetime = i64_to_le_bytes (timestamp datetime) in
      record chunk {
        header = record {
          magic = to_le_bytes 4 chunk_magic;
          version = to_le_bytes 2 format_version;
          length = to_le_bytes 4 0;
          writeback = false;
          start = datetime;
          end_ = datetime;
          pub_key = pub_key;
        };
      }

  unfoldable pub set_end_datetime : DateTime → Chunk → Chunk
  set_end_datetime datetime chunk = record chunk {
    header = record chunk.header { end_ = i64_to_le_bytes (timestamp datetime) };
  }

  -- `TimeRange::start` and `TimeRange::end`
  unfoldable pub start_datetime : Header → DateTime
  start_datetime h = unwrap_or_default default (from_timestamp (i64_from_le_bytes h.start) 0)

  unfoldable pub end_datetime : Header → DateTime
  end_datetime h = unwrap_or_default default (from_timestamp (i64_from_le_bytes h.end_) 0)
