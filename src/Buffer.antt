-- ===== src/Buffer.antt =====
-- pinenut/src/buffer.rs: two buffers in one memory that change places. The lock and the kinds of
-- memory are not modelled: a memory is the list of its bytes.
pub mod Sides
pub mod Writes
use pinenut.Prelude.{
  ℕ, ◌+◌, ◌-◌, ◌/◌, List, ◌++◌, length, Bool, true, false, ◌&&◌, ◌||◌, ◌==◌, bytes_eq,
  if◌then◌else◌, Option, none, some,
}
use pinenut.Common.Memory.{slice, put}
use pinenut.Common.LittleEndian.{to_le_bytes, from_le_bytes}

pub data Side : Type 0 where
  left right : Side

-- `Side::raw`
unfoldable pub raw : Side → List ℕ
raw left = to_le_bytes 4 0xABC
raw right = to_le_bytes 4 0xDEF

-- `TryFrom<[u8; 4]> for Side`
unfoldable pub try_from : List ℕ → Option Side
try_from value =
    if bytes_eq value (raw left)
    then some left
    else if bytes_eq value (raw right)
    then some right
    else none

-- `Not for Side`
abbrev pub not_side : Side → Side
not_side left = right
not_side right = left

-- `Header::LEN`, and `Header::MAGIC` with its fields' places in memory
abbrev pub buffer_header_len : ℕ
buffer_header_len = 8

abbrev pub buffer_magic : ℕ
buffer_magic = 0xFEEDCA7B

abbrev pub header_magic : List ℕ → List ℕ
header_magic memory = slice 0 4 memory

abbrev pub alpha_side : List ℕ → List ℕ
alpha_side memory = slice 4 4 memory

-- `Header::default`
unfoldable pub default_header : List ℕ
default_header = to_le_bytes 4 buffer_magic ++ raw left

-- `BufferInner::validate`
unfoldable pub validate_buffer : List ℕ → Bool
validate_buffer memory =
    from_le_bytes (header_magic memory) == buffer_magic
    && (bytes_eq (raw left) (alpha_side memory) || bytes_eq (raw right) (alpha_side memory))

-- `BufferInner::initialize`
unfoldable pub initialize_buffer : List ℕ → List ℕ
initialize_buffer memory = if validate_buffer memory then memory else put 0 default_header memory

abbrev pub side_or_left : Option Side → Side
side_or_left none = left
side_or_left (some side) = side

-- `BufferInner::switch`
unfoldable pub switch : List ℕ → List ℕ
switch memory =
    let side = not_side (side_or_left (try_from (alpha_side memory))) in put 4 (raw side) memory

-- The length of a side, and where it begins.
abbrev pub side_len : List ℕ → ℕ
side_len memory = (length memory - buffer_header_len) / 2

unfoldable pub side_offset : Side → List ℕ → ℕ
side_offset side memory =
    let is_alpha = bytes_eq (alpha_side memory) (raw side) in
    if is_alpha then buffer_header_len else buffer_header_len + side_len memory

-- `BufferInner::buffer`, as `BufferHandle::as_slice` reads it
unfoldable pub as_slice : Side → List ℕ → List ℕ
as_slice side memory = slice (side_offset side memory) (side_len memory) memory

-- Bytes written at an index of the slice that `BufferHandle::as_mut_slice` gives.
unfoldable pub write_slice : Side → ℕ → List ℕ → List ℕ → List ℕ
write_slice side at bytes memory = put (side_offset side memory + at) bytes memory
