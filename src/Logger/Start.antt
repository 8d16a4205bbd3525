-- ===== src/Logger/Start.antt =====
-- The start of the core logger: `Core::new`, with `Processor::new` and what `Context::new` makes of the
-- key. The two times are what `chrono::Utc::now()` gives in `initialize_buffer` and in `on`.
pub mod Opening
pub mod Restart
pub mod BothSides
pub mod Reset
pub mod Recovered
pub mod StaleKey
use pinenut.Prelude.{ℕ, List, [], Bool, Option, none, some, Fault}
use pinenut.Chrono.{Chrono}
use pinenut.Common.BytesBuf
use pinenut.Common.BytesBuf.{BytesBuf}
use pinenut.Encrypt.{Aes}
use pinenut.Chunk.{Chunk}
use pinenut.TimeDimension.{TimeDimension}
use pinenut.Logfile.Files.{FileSystem}
use pinenut.Parse.Keys.{empty_public_key}
use pinenut.Logger.{Core, Compress, LoggerError, writeback, on, initialize_sides}
use pinenut.Logger.Io.{Io, new_io}

-- `ENCODER_BUFFER_LEN`
abbrev pub encoder_buffer_len : ℕ
encoder_buffer_len = 256

-- `pub_key.unwrap_or(EMPTY_PUBLIC_KEY)`
abbrev pub context_key : Option (List ℕ) → List ℕ
context_key none = empty_public_key
context_key (some key) = key

module _ (c : Chrono) (aes : Aes) (has_key : Bool) {Z : Type 0}
    (compress_op : Compress Z (BytesBuf × Chunk) (Fault LoggerError)) {F D : Type 0}
    (fs : FileSystem F D) (identifier : List ℕ) (rotation : TimeDimension) where
  -- The parts of `Core` before its first operation.
  unfoldable pub new_parts : Z → BytesBuf → Option (List ℕ) → List ℕ → Core Z
  unfolding BytesBuf.with_capacity
  new_parts compressor encryptor pub_key memory = record {
    encoder = BytesBuf.with_capacity encoder_buffer_len;
    compressor = compressor;
    encryptor = encryptor;
    memory = memory;
    events = [];
    errors = [];
    pub_key = context_key pub_key;
    rotation = rotation;
  }

  -- `Core::new`: the buffer is initialized, the other thread's part writes what it finds on its side,
  -- and what is found on the input side is written back.
  unfoldable pub new_core :
      c.DateTime → c.DateTime → Z → BytesBuf → Option (List ℕ) → List ℕ → D → Core Z × Io c F D
  new_core now later compressor encryptor pub_key memory disk =
      let (io, memory') =
        new_io c fs identifier rotation disk
          (initialize_sides c aes has_key compress_op now (context_key pub_key) memory) in
      (
        on c aes has_key compress_op later writeback
            (new_parts compressor encryptor pub_key memory'),
        io,
      )
