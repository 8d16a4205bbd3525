-- ===== src/Parse/RecordParser.antt =====
-- `RecordParser` of pinenut/src/parse.rs: records are decoded out of a byte stream that comes in
-- pieces, and called back one by one.
use pinenut.Prelude.{ℕ, zero, suc, ◌-◌, ◌*◌, List, [], ◌∷◌, Option, none, some, length, drop}
use pinenut.Prelude.{Result, ok, err, Exec}
use pinenut.Chrono.{Chrono}
use pinenut.Record.{Record}
use pinenut.Codec.{DecodingError, unexpected_end, decode_record}
use pinenut.Common.BytesBuf
use pinenut.Common.BytesBuf.{BytesBuf}
use pinenut.Errors.{IoError, ChunkError, io, decode}

-- The callback's own state stands beside the buffer.
pub record RecordParser (C : Type 0) : Type 0 where
  pub callback : C
  pub buffer : BytesBuf

-- `BytesBuf::with_capacity(BUFFER_LEN)`, 320 KiB
abbrev pub buffer_len : ℕ
buffer_len = 320 * 1024

unfoldable pub new : {C : Type 0} → C → RecordParser C
unfolding BytesBuf.with_capacity
new st = record { callback = st; buffer = BytesBuf.with_capacity buffer_len }

unfoldable pub clear_buffer : {C : Type 0} → RecordParser C → RecordParser C
unfolding BytesBuf.clear
clear_buffer p = record p { buffer = BytesBuf.clear p.buffer }

-- What the loop of `parse` ends with: its result, `read_len` and the callback's state. `none` means
-- that the model's fuel ran out.
abbrev pub Outcome : Type 0 → Type 0
Outcome C = Option (Result ChunkError (Unit {0}) × ℕ × C)

module _ (c : Chrono) {C : Type 0} (callback : Record c → Exec C IoError (Unit {0})) where
  unfoldable pub after_callback :
      (ℕ → C → Outcome C) → ℕ → Result IoError (Unit {0}) × C → Outcome C
  after_callback next read_len (ok _, st) = next read_len st
  after_callback next read_len (err e, st) = some (err (io e), read_len, st)

  unfoldable pub after_decode :
      (List ℕ → ℕ → C → Outcome C)
      → ℕ
      → ℕ
      → C
      → Result DecodingError (Record c) × List ℕ
      → Outcome C
  after_decode next len read_len st (ok r, source) =
      after_callback (next source) (len - length source) (callback r st)
  after_decode next len read_len st (err (unexpected_end n), source) = some (ok tt, read_len, st)
  after_decode next len read_len st (err e, source) = some (err (decode e), read_len, st)

  -- `loop { if source.is_empty() { break Ok(()) } match Record::decode(..) .. }`, where `len` is
  -- `self.buffer.len()`
  unfoldable pub parse_loop : ℕ → ℕ → List ℕ → ℕ → C → Outcome C
  parse_loop fuel len [] read_len st = some (ok tt, read_len, st)
  parse_loop zero len (b ∷ bs) read_len st = none
  parse_loop (suc fuel) len (b ∷ bs) read_len st =
      after_decode (parse_loop fuel len) len read_len st (decode_record c (b ∷ bs))

  unfoldable pub finish : ℕ → BytesBuf → Outcome C → Option (Result ChunkError ℕ × RecordParser C)
  unfolding BytesBuf.drain
  finish len b none = none
  finish len b (some (ok _, read_len, st)) =
      some (ok len, record { callback = st; buffer = BytesBuf.drain read_len b })
  finish len b (some (err e, read_len, st)) =
      some (err e, record { callback = st; buffer = BytesBuf.drain read_len b })

  -- Every record takes a byte at least, so as much fuel as there are bytes is enough.
  unfoldable pub parse : List ℕ → RecordParser C → Option (Result ChunkError ℕ × RecordParser C)
  unfolding BytesBuf.buffer
  parse bytes p =
      let (len, b) = BytesBuf.buffer bytes p.buffer in
      finish len b (parse_loop (BytesBuf.len b) (BytesBuf.len b) b.bytes 0 p.callback)

  unfoldable pub after_parse :
      (ℕ → RecordParser C → Option (Result ChunkError (Unit {0}) × RecordParser C))
      → Option (Result ChunkError ℕ × RecordParser C)
      → Option (Result ChunkError (Unit {0}) × RecordParser C)
  after_parse next none = none
  after_parse next (some (ok len, p)) = next len p
  after_parse next (some (err e, p)) = some (err e, p)

  -- `while !bytes.is_empty() { let len = self.parse(bytes)?; bytes = &bytes[len..]; }`
  unfoldable pub parse_all :
      ℕ → List ℕ → RecordParser C → Option (Result ChunkError (Unit {0}) × RecordParser C)
  parse_all fuel [] p = some (ok tt, p)
  parse_all zero (b ∷ bs) p = none
  parse_all (suc fuel) (b ∷ bs) p =
      after_parse (λ len q. parse_all fuel (drop len (b ∷ bs)) q) (parse (b ∷ bs) p)

  unfoldable pub after_feed :
      (RecordParser C → Option (Result ChunkError (Unit {0}) × RecordParser C))
      → Option (Result ChunkError (Unit {0}) × RecordParser C)
      → Option (Result ChunkError (Unit {0}) × RecordParser C)
  after_feed next none = none
  after_feed next (some (ok _, p)) = next p
  after_feed next (some (err e, p)) = some (err e, p)

  -- One call of `parse_all` for each piece that the decompressor hands on, up to an error.
  unfoldable pub feed :
      List (List ℕ) → RecordParser C → Option (Result ChunkError (Unit {0}) × RecordParser C)
  feed [] p = some (ok tt, p)
  feed (piece ∷ pieces) p = after_feed (feed pieces) (parse_all (length piece) piece p)
