-- ===== src/Chunk/Reader.antt =====
-- `chunk::Reader` of pinenut/src/chunk.rs over a file. How many bytes a call of `read` returns, and
-- whether it is interrupted or fails, is up to the system: a schedule of events. So is whether a call of
-- `seek` fails.
pub mod Headers
pub mod Payload
pub mod Skips
use pinenut.Prelude.{
  ℕ, zero, suc, ◌+◌, ◌-◌, List, [], ◌∷◌, ◌++◌, length, take, drop, min, Bool, true, false, leb, ltb,
  ◌==◌, if◌then◌else◌, Option, none, some, Result, ok, err, map_err, Exec, Sink, Fault, stuck,
  raised,
}
use pinenut.Errors.{IoError, interrupted, other}
use pinenut.Chunk.{Header, header, header_len, validate_header}

-- `reader::Error`
pub data ReadError : Type 0 where
  invalid unexpected_end : ReadError
  io : IoError → ReadError

-- What the next call of `read` does: at most `n + 1` bytes, or an error.
pub data Event : Type 0 where
  short : ℕ → Event
  fails : IoError → Event

-- The bytes ahead of the file's position, the events, after which `read` returns all it can, and the errors
-- of the next calls of `seek`, if they have one; after those, `seek` succeeds.
pub record File : Type 0 where
  pub ahead : List ℕ
  pub events : List Event
  pub seeks : List (Option IoError)

-- `io::Read::read`
unfoldable pub read : ℕ → File → Result IoError (List ℕ) × File
read len file = go file.events
  where
    go : List Event → Result IoError (List ℕ) × File
    go [] = (ok (take len file.ahead), record file { ahead = drop len file.ahead; events = [] })
    go (short n ∷ events) =
        let k = min len (suc n) in
        (ok (take k file.ahead), record file { ahead = drop k file.ahead; events = events })
    go (fails e ∷ events) = (err e, record file { events = events })

-- `seek(SeekFrom::Current(n))`, which may go beyond the end.
unfoldable pub seek : ℕ → File → Result IoError (Unit {0}) × File
seek n file = go file.seeks
  where
    go : List (Option IoError) → Result IoError (Unit {0}) × File
    go [] = (ok tt, record file { ahead = drop n file.ahead })
    go (none ∷ seeks) = (ok tt, record file { ahead = drop n file.ahead; seeks = seeks })
    go (some e ∷ seeks) = (err e, record file { seeks = seeks })

-- The loop of `read_header_or_reach_to_end`, where `bytes` is `buffer[..read_len]`.
unfoldable pub header_step :
    (List ℕ → File → Result (Fault ReadError) (Option Header) × File)
    → List ℕ
    → Result IoError (List ℕ) × File
    → Result (Fault ReadError) (Option Header) × File
header_step next bytes (ok [], file) =
    if length bytes == 0 then (ok none, file) else (err (raised unexpected_end), file)
header_step next bytes (ok (b ∷ more), file) = next (bytes ++ (b ∷ more)) file
header_step next bytes (err interrupted, file) = next bytes file
header_step next bytes (err e, file) = (err (raised (io e)), file)

unfoldable pub check_header : List ℕ → File → Result (Fault ReadError) (Option Header) × File
check_header bytes file =
    if validate_header (header bytes)
    then (ok (some (header bytes)), file)
    else (err (raised invalid), file)

unfoldable pub read_header_loop :
    ℕ → List ℕ → File → Result (Fault ReadError) (Option Header) × File
read_header_loop zero bytes file = (err stuck, file)
read_header_loop (suc fuel) bytes file =
    if ltb (length bytes) header_len
    then header_step (read_header_loop fuel) bytes (read (header_len - length bytes) file)
    else check_header bytes file

-- Every round reads a byte or takes an event.
unfoldable pub read_header_or_reach_to_end : File → Result (Fault ReadError) (Option Header) × File
read_header_or_reach_to_end file = read_header_loop (62 + length file.events) [] file

module _ {S E : Type 0} (sink : Sink S E) (of_error : ReadError → E) (buffer_len : ℕ) where
  -- After a call of the sink: on an error the file goes to the end of the payload,
  -- whether that succeeds or not.
  unfoldable pub sunk :
      Exec (S × File) (Fault E) (Unit {0})
      → ℕ
      → File
      → Result E (Unit {0}) × S
      → Result (Fault E) (Unit {0}) × (S × File)
  unfolding seek
  sunk next remaining file (ok _, s) = next (s, file)
  sunk next remaining file (err e, s) = (err (raised e), (s, (seek remaining file).1))

  unfoldable pub payload_step :
      (ℕ → Exec (S × File) (Fault E) (Unit {0}))
      → ℕ
      → S
      → Result IoError (List ℕ) × File
      → Result (Fault E) (Unit {0}) × (S × File)
  unfolding sunk
  payload_step next remaining s (ok [], file) = (err (raised (of_error unexpected_end)), (s, file))
  payload_step next remaining s (ok (b ∷ bytes), file) =
      let rest = remaining - length (b ∷ bytes) in sunk (next rest) rest file (sink (b ∷ bytes) s)
  payload_step next remaining s (err interrupted, file) = next remaining (s, file)
  payload_step next remaining s (err e, file) = (err (raised (of_error (io e))), (s, file))

  -- The loop of `read_payload`. The state of the sink stands beside the file.
  unfoldable pub read_payload_loop : ℕ → ℕ → Exec (S × File) (Fault E) (Unit {0})
  read_payload_loop zero remaining st = (err stuck, st)
  read_payload_loop (suc fuel) zero st = (ok tt, st)
  read_payload_loop (suc fuel) (suc n) (s, file) =
      payload_step (read_payload_loop fuel) (suc n) s (read (min buffer_len (suc n)) file)

  -- Every round reads a byte or takes an event.
  unfoldable pub read_payload : ℕ → Exec (S × File) (Fault E) (Unit {0})
  read_payload len (s, file) = read_payload_loop (len + length file.events + 1) len (s, file)

-- `Reader::skip`
unfoldable pub skip : ℕ → Exec File ReadError (Unit {0})
unfolding seek
skip len file = let (r, file') = seek len file in (map_err io r, file')
