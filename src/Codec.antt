-- ===== src/Codec.antt =====
-- pinenut/src/codec.rs: the `Encode` and `Decode` implementations, and those that the derive macros
-- of pinenut/derive/src/codec.rs write for the structs of pinenut/src/record.rs.
pub mod Varint
pub mod Values
pub mod Writes
pub mod RoundTrip
pub mod Stable
pub mod Truncated
pub mod Accumulate
use mathlib.Core.Logic.{dite}
use mathlib.Core.WellFounded.{Acc}
use native.Mathlib.Decide.{dec_lt}
use pinenut.Prelude.{
  ℕ, ◌+◌, ◌-◌, ◌*◌, ◌/◌, ◌%◌, ◌^◌, ◌<◌, zero, suc, bit_and, bit_or, arith, List, [], ◌∷◌, Option,
  none, some, ◌==◌, ltb, leb, if◌then◌else◌, length, take, drop, ℤ, pos, negsuc, lt_wf,
}
use pinenut.Prelude.{Result, ok, err, Exec, pure, raise, Sink, ◌>>=◌, ◌>>◌}
use pinenut.Chrono.{Chrono}
use pinenut.Utf8.{is_utf8}
use pinenut.Record.{Level, primitive, from_primitive, Str, Location, Meta, Record}

-- The types whose names `unexpected_variant` reports.
pub data TypeName : Type 0 where
  option_type level_type : TypeName

-- The payload of `Utf8Error` is left out.
pub data DecodingError : Type 0 where
  unexpected_end : ℕ → DecodingError
  unexpected_variant : TypeName → ℕ → DecodingError
  str : DecodingError
  integer_overflow : DecodingError
  date_time : DecodingError

pub shift_shrinks : (v : ℕ) → 0x7f < v → v / 128 < v
shift_shrinks v h = omega arith

-- An encoder calls its sink any number of times. `EncodingError` has no value that occurs, so every
-- error is the sink's.
module _ {S E : Type 0} (sink : Sink S E) where
  unfoldable pub encode_u8 : ℕ → Exec S E Unit
  encode_u8 b = sink (b ∷ [])

  -- `loop { if val <= 0x7F { .. break } ..; val >>= 7 }` for `u32`, `u64` and `usize`
  unfoldable pub encode_varint_loop : (val : ℕ) → Acc ◌<◌ val → Exec S E Unit
  encode_varint_loop val (Acc.intro _ smaller) =
      dite (dec_lt 0x7f val)
        (λ h. do
          encode_u8 (bit_or (bit_and val 0x7f % 256) 0x80)
          encode_varint_loop (val / 128) (smaller (val / 128) (shift_shrinks val h)))
        (λ _. encode_u8 (val % 256))

  unfoldable pub encode_varint : ℕ → Exec S E Unit
  unfolding lt_wf
  encode_varint val = encode_varint_loop val (lt_wf.apply val)

  unfoldable pub encode_bytes : List ℕ → Exec S E Unit
  encode_bytes bytes = do encode_varint (length bytes); sink bytes

  unfoldable pub encode_str : Str → Exec S E Unit
  encode_str s = encode_bytes s

  unfoldable pub encode_option : {A : Type 0} → (A → Exec S E Unit) → Option A → Exec S E Unit
  encode_option encode none = encode_u8 0
  encode_option encode (some inner) = do encode_u8 1; encode inner

  unfoldable pub encode_level : Level → Exec S E Unit
  encode_level l = encode_u8 (primitive l)

  unfoldable pub encode_location : Location → Exec S E Unit
  encode_location l = do
    encode_option encode_str l.file
    encode_option encode_str l.func
    encode_option encode_varint l.line
    pure tt

-- `try_into().unwrap_or(0u64)` on an `i64`
unfoldable pub u64_or_zero : ℤ → ℕ
u64_or_zero (pos n) = n
u64_or_zero (negsuc n) = 0

module _ (c : Chrono) {S E : Type 0} (sink : Sink S E) where
  open c use {DateTime, timestamp, timestamp_subsec_nanos}

  unfoldable pub encode_datetime : DateTime → Exec S E Unit
  encode_datetime d = do
    encode_varint sink (u64_or_zero (timestamp d))
    encode_varint sink (timestamp_subsec_nanos d)

  unfoldable pub encode_meta : Meta c → Exec S E Unit
  encode_meta m = do
    encode_level sink m.level
    encode_datetime m.datetime
    encode_location sink m.location
    encode_option sink (encode_str sink) m.tag
    encode_option sink (encode_varint sink) m.thread_id
    pure tt

  unfoldable pub encode_record : Record c → Exec S E Unit
  encode_record r = do encode_meta r.meta; encode_str sink r.content; pure tt

-- A decoder reads from the front of the bytes that are left, `impl Source for &[u8]`.
abbrev pub Decoder : Type 0 → Type 0
Decoder A = Exec (List ℕ) DecodingError A

unfoldable pub read_bytes : ℕ → Decoder (List ℕ)
read_bytes len source =
    if leb len (length source)
    then (ok (take len source), drop len source)
    else (err (unexpected_end (len - length source)), source)

-- `bytes.first().unwrap()`: one byte has been read, so the list is not empty.
unfoldable pub first : List ℕ → ℕ
first [] = 0
first (b ∷ _) = b

unfoldable pub decode_u8 : Decoder ℕ
unfolding first
decode_u8 = do bytes ← read_bytes 1; pure (first bytes)

-- `x.leading_zeros()` on a `w`-bit integer
unfoldable pub leading_zeros : ℕ → ℕ → ℕ
leading_zeros zero x = 0
leading_zeros (suc w) x = let rest = leading_zeros w x in if ltb x (2 ^ w) then suc rest else 0

-- The loop of `decode` for a `w`-bit integer, by the bytes that are left: `u8::decode` fails on
-- none, and otherwise takes the first.
unfoldable pub decode_varint_loop : ℕ → ℕ → ℕ → Decoder ℕ
decode_varint_loop w val shift [] = (err (unexpected_end 1), [])
decode_varint_loop w val shift (byte ∷ source) =
    let high_bits = bit_and byte 0x7f in
    let val' = bit_or val (high_bits * 2 ^ shift % 2 ^ w) in
    let rest = decode_varint_loop w val' (shift + 7) source in
    if ltb (leading_zeros w high_bits) shift
    then (err integer_overflow, source)
    else if bit_and byte 0x80 == 0
    then (ok val', source)
    else rest

unfoldable pub decode_varint : ℕ → Decoder ℕ
decode_varint w = decode_varint_loop w 0 0

-- `usize` has 64 bits.
unfoldable pub decode_bytes : Decoder (List ℕ)
decode_bytes = do len ← decode_varint 64; read_bytes len

unfoldable pub check_utf8 : List ℕ → Decoder Str
check_utf8 bytes = if is_utf8 bytes then pure bytes else raise str

unfoldable pub decode_str : Decoder Str
decode_str = do bytes ← decode_bytes; check_utf8 bytes

module _ {A : Type 0} (decode : Decoder A) where
  unfoldable pub decode_tagged : ℕ → Decoder (Option A)
  decode_tagged tag =
      if tag == 0
      then pure none
      else if tag == 1
      then (do a ← decode; pure (some a))
      else raise (unexpected_variant option_type tag)

  unfoldable pub decode_option : Decoder (Option A)
  decode_option = do tag ← decode_u8; decode_tagged tag

unfoldable pub level_or_error : ℕ → Option Level → Decoder Level
level_or_error primitive none = raise (unexpected_variant level_type primitive)
level_or_error primitive (some l) = pure l

unfoldable pub decode_level : Decoder Level
unfolding level_or_error
decode_level = do primitive ← decode_u8; level_or_error primitive (from_primitive primitive)

unfoldable pub decode_location : Decoder Location
decode_location = do
  file ← decode_option decode_str
  func ← decode_option decode_str
  line ← decode_option (decode_varint 32)
  pure (record { file = file; func = func; line = line })

-- `u64` to `i64` by `try_into`
unfoldable pub i64_of_u64 : ℕ → Decoder ℤ
i64_of_u64 n = if ltb n (2 ^ 63) then pure (pos n) else raise integer_overflow

unfoldable pub ok_or_date_time : {A : Type 0} → Option A → Decoder A
ok_or_date_time none = raise date_time
ok_or_date_time (some d) = pure d

module _ (c : Chrono) where
  open c use {DateTime, from_timestamp}

  unfoldable pub decode_datetime : Decoder DateTime
  unfolding i64_of_u64 ok_or_date_time
  decode_datetime = do
    n ← decode_varint 64
    secs ← i64_of_u64 n
    nsecs ← decode_varint 32
    ok_or_date_time (from_timestamp secs nsecs)

  unfoldable pub decode_meta : Decoder (Meta c)
  decode_meta = do
    level ← decode_level
    datetime ← decode_datetime
    location ← decode_location
    tag ← decode_option decode_str
    thread_id ← decode_option (decode_varint 64)
    pure (record {
      level = level;
      datetime = datetime;
      location = location;
      tag = tag;
      thread_id = thread_id;
    })

  unfoldable pub decode_record : Decoder (Record c)
  decode_record = do
    meta ← decode_meta
    content ← decode_str
    pure (record { meta = meta; content = content })
