-- ===== src/Codec/RoundTrip.antt =====
-- Decoding reads back what encoding wrote.
use pinenut.Prelude.{concat-append}
use pinenut.Prelude.{
  ℕ, ◌^◌, ◌≤◌, ◌<◌, ◌≡◌, refl, ap, arith, List, [], ◌∷◌, ◌++◌, append_assoc, Option, none, some,
  length, concat, take-append, drop-append, length-append, ℤ, pos, negsuc, IsI64,
}
use pinenut.Prelude.{ok, pure, ◌>>=◌}
use pinenut.Chrono.{Chrono, IsChrono}
use pinenut.Record.{Level, primitive, from_primitive-primitive, Str, Location, Meta, Record}
use pinenut.Codec.{
  Decoder, i64_of_u64, ok_or_date_time, read_bytes, check_utf8, decode_tagged, level_or_error,
  decode_u8, decode_varint, decode_bytes, decode_str, decode_option, decode_level, decode_location,
  decode_datetime, decode_meta, decode_record, u64_or_zero,
}
use pinenut.Codec.Varint.{decode_varint-varint}
use pinenut.Codec.Values.{
  singles, IsSinceEpoch, AllOption, option_writes, IsStr, IsU32, IsU64, IsLocation, IsMeta,
  IsRecord, str_writes, number_writes, location_writes, datetime_writes, meta_writes, record_bytes,
}

pub concat-singles : (bs : List ℕ) → concat (singles bs) ≡ bs
concat-singles [] = refl
concat-singles (b ∷ bs) = ap (λ t. b ∷ t) (concat-singles bs)

-- The decoder reads the value off the pieces, whatever follows.
record Reads {A : Type 0} (m : Decoder A) (ws : List (List ℕ)) (a : A) : Type 0 where
  pub at : (rest : List ℕ) → m (concat ws ++ rest) ≡ (ok a, rest)

Reads-pure : {A : Type 0} (a : A) → Reads (pure a) [] a
Reads-pure a = record { at = λ rest. refl }

Reads-bind :
    {A B : Type 0} {m : Decoder A} (f : A → Decoder B) (ws vs : List (List ℕ)) {a : A} {b : B}
    → Reads m ws a
    → Reads (f a) vs b
    → Reads (m >>= f) (ws ++ vs) b
Reads-bind f ws vs p q = record {
  at = λ rest. rw (concat-append, append_assoc, p.at (concat vs ++ rest)) (q.at rest);
}

read_bytes-append :
    (n : ℕ) (bs rest : List ℕ) → length bs ≡ n → read_bytes n (bs ++ rest) ≡ (ok bs, rest)
unfolding read_bytes
read_bytes-append n bs rest h =
    rw (take-append n bs rest h, drop-append n bs rest h) (ground (arith, length-append bs rest))

decode_u8-Reads : (b : ℕ) → Reads decode_u8 ((b ∷ []) ∷ []) b
unfolding decode_u8
decode_u8-Reads b = record { at = λ rest. rw (read_bytes-append 1 (b ∷ []) rest refl) }

decode_varint-Reads : (w v : ℕ) → w ≤ 64 → v < 2 ^ w → Reads (decode_varint w) (number_writes v) v
decode_varint-Reads w v hw hv = record {
  at = λ rest. rw concat-singles (decode_varint-varint w v rest hw hv);
}

check_utf8-valid : (s : Str) → IsStr s → (rest : List ℕ) → check_utf8 s rest ≡ (ok s, rest)
unfolding check_utf8
check_utf8-valid s h rest = rw h.utf8

decode_str-Reads : (s : Str) → IsStr s → Reads decode_str (str_writes s) s
unfolding decode_str decode_bytes
decode_str-Reads s h = record {
  at = λ rest.
      rw
        (
          concat-append,
          append_assoc,
          (decode_varint-Reads 64 (length s) (omega arith) h.short).at _,
          append_assoc,
        )
        (rw (read_bytes-append (length s) s rest refl) (check_utf8-valid s h rest));
}

module _ {A : Type 0} (decode : Decoder A) (writes : A → List (List ℕ)) (fits : A → Type 0) where
  decode_option-Reads :
      ((a : A) → fits a → Reads decode (writes a) a)
      → (o : Option A) → AllOption fits o
      → Reads (decode_option decode) (option_writes writes o) o
  unfolding decode_option decode_tagged
  decode_option-Reads each none h =
      Reads-bind (decode_tagged decode) ((0 ∷ []) ∷ []) [] (decode_u8-Reads 0) (Reads-pure none)
  decode_option-Reads each (some a) h =
      Reads-bind (decode_tagged decode) ((1 ∷ []) ∷ []) (writes a) (decode_u8-Reads 1)
        (record { at = λ rest. rw (each a h).at })

decode_level-Reads : (l : Level) → Reads decode_level ((primitive l ∷ []) ∷ []) l
unfolding decode_level level_or_error
decode_level-Reads l = record {
  at = λ rest. rw ((decode_u8-Reads (primitive l)).at rest, from_primitive-primitive l);
}

text-Reads :
    (o : Option Str)
    → AllOption IsStr o
    → Reads (decode_option decode_str) (option_writes str_writes o) o
text-Reads = decode_option-Reads decode_str str_writes IsStr decode_str-Reads

decode_location-Reads : (l : Location) → IsLocation l → Reads decode_location (location_writes l) l
unfolding decode_location
decode_location-Reads l h =
    Reads-bind _ (option_writes str_writes l.file) _ (text-Reads l.file h.file) (
      Reads-bind _ (option_writes str_writes l.func) _ (text-Reads l.func h.func) (
        Reads-bind _ (option_writes number_writes l.line) []
          (decode_option-Reads _ number_writes IsU32
            (λ v lt. decode_varint-Reads 32 v (omega arith) lt) l.line h.line)
          (Reads-pure l)))

module _ {c : Chrono} (laws : IsChrono c) where
  open c use {DateTime, timestamp, timestamp_subsec_nanos, from_timestamp}

  -- The seconds come back if the date is not before 1970.
  secs-Reads :
      (z : ℤ) (rest : List ℕ)
      → IsI64 z
      → IsSinceEpoch z
      → i64_of_u64 (u64_or_zero z) rest ≡ (ok z, rest)
  unfolding u64_or_zero i64_of_u64
  secs-Reads (pos n) rest h e = ground arith
  secs-Reads (negsuc n) rest h e = absurd e

  u64_of_i64 : (z : ℤ) → IsI64 z → u64_or_zero z < 2 ^ 64
  unfolding u64_or_zero
  u64_of_i64 (pos n) h = omega arith
  u64_of_i64 (negsuc n) h = omega arith

  decode_datetime-Reads :
      (d : DateTime)
      → IsSinceEpoch (timestamp d)
      → Reads (decode_datetime c) (datetime_writes c d) d
  unfolding decode_datetime ok_or_date_time
  decode_datetime-Reads d e = record {
    at = λ rest. rw (
      concat-append,
      append_assoc,
      (decode_varint-Reads 64 (u64_or_zero (timestamp d)) (omega arith)
            (u64_of_i64 _ (laws.timestamp_i64 d))).at
          _,
      secs-Reads (timestamp d) _ (laws.timestamp_i64 d) e,
      (decode_varint-Reads 32 (timestamp_subsec_nanos d) (omega arith) (laws.nanos_u32 d)).at rest,
      laws.from_timestamp-parts d,
    );
  }

  decode_meta-Reads :
      (m : Meta c)
      → IsMeta c m
      → IsSinceEpoch (timestamp m.datetime)
      → Reads (decode_meta c) (meta_writes c m) m
  unfolding decode_meta
  decode_meta-Reads m h e =
      Reads-bind _ ((primitive m.level ∷ []) ∷ []) _ (decode_level-Reads m.level) (
        Reads-bind _ (datetime_writes c m.datetime) _ (decode_datetime-Reads m.datetime e) (
          Reads-bind _ (location_writes m.location) _ (decode_location-Reads m.location h.location)
            (Reads-bind _ (option_writes str_writes m.tag) _ (text-Reads m.tag h.tag) (
              Reads-bind _ (option_writes number_writes m.thread_id) []
                (decode_option-Reads _ number_writes IsU64
                  (λ v lt. decode_varint-Reads 64 v (omega arith) lt) m.thread_id h.thread_id)
                (Reads-pure m)))))

  -- A record that the source's types can hold, dated 1970 or later, is decoded from its bytes, and
  -- what follows them is left.
  pub decode_record-bytes :
      (r : Record c) (rest : List ℕ)
      → IsRecord c r
      → IsSinceEpoch (timestamp r.meta.datetime)
      → decode_record c (record_bytes c r ++ rest) ≡ (ok r, rest)
  unfolding decode_record
  decode_record-bytes r rest h e =
      (Reads-bind _ (meta_writes c r.meta) _ (decode_meta-Reads r.meta h.meta e) (
          Reads-bind _ (str_writes r.content) [] (decode_str-Reads r.content h.content)
            (Reads-pure r))).at
        rest
