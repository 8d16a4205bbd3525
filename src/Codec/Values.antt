-- ===== src/Codec/Values.antt =====
-- The values that the types of the source can hold, and the pieces in which each is written.
use pinenut.Prelude.{
  ℕ, ◌<◌, ◌^◌, ◌≡◌, true, List, [], ◌∷◌, ◌++◌, Option, none, some, map, length, concat, ℤ, pos,
  negsuc,
}
use pinenut.Chrono.{Chrono}
use pinenut.Utf8.{is_utf8}
use pinenut.Record.{primitive, Str, Location, Meta, Record}
use pinenut.Codec.{u64_or_zero}
use pinenut.Codec.Varint.{varint}

abbrev pub singles : List ℕ → List (List ℕ)
singles = map (λ b. b ∷ [])

abbrev pub AllOption {ℓ κ} : {A : Type ℓ} → (A → Type κ) → Option A → Type κ
AllOption P none = Unit
AllOption P (some a) = P a

abbrev pub option_writes : {A : Type 0} → (A → List (List ℕ)) → Option A → List (List ℕ)
option_writes writes none = (0 ∷ []) ∷ []
option_writes writes (some a) = (1 ∷ []) ∷ writes a

-- The values that the types of the source hold: lengths and numbers of their widths, and texts that
-- are UTF-8.
pub record IsStr (s : Str) : Type 0 where
  pub utf8 : is_utf8 s ≡ true
  pub short : length s < 2 ^ 64

-- Not before the midnight of January 1, 1970.
abbrev pub IsSinceEpoch : ℤ → Type 0
IsSinceEpoch (pos n) = Unit
IsSinceEpoch (negsuc n) = ⊥

abbrev pub IsU32 : ℕ → Type 0
IsU32 n = n < 2 ^ 32

abbrev pub IsU64 : ℕ → Type 0
IsU64 n = n < 2 ^ 64

pub record IsLocation (l : Location) : Type 0 where
  pub file : AllOption IsStr l.file
  pub func : AllOption IsStr l.func
  pub line : AllOption IsU32 l.line

pub record IsMeta (c : Chrono) (m : Meta c) : Type 0 where
  pub location : IsLocation m.location
  pub tag : AllOption IsStr m.tag
  pub thread_id : AllOption IsU64 m.thread_id

pub record IsRecord (c : Chrono) (r : Record c) : Type 0 where
  pub meta : IsMeta c r.meta
  pub content : IsStr r.content

abbrev pub str_writes : Str → List (List ℕ)
str_writes s = singles (varint (length s)) ++ s ∷ []

abbrev pub number_writes : ℕ → List (List ℕ)
number_writes v = singles (varint v)

abbrev pub location_writes : Location → List (List ℕ)
location_writes l =
    option_writes str_writes l.file
    ++ (option_writes str_writes l.func ++ (option_writes number_writes l.line ++ []))

module _ (c : Chrono) where
  open c use {DateTime, timestamp, timestamp_subsec_nanos}

  abbrev pub datetime_writes : DateTime → List (List ℕ)
  datetime_writes d =
      number_writes (u64_or_zero (timestamp d)) ++ number_writes (timestamp_subsec_nanos d)

  abbrev pub meta_writes : Meta c → List (List ℕ)
  meta_writes m =
      ((primitive m.level ∷ []) ∷ [])
      ++ (datetime_writes m.datetime
          ++ (location_writes m.location
              ++ (option_writes str_writes m.tag
                  ++ (option_writes number_writes m.thread_id ++ []))))

  abbrev pub record_writes : Record c → List (List ℕ)
  record_writes r = meta_writes r.meta ++ (str_writes r.content ++ [])

  -- The bytes of one record.
  abbrev pub record_bytes : Record c → List ℕ
  record_bytes r = concat (record_writes r)
