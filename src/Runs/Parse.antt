-- ===== src/Runs/Parse.antt =====
-- The theorems on the record parser at two records in pieces, and at damaged bytes.
use pinenut.Prelude.{ℕ, ◌≡◌, refl, arith, List, [], ◌∷◌, ◌++◌, none, some, take}
use pinenut.Prelude.{ok, err, Exec}
use pinenut.Common.BytesBuf.{BytesBuf}
use pinenut.Errors.{IoError, decode}
use pinenut.Parse.Keys.{
  Keys, obtain_decryptor, decryptor_key, IsCoherent, obtain_decryptor-IsCoherent,
}
use pinenut.Prelude.{Result}
use pinenut.Errors.{CipherError}
use pinenut.Record.{Record, Str}
use pinenut.Codec.{unexpected_variant, level_type, decode_record}
use pinenut.Codec.Values.{record_bytes}
use pinenut.Parse.RecordParser.{RecordParser, parse, parse_all}
use pinenut.Parse.Damage.{parse_all-diverges, parse-damaged}
use pinenut.Runs.Clock.{clock, up, late}

-- The contents that were called back.
abbrev pub keep : Record clock → Exec (List Str) IoError (Unit {0})
keep r seen = (ok tt, seen ++ (r.content ∷ []))

abbrev both : List ℕ
both = record_bytes clock up ++ (record_bytes clock late ++ [])

abbrev empty : RecordParser (List Str)
empty = record { callback = []; buffer = record { capacity = 40; bytes = [] } }

-- A full buffer of two bytes that begins a record.
abbrev clogged : RecordParser (List Str)
clogged = record { callback = []; buffer = record { capacity = 2; bytes = 1 ∷ 128 ∷ [] } }

parse_all-diverges_example : parse_all clock keep 1000 (1 ∷ 7 ∷ []) clogged ≡ none
unfolding decode_record pinenut.Codec.decode_meta pinenut.Codec.decode_level pinenut.Codec.decode_u8
    pinenut.Codec.read_bytes pinenut.Record.from_primitive pinenut.Codec.decode_datetime
    pinenut.Codec.decode_varint pinenut.Codec.decode_varint_loop pinenut.Codec.leading_zeros
parse_all-diverges_example =
    parse_all-diverges clock keep 1000 1 (7 ∷ []) clogged 1 (128 ∷ []) refl (omega arith)
      (_, _, refl)

-- What a byte that is no level leaves behind.
abbrev damaged : RecordParser (List Str)
damaged = record { callback = []; buffer = record { capacity = 40; bytes = 9 ∷ 0 ∷ [] } }

parse-damaged_example :
    (buf : BytesBuf) × (parse clock keep (1 ∷ []) damaged
      ≡ some
          (err (decode (unexpected_variant level_type 9)), record { callback = []; buffer = buf }))
unfolding decode_record parse pinenut.Parse.RecordParser.finish
    pinenut.Parse.RecordParser.parse_loop pinenut.Parse.RecordParser.after_decode
    pinenut.Codec.decode_meta pinenut.Codec.decode_level pinenut.Codec.decode_u8
    pinenut.Codec.read_bytes pinenut.Record.from_primitive
parse-damaged_example =
    parse-damaged clock keep (9 ∷ 0 ∷ []) (1 ∷ []) empty damaged (unexpected_variant level_type 9)
      refl

-- A negotiation that gives the first byte of each key, and one key that it gave before.
abbrev pub agree : List ℕ → List ℕ → Result CipherError (List ℕ)
agree secret_key pub_key = ok (take 1 secret_key ++ take 1 pub_key)

abbrev kept : Keys
kept = (2 ∷ 8 ∷ [], 5 ∷ 2 ∷ []) ∷ []

obtain_decryptor-IsCoherent_example :
    ((obtain_decryptor agree (some (5 ∷ [])) (2 ∷ 8 ∷ []) kept).0
      ≡ decryptor_key agree (some (5 ∷ [])) (2 ∷ 8 ∷ []))
    × IsCoherent agree (some (5 ∷ [])) (obtain_decryptor agree (some (5 ∷ [])) (2 ∷ 8 ∷ []) kept).1
obtain_decryptor-IsCoherent_example =
    obtain_decryptor-IsCoherent agree (some (5 ∷ [])) (2 ∷ 8 ∷ []) kept (refl, tt)
