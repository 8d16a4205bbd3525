-- ===== src/Runs/Codec.antt =====
-- The theorems on the codec at two records.
use pinenut.Prelude.{ℕ, ◌+◌, ◌<◌, ◌^◌, ◌≡◌, ◌/◌, ◌≤◌, refl, arith, List, [], ◌∷◌, ◌++◌, take, drop}
use pinenut.Prelude.{ok, Sink}
use pinenut.Common.BytesBuf.{BytesBuf}
use pinenut.Codec.{
  encode_record, decode_record, decode_varint, decode_varint_loop, leading_zeros, u64_or_zero,
}
use pinenut.Codec.Varint.{varint, decode_varint_bounds}
use pinenut.Codec.Values.{record_bytes}
use pinenut.Codec.RoundTrip.{decode_record-bytes}
use pinenut.Codec.Stable.{Stable, decode_record-Stable}
use pinenut.Codec.Truncated.{RunsOut, decode_record-prefix}
use pinenut.Codec.Accumulate.{encode, Delivers, encode_record-Delivers}
use pinenut.Runs.Clock.{clock, clock-IsChrono, up, up-IsRecord, late, late-IsRecord}

-- A sink that keeps everything.
abbrev collect : Sink (List ℕ) (Unit {0})
collect bytes held = (ok tt, held ++ bytes)

decode_record-bytes_example :
    decode_record clock (record_bytes clock up ++ (9 ∷ [])) ≡ (ok up, 9 ∷ [])
decode_record-bytes_example = decode_record-bytes clock-IsChrono up (9 ∷ []) up-IsRecord tt

-- A buffer of three bytes that still holds one.
abbrev small : BytesBuf
small = record { capacity = 3; bytes = 1 ∷ [] }

encode_record-Delivers_example :
    Delivers collect 3
      (1 ∷ [])
      (record_bytes clock late)
      (encode collect (λ inner. encode_record clock inner late))
encode_record-Delivers_example =
    encode_record-Delivers clock-IsChrono collect late small late-IsRecord (omega arith)
      (omega arith)

decode_record-Stable_example : Stable (decode_record clock)
decode_record-Stable_example = decode_record-Stable clock

decode_record-prefix_example : RunsOut (decode_record clock) (take 4 (record_bytes clock late))
unfolding varint u64_or_zero
decode_record-prefix_example =
    decode_record-prefix clock-IsChrono late (take 4 (record_bytes clock late)) 0
      (drop 5 (record_bytes clock late)) late-IsRecord tt refl

decode_varint_bounds_example : (300 < 2 ^ 32) × (1 < 3) × (3 ≤ 1 + (32 / 7 + 1))
unfolding decode_varint decode_varint_loop leading_zeros
decode_varint_bounds_example =
    decode_varint_bounds 32 (172 ∷ 2 ∷ 9 ∷ []) 300 (9 ∷ []) (omega arith) refl
