-- ===== src/Common/LittleEndian.antt =====
-- `to_le_bytes` and `from_le_bytes` of the integer types, and `Magic` of pinenut/src/common.rs.
use pinenut.Prelude.{
  ℕ, zero, suc, ◌+◌, ◌-◌, ◌*◌, ◌/◌, ◌%◌, ◌^◌, ◌<◌, ◌≡◌, refl, ap, ◌∙◌, arith, List, [], ◌∷◌, length,
  ltb, if◌then◌else◌, ℤ, pos, negsuc, IsI64,
}
use native.Mathlib.Nat.{pow-suc}

-- The `n` low bytes of a number.
unfoldable pub to_le_bytes : ℕ → ℕ → List ℕ
to_le_bytes zero value = []
to_le_bytes (suc n) value = value % 256 ∷ to_le_bytes n (value / 256)

unfoldable pub from_le_bytes : List ℕ → ℕ
from_le_bytes [] = 0
from_le_bytes (b ∷ bytes) = b + 256 * from_le_bytes bytes

pub length-to_le_bytes : (n value : ℕ) → length (to_le_bytes n value) ≡ n
unfolding to_le_bytes
length-to_le_bytes zero value = refl
length-to_le_bytes (suc n) value = ap suc (length-to_le_bytes n (value / 256))

pub from_le_bytes-to_le_bytes :
    (n value : ℕ) → value < 256 ^ n → from_le_bytes (to_le_bytes n value) ≡ value
unfolding to_le_bytes from_le_bytes
from_le_bytes-to_le_bytes zero value h = omega arith
from_le_bytes-to_le_bytes (suc n) value h =
    let small : value / 256 < 256 ^ n = omega (arith, pow-suc 256 n) in
    omega (arith, from_le_bytes-to_le_bytes n (value / 256) small)

-- An `i64` in two's complement.
unfoldable pub i64_to_le_bytes : ℤ → List ℕ
unfolding to_le_bytes
i64_to_le_bytes (pos n) = to_le_bytes 8 n
i64_to_le_bytes (negsuc n) = to_le_bytes 8 (2 ^ 64 - suc n)

abbrev i64_of : ℕ → ℤ
i64_of value = if ltb value (2 ^ 63) then pos value else negsuc (2 ^ 64 - suc value)

unfoldable pub i64_from_le_bytes : List ℕ → ℤ
unfolding from_le_bytes
i64_from_le_bytes bytes = i64_of (from_le_bytes bytes)

pub i64_from_le_bytes-to : (z : ℤ) → IsI64 z → i64_from_le_bytes (i64_to_le_bytes z) ≡ z
unfolding i64_to_le_bytes i64_from_le_bytes
i64_from_le_bytes-to (pos n) h =
    ap i64_of (from_le_bytes-to_le_bytes 8 n (omega arith)) ∙ ground arith
i64_from_le_bytes-to (negsuc n) h =
    ap i64_of (from_le_bytes-to_le_bytes 8 (2 ^ 64 - suc n) (omega arith)) ∙ ground arith

pub length-i64_to_le_bytes : (z : ℤ) → length (i64_to_le_bytes z) ≡ 8
unfolding i64_to_le_bytes
length-i64_to_le_bytes (pos n) = length-to_le_bytes 8 n
length-i64_to_le_bytes (negsuc n) = length-to_le_bytes 8 (2 ^ 64 - suc n)
