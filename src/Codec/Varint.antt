-- ===== src/Codec/Varint.antt =====
-- The variable-length integers of pinenut/src/codec.rs: seven bits a byte, lowest first.
use native.Mathlib.Decide.{dec_le}
use native.Mathlib.Nat.{pow-suc, pow-le-pow_right, mul-le-mul_right, mod-eq_of_lt, div-add-mod}
use native.Mathlib.Numerals.{towards_suc}
use pinenut.Prelude.{
  ℕ, zero, suc, ◌+◌, ◌*◌, ◌/◌, ◌%◌, ◌^◌, ◌≤◌, ◌<◌, ◌≡◌, ◌∙◌, ap, arith, bit_and, bit_or, List, [],
  ◌∷◌, ◌++◌, ltb, if◌then◌else◌, length, lt→ltb, ltb→lt, Bool-cases, inl, inr, ok,
}
use pinenut.Prelude.Bits.{bit_and_low, bit_and_top, bit_or_shift}
use pinenut.Codec.{decode_varint_loop, decode_varint, leading_zeros}

-- The groups of seven bits of `v` when at most `k + 1` of them are needed.
unfoldable pub groups : ℕ → ℕ → List ℕ
groups zero v = v ∷ []
groups (suc k) v =
    let more = groups k (v / 128) in if ltb v 128 then v ∷ [] else (v % 128 + 128) ∷ more

-- What the program writes for a `u32`, `u64` or `usize`.
unfoldable pub varint : ℕ → List ℕ
unfolding groups
varint v = groups 9 v

pub length-groups : (k v : ℕ) → (1 ≤ length (groups k v)) × (length (groups k v) ≤ k + 1)
unfolding groups
length-groups zero v = omega arith
length-groups (suc k) v = ground (arith, length-groups k (v / 128))

pow_seven : (s : ℕ) → 2 ^ (s + 7) ≡ 128 * 2 ^ s
pow_seven s = simp towards_suc (omega arith)

one-le-pow : (s : ℕ) → 1 ≤ 2 ^ s
one-le-pow zero = omega arith
one-le-pow (suc s) = rw (pow-suc 2 s) (omega (arith, one-le-pow s))

-- A number of seven bits shifted by `s` fits `w` bits exactly if it has `s` leading zeros.
pub le-leading_zeros : (w x s : ℕ) → s ≤ w → x * 2 ^ s < 2 ^ w → s ≤ leading_zeros w x
unfolding leading_zeros
le-leading_zeros zero x s h p = omega arith
le-leading_zeros (suc w) x zero h p = omega arith
le-leading_zeros (suc w) x (suc s) h p =
    let q : x * 2 ^ s < 2 ^ w =
      omega (arith, pow-suc 2 s, pow-suc 2 w, ap (λ (t : ℕ). x * t) (pow-suc 2 s)) in
    let low : x < 2 ^ w = grind (arith, one-le-pow s) in
    rw (lt→ltb x (2 ^ w) low) (omega (arith, le-leading_zeros w x s (omega arith) q))

pub leading_zeros-le :
    (w x s : ℕ) → x < 2 ^ w → s ≤ leading_zeros w x → (s ≤ w) × ((x + 1) * 2 ^ s ≤ 2 ^ w)
unfolding leading_zeros
leading_zeros-le zero x s l h = let e : s ≡ 0 = omega arith in rw e (omega arith)
leading_zeros-le (suc w) x zero l h = omega arith
leading_zeros-le (suc w) x (suc s) l h = elim (Bool-cases (ltb x (2 ^ w))) [
  | inl fits ↦
      let (le, lt) = leading_zeros-le w x s (ltb→lt x (2 ^ w) fits) (omega (arith, rw fits at h)) in
      (omega arith, rw (pow-suc 2 s, pow-suc 2 w) (omega (arith, lt)))
  | inr wide ↦ absurd (omega (arith, rw wide at h))
]

-- One round of the loop on a last byte `b`, and on a byte with the top bit over the group `g`.
last_byte :
    (w b val shift : ℕ) (rest : List ℕ)
    → b < 128
    → shift ≤ w
    → val < 2 ^ shift
    → b * 2 ^ shift < 2 ^ w
    → decode_varint_loop w val shift (b ∷ rest) ≡ (ok (val + b * 2 ^ shift), rest)
unfolding decode_varint_loop
last_byte w b val shift rest hb hs hv fits =
    let low : bit_and b 0x7f ≡ b = omega (arith, bit_and_low b) in
    rw (low, mod-eq_of_lt fits, bit_or_shift shift val b hv)
      (ground (arith, bit_and_top b, le-leading_zeros w b shift hs fits))

inner_byte :
    (w g val shift : ℕ) (rest : List ℕ)
    → g < 128
    → shift ≤ w
    → val < 2 ^ shift
    → g * 2 ^ shift < 2 ^ w
    → decode_varint_loop w val shift ((g + 128) ∷ rest)
      ≡ decode_varint_loop w (val + g * 2 ^ shift) (shift + 7) rest
unfolding decode_varint_loop
inner_byte w g val shift rest hg hs hv fits =
    let low : bit_and (g + 128) 0x7f ≡ g = omega (arith, bit_and_low (g + 128)) in
    rw (low, mod-eq_of_lt fits, bit_or_shift shift val g hv)
      (ground (arith, bit_and_top (g + 128), le-leading_zeros w g shift hs fits))

-- The lowest group of `v` and the rest, both shifted by `s`.
split_group : (v s : ℕ) → v * 2 ^ s ≡ v % 128 * 2 ^ s + v / 128 * 2 ^ (s + 7)
split_group v s = omega (
  arith,
  ap (λ (t : ℕ). t * 2 ^ s) (div-add-mod v 128),
  ap (λ (t : ℕ). v / 128 * t) (pow_seven s),
)

-- A value of eight bits or more at `shift` leaves room for the next group.
room : (w v shift : ℕ) → 128 ≤ v → v * 2 ^ shift < 2 ^ w → shift + 7 ≤ w
room w v shift h fits = elim (dec_le (shift + 7) w) [
  | yes p ↦ p
  | no p ↦ absurd (
      omega (
        arith,
        pow-le-pow_right {n = 2} (omega arith) {i = w} {j = shift + 7} (omega arith),
        pow_seven shift,
        mul-le-mul_right (2 ^ shift) h,
      ))
]

below_next : (val g s : ℕ) → val < 2 ^ s → g < 128 → val + g * 2 ^ s < 2 ^ (s + 7)
below_next val g s hv hg =
    rw (pow_seven s) (omega (arith, mul-le-mul_right {m = g} {n = 127} (2 ^ s) (omega arith)))

decode_varint_loop-groups :
    (k w v val shift : ℕ) (rest : List ℕ)
    → v < 128 ^ suc k
    → shift ≤ w
    → val < 2 ^ shift
    → v * 2 ^ shift < 2 ^ w
    → decode_varint_loop w val shift (groups k v ++ rest) ≡ (ok (val + v * 2 ^ shift), rest)
unfolding groups
decode_varint_loop-groups zero w v val shift rest hk hs hv fits =
    last_byte w v val shift rest (omega arith) hs hv fits
decode_varint_loop-groups (suc k) w v val shift rest hk hs hv fits = elim (Bool-cases (ltb v 128)) [
  | inl short ↦ rw short (last_byte w v val shift rest (ltb→lt v 128 short) hs hv fits)
  | inr long ↦
      let big : 128 ≤ v = ground arith in
      let split = split_group v shift in
      rw long (
        inner_byte w (v % 128) val shift (groups k (v / 128) ++ rest) (omega arith) hs hv
          (omega (arith, split))
        ∙ decode_varint_loop-groups k w (v / 128) (val + v % 128 * 2 ^ shift) (shift + 7) rest
            (omega (arith, pow-suc 128 (suc k))) (room w v shift big fits)
            (below_next val (v % 128) shift hv (omega arith)) (omega (arith, split))
        ∙ ap (λ (t : ℕ). (ok t, rest)) (omega (arith, split)))
]

-- A number of `w` bits, `w` at most 64, is read back from its encoding, and what follows is left.
pub decode_varint-varint :
    (w v : ℕ) (rest : List ℕ)
    → w ≤ 64
    → v < 2 ^ w
    → decode_varint w (varint v ++ rest) ≡ (ok v, rest)
unfolding decode_varint varint
decode_varint-varint w v rest hw hv =
    let wide : v < 128 ^ 10 = omega (arith, pow-le-pow_right {n = 2} (omega arith) hw) in
    decode_varint_loop-groups 9 w v 0 0 rest wide (omega arith) (omega arith) (omega arith)
    ∙ ap (λ (t : ℕ). (ok t, rest)) (omega arith)

-- A group that passes the overflow test is added without loss.
next_value :
    (w g val shift : ℕ)
    → g < 128
    → 7 ≤ w
    → val < 2 ^ shift
    → val < 2 ^ w
    → shift ≤ leading_zeros w g
    → let val' = bit_or val (g * 2 ^ shift % 2 ^ w) in
      (val' < 2 ^ (shift + 7)) × (val' < 2 ^ w) × (shift ≤ w)
next_value w g val shift hg h7 hs hw h =
    let seven : 128 ≤ 2 ^ w = pow-le-pow_right {n = 2} (omega arith) h7 in
    let (le, fits) = leading_zeros-le w g shift (omega arith) h in
    let small : g * 2 ^ shift < 2 ^ w = omega (arith, one-le-pow shift) in
    rw (mod-eq_of_lt small, bit_or_shift shift val g hs)
      (below_next val g shift hs hg, omega arith, le)

-- After `shift` bits are read the value is below both `2 ^ shift` and `2 ^ w`.
decode_varint_loop_bounds :
    (w val shift : ℕ) (source : List ℕ) (v : ℕ) (rest : List ℕ)
    → 7 ≤ w
    → val < 2 ^ shift
    → val < 2 ^ w
    → decode_varint_loop w val shift source ≡ (ok v, rest)
    → (v < 2 ^ w)
      × (length rest < length source)
      × (7 * length source + shift ≤ 7 * length rest + w + 7)
unfolding decode_varint_loop
decode_varint_loop_bounds w val shift [] v rest h7 hs hw e = cc
decode_varint_loop_bounds w val shift (b ∷ source) v rest h7 hs hw e =
    elim (Bool-cases (ltb (leading_zeros w (bit_and b 0x7f)) shift)) [
      | inl over ↦ absurd (cc (rw over at e))
      | inr fits ↦
          let next =
            next_value w (bit_and b 0x7f) val shift (omega (arith, bit_and_low b)) h7 hs hw
              (ground arith) in
          ground (
            arith,
            next,
            decode_varint_loop_bounds w (bit_or val (bit_and b 0x7f * 2 ^ shift % 2 ^ w))
                (shift + 7) source v rest,
          )
    ]

-- A number that is decoded for a type of `w` bits, `w` at least 7, fits those bits, and took from one
-- byte to `w / 7 + 1` of them.
pub decode_varint_bounds :
    (w : ℕ) (source : List ℕ) (v : ℕ) (rest : List ℕ)
    → 7 ≤ w
    → decode_varint w source ≡ (ok v, rest)
    → (v < 2 ^ w) × (length rest < length source) × (length source ≤ length rest + (w / 7 + 1))
unfolding decode_varint
decode_varint_bounds w source v rest h e =
    omega (arith, decode_varint_loop_bounds w 0 0 source v rest h (omega arith) (one-le-pow w) e)
