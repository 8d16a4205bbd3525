-- ===== src/Prelude/Bits.antt =====
-- The bit operations that the codec uses, as arithmetic.
use Prim.Native.Nat.{
  ℕ, zero, suc, ◌+◌, ◌*◌, ◌/◌, ◌%◌, ◌^◌, ◌≤◌, ◌<◌, min, max, bit_and, bit_or, digits,
  bit_and-bitwise, bit_or-bitwise,
}
use mathlib.Core.Path.{◌≡◌, refl, ap, ◌∙◌}
use mathlib.Core.Bool.{Bool, true, ◌&&◌}
use native.Mathlib.Nat.{le_refl, pow-suc}
use native.Mathlib.Omega.{arith}
use pinenut.Prelude.Tests.{◌==◌}

-- Fuel beyond the first number is not used.
module _ (above : ℕ → ℕ) (digit : ℕ → ℕ → ℕ) where
  one_more :
      (fuel x y : ℕ) → x ≤ fuel → digits above digit (suc fuel) x y ≡ digits above digit fuel x y
  one_more zero zero y h = refl
  one_more (suc fuel) zero y h = refl
  one_more zero (suc x) y h = absurd (omega arith)
  one_more (suc fuel) (suc x) y h = omega (arith, one_more fuel (suc x / 2) (y / 2) (omega arith))

  spare : (k x y : ℕ) → digits above digit (k + x) x y ≡ digits above digit x x y
  spare zero x y = let same : 0 + x ≡ x = omega arith in ap (λ n. digits above digit n x y) same
  spare (suc k) x y =
      let up : suc k + x ≡ suc (k + x) = omega arith in
      ap (λ n. digits above digit n x y) up ∙ (one_more (k + x) x y (omega arith) ∙ spare k x y)

  half_spare :
      (x y : ℕ) → digits above digit x (suc x / 2) y ≡ digits above digit (suc x / 2) (suc x / 2) y
  half_spare x y =
      let all : x ≡ x / 2 + suc x / 2 = omega arith in
      ap (λ n. digits above digit n (suc x / 2) y) all ∙ spare (x / 2) (suc x / 2) y

-- One binary digit of each operation.
or_step : (x y : ℕ) → bit_or x y ≡ max (x % 2) (y % 2) + 2 * bit_or (x / 2) (y / 2)
or_step x y = elim x as (λ x. bit_or x y ≡ max (x % 2) (y % 2) + 2 * bit_or (x / 2) (y / 2)) [
  | zero ↦ omega (arith, bit_or-bitwise 0 y, bit_or-bitwise 0 (y / 2))
  | suc n ↦ omega (
    arith,
    half_spare (λ y. y) max n (y / 2),
    bit_or-bitwise (suc n / 2) (y / 2),
    bit_or-bitwise (suc n) y,
  )
]

and_step : (x y : ℕ) → bit_and x y ≡ min (x % 2) (y % 2) + 2 * bit_and (x / 2) (y / 2)
and_step x y = elim x as (λ x. bit_and x y ≡ min (x % 2) (y % 2) + 2 * bit_and (x / 2) (y / 2)) [
  | zero ↦ omega (arith, bit_and-bitwise 0 y, bit_and-bitwise 0 (y / 2))
  | suc n ↦ omega (
    arith,
    half_spare (λ y. 0) min n (y / 2),
    bit_and-bitwise (suc n / 2) (y / 2),
    bit_and-bitwise (suc n) y,
  )
]

zero-bit_or : (b : ℕ) → bit_or 0 b ≡ b
zero-bit_or b = bit_or-bitwise 0 b

bit_and-zero_below : (n a : ℕ) → a ≤ n → bit_and a 0 ≡ 0
bit_and-zero_below n zero h = refl
bit_and-zero_below zero (suc a) h = absurd (omega arith)
bit_and-zero_below (suc n) (suc a) h =
    omega (arith, and_step (suc a) 0, bit_and-zero_below n (suc a / 2) (omega arith))

-- One digit of a mask of ones.
and_ones : (a m k : ℕ) → m ≡ k * 2 + 1 → bit_and a m ≡ bit_and (a / 2) k * 2 + a % 2
and_ones a m k e = let half : m / 2 ≡ k = omega arith in rw (← half) (omega (arith, and_step a m))

-- `x & 0x7F` keeps the low seven bits.
pub bit_and_low : (a : ℕ) → bit_and a 0x7f ≡ a % 128
bit_and_low a = omega (
  arith,
  and_ones a 0x7f 0x3f refl,
  and_ones (a / 2) 0x3f 0x1f refl,
  and_ones (a / 2 / 2) 0x1f 0xf refl,
  and_ones (a / 2 / 2 / 2) 0xf 0x7 refl,
  and_ones (a / 2 / 2 / 2 / 2) 0x7 0x3 refl,
  and_ones (a / 2 / 2 / 2 / 2 / 2) 0x3 0x1 refl,
  and_ones (a / 2 / 2 / 2 / 2 / 2 / 2) 0x1 0 refl,
  bit_and-zero_below _ (a / 2 / 2 / 2 / 2 / 2 / 2 / 2) (le_refl _),
)

-- Two functions that agree at each of finitely many arguments.
module _ (f g : ℕ → ℕ) where
  same_below : ℕ → Bool
  same_below zero = true
  same_below (suc n) = f n == g n && same_below n

  same_below→eq : (n : ℕ) → same_below n ≡ true → (x : ℕ) → x < n → f x ≡ g x
  unfolding same_below
  same_below→eq zero e x h = absurd (omega arith)
  same_below→eq (suc n) e x h = ground (arith, same_below→eq n (ground arith) x)

-- `x | 0x80` on seven bits, and `x & 0x80` on a byte.
pub bit_or_top : (a : ℕ) → a < 128 → bit_or a 0x80 ≡ a + 128
unfolding same_below
bit_or_top = same_below→eq _ _ 128 refl

pub bit_and_top : (a : ℕ) → a < 256 → bit_and a 0x80 ≡ a / 128 * 128
unfolding same_below
bit_and_top = same_below→eq _ _ 256 refl

-- `x | (h << s)` adds where `x` has no bit from `s` on.
pub bit_or_shift : (s x h : ℕ) → x < 2 ^ s → bit_or x (h * 2 ^ s) ≡ x + h * 2 ^ s
bit_or_shift zero x h p = let e : x ≡ 0 = omega arith in rw (e, zero-bit_or) (omega arith)
bit_or_shift (suc s) x h p =
    let double : 2 ^ suc s ≡ 2 ^ s * 2 = pow-suc 2 s in
    let e : h * 2 ^ suc s ≡ h * 2 ^ s * 2 = rw double (omega arith) in
    let low : x / 2 < 2 ^ s = omega (arith, double) in
    let half : h * 2 ^ s * 2 / 2 ≡ h * 2 ^ s = omega arith in
    rw (e, or_step, half, bit_or_shift s (x / 2) h low) (omega arith)
