-- ===== src/Common/Bits.antt =====
-- The bits of a machine word. The native `bit_and` and `bit_or` mean a recursion on binary digits
-- with fuel: here the fuel is dropped, and each law is stated bit by bit.
use Prim.Native.Nat.{
  ℕ, zero, suc, ◌+◌, ◌-◌, ◌*◌, ◌/◌, ◌%◌, ◌^◌, ◌≤◌, ◌<◌, min, max, digits, bitwise, bit_and, bit_or,
  bit_and-bitwise, bit_or-bitwise,
}
use mathlib.Core.Path.{◌≡◌, refl, ap, ◌∙◌}
use mathlib.Core.Bool.{Bool, false, not, ◌&&◌, ◌||◌}
use native.Mathlib.Nat.{pow-suc, one-le-pow, pow-le-pow_right}
use native.Mathlib.Omega.{arith}
use native.Mathlib.Decide.{dec_le}
use csc.Common.Tests.{◌==◌, ltb}

-- One more unit of fuel than the first number needs changes nothing,
extra_fuel :
    (z : ℕ → ℕ) (f : ℕ → ℕ → ℕ) (fuel a b : ℕ)
    → a ≤ fuel
    → digits z f (suc fuel) a b ≡ digits z f fuel a b
extra_fuel z f zero zero b fits = refl
extra_fuel z f (suc fuel) zero b fits = refl
extra_fuel z f zero (suc a) b fits = absurd (omega arith)
extra_fuel z f (suc fuel) (suc a) b fits =
    rw (extra_fuel z f fuel (suc a / 2) (b / 2) (omega arith))

-- and so does any more fuel.
spare_fuel :
    (z : ℕ → ℕ) (f : ℕ → ℕ → ℕ) (big small a b : ℕ)
    → small ≤ big
    → a ≤ small
    → digits z f big a b ≡ digits z f small a b
spare_fuel z f zero small a b room fits =
    let none_left : small ≡ 0 = omega arith in rw none_left refl
spare_fuel z f (suc big) small a b room fits = elim (dec_le small big) [
  | yes less ↦ extra_fuel z f big a b (omega arith) ∙ spare_fuel z f big small a b less fits
  | no more ↦ let all_left : small ≡ suc big = omega arith in rw all_left refl
]

-- The last digit, and the digits before it.
last_digit :
    (z : ℕ → ℕ) (f : ℕ → ℕ → ℕ) (m w : ℕ)
    → bitwise z f (suc m) w ≡ f (suc m % 2) (w % 2) + 2 * bitwise z f (suc m / 2) (w / 2)
last_digit z f m w =
    let rest = spare_fuel z f m (suc m / 2) (suc m / 2) (w / 2) (omega arith) (omega arith) in
    omega (arith, rest)

pub or_by_halves : (v w : ℕ) → bit_or v w ≡ max (v % 2) (w % 2) + 2 * bit_or (v / 2) (w / 2)
or_by_halves zero w = rw (bit_or-bitwise 0 w, bit_or-bitwise 0 (w / 2)) (omega arith)
or_by_halves (suc m) w =
    rw (bit_or-bitwise (suc m) w, bit_or-bitwise (suc m / 2) (w / 2))
      (last_digit (λ low. low) max m w)

pub and_by_halves : (v w : ℕ) → bit_and v w ≡ min (v % 2) (w % 2) + 2 * bit_and (v / 2) (w / 2)
and_by_halves zero w = rw (bit_and-bitwise 0 w, bit_and-bitwise 0 (w / 2)) (omega arith)
and_by_halves (suc m) w =
    rw (bit_and-bitwise (suc m) w, bit_and-bitwise (suc m / 2) (w / 2))
      (last_digit (λ low. 0) min m w)

-- Bit `i` of `w`.
abbrev pub test_bit : ℕ → ℕ → Bool
test_bit w zero = w % 2 == 1
test_bit w (suc i) = test_bit (w / 2) i

-- `~w` on `k` bits.
abbrev pub complement : ℕ → ℕ → ℕ
complement k w = 2 ^ k - 1 - w

pub test_bit-or : (i a b : ℕ) → test_bit (bit_or a b) i ≡ (test_bit a i || test_bit b i)
test_bit-or zero a b = ground (arith, or_by_halves a b)
test_bit-or (suc i) a b =
    let half : bit_or a b / 2 ≡ bit_or (a / 2) (b / 2) = omega (arith, or_by_halves a b) in
    rw half (test_bit-or i (a / 2) (b / 2))

pub test_bit-and : (i a b : ℕ) → test_bit (bit_and a b) i ≡ (test_bit a i && test_bit b i)
test_bit-and zero a b = ground (arith, and_by_halves a b)
test_bit-and (suc i) a b =
    let half : bit_and a b / 2 ≡ bit_and (a / 2) (b / 2) = omega (arith, and_by_halves a b) in
    rw half (test_bit-and i (a / 2) (b / 2))

pub test_bit-complement :
    (i k w : ℕ) → i < k → w < 2 ^ k → test_bit (complement k w) i ≡ not (test_bit w i)
test_bit-complement i zero w h p = absurd (omega arith)
test_bit-complement zero (suc k) w h p = ground (arith, pow-suc 2 k)
test_bit-complement (suc i) (suc k) w h p =
    let half : complement (suc k) w / 2 ≡ complement k (w / 2) = omega (arith, pow-suc 2 k) in
    rw half (test_bit-complement i k (w / 2) (omega arith) (omega (arith, pow-suc 2 k)))

pub test_bit-zero : (i : ℕ) → test_bit 0 i ≡ false
test_bit-zero zero = refl
test_bit-zero (suc i) = test_bit-zero i

pub test_bit-pow : (k i : ℕ) → test_bit (2 ^ k) i ≡ (k == i)
test_bit-pow zero zero = refl
test_bit-pow zero (suc i) = ground (arith, test_bit-zero i)
test_bit-pow (suc k) zero = ground (arith, pow-suc 2 k)
test_bit-pow (suc k) (suc i) =
    let half : 2 ^ suc k / 2 ≡ 2 ^ k = omega (arith, pow-suc 2 k) in
    rw half (ground (arith, test_bit-pow k i))

and-zero : (n a : ℕ) → a ≤ n → bit_and a 0 ≡ 0
and-zero n zero h = refl
and-zero zero (suc a) h = absurd (omega arith)
and-zero (suc n) (suc a) h =
    omega (arith, and_by_halves (suc a) 0, and-zero n (suc a / 2) (omega arith))

half_pow : (k : ℕ) → 2 ^ suc k / 2 ≡ 2 ^ k
half_pow k = omega (arith, pow-suc 2 k)

-- The test `(w & (1 << k)) == (1 << k)` reads bit `k`.
pub bit_and-pow : (k w : ℕ) → (bit_and w (2 ^ k) == 2 ^ k) ≡ test_bit w k
bit_and-pow zero w = ground (arith, and_by_halves w 1, and-zero (w / 2) (w / 2))
bit_and-pow (suc k) w = ground (
  arith,
  and_by_halves w (2 ^ suc k),
  pow-suc 2 k,
  bit_and-pow k (w / 2),
  ap (bit_and (w / 2)) (half_pow k),
)

-- Words of `k` bits with the same bits are equal.
pub word_ext :
    (k a b : ℕ) → a < 2 ^ k → b < 2 ^ k → ((i : ℕ) → i < k → test_bit a i ≡ test_bit b i) → a ≡ b
word_ext zero a b p q h = omega arith
word_ext (suc k) a b p q h = ground (
  arith,
  h 0,
  word_ext k (a / 2) (b / 2) (omega (arith, pow-suc 2 k)) (omega (arith, pow-suc 2 k))
      (λ i r. h (suc i) (omega arith)),
)

pub bit_or-lt : (k a b : ℕ) → a < 2 ^ k → b < 2 ^ k → bit_or a b < 2 ^ k
bit_or-lt zero a b p q = ground (arith, or_by_halves a b)
bit_or-lt (suc k) a b p q = omega (
  arith,
  or_by_halves a b,
  pow-suc 2 k,
  bit_or-lt k (a / 2) (b / 2) (omega (arith, pow-suc 2 k)) (omega (arith, pow-suc 2 k)),
)

zero-and : (b : ℕ) → bit_and 0 b ≡ 0
zero-and b = bit_and-bitwise 0 b

pub bit_and-lt : (k a b : ℕ) → a < 2 ^ k → bit_and a b < 2 ^ k
bit_and-lt zero a b p =
    let none_set : a ≡ 0 = omega arith in rw none_set (rw (zero-and b) (omega arith))
bit_and-lt (suc k) a b p = omega (
  arith,
  and_by_halves a b,
  pow-suc 2 k,
  bit_and-lt k (a / 2) (b / 2) (omega (arith, pow-suc 2 k)),
)

-- A mask of `k` low ones.
pub test_bit-ones : (k i : ℕ) → test_bit (2 ^ k - 1) i ≡ ltb i k
test_bit-ones zero i = ground (arith, test_bit-zero i)
test_bit-ones (suc k) zero = ground (arith, pow-suc 2 k, one-le-pow k 2)
test_bit-ones (suc k) (suc i) =
    let half : (2 ^ suc k - 1) / 2 ≡ 2 ^ k - 1 = omega (arith, pow-suc 2 k) in
    rw half (ground (arith, test_bit-ones k i))

pub or-zero : (n a : ℕ) → a ≤ n → bit_or a 0 ≡ a
or-zero n zero h = refl
or-zero zero (suc a) h = absurd (omega arith)
or-zero (suc n) (suc a) h =
    omega (arith, or_by_halves (suc a) 0, or-zero n (suc a / 2) (omega arith))

-- Shifting a one in at the right end, `w <<= 1; w |= 1;`.
pub bit_or-one : (w : ℕ) → bit_or (w * 2) 1 ≡ w * 2 + 1
bit_or-one w = ground (arith, or_by_halves (w * 2) 1, ap (λ t. bit_or t 0) (half w), or-zero w w)
  where
    half : (w : ℕ) → w * 2 / 2 ≡ w
    half w = omega arith

pub pow-lt_32 : (k : ℕ) → k < 32 → 2 ^ k < 2 ^ 32
pow-lt_32 k h =
    let fits : 2 ^ k ≤ 2 ^ 31 =
      pow-le-pow_right {n = 2} (omega arith) {i = k} {j = 31} (omega arith) in
    omega arith
