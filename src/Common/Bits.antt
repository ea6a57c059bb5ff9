-- ===== src/Common/Bits.antt =====
-- Masks, shifts and joins of bits, as arithmetic.
use Prim.Native.Nat.{
  ℕ, zero, suc, ◌+◌, ◌*◌, ◌/◌, ◌%◌, ◌^◌, ◌≤◌, ◌<◌, min, max, bit_and, bit_or, digits,
  bit_and-bitwise, bit_or-bitwise,
}
use mathlib.Core.Path.{◌≡◌, refl, sym, ap, ◌∙◌}
use mathlib.Core.Bool.{Bool, true, false}
use native.Mathlib.Omega.{arith}
use native.Mathlib.Nat.{pow-suc}
use native.Mathlib.Numerals.{towards_suc}
use phira_mp.Common.Tests.{◌==◌, if◌then◌else◌}

-- Two functions that agree on the numbers below a bound, by comparing their values.
agree : (f g : ℕ → ℕ) → ℕ → Bool
agree f g zero = true
agree f g (suc k) = if f k == g k then agree f g k else false

agree_at : (f g : ℕ → ℕ) (k i : ℕ) → i < k → agree f g k ≡ true → f i ≡ g i
unfolding agree
agree_at f g zero i lt same = absurd (omega arith)
agree_at f g (suc k) i lt same = ground (arith, agree_at f g k i)

pub low_bits : (b : ℕ) → b < 256 → bit_and b 0x7f ≡ b % 128
unfolding agree
low_bits b h = agree_at (λ v. bit_and v 0x7f) (λ v. v % 128) 256 b h refl

pub top_bit : (b : ℕ) → b < 256 → bit_and b 0x80 ≡ b / 128 * 128
unfolding agree
top_bit b h = agree_at (λ v. bit_and v 0x80) (λ v. v / 128 * 128) 256 b h refl

pub set_top_bit : (b : ℕ) → b < 128 → bit_or b 0x80 ≡ b + 128
unfolding agree
set_top_bit b h = agree_at (λ v. bit_or v 0x80) (λ v. v + 128) 128 b h refl

-- The digit recursion behind the native operations, at any fuel that suffices.
module _ (z : ℕ → ℕ) (f : ℕ → ℕ → ℕ) where
  digits-zero : (n y : ℕ) → digits z f n 0 y ≡ z y
  digits-zero zero y = refl
  digits-zero (suc n) y = refl

  any_fuel : (n m x y : ℕ) → x ≤ n → x ≤ m → digits z f n x y ≡ digits z f m x y
  any_fuel n m zero y hn hm = digits-zero n y ∙ sym (digits-zero m y)
  any_fuel (suc n) (suc m) (suc x) y hn hm =
      ap (λ k. k * 2 + f (suc x % 2) (y % 2))
        (any_fuel n m (suc x / 2) (y / 2) (omega arith) (omega arith))
  any_fuel zero m (suc x) y hn hm = absurd (omega arith)
  any_fuel (suc n) zero (suc x) y hn hm = absurd (omega arith)

zero-bit_or : (y : ℕ) → bit_or 0 y ≡ y
zero-bit_or y = bit_or-bitwise 0 y

bit_or_step : (x y : ℕ) → bit_or x y ≡ bit_or (x / 2) (y / 2) * 2 + max (x % 2) (y % 2)
bit_or_step zero y = omega (arith, zero-bit_or y, zero-bit_or (y / 2))
bit_or_step (suc x) y =
    let whole = bit_or-bitwise (suc x) y in
    let half = bit_or-bitwise (suc x / 2) (y / 2) in
    let same = any_fuel (λ v. v) max x (suc x / 2) (suc x / 2) (y / 2) in
    omega (arith, whole, half, same (omega arith) (omega arith))

zero-bit_and : (y : ℕ) → bit_and 0 y ≡ 0
zero-bit_and y = bit_and-bitwise 0 y

bit_and_step : (x y : ℕ) → bit_and x y ≡ bit_and (x / 2) (y / 2) * 2 + min (x % 2) (y % 2)
bit_and_step zero y = omega (arith, zero-bit_and y, zero-bit_and (y / 2))
bit_and_step (suc x) y =
    let whole = bit_and-bitwise (suc x) y in
    let half = bit_and-bitwise (suc x / 2) (y / 2) in
    let same = any_fuel (λ v. zero) min x (suc x / 2) (suc x / 2) (y / 2) in
    omega (arith, whole, half, same (omega arith) (omega arith))

empty_upto : (n x : ℕ) → x ≤ n → bit_and x 0 ≡ 0
empty_upto n zero h = zero-bit_and 0
empty_upto zero (suc x) h = absurd (omega arith)
empty_upto (suc n) (suc x) h =
    let rest = empty_upto n (suc x / 2) (omega arith) in omega (arith, bit_and_step (suc x) 0, rest)

bit_and-zero : (x : ℕ) → bit_and x 0 ≡ 0
bit_and-zero x = empty_upto x x (omega arith)

mask_one : (v : ℕ) → bit_and v 1 ≡ v % 2
mask_one v = omega (arith, bit_and_step v 1, bit_and-zero (v / 2))

-- One bit more under the mask.
wider : (v m p : ℕ) → bit_and (v / 2) m ≡ v / 2 % p → bit_and v (m * 2 + 1) ≡ v / 2 % p * 2 + v % 2
wider v m p e =
    let half : (m * 2 + 1) / 2 ≡ m = omega arith in
    let odd : (m * 2 + 1) % 2 ≡ 1 = omega arith in
    bit_and_step v (m * 2 + 1) ∙ rw (half, odd, e) (omega arith)

mask_two : (v : ℕ) → bit_and v 3 ≡ v % 4
mask_two v = wider v 1 2 (mask_one (v / 2)) ∙ omega arith

mask_three : (v : ℕ) → bit_and v 7 ≡ v % 8
mask_three v = wider v 3 4 (mask_two (v / 2)) ∙ omega arith

mask_four : (v : ℕ) → bit_and v 15 ≡ v % 16
mask_four v = wider v 7 8 (mask_three (v / 2)) ∙ omega arith

mask_five : (v : ℕ) → bit_and v 31 ≡ v % 32
mask_five v = wider v 15 16 (mask_four (v / 2)) ∙ omega arith

mask_six : (v : ℕ) → bit_and v 63 ≡ v % 64
mask_six v = wider v 31 32 (mask_five (v / 2)) ∙ omega arith

-- `v & 0x7f` on a word of any width.
pub bit_and_group : (v : ℕ) → bit_and v 0x7f ≡ v % 128
bit_and_group v = wider v 63 64 (mask_six (v / 2)) ∙ omega arith

-- Bits from position `k` on, joined to a value below `2 ^ k`.
pub bit_or_high : (k acc g : ℕ) → acc < 2 ^ k → bit_or acc (g * 2 ^ k) ≡ acc + g * 2 ^ k
bit_or_high zero zero g h = omega (arith, zero-bit_or (g * 2 ^ 0))
bit_or_high zero (suc acc) g h = absurd (omega arith)
bit_or_high (suc k) acc g h = ground (
  arith,
  double,
  bit_or_step acc (g * 2 ^ suc k),
  bit_or_high k (acc / 2) g (ground (arith, double)),
)
  where
    double : g * 2 ^ suc k ≡ g * 2 ^ k * 2
    double = omega (arith, ap (λ (t : ℕ). g * t) (pow-suc 2 k))

pub shift_seven : (s : ℕ) → 2 ^ (s + 7) ≡ 128 * 2 ^ s
shift_seven s = simp towards_suc (omega arith)
