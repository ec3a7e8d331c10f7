-- ===== src/Base/Bits.antt =====
-- Facts about the bit operations at variables: a disjunction of disjoint fields is their sum.
use Prim.Native.Nat.{
  ℕ, zero, suc, ◌+◌, ◌*◌, ◌/◌, ◌%◌, ◌^◌, ◌≤◌, ◌<◌, max, bit_and, bit_or, digits, bit_and-bitwise,
  bit_or-bitwise, min,
}
use mathlib.Core.Path.{◌≡◌, refl, ap, ◌∙◌}
use native.Mathlib.Nat.{pow-suc}
use native.Mathlib.Omega.{arith}

-- The count of digits does not matter, if it is enough for the first number.
digits_fuel :
    (z : ℕ → ℕ) (f : ℕ → ℕ → ℕ) (n m a b : ℕ) → a ≤ n → a ≤ m → digits z f n a b ≡ digits z f m a b
digits_fuel z f zero zero a b p q = refl
digits_fuel z f zero (suc m) zero b p q = refl
digits_fuel z f zero (suc m) (suc a) b p q = absurd (omega arith)
digits_fuel z f (suc n) zero zero b p q = refl
digits_fuel z f (suc n) zero (suc a) b p q = absurd (omega arith)
digits_fuel z f (suc n) (suc m) zero b p q = refl
digits_fuel z f (suc n) (suc m) (suc a) b p q =
    omega (arith, digits_fuel z f n m (suc a / 2) (b / 2) (omega arith) (omega arith))

pub zero-bit_or : (b : ℕ) → bit_or 0 b ≡ b
zero-bit_or b = bit_or-bitwise 0 b

pub bit_or_step : (a b : ℕ) → bit_or a b ≡ bit_or (a / 2) (b / 2) * 2 + max (a % 2) (b % 2)
bit_or_step zero b = omega (arith, zero-bit_or b, zero-bit_or (b / 2))
bit_or_step (suc a) b = omega (
  arith,
  bit_or-bitwise (suc a) b,
  bit_or-bitwise (suc a / 2) (b / 2),
  digits_fuel (λ x. x) max a (suc a / 2) (suc a / 2) (b / 2) (omega arith) (omega arith),
)

bit_or-zero_fuel : (n a : ℕ) → a ≤ n → bit_or a 0 ≡ a
bit_or-zero_fuel n zero h = refl
bit_or-zero_fuel zero (suc a) h = absurd (omega arith)
bit_or-zero_fuel (suc n) (suc a) h =
    omega (arith, bit_or_step (suc a) 0, bit_or-zero_fuel n (suc a / 2) (omega arith))

pub bit_or-zero : (a : ℕ) → bit_or a 0 ≡ a
bit_or-zero a = bit_or-zero_fuel a a (omega arith)

pub pow2-suc : (k : ℕ) → 2 ^ suc k ≡ 2 * 2 ^ k
pow2-suc k = omega (arith, pow-suc 2 k)

shift-double : (k h : ℕ) → h * 2 ^ suc k ≡ h * 2 ^ k * 2
shift-double k h = omega (arith, ap (λ (t : ℕ). h * t) (pow2-suc k))

shift-half : (k h : ℕ) → h * 2 ^ suc k / 2 ≡ h * 2 ^ k
shift-half k h = omega (arith, shift-double k h)

-- `(h << k) | l` with `l` below `2 ^ k`.
pub bit_or_disjoint : (k h l : ℕ) → l < 2 ^ k → bit_or (h * 2 ^ k) l ≡ h * 2 ^ k + l
bit_or_disjoint zero h zero p = bit_or-zero (h * 2 ^ 0) ∙ omega arith
bit_or_disjoint zero h (suc l) p = absurd (omega arith)
bit_or_disjoint (suc k) h l p =
    let ih = bit_or_disjoint k h (l / 2) (omega (arith, pow2-suc k)) in
    bit_or_step (h * 2 ^ suc k) l ∙ rw (shift-half k h) (omega (arith, shift-double k h, ih))

bit_and_last : (a b : ℕ) → bit_and a b ≡ bit_and (a / 2) (b / 2) * 2 + min (a % 2) (b % 2)
bit_and_last zero b = omega (arith, bit_and-bitwise 0 b, bit_and-bitwise 0 (b / 2))
bit_and_last (suc a) b = omega (
  arith,
  bit_and-bitwise (suc a) b,
  bit_and-bitwise (suc a / 2) (b / 2),
  digits_fuel (λ x. 0) min a (suc a / 2) (suc a / 2) (b / 2) (omega arith) (omega arith),
)

none_and : (a : ℕ) → bit_and a 0 ≡ 0
none_and a = none_below a a (omega arith)
  where
    none_below : (n a : ℕ) → a ≤ n → bit_and a 0 ≡ 0
    none_below n zero h = bit_and-bitwise 0 0
    none_below zero (suc a) h = absurd (omega arith)
    none_below (suc n) (suc a) h =
        omega (arith, bit_and_last (suc a) 0, none_below n (suc a / 2) (omega arith))

odd_mask : (a m n : ℕ) → n ≡ 2 * m + 1 → bit_and a n ≡ bit_and (a / 2) m * 2 + a % 2
odd_mask a m n e =
    bit_and_last a n
    ∙ ap (λ k. bit_and (a / 2) k * 2 + min (a % 2) (n % 2)) {x = n / 2} {y = m} (omega arith)
    ∙ omega arith

-- `a & 0x3f`
pub bit_and_63 : (a : ℕ) → bit_and a 63 ≡ a % 64
bit_and_63 a = omega (
  arith,
  odd_mask a 31 63 refl,
  odd_mask (a / 2) 15 31 refl,
  odd_mask (a / 2 / 2) 7 15 refl,
  odd_mask (a / 2 / 2 / 2) 3 7 refl,
  odd_mask (a / 2 / 2 / 2 / 2) 1 3 refl,
  odd_mask (a / 2 / 2 / 2 / 2 / 2) 0 1 refl,
  none_and (a / 2 / 2 / 2 / 2 / 2 / 2),
)
