-- ===== src/Prelude/Bits.antt =====
-- `|` of a shifted value and one that fits below it, as a sum.
use Prim.Native.Nat.{
  ℕ, zero, suc, ◌+◌, ◌*◌, ◌/◌, ◌%◌, ◌^◌, ◌≤◌, ◌<◌, max, digits, bit_or, bit_or-bitwise,
}
use mathlib.Core.Path.{◌≡◌, refl, ap}
use native.Mathlib.Nat.{pow-suc}
use native.Mathlib.Omega.{arith}

abbrev or_digits : ℕ → ℕ → ℕ → ℕ
or_digits n a b = digits (λ y. y) max n a b

-- Any count of digits that covers `a` gives the same result.
or_digits_count : (n m a b : ℕ) → a ≤ n → a ≤ m → or_digits n a b ≡ or_digits m a b
or_digits_count zero zero a b p q = refl
or_digits_count zero (suc m) zero b p q = refl
or_digits_count zero (suc m) (suc a) b p q = absurd (omega arith)
or_digits_count (suc n) zero zero b p q = refl
or_digits_count (suc n) zero (suc a) b p q = absurd (omega arith)
or_digits_count (suc n) (suc m) zero b p q = refl
or_digits_count (suc n) (suc m) (suc a) b p q =
    omega (arith, or_digits_count n m (suc a / 2) (b / 2) (omega arith) (omega arith))

zero-bit_or : (b : ℕ) → bit_or 0 b ≡ b
zero-bit_or b = bit_or-bitwise 0 b

-- The lowest digit apart.
bit_or-halves : (a b : ℕ) → bit_or a b ≡ bit_or (a / 2) (b / 2) * 2 + max (a % 2) (b % 2)
bit_or-halves zero b = omega (arith, zero-bit_or b, zero-bit_or (b / 2))
bit_or-halves (suc a) b = omega (
  arith,
  bit_or-bitwise (suc a) b,
  bit_or-bitwise (suc a / 2) (b / 2),
  or_digits_count a (suc a / 2) (suc a / 2) (b / 2) (omega arith) (omega arith),
)

bit_or-zero_below : (n a : ℕ) → a ≤ n → bit_or a 0 ≡ a
bit_or-zero_below n zero h = refl
bit_or-zero_below zero (suc a) h = absurd (omega arith)
bit_or-zero_below (suc n) (suc a) h =
    omega (arith, bit_or-halves (suc a) 0, bit_or-zero_below n (suc a / 2) (omega arith))

double_shift : (k a : ℕ) → a * 2 ^ suc k ≡ a * 2 ^ k * 2
double_shift k a = omega (arith, ap (λ (t : ℕ). a * t) (pow-suc 2 k))

pub bit_or-shift : (k a b : ℕ) → b < 2 ^ k → bit_or (a * 2 ^ k) b ≡ a * 2 ^ k + b
bit_or-shift zero a b h = ground (arith, bit_or-zero_below a a)
bit_or-shift (suc k) a b h = ground (
  arith,
  bit_or-halves (a * 2 ^ suc k) b,
  double_shift k a,
  pow-suc 2 k,
  bit_or-shift k a (b / 2),
)
