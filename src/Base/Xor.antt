-- ===== src/Base/Xor.antt =====
-- Exclusive or twice with the same number is nothing.
use Prim.Native.Nat.{
  ℕ, zero, suc, ◌+◌, ◌*◌, ◌/◌, ◌%◌, ◌≤◌, ◌<◌, bit_xor, digits, differ, bit_xor-bitwise,
}
use mathlib.Core.Path.{◌≡◌, refl}
use native.Mathlib.Omega.{arith}

abbrev keep : ℕ → ℕ
keep b = b

abbrev xor_digits : ℕ → ℕ → ℕ → ℕ
xor_digits n a b = digits keep differ n a b

-- Any fuel that is at least the first number will do.
xor_digits_fuel : (n m a b : ℕ) → a ≤ n → a ≤ m → xor_digits n a b ≡ xor_digits m a b
xor_digits_fuel zero zero a b p q = refl
xor_digits_fuel zero (suc m) zero b p q = refl
xor_digits_fuel zero (suc m) (suc a) b p q = absurd (omega arith)
xor_digits_fuel (suc n) zero zero b p q = refl
xor_digits_fuel (suc n) zero (suc a) b p q = absurd (omega arith)
xor_digits_fuel (suc n) (suc m) zero b p q = refl
xor_digits_fuel (suc n) (suc m) (suc a) b p q =
    omega (arith, xor_digits_fuel n m (suc a / 2) (b / 2) (omega arith) (omega arith))

zero-bit_xor : (b : ℕ) → bit_xor 0 b ≡ b
zero-bit_xor b = bit_xor-bitwise 0 b

differ_digit : (p q : ℕ) → p < 2 → q < 2 → (differ p q < 2) × (differ (differ p q) q ≡ p)
differ_digit zero zero h k = omega arith
differ_digit zero (suc zero) h k = omega arith
differ_digit zero (suc (suc q)) h k = absurd (omega arith)
differ_digit (suc zero) zero h k = omega arith
differ_digit (suc zero) (suc zero) h k = omega arith
differ_digit (suc zero) (suc (suc q)) h k = absurd (omega arith)
differ_digit (suc (suc p)) q h k = absurd (omega arith)

bit_xor_step : (a b : ℕ) → bit_xor a b ≡ bit_xor (a / 2) (b / 2) * 2 + differ (a % 2) (b % 2)
bit_xor_step zero b = omega (arith, zero-bit_xor b, zero-bit_xor (b / 2))
bit_xor_step (suc a) b = omega (
  arith,
  bit_xor-bitwise (suc a) b,
  bit_xor-bitwise (suc a / 2) (b / 2),
  xor_digits_fuel a (suc a / 2) (suc a / 2) (b / 2) (omega arith) (omega arith),
)

bit_xor_twice_below : (n a k : ℕ) → a ≤ n → k ≤ n → bit_xor (bit_xor a k) k ≡ a
bit_xor_twice_below zero zero zero h g = refl
bit_xor_twice_below zero zero (suc k) h g = absurd (omega arith)
bit_xor_twice_below zero (suc a) k h g = absurd (omega arith)
bit_xor_twice_below (suc n) a k h g =
    let (small, digit) = differ_digit (a % 2) (k % 2) (omega arith) (omega arith) in
    let x = bit_xor a k in
    let step = bit_xor_step a k in
    let high : x / 2 ≡ bit_xor (a / 2) (k / 2) = omega arith in
    let low : x % 2 ≡ differ (a % 2) (k % 2) = omega arith in
    let rest = bit_xor_twice_below n (a / 2) (k / 2) (omega arith) (omega arith) in
    ground (arith, bit_xor_step x k)

pub bit_xor_twice : (a k : ℕ) → bit_xor (bit_xor a k) k ≡ a
bit_xor_twice a k = bit_xor_twice_below (a + k) a k (omega arith) (omega arith)
