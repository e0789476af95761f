-- ===== src/Base/Bits.antt =====
-- The disjunction of a word with a digit that is shifted past it, as a sum.
use Prim.Native.Nat.{
  ℕ, zero, suc, ◌+◌, ◌*◌, ◌/◌, ◌%◌, ◌^◌, ◌≤◌, ◌<◌, max, bit_or, digits, bit_or-bitwise,
}
use mathlib.Core.Path.{◌≡◌, refl, ap}
use native.Mathlib.Nat.{pow-suc}
use native.Mathlib.Omega.{arith}

abbrev or_digits : ℕ → ℕ → ℕ → ℕ
or_digits n a b = digits (λ b. b) max n a b

or_digits_fuel : (n m a b : ℕ) → a ≤ n → a ≤ m → or_digits n a b ≡ or_digits m a b
or_digits_fuel zero zero a b p q = refl
or_digits_fuel zero (suc m) zero b p q = refl
or_digits_fuel zero (suc m) (suc a) b p q = absurd (omega arith)
or_digits_fuel (suc n) zero zero b p q = refl
or_digits_fuel (suc n) zero (suc a) b p q = absurd (omega arith)
or_digits_fuel (suc n) (suc m) zero b p q = refl
or_digits_fuel (suc n) (suc m) (suc a) b p q =
    omega (arith, or_digits_fuel n m (suc a / 2) (b / 2) (omega arith) (omega arith))

zero-bit_or : (b : ℕ) → bit_or 0 b ≡ b
zero-bit_or b = bit_or-bitwise 0 b

-- The law for the lowest bit.
pub bit_or_step : (a b : ℕ) → bit_or a b ≡ bit_or (a / 2) (b / 2) * 2 + max (a % 2) (b % 2)
bit_or_step zero b = omega (arith, zero-bit_or b, zero-bit_or (b / 2))
bit_or_step (suc a) b = omega (
  arith,
  bit_or-bitwise (suc a) b,
  bit_or-bitwise (suc a / 2) (b / 2),
  or_digits_fuel a (suc a / 2) (suc a / 2) (b / 2) (omega arith) (omega arith),
)

or_double : (a t : ℕ) → bit_or (a / 2) t ≡ a / 2 + t → bit_or a (t * 2) ≡ a + t * 2
or_double a t h =
    let e : t * 2 / 2 ≡ t = omega arith in
    omega (arith, bit_or_step a (t * 2), ap (bit_or (a / 2)) e, h)

-- `a | (b << k)` is a sum where `a` lies below bit `k`.
pub bit_or-shift : (k a b : ℕ) → a < 2 ^ k → bit_or a (b * 2 ^ k) ≡ a + b * 2 ^ k
bit_or-shift zero zero b h = omega (arith, zero-bit_or (b * 1))
bit_or-shift zero (suc a) b h = absurd (omega arith)
bit_or-shift (suc k) a b h =
    let e : b * 2 ^ suc k ≡ b * 2 ^ k * 2 = omega (arith, ap (λ (t : ℕ). b * t) (pow-suc 2 k)) in
    rw e (or_double a (b * 2 ^ k) (bit_or-shift k (a / 2) b (omega (arith, pow-suc 2 k))))
