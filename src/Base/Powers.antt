-- ===== src/Base/Powers.antt =====
-- Powers of two: sums of exponents, and order.
use Prim.Native.Nat.{ℕ, zero, suc, ◌+◌, ◌*◌, ◌^◌, ◌≤◌, ◌<◌}
use mathlib.Core.Path.{◌≡◌, ap, ◌∙◌}
use native.Mathlib.Nat.{pow-suc, pow-le-pow_right, one-le-pow}
use native.Mathlib.Decide.{dec_lt}
use native.Mathlib.Numerals.{towards_suc}
use native.Mathlib.Omega.{arith}

pub pow-add_seven : (s : ℕ) → 2 ^ (s + 7) ≡ 128 * 2 ^ s
pow-add_seven s = simp towards_suc (omega arith)

pub pow-add : (a b : ℕ) → 2 ^ (a + b) ≡ 2 ^ a * 2 ^ b
pow-add a zero = let e : a + 0 ≡ a = omega arith in rw e (omega arith)
pow-add a (suc b) =
    let e : a + suc b ≡ suc (a + b) = omega arith in
    rw (e, pow-suc 2 (a + b), pow-add a b) (omega (arith, ap (λ (t : ℕ). 2 ^ a * t) (pow-suc 2 b)))

pub pow-pos : (a : ℕ) → 0 < 2 ^ a
pow-pos a = one-le-pow a 2 (omega arith)

pub lt_of_pow-lt : (a b : ℕ) → 2 ^ a < 2 ^ b → a < b
lt_of_pow-lt a b h = elim (dec_lt a b) [
  | yes lt ↦ lt
  | no ge ↦
      let le : 2 ^ b ≤ 2 ^ a = pow-le-pow_right (omega arith) (omega arith) in absurd (omega arith)
]

pub pow_double : (a : ℕ) → 2 ^ (a + 1) ≡ 2 * 2 ^ a
pow_double a = pow-add a 1 ∙ omega arith

pub pow_double_sum : (a b : ℕ) → 2 ^ (a + suc b) ≡ 2 * 2 ^ (a + b)
pow_double_sum a b =
    let e : a + suc b ≡ a + b + 1 = omega arith in ap (λ c. 2 ^ c) e ∙ pow_double (a + b)

pub pow_mono : (a b : ℕ) → a ≤ b → 2 ^ a ≤ 2 ^ b
pow_mono a b le = pow-le-pow_right (omega arith) le
