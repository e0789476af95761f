-- ===== src/Mem/Words/Multiples.antt =====
-- Multiples of an alignment that divides 2^64.
use native.Mathlib.Nat.{
  div-add-mod, mul-le-mul_left, add-mod, mod-mod, mul-mod_left, div-mul-le_self, mod-mod_of_dvd,
  dvd_of_mod-eq-zero, div-eq_of_lt-le,
}
use evalyn_os.Base.{ℕ, ◌+◌, ◌-◌, ◌*◌, ◌/◌, ◌%◌, ◌^◌, ◌≤◌, ◌<◌, ◌≡◌, ap, sym, ◌∙◌, arith, dec_lt}
use evalyn_os.Mem.Words.{add64, align_up}

module _ (q : ℕ) where
  abbrev pub IsMultiple : ℕ → Type 0
  IsMultiple x = x % q ≡ 0

  -- The multiple of a quotient.
  pub quotient : (x : ℕ) → IsMultiple x → q * (x / q) ≡ x
  quotient x h = omega (arith, div-add-mod x q, h)

  pub multiples_apart : (x y : ℕ) → IsMultiple x → IsMultiple y → x < y → x + q ≤ y
  multiples_apart x y hx hy lt = elim (dec_lt (x / q) (y / q)) [
    | yes less ↦
        let step : q * (x / q + 1) ≤ q * (y / q) = mul-le-mul_left q (omega (arith, less)) in
        let flat : q * (x / q + 1) ≡ q * (x / q) + q = grind arith in
        omega (arith, step, flat, quotient x hx, quotient y hy)
    | no ge ↦
        let step : q * (y / q) ≤ q * (x / q) = mul-le-mul_left q (omega (arith, ge)) in
        absurd (omega (arith, step, quotient x hx, quotient y hy, lt))
  ]

  pub IsMultiple-add : (x y : ℕ) → IsMultiple x → IsMultiple y → IsMultiple (x + y)
  IsMultiple-add x y hx hy =
      let e : (x % q + y % q) % q ≡ 0 % q = ap (λ t. t % q) (omega (arith, hx, hy)) in
      let z : 0 % q ≡ 0 = ap (λ t. t % q) (sym hx) ∙ mod-mod x q ∙ hx in add-mod x y q ∙ e ∙ z

  pub IsMultiple-sub : (x y : ℕ) → y ≤ x → IsMultiple x → IsMultiple y → IsMultiple (x - y)
  IsMultiple-sub x y le hx hy =
      let whole : (x - y + y) % q ≡ x % q = ap (λ t. t % q) (omega (arith, le)) in
      let e : ((x - y) % q + y % q) % q ≡ (x - y) % q % q = ap (λ t. t % q) (omega (arith, hy)) in
      sym (mod-mod (x - y) q) ∙ sym e ∙ sym (add-mod (x - y) y q) ∙ whole ∙ hx

  pub align_up-IsMultiple : (x : ℕ) → IsMultiple (align_up x q)
  unfolding align_up
  align_up-IsMultiple x = mul-mod_left (add64 x (q - 1) / q) q

  pub align_up-lt : (x : ℕ) → align_up x q < 2 ^ 64
  unfolding align_up
  align_up-lt x = omega (arith, div-mul-le_self (add64 x (q - 1)) q)

  module _ (divides : IsMultiple (2 ^ 64)) (positive : 0 < q) where
    pub align_up_same : (x : ℕ) → IsMultiple x → x < 2 ^ 64 → align_up x q ≡ x
    unfolding align_up
    align_up_same x h lt =
        let far = multiples_apart x (2 ^ 64) h divides lt in
        let plain : (x + (q - 1)) % 2 ^ 64 ≡ x + (q - 1) = omega (arith, far, positive) in
        let whole = quotient x h in
        let flip : x / q * q ≡ q * (x / q) = grind arith in
        let next : (x / q + 1) * q ≡ x / q * q + q = grind arith in
        let same : (x + (q - 1)) / q ≡ x / q =
          div-eq_of_lt-le q (omega (arith, whole, flip))
            (omega (arith, whole, flip, next, positive)) in
        rw (plain, same) (flip ∙ whole)

    pub IsMultiple-mod : (x : ℕ) → IsMultiple x → IsMultiple (x % 2 ^ 64)
    IsMultiple-mod x h = mod-mod_of_dvd q x (dvd_of_mod-eq-zero q divides) ∙ h
