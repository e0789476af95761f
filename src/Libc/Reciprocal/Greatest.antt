-- ===== src/Libc/Reciprocal/Greatest.antt =====
-- The shift is the greatest that keeps the multiplier in 64 bits.
use native.Mathlib.Nat.{pow-suc, pow-le-pow_right, mul-le-mul, mul_assoc}
use evalyn_os.Base.{
  ℕ, zero, suc, ◌+◌, ◌-◌, ◌*◌, ◌/◌, ◌%◌, ◌^◌, ◌≤◌, ◌<◌, ◌≡◌, ◌⊎◌, inl, inr, refl, ap, sym, ◌∙◌, ltb,
  leb, true, false, Option, some, arith, Bool-cases, leb→le,
}
use evalyn_os.Base.Powers.{pow-add, pow-pos}
use evalyn_os.Libc.Reciprocal.{bisect, find_reciprocal_shift}

-- `numerator * 2 ^ k`, in full
abbrev pub scaled : (numerator k : ℕ) → ℕ
scaled numerator k = numerator * 2 ^ k

-- The greatest shift up to 127 whose multiple is at most `lim`.
pub record IsGreatest (numerator lim r : ℕ) : Type 0 where
  pub fits : scaled numerator r ≤ lim
  pub most : (r ≡ 127) ⊎ (lim < scaled numerator (r + 1))

abbrev Finds : (numerator lim : ℕ) → Option ℕ → Type 0
Finds numerator lim o = (r : ℕ) × (o ≡ some r) × IsGreatest numerator lim r

scaled-add : (n a b : ℕ) → scaled n (a + b) ≡ scaled n a * 2 ^ b
scaled-add n a b = ap (λ t. n * t) (pow-add a b) ∙ sym (mul_assoc n (2 ^ a) (2 ^ b))

module _ (n lim : ℕ) where
  -- One turn, where the shifted numerator stays in 128 bits.
  turn :
      (k j lo hi : ℕ)
      → hi + 1 ≡ lo + 2 ^ suc j
      → hi < 2 ^ 31
      → scaled n (lo + 2 ^ j) < 2 ^ 128
      → (scaled n (lo + 2 ^ j) ≤ lim → Finds n lim (bisect k n lim (lo + 2 ^ j) hi))
      → (lim < scaled n (lo + 2 ^ j) → Finds n lim (bisect k n lim lo (lo + 2 ^ j - 1)))
      → Finds n lim (bisect (suc k) n lim lo hi)
  unfolding bisect
  turn k j lo hi span small plain up down =
      let double = pow-suc 2 j in
      let some_left = pow-pos j in
      let middle : (lo + hi + 1) % 2 ^ 32 / 2 ≡ lo + 2 ^ j = omega (arith, span, small, double) in
      let value : scaled n (lo + 2 ^ j) % 2 ^ 128 ≡ scaled n (lo + 2 ^ j) = omega (arith, plain) in
      let open' : ltb lo hi ≡ true = ground (arith, span, double, some_left) in
      elim (Bool-cases (leb (scaled n (lo + 2 ^ j)) lim)) [
        | inl le ↦ rw (middle, open', value, le) (up (leb→le _ lim le))
        | inr gt ↦ rw (middle, open', value, gt) (down (ground (arith, gt)))
      ]

  last :
      (k lo : ℕ)
      → scaled n lo ≤ lim
      → (lo ≡ 127) ⊎ (lim < scaled n (lo + 1))
      → Finds n lim (bisect (suc k) n lim lo lo)
  unfolding bisect
  last k lo fits most =
      let closed : ltb lo lo ≡ false = ground arith in
      (lo, rw closed refl, record { fits = fits; most = most })

  -- With sixteen places to go or fewer, nothing is lost at the top.
  room : (lo j : ℕ) → lim < 2 ^ 112 → scaled n lo ≤ lim → j ≤ 4 → scaled n (lo + 2 ^ j) < 2 ^ 128
  room lo j small fits le =
      let step : 2 ^ j ≤ 2 ^ 4 = pow-le-pow_right (omega arith) le in
      let factor : 2 ^ (2 ^ j) ≤ 2 ^ 16 = pow-le-pow_right (omega arith) step in
      let bound : scaled n lo * 2 ^ (2 ^ j) ≤ lim * 2 ^ 16 = mul-le-mul fits factor in
      omega (arith, scaled-add n lo (2 ^ j), bound, small)

  narrow :
      (j lo hi : ℕ)
      → lim < 2 ^ 112
      → j ≤ 5
      → hi + 1 ≡ lo + 2 ^ j
      → hi ≤ 127
      → scaled n lo ≤ lim
      → (hi ≡ 127) ⊎ (lim < scaled n (hi + 1))
      → Finds n lim (bisect (suc j) n lim lo hi)
  narrow zero lo hi small le span top fits most =
      let same : hi ≡ lo = omega (arith, span) in rw same (last zero lo fits (rw (← same) most))
  narrow (suc j) lo hi small le span top fits most =
      let double = pow-suc 2 j in
      let some_left = pow-pos j in
      turn (suc j) j lo hi span (omega (arith, top)) (room lo j small fits (omega (arith, le)))
        (λ more.
          narrow j (lo + 2 ^ j) hi small (omega (arith, le)) (omega (arith, span, double)) top more
            most)
        (λ less.
          let back : lo + 2 ^ j - 1 + 1 ≡ lo + 2 ^ j = omega (arith, some_left) in
          narrow j lo (lo + 2 ^ j - 1) small (omega (arith, le)) back
            (omega (arith, span, double, top, some_left)) fits (inr (rw back less)))

-- For a 64-bit numerator and a denominator from 1 to 2^48, where the numerator is below 2^32 or
-- not below the denominator, find_reciprocal_shift returns the greatest shift up to 127 for which
-- the shifted numerator is at most denominator * UINT64_MAX.
pub find_reciprocal_shift-IsGreatest :
    (n d : ℕ)
    → n < 2 ^ 64
    → 0 < d
    → d ≤ 2 ^ 48
    → (n < 2 ^ 32) ⊎ (d ≤ n)
    → (r : ℕ) × (find_reciprocal_shift n d ≡ some r) × IsGreatest n (d * (2 ^ 64 - 1)) r
unfolding find_reciprocal_shift
find_reciprocal_shift-IsGreatest n d hn hd le range =
    let lim = d * (2 ^ 64 - 1) in
    let whole : lim % 2 ^ 128 ≡ lim = omega (arith, le) in
    let small : lim < 2 ^ 112 = omega (arith, le) in
    let base : scaled n 0 ≤ lim = omega (arith, hn, hd) in
    rw whole (
      turn n lim 7 6 0 127 refl (omega arith) (omega (arith, hn))
        (λ more.
          turn n lim 6 5 64 127 refl (omega arith) (omega (arith, range, more))
            (λ more'. narrow n lim 5 96 127 small (omega arith) refl (omega arith) more' (inl refl))
            (λ less. narrow n lim 5 64 95 small (omega arith) refl (omega arith) more (inr less)))
        (λ less.
          turn n lim 6 5 0 63 refl (omega arith) (omega (arith, hn))
            (λ more. narrow n lim 5 32 63 small (omega arith) refl (omega arith) more (inr less))
            (λ less'. narrow n lim 5 0 31 small (omega arith) refl (omega arith) base (inr less'))))
