-- ===== src/Loader/Symbols/Best.antt =====
-- The loop keeps the highest candidate.
use mathlib.Core.Path.{subst}
use evalyn_os.Base.{
  ℕ, zero, suc, ◌+◌, ◌≤◌, ◌<◌, ◌≡◌, refl, ltb, ◌&&◌, inl, inr, true, false, Option, none, some,
  arith, Bool-cases, dec_lt,
}
use evalyn_os.Loader.Symbols.{Symbol, is_candidate, better, best_loop}

-- Of the symbols below `i`: none is a candidate, or the highest is kept.
abbrev pub IsBest : (symbols : ℕ → Symbol) → (pc i : ℕ) → Option Symbol → Type 0
IsBest symbols pc i none = (j : ℕ) → j < i → is_candidate pc (symbols j) ≡ false
IsBest symbols pc i (some b) =
    ((k : ℕ) × (k < i) × (b ≡ symbols k) × (is_candidate pc (symbols k) ≡ true))
    × ((j : ℕ) → j < i → is_candidate pc (symbols j) ≡ true → (symbols j).value ≤ b.value)

module _ (symbols : ℕ → Symbol) (pc : ℕ) where
  -- A statement on the symbols below `i`, and the one on `i`.
  below_or_at : (P : ℕ → Type 0) (i : ℕ) → ((j : ℕ) → j < i → P j) → P i → (j : ℕ) → j < i + 1 → P j
  below_or_at P i f at j lt = elim (dec_lt j i) [
    | yes less ↦ f j less
    | no ge ↦ subst P (omega (arith, ge, lt)) at
  ]

  better-IsBest :
      (i : ℕ) (b : Option Symbol)
      → IsBest symbols pc i b
      → IsBest symbols pc (i + 1) (better pc b (symbols i))
  better-IsBest i none h = elim (Bool-cases (is_candidate pc (symbols i))) [
    | inl new ↦ rw new (
      (i, omega arith, refl, new),
      below_or_at (λ j. is_candidate pc (symbols j) ≡ true → (symbols j).value ≤ (symbols i).value)
          i (λ j lt c. absurd (ground (arith, h j lt, c))) (λ c. omega arith),
    )
    | inr old ↦ rw old (below_or_at (λ j. is_candidate pc (symbols j) ≡ false) i h old)
  ]
  better-IsBest i (some b) h =
      elim (Bool-cases (is_candidate pc (symbols i) && ltb b.value (symbols i).value)) [
        | inl new ↦ rw new (
          (i, omega arith, refl, ground (arith, new)),
          below_or_at
              (λ j. is_candidate pc (symbols j) ≡ true → (symbols j).value ≤ (symbols i).value) i
              (λ j lt c. ground (arith, h.1 j lt c, new)) (λ c. omega arith),
        )
        | inr old ↦
            let (k, lt, e, c) = h.0 in
            rw old (
              (k, omega (arith, lt), e, c),
              below_or_at (λ j. is_candidate pc (symbols j) ≡ true → (symbols j).value ≤ b.value) i
                  h.1 (λ d. ground (arith, d, old)),
            )
      ]

  pub best_loop-IsBest :
      (n i last : ℕ) (b : Option Symbol)
      → last ≡ i + n
      → IsBest symbols pc i b
      → IsBest symbols pc last (best_loop symbols pc n i b)
  unfolding best_loop
  best_loop-IsBest zero i last b e h = subst (λ j. IsBest symbols pc j b) (omega (arith, e)) h
  best_loop-IsBest (suc n) i last b e h =
      best_loop-IsBest n (i + 1) last (better pc b (symbols i)) (omega (arith, e))
        (better-IsBest i b h)
