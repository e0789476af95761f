-- ===== src/Mem/Buddy/Halves.antt =====
-- A block and its buddy, the other half of the block of the next order.
use mathlib.Core.Path.{subst}
use native.Mathlib.Nat.{mul-mod_right}
use evalyn_os.Base.{
  ℕ, ◌+◌, ◌-◌, ◌*◌, ◌/◌, ◌%◌, ◌^◌, ◌≤◌, ◌<◌, ◌≡◌, ◌⊎◌, inl, inr, refl, ap, sym, ◌∙◌, ◌==◌, ◌||◌,
  true, arith, Bool-cases,
}
use evalyn_os.Base.Powers.{pow-pos, pow_double}
use evalyn_os.Mem.Words.{smaller}
use evalyn_os.Mem.Words.Multiples.{IsMultiple, quotient}
use evalyn_os.Mem.Buddy.{Buddy, buddy_of}
use evalyn_os.Mem.Buddy.Invariant.{Apart, none_out, Inv, IsFreePage, within_block}

-- A block and its buddy are the halves of a block of the next order.
pub buddy_of-halves :
    (p k : ℕ)
    → IsMultiple (2 ^ k) p
    → (IsMultiple (2 * 2 ^ k) p × (buddy_of p k ≡ p + 2 ^ k))
      ⊎ (IsMultiple (2 * 2 ^ k) (buddy_of p k) × (p ≡ buddy_of p k + 2 ^ k))
buddy_of-halves p k mult =
    let q = 2 ^ k in
    let whole = quotient q p mult in
    let h = p / q / 2 in
    let many : 2 * q * h % (2 * q) ≡ 0 = mul-mod_right (2 * q) h in
    elim (Bool-cases (p / q % 2 == 0)) [
      | inl even ↦
          let n : p / q ≡ 2 * h = ground (arith, even) in
          let e : q * (p / q) ≡ 2 * q * h = rw n (grind arith) in
          inl (ap (λ x. x % (2 * q)) (sym whole ∙ e) ∙ many, rw even refl)
      | inr odd ↦
          let n : p / q ≡ 2 * h + 1 = ground (arith, odd) in
          let e : q * (p / q) ≡ 2 * q * h + q = rw n (grind arith) in
          let low : p - q ≡ 2 * q * h = omega (arith, whole, e) in
          inr (rw odd (ap (λ x. x % (2 * q)) low ∙ many), rw odd (omega (arith, whole, e)))
    ]

-- The lower half is a multiple of the double.
pub merged-IsMultiple :
    (p k : ℕ) → IsMultiple (2 ^ k) p → IsMultiple (2 ^ (k + 1)) (smaller (buddy_of p k) p)
merged-IsMultiple p k mult =
    subst (λ q. IsMultiple q (smaller (buddy_of p k) p)) (sym (pow_double k))
      (elim (buddy_of-halves p k mult) [
        | inl (m, e) ↦
            let s : smaller (buddy_of p k) p ≡ p = ground (arith, e) in
            subst (IsMultiple (2 * 2 ^ k)) (sym s) m
        | inr (m, e) ↦
            let s : smaller (buddy_of p k) p ≡ buddy_of p k = ground (arith, e, pow-pos k) in
            subst (IsMultiple (2 * 2 ^ k)) (sym s) m
      ])

-- The pages of both are those of the block they make.
pub merged_pages :
    (p k a : ℕ)
    → IsMultiple (2 ^ k) p
    → within_block (smaller (buddy_of p k) p) (k + 1) a
      ≡ (within_block p k a || within_block (buddy_of p k) k a)
merged_pages p k a mult = elim (buddy_of-halves p k mult) [
  | inl (m, e) ↦
      let s : smaller (buddy_of p k) p ≡ p = ground (arith, e) in
      rw (s, e, pow_double k) (ground arith)
  | inr (m, e) ↦
      let s : smaller (buddy_of p k) p ≡ buddy_of p k = ground (arith, e, pow-pos k) in
      let e' : within_block p k a ≡ within_block (buddy_of p k + 2 ^ k) k a =
        ap (λ x. within_block x k a) e in
      rw (s, e', pow_double k) (ground arith)
]

-- A block that is to be free, and the allocator with no block there.
pub record IsLoose (b : Buddy) (p k : ℕ) : Type 0 where
  pub inv : Inv none_out b
  pub aligned : IsMultiple (2 ^ k) p
  pub small : k ≤ 14
  pub clear : Apart none_out b p k

abbrev pub IsLooseOrFree : Buddy → (p k a : ℕ) → Type 0
IsLooseOrFree b p k a = (within_block p k a ≡ true) ⊎ IsFreePage none_out b a

abbrev pub Beside : (x w y q : ℕ) → Type 0
Beside x w y q = (x + w ≤ y) ⊎ (y + q ≤ x)

pub Beside-halves :
    (x w y z q r : ℕ)
    → z ≡ y + q
    → r ≡ 2 * q
    → 0 < w
    → Beside x w y q
    → Beside x w z q
    → Beside x w y r
Beside-halves x w y z q r e two pos (inl lo) h = inl lo
Beside-halves x w y z q r e two pos (inr hi) (inl lo) = absurd (omega (arith, hi, lo, e, pos))
Beside-halves x w y z q r e two pos (inr hi) (inr hi') = inr (omega (arith, hi', e, two))
