-- ===== src/Mem/Words/Logarithms.antt =====
-- The logarithms of kernel/src/libc/math.h.
use evalyn_os.Base.{
  ℕ, zero, suc, ◌+◌, ◌-◌, ◌*◌, ◌/◌, ◌^◌, ◌≤◌, ◌<◌, ◌≡◌, inl, inr, ap, ◌∙◌, ◌==◌, ltb, false, arith,
  Bool-cases, dec_le,
}
use evalyn_os.Base.Powers.{pow-add, lt_of_pow-lt}
use evalyn_os.Mem.Words.{high_bit, log2ull, log2ullceil}

double : (a : ℕ) → 2 ^ (a + 1) ≡ 2 * 2 ^ a
double a = pow-add a 1 ∙ (grind arith)

pow-le : (a b : ℕ) → a ≤ b → 2 ^ a ≤ 2 ^ b
pow-le a b le = elim (dec_le (2 ^ a) (2 ^ b)) [
  | yes fine ↦ fine
  | no more ↦ absurd (omega (arith, le, lt_of_pow-lt b a (omega (arith, more))))
]

-- The highest bit of a number.
high_bit-bounds :
    (bits val : ℕ)
    → 0 < val
    → val < 2 ^ (bits + 1)
    → (2 ^ high_bit bits val ≤ val) × (val < 2 ^ (high_bit bits val + 1))
unfolding high_bit
high_bit-bounds zero val pos lt = (omega (arith, pos), lt)
high_bit-bounds (suc k) val pos lt = elim (Bool-cases (ltb val 2)) [
  | inl low ↦ rw low (omega (arith, pos), ground (arith, low))
  | inr more ↦
      let d = double (k + 1) in
      let e : 2 ^ (suc k + 1) ≡ 2 ^ (k + 1 + 1) = ap (λ x. 2 ^ x) (omega arith) in
      let (le, less) =
        high_bit-bounds k (val / 2) (ground (arith, more)) (omega (arith, lt, e, d)) in
      let d0 = double (high_bit k (val / 2)) in
      let d1 = double (high_bit k (val / 2) + 1) in
      let h = high_bit k (val / 2) in
      let e0 : 2 ^ suc h ≡ 2 ^ (h + 1) = ap (λ x. 2 ^ x) (omega arith) in
      let e1 : 2 ^ (suc h + 1) ≡ 2 ^ (h + 1 + 1) = ap (λ x. 2 ^ x) (omega arith) in
      rw more (omega (arith, le, d0, e0), omega (arith, less, d1, e1))
]

pub log2ull-bounds :
    (val : ℕ) → 0 < val → val < 2 ^ 64 → (2 ^ log2ull val ≤ val) × (val < 2 ^ (log2ull val + 1))
unfolding log2ull
log2ull-bounds val pos lt =
    let nz : (val == 0) ≡ false = ground (arith, pos) in
    rw nz (high_bit-bounds 64 val pos (omega (arith, lt)))

-- A segment of a class below that of a size is smaller.
pub class_below :
    (size n : ℕ)
    → 0 < size
    → size < 2 ^ 64
    → 1 < n
    → n < 2 ^ 64
    → log2ull size + 1 < log2ullceil n
    → size < n
unfolding log2ullceil
class_below size n pos small more nsmall lt =
    let big : log2ull size + 1 ≤ log2ull (n - 1) = ground (arith, lt, more) in
    let up = pow-le (log2ull size + 1) (log2ull (n - 1)) big in
    omega (
      arith,
      log2ull-bounds size pos small,
      log2ull-bounds (n - 1) (omega (arith, more)) (omega (arith, nsmall)),
      up,
      more,
    )

pub above_one : (n : ℕ) → 0 < log2ullceil n → 1 < n
unfolding log2ullceil
above_one n h = ground (arith, h)
