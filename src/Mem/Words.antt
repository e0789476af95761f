-- ===== src/Mem/Words.antt =====
-- 64-bit arithmetic of the allocators: kernel/src/utils/lib.h and kernel/src/libc/math.h.
pub mod Logarithms
pub mod Multiples
use evalyn_os.Base.{ℕ, zero, suc, ◌+◌, ◌-◌, ◌/◌, ◌*◌, ◌%◌, ◌^◌, ◌==◌, ltb, leb, if◌then◌else◌, Bool}

abbrev pub add64 : ℕ → ℕ → ℕ
add64 a b = (a + b) % 2 ^ 64

abbrev pub sub64 : ℕ → ℕ → ℕ
sub64 a b = (a + 2 ^ 64 - b) % 2 ^ 64

-- `MAX` and `MIN`
abbrev pub larger : ℕ → ℕ → ℕ
larger a b = if ltb b a then a else b

abbrev pub smaller : ℕ → ℕ → ℕ
smaller a b = if ltb a b then a else b

-- `ALIGN_UP` and `IS_ALIGNED`, whose masks are these at a power of two.
unfoldable pub align_up : (x align : ℕ) → ℕ
align_up x align = add64 x (align - 1) / align * align

abbrev pub is_aligned : (x align : ℕ) → Bool
is_aligned x align = x % align == 0

-- The position of the highest bit, among the lowest `bits`.
unfoldable pub high_bit : (bits val : ℕ) → ℕ
high_bit zero val = 0
high_bit (suc k) val = let rest = suc (high_bit k (val / 2)) in if ltb val 2 then 0 else rest

unfoldable pub log2ull : (val : ℕ) → ℕ
unfolding high_bit
log2ull val = if val == 0 then 0 else high_bit 64 val

unfoldable pub log2ullceil : (val : ℕ) → ℕ
unfolding log2ull
log2ullceil val = if leb val 1 then 0 else log2ull (val - 1) + 1
