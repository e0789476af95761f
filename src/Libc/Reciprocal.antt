-- ===== src/Libc/Reciprocal.antt =====
-- kernel/src/libc/math.c: the shift of the timers' fixed-point multipliers.
pub mod Greatest
use evalyn_os.Base.{
  ℕ, zero, suc, ◌+◌, ◌-◌, ◌*◌, ◌/◌, ◌%◌, ◌^◌, ltb, leb, if◌then◌else◌, Option, some, none,
}

-- The bisection between `lo` and `hi`; `numerator << mid` is of 128 bits.
unfoldable pub bisect : (fuel numerator lim lo hi : ℕ) → Option ℕ
bisect zero numerator lim lo hi = none
bisect (suc k) numerator lim lo hi =
    let mid = (lo + hi + 1) % 2 ^ 32 / 2 in
    let upper = bisect k numerator lim mid hi in
    let lower = bisect k numerator lim lo (mid - 1) in
    if ltb lo hi
    then (if leb (numerator * 2 ^ mid % 2 ^ 128) lim then upper else lower)
    else some lo

-- Seven halvings and the last test are eight turns.
unfoldable pub find_reciprocal_shift : (numerator denominator : ℕ) → Option ℕ
find_reciprocal_shift numerator denominator =
    bisect 8 numerator (denominator * (2 ^ 64 - 1) % 2 ^ 128) 0 127
