-- ===== src/Tests/Libc.antt =====
-- The functions of kernel/src/libc/string.c on a small memory.
use evalyn_os.Base.{
  ℕ, Option, none, some, List, ◌^◌, ◌-◌, inl, ◌*◌, ◌%◌, ◌≡◌, refl, arith, false, inr, map, [], ◌∷◌,
}
use evalyn_os.Libc.Reciprocal.{bisect, find_reciprocal_shift}
use evalyn_os.Libc.Reciprocal.Greatest.{IsGreatest, find_reciprocal_shift-IsGreatest}
use evalyn_os.Libc.Memory.{Memory, memcpy, memmove, memset}
use evalyn_os.Libc.Copy.{Copied, memcpy-Copied, memmove-Copied}
use evalyn_os.Libc.Fill.{Filled, memset-Filled}

-- Byte `x` is `7 * x`.
abbrev bytes : Memory
bytes x = 7 * x % 256

-- An aligned copy with blocks, words and bytes, from 100 to 300.
abbrev written : Option Memory → List ℕ
written none = []
written (some m) = map m (300 ∷ 301 ∷ 395 ∷ 396 ∷ [])

memcpy_run : written (memcpy false bytes 301 101 95) ≡ map bytes (300 ∷ 101 ∷ 195 ∷ 396 ∷ [])
unfolding memcpy
memcpy_run = refl

memcpy-Copied_example :
    (m' : Memory) × (memcpy false bytes 301 101 95 ≡ some m') × Copied bytes 301 101 95 m'
memcpy-Copied_example = memcpy-Copied false bytes 301 101 95 (inr (omega arith))

-- Up by one place, where a forward copy would repeat the first byte.
memmove_run :
    map (memmove bytes 11 10 4) (10 ∷ 11 ∷ 14 ∷ 15 ∷ []) ≡ map bytes (10 ∷ 10 ∷ 13 ∷ 15 ∷ [])
unfolding memmove
memmove_run = refl

memmove-Copied_example : Copied bytes 11 10 4 (memmove bytes 11 10 4)
memmove-Copied_example = memmove-Copied bytes 11 10 4

memset_run :
    map (memset false bytes 301 511 95) (300 ∷ 301 ∷ 395 ∷ 396 ∷ [])
    ≡ bytes 300 ∷ 255 ∷ 255 ∷ bytes 396 ∷ []
unfolding memset
memset_run = refl

memset-Filled_example : Filled bytes 301 511 95 (memset false bytes 301 511 95)
memset-Filled_example = memset-Filled false bytes 301 511 95

-- Nanoseconds from the ticks of a 10 MHz timer.
find_reciprocal_shift-IsGreatest_example :
    (r : ℕ) × (find_reciprocal_shift 1000000000 10000000 ≡ some r)
    × IsGreatest 1000000000 (10000000 * (2 ^ 64 - 1)) r
find_reciprocal_shift-IsGreatest_example =
    find_reciprocal_shift-IsGreatest 1000000000 10000000 (omega arith) (omega arith) (omega arith)
      (inl (omega arith))

shift_run : find_reciprocal_shift 1000000000 3000000000 ≡ some 65
unfolding find_reciprocal_shift bisect
shift_run = refl

-- A numerator of 2^33 or more leaves the 128 bits, and the shift is not 70.
shift_lost : find_reciprocal_shift (2 ^ 33) (2 ^ 40) ≡ some 127
unfolding find_reciprocal_shift bisect
shift_lost = refl
