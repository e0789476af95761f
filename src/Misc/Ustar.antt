-- ===== src/Misc/Ustar.antt =====
-- kernel/src/utils/misc/ustar.c: files of a USTAR archive in memory. An `int` is its 32 bits, and the
-- lookup runs on fuel, one unit for each header, and `strlen` on `name_fuel`.
pub mod Lookup
use evalyn_os.Base.{
  ℕ, zero, suc, ◌+◌, ◌-◌, ◌*◌, ◌/◌, ◌%◌, ◌^◌, ◌==◌, ltb, leb, ◌&&◌, Bool, if◌then◌else◌, not,
  Option, some, none,
}
use evalyn_os.Libc.Memory.{Memory}
use evalyn_os.Libc.Strings.{memcmp, strlen}

-- `n * 8` is an int.
abbrev pub eightfold_fits : ℕ → Bool
eightfold_fits n = if ltb n (2 ^ 31) then ltb (n * 8) (2 ^ 31) else leb ((2 ^ 32 - n) * 8) (2 ^ 31)

-- The int `n` plus the byte `b` less 48 is an int.
abbrev pub sum_fits : (n b : ℕ) → Bool
sum_fits n b = let biased = (n + 2 ^ 31) % 2 ^ 32 + b in leb 48 biased && ltb biased (2 ^ 32 + 48)

-- The loop of `oct2bin`, with `n` the value so far; `none` is an overflow.
unfoldable pub oct2bin : (len : ℕ) → Memory → (c n : ℕ) → Option ℕ
oct2bin zero m c n = some n
oct2bin (suc len) m c n =
    let product = n * 8 % 2 ^ 32 in
    let rest = oct2bin len m (c + 1) ((product + (m c + 2 ^ 32 - 48)) % 2 ^ 32) in
    if eightfold_fits n && sum_fits product (m c) then rest else none

-- `USTAR_FILE_SIZE_OFFSET`
abbrev pub file_size_offset : ℕ
file_size_offset = 124

-- An `int` as 64 bits.
abbrev pub extend : ℕ → ℕ
extend n = if leb (2 ^ 31) n then n + 2 ^ 64 - 2 ^ 32 else n

-- `ALIGN_UP(x, 512)`
abbrev pub align_up : ℕ → ℕ
align_up x = (x + 511) % 2 ^ 64 / 512 * 512

-- `magic` is where the literal "ustar" stands. The result is the file's address with the value of
-- `*sz_out`, and `some none` is `nullptr`; `none` is a call that does not return, since the fuel
-- runs out, or an int overflows and the handler of `-fsanitize=undefined` panics.
unfoldable pub ustar_lookup :
    (fuel name_fuel : ℕ) → Memory → (magic ptr filename : ℕ) → Option (Option (ℕ × ℕ))
ustar_lookup zero name_fuel m magic ptr filename = none
ustar_lookup (suc k) name_fuel m magic ptr filename =
    let next = λ (filesize : ℕ).
      ustar_lookup k name_fuel m magic ((ptr + (align_up filesize + 512)) % 2 ^ 64) filename in
    if not (memcmp 5 m (ptr + 257) magic == 0)
    then some none
    else elim (oct2bin 11 m (ptr + file_size_offset) 0) [
      | none ↦ none
      | some size ↦
          let filesize = extend size in
          let rest = next filesize in
          elim (strlen name_fuel m filename) [
            | none ↦ none
            | some length ↦
                if memcmp (length + 1) m ptr filename == 0
                then some (some (ptr + 512, filesize))
                else rest
          ]
    ]
