-- ===== src/Dwarf/Reader.antt =====
-- kernel/src/loader/dwarf/helpers.h: LEB128 numbers and little-endian fields, read between a
-- pointer and the end of its buffer; `strnlen` of kernel/src/libc/string.c; `skip_string` of
-- kernel/src/loader/dwarf/line.c. A reader returns the advanced pointer with its value.
pub mod Bounds
pub mod Leb
use evalyn_os.Base.{
  ℕ, zero, suc, ◌+◌, ◌-◌, ◌*◌, ◌/◌, ◌%◌, ◌^◌, bit_or, ◌==◌, ltb, leb, if◌then◌else◌, ◌&&◌,
}
use evalyn_os.Dwarf.Run.{Run, done, failed, fault, out_of_fuel, ◌>>=◌, Section, load}

-- `end - p` in a uint64_t
abbrev pub sub64 : ℕ → ℕ → ℕ
sub64 a b = (a + 2 ^ 64 - b) % 2 ^ 64

-- One round for each pass of `while (true)`: pointer, value and shift.
unfoldable pub read_uleb_impl : Section → ℕ → (end result shift p : ℕ) → Run (ℕ × ℕ × ℕ)
unfolding load
read_uleb_impl s zero end result shift p = out_of_fuel
read_uleb_impl s (suc k) end result shift p =
    let rest = λ (result' : ℕ). read_uleb_impl s k end result' (shift + 7) (p + 1) in
    if leb end p then failed else if leb 64 shift then failed else do
      byte ← load s p
      let result' = bit_or result (byte % 128 * 2 ^ shift % 2 ^ 64)
      if byte / 128 % 2 == 0 then done (p + 1, result', shift + 7) else rest result'

-- The shift passes 64 in the tenth round, and the eleventh stops.
abbrev pub uleb_rounds : ℕ
uleb_rounds = 11

unfoldable pub read_uleb : Section → (end p : ℕ) → Run (ℕ × ℕ)
unfolding read_uleb_impl
read_uleb s end p = do (p', value, _) ← read_uleb_impl s uleb_rounds end 0 0 p; done (p', value)

-- The sign extension of `dwarf_read_sleb`, on the 64 bits of its `int64_t`.
unfoldable pub sign_extend : (value shift : ℕ) → ℕ
sign_extend value shift =
    if ltb shift 64 && (value / 2 ^ (shift - 1) % 2 == 1)
    then bit_or value ((2 ^ 64 - 1) * 2 ^ shift % 2 ^ 64)
    else value

unfoldable pub read_sleb : Section → (end p : ℕ) → Run (ℕ × ℕ)
unfolding read_uleb_impl sign_extend
read_sleb s end p = do
  (p', value, shift) ← read_uleb_impl s uleb_rounds end 0 0 p
  done (p', sign_extend value shift)

-- The little-endian number that `memcpy` leaves in a zeroed integer.
unfoldable pub load_le : Section → (p bytes : ℕ) → Run ℕ
unfolding load
load_le s p zero = done 0
load_le s p (suc n) = do b ← load s p; rest ← load_le s (p + 1) n; done (b + 256 * rest)

-- A copy of more than eight bytes would leave the `uint64_t` that it fills.
unfoldable pub read_bytes : Section → (end p bytes : ℕ) → Run (ℕ × ℕ)
unfolding load_le
read_bytes s end p bytes =
    if ltb (sub64 end p) bytes
    then failed
    else if ltb 8 bytes
    then fault
    else do value ← load_le s p bytes; done (p + bytes, value)

unfoldable pub strnlen : Section → (p maxlen : ℕ) → Run ℕ
unfolding load
strnlen s p zero = done 0
strnlen s p (suc m) =
    let rest = strnlen s (p + 1) m in
    do c ← load s p; if c == 0 then done 0 else do n ← rest; done (suc n)

unfoldable pub skip_string : Section → (end p : ℕ) → Run ℕ
unfolding strnlen
skip_string s end p = do
  len ← strnlen s p (sub64 end p)
  if leb end (p + len) then failed else done (p + (len + 1))
