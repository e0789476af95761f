-- ===== src/Dwarf/Reader/Leb.antt =====
-- LEB128 numbers: the round trip through an encoder, and the sign extension.
use evalyn_os.Base.{
  ℕ, zero, suc, ◌+◌, ◌-◌, ◌*◌, ◌/◌, ◌%◌, ◌^◌, ◌≤◌, ◌<◌, ◌≡◌, true, false, sym, ap, ◌∙◌, ◌==◌, arith,
  length, List, [], ◌∷◌, bit_or, ltb, lt→ltb, ge→ltb, gt→leb, dec_lt, if◌then◌else◌,
}
use evalyn_os.Base.Bits.{bit_or-shift}
use evalyn_os.Base.Powers.{pow-add_seven, pow-add, pow-pos, lt_of_pow-lt}
use native.Mathlib.Nat.{
  pow-suc, pow-le-pow_right, div-eq_of_lt, div-eq_of_lt-le, mod-eq_of_lt, mul-le-mul_right,
}
use evalyn_os.Dwarf.Run
use evalyn_os.Dwarf.Run.{Section, load}
use evalyn_os.Dwarf.Reader.{read_uleb_impl, read_uleb, sign_extend}

-- The shortest encoding in groups of seven bits, lowest first; ten groups hold 64 bits.
unfoldable pub encode_groups : ℕ → ℕ → List ℕ
encode_groups zero n = []
encode_groups (suc k) n = if ltb n 128 then n ∷ [] else (n % 128 + 128) ∷ encode_groups k (n / 128)

unfoldable pub encode_uleb : ℕ → List ℕ
unfolding encode_groups
encode_uleb n = encode_groups 10 n

-- The bytes of a list stand in the section from `p` on.
abbrev pub Holds : Section → ℕ → List ℕ → Type 0
Holds s p [] = Unit
Holds s p (b ∷ bs) = (load s p ≡ Run.done b) × Holds s (p + 1) bs

-- One round adds a digit above the bits that are read already.
digit :
    (result shift x rest : ℕ)
    → result < 2 ^ shift
    → x < 128
    → result + (x + 128 * rest) * 2 ^ shift < 2 ^ 64
    → bit_or result (x * 2 ^ shift % 2 ^ 64) ≡ result + x * 2 ^ shift
digit result shift x rest h hx fits =
    let small : x * 2 ^ shift < 2 ^ 64 =
      omega
        (arith, mul-le-mul_right (2 ^ shift) (let le : x ≤ x + 128 * rest = omega arith in le)) in
    rw (mod-eq_of_lt small) (bit_or-shift shift result x h)

encode-last : (j n : ℕ) → n < 128 → encode_groups (suc j) n ≡ n ∷ []
unfolding encode_groups
encode-last j n h = rw (lt→ltb n 128 h)

encode-more :
    (j n : ℕ) → 128 ≤ n → encode_groups (suc j) n ≡ (n % 128 + 128) ∷ encode_groups j (n / 128)
unfolding encode_groups
encode-more j n h = rw (ge→ltb n 128 h)

number : (n : ℕ) → n ≡ n % 128 + 128 * (n / 128)
number n = omega arith

abbrev read_at : ℕ → ℕ → ℕ → Run.Run (ℕ × ℕ × ℕ)
read_at p value shift = Run.done (p, value, shift)

triple : {a a' b b' c c' : ℕ} → a ≡ a' → b ≡ b' → c ≡ c' → read_at a b c ≡ read_at a' b' c'
triple p q r = λ i. read_at (p i) (q i) (r i)

module _ (s : Section) (end : ℕ) where
  -- A round on a byte without bit 7 ends the number, and one on a byte with it goes on.
  impl-last :
      (k result shift p byte value : ℕ)
      → load s p ≡ Run.done byte
      → byte < 128
      → p < end
      → shift < 64
      → bit_or result (byte * 2 ^ shift % 2 ^ 64) ≡ value
      → read_uleb_impl s (suc k) end result shift p ≡ Run.done (p + 1, value, shift + 7)
  unfolding read_uleb_impl
  impl-last k result shift p byte value at small room lt e =
      let low : byte % 128 ≡ byte = omega arith in
      let high : (byte / 128 % 2 == 0) ≡ true = ground arith in
      rw (gt→leb end p room, gt→leb 64 shift lt, at, high, low, e)

  impl-more :
      (k result shift p x value : ℕ)
      → load s p ≡ Run.done (x + 128)
      → x < 128
      → p < end
      → shift < 64
      → bit_or result (x * 2 ^ shift % 2 ^ 64) ≡ value
      → read_uleb_impl s (suc k) end result shift p
        ≡ read_uleb_impl s k end value (shift + 7) (p + 1)
  unfolding read_uleb_impl
  impl-more k result shift p x value at small room lt e =
      let low : (x + 128) % 128 ≡ x = omega arith in
      let high : ((x + 128) / 128 % 2 == 0) ≡ false = ground arith in
      rw (gt→leb end p room, gt→leb 64 shift lt, at, high, low, e)

  -- The outcome where the encoding of `n` is read above the bits of `result`.
  abbrev Reads : (k n result shift p : ℕ) → List ℕ → Type 0
  Reads k n result shift p bytes =
      read_uleb_impl s k end result shift p
      ≡ Run.done (p + length bytes, result + n * 2 ^ shift, shift + 7 * length bytes)

  abbrev Room : (n result shift p : ℕ) → List ℕ → Type 0
  Room n result shift p bytes =
      (p + length bytes ≤ end)
      × (result < 2 ^ shift)
      × (shift < 64)
      × (result + n * 2 ^ shift < 2 ^ 64)

  Reads-last :
      (j k n result shift p : ℕ)
      → n < 128
      → Holds s p (encode_groups (suc j) n)
      → Room n result shift p (encode_groups (suc j) n)
      → Reads (suc k) n result shift p (encode_groups (suc j) n)
  Reads-last j k n result shift p last at (room, low, lt, fits) =
      let e = encode-last j n last in
      let at' : Holds s p (n ∷ []) = rw e at at in
      let v = digit result shift n 0 low last (omega arith) in
      rw e (impl-last k result shift p n _ at'.0 last (omega (arith, ap length e)) lt v)

  -- What the digit above leaves is smaller, and has room.
  next-Room :
      (n result shift p : ℕ) (bytes : List ℕ)
      → 128 ≤ n
      → Room n result shift p ((n % 128 + 128) ∷ bytes)
      → Room (n / 128) (result + n % 128 * 2 ^ shift) (shift + 7) (p + 1) bytes
        × (result + n % 128 * 2 ^ shift + n / 128 * 2 ^ (shift + 7) ≡ result + n * 2 ^ shift)
  next-Room n result shift p bytes more (room, low, lt, fits) =
      let parts = ap (λ (t : ℕ). t * 2 ^ shift) (number n) in
      let up = ap (λ (t : ℕ). n / 128 * t) (pow-add_seven shift) in
      let same : result + n % 128 * 2 ^ shift + n / 128 * 2 ^ (shift + 7) ≡ result + n * 2 ^ shift =
        omega (arith, parts, up) in
      let d : n % 128 ≤ 127 = omega arith in
      let below : 2 ^ (shift + 7) < 2 ^ 64 =
        omega (arith, pow-add_seven shift, mul-le-mul_right (2 ^ shift) more) in
      (
        (
          omega arith,
          omega (arith, pow-add_seven shift, mul-le-mul_right (2 ^ shift) d),
          lt_of_pow-lt (shift + 7) 64 below,
          omega arith,
        ),
        same,
      )

  -- The number is what is read so far plus the encoded rest, in place.
  Reads-encode :
      (j k n result shift p : ℕ)
      → n < 128 ^ suc j
      → j ≤ k
      → Holds s p (encode_groups (suc j) n)
      → Room n result shift p (encode_groups (suc j) n)
      → Reads (suc k) n result shift p (encode_groups (suc j) n)
  Reads-encode zero k n result shift p small fuel at room =
      Reads-last 0 k n result shift p (omega arith) at room
  Reads-encode (suc j) zero n result shift p small fuel at room = absurd (omega arith)
  Reads-encode (suc j) (suc k) n result shift p small fuel at room = elim (dec_lt n 128) [
    | yes last ↦ Reads-last (suc j) (suc k) n result shift p last at room
    | no more ↦
        let e = encode-more (suc j) n (omega arith) in
        let at' : Holds s p ((n % 128 + 128) ∷ encode_groups (suc j) (n / 128)) = rw e at at in
        let room' : Room n result shift p ((n % 128 + 128) ∷ encode_groups (suc j) (n / 128)) =
          rw e at room in
        let (inner, same) = next-Room n result shift p _ (omega arith) room' in
        let v =
          digit result shift (n % 128) (n / 128) room'.1 (omega arith)
            (omega (arith, ap (λ (t : ℕ). t * 2 ^ shift) (number n), room'.3)) in
        let here =
          impl-more (suc k) result shift p (n % 128) _ at'.0 (omega arith) (omega arith) room'.2
            v in
        let rest =
          Reads-encode j k (n / 128) _ (shift + 7) (p + 1) (omega (arith, pow-suc 128 (suc j)))
            (omega arith) at'.1 inner in
        rw e (here ∙ rest ∙ triple (omega arith) same (omega arith))
  ]

  -- Reading the ULEB128 encoding of any 64-bit number gives the number back and the pointer behind
  -- it.
  pub read_uleb-encode_uleb :
      (n p : ℕ)
      → n < 2 ^ 64
      → Holds s p (encode_uleb n)
      → p + length (encode_uleb n) ≤ end
      → read_uleb s end p ≡ Run.done (p + length (encode_uleb n), n)
  unfolding read_uleb encode_uleb
  read_uleb-encode_uleb n p h at room =
      let read =
        Reads-encode 9 10 n 0 0 p (omega arith) (omega arith) at
          (room, omega arith, omega arith, omega arith) in
      rw read (λ i. Run.done (p + length (encode_groups 10 n), n1 i))
    where
      n1 : 0 + n * 2 ^ 0 ≡ n
      n1 = omega arith

clear_bit : (k value : ℕ) → value < 2 ^ k → value / 2 ^ k ≡ 0
clear_bit k value lt = div-eq_of_lt lt

set_bit : (k value : ℕ) → value < 2 ^ suc k → ¬ (value < 2 ^ k) → value / 2 ^ k ≡ 1
set_bit k value small ge = div-eq_of_lt-le (2 ^ k) (omega arith) (omega (arith, pow-suc 2 k))

extend :
    (k value : ℕ)
    → k < 63
    → value < 2 ^ suc k
    → bit_or value ((2 ^ 64 - 1) * 2 ^ suc k % 2 ^ 64) ≡ value + (2 ^ 64 - 2 ^ suc k)
extend k value h small =
    let le : 2 ^ suc k ≤ 2 ^ 64 = pow-le-pow_right (omega arith) {j = 64} (omega arith) in
    let ones : 2 ^ (63 - k) ≡ 2 ^ (63 - k) - 1 + 1 = omega (arith, pow-pos (63 - k)) in
    let sum : 2 ^ suc k * 2 ^ (63 - k) ≡ 2 ^ 64 =
      sym (pow-add (suc k) (63 - k))
      ∙ ap (λ t. 2 ^ t) (let q : suc k + (63 - k) ≡ 64 = omega arith in q) in
    let mask : (2 ^ 64 - 1) * 2 ^ suc k % 2 ^ 64 ≡ (2 ^ (63 - k) - 1) * 2 ^ suc k =
      omega (arith, pow-pos (suc k), ap (λ (t : ℕ). t * 2 ^ suc k) ones) in
    rw (mask, bit_or-shift (suc k) value (2 ^ (63 - k) - 1) small)
      (omega (arith, ap (λ (t : ℕ). t * 2 ^ suc k) ones))

-- The sign extension of dwarf_read_sleb is two's complement for every width of 1 to 63 bits.
pub sign_extend_lem :
    (k value : ℕ)
    → k < 63
    → value < 2 ^ suc k
    → sign_extend value (suc k)
      ≡ (if ltb value (2 ^ k) then value else value + (2 ^ 64 - 2 ^ suc k))
unfolding sign_extend
sign_extend_lem k value h small =
    let past : ltb (suc k) 64 ≡ true = lt→ltb (suc k) 64 (omega arith) in
    let e : suc k - 1 ≡ k = omega arith in
    rw (past, e)
      (elim (dec_lt value (2 ^ k)) [
        | yes lt ↦
            let d : (value / 2 ^ k % 2 == 1) ≡ false = ground (arith, clear_bit k value lt) in
            rw (d, lt→ltb value (2 ^ k) lt)
        | no ge ↦
            let d : (value / 2 ^ k % 2 == 1) ≡ true = ground (arith, set_bit k value small ge) in
            rw (d, ge→ltb value (2 ^ k) (omega arith)) (extend k value h small)
      ])
