-- ===== src/Libc/Fill.antt =====
-- `memset` fills its region, and writes nowhere else.
use evalyn_os.Base.{
  ℕ, zero, suc, ◌+◌, ◌-◌, ◌/◌, ◌%◌, ◌^◌, ◌≤◌, ◌<◌, ◌≡◌, inl, inr, ◌==◌, ltb, leb, if◌then◌else◌,
  ◌&&◌, Bool, arith, ltb→ge, leb→le, Bool-cases, refl,
}
use evalyn_os.Libc.Memory.{
  Memory, within, store, fill_bytes, Filling, advance_fill, align_fill, eight_patterns, fill_blocks,
  fill_words, word_pattern, memset,
}

-- The first `k` bytes at `dest` are the low byte of `c`, and all else is as it was.
abbrev pub Filled : (m : Memory) (dest c k : ℕ) → Memory → Type 0
Filled m dest c k m' = (x : ℕ) → m' x ≡ (if within dest k x then c % 256 else m x)

-- A value whose lowest `size` bytes are all the low byte of `c`.
abbrev IsPattern : (c size value : ℕ) → Type 0
IsPattern c size value = (i : ℕ) → i < size → value / 256 ^ i % 256 ≡ c % 256

byte-IsPattern : (c : ℕ) → IsPattern c 1 c
byte-IsPattern c zero h = omega arith
byte-IsPattern c (suc i) h = absurd (omega arith)

word-IsPattern : (c : ℕ) → IsPattern c 8 (word_pattern c)
word-IsPattern c zero h = omega arith
word-IsPattern c (suc zero) h = omega arith
word-IsPattern c (suc (suc zero)) h = omega arith
word-IsPattern c (suc (suc (suc zero))) h = omega arith
word-IsPattern c (suc (suc (suc (suc zero)))) h = omega arith
word-IsPattern c (suc (suc (suc (suc (suc zero))))) h = omega arith
word-IsPattern c (suc (suc (suc (suc (suc (suc zero)))))) h = omega arith
word-IsPattern c (suc (suc (suc (suc (suc (suc (suc zero))))))) h = omega arith
word-IsPattern c (suc (suc (suc (suc (suc (suc (suc (suc i)))))))) h = absurd (omega arith)

module _ (m : Memory) (dest c n : ℕ) where
  store-Filled :
      (k size value : ℕ) (m' : Memory) (d : ℕ)
      → d ≡ dest + k
      → IsPattern c size value
      → Filled m dest c k m'
      → Filled m dest c (k + size) (store m' d size value)
  unfolding store
  store-Filled k size value m' d e pat h x = ground (arith, h x, pat (x - d))

  fill_bytes-Filled :
      (j k : ℕ) (m' : Memory) (d : ℕ)
      → k + j ≡ n
      → d ≡ dest + k
      → Filled m dest c k m'
      → Filled m dest c n (fill_bytes j m' d c)
  unfolding fill_bytes
  fill_bytes-Filled zero k m' d total e h = let q : k ≡ n = omega arith in rw (← q) h
  fill_bytes-Filled (suc j) k m' d total e h =
      fill_bytes-Filled j (k + 1) (store m' d 1 c) (d + 1) (omega arith) (omega arith)
        (store-Filled k 1 c m' d e (byte-IsPattern c) h)

  -- Where a fill in progress stands.
  record IsAt (f : Filling) : Type 0 where
    done : ℕ
    count : done + f.n ≡ n
    dest_at : f.dest ≡ dest + done
    filled : Filled m dest c done f.mem

  advance_fill-IsAt :
      (size value : ℕ) (f : Filling)
      → size ≤ f.n
      → IsPattern c size value
      → IsAt f
      → IsAt (advance_fill size value f)
  unfolding advance_fill
  advance_fill-IsAt size value f le pat at = record {
    done = at.done + size;
    count = omega (arith, at.count);
    dest_at = omega (arith, at.dest_at);
    filled = store-Filled at.done size value f.mem f.dest at.dest_at pat at.filled;
  }

  advance_fill-n : (size value : ℕ) (f : Filling) → (advance_fill size value f).n ≡ f.n - size
  unfolding advance_fill
  advance_fill-n size value f = refl

  align_fill-IsAt : (k : ℕ) (f : Filling) → k ≤ f.n → IsAt f → IsAt (align_fill k c f)
  unfolding align_fill
  align_fill-IsAt zero f le at = at
  align_fill-IsAt (suc k) f le at = elim (Bool-cases (f.dest % 8 == 0)) [
    | inl there ↦ rw there at
    | inr away ↦ rw away (
        align_fill-IsAt k (advance_fill 1 c f) (omega (arith, advance_fill-n 1 c f))
          (advance_fill-IsAt 1 c f (omega arith) (byte-IsPattern c) at))
  ]

  word-IsAt :
      (r : ℕ) (f : Filling)
      → (8 + r ≤ f.n) × IsAt f
      → (r ≤ (advance_fill 8 (word_pattern c) f).n) × IsAt (advance_fill 8 (word_pattern c) f)
  word-IsAt r f (le, at) = (
    omega (arith, advance_fill-n 8 (word_pattern c) f),
    advance_fill-IsAt 8 (word_pattern c) f (omega arith) (word-IsPattern c) at,
  )

  eight-IsAt : (f : Filling) → 64 ≤ f.n → IsAt f → IsAt (eight_patterns (word_pattern c) f)
  eight-IsAt f le at =
      let word = word-IsAt in
      (word 0 _ (
        word 8 _
          (word 16 _ (word 24 _ (word 32 _ (word 40 _ (word 48 _ (word 56 f (le, at))))))))).1

  fill_blocks-IsAt : (k : ℕ) (f : Filling) → IsAt f → IsAt (fill_blocks k (word_pattern c) f)
  unfolding fill_blocks
  fill_blocks-IsAt zero f at = at
  fill_blocks-IsAt (suc k) f at = elim (Bool-cases (leb 64 f.n)) [
    | inl more ↦ rw more (fill_blocks-IsAt k _ (eight-IsAt f (leb→le 64 f.n more) at))
    | inr few ↦ rw few at
  ]

  fill_words-IsAt : (k : ℕ) (f : Filling) → IsAt f → IsAt (fill_words k (word_pattern c) f)
  unfolding fill_words
  fill_words-IsAt zero f at = at
  fill_words-IsAt (suc k) f at = elim (Bool-cases (leb 8 f.n)) [
    | inl more ↦ rw more (fill_words-IsAt k _ (word-IsAt 0 f (leb→le 8 f.n more, at)).1)
    | inr few ↦ rw few at
  ]

-- memset sets each byte of the region to the low byte of its value, and changes no other byte, on
-- each of its paths and on both kinds of machine.
pub memset-Filled :
    (x86 : Bool) (m : Memory) (dest c n : ℕ) → Filled m dest c n (memset x86 m dest c n)
unfolding memset
memset-Filled x86 m dest c n =
    let bytes =
      fill_bytes-Filled m dest c n n 0 m dest (omega arith) (omega arith) (λ x. ground arith) in
    elim (Bool-cases (x86 && leb 2048 n)) [
      | inl long ↦ rw long bytes
      | inr not_long ↦ rw not_long (elim (Bool-cases (ltb n 8)) [
        | inl short ↦ rw short bytes
        | inr not_short ↦
            let begin : Filling = record { mem = m; dest = dest; n = n } in
            let start : IsAt m dest c n begin = record {
              done = 0;
              count = omega arith;
              dest_at = omega arith;
              filled = λ x. ground arith;
            } in
            let at = fill_words-IsAt m dest c n n _ (
              fill_blocks-IsAt m dest c n n _
                (align_fill-IsAt m dest c n 8 begin (ltb→ge n 8 not_short) start)) in
            rw not_short (fill_bytes-Filled m dest c n _ at.done _ _ at.count at.dest_at at.filled)
      ])
    ]
