-- ===== src/Libc/Copy.antt =====
-- `memcpy` and `memmove` copy their regions, and write nowhere else.
use evalyn_os.Base.{
  ℕ, zero, suc, ◌+◌, ◌-◌, ◌%◌, ◌≤◌, ◌<◌, ◌≡◌, ◌⊎◌, inl, inr, ◌==◌, ltb, leb, if◌then◌else◌, ◌&&◌,
  Bool, false, some, arith, ltb→lt, ltb→ge, leb→le, Bool-cases, ap, refl,
}
use evalyn_os.Libc.Memory.{
  Memory, within, assign, copy_bytes, Copying, advance, align_dest, eight_words, copy_blocks,
  copy_words, finish, overlaps, memcpy, copy_back, memmove,
}

-- The first `k` bytes at `dest` are those that stood at `src`, and all else is as it was.
abbrev pub Copied : (m : Memory) (dest src k : ℕ) → Memory → Type 0
Copied m dest src k m' = (x : ℕ) → m' x ≡ (if within dest k x then m (src + (x - dest)) else m x)

module _ (m : Memory) (dest src n : ℕ) where
  -- A forward copy reads nothing that it has written.
  abbrev Forward : Type 0
  Forward = (dest ≤ src) ⊎ (src + n ≤ dest)

  pub assign-Copied :
      Forward
      → (k size : ℕ) (m' : Memory) (d s : ℕ) → k + size ≤ n
      → d ≡ dest + k
      → s ≡ src + k
      → Copied m dest src k m'
      → Copied m dest src (k + size) (assign m' d s size)
  unfolding assign
  assign-Copied safe k size m' d s fits ed es h x = ground (arith, h x, h (s + (x - d)), cong)
    where
      cong : d ≤ x → m (s + (x - d)) ≡ m (src + (x - dest))
      cong le = ap m (omega arith)

  copy_bytes-Copied :
      Forward
      → (j k : ℕ) (m' : Memory) (d s : ℕ) → k + j ≡ n
      → d ≡ dest + k
      → s ≡ src + k
      → Copied m dest src k m'
      → Copied m dest src n (copy_bytes j m' d s)
  unfolding copy_bytes
  copy_bytes-Copied safe zero k m' d s total ed es h = let e : k ≡ n = omega arith in rw (← e) h
  copy_bytes-Copied safe (suc j) k m' d s total ed es h =
      copy_bytes-Copied safe j (k + 1) (assign m' d s 1) (d + 1) (s + 1) (omega arith) (omega arith)
        (omega arith) (assign-Copied safe k 1 m' d s (omega arith) ed es h)

  -- Where a copy in progress stands.
  record IsAt (c : Copying) : Type 0 where
    done : ℕ
    count : done + c.n ≡ n
    dest_at : c.dest ≡ dest + done
    src_at : c.src ≡ src + done
    copied : Copied m dest src done c.mem

  advance-IsAt : Forward → (size : ℕ) (c : Copying) → size ≤ c.n → IsAt c → IsAt (advance size c)
  unfolding advance
  advance-IsAt safe size c le at = record {
    done = at.done + size;
    count = omega (arith, at.count);
    dest_at = omega (arith, at.dest_at);
    src_at = omega (arith, at.src_at);
    copied =
        assign-Copied safe at.done size c.mem c.dest c.src (omega (arith, at.count)) at.dest_at
          at.src_at at.copied;
  }

  advance-n : (size : ℕ) (c : Copying) → (advance size c).n ≡ c.n - size
  unfolding advance
  advance-n size c = refl

  -- With eight bytes left or an aligned pointer near, the alignment does not run out of bytes.
  align_dest-IsAt : Forward → (k : ℕ) (c : Copying) → k ≤ c.n → IsAt c → IsAt (align_dest k c)
  unfolding align_dest
  align_dest-IsAt safe zero c le at = at
  align_dest-IsAt safe (suc k) c le at = elim (Bool-cases (c.dest % 8 == 0)) [
    | inl yes' ↦ rw yes' at
    | inr no' ↦ rw no' (
        align_dest-IsAt safe k (advance 1 c) (omega (arith, advance-n 1 c))
          (advance-IsAt safe 1 c (omega arith) at))
  ]

  word-IsAt :
      Forward
      → (r : ℕ) (c : Copying) → (8 + r ≤ c.n) × IsAt c
      → (r ≤ (advance 8 c).n) × IsAt (advance 8 c)
  word-IsAt safe r c (le, at) =
      (omega (arith, advance-n 8 c), advance-IsAt safe 8 c (omega arith) at)

  eight_words-IsAt : Forward → (c : Copying) → 64 ≤ c.n → IsAt c → IsAt (eight_words c)
  eight_words-IsAt safe c le at =
      let word = word-IsAt safe in
      (word 0 _ (
        word 8 _
          (word 16 _ (word 24 _ (word 32 _ (word 40 _ (word 48 _ (word 56 c (le, at))))))))).1

  copy_blocks-IsAt : Forward → (k : ℕ) (c : Copying) → IsAt c → IsAt (copy_blocks k c)
  unfolding copy_blocks
  copy_blocks-IsAt safe zero c at = at
  copy_blocks-IsAt safe (suc k) c at = elim (Bool-cases (leb 64 c.n)) [
    | inl more ↦
        rw more (
          copy_blocks-IsAt safe k (eight_words c) (eight_words-IsAt safe c (leb→le 64 c.n more) at))
    | inr few ↦ rw few at
  ]

  copy_words-IsAt : Forward → (k : ℕ) (c : Copying) → IsAt c → IsAt (copy_words k c)
  unfolding copy_words
  copy_words-IsAt safe zero c at = at
  copy_words-IsAt safe (suc k) c at = elim (Bool-cases (leb 8 c.n)) [
    | inl more ↦
        rw more
          (copy_words-IsAt safe k (advance 8 c) (advance-IsAt safe 8 c (leb→le 8 c.n more) at))
    | inr few ↦ rw few at
  ]

  finish-Copied : Forward → (c : Copying) → IsAt c → Copied m dest src n (finish c)
  unfolding finish
  finish-Copied safe c at =
      copy_bytes-Copied safe c.n at.done c.mem c.dest c.src at.count at.dest_at at.src_at at.copied

  start : IsAt (record { mem = m; dest = dest; src = src; n = n })
  start = record {
    done = 0;
    count = omega arith;
    dest_at = omega arith;
    src_at = omega arith;
    copied = λ x. ground arith;
  }

-- Each path of memcpy copies the region.
module _ (x86 : Bool) (m : Memory) (dest src n : ℕ) (safe : (dest ≤ src) ⊎ (src + n ≤ dest)) where
  abbrev copied : Memory
  copied =
      if x86 && leb 2048 n
      then copy_bytes n m dest src
      else if ltb n 8
      then copy_bytes n m dest src
      else if dest % 8 == src % 8
      then finish (
          copy_words n
            (copy_blocks n (align_dest 8 (record { mem = m; dest = dest; src = src; n = n }))))
      else finish (record { mem = m; dest = dest; src = src; n = n })

  paths-Copied : Copied m dest src n copied
  paths-Copied =
      let bytes =
        copy_bytes-Copied m dest src n safe n 0 m dest src (omega arith) (omega arith) (omega arith)
          (λ x. ground arith) in
      elim (Bool-cases (x86 && leb 2048 n)) [
        | inl long ↦ rw long bytes
        | inr not_long ↦ rw not_long (elim (Bool-cases (ltb n 8)) [
          | inl short ↦ rw short bytes
          | inr not_short ↦
              let go = finish-Copied m dest src n safe in
              rw not_short (elim (Bool-cases (dest % 8 == src % 8)) [
                | inl same ↦ rw same (
                    go _ (
                      copy_words-IsAt m dest src n safe n _ (
                        copy_blocks-IsAt m dest src n safe n _ (
                          align_dest-IsAt m dest src n safe 8 _ (ltb→ge n 8 not_short)
                            (start m dest src n)))))
                | inr other ↦ rw other (go _ (start m dest src n))
              ])
        ])
      ]

-- Where the regions do not overlap, as the restrict of its parameters requires, memcpy copies the
-- region and changes no other byte, on each of its paths and on both kinds of machine.
pub memcpy-Copied :
    (x86 : Bool) (m : Memory) (dest src n : ℕ)
    → (dest + n ≤ src) ⊎ (src + n ≤ dest)
    → (m' : Memory) × (memcpy x86 m dest src n ≡ some m') × Copied m dest src n m'
unfolding memcpy
memcpy-Copied x86 m dest src n apart =
    let none_shared : overlaps dest src n ≡ false = ground (arith, apart) in
    let safe : (dest ≤ src) ⊎ (src + n ≤ dest) = elim apart [
      | inl b ↦ inl (omega (arith, b))
      | inr a ↦ inr a
    ] in
    (copied x86 m dest src n safe, rw none_shared refl, paths-Copied x86 m dest src n safe)

-- The bytes from `k` on, of those to copy backwards.
abbrev CopiedFrom : (m : Memory) (dest src n k : ℕ) → Memory → Type 0
CopiedFrom m dest src n k m' =
    (x : ℕ) → m' x ≡ (if within dest n x && leb (dest + k) x then m (src + (x - dest)) else m x)

byte_at :
    (m : Memory) (dest src k x : ℕ)
    → dest + k ≤ x
    → m (src + k + (x - (dest + k))) ≡ m (src + (x - dest))
byte_at m dest src k x le = ap m (omega arith)

copy_back-Copied :
    (m : Memory) (dest src n : ℕ)
    → src < dest
    → (k : ℕ) (m' : Memory) → k ≤ n
    → CopiedFrom m dest src n k m'
    → Copied m dest src n (copy_back k m' dest src)
unfolding copy_back assign
copy_back-Copied m dest src n below zero m' le h = λ x. ground (arith, h x)
copy_back-Copied m dest src n below (suc k) m' le h =
    copy_back-Copied m dest src n below k (assign m' (dest + k) (src + k) 1) (omega arith)
      λ x. ground (arith, h x, h (src + k + (x - (dest + k))), byte_at m dest src k x)

-- memmove copies the region however the two overlap, and changes no other byte.
pub memmove-Copied : (m : Memory) (dest src n : ℕ) → Copied m dest src n (memmove m dest src n)
unfolding memmove
memmove-Copied m dest src n = elim (Bool-cases (ltb dest src)) [
  | inl below ↦ rw below (
      copy_bytes-Copied m dest src n (inl (omega (arith, ltb→lt dest src below))) n 0 m dest src
        (omega arith) (omega arith) (omega arith) (λ x. ground arith))
  | inr not_below ↦ rw not_below (elim (Bool-cases (ltb src dest)) [
    | inl above ↦ rw above (
        copy_back-Copied m dest src n (ltb→lt src dest above) n m (omega arith) (λ x. ground arith))
    | inr equal ↦
        let e : src ≡ dest = omega (arith, ltb→ge dest src not_below, ltb→ge src dest equal) in
        rw equal (λ x. ground (arith, stay e x))
  ])
]
  where
    stay : src ≡ dest → (x : ℕ) → dest ≤ x → m (src + (x - dest)) ≡ m x
    stay e x le = ap m (omega arith)
