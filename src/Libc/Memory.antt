-- ===== src/Libc/Memory.antt =====
-- The memory functions of kernel/src/libc/string.c: `memcpy`, `memset` and `memmove`. Memory is a
-- function from addresses to bytes, and a region does not wrap around the address space. `x86` is
-- whether the build is for x86, where a long copy is one `rep movsb` or `rep stosb`.
use evalyn_os.Base.{
  ℕ, zero, suc, ◌+◌, ◌-◌, ◌*◌, ◌/◌, ◌%◌, ◌^◌, ◌==◌, ltb, leb, if◌then◌else◌, ◌&&◌, Bool, Option,
  none, some,
}

abbrev pub Memory : Type 0
Memory = ℕ → ℕ

abbrev pub within : (start size x : ℕ) → Bool
within start size x = leb start x && ltb x (start + size)

-- `*dest = *src` for an object of `size` bytes: the value is loaded whole before it is stored.
unfoldable pub assign : Memory → (dest src size : ℕ) → Memory
assign m dest src size x = if within dest size x then m (src + (x - dest)) else m x

-- `for (i = 0; i < n; i++) pdest[i] = psrc[i];`, and what `rep movsb` does
unfoldable pub copy_bytes : (n : ℕ) → Memory → (dest src : ℕ) → Memory
unfolding assign
copy_bytes zero m dest src = m
copy_bytes (suc n) m dest src = copy_bytes n (assign m dest src 1) (dest + 1) (src + 1)

-- The locals of `memcpy` with the memory.
pub record Copying : Type 0 where
  pub mem : Memory
  pub dest : ℕ
  pub src : ℕ
  pub n : ℕ

-- One assignment of `size` bytes with both pointers and the count moved on.
unfoldable pub advance : (size : ℕ) → Copying → Copying
unfolding assign
advance size c = record {
  mem = assign c.mem c.dest c.src size;
  dest = c.dest + size;
  src = c.src + size;
  n = c.n - size;
}

-- At most seven bytes lead to an aligned pointer.
unfoldable pub align_dest : (fuel : ℕ) → Copying → Copying
unfolding advance
align_dest zero c = c
align_dest (suc k) c = let rest = align_dest k (advance 1 c) in if c.dest % 8 == 0 then c else rest

abbrev pub eight_words : Copying → Copying
eight_words c =
    advance 8 (advance 8 (advance 8 (advance 8 (advance 8 (advance 8 (advance 8 (advance 8 c)))))))

unfoldable pub copy_blocks : (fuel : ℕ) → Copying → Copying
unfolding advance
copy_blocks zero c = c
copy_blocks (suc k) c = let rest = copy_blocks k (eight_words c) in if leb 64 c.n then rest else c

unfoldable pub copy_words : (fuel : ℕ) → Copying → Copying
unfolding advance
copy_words zero c = c
copy_words (suc k) c = let rest = copy_words k (advance 8 c) in if leb 8 c.n then rest else c

unfoldable pub finish : Copying → Memory
unfolding copy_bytes
finish c = copy_bytes c.n c.mem c.dest c.src

-- The regions share a byte, which the `restrict` of the parameters of `memcpy` rules out: what the
-- call does then is undefined.
abbrev pub overlaps : (dest src n : ℕ) → Bool
overlaps dest src n = ltb dest (src + n) && ltb src (dest + n)

unfoldable pub memcpy : (x86 : Bool) → Memory → (dest src n : ℕ) → Option Memory
unfolding copy_bytes align_dest copy_blocks copy_words finish
memcpy x86 m dest src n =
    let c : Copying = record { mem = m; dest = dest; src = src; n = n } in
    if overlaps dest src n
    then none
    else some (
        if x86 && leb 2048 n
        then copy_bytes n m dest src
        else if ltb n 8
        then copy_bytes n m dest src
        else if dest % 8 == src % 8
        then finish (copy_words n (copy_blocks n (align_dest 8 c)))
        else finish c)

-- `for (i = n; i > 0; i--) pdest[i-1] = psrc[i-1];`
unfoldable pub copy_back : (n : ℕ) → Memory → (dest src : ℕ) → Memory
unfolding assign
copy_back zero m dest src = m
copy_back (suc n) m dest src = copy_back n (assign m (dest + n) (src + n) 1) dest src

unfoldable pub memmove : Memory → (dest src n : ℕ) → Memory
unfolding copy_bytes copy_back
memmove m dest src n =
    if ltb dest src
    then copy_bytes n m dest src
    else if ltb src dest
    then copy_back n m dest src
    else m

-- `*dest = value` for an object of `size` bytes, lowest first
unfoldable pub store : Memory → (dest size value : ℕ) → Memory
store m dest size value x = if within dest size x then value / 256 ^ (x - dest) % 256 else m x

unfoldable pub fill_bytes : (n : ℕ) → Memory → (dest c : ℕ) → Memory
unfolding store
fill_bytes zero m dest c = m
fill_bytes (suc n) m dest c = fill_bytes n (store m dest 1 c) (dest + 1) c

pub record Filling : Type 0 where
  pub mem : Memory
  pub dest : ℕ
  pub n : ℕ

unfoldable pub advance_fill : (size value : ℕ) → Filling → Filling
unfolding store
advance_fill size value f = record {
  mem = store f.mem f.dest size value;
  dest = f.dest + size;
  n = f.n - size;
}

unfoldable pub align_fill : (fuel c : ℕ) → Filling → Filling
unfolding advance_fill
align_fill zero c f = f
align_fill (suc k) c f =
    let rest = align_fill k c (advance_fill 1 c f) in if f.dest % 8 == 0 then f else rest

abbrev pub eight_patterns : (pattern : ℕ) → Filling → Filling
eight_patterns w f =
    let step = advance_fill 8 w in step (step (step (step (step (step (step (step f)))))))

unfoldable pub fill_blocks : (fuel pattern : ℕ) → Filling → Filling
unfolding advance_fill
fill_blocks zero w f = f
fill_blocks (suc k) w f =
    let rest = fill_blocks k w (eight_patterns w f) in if leb 64 f.n then rest else f

unfoldable pub fill_words : (fuel pattern : ℕ) → Filling → Filling
unfolding advance_fill
fill_words zero w f = f
fill_words (suc k) w f =
    let rest = fill_words k w (advance_fill 8 w f) in if leb 8 f.n then rest else f

-- `pattern = (unsigned char)c; pattern *= ~(size_t)0 / 0xFF;`
abbrev pub word_pattern : ℕ → ℕ
word_pattern c = c % 256 * ((2 ^ 64 - 1) / 255) % 2 ^ 64

-- `c` is the bits of the `int`.
unfoldable pub memset : (x86 : Bool) → Memory → (dest c n : ℕ) → Memory
unfolding fill_bytes align_fill fill_blocks fill_words
memset x86 m dest c n =
    let f : Filling = record { mem = m; dest = dest; n = n } in
    if x86 && leb 2048 n
    then fill_bytes n m dest c
    else if ltb n 8
    then fill_bytes n m dest c
    else let g =
        fill_words n (word_pattern c) (fill_blocks n (word_pattern c) (align_fill 8 c f)) in
      fill_bytes g.n g.mem g.dest c
