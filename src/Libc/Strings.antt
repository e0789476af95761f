-- ===== src/Libc/Strings.antt =====
-- The comparisons and searches of kernel/src/libc/string.c. An `int` is its 32 bits, a pointer that
-- may be `NULL` is an option, and `signed` is whether the build has a signed `char`. A loop that
-- only a terminator ends runs on fuel, and gives `none` when that runs out.
use evalyn_os.Base.{
  ℕ, zero, suc, ◌+◌, ◌-◌, ◌%◌, ◌^◌, ◌==◌, ltb, leb, if◌then◌else◌, ◌&&◌, not, Bool, Option, some,
  none,
}
use evalyn_os.Libc.Memory.{Memory, assign}

-- `p1[i] < p2[i] ? -1 : 1` at the first difference
unfoldable pub memcmp : (n : ℕ) → Memory → (p1 p2 : ℕ) → ℕ
memcmp zero m p1 p2 = 0
memcmp (suc n) m p1 p2 =
    let rest = memcmp n m (p1 + 1) (p2 + 1) in
    if not (m p1 == m p2) then (if ltb (m p1) (m p2) then 2 ^ 32 - 1 else 1) else rest

unfoldable pub memchr : (num : ℕ) → Memory → (ptr value : ℕ) → Option ℕ
memchr zero m p value = none
memchr (suc num) m p value =
    let rest = memchr num m (p + 1) value in if m p == value % 256 then some p else rest

-- The loop of `strlen`, with `count` the characters passed.
unfoldable pub strlen_loop : (fuel : ℕ) → Memory → (s count : ℕ) → Option ℕ
strlen_loop zero m s count = none
strlen_loop (suc k) m s count =
    let rest = strlen_loop k m (s + 1) (count + 1) in if m s == 0 then some count else rest

abbrev pub strlen : (fuel : ℕ) → Memory → (str : ℕ) → Option ℕ
strlen fuel m str = strlen_loop fuel m str 0

unfoldable pub strnlen : (maxlen : ℕ) → Memory → (str : ℕ) → ℕ
strnlen zero m s = 0
strnlen (suc k) m s = let rest = strnlen k m (s + 1) in if m s == 0 then 0 else suc rest

-- A `char` as an `int`.
abbrev pub char_value : (signed : Bool) → ℕ → ℕ
char_value signed c = if signed && leb 128 c then c + 2 ^ 32 - 256 else c

-- `*s1 - *s2`
abbrev pub char_difference : (signed : Bool) → (a b : ℕ) → ℕ
char_difference signed a b = (char_value signed a + 2 ^ 32 - char_value signed b) % 2 ^ 32

unfoldable pub strcmp : (fuel : ℕ) → (signed : Bool) → Memory → (s1 s2 : ℕ) → Option ℕ
strcmp zero signed m s1 s2 = none
strcmp (suc k) signed m s1 s2 =
    let rest = strcmp k signed m (s1 + 1) (s2 + 1) in
    if not (m s1 == 0) && (m s1 == m s2) then rest else some (char_difference signed (m s1) (m s2))

unfoldable pub strncmp : (n : ℕ) → (signed : Bool) → Memory → (s1 s2 : ℕ) → ℕ
strncmp zero signed m s1 s2 = 0
strncmp (suc n) signed m s1 s2 =
    let rest = strncmp n signed m (s1 + 1) (s2 + 1) in
    if not (m s1 == 0) && (m s1 == m s2) then rest else char_difference signed (m s1) (m s2)

unfoldable pub strcpy : (fuel : ℕ) → Memory → (dest src : ℕ) → Option Memory
unfolding assign
strcpy zero m dest src = none
strcpy (suc k) m dest src =
    let copied = assign m dest src 1 in
    let rest = strcpy k copied (dest + 1) (src + 1) in
    if copied dest == 0 then some copied else rest

-- `none` is fuel that runs out, `some none` is `NULL`.
unfoldable pub strchr : (fuel : ℕ) → Memory → (s c : ℕ) → Option (Option ℕ)
strchr zero m s c = none
strchr (suc k) m s c =
    let rest = strchr k m (s + 1) c in
    if m s == c % 256 then some (some s) else if m s == 0 then some none else rest

-- The loop of `strrchr`, with `p` the last place found.
unfoldable pub strrchr_loop : (fuel : ℕ) → Memory → (s c : ℕ) → (p : Option ℕ) → Option (Option ℕ)
strrchr_loop zero m s c p = none
strrchr_loop (suc k) m s c p =
    let found : Option ℕ = if m s == c % 256 then some s else p in
    let rest = strrchr_loop k m (s + 1) c found in if m s == 0 then some found else rest

abbrev pub strrchr : (fuel : ℕ) → Memory → (s c : ℕ) → Option (Option ℕ)
strrchr fuel m s c = strrchr_loop fuel m s c none
