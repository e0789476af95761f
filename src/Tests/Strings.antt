-- ===== src/Tests/Strings.antt =====
-- Strings and a small archive in memory.
use evalyn_os.Base.{
  none, ℕ, suc, ◌+◌, ◌*◌, ◌^◌, ◌≡◌, ◌<◌, ◌==◌, if◌then◌else◌, refl, arith, true, inr, some, Option,
  [], ◌∷◌, ◌&&◌, leb, ◌-◌,
}
use evalyn_os.Libc.Memory.{Memory}
use evalyn_os.Libc.Strings.{
  memcmp, memchr, strlen, strlen_loop, strnlen, strcmp, strchr, strrchr, strrchr_loop, strcpy,
  strncmp,
}
use evalyn_os.Libc.Copy.{Copied}
use evalyn_os.Libc.Compare.{Same, Compared, memcmp-Compared, IsString, strcmp-Same}
use evalyn_os.Libc.Search.{
  Searched, SearchedLast, memchr-Searched, lengths-IsString, strchr-Searched, strrchr-SearchedLast,
  strcpy-Copied,
}
use evalyn_os.Misc.Ustar.{ustar_lookup, oct2bin}
use evalyn_os.Misc.Ustar.Lookup.{
  Octal, done, digit, Archive, nothing, file, Found, ustar_lookup-Found,
}

-- "aba" at 10 and "abc" at 20, and no other byte.
abbrev text : Memory
text x =
    if x == 10
    then 97
    else if x == 11
    then 98
    else if x == 12
    then 97
    else if x == 20
    then 97
    else if x == 21
    then 98
    else if x == 22
    then 99
    else 0

text-byte : (x : ℕ) → text x < 256
text-byte x = ground arith

text-IsString : IsString text 10 3
text-IsString = (λ i lt. ground (arith, lt), refl)

memcmp_run : memcmp 4 text 10 20 ≡ 2 ^ 32 - 1
unfolding memcmp
memcmp_run = refl

strncmp_run : strncmp 2 true text 10 20 ≡ 0
unfolding strncmp
strncmp_run = refl

memcmp-Compared_example : Compared text 10 20 4 (memcmp 4 text 10 20)
memcmp-Compared_example = memcmp-Compared 4 text 10 20

strcmp-Same_example :
    (r : ℕ) × (strcmp 9 true text 10 20 ≡ some r)
    × (r ≡ 0 → Same text 10 20 4)
    × (Same text 10 20 4 → r ≡ 0)
strcmp-Same_example = strcmp-Same 9 true text 10 20 3 text-byte text-IsString (omega arith)

memchr-Searched_at_work : Searched text 10 98 3 (memchr 3 text 10 98)
memchr-Searched_at_work = memchr-Searched 3 text 10 98

lengths-IsString_at_work :
    (strlen 9 text 10 ≡ some 3) × (strnlen 2 text 10 ≡ (if leb 3 2 then 3 else 2))
lengths-IsString_at_work = lengths-IsString 9 2 text 10 3 text-IsString (omega arith)

strchr-Searched_at_work : (r : Option ℕ) × (strchr 9 text 10 97 ≡ some r) × Searched text 10 97 4 r
strchr-Searched_at_work = strchr-Searched 9 text 10 3 97 text-IsString (omega arith)

strrchr-SearchedLast_at_work :
    (r : Option ℕ) × (strrchr 9 text 10 97 ≡ some r) × SearchedLast text 10 97 4 r
strrchr-SearchedLast_at_work = strrchr-SearchedLast 9 text 10 3 97 text-IsString (omega arith)

strrchr_run : strrchr 9 text 10 97 ≡ some (some 12)
unfolding strrchr_loop
strrchr_run = refl

strcpy-Copied_at_work : (m : Memory) × (strcpy 9 text 30 10 ≡ some m) × Copied text 30 10 4 m
strcpy-Copied_at_work = strcpy-Copied 9 text 30 10 3 (inr (omega arith)) text-IsString (omega arith)

-- The literal "ustar" at 16, the name "f" at 32, and at 4096 the header of "f", of 3 bytes.
abbrev words : Memory
words x =
    if x == 16
    then 117
    else if x == 17
    then 115
    else if x == 18
    then 116
    else if x == 19
    then 97
    else if x == 20
    then 114
    else if x == 32
    then 102
    else 0

abbrev archive : Memory
archive x =
    if leb 4353 x && leb x 4357
    then words (x - 4337)
    else if x == 4096
    then 102
    else if x == 4230
    then 51
    else if leb 4220 x && leb x 4229
    then 48
    else words x

archive-Archive : Archive archive 16 4096 ((4096, 3) ∷ [])
archive-Archive =
    file 4096 3 [] (λ i lt. ground (arith, lt)) (omega arith) (omega arith) octal
      (nothing 5120 (λ same. omega (arith, same 0 (omega arith))))
  where
    zeroes :
        (len p : ℕ) → archive p ≡ 48 → Octal archive len (p + 1) 0 3 → Octal archive (suc len) p 0 3
    zeroes len p e rest =
        let next : 0 * 8 + (archive p - 48) ≡ 0 = omega (arith, e) in
        digit len p 0 3 (omega (arith, e)) (omega (arith, e)) (rw next rest)

    octal : Octal archive 11 4220 0 3
    octal = zeroes 10 4220 refl (
        zeroes 9 4221 refl (
          zeroes 8 4222 refl (
            zeroes 7 4223 refl (
              zeroes 6 4224 refl (
                zeroes 5 4225 refl (
                  zeroes 4 4226 refl (
                    zeroes 3 4227 refl (
                      zeroes 2 4228 refl (
                        zeroes 1 4229 refl
                          (digit 0 4230 0 3 (omega arith) (omega arith) (done 4231 3)))))))))))

ustar_lookup-Found_example :
    (r : Option (ℕ × ℕ)) × (ustar_lookup 5 5 archive 16 4096 32 ≡ some r)
    × Found archive 32 1 ((4096, 3) ∷ []) r
ustar_lookup-Found_example =
    ustar_lookup-Found 5 5 archive 16 4096 32 1 ((4096, 3) ∷ []) archive-Archive
      (λ i lt. ground (arith, lt), refl) (omega arith) (omega arith)

-- Eleven sevens are no int.
overflow_run : oct2bin 11 (λ _. 55) 0 0 ≡ none
unfolding oct2bin
overflow_run = refl

ustar_run : ustar_lookup 5 5 archive 16 4096 32 ≡ some (some (4608, 3))
unfolding ustar_lookup oct2bin memcmp strlen_loop
ustar_run = refl
