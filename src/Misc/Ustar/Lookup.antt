-- ===== src/Misc/Ustar/Lookup.antt =====
-- The lookup finds the first file of its name.
use evalyn_os.Base.{
  ℕ, zero, suc, ◌+◌, ◌-◌, ◌*◌, ◌/◌, ◌%◌, ◌^◌, ◌≤◌, ◌<◌, ◌≡◌, inl, inr, refl, ◌==◌, leb, ◌&&◌, true,
  false, Option, some, none, List, [], ◌∷◌, length, arith, Bool-cases,
}
use evalyn_os.Libc.Memory.{Memory}
use evalyn_os.Libc.Strings.{memcmp}
use evalyn_os.Libc.Compare.{Same, Compared, equal, below, above, memcmp-Compared, IsString}
use evalyn_os.Libc.Search.{lengths-IsString}
use evalyn_os.Misc.Ustar.{
  eightfold_fits, sum_fits, oct2bin, file_size_offset, align_up, ustar_lookup,
}

-- `value` is what the `len` octal digits at `p` say, after digits that say `n`.
pub data Octal (m : Memory) : (len p n value : ℕ) → Type 0 where
  done : (p n : ℕ) → Octal m 0 p n n
  digit :
      (len p n value : ℕ)
      → 48 ≤ m p
      → m p < 56
      → Octal m len (p + 1) (n * 8 + (m p - 48)) value
      → Octal m (suc len) p n value

Octal-le : (m : Memory) (len p n value : ℕ) → Octal m len p n value → n ≤ value
Octal-le m _ _ _ _ (done p n) = omega arith
Octal-le m _ _ _ _ (digit len p n value lo hi rest) =
    omega (arith, Octal-le m len (p + 1) _ value rest)

oct2bin-Octal :
    (m : Memory) (len p n value : ℕ)
    → value < 2 ^ 31
    → Octal m len p n value
    → oct2bin len m p n ≡ some value
unfolding oct2bin
oct2bin-Octal m _ _ _ _ small (done p n) = refl
oct2bin-Octal m _ _ _ _ small (digit len p n value lo hi rest) =
    let le = Octal-le m len (p + 1) _ value rest in
    let plain : (n * 8 % 2 ^ 32 + (m p + 2 ^ 32 - 48)) % 2 ^ 32 ≡ n * 8 + (m p - 48) =
      omega (arith, lo, hi, le, small) in
    let fits : (eightfold_fits n && sum_fits (n * 8 % 2 ^ 32) (m p)) ≡ true =
      ground (arith, lo, hi, le, small) in
    rw (fits, plain) (oct2bin-Octal m len (p + 1) _ value small rest)

Same-memcmp : (n : ℕ) (m : Memory) (a b : ℕ) → (memcmp n m a b == 0) ≡ true → Same m a b n
Same-memcmp n m a b e = go (memcmp n m a b) e (memcmp-Compared n m a b)
  where
    go : (r : ℕ) → (r == 0) ≡ true → Compared m a b n r → Same m a b n
    go _ e (equal s) = s
    go _ e (below k lt s h) = absurd (ground (arith, e))
    go _ e (above k lt s h) = absurd (ground (arith, e))

memcmp-Same : (n : ℕ) (m : Memory) (a b : ℕ) → Same m a b n → (memcmp n m a b == 0) ≡ true
memcmp-Same n m a b same = go (memcmp n m a b) (memcmp-Compared n m a b)
  where
    go : (r : ℕ) → Compared m a b n r → (r == 0) ≡ true
    go _ (equal s) = refl
    go _ (below k lt s h) = absurd (omega (arith, h, same k lt))
    go _ (above k lt s h) = absurd (omega (arith, h, same k lt))

-- An archive at `p` with headers at the addresses of the list, each with the size of its file, and
-- behind them a block that is no header.
pub data Archive (m : Memory) (magic : ℕ) : ℕ → List (ℕ × ℕ) → Type 0 where
  nothing : (p : ℕ) → (Same m (p + 257) magic 5 → ⊥) → Archive m magic p []
  file :
      (p size : ℕ) (rest : List (ℕ × ℕ))
      → Same m (p + 257) magic 5
      → size < 2 ^ 31
      → p + size + 1024 < 2 ^ 64
      → Octal m 11 (p + file_size_offset) 0 size
      → Archive m magic (p + (size + 511) / 512 * 512 + 512) rest
      → Archive m magic p ((p, size) ∷ rest)

-- The contents and the size of the first file with the name at `filename`, of `k` characters.
pub data Found (m : Memory) (filename k : ℕ) : List (ℕ × ℕ) → Option (ℕ × ℕ) → Type 0 where
  missing : Found m filename k [] none
  here :
      (p size : ℕ) (rest : List (ℕ × ℕ))
      → Same m p filename (k + 1)
      → Found m filename k ((p, size) ∷ rest) (some (p + 512, size))
  there :
      (p size : ℕ) (rest : List (ℕ × ℕ)) (r : Option (ℕ × ℕ))
      → (Same m p filename (k + 1) → ⊥)
      → Found m filename k rest r
      → Found m filename k ((p, size) ∷ rest) r

-- In an archive whose files are smaller than 2 GiB, with more fuel than it has files, and more for
-- the name than it has characters, ustar_lookup returns, and gives the first file of that name, or
-- nullptr if there is none.
pub ustar_lookup-Found :
    (fuel name_fuel : ℕ) (m : Memory) (magic p filename k : ℕ) (files : List (ℕ × ℕ))
    → Archive m magic p files
    → IsString m filename k
    → length files < fuel
    → k < name_fuel
    → (r : Option (ℕ × ℕ)) × (ustar_lookup fuel name_fuel m magic p filename ≡ some r)
      × Found m filename k files r
unfolding ustar_lookup
ustar_lookup-Found zero name_fuel m magic p filename k files a str lt lt' =
    absurd (omega (arith, lt))
ustar_lookup-Found (suc f) name_fuel m magic _ filename k _ (nothing p no_magic) str lt lt' =
    elim (Bool-cases (memcmp 5 m (p + 257) magic == 0)) [
      | inl e ↦ absurd (no_magic (Same-memcmp 5 m _ magic e))
      | inr e ↦ (none, rw e refl, missing)
    ]
ustar_lookup-Found (suc f) name_fuel m magic _ filename k _
      (file p size rest is_magic small room oct a) str lt lt' =
    let value = oct2bin-Octal m 11 (p + file_size_offset) 0 size small oct in
    let plain : leb (2 ^ 31) size ≡ false = ground (arith, small) in
    let step : (p + (align_up size + 512)) % 2 ^ 64 ≡ p + (size + 511) / 512 * 512 + 512 =
      omega (arith, room) in
    let head = memcmp-Same 5 m (p + 257) magic is_magic in
    let name = (lengths-IsString name_fuel 0 m filename k str lt').0 in
    let (r, e, found) =
      ustar_lookup-Found f name_fuel m magic _ filename k rest a str (omega (arith, lt)) lt' in
    elim (Bool-cases (memcmp (k + 1) m p filename == 0)) [
      | inl same ↦ (
        some (p + 512, size),
        rw (head, value, name, same, plain) refl,
        here p size rest (Same-memcmp (k + 1) m p filename same),
      )
      | inr differ ↦ (
        r,
        rw (head, value, name, differ, plain, step) e,
        there p size rest r
            (λ s.
              let same = memcmp-Same (k + 1) m p filename s in
              absurd (ground (arith, same, differ)))
            found,
      )
    ]
