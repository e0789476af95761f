-- ===== src/Libc/Search.antt =====
-- What the functions that look for a byte find.
use evalyn_os.Base.{
  ℕ, zero, suc, ◌+◌, ◌-◌, ◌%◌, ◌≤◌, ◌<◌, ◌≡◌, ◌⊎◌, inl, inr, refl, ap, ◌∙◌, ◌==◌, leb,
  if◌then◌else◌, true, false, Option, some, none, arith, Bool-cases, dec_lt,
}
use evalyn_os.Libc.Memory.{Memory, assign}
use evalyn_os.Libc.Copy.{Copied, assign-Copied}
use evalyn_os.Libc.Strings.{
  memchr, strlen, strlen_loop, strnlen, strchr, strrchr, strrchr_loop, strcpy,
}
use evalyn_os.Libc.Compare.{IsString, IsString-tail}

-- No byte of the first `n` at `p` is the low byte of `c`.
abbrev pub Without : Memory → (p c n : ℕ) → Type 0
Without m p c n = (i : ℕ) → i < n → (m (p + i) == c % 256) ≡ false

-- The first such byte of `n`.
pub data Searched (m : Memory) (p c n : ℕ) : Option ℕ → Type 0 where
  missing : Without m p c n → Searched m p c n none
  found :
      (k r : ℕ)
      → k < n
      → Without m p c k
      → m (p + k) ≡ c % 256
      → r ≡ p + k
      → Searched m p c n (some r)

-- The last such byte of `n`.
pub data SearchedLast (m : Memory) (p c n : ℕ) : Option ℕ → Type 0 where
  absent : Without m p c n → SearchedLast m p c n none
  last :
      (k r : ℕ)
      → k < n
      → m (p + k) ≡ c % 256
      → ((i : ℕ) → k < i → i < n → (m (p + i) == c % 256) ≡ false)
      → r ≡ p + k
      → SearchedLast m p c n (some r)

first : (m : Memory) (p : ℕ) → m (p + 0) ≡ m p
first m p = ap m (omega arith)

next : (m : Memory) (p i : ℕ) → m (p + suc i) ≡ m (p + 1 + i)
next m p i = ap m (omega arith)

Without-shift :
    (m : Memory) (p c n : ℕ)
    → (m p == c % 256) ≡ false
    → Without m (p + 1) c n
    → Without m p c (suc n)
Without-shift m p c n e h zero lt = rw (first m p) e
Without-shift m p c n e h (suc i) lt = rw (next m p i) (h i (omega arith))

Searched-shift :
    (m : Memory) (p c n : ℕ) (r : Option ℕ)
    → (m p == c % 256) ≡ false
    → Searched m (p + 1) c n r
    → Searched m p c (suc n) r
Searched-shift m p c n _ e (missing h) = missing (Without-shift m p c n e h)
Searched-shift m p c n _ e (found k r lt h at place) =
    found (suc k) r (omega arith) (Without-shift m p c k e h) (next m p k ∙ at)
      (omega (arith, place))

here : (m : Memory) (p c n : ℕ) → (m p == c % 256) ≡ true → Searched m p c (suc n) (some p)
here m p c n e =
    found 0 p (omega arith) (λ i lt. absurd (omega (arith, lt))) (ground (arith, e, first m p))
      (omega arith)

-- `memchr` finds the first byte that is the low byte of its value, or there is none.
pub memchr-Searched : (n : ℕ) (m : Memory) (p c : ℕ) → Searched m p c n (memchr n m p c)
unfolding memchr
memchr-Searched zero m p c = missing (λ i lt. absurd (omega (arith, lt)))
memchr-Searched (suc n) m p c = elim (Bool-cases (m p == c % 256)) [
  | inl yes' ↦ rw yes' (here m p c n yes')
  | inr no' ↦ rw no' (Searched-shift m p c n _ no' (memchr-Searched n m (p + 1) c))
]

strlen_loop-IsString :
    (fuel : ℕ) (m : Memory) (s k count : ℕ)
    → IsString m s k
    → k < fuel
    → strlen_loop fuel m s count ≡ some (count + k)
unfolding strlen_loop
strlen_loop-IsString zero m s k count h lt = absurd (omega (arith, lt))
strlen_loop-IsString (suc f) m s zero count h lt =
    let ends : (m s == 0) ≡ true = ground (arith, h.1, first m s) in rw ends (ap some (omega arith))
strlen_loop-IsString (suc f) m s (suc k) count h lt =
    let more : (m s == 0) ≡ false = rw (← first m s) (h.0 0 (omega arith)) in
    rw more (
      strlen_loop-IsString f m (s + 1) k (count + 1) (IsString-tail m s k h) (omega arith)
      ∙ ap some (omega arith))

strnlen-IsString :
    (maxlen : ℕ) (m : Memory) (s k : ℕ)
    → IsString m s k
    → strnlen maxlen m s ≡ (if leb k maxlen then k else maxlen)
unfolding strnlen
strnlen-IsString zero m s zero h = refl
strnlen-IsString zero m s (suc k) h = ground arith
strnlen-IsString (suc n) m s zero h = ground (arith, h.1, first m s)
strnlen-IsString (suc n) m s (suc k) h =
    let more : (m s == 0) ≡ false = rw (← first m s) (h.0 0 (omega arith)) in
    ground (arith, more, strnlen-IsString n m (s + 1) k (IsString-tail m s k h))

-- With more fuel than the string has characters, strlen returns their number, and strnlen gives
-- the smaller of that number and its bound.
pub lengths-IsString :
    (fuel maxlen : ℕ) (m : Memory) (s k : ℕ)
    → IsString m s k
    → k < fuel
    → (strlen fuel m s ≡ some k) × (strnlen maxlen m s ≡ (if leb k maxlen then k else maxlen))
lengths-IsString fuel maxlen m s k h lt = (
  strlen_loop-IsString fuel m s k 0 h lt ∙ ap some (omega arith),
  strnlen-IsString maxlen m s k h,
)

-- With more fuel than the string has characters, strchr returns, and finds the first of its
-- characters and its terminator that is the low byte of c, or NULL.
pub strchr-Searched :
    (fuel : ℕ) (m : Memory) (s k c : ℕ)
    → IsString m s k
    → k < fuel
    → (r : Option ℕ) × (strchr fuel m s c ≡ some r) × Searched m s c (suc k) r
unfolding strchr
strchr-Searched zero m s k c h lt = absurd (omega (arith, lt))
strchr-Searched (suc f) m s zero c h lt =
    let ends : (m s == 0) ≡ true = ground (arith, h.1, first m s) in
    elim (Bool-cases (m s == c % 256)) [
      | inl yes' ↦ (some s, rw yes' refl, here m s c 0 yes')
      | inr no' ↦ (
        none,
        rw (no', ends) refl,
        missing (Without-shift m s c 0 no' (λ i less. absurd (omega (arith, less)))),
      )
    ]
strchr-Searched (suc f) m s (suc k) c h lt =
    let more : (m s == 0) ≡ false = rw (← first m s) (h.0 0 (omega arith)) in
    let (r, e, found') = strchr-Searched f m (s + 1) k c (IsString-tail m s k h) (omega arith) in
    elim (Bool-cases (m s == c % 256)) [
      | inl yes' ↦ (some s, rw yes' refl, here m s c (suc k) yes')
      | inr no' ↦ (r, rw (no', more) e, Searched-shift m s c (suc k) r no' found')
    ]

-- What `strrchr` has found so far, with `p` found before.
data Latest (m : Memory) (s c n : ℕ) (p : Option ℕ) : Option ℕ → Type 0 where
  before : Without m s c n → Latest m s c n p p
  at_last :
      (k r : ℕ)
      → k < n
      → m (s + k) ≡ c % 256
      → ((i : ℕ) → k < i → i < n → (m (s + i) == c % 256) ≡ false)
      → r ≡ s + k
      → Latest m s c n p (some r)

Latest-shift :
    (m : Memory) (s c n : ℕ) (p r : Option ℕ)
    → Latest m (s + 1) c n (if m s == c % 256 then some s else p) r
    → Latest m s c (suc n) p r
Latest-shift m s c n p _ (at_last k r lt at after place) =
    at_last (suc k) r (omega arith) (next m s k ∙ at) later (omega (arith, place))
  where
    later : (i : ℕ) → suc k < i → i < suc n → (m (s + i) == c % 256) ≡ false
    later zero lt' less = absurd (omega (arith, lt'))
    later (suc i) lt' less = rw (next m s i) (after i (omega arith) (omega arith))
Latest-shift m s c n p _ (before w) = elim (Bool-cases (m s == c % 256)) [
  | inl yes' ↦
      rw yes' (at_last 0 s (omega arith) (ground (arith, yes', first m s)) later (omega arith))
  | inr no' ↦ rw no' (before (Without-shift m s c n no' w))
]
  where
    later : (i : ℕ) → 0 < i → i < suc n → (m (s + i) == c % 256) ≡ false
    later zero lt' less = absurd (omega (arith, lt'))
    later (suc i) lt' less = rw (next m s i) (w i (omega arith))

strrchr_loop-Latest :
    (fuel : ℕ) (m : Memory) (s k c : ℕ) (p : Option ℕ)
    → IsString m s k
    → k < fuel
    → (r : Option ℕ) × (strrchr_loop fuel m s c p ≡ some r) × Latest m s c (suc k) p r
unfolding strrchr_loop
strrchr_loop-Latest zero m s k c p h lt = absurd (omega (arith, lt))
strrchr_loop-Latest (suc f) m s zero c p h lt =
    let ends : (m s == 0) ≡ true = ground (arith, h.1, first m s) in
    (_, rw ends refl, Latest-shift m s c 0 p _ (before (λ i less. absurd (omega (arith, less)))))
strrchr_loop-Latest (suc f) m s (suc k) c p h lt =
    let more : (m s == 0) ≡ false = rw (← first m s) (h.0 0 (omega arith)) in
    let (r, e, l) =
      strrchr_loop-Latest f m (s + 1) k c (if m s == c % 256 then some s else p)
        (IsString-tail m s k h) (omega arith) in
    (r, rw more e, Latest-shift m s c (suc k) p r l)

-- With more fuel than the string has characters, strrchr returns, and finds the last of its
-- characters and its terminator that is the low byte of c, or NULL.
pub strrchr-SearchedLast :
    (fuel : ℕ) (m : Memory) (s k c : ℕ)
    → IsString m s k
    → k < fuel
    → (r : Option ℕ) × (strrchr fuel m s c ≡ some r) × SearchedLast m s c (suc k) r
strrchr-SearchedLast fuel m s k c h lt =
    let (r, e, l) = strrchr_loop-Latest fuel m s k c none h lt in (r, e, forget r l)
  where
    forget : (r : Option ℕ) → Latest m s c (suc k) none r → SearchedLast m s c (suc k) r
    forget _ (before w) = absent w
    forget _ (at_last k' r lt' at after place) = last k' r lt' at after place

module _ (m : Memory) (dest src k : ℕ) (safe : (dest ≤ src) ⊎ (src + suc k ≤ dest))
    (str : IsString m src k) where
  Copied-byte :
      (j : ℕ) (m' : Memory) (d : ℕ)
      → d ≡ dest + j
      → Copied m dest src (j + 1) m'
      → m' d ≡ m (src + j)
  Copied-byte j m' d ed h =
      let place : m (src + (d - dest)) ≡ m (src + j) = ap m (omega (arith, ed)) in
      ground (arith, h d, place, ed)

  strcpy_loop-Copied :
      (f j : ℕ) (m' : Memory) (d s : ℕ)
      → j ≤ k
      → k < f + j
      → d ≡ dest + j
      → s ≡ src + j
      → Copied m dest src j m'
      → (m'' : Memory) × (strcpy f m' d s ≡ some m'') × Copied m dest src (suc k) m''
  unfolding strcpy
  strcpy_loop-Copied zero j m' d s le enough ed es h = absurd (omega (arith, le, enough))
  strcpy_loop-Copied (suc f) j m' d s le enough ed es h =
      let t = assign m' d s 1 in
      let h' : Copied m dest src (j + 1) t =
        assign-Copied m dest src (suc k) safe j 1 m' d s (omega (arith, le)) ed es h in
      let byte = Copied-byte j t d ed h' in
      elim (dec_lt j k) [
        | yes less ↦
            let more : (t d == 0) ≡ false = rw byte (str.0 j less) in
            let (m'', e, c) =
              strcpy_loop-Copied f (j + 1) t (d + 1) (s + 1) (omega (arith, less))
                (omega (arith, enough)) (omega (arith, ed)) (omega (arith, es)) h' in
            (m'', rw more e, c)
        | no ge ↦
            let all : j ≡ k = omega (arith, le, ge) in
            let ends : (t d == 0) ≡ true = ground (arith, byte, str.1, ap (λ i. m (src + i)) all) in
            let amount : suc k ≡ j + 1 = omega (arith, all) in (t, rw ends refl, rw amount h')
      ]

-- Where the regions do not overlap, or the destination starts at or below the source, with more
-- fuel than the source has characters, strcpy returns, copies the characters and the terminator,
-- and changes no other byte.
pub strcpy-Copied :
    (fuel : ℕ) (m : Memory) (dest src k : ℕ)
    → (dest ≤ src) ⊎ (src + suc k ≤ dest)
    → IsString m src k
    → k < fuel
    → (m' : Memory) × (strcpy fuel m dest src ≡ some m') × Copied m dest src (suc k) m'
strcpy-Copied fuel m dest src k safe str lt =
    strcpy_loop-Copied m dest src k safe str fuel 0 m dest src (omega arith) (omega arith)
      (omega arith) (omega arith) (λ x. ground arith)
