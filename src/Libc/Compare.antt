-- ===== src/Libc/Compare.antt =====
-- What the comparisons of strings and regions give.
use evalyn_os.Base.{
  ℕ, zero, suc, ◌+◌, ◌-◌, ◌^◌, ◌<◌, ◌≡◌, inl, inr, refl, ap, sym, ◌∙◌, ◌==◌, ltb, Bool, true, false,
  some, arith, Bool-cases,
}
use evalyn_os.Libc.Memory.{Memory}
use evalyn_os.Libc.Strings.{memcmp, strcmp, char_difference}

-- The first `n` bytes at `a` and `b` are the same.
abbrev pub Same : Memory → (a b n : ℕ) → Type 0
Same m a b n = (i : ℕ) → i < n → m (a + i) ≡ m (b + i)

Same-shift : (m : Memory) (a b n : ℕ) → m a ≡ m b → Same m (a + 1) (b + 1) n → Same m a b (suc n)
Same-shift m a b n e h zero lt = ap m (omega arith) ∙ e ∙ ap m (omega arith)
Same-shift m a b n e h (suc i) lt = ap m (omega arith) ∙ h i (omega arith) ∙ ap m (omega arith)

-- How `memcmp` answers on regions of `n` bytes.
pub data Compared (m : Memory) (a b n : ℕ) : ℕ → Type 0 where
  equal : Same m a b n → Compared m a b n 0
  below : (k : ℕ) → k < n → Same m a b k → m (a + k) < m (b + k) → Compared m a b n (2 ^ 32 - 1)
  above : (k : ℕ) → k < n → Same m a b k → m (b + k) < m (a + k) → Compared m a b n 1

Compared-shift :
    (m : Memory) (a b n r : ℕ)
    → m a ≡ m b
    → Compared m (a + 1) (b + 1) n r
    → Compared m a b (suc n) r
Compared-shift m a b n _ e (equal s) = equal (Same-shift m a b n e s)
Compared-shift m a b n _ e (below k lt s h) =
    below (suc k) (omega arith) (Same-shift m a b k e s) (omega (arith, h, moved a k, moved b k))
  where
    moved : (c k : ℕ) → m (c + suc k) ≡ m (c + 1 + k)
    moved c k = ap m (omega arith)
Compared-shift m a b n _ e (above k lt s h) =
    above (suc k) (omega arith) (Same-shift m a b k e s) (omega (arith, h, moved a k, moved b k))
  where
    moved : (c k : ℕ) → m (c + suc k) ≡ m (c + 1 + k)
    moved c k = ap m (omega arith)

-- memcmp gives 0 where the regions are the same, and otherwise -1 or 1 by the order of the first
-- bytes that differ.
pub memcmp-Compared : (n : ℕ) (m : Memory) (a b : ℕ) → Compared m a b n (memcmp n m a b)
unfolding memcmp
memcmp-Compared zero m a b = equal (λ i lt. absurd (omega (arith, lt)))
memcmp-Compared (suc n) m a b = elim (Bool-cases (m a == m b)) [
  | inl same ↦
      rw same
        (Compared-shift m a b n _ (ground (arith, same)) (memcmp-Compared n m (a + 1) (b + 1)))
  | inr differ ↦ rw differ (elim (Bool-cases (ltb (m a) (m b))) [
    | inl lt ↦ rw lt (below 0 (omega arith) nothing (here lt))
    | inr ge ↦ rw ge (above 0 (omega arith) nothing (there ge differ))
  ])
]
  where
    nothing : Same m a b 0
    nothing i lt = absurd (omega (arith, lt))

    at : (c : ℕ) → m (c + 0) ≡ m c
    at c = ap m (omega arith)

    here : ltb (m a) (m b) ≡ true → m (a + 0) < m (b + 0)
    here lt = ground (arith, lt, at a, at b)

    there : ltb (m a) (m b) ≡ false → (m a == m b) ≡ false → m (b + 0) < m (a + 0)
    there ge ne = ground (arith, ge, ne, at a, at b)

-- A string of `k` characters and a terminator.
abbrev pub IsString : Memory → (s k : ℕ) → Type 0
IsString m s k = ((i : ℕ) → i < k → (m (s + i) == 0) ≡ false) × (m (s + k) ≡ 0)

pub IsString-tail : (m : Memory) (s k : ℕ) → IsString m s (suc k) → IsString m (s + 1) k
IsString-tail m s k h =
    (λ i lt. rw (ap m (moved i)) (h.0 (suc i) (omega arith)), ap m (omega arith) ∙ h.1)
  where
    moved : (i : ℕ) → s + 1 + i ≡ s + suc i
    moved i = omega arith

difference_zero :
    (signed : Bool) (a b : ℕ) → a < 256 → b < 256 → char_difference signed a b ≡ 0 → a ≡ b
difference_zero true a b ha hb = ground arith
difference_zero false a b ha hb = ground arith

difference_self : (signed : Bool) (a : ℕ) → a < 256 → char_difference signed a a ≡ 0
difference_self true a ha = ground arith
difference_self false a ha = ground arith

-- Where the memory holds bytes and the first pointer is to a string, with more fuel than it has
-- characters, strcmp returns, and it gives 0 exactly where the second pointer is to the same
-- characters and terminator.
pub strcmp-Same :
    (fuel : ℕ) (signed : Bool) (m : Memory) (a b j : ℕ)
    → ((x : ℕ) → m x < 256)
    → IsString m a j
    → j < fuel
    → (r : ℕ) × (strcmp fuel signed m a b ≡ some r)
      × (r ≡ 0 → Same m a b (suc j))
      × (Same m a b (suc j) → r ≡ 0)
unfolding strcmp
strcmp-Same zero signed m a b j bytes str lt = absurd (omega (arith, lt))
strcmp-Same (suc k) signed m a b zero bytes str lt =
    let ends : (m a == 0) ≡ true = ground (arith, str.1, first a) in
    (
      char_difference signed (m a) (m b),
      rw ends refl,
      (λ e.
          Same-shift m a b 0 (difference_zero signed (m a) (m b) (bytes a) (bytes b) e)
            (λ i less. absurd (omega (arith, less)))),
      (λ h.
          rw (← (sym (first a) ∙ h 0 (omega arith) ∙ first b))
            (difference_self signed (m a) (bytes a))),
    )
  where
    first : (c : ℕ) → m (c + 0) ≡ m c
    first c = ap m (omega arith)
strcmp-Same (suc k) signed m a b (suc j) bytes str lt =
    let more : (m a == 0) ≡ false = rw (← first a) (str.0 0 (omega arith)) in
    elim (Bool-cases (m a == m b)) [
      | inl same ↦
          let (r, e, to, from) =
            strcmp-Same k signed m (a + 1) (b + 1) j bytes (IsString-tail m a j str)
              (omega arith) in
          (
            r,
            rw (more, same) e,
            (λ z. Same-shift m a b (suc j) (ground (arith, same)) (to z)),
            (λ h. from (λ i less.
                ap m (omega arith) ∙ h (suc i) (omega (arith, less)) ∙ ap m (omega arith))),
          )
      | inr differ ↦ (
        char_difference signed (m a) (m b),
        rw (more, differ) refl,
        (λ z.
            absurd
              (ground (arith, differ, difference_zero signed (m a) (m b) (bytes a) (bytes b) z))),
        (λ h. absurd (ground (arith, differ, sym (first a) ∙ h 0 (omega arith) ∙ first b))),
      )
    ]
  where
    first : (c : ℕ) → m (c + 0) ≡ m c
    first c = ap m (omega arith)
