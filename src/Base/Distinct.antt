-- ===== src/Base/Distinct.antt =====
-- Lists of distinct numbers, and why there are no more of them than numbers to choose from.
use evalyn_os.Base.{
  ℕ, zero, suc, ◌≤◌, ◌<◌, ◌≡◌, refl, ◌==◌, ==_iff, if◌then◌else◌, Bool, true, false, ◌||◌, List, [],
  ◌∷◌, ◌++◌, length, arith, Bool-cases, inl, inr,
}

abbrev pub has : ℕ → List ℕ → Bool
has i [] = false
has i (x ∷ xs) = (i == x) || has i xs

abbrev pub Distinct : List ℕ → Type 0
Distinct [] = Unit
Distinct (x ∷ xs) = (has x xs ≡ false) × Distinct xs

abbrev pub AllBelow : ℕ → List ℕ → Type 0
AllBelow n [] = Unit
AllBelow n (x ∷ xs) = (x < n) × AllBelow n xs

without : ℕ → List ℕ → List ℕ
without i [] = []
without i (x ∷ xs) = let rest = without i xs in if i == x then rest else x ∷ rest

has-without : (i j : ℕ) (xs : List ℕ) → has j xs ≡ false → has j (without i xs) ≡ false
unfolding without
has-without i j [] h = refl
has-without i j (x ∷ xs) h = ground (arith, has-without i j xs)

without-Distinct : (i : ℕ) (xs : List ℕ) → Distinct xs → Distinct (without i xs)
unfolding without
without-Distinct i [] d = tt
without-Distinct i (x ∷ xs) d = elim (Bool-cases (i == x)) [
  | inl same ↦ rw same (without-Distinct i xs d.1)
  | inr other ↦ rw other (has-without i x xs d.0, without-Distinct i xs d.1)
]

without-AllBelow : (n : ℕ) (xs : List ℕ) → AllBelow (suc n) xs → AllBelow n (without n xs)
unfolding without
without-AllBelow n [] a = tt
without-AllBelow n (x ∷ xs) a = elim (Bool-cases (n == x)) [
  | inl same ↦ rw same (without-AllBelow n xs a.1)
  | inr other ↦ rw other (ground arith, without-AllBelow n xs a.1)
]

without_absent : (i : ℕ) (xs : List ℕ) → has i xs ≡ false → length (without i xs) ≡ length xs
unfolding without
without_absent i [] h = refl
without_absent i (x ∷ xs) h = ground (arith, without_absent i xs)

length-without : (i : ℕ) (xs : List ℕ) → Distinct xs → length xs ≤ suc (length (without i xs))
unfolding without
length-without i [] d = omega arith
length-without i (x ∷ xs) d = elim (Bool-cases (i == x)) [
  | inl same ↦
      let e = (==_iff i x).0 same in rw same (omega (arith, without_absent i xs (rw e d.0)))
  | inr other ↦ rw other (omega (arith, length-without i xs d.1))
]

-- Distinct numbers below `n` are at most `n`.
pub length-Distinct : (n : ℕ) (xs : List ℕ) → Distinct xs → AllBelow n xs → length xs ≤ n
length-Distinct n [] d a = omega arith
length-Distinct zero (x ∷ xs) d a = absurd (omega arith)
length-Distinct (suc n) (x ∷ xs) d a =
    let rest = without n (x ∷ xs) in
    omega (
      arith,
      length-without n (x ∷ xs) d,
      length-Distinct n rest (without-Distinct n (x ∷ xs) d) (without-AllBelow n (x ∷ xs) a),
    )

pub has-append : (i j : ℕ) (xs : List ℕ) → has i (xs ++ j ∷ []) ≡ (has i xs || (i == j))
has-append i j [] = ground arith
has-append i j (x ∷ xs) = ground (arith, has-append i j xs)

pub Distinct-append :
    (i : ℕ) (xs : List ℕ) → Distinct xs → has i xs ≡ false → Distinct (xs ++ i ∷ [])
Distinct-append i [] d h = (refl, tt)
Distinct-append i (x ∷ xs) d h =
    (ground (arith, has-append x i xs), Distinct-append i xs d.1 (ground arith))

pub AllBelow-append : (n i : ℕ) (xs : List ℕ) → AllBelow n xs → i < n → AllBelow n (xs ++ i ∷ [])
AllBelow-append n i [] a h = (h, tt)
AllBelow-append n i (x ∷ xs) a h = (a.0, AllBelow-append n i xs a.1 h)

pub has-concat : (i : ℕ) (xs ys : List ℕ) → has i (xs ++ ys) ≡ (has i xs || has i ys)
has-concat i [] ys = refl
has-concat i (x ∷ xs) ys = ground (arith, has-concat i xs ys)

pub Distinct-left : (xs ys : List ℕ) → Distinct (xs ++ ys) → Distinct xs
Distinct-left [] ys d = tt
Distinct-left (x ∷ xs) ys d = (ground (arith, d.0, has-concat x xs ys), Distinct-left xs ys d.1)

pub Distinct-right : (xs ys : List ℕ) → Distinct (xs ++ ys) → Distinct ys
Distinct-right [] ys d = d
Distinct-right (x ∷ xs) ys d = Distinct-right xs ys d.1

-- No element is on both sides.
pub apart : (xs ys : List ℕ) (i : ℕ) → Distinct (xs ++ ys) → has i xs ≡ true → has i ys ≡ false
apart [] ys i d h = absurd (ground (arith, h))
apart (x ∷ xs) ys i d h = elim (Bool-cases (i == x)) [
  | inl same ↦
      let e : has i (xs ++ ys) ≡ false = rw ((==_iff i x).0 same) d.0 in
      ground (arith, e, has-concat i xs ys)
  | inr other ↦ apart xs ys i d.1 (ground (arith, h, other))
]

pub Distinct-concat :
    (xs ys : List ℕ)
    → Distinct xs
    → Distinct ys
    → ((i : ℕ) → has i xs ≡ true → has i ys ≡ false)
    → Distinct (xs ++ ys)
Distinct-concat [] ys dx dy far = dy
Distinct-concat (x ∷ xs) ys dx dy far = (
  ground (arith, dx.0, far x, has-concat x xs ys),
  Distinct-concat xs ys dx.1 dy (λ i h. far i (ground (arith, h))),
)
