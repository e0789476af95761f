-- ===== src/Mem/Buddy/Find.antt =====
-- The search of `buddy_allocate` for a list that is not empty.
use evalyn_os.Base.{
  ℕ, zero, suc, ◌+◌, ◌≤◌, ◌<◌, ◌≡◌, ◌⊎◌, inl, inr, refl, ap, ◌∙◌, ◌==◌, ==_iff, none, some, List,
  [], ◌∷◌, arith, Bool-cases,
}
use evalyn_os.Mem.Buddy.{Buddy, find_order}

pub list_cases : (xs : List ℕ) → (xs ≡ []) ⊎ ((p : ℕ) × (rest : List ℕ) × (xs ≡ p ∷ rest))
list_cases [] = inl refl
list_cases (p ∷ rest) = inr (p, rest, refl)

-- What the search of the lists finds.
pub find_cases :
    (b : Buddy) (n order : ℕ)
    → ((find_order b n order ≡ none) × ((j : ℕ) → order ≤ j → j < order + n → b.orders j ≡ []))
      ⊎ ((k p : ℕ) × (rest : List ℕ) × (find_order b n order ≡ some (k, p))
          × (order ≤ k)
          × (k < order + n)
          × (b.orders k ≡ p ∷ rest))
unfolding find_order
find_cases b zero order = inl (refl, λ j le lt. absurd (omega (arith, le, lt)))
find_cases b (suc n) order = elim (list_cases (b.orders order)) [
  | inr (p, rest, e) ↦ inr (order, p, rest, rw (find_order, e) refl, omega arith, omega arith, e)
  | inl e ↦ elim (find_cases b n (order + 1)) [
    | inl (none_here, empty) ↦ inl (
      rw (find_order, e) none_here,
      λ j le lt. elim (Bool-cases (j == order)) [
        | inl here ↦ ap b.orders ((==_iff j order).0 here) ∙ e
        | inr away ↦ empty j (ground (arith, le, away)) (omega (arith, lt))
      ],
    )
    | inr (k, p, rest, f, le, lt, e') ↦
        inr (k, p, rest, rw (find_order, e) f, omega (arith, le), omega (arith, lt), e')
  ]
]
