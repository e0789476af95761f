-- ===== src/Base/Maps.antt =====
-- Functions from addresses or numbers, changed at one place.
use evalyn_os.Base.{ℕ, ◌≡◌, ◌⊎◌, inl, inr, refl, ◌==◌, ==_iff, if◌then◌else◌, false, Bool-cases}

module _ {ℓ} {A : Type ℓ} where
  abbrev pub update : (ℕ → A) → ℕ → A → ℕ → A
  update f i a j = if j == i then a else f j

  pub update-cases :
      (f : ℕ → A) (i : ℕ) (a : A) (j : ℕ)
      → ((j ≡ i) × (update f i a j ≡ a)) ⊎ ((j == i) ≡ false × (update f i a j ≡ f j))
  update-cases f i a j = elim (Bool-cases (j == i)) [
    | inl same ↦ inl ((==_iff j i).0 same, rw same refl)
    | inr other ↦ inr (other, rw other refl)
  ]
