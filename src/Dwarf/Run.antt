-- ===== src/Dwarf/Run.antt =====
-- The outcome of a parser over a section of debug information: a C function that returns a `bool`
-- and writes through pointers. A load outside the section is a fault, and never a value.
use evalyn_os.Base.{
  ℕ, ◌%◌, ◌≡◌, refl, Bool, true, false, none, some, List, get_elem?, if◌then◌else◌,
}

pub data Run {ℓ} (A : Type ℓ) : Type ℓ where
  done : A → Run A
  failed : Run A  -- `return false`
  fault : Run A  -- an access outside the section or the object
  overflow : Run A  -- a signed result out of its range, where the sanitizer's handler panics
  out_of_fuel : Run A

infixl 5 ◌>>=◌
abbrev pub ◌>>=◌ {ℓ κ} : {A : Type ℓ} {B : Type κ} → Run A → (A → Run B) → Run B
done a >>= k = k a
failed >>= k = failed
fault >>= k = fault
overflow >>= k = overflow
out_of_fuel >>= k = out_of_fuel

-- The bytes of a section, from its first one; a pointer is an offset.
abbrev pub Section : Type 0
Section = List ℕ

-- `*p`
unfoldable pub load : Section → ℕ → Run ℕ
load s p = elim (get_elem? s p) [ none ↦ fault | some b ↦ done (b % 256) ]

-- No fault, no overflow, enough fuel, and a postcondition where the C function returns true.
pub data Safe {ℓ κ} {A : Type ℓ} (P : A → Type κ) : Run A → Type (ℓ ⊔ κ) where
  success : {a : A} → P a → Safe P (done a)
  failure : Safe P failed

module _ {ℓ κ} {A : Type ℓ} {P : A → Type κ} where
  pub bind {ℓ' κ'} :
      {B : Type ℓ'} {Q : B → Type κ'} {r : Run A} {k : A → Run B}
      → Safe P r
      → ((a : A) → P a → Safe Q (k a))
      → Safe Q (r >>= k)
  bind (success p) next = next _ p
  bind failure next = failure

  pub mono {κ'} : {Q : A → Type κ'} {r : Run A} → Safe P r → ((a : A) → P a → Q a) → Safe Q r
  mono (success p) weaken = success (weaken _ p)
  mono failure weaken = failure

  pub branch :
      {x y : Run A} (b : Bool)
      → (b ≡ true → Safe P x)
      → (b ≡ false → Safe P y)
      → Safe P (if b then x else y)
  branch true t f = t (λ i. true)
  branch false t f = f (λ i. false)

-- `if (r) return true;` with the rest of the function behind it.
abbrev pub or_else {ℓ} : {A : Type ℓ} → Run A → Run A → Run A
or_else r rest = elim r [
  | done a ↦ done a
  | failed ↦ rest
  | fault ↦ fault
  | overflow ↦ overflow
  | out_of_fuel ↦ out_of_fuel
]

module _ {ℓ κ} {A : Type ℓ} {P : A → Type κ} where
  pub or_else-Safe : {r rest : Run A} → Safe P r → Safe P rest → Safe P (or_else r rest)
  or_else-Safe (success p) s = success p
  or_else-Safe failure s = s

-- The rule for a step whose outcome later steps depend on.
pub bind_eq {ℓ κ ℓ' κ'} :
    {A : Type ℓ} {P : A → Type κ} {B : Type ℓ'} {Q : B → Type κ'} {r : Run A} {k : A → Run B}
    → Safe P r
    → ((a : A) → r ≡ done a → P a → Safe Q (k a))
    → Safe Q (r >>= k)
bind_eq (success p) next = next _ refl p
bind_eq failure next = failure

-- No fault and enough fuel; but a signed result may leave its range.
pub data Ends {ℓ κ} {A : Type ℓ} (P : A → Type κ) : Run A → Type (ℓ ⊔ κ) where
  returns : {r : Run A} → Safe P r → Ends P r
  overflows : Ends P overflow

module _ {ℓ κ} {A : Type ℓ} {P : A → Type κ} where
  pub bind-Ends {ℓ' κ'} :
      {B : Type ℓ'} {Q : B → Type κ'} {r : Run A} {k : A → Run B}
      → Ends P r
      → ((a : A) → P a → Ends Q (k a))
      → Ends Q (r >>= k)
  bind-Ends (returns (success p)) next = next _ p
  bind-Ends (returns failure) next = returns failure
  bind-Ends overflows next = overflows

  pub branch-Ends :
      {x y : Run A} (b : Bool)
      → (b ≡ true → Ends P x)
      → (b ≡ false → Ends P y)
      → Ends P (if b then x else y)
  branch-Ends true t f = t (λ i. true)
  branch-Ends false t f = f (λ i. false)

-- A postcondition where the C function returns true, and a reason where it returns false.
pub data Decided {ℓ κ κ'} {A : Type ℓ} (P : A → Type κ) (F : Type κ')
    : Run A → Type (ℓ ⊔ κ ⊔ κ') where
  accepted : {a : A} → P a → Decided P F (done a)
  refused : F → Decided P F failed

module _ {ℓ κ κ'} {A : Type ℓ} {P : A → Type κ} {F : Type κ'} where
  pub bind-Decided {ℓ₂ κ₂ κ₃} :
      {B : Type ℓ₂} {Q : B → Type κ₂} {G : Type κ₃} {r : Run A} {k : A → Run B}
      → Decided P F r
      → (F → G)
      → ((a : A) → P a → Decided Q G (k a))
      → Decided Q G (r >>= k)
  bind-Decided (accepted p) why next = next _ p
  bind-Decided (refused f) why next = refused (why f)

  pub branch-Decided :
      {x y : Run A} (b : Bool)
      → (b ≡ true → Decided P F x)
      → (b ≡ false → Decided P F y)
      → Decided P F (if b then x else y)
  branch-Decided true t f = t (λ i. true)
  branch-Decided false t f = f (λ i. false)
