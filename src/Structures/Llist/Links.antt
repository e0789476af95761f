-- ===== src/Structures/Llist/Links.antt =====
-- Chains of nodes, and what a change of a link does to them.
use evalyn_os.Base.{ℕ, ◌≡◌, refl, ap, sym, ◌∙◌, true, List, [], ◌∷◌, ◌++◌, arith, inl, inr}
use evalyn_os.Base.Maps.{update, update-cases}
use evalyn_os.Base.Distinct.{has, Distinct}

-- The first node of a chain, or what follows it, and the last node, or what precedes it.
abbrev pub front : List ℕ → ℕ → ℕ
front [] e = e
front (x ∷ q) e = x

abbrev pub back : ℕ → List ℕ → ℕ
back p [] = p
back p (x ∷ q) = back x q

-- A chain from `p` to `e`, both outside it.
abbrev pub Linked : (next prev : ℕ → ℕ) → ℕ → List ℕ → ℕ → Type 0
Linked next prev p [] e = Unit
Linked next prev p (x ∷ q) e = (prev x ≡ p) × (next x ≡ front q e) × Linked next prev x q e

pub front-append : (a b : List ℕ) (e : ℕ) → front (a ++ b) e ≡ front a (front b e)
front-append [] b e = refl
front-append (x ∷ a) b e = refl

pub back-append : (p : ℕ) (a b : List ℕ) → back p (a ++ b) ≡ back (back p a) b
back-append p [] b = refl
back-append p (x ∷ a) b = back-append x a b

-- Links that are not those of the chain may change.
pub Linked-cong :
    (next next' prev prev' : ℕ → ℕ) (p e : ℕ) (q : List ℕ)
    → ((x : ℕ) → has x q ≡ true → next' x ≡ next x)
    → ((x : ℕ) → has x q ≡ true → prev' x ≡ prev x)
    → Linked next prev p q e
    → Linked next' prev' p q e
Linked-cong next next' prev prev' p e [] hn hp l = tt
Linked-cong next next' prev prev' p e (x ∷ q) hn hp l = (
  hp x (ground arith) ∙ l.0,
  hn x (ground arith) ∙ l.1,
  Linked-cong next next' prev prev' x e q (λ y h. hn y (ground (arith, h)))
      (λ y h. hp y (ground (arith, h))) l.2,
)

pub Linked-append :
    (next prev : ℕ → ℕ) (p e : ℕ) (a b : List ℕ)
    → Linked next prev p a (front b e)
    → Linked next prev (back p a) b e
    → Linked next prev p (a ++ b) e
Linked-append next prev p e [] b la lb = lb
Linked-append next prev p e (x ∷ a) b la lb =
    (la.0, la.1 ∙ sym (front-append a b e), Linked-append next prev x e a b la.2 lb)

pub Linked-split :
    (next prev : ℕ → ℕ) (p e : ℕ) (a b : List ℕ)
    → Linked next prev p (a ++ b) e
    → Linked next prev p a (front b e) × Linked next prev (back p a) b e
Linked-split next prev p e [] b l = (tt, l)
Linked-split next prev p e (x ∷ a) b l =
    let (la, lb) = Linked-split next prev x e a b l.2 in ((l.0, l.1 ∙ front-append a b e, la), lb)

pub has-back : (x : ℕ) (a : List ℕ) → has (back x a) (x ∷ a) ≡ true
has-back x [] = ground arith
has-back x (y ∷ a) = ground (arith, has-back y a)

-- A chain whose last node is linked to another end.
pub relink_end :
    (next prev : ℕ → ℕ) (p e e' : ℕ) (q : List ℕ)
    → Distinct q
    → Linked next prev p q e
    → Linked (update next (back p q) e') prev p q e'
relink_end next prev p e e' [] d l = tt
relink_end next prev p e e' (x ∷ []) d l = (l.0, ground arith, tt)
relink_end next prev p e e' (x ∷ y ∷ q) d l = (
  l.0,
  elim (update-cases next (back y q) e' x) [
    | inl (at, new) ↦
        let in_tail : has x (y ∷ q) ≡ true = ap (λ z. has z (y ∷ q)) at ∙ has-back y q in
        absurd (ground (arith, in_tail, d.0))
    | inr (away, old) ↦ old ∙ l.1
  ],
  relink_end next prev x e e' (y ∷ q) d.1 l.2,
)

-- A chain whose first node is linked to another beginning.
pub relink_start :
    (next prev : ℕ → ℕ) (p p' e : ℕ) (q : List ℕ)
    → Distinct q
    → Linked next prev p q e
    → Linked next (update prev (front q e) p') p' q e
relink_start next prev p p' e [] d l = tt
relink_start next prev p p' e (x ∷ q) d l = (
  ground arith,
  l.1,
  Linked-cong next next prev _ x e q (λ y h. refl)
      (λ y h. elim (update-cases prev x p' y) [
        | inl (at, new) ↦ absurd (let h' : has x q ≡ true = rw (← at) h in ground (arith, h', d.0))
        | inr (away, old) ↦ old
      ])
      l.2,
)
