-- ===== src/Structures/Llist/Edges.antt =====
-- Two chains side by side, with the links between them rewritten.
use evalyn_os.Base.{
  ℕ, ◌≡◌, refl, ◌∙◌, ◌==◌, ==_iff, true, false, List, [], ◌∷◌, ◌++◌, arith, Bool-cases, inl, inr,
}
use evalyn_os.Base.Maps.{update}
use evalyn_os.Base.Distinct.{has, Distinct, has-concat, Distinct-left, Distinct-right, apart}
use evalyn_os.Structures.Llist.{link}
use evalyn_os.Structures.Llist.Links.{
  front, back, Linked, Linked-cong, has-back, relink_end, relink_start,
}

pub link_away : (f : ℕ → ℕ) (n v x : ℕ) → (x == n) ≡ false → link f n v x ≡ f x
link_away f n v x h = ground (arith, h)

pub link_at : (f : ℕ → ℕ) (n v : ℕ) → (n == 0) ≡ false → link f n v n ≡ v
link_at f n v h = ground (arith, h)

-- The last node of a chain is not one of another chain, unless there is none.
pub back-apart :
    (a b : List ℕ) (y : ℕ)
    → Distinct (a ++ b)
    → has 0 b ≡ false
    → has y b ≡ true
    → (y == back 0 a) ≡ false
back-apart [] b y d nz h = elim (Bool-cases (y == 0)) [
  | inl e ↦ absurd (let h' : has 0 b ≡ true = rw (← (==_iff y 0).0 e) h in ground (arith, h', nz))
  | inr e ↦ e
]
back-apart (x ∷ a) b y d nz h = elim (Bool-cases (y == back x a)) [
  | inl e ↦
      let out : has (back x a) b ≡ false = apart (x ∷ a) b (back x a) d (has-back x a) in
      absurd (
        let h' : has (back x a) b ≡ true = rw (← (==_iff y (back x a)).0 e) h in
        ground (arith, h', out))
  | inr e ↦ e
]

pub front-apart :
    (a b : List ℕ) (y : ℕ)
    → Distinct (a ++ b)
    → has 0 a ≡ false
    → has y a ≡ true
    → (y == front b 0) ≡ false
front-apart a [] y d nz h = elim (Bool-cases (y == 0)) [
  | inl e ↦ absurd (let h' : has 0 a ≡ true = rw (← (==_iff y 0).0 e) h in ground (arith, h', nz))
  | inr e ↦ e
]
front-apart a (x ∷ b) y d nz h = ground (arith, apart a (x ∷ b) y d h)

back_nonzero : (x : ℕ) (a : List ℕ) → has 0 (x ∷ a) ≡ false → (back x a == 0) ≡ false
back_nonzero x [] h = ground (arith, h)
back_nonzero x (y ∷ a) h = back_nonzero y a (ground (arith, h))

link-update : (f : ℕ → ℕ) (n v : ℕ) → (n == 0) ≡ false → (y : ℕ) → link f n v y ≡ update f n v y
link-update f n v h y = rw h refl

link_end :
    (next prev : ℕ → ℕ) (e e' : ℕ) (a : List ℕ)
    → Distinct a
    → has 0 a ≡ false
    → Linked next prev 0 a e
    → Linked (link next (back 0 a) e') prev 0 a e'
link_end next prev e e' [] d nz l = tt
link_end next prev e e' (x ∷ a) d nz l =
    let same = link-update next (back x a) e' (back_nonzero x a nz) in
    Linked-cong _ _ prev prev 0 e' (x ∷ a) (λ y h. same y) (λ y h. refl)
      (relink_end next prev 0 e e' (x ∷ a) d l)

link_start :
    (next prev : ℕ → ℕ) (p p' : ℕ) (b : List ℕ)
    → Distinct b
    → has 0 b ≡ false
    → Linked next prev p b 0
    → Linked next (link prev (front b 0) p') p' b 0
link_start next prev p p' [] d nz l = tt
link_start next prev p p' (x ∷ b) d nz l =
    let same = link-update prev x p' (ground (arith, nz)) in
    Linked-cong next next _ _ p' 0 (x ∷ b) (λ y h. refl) (λ y h. same y)
      (relink_start next prev p p' 0 (x ∷ b) d l)

-- The end of the first chain and the beginning of the second are linked anew, and no other link of
-- theirs changes.
pub rejoin :
    (next prev next' prev' : ℕ → ℕ) (a b : List ℕ) (e p e' p' : ℕ)
    → Distinct (a ++ b)
    → has 0 (a ++ b) ≡ false
    → ((y : ℕ) → has y (a ++ b) ≡ true → next' y ≡ link next (back 0 a) e' y)
    → ((y : ℕ) → has y (a ++ b) ≡ true → prev' y ≡ link prev (front b 0) p' y)
    → Linked next prev 0 a e
    → Linked next prev p b 0
    → Linked next' prev' 0 a e' × Linked next' prev' p' b 0
rejoin next prev next' prev' a b e p e' p' d nz hn hp la lb =
    let nza : has 0 a ≡ false = ground (arith, nz, has-concat 0 a b) in
    let nzb : has 0 b ≡ false = ground (arith, nz, has-concat 0 a b) in
    let left : (y : ℕ) → has y a ≡ true → has y (a ++ b) ≡ true =
      λ y h. ground (arith, h, has-concat y a b) in
    let right : (y : ℕ) → has y b ≡ true → has y (a ++ b) ≡ true =
      λ y h. ground (arith, h, has-concat y a b) in
    (
      Linked-cong (link next (back 0 a) e') next' prev prev' 0 e' a (λ y h. hn y (left y h))
          (λ y h. hp y (left y h) ∙ link_away prev _ p' y (front-apart a b y d nza h))
          (link_end next prev e e' a (Distinct-left a b d) nza la),
      Linked-cong next next' (link prev (front b 0) p') prev' p' 0 b
          (λ y h. hn y (right y h) ∙ link_away next _ e' y (back-apart a b y d nzb h))
          (λ y h. hp y (right y h)) (link_start next prev p p' b (Distinct-right a b d) nzb lb),
    )
