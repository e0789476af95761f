-- ===== src/Structures/Llist/Refinement.antt =====
-- The operations of the linked list, against sequences of nodes.
use evalyn_os.Base.{
  ℕ, ◌%◌, ◌^◌, ◌≡◌, refl, ap, sym, ◌∙◌, ◌==◌, ==_iff, if◌then◌else◌, true, false, List, [], ◌∷◌,
  ◌++◌, length, length-append, arith, Bool-cases, inl, inr,
}
use evalyn_os.Base.Maps.{update}
use evalyn_os.Base.Distinct.{
  has, Distinct, has-concat, Distinct-left, Distinct-right, Distinct-concat, apart,
}
use evalyn_os.Structures.Llist.{Store, link, node_delete}
use evalyn_os.Structures.Llist.Links.{
  front, back, Linked, Linked-append, Linked-split, back-append, has-back,
}
use evalyn_os.Structures.Llist.Edges.{rejoin, link_away}

-- The list holds the nodes of `q`, in this order.
pub record IsList (s : Store) (q : List ℕ) : Type 0 where
  pub linked : Linked s.next s.prev 0 q 0
  pub head_at : s.head ≡ front q 0
  pub tail_at : s.tail ≡ back 0 q
  pub counted : s.count ≡ length q % 2 ^ 64
  pub distinct : Distinct q
  pub nonnull : has 0 q ≡ false

pub not_at : (y x : ℕ) (q : List ℕ) → has y q ≡ true → has x q ≡ false → (y == x) ≡ false
not_at y x q h o = elim (Bool-cases (y == x)) [
  | inl e ↦ absurd (
      let h' : has x q ≡ true = ap (λ z. has z q) (sym ((==_iff y x).0 e)) ∙ h in
      ground (arith, h', o))
  | inr e ↦ e
]

-- A node that is not in a list differs from both neighbours of a place.
pub back_ne :
    (x : ℕ) (a b : List ℕ) → (x == 0) ≡ false → has x (a ++ b) ≡ false → (x == back 0 a) ≡ false
back_ne x [] b nz o = nz
back_ne x (y ∷ a) b nz o = elim (Bool-cases (x == back y a)) [
  | inl e ↦
      let h : has x (y ∷ a) ≡ true =
        ap (λ z. has z (y ∷ a)) ((==_iff x (back y a)).0 e) ∙ has-back y a in
      absurd (ground (arith, h, o, has-concat x (y ∷ a) b))
  | inr e ↦ e
]

pub front_ne :
    (x : ℕ) (a b : List ℕ) → (x == 0) ≡ false → has x (a ++ b) ≡ false → (x == front b 0) ≡ false
front_ne x a [] nz o = nz
front_ne x a (y ∷ b) nz o = ground (arith, o, has-concat x a (y ∷ b))

-- What is at one node of a list, from the rest of the sequence.
pub Distinct-middle :
    (a b : List ℕ) (x : ℕ) → Distinct (a ++ x ∷ b) → Distinct (a ++ b) × (has x (a ++ b) ≡ false)
Distinct-middle a b x d = (
  Distinct-concat a b (Distinct-left a (x ∷ b) d) (Distinct-right a (x ∷ b) d).1
      (λ i h. ground (arith, apart a (x ∷ b) i d h)),
  elim (Bool-cases (has x a)) [
    | inl h ↦ absurd (ground (arith, apart a (x ∷ b) x d h))
    | inr h ↦ ground (arith, h, (Distinct-right a (x ∷ b) d).0, has-concat x a b)
  ],
)

pub Distinct-insert :
    (a b : List ℕ) (x : ℕ) → Distinct (a ++ b) → has x (a ++ b) ≡ false → Distinct (a ++ x ∷ b)
Distinct-insert a b x d o =
    Distinct-concat a (x ∷ b) (Distinct-left a b d)
      (ground (arith, o, has-concat x a b), Distinct-right a b d)
      (λ i h. ground (arith, apart a b i d h, not_at i x a h (ground (arith, o, has-concat x a b))))

pub other_last : (x y : ℕ) (b : List ℕ) → has x (y ∷ b) ≡ false → (back y b == x) ≡ false
other_last x y b o = not_at (back y b) x (y ∷ b) (has-back y b) o

delete_head :
    (a b : List ℕ) (x new : ℕ)
    → has x (a ++ b) ≡ false
    → new ≡ front b 0
    → (if front (a ++ x ∷ b) 0 == x then new else front (a ++ x ∷ b) 0) ≡ front (a ++ b) 0
delete_head [] b x new o e = ground (arith, e)
delete_head (y ∷ a) b x new o e = ground (arith, o)

delete_tail :
    (a b : List ℕ) (x new : ℕ)
    → has x (a ++ b) ≡ false
    → new ≡ back 0 a
    → (if back 0 (a ++ x ∷ b) == x then new else back 0 (a ++ x ∷ b)) ≡ back 0 (a ++ b)
delete_tail a [] x new o e = ground (arith, e, back-append 0 a (x ∷ []), back-append 0 a [])
delete_tail a (y ∷ b) x new o e =
    let last = back-append 0 a (x ∷ y ∷ b) in
    let last' = back-append 0 a (y ∷ b) in
    ground (arith, last, last', other_last x y b (ground (arith, o, has-concat x a (y ∷ b))))

-- node_delete takes the node out of the sequence, wherever it stands, and links it to itself.
pub node_delete-IsList :
    (s : Store) (a b : List ℕ) (x : ℕ)
    → IsList s (a ++ x ∷ b)
    → IsList (node_delete s x) (a ++ b)
      × ((node_delete s x).next x ≡ x)
      × ((node_delete s x).prev x ≡ x)
unfolding node_delete
node_delete-IsList s a b x h =
    let (la, lx) = Linked-split s.next s.prev 0 0 a (x ∷ b) h.linked in
    let (d, o) = Distinct-middle a b x h.distinct in
    let nz : (x == 0) ≡ false = ground (arith, h.nonnull, has-concat 0 a (x ∷ b)) in
    let nzab : has 0 (a ++ b) ≡ false =
      ground (arith, h.nonnull, has-concat 0 a (x ∷ b), has-concat 0 a b) in
    let t = node_delete s x in
    let own : link s.next (s.prev x) (s.next x) x ≡ s.next x =
      link_away s.next (s.prev x) (s.next x) x (rw lx.0 (back_ne x a b nz o)) in
    let next_at : t.next ≡ update (link s.next (back 0 a) (front b 0)) x x = rw (lx.0, lx.1) refl in
    let prev_at : t.prev ≡ update (link s.prev (front b 0) (back 0 a)) x x =
      rw (own, lx.0, lx.1) refl in
    let away : (y : ℕ) → has y (a ++ b) ≡ true → (y == x) ≡ false =
      λ y m. not_at y x (a ++ b) m o in
    let re =
      rejoin s.next s.prev t.next t.prev a b x x (front b 0) (back 0 a) d nzab
        (λ y m. ap (λ f. f y) next_at ∙ rw (away y m) refl)
        (λ y m. ap (λ f. f y) prev_at ∙ rw (away y m) refl) la lx.2 in
    (
      record {
        linked = Linked-append t.next t.prev 0 0 a b re.0 re.1;
        head_at = rw h.head_at (delete_head a b x (s.next x) o lx.1);
        tail_at = rw h.tail_at (delete_tail a b x (s.prev x) o lx.0);
        counted = omega (arith, h.counted, length-append a (x ∷ b), length-append a b);
        distinct = d;
        nonnull = nzab;
      },
      ground arith,
      ground arith,
    )
