-- ===== src/Structures/Llist/Ends.antt =====
-- The linked list as a queue with two ends.
use evalyn_os.Base.{
  ℕ, ◌≡◌, refl, ap, ◌∙◌, ◌==◌, true, false, List, [], ◌∷◌, ◌++◌, append_assoc, append-nil, arith,
}
use evalyn_os.Base.Distinct.{has, has-concat}
use evalyn_os.Structures.Llist.{
  Store, initial_node, node_append, node_prepend, node_delete, push_front, push_back, pop_front,
  pop_back,
}
use evalyn_os.Structures.Llist.Links.{back, back-append}
use evalyn_os.Structures.Llist.Refinement.{IsList, node_delete-IsList}
use evalyn_os.Structures.Llist.Insert.{node_append-IsList, node_prepend-IsList}

initial_node-IsList : (s : Store) (x : ℕ) → (x == 0) ≡ false → IsList (initial_node s x) (x ∷ [])
unfolding initial_node
initial_node-IsList s x nz = record {
  linked = (ground arith, ground arith, tt);
  head_at = refl;
  tail_at = refl;
  counted = refl;
  distinct = (refl, tt);
  nonnull = ground (arith, nz);
}

-- Which branch each operation takes.
push_front_empty : (s : Store) (x : ℕ) → (s.head == 0) ≡ true → push_front s x ≡ initial_node s x
unfolding push_front
push_front_empty s x e = rw e refl

push_front_more :
    (s : Store) (x : ℕ) → (s.head == 0) ≡ false → push_front s x ≡ node_prepend s s.head x
unfolding push_front
push_front_more s x e = rw e refl

push_back_empty : (s : Store) (x : ℕ) → (s.tail == 0) ≡ true → push_back s x ≡ initial_node s x
unfolding push_back
push_back_empty s x e = rw e refl

push_back_more :
    (s : Store) (x : ℕ) → (s.tail == 0) ≡ false → push_back s x ≡ node_append s s.tail x
unfolding push_back
push_back_more s x e = rw e refl

pop_front_empty : (s : Store) → (s.head == 0) ≡ true → pop_front s ≡ (0, s)
unfolding pop_front
pop_front_empty s e = rw e refl

pop_back_empty : (s : Store) → (s.tail == 0) ≡ true → pop_back s ≡ (0, s)
unfolding pop_back
pop_back_empty s e = rw e refl

pop_front_more : (s : Store) → (s.head == 0) ≡ false → pop_front s ≡ (s.head, node_delete s s.head)
unfolding pop_front
pop_front_more s e = rw e refl

pop_back_more : (s : Store) → (s.tail == 0) ≡ false → pop_back s ≡ (s.tail, node_delete s s.tail)
unfolding pop_back
pop_back_more s e = rw e refl

-- A sequence that is not empty ends with its last node.
unsnoc : (p : ℕ) (q : List ℕ) → (a : List ℕ) × ((p ∷ q) ≡ a ++ back p q ∷ [])
unsnoc p [] = ([], refl)
unsnoc p (x ∷ q) = let (a, e) = unsnoc x q in (p ∷ a, ap (λ r. p ∷ r) e)

last_nonnull : (p : ℕ) (q : List ℕ) → has 0 (p ∷ q) ≡ false → (back p q == 0) ≡ false
last_nonnull p [] h = ground (arith, h)
last_nonnull p (x ∷ q) h = last_nonnull x q (ground (arith, h))

-- push_front puts a node that is not nullptr and not in the list at its front.
pub push_front-IsList :
    (s : Store) (q : List ℕ) (x : ℕ)
    → (x == 0) ≡ false
    → has x q ≡ false
    → IsList s q
    → IsList (push_front s x) (x ∷ q)
push_front-IsList s [] x nz o h =
    rw (push_front_empty s x (rw h.head_at refl)) (initial_node-IsList s x nz)
push_front-IsList s (y ∷ q) x nz o h =
    let e = push_front_more s x (rw h.head_at (ground (arith, h.nonnull))) in
    rw (e ∙ ap (λ p. node_prepend s p x) h.head_at) (node_prepend-IsList s [] q y x nz o h)

-- push_back puts a node that is not nullptr and not in the list at its end.
pub push_back-IsList :
    (s : Store) (q : List ℕ) (x : ℕ)
    → (x == 0) ≡ false
    → has x q ≡ false
    → IsList s q
    → IsList (push_back s x) (q ++ x ∷ [])
push_back-IsList s [] x nz o h =
    rw (push_back_empty s x (rw h.tail_at refl)) (initial_node-IsList s x nz)
push_back-IsList s (y ∷ q) x nz o h =
    let e = push_back_more s x (rw h.tail_at (last_nonnull y q h.nonnull)) in
    let (a, split) = unsnoc y q in
    let at : IsList s (a ++ back y q ∷ []) = rw (← split) h in
    let far : has x (a ++ back y q ∷ []) ≡ false = rw (← split) o in
    let whole : (y ∷ q) ++ x ∷ [] ≡ a ++ back y q ∷ x ∷ [] =
      ap (λ r. r ++ x ∷ []) split ∙ append_assoc a (back y q ∷ []) (x ∷ []) in
    rw (e ∙ ap (λ p. node_append s p x) h.tail_at, whole)
      (node_append-IsList s a [] (back y q) x nz far at)

-- Popping at either end an empty list gives nullptr and changes nothing; otherwise it gives the
-- node at that end, and the list holds the others.
pub pops-IsList :
    (s : Store)
    → (IsList s [] → (pop_front s ≡ (0, s)) × (pop_back s ≡ (0, s)))
      × ((x : ℕ) (q : List ℕ) → IsList s (x ∷ q) → ((pop_front s).0 ≡ x) × IsList (pop_front s).1 q)
      × ((q : List ℕ) (x : ℕ)
          → IsList s (q ++ x ∷ [])
          → ((pop_back s).0 ≡ x) × IsList (pop_back s).1 q)
pops-IsList s = (pop_empty, pop_first, pop_last)
  where
    pop_empty : IsList s [] → (pop_front s ≡ (0, s)) × (pop_back s ≡ (0, s))
    pop_empty h = (pop_front_empty s (rw h.head_at refl), pop_back_empty s (rw h.tail_at refl))

    pop_first :
        (x : ℕ) (q : List ℕ) → IsList s (x ∷ q) → ((pop_front s).0 ≡ x) × IsList (pop_front s).1 q
    pop_first x q h =
        let e = pop_front_more s (rw h.head_at (ground (arith, h.nonnull))) in
        let e' : pop_front s ≡ (x, node_delete s x) =
          e ∙ ap (λ p. (p, node_delete s p)) h.head_at in
        rw e' (refl, (node_delete-IsList s [] q x h).0)

    pop_last :
        (q : List ℕ) (x : ℕ)
        → IsList s (q ++ x ∷ [])
        → ((pop_back s).0 ≡ x) × IsList (pop_back s).1 q
    pop_last q x h =
        let last : s.tail ≡ x = h.tail_at ∙ back-append 0 q (x ∷ []) in
        let e = pop_back_more s (rw last (ground (arith, h.nonnull, has-concat 0 q (x ∷ [])))) in
        let e' : pop_back s ≡ (x, node_delete s x) = e ∙ ap (λ p. (p, node_delete s p)) last in
        rw (e', ← append-nil q) (refl, (node_delete-IsList s q [] x h).0)
