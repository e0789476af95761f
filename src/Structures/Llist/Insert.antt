-- ===== src/Structures/Llist/Insert.antt =====
-- Inserting a node into the linked list.
use evalyn_os.Base.{
  ℕ, ◌≡◌, refl, ap, sym, ◌∙◌, ◌==◌, if◌then◌else◌, false, List, [], ◌∷◌, ◌++◌, append_assoc,
  length-append, arith, Bool-cases, inl, inr,
}
use evalyn_os.Base.Maps.{update}
use evalyn_os.Base.Distinct.{has, has-concat, Distinct-right, apart}
use evalyn_os.Structures.Llist.{Store, link, node_append, node_prepend}
use evalyn_os.Structures.Llist.Links.{
  front, back, Linked, Linked-append, Linked-split, front-append, back-append,
}
use evalyn_os.Structures.Llist.Edges.{rejoin, link_away}
use evalyn_os.Structures.Llist.Refinement.{
  IsList, not_at, back_ne, front_ne, Distinct-insert, other_last,
}

-- A node with links to both sides joins them.
inserted :
    (s t : Store) (a b : List ℕ) (x : ℕ)
    → IsList s (a ++ b)
    → has x (a ++ b) ≡ false
    → ((y : ℕ) → (y == x) ≡ false → t.next y ≡ link s.next (back 0 a) x y)
    → ((y : ℕ) → (y == x) ≡ false → t.prev y ≡ link s.prev (front b 0) x y)
    → t.next x ≡ front b 0
    → t.prev x ≡ back 0 a
    → Linked t.next t.prev 0 (a ++ x ∷ b) 0
inserted s t a b x h o hn hp nx px =
    let (la, lb) = Linked-split s.next s.prev 0 0 a b h.linked in
    let re =
      rejoin s.next s.prev t.next t.prev a b _ _ x x h.distinct h.nonnull
        (λ y m. hn y (not_at y x (a ++ b) m o)) (λ y m. hp y (not_at y x (a ++ b) m o)) la lb in
    Linked-append t.next t.prev 0 0 a (x ∷ b) re.0 (px, nx, re.1)

insert_nonnull :
    (a b : List ℕ) (x : ℕ) → (x == 0) ≡ false → has 0 (a ++ b) ≡ false → has 0 (a ++ x ∷ b) ≡ false
insert_nonnull a b x nz h = ground (arith, nz, h, has-concat 0 a b, has-concat 0 a (x ∷ b))

prepend_head :
    (a b : List ℕ) (pos x : ℕ)
    → has pos a ≡ false
    → (if front (a ++ pos ∷ b) 0 == pos then x else front (a ++ pos ∷ b) 0)
      ≡ front (a ++ x ∷ pos ∷ b) 0
prepend_head [] b pos x o = ground arith
prepend_head (y ∷ a) b pos x o = ground (arith, o)

append_tail :
    (a b : List ℕ) (pos x : ℕ)
    → has pos b ≡ false
    → (if back 0 (a ++ pos ∷ b) == pos then x else back 0 (a ++ pos ∷ b))
      ≡ back 0 (a ++ pos ∷ x ∷ b)
append_tail a [] pos x o =
    ground (arith, back-append 0 a (pos ∷ []), back-append 0 a (pos ∷ x ∷ []))
append_tail a (y ∷ b) pos x o =
    let before = back-append 0 a (pos ∷ y ∷ b) in
    let after = back-append 0 a (pos ∷ x ∷ y ∷ b) in
    ground (arith, before, after, other_last pos y b o)

-- node_prepend puts a node that is not nullptr and not in the list in front of one that is in it.
pub node_prepend-IsList :
    (s : Store) (a b : List ℕ) (pos x : ℕ)
    → (x == 0) ≡ false
    → has x (a ++ pos ∷ b) ≡ false
    → IsList s (a ++ pos ∷ b)
    → IsList (node_prepend s pos x) (a ++ x ∷ pos ∷ b)
unfolding node_prepend
node_prepend-IsList s a b pos x nz o h =
    let (la, lp) = Linked-split s.next s.prev 0 0 a (pos ∷ b) h.linked in
    let t = node_prepend s pos x in
    let pos_nz : (pos == 0) ≡ false = ground (arith, h.nonnull, has-concat 0 a (pos ∷ b)) in
    let apart_pos : (x == pos) ≡ false = ground (arith, o, has-concat x a (pos ∷ b)) in
    let own : update (update s.prev x (s.prev pos)) pos x x ≡ back 0 a =
      ground (arith, apart_pos, lp.0) in
    let next_at : t.next ≡ link (update s.next x pos) (back 0 a) x = rw own refl in
    record {
      linked =
          inserted s t a (pos ∷ b) x h o (λ y m. ap (λ f. f y) next_at ∙ ground (arith, m))
            (λ y m. ground (arith, m, pos_nz))
            (ap (λ f. f x) next_at ∙ link_away _ _ x x (back_ne x a (pos ∷ b) nz o) ∙ ground arith)
            own;
      head_at = rw h.head_at (prepend_head a b pos x (ground (arith, before)));
      tail_at = h.tail_at ∙ back-append 0 a (pos ∷ b) ∙ sym (back-append 0 a (x ∷ pos ∷ b));
      counted = omega (arith, h.counted, length-append a (pos ∷ b), length-append a (x ∷ pos ∷ b));
      distinct = Distinct-insert a (pos ∷ b) x h.distinct o;
      nonnull = insert_nonnull a (pos ∷ b) x nz h.nonnull;
    }
  where
    before : has pos a ≡ false
    before = elim (Bool-cases (has pos a)) [
      | inl m ↦ absurd (ground (arith, apart a (pos ∷ b) pos h.distinct m))
      | inr m ↦ m
    ]

-- node_append puts a node that is not nullptr and not in the list behind one that is in it.
pub node_append-IsList :
    (s : Store) (a b : List ℕ) (pos x : ℕ)
    → (x == 0) ≡ false
    → has x (a ++ pos ∷ b) ≡ false
    → IsList s (a ++ pos ∷ b)
    → IsList (node_append s pos x) (a ++ pos ∷ x ∷ b)
unfolding node_append
node_append-IsList s a b pos x nz o h =
    let here = a ++ pos ∷ [] in
    let joined : here ++ b ≡ a ++ pos ∷ b = append_assoc a (pos ∷ []) b in
    let joined' : here ++ x ∷ b ≡ a ++ pos ∷ x ∷ b = append_assoc a (pos ∷ []) (x ∷ b) in
    let last : back 0 here ≡ pos = back-append 0 a (pos ∷ []) in
    let lp = (Linked-split s.next s.prev 0 0 a (pos ∷ b) h.linked).1 in
    let t = node_append s pos x in
    let pos_nz : (pos == 0) ≡ false = ground (arith, h.nonnull, has-concat 0 a (pos ∷ b)) in
    let apart_pos : (x == pos) ≡ false = ground (arith, o, has-concat x a (pos ∷ b)) in
    let own : update (update s.next x (s.next pos)) pos x x ≡ front b 0 =
      ground (arith, apart_pos, lp.1) in
    let prev_at : t.prev ≡ link (update s.prev x pos) (front b 0) x = rw own refl in
    let whole : IsList s (here ++ b) = rw joined h in
    let linked : Linked t.next t.prev 0 (here ++ x ∷ b) 0 =
      inserted s t here b x whole (rw joined o) (λ y m. rw last (ground (arith, m, pos_nz)))
        (λ y m. ap (λ f. f y) prev_at ∙ ground (arith, m)) own
        (ap (λ f. f x) prev_at
          ∙ link_away _ _ x x (front_ne x here b nz (rw joined o))
          ∙ ground (arith, last)) in
    record {
      linked = rw (← joined') linked;
      head_at = h.head_at ∙ front-append a (pos ∷ b) 0 ∙ sym (front-append a (pos ∷ x ∷ b) 0);
      tail_at = rw h.tail_at (append_tail a b pos x (Distinct-right a (pos ∷ b) h.distinct).0);
      counted = omega (arith, h.counted, length-append a (pos ∷ b), length-append a (pos ∷ x ∷ b));
      distinct = rw (← joined') (Distinct-insert here b x whole.distinct (rw joined o));
      nonnull = rw (← joined') (insert_nonnull here b x nz whole.nonnull);
    }
