-- ===== src/Mem/Vmem/Free/Merge.antt =====
-- Two neighbours in the list of segments become one.
use mathlib.Core.Path.{subst}
use evalyn_os.Base.{
  ℕ, suc, ◌+◌, ◌≤◌, ◌≡◌, ◌⊎◌, inl, inr, refl, ap, sym, ◌∙◌, ◌==◌, ==_iff, Bool, true, false, some,
  List, [], ◌∷◌, ◌++◌, arith, Bool-cases,
}
use evalyn_os.Base.Distinct.{has}
use evalyn_os.Mem.Vmem.{Segment, Vmem, find}
use evalyn_os.Mem.Vmem.Free.{prev_of, next_of, first}
use evalyn_os.Mem.Vmem.Segments.{Ordered, status}
use evalyn_os.Mem.Vmem.Invariant.{
  All, All-map, All-zip, All-above, All-find, find_own, Aligned, IsListed, IsInTree, Names, Inv,
}

-- The segments `segs` for those of an allocator, where `E` was detached and `F` is.
pub rewrite-Inv :
    (top : ℕ) (E F : List ℕ) (v : Vmem) (segs : List Segment)
    → Inv top E v
    → Ordered 0 segs top
    → All (Aligned v.quantum) segs
    → ((c : ℕ) (u : Segment)
        → has c E ≡ false
        → find c v.segments ≡ some u
        → (has c F ≡ false) × (find c segs ≡ some u))
    → All
        (λ x. (has x.base F ≡ true) ⊎ ((has x.base E ≡ false) × (find x.base v.segments ≡ some x)))
        segs
    → Inv top F (record v { segments = segs })
rewrite-Inv top E F v segs inv o al keep old = record {
  ordered = o;
  inside = inv.inside;
  divides = inv.divides;
  positive = inv.positive;
  aligned = al;
  names_free = λ i c m. kept c false (inv.names_free i c m);
  class_of = λ i c u m f.
      let (out, (u', f', k)) = inv.names_free i c m in
      inv.class_of i c u m (f' ∙ sym (keep c u' out f').1 ∙ f);
  lists_distinct = inv.lists_distinct;
  listed =
      All-map _ (IsListed F v.freelists) segs
        (λ x h free out. elim h [
          | inl in' ↦ absurd (ground (arith, in', out))
          | inr (no_E, f) ↦
              All-find (IsListed E v.freelists) x.base x v.segments f inv.listed free no_E
        ])
        old;
  bits = inv.bits;
  names_allocated = λ c m. kept c true (inv.names_allocated c m);
  tree_distinct = inv.tree_distinct;
  in_tree =
      All-map _ (IsInTree F v.tree) segs
        (λ x h al' out. elim h [
          | inl in' ↦ absurd (ground (arith, in', out))
          | inr (no_E, f) ↦ All-find (IsInTree E v.tree) x.base x v.segments f inv.in_tree al' no_E
        ])
        old;
}
  where
    kept : (c : ℕ) (k : Bool) → Names E v.segments c k → Names F segs c k
    kept c k (out, (u, f, a)) = ((keep c u out f).0, (u, (keep c u out f).1, a))

All-join {κ} :
    (P Q : Segment → Type κ) (w x y : Segment) (xs ys : List Segment)
    → ((z : Segment) → P z → (z.base == y.base) ≡ false → Q z)
    → Q w
    → (lo top : ℕ) → Ordered lo (xs ++ x ∷ y ∷ ys) top
    → All P (xs ++ x ∷ y ∷ ys)
    → All Q (xs ++ w ∷ ys)
All-join P Q w x y [] ys f qw lo top o a = (
  qw,
  All-zip (λ z. suc y.base ≤ z.base) P Q ys (λ z above p. f z p (ground (arith, above)))
      (All-above (y.base + y.size) (suc y.base) ys top (omega (arith, o)) o.2.2) a.1.1,
)
All-join P Q w x y (s ∷ xs) ys f qw lo top o a = (
  f s a.0 (ground (arith, o.1, below (s.base + s.size) xs o.2)),
  All-join P Q w x y xs ys f qw (s.base + s.size) top o.2 a.1,
)
  where
    below : (lo : ℕ) (xs : List Segment) → Ordered lo (xs ++ x ∷ y ∷ ys) top → lo ≤ y.base
    below lo [] o = omega (arith, o)
    below lo (t ∷ xs) o = omega (arith, o.0, o.1, below (t.base + t.size) xs o.2)

module _ (w x y : Segment) (ys : List Segment) (top : ℕ) where
  join-Ordered :
      (base : w.base ≡ x.base) (size : w.size ≡ x.size + y.size) (meet : x.base + x.size ≡ y.base)
      → (lo : ℕ) (xs : List Segment) → Ordered lo (xs ++ x ∷ y ∷ ys) top
      → Ordered lo (xs ++ w ∷ ys) top
  join-Ordered base size meet lo [] o =
      let end : w.base + w.size ≡ y.base + y.size = omega (arith, base, size, meet) in
      (omega (arith, o.0, base), omega (arith, o.1, size), rw end o.2.2)
  join-Ordered base size meet lo (s ∷ xs) o =
      (o.0, o.1, join-Ordered base size meet (s.base + s.size) xs o.2)

  find-join :
      (c : ℕ) (xs : List Segment)
      → (w.base == c) ≡ false
      → (x.base == c) ≡ false
      → (y.base == c) ≡ false
      → find c (xs ++ w ∷ ys) ≡ find c (xs ++ x ∷ y ∷ ys)
  find-join c [] nw nx ny = rw (nw, nx, ny) refl
  find-join c (s ∷ xs) nw nx ny = ground (arith, find-join c xs nw nx ny)

  pub status-join :
      (base : w.base ≡ x.base) (size : w.size ≡ x.size + y.size) (meet : x.base + x.size ≡ y.base)
      → (same : x.allocated ≡ y.allocated) (flag : w.allocated ≡ x.allocated)
      → (a : ℕ) (xs : List Segment) → status a (xs ++ w ∷ ys) ≡ status a (xs ++ x ∷ y ∷ ys)
  status-join base size meet same flag a [] = ground (arith, base, size, meet, same, flag)
  status-join base size meet same flag a (s ∷ xs) =
      ground (arith, status-join base size meet same flag a xs)

  pub join-Inv :
      (D : List ℕ) (v : Vmem) (xs : List Segment)
      → Inv top (x.base ∷ y.base ∷ D) v
      → v.segments ≡ xs ++ x ∷ y ∷ ys
      → w.base ≡ x.base
      → w.size ≡ x.size + y.size
      → x.base + x.size ≡ y.base
      → Aligned v.quantum w
      → Inv top (x.base ∷ D) (record v { segments = xs ++ w ∷ ys })
  join-Inv D v xs inv at base size meet al =
      let o : Ordered 0 (xs ++ x ∷ y ∷ ys) top = rw (← at) inv.ordered in
      rewrite-Inv top (x.base ∷ y.base ∷ D) (x.base ∷ D) v (xs ++ w ∷ ys) inv
        (join-Ordered base size meet 0 xs o)
        (All-join (Aligned v.quantum) (Aligned v.quantum) w x y xs ys (λ z p ne. p) al 0 top o
          (rw (← at) inv.aligned))
        (λ c u out f. (
          ground (arith, out),
          find-join c xs (ground (arith, base, out)) (ground (arith, out)) (ground (arith, out))
              ∙ ap (find c) (sym at)
              ∙ f,
        ))
        (All-join (λ z. find z.base v.segments ≡ some z) _ w x y xs ys
          (λ z f ne. elim (Bool-cases (has z.base (x.base ∷ D))) [
            | inl now ↦ inl now
            | inr never ↦ inr (ground (arith, never, ne), f)
          ])
          (inl (ground (arith, base))) 0 top o
          (subst (All (λ z. find z.base v.segments ≡ some z)) at
            (find_own 0 v.segments top inv.ordered)))

some-inj : {x y : Segment} → some x ≡ some y → x ≡ y
some-inj e = grind (arith, e)

first_lem :
    (segs : List Segment) (n : Segment)
    → first segs ≡ some n
    → (ys : List Segment) × (segs ≡ n ∷ ys)
first_lem [] n e = absurd (ground (arith, e))
first_lem (s ∷ rest) n e = (rest, ap (λ t. t ∷ rest) (some-inj e))

-- The neighbours of a segment in the list.
prev_of-places :
    (b : ℕ) (segs : List Segment) (p : Segment)
    → prev_of b segs ≡ some p
    → (xs : List Segment) × (s : Segment) × (ys : List Segment) × (segs ≡ xs ++ p ∷ s ∷ ys)
      × (s.base ≡ b)
prev_of-places b [] p e = absurd (ground (arith, e))
prev_of-places b (t ∷ []) p e = absurd (ground (arith, e))
prev_of-places b (t ∷ r ∷ rest) p e = elim (Bool-cases (r.base == b)) [
  | inl here ↦
      let e' : some t ≡ some p = rw here at e in
      ([], r, rest, ap (λ l. l ∷ r ∷ rest) (some-inj e'), (==_iff r.base b).0 here)
  | inr there ↦
      let (xs, s, ys, at, is) = prev_of-places b (r ∷ rest) p (rw there at e) in
      (t ∷ xs, s, ys, ap (λ l. t ∷ l) at, is)
]

pub prev_of-split :
    (b : ℕ) (segs : List Segment) (top : ℕ) (p s : Segment)
    → Ordered 0 segs top
    → prev_of b segs ≡ some p
    → find b segs ≡ some s
    → (xs : List Segment) × (ys : List Segment) × (segs ≡ xs ++ p ∷ s ∷ ys)
prev_of-split b segs top p s o e f =
    let (xs, r, ys, at, is) = prev_of-places b segs p e in
    let own = subst (All (λ z. find z.base segs ≡ some z)) at (find_own 0 segs top o) in
    let found : find r.base segs ≡ some r = mid xs r ys own in
    let same : r ≡ s = some-inj (sym found ∙ ap (λ c. find c segs) is ∙ f) in
    (xs, ys, at ∙ ap (λ z. xs ++ p ∷ z ∷ ys) same)
  where
    mid :
        (xs : List Segment) (r : Segment) (ys : List Segment)
        → All (λ z. find z.base segs ≡ some z) (xs ++ p ∷ r ∷ ys)
        → find r.base segs ≡ some r
    mid [] r ys a = a.1.0
    mid (x ∷ xs) r ys a = mid xs r ys a.1

pub next_of-split :
    (b : ℕ) (segs : List Segment) (n s : Segment)
    → next_of b segs ≡ some n
    → find b segs ≡ some s
    → (xs : List Segment) × (ys : List Segment) × (segs ≡ xs ++ s ∷ n ∷ ys)
next_of-split b [] n s e f = absurd (ground (arith, e))
next_of-split b (t ∷ rest) n s e f = elim (Bool-cases (t.base == b)) [
  | inl here ↦
      let f' : some t ≡ some s = rw here at f in
      let (ys, at) = first_lem rest n (rw here at e) in
      ([], ys, ap (λ l. t ∷ l) at ∙ ap (λ z. z ∷ n ∷ ys) (some-inj f'))
  | inr there ↦
      let (xs, ys, at) = next_of-split b rest n s (rw there at e) (rw there at f) in
      (t ∷ xs, ys, ap (λ l. t ∷ l) at)
]

-- The order of the detached bases does not matter.
pub swap-Inv : (top b c : ℕ) (D : List ℕ) (v : Vmem) → Inv top (b ∷ c ∷ D) v → Inv top (c ∷ b ∷ D) v
swap-Inv top b c D v inv =
    rewrite-Inv top (b ∷ c ∷ D) (c ∷ b ∷ D) v v.segments inv inv.ordered inv.aligned
      (λ d u out f. (ground (arith, out), f))
      (All-map _ _ v.segments
        (λ x f. elim (Bool-cases (has x.base (c ∷ b ∷ D))) [
          | inl now ↦ inl now
          | inr never ↦ inr (ground (arith, never), f)
        ])
        (find_own 0 v.segments top inv.ordered))
