-- ===== src/Mem/Vmem/Attach.antt =====
-- Segments go into the lists and the tree, and out of them.
use evalyn_os.Base.{
  ℕ, ◌≡◌, ◌⊎◌, inl, inr, ap, sym, ◌∙◌, ◌==◌, ==_iff, if◌then◌else◌, Bool, true, false, some, List,
  [], ◌∷◌, arith, Bool-cases,
}
use evalyn_os.Base.Maps.{update, update-cases}
use evalyn_os.Base.Distinct.{has, Distinct}
use evalyn_os.Mem.Words.{log2ull}
use evalyn_os.Mem.Vmem.{Segment, Vmem, find, remove, flist_add}
use evalyn_os.Mem.Vmem.Invariant.{All-map, All-zip, find_own, IsListed, IsInTree, Names, Inv}

pub has-remove :
    (y c : ℕ) (xs : List ℕ)
    → Distinct xs
    → has y (remove c xs) ≡ (if y == c then false else has y xs)
has-remove y c [] d = ground arith
has-remove y c (x ∷ xs) d = elim (Bool-cases (x == c)) [
  | inl here ↦ elim (Bool-cases (y == x)) [
    | inl same ↦
        let e : has y xs ≡ false = rw ((==_iff y x).0 same) d.0 in ground (arith, here, same, e)
    | inr other ↦ ground (arith, here, other)
  ]
  | inr there ↦ ground (arith, there, has-remove y c xs d.1)
]

pub Distinct-remove : (c : ℕ) (xs : List ℕ) → Distinct xs → Distinct (remove c xs)
Distinct-remove c [] d = tt
Distinct-remove c (x ∷ xs) d = elim (Bool-cases (x == c)) [
  | inl here ↦ rw here d.1
  | inr there ↦ rw there (ground (arith, d.0, has-remove x c xs d.1), Distinct-remove c xs d.1)
]

pub Names-less :
    (D : List ℕ) (segs : List Segment) (c d : ℕ) (al : Bool)
    → Names (c ∷ D) segs d al
    → Names D segs d al
Names-less D segs c d al (out, found) = (ground (arith, out), found)

pub Names-more :
    (D : List ℕ) (segs : List Segment) (c d : ℕ) (al : Bool)
    → (d == c) ≡ false
    → Names D segs d al
    → Names (c ∷ D) segs d al
Names-more D segs c d al ne (out, found) = (ground (arith, ne, out), found)

module _ (top : ℕ) (D : List ℕ) (v : Vmem) (c : ℕ) where
  apart_from : (x d : ℕ) → has d (c ∷ D) ≡ false → (d == c) ≡ false
  apart_from x d h = ground (arith, h)

  -- A detached base is in no list, and not in the tree.
  not_listed : Inv top (c ∷ D) v → (i : ℕ) → has c (v.freelists i) ≡ false
  not_listed inv i = elim (Bool-cases (has c (v.freelists i))) [
    | inl m ↦ absurd (ground (arith, (inv.names_free i c m).0))
    | inr m ↦ m
  ]

  not_in_tree : Inv top (c ∷ D) v → has c v.tree ≡ false
  not_in_tree inv = elim (Bool-cases (has c v.tree)) [
    | inl m ↦ absurd (ground (arith, (inv.names_allocated c m).0))
    | inr m ↦ m
  ]

  module _ (u : Segment) (found : find c v.segments ≡ some u) where
    -- A segment with this base is this one.
    flag_of :
        (x : Segment)
        → find x.base v.segments ≡ some x
        → (x.base == c) ≡ true
        → x.allocated ≡ u.allocated
    flag_of x own same =
        let at : find c v.segments ≡ some x = rw (← (==_iff x.base c).0 same) own in
        let e : some x ≡ some u = sym at ∙ found in ground (arith, e)

    size_of :
        (x : Segment) → find x.base v.segments ≡ some x → (x.base == c) ≡ true → x.size ≡ u.size
    size_of x own same =
        let at : find c v.segments ≡ some x = rw (← (==_iff x.base c).0 same) own in
        let e : some x ≡ some u = sym at ∙ found in ground (arith, e)

    other_flag :
        (x : Segment)
        → find x.base v.segments ≡ some x
        → (x.allocated ≡ u.allocated → ⊥)
        → (x.base == c) ≡ false
    other_flag x own ne = elim (Bool-cases (x.base == c)) [
      | inl same ↦ absurd (ne (flag_of x own same))
      | inr other ↦ other
    ]

    pub attach_allocated-Inv :
        u.allocated ≡ true
        → has c D ≡ false
        → Inv top (c ∷ D) v
        → Inv top D (record v { tree = c ∷ v.tree })
    attach_allocated-Inv al out inv = record {
      ordered = inv.ordered;
      inside = inv.inside;
      divides = inv.divides;
      positive = inv.positive;
      aligned = inv.aligned;
      names_free = λ i d m. Names-less D v.segments c d false (inv.names_free i d m);
      class_of = inv.class_of;
      lists_distinct = inv.lists_distinct;
      listed =
          All-zip (λ x. find x.base v.segments ≡ some x) (IsListed (c ∷ D) v.freelists) _ v.segments
            (λ x own h free o.
              let ne = other_flag x own (λ e. absurd (ground (arith, e, free, al))) in
              h free (ground (arith, ne, o)))
            (find_own 0 v.segments top inv.ordered) inv.listed;
      bits = inv.bits;
      names_allocated = λ d m. elim (Bool-cases (d == c)) [
        | inl same ↦ rw ((==_iff d c).0 same) (out, (u, found, al))
        | inr other ↦
            Names-less D v.segments c d true (inv.names_allocated d (ground (arith, m, other)))
      ];
      tree_distinct = (not_in_tree inv, inv.tree_distinct);
      in_tree =
          All-map (IsInTree (c ∷ D) v.tree) _ v.segments
            (λ x h a o. elim (Bool-cases (x.base == c)) [
              | inl same ↦ ground (arith, same)
              | inr other ↦
                  let old : has x.base v.tree ≡ true = h a (ground (arith, other, o)) in
                  ground (arith, old)
            ])
            inv.in_tree;
    }

    pub attach_free-Inv :
        u.allocated ≡ false
        → has c D ≡ false
        → Inv top (c ∷ D) v
        → Inv top D (flist_add v c (log2ull u.size))
    unfolding flist_add
    attach_free-Inv al out inv =
        let k = log2ull u.size in
        let lists = update v.freelists k (c ∷ v.freelists k) in
        let more : (i d : ℕ) → has d (v.freelists i) ≡ true → has d (lists i) ≡ true = λ i d m.
          elim (update-cases v.freelists k (c ∷ v.freelists k) i) [
            | inl (at, new) ↦
                let m' : has d (v.freelists k) ≡ true = rw (← at) m in rw new (ground (arith, m'))
            | inr (away, old) ↦ rw old m
          ] in
        let less : (i d : ℕ)
            → has d (lists i) ≡ true
            → ((d == c) ≡ true × (i ≡ k)) ⊎ (has d (v.freelists i) ≡ true) =
          λ i d m. elim (update-cases v.freelists k (c ∷ v.freelists k) i) [
            | inl (at, new) ↦
                let m' : has d (c ∷ v.freelists k) ≡ true = ap (has d) (sym new) ∙ m in
                elim (Bool-cases (d == c)) [
                  | inl same ↦ inl (same, at)
                  | inr other ↦
                      let old : has d (v.freelists k) ≡ true = ground (arith, other, m') in
                      inr (rw at old)
                ]
            | inr (away, old) ↦ inr (ap (has d) (sym old) ∙ m)
          ] in
        record {
          ordered = inv.ordered;
          inside = inv.inside;
          divides = inv.divides;
          positive = inv.positive;
          aligned = inv.aligned;
          names_free = λ i d m. elim (less i d m) [
            | inl (same, at) ↦ rw ((==_iff d c).0 same) (out, (u, found, al))
            | inr old ↦ Names-less D v.segments c d false (inv.names_free i d old)
          ];
          class_of = λ i d w m e. elim (less i d m) [
            | inl (same, at) ↦
                let e' : find c v.segments ≡ some w = rw (← (==_iff d c).0 same) e in
                let eq : some w ≡ some u = sym e' ∙ found in
                let size : w.size ≡ u.size = ground (arith, eq) in ap log2ull size ∙ sym at
            | inr old ↦ inv.class_of i d w old e
          ];
          lists_distinct = λ i. elim (update-cases v.freelists k (c ∷ v.freelists k) i) [
            | inl (at, new) ↦ rw new (not_listed inv k, inv.lists_distinct k)
            | inr (away, old) ↦ rw old (inv.lists_distinct i)
          ];
          listed =
              All-zip (λ x. find x.base v.segments ≡ some x) (IsListed (c ∷ D) v.freelists) _
                v.segments
                (λ x own h free o. elim (Bool-cases (x.base == c)) [
                  | inl same ↦
                      let size = size_of x own same in
                      let here : has x.base (lists k) ≡ true = ground (arith, same) in rw size here
                  | inr other ↦ more (log2ull x.size) x.base (h free (ground (arith, other, o)))
                ])
                (find_own 0 v.segments top inv.ordered) inv.listed;
          bits = λ i. ground (arith, inv.bits i);
          names_allocated = λ d m. Names-less D v.segments c d true (inv.names_allocated d m);
          tree_distinct = inv.tree_distinct;
          in_tree =
              All-zip (λ x. find x.base v.segments ≡ some x) (IsInTree (c ∷ D) v.tree) _ v.segments
                (λ x own h a o.
                  let ne = other_flag x own (λ e. absurd (ground (arith, e, a, al))) in
                  h a (ground (arith, ne, o)))
                (find_own 0 v.segments top inv.ordered) inv.in_tree;
        }
