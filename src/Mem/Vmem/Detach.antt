-- ===== src/Mem/Vmem/Detach.antt =====
-- Segments go out of the lists and the tree.
use evalyn_os.Base.{
  ℕ, ◌≡◌, inl, inr, refl, ap, sym, ◌∙◌, ◌==◌, ==_iff, true, false, some, List, [], ◌∷◌, arith,
  Bool-cases,
}
use evalyn_os.Base.Maps.{update, update-cases}
use evalyn_os.Base.Distinct.{has}
use evalyn_os.Mem.Words.{log2ull}
use evalyn_os.Mem.Vmem.{Segment, Vmem, remove, is_empty, flist_del}
use evalyn_os.Mem.Vmem.Invariant.{All-map, IsListed, IsInTree, Names, Inv}
use evalyn_os.Mem.Vmem.Attach.{has-remove, Distinct-remove, Names-more}

clash : (D : List ℕ) (segs : List Segment) (c : ℕ) → Names D segs c true → Names D segs c false → ⊥
clash D segs c (o, (u, f, a)) (o', (w, g, b)) =
    let e : some u ≡ some w = sym f ∙ g in ground (arith, e, a, b)

not-empty : (c : ℕ) (xs : List ℕ) → has c xs ≡ true → is_empty xs ≡ false
not-empty c [] h = ground (arith, h)
not-empty c (x ∷ xs) h = refl

module _ (top : ℕ) (D : List ℕ) (v : Vmem) (c : ℕ) (inv : Inv top D v) where
  pub detach_allocated-Inv :
      has c v.tree ≡ true → Inv top (c ∷ D) (record v { tree = remove c v.tree })
  detach_allocated-Inv m = record {
    ordered = inv.ordered;
    inside = inv.inside;
    divides = inv.divides;
    positive = inv.positive;
    aligned = inv.aligned;
    names_free = λ i d n. Names-more D v.segments c d false (free_ne i d n) (inv.names_free i d n);
    class_of = inv.class_of;
    lists_distinct = inv.lists_distinct;
    listed =
        All-map (IsListed D v.freelists) _ v.segments (λ x h free o. h free (ground (arith, o)))
          inv.listed;
    bits = inv.bits;
    names_allocated = λ d n.
        let has' = has-remove d c v.tree inv.tree_distinct in
        Names-more D v.segments c d true (ground (arith, n, has'))
          (inv.names_allocated d (ground (arith, n, has')));
    tree_distinct = Distinct-remove c v.tree inv.tree_distinct;
    in_tree =
        All-map (IsInTree D v.tree) _ v.segments
          (λ x h a o.
            let old : has x.base v.tree ≡ true = h a (ground (arith, o)) in
            ground (arith, old, o, has-remove x.base c v.tree inv.tree_distinct))
          inv.in_tree;
  }
    where
      free_ne : (i d : ℕ) → has d (v.freelists i) ≡ true → (d == c) ≡ false
      free_ne i d n = elim (Bool-cases (d == c)) [
        | inl same ↦
            let n' : has c (v.freelists i) ≡ true = rw (← (==_iff d c).0 same) n in
            absurd (clash D v.segments c (inv.names_allocated c m) (inv.names_free i c n'))
        | inr other ↦ other
      ]

  pub detach_free-Inv : (k : ℕ) → has c (v.freelists k) ≡ true → Inv top (c ∷ D) (flist_del v c k)
  unfolding flist_del
  detach_free-Inv k m =
      let old = v.freelists k in
      let lists = update v.freelists k (remove c old) in
      let kept : (i d : ℕ)
          → has d (lists i) ≡ true
          → ((d == c) ≡ false) × (has d (v.freelists i) ≡ true) =
        λ i d n. elim (update-cases v.freelists k (remove c old) i) [
          | inl (at, new) ↦
              let n' : has d (remove c old) ≡ true = ap (has d) (sym new) ∙ n in
              let has' = has-remove d c old (inv.lists_distinct k) in
              let there : has d old ≡ true = ground (arith, n', has') in
              (ground (arith, n', has'), rw at there)
          | inr (away, same) ↦
              let n' : has d (v.freelists i) ≡ true = ap (has d) (sym same) ∙ n in
              (elsewhere k m i d away n', n')
        ] in
      record {
        ordered = inv.ordered;
        inside = inv.inside;
        divides = inv.divides;
        positive = inv.positive;
        aligned = inv.aligned;
        names_free = λ i d n.
            let (ne, n') = kept i d n in
            Names-more D v.segments c d false ne (inv.names_free i d n');
        class_of = λ i d u n. inv.class_of i d u (kept i d n).1;
        lists_distinct = λ i. elim (update-cases v.freelists k (remove c old) i) [
          | inl (at, new) ↦ rw new (Distinct-remove c old (inv.lists_distinct k))
          | inr (away, same) ↦ rw same (inv.lists_distinct i)
        ];
        listed =
            All-map (IsListed D v.freelists) _ v.segments
              (λ x h free o.
                stays (log2ull x.size) x.base (h free (ground (arith, o))) (ground (arith, o)))
              inv.listed;
        bits = λ i. elim (Bool-cases (is_empty (remove c old))) [
          | inl gone ↦ rw gone (elim (Bool-cases (i == k)) [
            | inl at ↦ ground (arith, at, gone)
            | inr away ↦ ground (arith, away, inv.bits i)
          ])
          | inr left ↦ rw left (elim (Bool-cases (i == k)) [
            | inl at ↦
                let bit : v.bitmap i ≡ v.bitmap k = ap v.bitmap ((==_iff i k).0 at) in
                ground (arith, at, left, bit, inv.bits k, not-empty c old m)
            | inr away ↦ ground (arith, away, inv.bits i)
          ])
        ];
        names_allocated =
            λ d n. Names-more D v.segments c d true (tree_ne k m d n) (inv.names_allocated d n);
        tree_distinct = inv.tree_distinct;
        in_tree =
            All-map (IsInTree D v.tree) _ v.segments (λ x h a o. h a (ground (arith, o)))
              inv.in_tree;
      }
    where
      tree_ne :
          (k : ℕ) → has c (v.freelists k) ≡ true → (d : ℕ) → has d v.tree ≡ true → (d == c) ≡ false
      tree_ne k m d n = elim (Bool-cases (d == c)) [
        | inl same ↦
            let n' : has c v.tree ≡ true = rw (← (==_iff d c).0 same) n in
            absurd (clash D v.segments c (inv.names_allocated c n') (inv.names_free k c m))
        | inr other ↦ other
      ]

      -- A base is in the list of one class only.
      elsewhere :
          (k : ℕ)
          → has c (v.freelists k) ≡ true
          → (i d : ℕ) → (i == k) ≡ false
          → has d (v.freelists i) ≡ true
          → (d == c) ≡ false
      elsewhere k m i d away n = elim (Bool-cases (d == c)) [
        | inl same ↦
            let n' : has c (v.freelists i) ≡ true = rw (← (==_iff d c).0 same) n in
            let (o, (u, f, a)) = inv.names_free k c m in
            let e : i ≡ k = sym (inv.class_of i c u n' f) ∙ inv.class_of k c u m f in
            absurd (ground (arith, away, e))
        | inr other ↦ other
      ]

      stays :
          (i d : ℕ)
          → has d (v.freelists i) ≡ true
          → (d == c) ≡ false
          → has d (update v.freelists k (remove c (v.freelists k)) i) ≡ true
      stays i d n ne = elim (update-cases v.freelists k (remove c (v.freelists k)) i) [
        | inl (at, new) ↦
            let n' : has d (v.freelists k) ≡ true = rw (← at) n in
            rw new (ground (arith, n', ne, has-remove d c (v.freelists k) (inv.lists_distinct k)))
        | inr (away, same) ↦ rw same n
      ]
