-- ===== src/Mem/Vmem/Free/Lookup.antt =====
-- The search in the tree finds the allocated segment that covers an address.
use evalyn_os.Base.{
  ℕ, ◌+◌, ◌^◌, ◌≤◌, ◌<◌, ◌≡◌, inl, inr, refl, ap, ◌∙◌, ◌==◌, ==_iff, ltb, leb, ◌||◌, Bool, true,
  false, some, List, [], ◌∷◌, arith, Bool-cases, Option-cases,
}
use evalyn_os.Base.Distinct.{has}
use evalyn_os.Mem.Words.{sub64, larger}
use evalyn_os.Mem.Vmem.{Segment, Vmem, find}
use evalyn_os.Mem.Vmem.Segments.{Ordered, covers, status, find-Ordered, find_apart}
use evalyn_os.Mem.Vmem.Invariant.{All-find, IsInTree, Inv}
use evalyn_os.Mem.Vmem.Free.{nearest, find_segment}

-- The segment that gives an address its status.
pub status_segment :
    (a lo : ℕ) (segs : List Segment) (top : ℕ) (k : Bool)
    → Ordered lo segs top
    → status a segs ≡ some k
    → (s : Segment) × (find s.base segs ≡ some s) × (covers s a ≡ true) × (s.allocated ≡ k)
status_segment a lo [] top k o e = absurd (ground (arith, e))
status_segment a lo (t ∷ rest) top k o e = elim (Bool-cases (covers t a)) [
  | inl on ↦
      let e' : some t.allocated ≡ some k = rw on at e in (t, ground arith, on, ground (arith, e'))
  | inr off ↦
      let (s, f, on, k') = status_segment a (t.base + t.size) rest top k o.2 (rw off at e) in
      let place = find-Ordered (t.base + t.size) rest top s.base s o.2 f in
      let ne : (t.base == s.base) ≡ false = ground (arith, place, o.1) in
      (s, ground (arith, ne, f), on, k')
]

-- The base found is of the tree, and at most the address.
nearest_in :
    (addr : ℕ) (tree : List ℕ) (c : ℕ)
    → nearest addr tree ≡ some c
    → (has c tree ≡ true) × (c ≤ addr)
nearest_in addr [] c e = absurd (ground (arith, e))
nearest_in addr (x ∷ tree) c e = elim (Option-cases (nearest addr tree)) [
  | inl nothing ↦ elim (Bool-cases (leb x addr)) [
    | inl low ↦
        let e' = rw (low, nothing) at e in
        let at : x ≡ c = ground (arith, e') in ground (arith, at, low)
    | inr high ↦ absurd (ground (arith, high, nothing, e))
  ]
  | inr (d, f) ↦
      let (m, l) = nearest_in addr tree d f in
      elim (Bool-cases (leb x addr)) [
        | inl low ↦
            let e' = rw (low, f) at e in
            let at : larger d x ≡ c = ground (arith, e') in ground (arith, at, low, m, l)
        | inr high ↦
            let e' = rw (high, f) at e in
            let at : d ≡ c = ground (arith, e') in ground (arith, at, m, l)
      ]
]

-- No base of the tree up to the address is above the one found.
nearest_above :
    (addr : ℕ) (tree : List ℕ) (b : ℕ)
    → has b tree ≡ true
    → b ≤ addr
    → (c : ℕ) × (nearest addr tree ≡ some c) × (b ≤ c)
nearest_above addr [] b m le = absurd (ground (arith, m))
nearest_above addr (x ∷ tree) b m le = elim (Bool-cases (has b tree)) [
  | inl later ↦
      let (c, e, g) = nearest_above addr tree b later le in
      elim (Bool-cases (leb x addr)) [
        | inl low ↦ rw (low, e) (larger c x, refl, ground (arith, g))
        | inr high ↦ rw high (c, e, g)
      ]
  | inr no_more ↦
      let at : b ≡ x = ground (arith, m, no_more) in
      let low : leb x addr ≡ true = ground (arith, le, at) in
      elim (Option-cases (nearest addr tree)) [
        | inl nothing ↦ rw (low, nothing) (x, refl, omega (arith, at))
        | inr (c, e) ↦ rw (low, e) (larger c x, refl, ground (arith, at))
      ]
]

-- An allocated address is found in its segment, which the tree holds.
pub find_segment-covers :
    (top : ℕ) (v : Vmem) (a : ℕ)
    → Inv top [] v
    → a < 2 ^ 64
    → status a v.segments ≡ some true
    → (s : Segment) × (find_segment v a ≡ some s)
      × (find s.base v.segments ≡ some s)
      × (has s.base v.tree ≡ true)
      × (covers s a ≡ true)
      × (s.allocated ≡ true)
unfolding find_segment
find_segment-covers top v a inv small e =
    let (s, f, on, al) = status_segment a 0 v.segments top true inv.ordered e in
    let m : has s.base v.tree ≡ true =
      All-find (IsInTree [] v.tree) s.base s v.segments f inv.in_tree al refl in
    let (c, n, le) = nearest_above a v.tree s.base m (ground (arith, on)) in
    let (mc, lc) = nearest_in a v.tree c n in
    let same : (c == s.base) ≡ true = elim (Bool-cases (c == s.base)) [
      | inl yes' ↦ yes'
      | inr other ↦
          let (out, (u, fu, k)) = inv.names_allocated c mc in
          let apart = find_apart 0 v.segments top s.base c s u inv.ordered f fu other in
          let place = find-Ordered 0 v.segments top c u inv.ordered fu in
          absurd (ground (arith, apart, place, le, lc, on))
    ] in
    let at : find c v.segments ≡ some s =
      ap (λ x. find x v.segments) ((==_iff c s.base).0 same) ∙ f in
    let inside : (ltb a s.base || leb s.size (sub64 a s.base)) ≡ false =
      ground (arith, on, small) in
    (s, rw (find_segment, n, at, inside) refl, f, m, on, al)
