-- ===== src/Mem/Vmem/Free/Joins.antt =====
-- A freed segment takes its free neighbours in.
use mathlib.Core.Path.{subst}
use evalyn_os.Base.{
  ℕ, ◌+◌, ◌-◌, ◌%◌, ◌^◌, ◌≤◌, ◌<◌, ◌≡◌, ◌⊎◌, inl, inr, refl, ap, sym, ◌∙◌, ◌==◌, not, ◌&&◌, true,
  false, none, some, List, [], ◌∷◌, ◌++◌, arith, Bool-cases, Option-cases,
}
use evalyn_os.Mem.Words.{add64, log2ull}
use evalyn_os.Mem.Words.Multiples.{IsMultiple, IsMultiple-add}
use evalyn_os.Mem.Vmem.{Segment, Vmem, find, replace, flist_del}
use evalyn_os.Mem.Vmem.Segments.{Ordered, covers, status, find-Ordered}
use evalyn_os.Mem.Vmem.Invariant.{All, All-find, IsListed, find_own, Aligned, Inv}
use evalyn_os.Mem.Vmem.Splits.{status-find}
use evalyn_os.Mem.Vmem.Detach.{detach_free-Inv}
use evalyn_os.Mem.Vmem.Free.{absorb, left_coalesce, right_coalesce, prev_of, next_of}
use evalyn_os.Mem.Vmem.Free.Merge.{join-Inv, status-join, prev_of-split, next_of-split, swap-Inv}

-- One segment is detached and free, and no address has another status than before.
pub record IsJoined (top : ℕ) (v : Vmem) (result : Vmem × Segment) : Type 0 where
  pub inv : Inv top (result.1.base ∷ []) result.0
  pub found : find result.1.base result.0.segments ≡ some result.1
  pub flag : result.1.allocated ≡ false
  pub quantum : result.0.quantum ≡ v.quantum
  pub same : (a : ℕ) → status a result.0.segments ≡ status a v.segments

module _ (w x y : Segment) (ys : List Segment) (top : ℕ) where
  below :
      (lo : ℕ) (xs : List Segment)
      → Ordered lo (xs ++ x ∷ y ∷ ys) top
      → (lo ≤ x.base) × (lo ≤ y.base)
  below lo [] o = omega (arith, o)
  below lo (t ∷ xs) o = omega (arith, o.0, o.1, below (t.base + t.size) xs o.2)

  not_at :
      (lo : ℕ) (t : Segment) (xs : List Segment)
      → Ordered lo (t ∷ xs ++ x ∷ y ∷ ys) top
      → ((t.base == x.base) ≡ false) × ((t.base == y.base) ≡ false)
  not_at lo t xs o = ground (arith, o.1, below (t.base + t.size) xs o.2)

  pub apart_places :
      (lo : ℕ) (xs : List Segment) → Ordered lo (xs ++ x ∷ y ∷ ys) top → x.base + x.size ≤ y.base
  apart_places lo [] o = o.2.0
  apart_places lo (t ∷ xs) o = apart_places (t.base + t.size) xs o.2

  lower_gone :
      (lo : ℕ) (xs : List Segment)
      → Ordered lo (xs ++ x ∷ y ∷ ys) top
      → replace y.base (w ∷ []) (replace x.base [] (xs ++ x ∷ y ∷ ys)) ≡ xs ++ w ∷ ys
  lower_gone lo [] o = ground arith
  lower_gone lo (t ∷ xs) o =
      let (nx, ny) = not_at lo t xs o in
      rw (nx, ny) (ap (λ l. t ∷ l) (lower_gone (t.base + t.size) xs o.2))

  upper_gone :
      (lo : ℕ) (xs : List Segment)
      → Ordered lo (xs ++ x ∷ y ∷ ys) top
      → replace x.base (w ∷ []) (replace y.base [] (xs ++ x ∷ y ∷ ys)) ≡ xs ++ w ∷ ys
  upper_gone lo [] o = let n : (x.base == y.base) ≡ false = ground (arith, o) in ground (arith, n)
  upper_gone lo (t ∷ xs) o =
      let (nx, ny) = not_at lo t xs o in
      rw (ny, nx) (ap (λ l. t ∷ l) (upper_gone (t.base + t.size) xs o.2))

  find_joined :
      (lo : ℕ) (xs : List Segment)
      → Ordered lo (xs ++ x ∷ y ∷ ys) top
      → w.base ≡ x.base
      → find w.base (xs ++ w ∷ ys) ≡ some w
  find_joined lo [] o e = ground arith
  find_joined lo (t ∷ xs) o e =
      let n = not_at lo t xs o in
      let ne : (t.base == w.base) ≡ false = ground (arith, n, e) in
      rw ne (find_joined (t.base + t.size) xs o.2 e)

module _ (top : ℕ) (v : Vmem) (s : Segment) (inv : Inv top (s.base ∷ []) v)
    (found : find s.base v.segments ≡ some s) (free : s.allocated ≡ false)
    (not_all : (status 0 v.segments ≡ none) ⊎ (status (2 ^ 64 - 1) v.segments ≡ none)) where
  as_before : IsJoined top v (v, s)
  as_before = record { inv = inv; found = found; flag = free; quantum = refl; same = λ a. refl }

  -- A free neighbour is in the list of its size.
  neighbour-Inv :
      (g : Segment)
      → find g.base v.segments ≡ some g
      → g.allocated ≡ false
      → (g.base == s.base) ≡ false
      → Inv top (g.base ∷ s.base ∷ []) (flist_del v g.base (log2ull g.size))
  neighbour-Inv g fg fr ne =
      let listed =
        All-find (IsListed (s.base ∷ []) v.freelists) g.base g v.segments fg inv.listed fr
          (ground (arith, ne)) in
      detach_free-Inv top (s.base ∷ []) v g.base inv (log2ull g.size) listed

  -- The neighbour `gone` and the segment are `x` and `y`, in the order of their bases.
  absorb-IsJoined :
      (gone w x y : Segment) (xs ys : List Segment)
      → v.segments ≡ xs ++ x ∷ y ∷ ys
      → Inv top (x.base ∷ y.base ∷ []) (flist_del v gone.base (log2ull gone.size))
      → replace s.base (w ∷ []) (replace gone.base [] v.segments) ≡ xs ++ w ∷ ys
      → (x.allocated ≡ false) × (y.allocated ≡ false) × (w.allocated ≡ false)
      → (w.base ≡ x.base) × (w.size ≡ x.size + y.size) × (x.base + x.size ≡ y.base)
      → Aligned v.quantum x × Aligned v.quantum y
      → IsJoined top v (absorb v s gone w, w)
  unfolding absorb flist_del
  absorb-IsJoined gone w x y xs ys at dinv eq (fx, fy, fw) (base, size, meet) (ax, ay) =
      let d = flist_del v gone.base (log2ull gone.size) in
      let o : Ordered 0 (xs ++ x ∷ y ∷ ys) top = subst (λ l. Ordered 0 l top) at inv.ordered in
      let wb : IsMultiple v.quantum w.base = ap (λ b. b % v.quantum) base ∙ ax.0 in
      let ws : IsMultiple v.quantum w.size =
        ap (λ b. b % v.quantum) size ∙ IsMultiple-add v.quantum x.size y.size ax.1 ay.1 in
      let j = join-Inv w x y ys top [] d xs dinv at base size meet (wb, ws) in
      let j' : Inv top (w.base ∷ []) (record d { segments = xs ++ w ∷ ys }) =
        subst (λ b. Inv top (b ∷ []) (record d { segments = xs ++ w ∷ ys })) (sym base) j in
      record {
        inv = subst (λ l. Inv top (w.base ∷ []) (record d { segments = l })) (sym eq) j';
        found = ap (find w.base) eq ∙ find_joined w x y ys top 0 xs o base;
        flag = fw;
        quantum = refl;
        same = λ a.
            ap (status a) eq
            ∙ status-join w x y ys top base size meet (fx ∙ sym fy) (fw ∙ sym fx) a xs
            ∙ ap (status a) (sym at);
      }

  own :
      (xs : List Segment) (x y : Segment) (ys : List Segment)
      → v.segments ≡ xs ++ x ∷ y ∷ ys
      → (find x.base v.segments ≡ some x) × (find y.base v.segments ≡ some y)
  own xs x y ys at = both xs (
      subst (All (λ z. find z.base v.segments ≡ some z)) at (find_own 0 v.segments top inv.ordered))
    where
      both :
          (xs : List Segment)
          → All (λ z. find z.base v.segments ≡ some z) (xs ++ x ∷ y ∷ ys)
          → (find x.base v.segments ≡ some x) × (find y.base v.segments ≡ some y)
      both [] a = (a.0, a.1.0)
      both (t ∷ xs) a = both xs a.1

  find-Aligned : (g : Segment) → find g.base v.segments ≡ some g → Aligned v.quantum g
  find-Aligned g f = All-find (Aligned v.quantum) g.base g v.segments f inv.aligned

  -- Two segments that meet are not the whole space together.
  joined_size :
      (x y : Segment)
      → find x.base v.segments ≡ some x
      → find y.base v.segments ≡ some y
      → x.base + x.size ≡ y.base
      → x.size + y.size < 2 ^ 64
  joined_size x y fx fy meet =
      let px = find-Ordered 0 v.segments top x.base x inv.ordered fx in
      let py = find-Ordered 0 v.segments top y.base y inv.ordered fy in
      elim not_all [
        | inl low ↦ elim (Bool-cases (covers x 0)) [
          | inl on ↦
              absurd
                (ground (arith, low, status-find 0 0 v.segments top x.base x inv.ordered fx on))
          | inr off ↦ ground (arith, px, py, meet, off, inv.inside)
        ]
        | inr high ↦ elim (Bool-cases (covers y (2 ^ 64 - 1))) [
          | inl on ↦ absurd (
              ground
                (arith, high, status-find (2 ^ 64 - 1) 0 v.segments top y.base y inv.ordered fy on))
          | inr off ↦ ground (arith, px, py, meet, off, inv.inside)
        ]
      ]

  left-IsJoined :
      (p : Segment)
      → prev_of s.base v.segments ≡ some p
      → (not p.allocated && (add64 p.base p.size == s.base)) ≡ true
      → (let wide : Segment = record s { base = p.base; size = add64 s.size p.size } in
          IsJoined top v (absorb v s p wide, wide))
  left-IsJoined p e meets =
      let wide : Segment = record s { base = p.base; size = add64 s.size p.size } in
      let (xs, ys, at) = prev_of-split s.base v.segments top p s inv.ordered e found in
      let o : Ordered 0 (xs ++ p ∷ s ∷ ys) top = subst (λ l. Ordered 0 l top) at inv.ordered in
      let (fp, fs) = own xs p s ys at in
      let pp = find-Ordered 0 v.segments top p.base p inv.ordered fp in
      let ps = find-Ordered 0 v.segments top s.base s inv.ordered fs in
      let pf : p.allocated ≡ false = ground (arith, meets) in
      let add_at : (add64 p.base p.size == s.base) ≡ true = ground (arith, meets) in
      let apart = apart_places wide p s ys top 0 xs o in
      let meet : p.base + p.size ≡ s.base = ground (arith, add_at, apart, ps, inv.inside) in
      let ne : (p.base == s.base) ≡ false = ground (arith, meet, pp) in
      let size : add64 s.size p.size ≡ p.size + s.size =
        omega (arith, joined_size p s fp fs meet) in
      absorb-IsJoined p wide p s xs ys at (neighbour-Inv p fp pf ne)
        (ap (λ l. replace s.base (wide ∷ []) (replace p.base [] l)) at
          ∙ lower_gone wide p s ys top 0 xs o)
        (pf, free, free) (refl, size, meet) (find-Aligned p fp, find-Aligned s fs)

  right-IsJoined :
      (n : Segment)
      → next_of s.base v.segments ≡ some n
      → (not n.allocated && (add64 s.base s.size == n.base)) ≡ true
      → (let wide : Segment = record s { size = add64 s.size n.size } in
          IsJoined top v (absorb v s n wide, wide))
  right-IsJoined n e meets =
      let wide : Segment = record s { size = add64 s.size n.size } in
      let (xs, ys, at) = next_of-split s.base v.segments n s e found in
      let o : Ordered 0 (xs ++ s ∷ n ∷ ys) top = subst (λ l. Ordered 0 l top) at inv.ordered in
      let (fs, fn) = own xs s n ys at in
      let pn = find-Ordered 0 v.segments top n.base n inv.ordered fn in
      let ps = find-Ordered 0 v.segments top s.base s inv.ordered fs in
      let nf : n.allocated ≡ false = ground (arith, meets) in
      let add_at : (add64 s.base s.size == n.base) ≡ true = ground (arith, meets) in
      let apart = apart_places wide s n ys top 0 xs o in
      let meet : s.base + s.size ≡ n.base = ground (arith, add_at, apart, pn, inv.inside) in
      let ne : (n.base == s.base) ≡ false = ground (arith, meet, ps) in
      let size : add64 s.size n.size ≡ s.size + n.size =
        omega (arith, joined_size s n fs fn meet) in
      absorb-IsJoined n wide s n xs ys at
        (swap-Inv top n.base s.base [] (flist_del v n.base (log2ull n.size))
          (neighbour-Inv n fn nf ne))
        (ap (λ l. replace s.base (wide ∷ []) (replace n.base [] l)) at
          ∙ upper_gone wide s n ys top 0 xs o)
        (free, nf, free) (refl, size, meet) (find-Aligned s fs, find-Aligned n fn)

  pub left_coalesce-IsJoined : IsJoined top v (left_coalesce v s)
  unfolding left_coalesce
  left_coalesce-IsJoined = elim (Option-cases (prev_of s.base v.segments)) [
    | inl alone ↦ rw (left_coalesce, alone) as_before
    | inr (p, e) ↦
        rw (left_coalesce, e)
          (elim (Bool-cases (not p.allocated && (add64 p.base p.size == s.base))) [
            | inr apart ↦ rw apart as_before
            | inl meets ↦ rw meets (left-IsJoined p e meets)
          ])
  ]

  pub right_coalesce-IsJoined : IsJoined top v (right_coalesce v s)
  unfolding right_coalesce
  right_coalesce-IsJoined = elim (Option-cases (next_of s.base v.segments)) [
    | inl alone ↦ rw (right_coalesce, alone) as_before
    | inr (n, e) ↦
        rw (right_coalesce, e)
          (elim (Bool-cases (not n.allocated && (add64 s.base s.size == n.base))) [
            | inr apart ↦ rw apart as_before
            | inl meets ↦ rw meets (right-IsJoined n e meets)
          ])
  ]
