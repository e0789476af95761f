-- ===== src/Mem/Vmem/Replace.antt =====
-- Other segments in the place of one.
use evalyn_os.Base.{
  ℕ, ◌+◌, ◌≤◌, ◌<◌, ◌≡◌, ◌⊎◌, inl, inr, refl, ap, ◌∙◌, ◌==◌, leb, if◌then◌else◌, false, none, some,
  List, [], ◌∷◌, arith, Bool-cases,
}
use evalyn_os.Mem.Vmem.{Segment, find, replace}
use evalyn_os.Mem.Vmem.Segments.{
  Ordered, covers, status, Ordered-lower, Ordered-append, find-Ordered, find_outside,
  status_outside, status-append, status-append_none, find-append, find-append_some,
}

-- The first segment is the one that is found, with its end.
found_here : (t s : Segment) (b : ℕ) → some t ≡ some s → t.base + t.size ≡ s.base + s.size
found_here t s b e = ap (λ u. u.base + u.size) (some-inj e)
  where
    some-inj : {x y : Segment} → some x ≡ some y → x ≡ y
    some-inj e = grind (arith, e)

module _ (top b : ℕ) (s : Segment) (news : List Segment)
    (within : Ordered s.base news (s.base + s.size)) where
  pub replace-Ordered :
      (lo : ℕ) (segs : List Segment)
      → Ordered lo segs top
      → find b segs ≡ some s
      → Ordered lo (replace b news segs) top
  replace-Ordered lo [] o e = absurd (ground (arith, e))
  replace-Ordered lo (t ∷ rest) o e = elim (Bool-cases (t.base == b)) [
    | inl here ↦
        let same : some t ≡ some s = rw here at e in
        let base : t.base ≡ s.base = ground (arith, same) in
        let end = found_here t s b same in
        let le : lo ≤ s.base = omega (arith, o.0, base) in
        let after : Ordered (s.base + s.size) rest top = rw (← end) o.2 in
        rw here (
          Ordered-append lo news rest (s.base + s.size) top
            (Ordered-lower s.base lo news _ le within) after)
    | inr there ↦
        let e' : find b rest ≡ some s = rw there at e in
        rw there (o.0, o.1, replace-Ordered (t.base + t.size) rest o.2 e')
  ]

  pub status-replace :
      (a lo : ℕ) (segs : List Segment)
      → Ordered lo segs top
      → find b segs ≡ some s
      → status a (replace b news segs) ≡ (if covers s a then status a news else status a segs)
  status-replace a lo [] o e = absurd (ground (arith, e))
  status-replace a lo (t ∷ rest) o e = elim (Bool-cases (t.base == b)) [
    | inl here ↦
        let same : some t ≡ some s = rw here at e in
        let base : t.base ≡ s.base = ground (arith, same) in
        let size : t.size ≡ s.size = ground (arith, same) in
        let end = found_here t s b same in
        elim (Bool-cases (covers s a)) [
          | inl on ↦
              let clear : status a rest ≡ none =
                status_outside (t.base + t.size) rest top a o.2 (inl (ground (arith, on, end))) in
              rw (here, on) (status-append_none a news rest clear)
          | inr off ↦
              let clear : status a news ≡ none = status_outside s.base news _ a within (side off) in
              let off' : covers t a ≡ false = ground (arith, off, base, size) in
              rw (here, off, off') (status-append a news rest clear)
        ]
    | inr there ↦
        let e' : find b rest ≡ some s = rw there at e in
        let place = find-Ordered (t.base + t.size) rest top b s o.2 e' in
        let ih = status-replace a (t.base + t.size) rest o.2 e' in
        elim (Bool-cases (covers t a)) [
          | inl on ↦
              let off : covers s a ≡ false = ground (arith, on, place) in rw (there, on, off) refl
          | inr off ↦ rw (there, off) ih
        ]
  ]
    where
      side : covers s a ≡ false → (a < s.base) ⊎ (s.base + s.size ≤ a)
      side off = elim (Bool-cases (leb s.base a)) [
        | inl le ↦ inr (ground (arith, le, off))
        | inr gt ↦ inl (ground (arith, gt))
      ]

  -- Another segment is still found, and so is a new one.
  pub find-replace_other :
      (lo : ℕ) (segs : List Segment) (c : ℕ) (u : Segment)
      → Ordered lo segs top
      → find b segs ≡ some s
      → (c == b) ≡ false
      → find c segs ≡ some u
      → find c (replace b news segs) ≡ some u
  find-replace_other lo [] c u o e ne f = absurd (ground (arith, e))
  find-replace_other lo (t ∷ rest) c u o e ne f = elim (Bool-cases (t.base == b)) [
    | inl here ↦
        let same : some t ≡ some s = rw here at e in
        let end = found_here t s b same in
        let off : (t.base == c) ≡ false = ground (arith, here, ne) in
        let f' : find c rest ≡ some u = rw off at f in
        let place = find-Ordered (t.base + t.size) rest top c u o.2 f' in
        let clear : find c news ≡ none =
          find_outside s.base news _ c within (inr (omega (arith, place, end))) in
        rw here (find-append c news rest clear ∙ f')
    | inr there ↦
        let e' : find b rest ≡ some s = rw there at e in
        elim (Bool-cases (t.base == c)) [
          | inl hit ↦ rw (there, hit) (rw hit at f)
          | inr miss ↦
              let f' : find c rest ≡ some u = rw miss at f in
              rw (there, miss) (find-replace_other (t.base + t.size) rest c u o.2 e' ne f')
        ]
  ]

  pub find-replace_new :
      (lo : ℕ) (segs : List Segment) (c : ℕ) (u : Segment)
      → Ordered lo segs top
      → find b segs ≡ some s
      → find c news ≡ some u
      → find c (replace b news segs) ≡ some u
  find-replace_new lo [] c u o e f = absurd (ground (arith, e))
  find-replace_new lo (t ∷ rest) c u o e f = elim (Bool-cases (t.base == b)) [
    | inl here ↦ rw here (find-append_some c news rest u f)
    | inr there ↦
        let e' : find b rest ≡ some s = rw there at e in
        let place = find-Ordered (t.base + t.size) rest top b s o.2 e' in
        let inside = find-Ordered s.base news (s.base + s.size) c u within f in
        let miss : (t.base == c) ≡ false = ground (arith, o.1, place, inside) in
        rw (there, miss) (find-replace_new (t.base + t.size) rest c u o.2 e' f)
  ]
