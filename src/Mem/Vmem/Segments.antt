-- ===== src/Mem/Vmem/Segments.antt =====
-- Lists of segments in order, and the status of an address.
use evalyn_os.Base.{
  ℕ, ◌+◌, ◌≤◌, ◌<◌, ◌≡◌, ◌⊎◌, inl, inr, refl, ◌==◌, ==_iff, ltb, leb, if◌then◌else◌, ◌&&◌, Bool,
  false, Option, none, some, List, [], ◌∷◌, ◌++◌, arith, Bool-cases,
}
use evalyn_os.Mem.Vmem.{Segment, find}

-- Segments that are not empty, between `lo` and `top`, none overlapping the next.
abbrev pub Ordered : (lo : ℕ) → List Segment → (top : ℕ) → Type 0
Ordered lo [] top = lo ≤ top
Ordered lo (s ∷ rest) top = (lo ≤ s.base) × (0 < s.size) × Ordered (s.base + s.size) rest top

abbrev pub covers : Segment → ℕ → Bool
covers s a = leb s.base a && ltb a (s.base + s.size)

-- Whether the segment of an address is allocated, if it is in any.
abbrev pub status : (a : ℕ) → List Segment → Option Bool
status a [] = none
status a (s ∷ rest) = if covers s a then some s.allocated else status a rest

pub Ordered-le : (lo : ℕ) (segs : List Segment) (top : ℕ) → Ordered lo segs top → lo ≤ top
Ordered-le lo [] top o = o
Ordered-le lo (s ∷ rest) top o = omega (arith, o.0, Ordered-le (s.base + s.size) rest top o.2)

pub Ordered-lower :
    (lo lo' : ℕ) (segs : List Segment) (top : ℕ)
    → lo' ≤ lo
    → Ordered lo segs top
    → Ordered lo' segs top
Ordered-lower lo lo' [] top le o = omega (arith, le, o)
Ordered-lower lo lo' (s ∷ rest) top le o = (omega (arith, le, o.0), o.1, o.2)

pub Ordered-append :
    (lo : ℕ) (xs ys : List Segment) (mid top : ℕ)
    → Ordered lo xs mid
    → Ordered mid ys top
    → Ordered lo (xs ++ ys) top
Ordered-append lo [] ys mid top ox oy = Ordered-lower mid lo ys top ox oy
Ordered-append lo (s ∷ xs) ys mid top ox oy =
    (ox.0, ox.1, Ordered-append (s.base + s.size) xs ys mid top ox.2 oy)

-- Where a segment of the list lies.
pub find-Ordered :
    (lo : ℕ) (segs : List Segment) (top b : ℕ) (s : Segment)
    → Ordered lo segs top
    → find b segs ≡ some s
    → (s.base ≡ b) × (lo ≤ b) × (0 < s.size) × (b + s.size ≤ top)
find-Ordered lo [] top b s o e = absurd (ground (arith, e))
find-Ordered lo (t ∷ rest) top b s o e = elim (Bool-cases (t.base == b)) [
  | inl here ↦
      let same : some t ≡ some s = rw here at e in
      let base : t.base ≡ s.base = ground (arith, same) in
      let size : t.size ≡ s.size = ground (arith, same) in
      let le = Ordered-le (t.base + t.size) rest top o.2 in
      let at : t.base ≡ b = (==_iff t.base b).0 here in omega (arith, base, size, le, at, o.0, o.1)
  | inr there ↦
      let e' : find b rest ≡ some s = rw there at e in
      let ih = find-Ordered (t.base + t.size) rest top b s o.2 e' in
      (ih.0, omega (arith, ih.1, o.0), ih.2, ih.3)
]

-- Below or above the list nothing is found, and no address has a status.
pub find_outside :
    (lo : ℕ) (segs : List Segment) (top c : ℕ)
    → Ordered lo segs top
    → (c < lo) ⊎ (top ≤ c)
    → find c segs ≡ none
find_outside lo [] top c o out = refl
find_outside lo (s ∷ rest) top c o out =
    let le = Ordered-le (s.base + s.size) rest top o.2 in
    let ne : (s.base == c) ≡ false = ground (arith, o.0, o.1, le, out) in
    rw ne (find_outside (s.base + s.size) rest top c o.2 (below le))
  where
    below : s.base + s.size ≤ top → (c < s.base + s.size) ⊎ (top ≤ c)
    below le = elim out [ inl lt ↦ inl (omega (arith, lt, o.0)) | inr ge ↦ inr ge ]

pub status_outside :
    (lo : ℕ) (segs : List Segment) (top a : ℕ)
    → Ordered lo segs top
    → (a < lo) ⊎ (top ≤ a)
    → status a segs ≡ none
status_outside lo [] top a o out = refl
status_outside lo (s ∷ rest) top a o out =
    let le = Ordered-le (s.base + s.size) rest top o.2 in
    let off : covers s a ≡ false = ground (arith, o.0, o.1, le, out) in
    rw off (status_outside (s.base + s.size) rest top a o.2 below)
  where
    below : (a < s.base + s.size) ⊎ (top ≤ a)
    below = elim out [ inl lt ↦ inl (omega (arith, lt, o.0)) | inr ge ↦ inr ge ]

pub status-append :
    (a : ℕ) (xs ys : List Segment) → status a xs ≡ none → status a (xs ++ ys) ≡ status a ys
status-append a [] ys e = refl
status-append a (s ∷ xs) ys e = elim (Bool-cases (covers s a)) [
  | inl on ↦ absurd (ground (arith, on, e))
  | inr off ↦ rw off (status-append a xs ys (rw off at e))
]

pub status-append_none :
    (a : ℕ) (xs ys : List Segment) → status a ys ≡ none → status a (xs ++ ys) ≡ status a xs
status-append_none a [] ys e = e
status-append_none a (s ∷ xs) ys e = ground (arith, status-append_none a xs ys e)

pub find-append : (c : ℕ) (xs ys : List Segment) → find c xs ≡ none → find c (xs ++ ys) ≡ find c ys
find-append c [] ys e = refl
find-append c (s ∷ xs) ys e = elim (Bool-cases (s.base == c)) [
  | inl on ↦ absurd (ground (arith, on, e))
  | inr off ↦ rw off (find-append c xs ys (rw off at e))
]

pub find-append_some :
    (c : ℕ) (xs ys : List Segment) (s : Segment) → find c xs ≡ some s → find c (xs ++ ys) ≡ some s
find-append_some c [] ys s e = absurd (ground (arith, e))
find-append_some c (t ∷ xs) ys s e = ground (arith, e, find-append_some c xs ys s)

-- Two segments of the list do not overlap.
pub find_apart :
    (lo : ℕ) (segs : List Segment) (top b c : ℕ) (s u : Segment)
    → Ordered lo segs top
    → find b segs ≡ some s
    → find c segs ≡ some u
    → (c == b) ≡ false
    → (c + u.size ≤ s.base) ⊎ (s.base + s.size ≤ c)
find_apart lo [] top b c s u o e f ne = absurd (ground (arith, e))
find_apart lo (t ∷ rest) top b c s u o e f ne = elim (Bool-cases (t.base == b)) [
  | inl here ↦
      let same : some t ≡ some s = rw here at e in
      let base : t.base ≡ s.base = ground (arith, same) in
      let size : t.size ≡ s.size = ground (arith, same) in
      let miss : (t.base == c) ≡ false = ground (arith, here, ne) in
      let f' : find c rest ≡ some u = rw miss at f in
      inr (omega (arith, base, size, find-Ordered (t.base + t.size) rest top c u o.2 f'))
  | inr there ↦
      let e' : find b rest ≡ some s = rw there at e in
      elim (Bool-cases (t.base == c)) [
        | inl hit ↦
            let same : some t ≡ some u = rw hit at f in
            let size : t.size ≡ u.size = ground (arith, same) in
            let at : t.base ≡ c = (==_iff t.base c).0 hit in
            inl (omega (arith, at, size, find-Ordered (t.base + t.size) rest top b s o.2 e'))
        | inr miss ↦
            let f' : find c rest ≡ some u = rw miss at f in
            find_apart (t.base + t.size) rest top b c s u o.2 e' f' ne
      ]
]
