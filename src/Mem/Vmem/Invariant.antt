-- ===== src/Mem/Vmem/Invariant.antt =====
-- The lists and the tree hold the segments that they should, but for those that an operation has
-- taken out of them.
use evalyn_os.Base.{
  ℕ, suc, ◌+◌, ◌^◌, ◌≤◌, ◌<◌, ◌≡◌, ◌⊎◌, inl, inr, refl, sym, ◌∙◌, ◌==◌, ==_iff, not, Bool, true,
  false, none, some, List, [], ◌∷◌, ◌++◌, map, arith, Bool-cases,
}
use evalyn_os.Base.Distinct.{has, Distinct, has-concat}
use evalyn_os.Mem.Words.{log2ull}
use evalyn_os.Mem.Words.Multiples.{IsMultiple}
use evalyn_os.Mem.Vmem.{Segment, Vmem, find, replace, is_empty}
use evalyn_os.Mem.Vmem.Segments.{Ordered, find-Ordered, find_outside, find_apart}
use evalyn_os.Mem.Vmem.Replace.{replace-Ordered, find-replace_other}

abbrev pub All {ℓ κ} : {A : Type ℓ} → (A → Type κ) → List A → Type κ
All P [] = Unit
All P (x ∷ xs) = P x × All P xs

pub All-map {ℓ κ μ} :
    {A : Type ℓ} (P : A → Type κ) (Q : A → Type μ) (xs : List A)
    → ((x : A) → P x → Q x)
    → All P xs
    → All Q xs
All-map P Q [] f a = tt
All-map P Q (x ∷ xs) f a = (f x a.0, All-map P Q xs f a.1)

All-append {ℓ κ} :
    {A : Type ℓ} (P : A → Type κ) (xs ys : List A) → All P xs → All P ys → All P (xs ++ ys)
All-append P [] ys hx hy = hy
All-append P (x ∷ xs) ys hx hy = (hx.0, All-append P xs ys hx.1 hy)

pub All-replace {κ} :
    (P : Segment → Type κ) (b : ℕ) (news segs : List Segment)
    → All P segs
    → All P news
    → All P (replace b news segs)
All-replace P b news [] a n = tt
All-replace P b news (s ∷ rest) a n = elim (Bool-cases (s.base == b)) [
  | inl here ↦ rw here (All-append P news rest n a.1)
  | inr there ↦ rw there (a.0, All-replace P b news rest a.1 n)
]

pub All-zip {ℓ κ μ ν} :
    {A : Type ℓ} (P : A → Type κ) (Q : A → Type μ) (R : A → Type ν) (xs : List A)
    → ((x : A) → P x → Q x → R x)
    → All P xs
    → All Q xs
    → All R xs
All-zip P Q R [] f a b = tt
All-zip P Q R (x ∷ xs) f a b = (f x a.0 b.0, All-zip P Q R xs f a.1 b.1)

pub All-above :
    (lo lo' : ℕ) (segs : List Segment) (top : ℕ)
    → lo' ≤ lo
    → Ordered lo segs top
    → All (λ x. lo' ≤ x.base) segs
All-above lo lo' [] top le o = tt
All-above lo lo' (s ∷ rest) top le o =
    (omega (arith, le, o.0), All-above (s.base + s.size) lo' rest top (omega (arith, le, o.0)) o.2)

-- Every segment is found by its base.
pub find_own :
    (lo : ℕ) (segs : List Segment) (top : ℕ)
    → Ordered lo segs top
    → All (λ x. find x.base segs ≡ some x) segs
find_own lo [] top o = tt
find_own lo (s ∷ rest) top o = (
  ground arith,
  All-zip (λ x. suc s.base ≤ x.base) (λ x. find x.base rest ≡ some x) _ rest
      (λ x above e. ground (arith, above, e))
      (All-above (s.base + s.size) (suc s.base) rest top (omega (arith, o.1)) o.2)
      (find_own (s.base + s.size) rest top o.2),
)

-- The segment that goes need not meet the predicate.
All-replace_but {κ} :
    (P : Segment → Type κ) (b : ℕ) (news : List Segment) (lo : ℕ) (segs : List Segment) (top : ℕ)
    → Ordered lo segs top
    → All (λ x. (x.base == b) ≡ false → P x) segs
    → All P news
    → All P (replace b news segs)
All-replace_but P b news lo [] top o a n = tt
All-replace_but P b news lo (s ∷ rest) top o a n = elim (Bool-cases (s.base == b)) [
  | inl here ↦
      let above = All-above (s.base + s.size) (suc s.base) rest top (omega (arith, o.1)) o.2 in
      rw here (All-append P news rest n (both rest above a.1 ((==_iff s.base b).0 here)))
  | inr there ↦ rw there (a.0 there, All-replace_but P b news (s.base + s.size) rest top o.2 a.1 n)
]
  where
    both :
        (xs : List Segment)
        → All (λ x. suc s.base ≤ x.base) xs
        → All (λ x. (x.base == b) ≡ false → P x) xs
        → s.base ≡ b
        → All P xs
    both [] h k e = tt
    both (x ∷ xs) h k e = (k.0 (ground (arith, h.0, e)), both xs h.1 k.1 e)

pub All-find {κ} :
    (P : Segment → Type κ) (b : ℕ) (s : Segment) (segs : List Segment)
    → find b segs ≡ some s
    → All P segs
    → P s
All-find P b s [] e a = absurd (ground (arith, e))
All-find P b s (t ∷ rest) e a = elim (Bool-cases (t.base == b)) [
  | inl here ↦
      let same : some t ≡ some s = rw here at e in
      let eq : t ≡ s = grind (arith, same) in rw (← eq) a.0
  | inr there ↦ let e' : find b rest ≡ some s = rw there at e in All-find P b s rest e' a.1
]

abbrev pub bases : List Segment → List ℕ
bases = map (λ s. s.base)

All-bases :
    (news : List Segment) (detached : List ℕ)
    → All (λ x. has x.base (bases news ++ detached) ≡ true) news
All-bases [] detached = tt
All-bases (n ∷ news) detached = (
  ground arith,
  All-map (λ x. has x.base (bases news ++ detached) ≡ true) _ news (λ x h. ground (arith, h))
      (All-bases news detached),
)

has-bases : (c : ℕ) (news : List Segment) → find c news ≡ none → has c (bases news) ≡ false
has-bases c [] e = refl
has-bases c (n ∷ news) e = elim (Bool-cases (n.base == c)) [
  | inl on ↦ absurd (ground (arith, on, e))
  | inr off ↦ let e' : find c news ≡ none = rw off at e in ground (arith, off, has-bases c news e')
]

abbrev pub Aligned : ℕ → Segment → Type 0
Aligned q s = IsMultiple q s.base × IsMultiple q s.size

-- A free segment is in the list of its size.
abbrev pub IsListed : List ℕ → (ℕ → List ℕ) → Segment → Type 0
IsListed detached lists s =
    s.allocated ≡ false → has s.base detached ≡ false → has s.base (lists (log2ull s.size)) ≡ true

-- An allocated segment is in the tree.
abbrev pub IsInTree : List ℕ → List ℕ → Segment → Type 0
IsInTree detached tree s = s.allocated ≡ true → has s.base detached ≡ false → has s.base tree ≡ true

-- What a base in a list or in the tree stands for.
abbrev pub Names : List ℕ → List Segment → (c : ℕ) → (allocated : Bool) → Type 0
Names detached segs c allocated =
    (has c detached ≡ false) × ((u : Segment) × (find c segs ≡ some u) × (u.allocated ≡ allocated))

-- The segments with the bases `detached` are in no list and not in the tree.
pub record Inv (top : ℕ) (detached : List ℕ) (v : Vmem) : Type 0 where
  pub ordered : Ordered 0 v.segments top
  pub inside : top ≤ 2 ^ 64
  pub divides : IsMultiple v.quantum (2 ^ 64)
  pub positive : 0 < v.quantum
  pub aligned : All (Aligned v.quantum) v.segments
  pub names_free : (i c : ℕ) → has c (v.freelists i) ≡ true → Names detached v.segments c false
  pub class_of :
      (i c : ℕ) (u : Segment)
      → has c (v.freelists i) ≡ true
      → find c v.segments ≡ some u
      → log2ull u.size ≡ i
  pub lists_distinct : (i : ℕ) → Distinct (v.freelists i)
  pub listed : All (IsListed detached v.freelists) v.segments
  pub bits : (i : ℕ) → v.bitmap i ≡ not (is_empty (v.freelists i))
  pub names_allocated : (c : ℕ) → has c v.tree ≡ true → Names detached v.segments c true
  pub tree_distinct : Distinct v.tree
  pub in_tree : All (IsInTree detached v.tree) v.segments

some-inj : {x y : Segment} → some x ≡ some y → x ≡ y
some-inj e = grind (arith, e)

module _ (top : ℕ) (detached : List ℕ) (v : Vmem) (b : ℕ) (s : Segment) (news : List Segment) where
  -- A detached segment gives way to others, which are detached.
  pub replace-Inv :
      Inv top (b ∷ detached) v
      → find b v.segments ≡ some s
      → Ordered s.base news (s.base + s.size)
      → All (Aligned v.quantum) news
      → Inv top (bases news ++ detached) (record v { segments = replace b news v.segments })
  replace-Inv inv e within al = record {
    ordered = replace-Ordered top b s news within 0 v.segments inv.ordered e;
    inside = inv.inside;
    divides = inv.divides;
    positive = inv.positive;
    aligned = All-replace (Aligned v.quantum) b news v.segments inv.aligned al;
    names_free = λ i c m. kept c false (inv.names_free i c m);
    class_of = λ i c u m f. same_class i c u m f;
    lists_distinct = inv.lists_distinct;
    listed =
        All-replace_but (IsListed (bases news ++ detached) v.freelists) b news 0 v.segments top
          inv.ordered
          (All-map (IsListed (b ∷ detached) v.freelists) _ v.segments
            (λ x h ne free out.
              h free (ground (arith, ne, out, has-concat x.base (bases news) detached)))
            inv.listed)
          (All-map (λ x. has x.base (bases news ++ detached) ≡ true) _ news
            (λ x h free out. absurd (ground (arith, h, out))) (All-bases news detached));
    bits = inv.bits;
    names_allocated = λ c m. kept c true (inv.names_allocated c m);
    tree_distinct = inv.tree_distinct;
    in_tree =
        All-replace_but (IsInTree (bases news ++ detached) v.tree) b news 0 v.segments top
          inv.ordered
          (All-map (IsInTree (b ∷ detached) v.tree) _ v.segments
            (λ x h ne free out.
              h free (ground (arith, ne, out, has-concat x.base (bases news) detached)))
            inv.in_tree)
          (All-map (λ x. has x.base (bases news ++ detached) ≡ true) _ news
            (λ x h free out. absurd (ground (arith, h, out))) (All-bases news detached));
  }
    where
      side :
          {c size : ℕ}
          → (c + size ≤ s.base) ⊎ (s.base + s.size ≤ c)
          → 0 < size
          → (c < s.base) ⊎ (s.base + s.size ≤ c)
      side (inl le) pos = inl (omega (arith, le, pos))
      side (inr le) pos = inr le

      kept :
          (c : ℕ) (al' : Bool)
          → Names (b ∷ detached) v.segments c al'
          → Names (bases news ++ detached) (replace b news v.segments) c al'
      kept c al' (out, (u, f, k)) =
          let ne : (c == b) ≡ false = ground (arith, out) in
          let far = find_apart 0 v.segments top b c s u inv.ordered e f ne in
          let place = find-Ordered 0 v.segments top c u inv.ordered f in
          let clear = find_outside s.base news (s.base + s.size) c within (side far place.2) in
          (
            ground (arith, out, has-bases c news clear, has-concat c (bases news) detached),
            (u, find-replace_other top b s news within 0 v.segments c u inv.ordered e ne f, k),
          )

      same_class :
          (i c : ℕ) (u : Segment)
          → has c (v.freelists i) ≡ true
          → find c (replace b news v.segments) ≡ some u
          → log2ull u.size ≡ i
      same_class i c u m f =
          let (out, (u', f', k)) = inv.names_free i c m in
          let ne : (c == b) ≡ false = ground (arith, out) in
          let g = find-replace_other top b s news within 0 v.segments c u' inv.ordered e ne f' in
          inv.class_of i c u m (f' ∙ sym g ∙ f)
