-- ===== src/Mem/Vmem/Splits.antt =====
-- The two splits of an allocation.
use evalyn_os.Base.{
  ℕ, ◌+◌, ◌-◌, ◌≤◌, ◌<◌, ◌≡◌, inl, inr, refl, ◌∙◌, ◌==◌, ==_iff, ltb, leb, if◌then◌else◌, ◌&&◌,
  Bool, true, false, some, List, [], ◌∷◌, arith, Bool-cases,
}
use evalyn_os.Mem.Words.{sub64, add64}
use evalyn_os.Mem.Words.Multiples.{IsMultiple, multiples_apart, IsMultiple-add, IsMultiple-sub}
use evalyn_os.Mem.Vmem.{Segment, Vmem, find, replace, left_split, right_split}
use evalyn_os.Mem.Vmem.Segments.{Ordered, covers, status, find-Ordered}
use evalyn_os.Mem.Vmem.Replace.{status-replace, find-replace_new}
use evalyn_os.Mem.Vmem.Invariant.{Aligned, All-find, Inv, replace-Inv}
use evalyn_os.Mem.Vmem.Attach.{attach_allocated-Inv, attach_free-Inv}

pub status-find :
    (a lo : ℕ) (segs : List Segment) (top b : ℕ) (s : Segment)
    → Ordered lo segs top
    → find b segs ≡ some s
    → covers s a ≡ true
    → status a segs ≡ some s.allocated
status-find a lo [] top b s o e on = absurd (ground (arith, e))
status-find a lo (t ∷ rest) top b s o e on = elim (Bool-cases (t.base == b)) [
  | inl here ↦
      let same : some t ≡ some s = rw here at e in
      let base : t.base ≡ s.base = ground (arith, same) in
      let size : t.size ≡ s.size = ground (arith, same) in
      let flag : t.allocated ≡ s.allocated = ground (arith, same) in
      ground (arith, base, size, flag, on)
  | inr there ↦
      let e' : find b rest ≡ some s = rw there at e in
      let place = find-Ordered (t.base + t.size) rest top b s o.2 e' in
      let off : covers t a ≡ false = ground (arith, on, place) in
      rw off (status-find a (t.base + t.size) rest top b s o.2 e' on)
]

-- One segment is detached, of the given extent, and no address has another status than before.
pub record IsSplit (top : ℕ) (v : Vmem) (base end : ℕ) (result : Vmem × Segment) : Type 0 where
  pub inv : Inv top (base ∷ []) result.0
  pub found : find base result.0.segments ≡ some result.1
  pub base_at : result.1.base ≡ base
  pub end_at : base + result.1.size ≡ end
  pub flag : result.1.allocated ≡ false
  pub quantum : result.0.quantum ≡ v.quantum
  pub same : (a : ℕ) → status a result.0.segments ≡ status a v.segments

abbrev pub in_range : (base size a : ℕ) → Bool
in_range base size a = leb base a && ltb a (base + size)

-- The range is allocated, and no address out of it has another status than before.
pub record IsCarved (top : ℕ) (v : Vmem) (base size : ℕ) (result : Vmem × ℕ) : Type 0 where
  pub inv : Inv top [] result.0
  pub at : result.1 ≡ base
  pub quantum : result.0.quantum ≡ v.quantum
  pub now :
      (a : ℕ)
      → status a result.0.segments
        ≡ (if in_range base size a then some true else status a v.segments)

module _ (top : ℕ) (v : Vmem) (s : Segment) (inv : Inv top (s.base ∷ []) v)
    (found : find s.base v.segments ≡ some s) where
  abbrev q : ℕ
  q = v.quantum

  place : (s.base ≡ s.base) × (0 ≤ s.base) × (0 < s.size) × (s.base + s.size ≤ top)
  place = find-Ordered 0 v.segments top s.base s inv.ordered found

  seg-Aligned : Aligned q s
  seg-Aligned = All-find (Aligned q) s.base s v.segments found inv.aligned

  pub left_split-IsSplit :
      (addr : ℕ)
      → s.allocated ≡ false
      → s.base ≤ addr
      → addr < s.base + s.size
      → IsMultiple q addr
      → IsSplit top v addr (s.base + s.size) (left_split v s addr)
  unfolding left_split
  left_split-IsSplit addr free le lt mult = elim (Bool-cases (s.base == addr)) [
    | inl here ↦
        let at : s.base ≡ addr = (==_iff s.base addr).0 here in
        rw (here, ← at)
          (record {
            inv = inv;
            found = found;
            base_at = refl;
            end_at = refl;
            flag = free;
            quantum = refl;
            same = λ a. refl;
          })
    | inr there ↦
        let less : s.base < addr = ground (arith, le, there) in
        let g = sub64 addr s.base in
        let gap : g ≡ addr - s.base = omega (arith, le, lt, place, inv.inside) in
        let size' : sub64 s.size g ≡ s.base + s.size - addr =
          omega (arith, le, lt, place, inv.inside, gap) in
        let far = multiples_apart q s.base addr seg-Aligned.0 mult less in
        let big : leb v.quantum g ≡ true = ground (arith, far, gap) in
        let left : Segment = record { base = s.base; size = g; allocated = false } in
        let rest : Segment = record s { base = addr; size = sub64 s.size g } in
        let news = left ∷ rest ∷ [] in
        let within : Ordered s.base news (s.base + s.size) = omega (arith, gap, size', less, lt) in
        let gm : IsMultiple q g = rw gap (IsMultiple-sub q addr s.base le mult seg-Aligned.0) in
        let rm : IsMultiple q (sub64 s.size g) = rw size' (
          IsMultiple-sub q (s.base + s.size) addr (omega (arith, lt))
            (IsMultiple-add q s.base s.size seg-Aligned.0 seg-Aligned.1) mult) in
        let w = record v { segments = replace s.base news v.segments } in
        let winv : Inv top (s.base ∷ addr ∷ []) w =
          replace-Inv top [] v s.base s news inv found within
            ((seg-Aligned.0, gm), ((mult, rm), tt)) in
        let lfound : find s.base w.segments ≡ some left =
          find-replace_new top s.base s news within 0 v.segments s.base left inv.ordered found
            (ground arith) in
        let rfound : find addr w.segments ≡ some rest =
          find-replace_new top s.base s news within 0 v.segments addr rest inv.ordered found
            (ground (arith, there)) in
        rw (there, big)
          (record {
            inv =
                attach_free-Inv top (addr ∷ []) w s.base left lfound refl (ground (arith, there))
                  winv;
            found = rfound;
            base_at = refl;
            end_at = omega (arith, size', lt);
            flag = free;
            quantum = refl;
            same = λ a.
                status-replace top s.base s news within a 0 v.segments inv.ordered found
                ∙ elim (Bool-cases (covers s a)) [
                  | inl on ↦
                      let old = status-find a 0 v.segments top s.base s inv.ordered found on in
                      ground (arith, on, old, free, gap, size', le, lt)
                  | inr off ↦ rw off refl
                ];
          })
  ]

  pub right_split-IsCarved :
      (size : ℕ)
      → s.allocated ≡ false
      → 0 < size
      → size ≤ s.size
      → IsMultiple q size
      → IsCarved top v s.base size (right_split v s size)
  unfolding right_split
  right_split-IsCarved size free pos le mult = elim (Bool-cases (s.size == size)) [
    | inl whole ↦
        let same : s.size ≡ size = (==_iff s.size size).0 whole in
        let taken : Segment = record s { allocated = true } in
        let within : Ordered s.base (taken ∷ []) (s.base + s.size) = omega (arith, place) in
        let w = record v { segments = replace s.base (taken ∷ []) v.segments } in
        let winv : Inv top (s.base ∷ []) w =
          replace-Inv top [] v s.base s (taken ∷ []) inv found within (seg-Aligned, tt) in
        let wfound : find s.base w.segments ≡ some taken =
          find-replace_new top s.base s (taken ∷ []) within 0 v.segments s.base taken inv.ordered
            found (ground arith) in
        rw whole (record {
          inv = attach_allocated-Inv top [] w s.base taken wfound refl refl winv;
          at = refl;
          quantum = refl;
          now = λ a.
              status-replace top s.base s (taken ∷ []) within a 0 v.segments inv.ordered found
              ∙ ground (arith, same);
        })
    | inr part ↦
        let less : size < s.size = ground (arith, le, part) in
        let left_over : sub64 s.size size ≡ s.size - size = omega (arith, le, place, inv.inside) in
        let middle : add64 s.base size ≡ s.base + size = omega (arith, less, place, inv.inside) in
        let far = multiples_apart q size s.size mult seg-Aligned.1 less in
        let big : leb v.quantum (sub64 s.size size) ≡ true = ground (arith, far, left_over) in
        let taken : Segment = record { base = s.base; size = size; allocated = true } in
        let rest : Segment = record {
          base = add64 s.base size;
          size = sub64 s.size size;
          allocated = false;
        } in
        let news = taken ∷ rest ∷ [] in
        let within : Ordered s.base news (s.base + s.size) =
          omega (arith, left_over, middle, less, pos) in
        let bm : IsMultiple q (add64 s.base size) =
          rw middle (IsMultiple-add q s.base size seg-Aligned.0 mult) in
        let rm : IsMultiple q (sub64 s.size size) =
          rw left_over (IsMultiple-sub q s.size size le seg-Aligned.1 mult) in
        let w = record v { segments = replace s.base news v.segments } in
        let winv : Inv top (s.base ∷ rest.base ∷ []) w =
          replace-Inv top [] v s.base s news inv found within
            ((seg-Aligned.0, mult), ((bm, rm), tt)) in
        let other : (s.base == rest.base) ≡ false = ground (arith, middle, pos) in
        let lfound : find s.base w.segments ≡ some taken =
          find-replace_new top s.base s news within 0 v.segments s.base taken inv.ordered found
            (ground arith) in
        let rfound : find rest.base w.segments ≡ some rest =
          find-replace_new top s.base s news within 0 v.segments rest.base rest inv.ordered found
            (ground (arith, other)) in
        let x = record w { tree = s.base ∷ w.tree } in
        let xinv : Inv top (rest.base ∷ []) x =
          attach_allocated-Inv top (rest.base ∷ []) w s.base taken lfound refl
            (ground (arith, other)) winv in
        rw (part, big)
          (record {
            inv = attach_free-Inv top [] x rest.base rest rfound refl refl xinv;
            at = refl;
            quantum = refl;
            now = λ a.
                status-replace top s.base s news within a 0 v.segments inv.ordered found
                ∙ elim (Bool-cases (covers s a)) [
                  | inl on ↦
                      let old = status-find a 0 v.segments top s.base s inv.ordered found on in
                      ground (arith, on, old, free, left_over, middle, less)
                  | inr off ↦ ground (arith, off, less)
                ];
          })
  ]
