-- ===== src/Mem/Vmem/Alloc.antt =====
-- An allocation takes a free range, and nothing else.
use evalyn_os.Base.{
  ℕ, ◌+◌, ◌-◌, ◌%◌, ◌^◌, ◌≤◌, ◌<◌, ◌≡◌, ◌⊎◌, inl, inr, refl, ap, sym, ◌∙◌, ◌==◌, ==_iff, ltb,
  if◌then◌else◌, not, ◌&&◌, true, false, none, some, [], ◌∷◌, arith, Bool-cases, Option-cases,
}
use mathlib.Core.Path.{subst}
use evalyn_os.Base.Distinct.{has}
use evalyn_os.Mem.Words.{add64, align_up, larger, is_aligned}
use evalyn_os.Mem.Words.Multiples.{
  IsMultiple, IsMultiple-add, IsMultiple-mod, align_up-IsMultiple, align_up-lt, align_up_same,
}
use evalyn_os.Mem.Vmem.{
  Segment, Vmem, FitAlloc, find, fit_alloc, try_segment, flist_del, left_split, right_split,
  vmem_alloc,
}
use evalyn_os.Mem.Vmem.Segments.{status, find-Ordered}
use evalyn_os.Mem.Vmem.Fit.{IsFit, limit, fit_alloc-IsFit, try_segment_lem}
use evalyn_os.Mem.Vmem.Invariant.{Aligned, All-find, Inv}
use evalyn_os.Mem.Vmem.Detach.{detach_free-Inv}
use evalyn_os.Mem.Vmem.Splits.{in_range, status-find, left_split-IsSplit, right_split-IsCarved}

-- What a successful allocation of `size` bytes gives.
pub record IsAllocation (top : ℕ) (v : Vmem) (size addr : ℕ) (result : Vmem × ℕ) : Type 0 where
  pub inv : Inv top [] result.0
  pub quantum : result.0.quantum ≡ v.quantum
  pub multiple : IsMultiple v.quantum result.1
  pub asked : (addr ≡ 0) ⊎ (result.1 ≡ addr)
  pub was_free : (a : ℕ) → in_range result.1 size a ≡ true → status a v.segments ≡ some false
  pub now :
      (a : ℕ)
      → status a result.0.segments
        ≡ (if in_range result.1 size a then some true else status a v.segments)

module _ (top : ℕ) (v : Vmem) (inv : Inv top [] v) (size addr : ℕ)
    (mult : IsMultiple v.quantum addr) (small : addr < 2 ^ 64) (sm : IsMultiple v.quantum size)
    (sp : 0 < size) (sl : size < 2 ^ 64)
    (range : (addr ≡ 0) ⊎ ((top < 2 ^ 64) ⊎ (find (2 ^ 64 - size) v.segments ≡ none)))
    (fit : FitAlloc)
    (is : IsFit v size (align_up addr v.quantum) (limit size addr v.quantum) fit) where
  place : (fit.seg.base ≡ is.b) × (0 ≤ is.b) × (0 < fit.seg.size) × (is.b + fit.seg.size ≤ top)
  place = find-Ordered 0 v.segments top is.b fit.seg inv.ordered is.found

  own : find fit.seg.base v.segments ≡ some fit.seg
  own = ap (λ c. find c v.segments) place.0 ∙ is.found

  listed : has fit.seg.base (v.freelists fit.flist_idx) ≡ true
  listed = ap (λ c. has c (v.freelists fit.flist_idx)) place.0 ∙ is.listed

  free : fit.seg.allocated ≡ false
  free =
      let (o, (u, f, a)) = inv.names_free fit.flist_idx is.b is.listed in
      let e : some u ≡ some fit.seg = sym f ∙ is.found in ground (arith, e, a)

  aligned : Aligned v.quantum fit.seg
  aligned = All-find (Aligned v.quantum) is.b fit.seg v.segments is.found inv.aligned

  min_at : align_up addr v.quantum ≡ addr
  min_at = align_up_same v.quantum inv.divides inv.positive addr mult small

  fits :
      (fit.addr ≡ larger addr fit.seg.base)
      × (fit.addr + size ≤ fit.seg.base + fit.seg.size)
      × ((limit size addr v.quantum == 2 ^ 64 - 1) ≡ true
          ⊎ add64 fit.addr size ≤ limit size addr v.quantum)
  fits =
      let max = limit size addr v.quantum in
      try_segment_lem v.quantum size addr max fit.seg fit.addr inv.divides inv.positive mult
        aligned.0 small (omega (arith, place)) (omega (arith, place, inv.inside))
        (ap (λ m. try_segment v.quantum size m max fit.seg) (sym min_at) ∙ is.tried)

  limit_at : (addr == 0) ≡ false → limit size addr v.quantum ≡ (addr + size) % 2 ^ 64
  limit_at nz = rw nz (
      align_up_same v.quantum inv.divides inv.positive (add64 addr size)
        (IsMultiple-mod v.quantum inv.divides inv.positive (addr + size)
          (IsMultiple-add v.quantum addr size mult sm))
        (omega arith))

  at_asked : (addr == 0) ≡ false → fit.addr ≡ addr
  at_asked nz = elim range [
    | inl z ↦ absurd (ground (arith, z, nz))
    | inr (inl below) ↦ ground (arith, fits, limit_at nz, place, below, nz, sl, small)
    | inr (inr no_tail) ↦ elim (Bool-cases (fit.seg.base == 2 ^ 64 - size)) [
      | inl tail ↦
          let at : find (2 ^ 64 - size) v.segments ≡ some fit.seg =
            ap (λ b. find b v.segments) (sym ((==_iff fit.seg.base (2 ^ 64 - size)).0 tail))
            ∙ own in
          absurd (ground (arith, at, no_tail))
      | inr off ↦ ground (arith, fits, limit_at nz, place, inv.inside, off, nz, sl, small)
    ]
  ]

  start_IsMultiple : IsMultiple v.quantum fit.addr
  start_IsMultiple = elim (Bool-cases (ltb fit.seg.base addr)) [
    | inl left ↦ ap (λ x. x % v.quantum) (ground (arith, fits.0, left)) ∙ mult
    | inr right ↦ ap (λ x. x % v.quantum) (ground (arith, fits.0, right)) ∙ aligned.0
  ]

  -- The range is carved out of the segment found.
  carved : IsAllocation top v size addr (
      let r : Vmem × Segment =
        left_split (flist_del v fit.seg.base fit.flist_idx) fit.seg fit.addr in
      right_split r.0 r.1 size)
  unfolding flist_del
  carved =
      let w = flist_del v fit.seg.base fit.flist_idx in
      let winv : Inv top (fit.seg.base ∷ []) w =
        detach_free-Inv top [] v fit.seg.base inv fit.flist_idx listed in
      let le : fit.seg.base ≤ fit.addr = ground (arith, fits.0) in
      let lt : fit.addr < fit.seg.base + fit.seg.size = omega (arith, fits.1, sp) in
      let one = left_split-IsSplit top w fit.seg winv own fit.addr free le lt start_IsMultiple in
      let r = left_split w fit.seg fit.addr in
      let at = one.base_at in
      let inv' : Inv top (r.1.base ∷ []) r.0 = subst (λ b. Inv top (b ∷ []) r.0) (sym at) one.inv in
      let found : find r.1.base r.0.segments ≡ some r.1 =
        ap (λ b. find b r.0.segments) at ∙ one.found in
      let two =
        right_split-IsCarved top r.0 r.1 inv' found size one.flag sp
          (omega (arith, one.end_at, fits.1))
          (subst (λ k. IsMultiple k size) (sym one.quantum) sm) in
      record {
        inv = two.inv;
        quantum = two.quantum ∙ one.quantum;
        multiple = ap (λ x. x % v.quantum) (two.at ∙ at) ∙ start_IsMultiple;
        asked = elim (Bool-cases (addr == 0)) [
          | inl z ↦ inl ((==_iff addr 0).0 z)
          | inr nz ↦ inr (two.at ∙ at ∙ at_asked nz)
        ];
        was_free = λ a i.
            let i' : in_range fit.addr size a ≡ true =
              ap (λ x. in_range x size a) (sym (two.at ∙ at)) ∙ i in
            status-find a 0 v.segments top fit.seg.base fit.seg inv.ordered own
              (ground (arith, i', le, fits.1))
            ∙ ap some free;
        now = λ a.
            two.now a
            ∙ ap (λ x. if in_range x size a then some true else status a r.0.segments) (sym two.at)
            ∙ ap (λ x. if in_range (right_split r.0 r.1 size).1 size a then some true else x)
                (one.same a);
      }

-- Where a segment fits, it is allocated from.
pub vmem_alloc-fit_alloc :
    (top : ℕ) (v : Vmem) (size addr : ℕ) (fit : FitAlloc)
    → Inv top [] v
    → addr < 2 ^ 64
    → 0 < align_up size v.quantum
    → (addr ≡ 0) ⊎ ((top < 2 ^ 64) ⊎ (find (2 ^ 64 - align_up size v.quantum) v.segments ≡ none))
    → is_aligned addr v.quantum ≡ true
    → fit_alloc v (align_up size v.quantum) addr ≡ some fit
    → (r : Vmem × ℕ) × ((vmem_alloc v size addr ≡ some r)
        × IsAllocation top v (align_up size v.quantum) addr r)
unfolding vmem_alloc
vmem_alloc-fit_alloc top v size addr fit inv small sp range on e =
    let n = align_up size v.quantum in
    let mult : IsMultiple v.quantum addr = (==_iff (addr % v.quantum) 0).0 on in
    let sm = align_up-IsMultiple v.quantum size in
    let sl = align_up-lt v.quantum size in
    let is = fit_alloc-IsFit v n addr fit e in
    let f = fits top v inv n addr mult small sm sp sl range fit is in
    let fixed : (not (addr == 0) && not (fit.addr == addr)) ≡ false =
      elim (Bool-cases (addr == 0)) [
        | inl z ↦ ground (arith, z)
        | inr nz ↦ ground (arith, nz, at_asked top v inv n addr mult small sm sp sl range fit is nz)
      ] in
    let large : ltb fit.seg.size n ≡ false = ground (arith, f) in
    rw (on, e, vmem_alloc, fixed, large)
      (_, (refl, carved top v inv n addr mult small sm sp sl range fit is))

-- In a well-formed allocator, for an address below 2^64 and a size that rounds to more than 0
-- bytes, where the address is 0, or the space ends below 2^64, or no segment begins the rounded
-- size below 2^64, no assertion of vmem_alloc fails: it returns 0 and changes nothing, or it
-- returns a multiple of the quantum, the address asked for if there was one, of a range that was
-- free and now is allocated, no other address has another status than before, and the allocator is
-- well formed.
pub vmem_alloc-IsAllocation :
    (top : ℕ) (v : Vmem) (size addr : ℕ)
    → Inv top [] v
    → addr < 2 ^ 64
    → 0 < align_up size v.quantum
    → (addr ≡ 0) ⊎ ((top < 2 ^ 64) ⊎ (find (2 ^ 64 - align_up size v.quantum) v.segments ≡ none))
    → (r : Vmem × ℕ) × ((vmem_alloc v size addr ≡ some r)
        × ((r ≡ (v, 0)) ⊎ IsAllocation top v (align_up size v.quantum) addr r))
unfolding vmem_alloc
vmem_alloc-IsAllocation top v size addr inv small sp range =
    elim (Bool-cases (is_aligned addr v.quantum)) [
      | inr off ↦ rw off ((v, 0), (refl, inl refl))
      | inl on ↦ elim (Option-cases (fit_alloc v (align_up size v.quantum) addr)) [
        | inl no_fit ↦ rw (on, no_fit, vmem_alloc) ((v, 0), (refl, inl refl))
        | inr (fit, e) ↦
            let (r, (f, is)) = vmem_alloc-fit_alloc top v size addr fit inv small sp range on e in
            (r, (f, inr is))
      ]
    ]
