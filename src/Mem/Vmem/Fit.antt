-- ===== src/Mem/Vmem/Fit.antt =====
-- What the search for a fit finds.
use evalyn_os.Base.{
  ℕ, zero, suc, ◌+◌, ◌-◌, ◌^◌, ◌≤◌, ◌<◌, ◌≡◌, ◌⊎◌, inl, inr, ◌∙◌, ◌==◌, ltb, if◌then◌else◌, true,
  some, List, [], ◌∷◌, arith, Bool-cases, Option-cases,
}
use evalyn_os.Base.Distinct.{has}
use evalyn_os.Mem.Words.{add64, larger, smaller, align_up, log2ullceil}
use evalyn_os.Mem.Words.Multiples.{IsMultiple, align_up_same}
use evalyn_os.Mem.Vmem.{
  Segment, Vmem, find, FitAlloc, try_segment, scan_list, scan_lists, first_set, fit_alloc,
}

-- A segment of the list that is tried with success.
pub record IsFit (v : Vmem) (size min max : ℕ) (fit : FitAlloc) : Type 0 where
  pub b : ℕ
  pub listed : has b (v.freelists fit.flist_idx) ≡ true
  pub found : find b v.segments ≡ some fit.seg
  pub tried : try_segment v.quantum size min max fit.seg ≡ some fit.addr

module _ (v : Vmem) (size min max : ℕ) where
  scan_list-IsFit :
      (i : ℕ) (xs : List ℕ) (fit : FitAlloc)
      → scan_list v size min max i xs ≡ some fit
      → ((b : ℕ) → has b xs ≡ true → has b (v.freelists i) ≡ true)
      → IsFit v size min max fit
  unfolding scan_list
  scan_list-IsFit i [] fit e sub = absurd (ground (arith, e))
  scan_list-IsFit i (b ∷ xs) fit e sub = elim (Option-cases (find b v.segments)) [
    | inl lost ↦
        scan_list-IsFit i xs fit (rw (lost, scan_list) at e) (λ c m. sub c (ground (arith, m)))
    | inr (s, f) ↦
        let e' = rw (f, scan_list) at e in
        elim (Option-cases (try_segment v.quantum size min max s)) [
          | inl no' ↦ scan_list-IsFit i xs fit (rw no' at e') (λ c m. sub c (ground (arith, m)))
          | inr (a, t) ↦ done s a f t (rw t at e')
        ]
  ]
    where
      done :
          (s : Segment) (a : ℕ)
          → find b v.segments ≡ some s
          → try_segment v.quantum size min max s ≡ some a
          → some (let f : FitAlloc = record { addr = a; flist_idx = i; seg = s } in f) ≡ some fit
          → IsFit v size min max fit
      done s a f t e =
          let eq : (let f : FitAlloc = record { addr = a; flist_idx = i; seg = s } in f) ≡ fit =
            grind (arith, e) in
          let whole : IsFit v size min max (record { addr = a; flist_idx = i; seg = s }) = record {
            b = b;
            listed = sub b (ground arith);
            found = f;
            tried = t;
          } in
          rw (← eq) whole

  scan_lists-IsFit :
      (n i : ℕ) (fit : FitAlloc)
      → scan_lists v size min max n i ≡ some fit
      → IsFit v size min max fit
  unfolding scan_lists
  scan_lists-IsFit zero i fit e = absurd (ground (arith, e))
  scan_lists-IsFit (suc n) i fit e =
      elim (Option-cases (scan_list v size min max i (v.freelists i))) [
        | inl no' ↦ scan_lists-IsFit n (i + 1) fit (rw (no', scan_lists) at e)
        | inr (f, t) ↦
            scan_list-IsFit i (v.freelists i) fit (t ∙ (rw (t, scan_lists) at e)) (λ b m. m)
      ]

-- The limit of `fit_alloc`.
abbrev pub limit : (size addr quantum : ℕ) → ℕ
limit size addr quantum = if addr == 0 then 2 ^ 64 - 1 else align_up (add64 addr size) quantum

pub fit_alloc-IsFit :
    (v : Vmem) (size addr : ℕ) (fit : FitAlloc)
    → fit_alloc v size addr ≡ some fit
    → IsFit v size (align_up addr v.quantum) (limit size addr v.quantum) fit
unfolding fit_alloc
fit_alloc-IsFit v size addr fit e =
    let min = align_up addr v.quantum in
    let max = limit size addr v.quantum in
    let index = smaller (log2ullceil size) 63 in
    let start = first_set v.bitmap (64 - index) index in
    elim (Option-cases (scan_lists v size min max (64 - start) start)) [
      | inr (f, t) ↦
          scan_lists-IsFit v size min max (64 - start) start fit (t ∙ (rw (t, fit_alloc) at e))
      | inl no' ↦
          let e' = rw (no', fit_alloc) at e in
          elim (Bool-cases (index == 0)) [
            | inl low ↦ absurd (let e'' = rw low at e' in ground (arith, e''))
            | inr high ↦
                scan_list-IsFit v size min max (index - 1) (v.freelists (index - 1)) fit
                  (rw high at e') (λ b m. m)
          ]
    ]

-- Where a segment fits, its start is the later of its base and the least address asked for, and the
-- size is left behind it.
pub try_segment_lem :
    (q size min max : ℕ) (s : Segment) (a : ℕ)
    → IsMultiple q (2 ^ 64)
    → 0 < q
    → IsMultiple q min
    → IsMultiple q s.base
    → min < 2 ^ 64
    → 0 < s.size
    → s.base + s.size ≤ 2 ^ 64
    → try_segment q size min max s ≡ some a
    → (a ≡ larger min s.base)
      × (a + size ≤ s.base + s.size)
      × ((max == 2 ^ 64 - 1) ≡ true ⊎ add64 a size ≤ max)
unfolding try_segment
try_segment_lem q size min max s a div pos hm hb lt some' inside e =
    let big : larger min s.base < 2 ^ 64 = ground (arith, lt, inside) in
    let mult : IsMultiple q (larger min s.base) = elim (Bool-cases (ltb s.base min)) [
      | inl left ↦ rw left hm
      | inr right ↦ rw right hb
    ] in
    let same = align_up_same q div pos (larger min s.base) mult big in ground (arith, same, e)
