-- ===== src/Mem/Vmem/Complete.antt =====
-- An allocation at any address fails only where no free segment is large enough.
use evalyn_os.Base.{
  ℕ, ◌+◌, ◌-◌, ◌%◌, ◌^◌, ◌≤◌, ◌<◌, ◌≡◌, inl, inr, refl, ap, sym, ◌∙◌, ◌==◌, ==_iff, true, false,
  none, some, List, [], ◌∷◌, arith, Bool-cases, Option-cases, dec_lt,
}
use evalyn_os.Base.Powers.{lt_of_pow-lt}
use evalyn_os.Base.Distinct.{has}
use evalyn_os.Mem.Words.{is_aligned, smaller, align_up, log2ull, log2ullceil}
use evalyn_os.Mem.Vmem.Alloc.{IsAllocation, vmem_alloc-fit_alloc}
use evalyn_os.Mem.Vmem.Segments.{find-Ordered}
use evalyn_os.Mem.Vmem.Invariant.{Aligned, All-find, IsListed, Inv}
use evalyn_os.Mem.Words.Multiples.{IsMultiple-sub, align_up_same, align_up-lt}
use evalyn_os.Mem.Vmem.{
  Segment, Vmem, find, is_empty, scan_list, scan_lists, first_set, fit_alloc, vmem_alloc,
}
use evalyn_os.Mem.Vmem.Scans.{scan_list-none, scan_lists-none, first_set-below, try_segment-none}
use evalyn_os.Mem.Words.Logarithms.{log2ull-bounds, class_below, above_one}

module _ (top : ℕ) (v : Vmem) (inv : Inv top [] v) (n b : ℕ) (s : Segment)
    (found : find b v.segments ≡ some s) (free : s.allocated ≡ false)
    (small : s.size < 2 ^ 64) where
  class : ℕ
  class = log2ull s.size

  listed : has s.base (v.freelists class) ≡ true
  unfolding class
  listed = All-find (IsListed [] v.freelists) b s v.segments found inv.listed free refl

  place : (s.base ≡ b) × (0 ≤ b) × (0 < s.size) × (b + s.size ≤ top)
  place = find-Ordered 0 v.segments top b s inv.ordered found

  own : find s.base v.segments ≡ some s
  own = ap (λ c. find c v.segments) place.0 ∙ found

  too_small : scan_list v n 0 (2 ^ 64 - 1) class (v.freelists class) ≡ none → s.size < n
  too_small e =
      try_segment-none v.quantum n s inv.divides inv.positive
        (All-find (Aligned v.quantum) b s v.segments found inv.aligned).0
        (omega (arith, place, inv.inside))
        (scan_list-none v n 0 (2 ^ 64 - 1) class (v.freelists class) s.base s e listed own)

  class_lt : class < 64
  unfolding class
  class_lt = lt_of_pow-lt class 64 (omega (arith, log2ull-bounds s.size place.2 small))

  -- The list of the class is not empty, so that its bit is set.
  bit_set : v.bitmap class ≡ true
  bit_set = inv.bits class ∙ ground (arith, not_empty (v.freelists class) listed)
    where
      not_empty : (xs : List ℕ) → has s.base xs ≡ true → is_empty xs ≡ false
      not_empty [] h = ground (arith, h)
      not_empty (x ∷ xs) h = refl

  below_index :
      (index : ℕ)
      → index ≤ log2ullceil n
      → 0 < n
      → n < 2 ^ 64
      → class < index
      → scan_list v n 0 (2 ^ 64 - 1) (index - 1) (v.freelists (index - 1)) ≡ none
      → s.size < n
  unfolding class
  below_index index le pos lt less e = elim (Bool-cases (class == index - 1)) [
    | inl at ↦ too_small (
        ap (λ i. scan_list v n 0 (2 ^ 64 - 1) i (v.freelists i)) ((==_iff class (index - 1)).0 at)
        ∙ e)
    | inr off ↦
        class_below s.size n place.2 small (above_one n (omega (arith, le, less))) lt
          (ground (arith, off, less, le))
  ]

  pub fit_alloc-none : 0 < n → n < 2 ^ 64 → fit_alloc v n 0 ≡ none → s.size < n
  unfolding fit_alloc
  fit_alloc-none pos lt e =
      let index = smaller (log2ullceil n) 63 in
      let start = first_set v.bitmap (64 - index) index in
      let q = v.quantum in
      let max = 2 ^ 64 - 1 in
      let zero_at : align_up 0 q ≡ 0 =
        align_up_same q inv.divides inv.positive 0
          (IsMultiple-sub q (2 ^ 64) (2 ^ 64) (omega arith) inv.divides inv.divides)
          (omega arith) in
      let m = align_up 0 q in
      let at_zero : (i : ℕ)
          → scan_list v n m max i (v.freelists i) ≡ none
          → scan_list v n 0 max i (v.freelists i) ≡ none =
        λ i h. ap (λ x. scan_list v n x max i (v.freelists i)) (sym zero_at) ∙ h in
      elim (Option-cases (scan_lists v n m max (64 - start) start)) [
        | inr (f, is) ↦ absurd (let e' = rw (is, fit_alloc) at e in ground (arith, e'))
        | inl nothing ↦ elim (dec_lt class start) [
          | no from ↦ too_small (
              at_zero class (
                scan_lists-none v n m max (64 - start) start class nothing (omega (arith, from))
                  (omega (arith, class_lt))))
          | yes under ↦ elim (dec_lt class index) [
            | no within ↦
                let off =
                  first_set-below v.bitmap (64 - index) index class (omega (arith, within)) under in
                absurd (ground (arith, off, bit_set))
            | yes less ↦
                let e' = rw (nothing, fit_alloc) at e in
                let some' : (index == 0) ≡ false = ground (arith, less) in
                below_index index (ground arith) pos lt less (at_zero (index - 1) (rw some' at e'))
          ]
        ]
      ]

-- In a well-formed allocator with a free segment of less than 2^64 bytes that is at least as large
-- as the size rounded up, which is not 0, an allocation at any address does not fail: it returns a
-- range as vmem_alloc-IsAllocation says.
pub vmem_alloc_succeeds :
    (top : ℕ) (v : Vmem) (size b : ℕ) (s : Segment)
    → Inv top [] v
    → 0 < align_up size v.quantum
    → find b v.segments ≡ some s
    → s.allocated ≡ false
    → s.size < 2 ^ 64
    → align_up size v.quantum ≤ s.size
    → (r : Vmem × ℕ) × ((vmem_alloc v size 0 ≡ some r)
        × IsAllocation top v (align_up size v.quantum) 0 r)
vmem_alloc_succeeds top v size b s inv pos found free small le =
    let n = align_up size v.quantum in
    let aligned : is_aligned 0 v.quantum ≡ true =
      (==_iff (0 % v.quantum) 0).1
        (IsMultiple-sub v.quantum (2 ^ 64) (2 ^ 64) (omega arith) inv.divides inv.divides) in
    elim (Option-cases (fit_alloc v n 0)) [
      | inl nothing ↦ absurd (
          omega (
            arith,
            le,
            fit_alloc-none top v inv n b s found free small pos (align_up-lt v.quantum size)
                nothing,
          ))
      | inr (fit, e) ↦
          vmem_alloc-fit_alloc top v size 0 fit inv (omega arith) pos (inl refl) aligned e
    ]
