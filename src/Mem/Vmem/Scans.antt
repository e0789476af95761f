-- ===== src/Mem/Vmem/Scans.antt =====
-- What a scan of the free lists in vain shows.
use evalyn_os.Base.{
  ℕ, zero, suc, ◌+◌, ◌-◌, ◌^◌, ◌≤◌, ◌<◌, ◌≡◌, inl, inr, ap, sym, ◌∙◌, ◌==◌, ==_iff, Bool, true,
  false, none, some, List, [], ◌∷◌, arith, Bool-cases, Option-cases,
}
use evalyn_os.Base.Distinct.{has}
use evalyn_os.Mem.Words.{larger, align_up}
use evalyn_os.Mem.Words.Multiples.{IsMultiple, align_up_same}
use evalyn_os.Mem.Vmem.{Segment, Vmem, find, try_segment, scan_list, scan_lists, first_set}

-- Nothing in a list that was scanned in vain fits.
module _ (v : Vmem) (size min max : ℕ) where
  pub scan_list-none :
      (i : ℕ) (xs : List ℕ) (b : ℕ) (s : Segment)
      → scan_list v size min max i xs ≡ none
      → has b xs ≡ true
      → find b v.segments ≡ some s
      → try_segment v.quantum size min max s ≡ none
  unfolding scan_list
  scan_list-none i [] b s e m f = absurd (ground (arith, m))
  scan_list-none i (x ∷ xs) b s e m f = elim (Option-cases (find x v.segments)) [
    | inl lost ↦ elim (Bool-cases (b == x)) [
      | inl at ↦
          absurd (ground (arith, sym f ∙ ap (λ c. find c v.segments) ((==_iff b x).0 at) ∙ lost))
      | inr off ↦ scan_list-none i xs b s (rw (lost, scan_list) at e) (ground (arith, m, off)) f
    ]
    | inr (t, g) ↦
        let e' = rw (g, scan_list) at e in
        elim (Option-cases (try_segment v.quantum size min max t)) [
          | inl no_fit ↦ elim (Bool-cases (b == x)) [
            | inl at ↦
                let same : some s ≡ some t =
                  sym f ∙ ap (λ c. find c v.segments) ((==_iff b x).0 at) ∙ g in
                ap (λ o. elim o [ none ↦ none | some u ↦ try_segment v.quantum size min max u ])
                  same
                ∙ no_fit
            | inr off ↦ scan_list-none i xs b s (rw no_fit at e') (ground (arith, m, off)) f
          ]
          | inr (a, fits) ↦ absurd (let e'' = rw fits at e' in ground (arith, e''))
        ]
  ]

  pub scan_lists-none :
      (n i j : ℕ)
      → scan_lists v size min max n i ≡ none
      → i ≤ j
      → j < i + n
      → scan_list v size min max j (v.freelists j) ≡ none
  unfolding scan_lists
  scan_lists-none zero i j e le lt = absurd (omega (arith, le, lt))
  scan_lists-none (suc n) i j e le lt =
      elim (Option-cases (scan_list v size min max i (v.freelists i))) [
        | inr (fit, found) ↦ absurd (let e' = rw (found, scan_lists) at e in ground (arith, e'))
        | inl nothing ↦
            let e' = rw (nothing, scan_lists) at e in
            elim (Bool-cases (i == j)) [
              | inl at ↦
                  ap (λ k. scan_list v size min max k (v.freelists k)) (sym ((==_iff i j).0 at))
                  ∙ nothing
              | inr off ↦
                  scan_lists-none n (i + 1) j e' (ground (arith, le, off)) (omega (arith, lt))
            ]
      ]

-- No bit below the first one is set.
pub first_set-below :
    (bitmap : ℕ → Bool) (n i j : ℕ) → i ≤ j → j < first_set bitmap n i → bitmap j ≡ false
unfolding first_set
first_set-below bitmap zero i j le lt = absurd (omega (arith, le, lt))
first_set-below bitmap (suc n) i j le lt = elim (Bool-cases (bitmap i)) [
  | inl on ↦ absurd (ground (arith, on, le, lt))
  | inr off ↦
      let lt' : j < first_set bitmap n (i + 1) = ground (arith, off, lt) in
      elim (Bool-cases (i == j)) [
        | inl at ↦ ap bitmap (sym ((==_iff i j).0 at)) ∙ off
        | inr other ↦ first_set-below bitmap n (i + 1) j (ground (arith, le, other)) lt'
      ]
]

-- At any address, a segment does not fit only if it is too small.
pub try_segment-none :
    (q size : ℕ) (s : Segment)
    → IsMultiple q (2 ^ 64)
    → 0 < q
    → IsMultiple q s.base
    → s.base < 2 ^ 64
    → try_segment q size 0 (2 ^ 64 - 1) s ≡ none
    → s.size < size
unfolding try_segment
try_segment-none q size s div pos mb small e =
    let larger_at : larger 0 s.base ≡ s.base = ground arith in
    let at : align_up (larger 0 s.base) q ≡ s.base =
      rw larger_at (align_up_same q div pos s.base mb small) in
    ground (arith, e, at, small)
