-- ===== src/Mem/Vmem/Free/RoundTrip.antt =====
-- A release undoes an allocation.
use mathlib.Core.Path.{ap₂, subst}
use evalyn_os.Base.{
  ℕ, ◌+◌, ◌-◌, ◌^◌, ◌≤◌, ◌<◌, ◌≡◌, ◌≢◌, inl, inr, refl, ap, sym, ◌∙◌, ltb, leb, if◌then◌else◌, ◌&&◌,
  false, none, some, [], arith, Bool-cases,
}
use evalyn_os.Mem.Words.{align_up}
use evalyn_os.Mem.Words.Multiples.{align_up_same}
use evalyn_os.Mem.Vmem.{Vmem, vmem_alloc}
use evalyn_os.Mem.Vmem.Segments.{status, status_outside}
use evalyn_os.Mem.Vmem.Invariant.{Inv}
use evalyn_os.Mem.Vmem.Splits.{in_range}
use evalyn_os.Mem.Vmem.Alloc.{IsAllocation, vmem_alloc-IsAllocation}
use evalyn_os.Mem.Vmem.Free.{returned, vmem_free}
use evalyn_os.Mem.Vmem.Free.Loop.{vmem_free-IsFreed}

module _ (top : ℕ) (v w : Vmem) (size addr a : ℕ) (small : top < 2 ^ 64)
    (sp : 0 < align_up size v.quantum)
    (is : IsAllocation top v (align_up size v.quantum) addr (w, a)) (inv : Inv top [] v) where
  last_in : a + align_up size v.quantum ≤ top
  last_in = elim (Bool-cases (ltb top (a + align_up size v.quantum))) [
    | inl over ↦
        let n = align_up size v.quantum in
        let out =
          status_outside 0 v.segments top (a + n - 1) inv.ordered (inr (ground (arith, over))) in
        absurd (ground (arith, out, is.was_free (a + n - 1) (ground (arith, sp))))
    | inr within ↦ ground (arith, within)
  ]

  undone :
      (x : Vmem) × (vmem_free w a size ≡ returned x)
      × Inv top [] x
      × ((b : ℕ) → status b x.segments ≡ status b v.segments)
  undone =
      let n = align_up size v.quantum in
      let within = last_in in
      let tail : status (2 ^ 64 - 1) w.segments ≡ none =
        status_outside 0 w.segments top (2 ^ 64 - 1) is.inv.ordered (inr (omega (arith, small))) in
      let n_at : align_up size w.quantum ≡ n = ap (align_up size) is.quantum in
      let a_at : align_up a w.quantum ≡ a =
        ap (align_up a) is.quantum
        ∙ align_up_same v.quantum inv.divides inv.positive a is.multiple
            (omega (arith, within, small, sp)) in
      let (x, e, freed) =
        vmem_free-IsFreed top w a size is.inv (inr tail, λ t. ground (arith, t, tail))
          (omega (arith, n_at, a_at, within, small))
          (λ b i. is.now b ∙ ground (arith, n_at, a_at, i)) in
      (
        x,
        e,
        freed.inv,
        λ b. freed.now b ∙ elim (Bool-cases (in_range a n b)) [
          | inl in' ↦
              ap₂ (λ p l. if leb p b && ltb b (p + l) then some false else status b w.segments) a_at
                n_at
              ∙ rw in' (sym (is.was_free b in'))
          | inr out ↦
              ap₂ (λ p l. if leb p b && ltb b (p + l) then some false else status b w.segments) a_at
                n_at
              ∙ rw out (is.now b ∙ rw out refl)
        ],
      )

option-inj : {x y : Vmem × ℕ} → some x ≡ some y → x ≡ y
option-inj {x} {y} e = ap (λ o. elim o [ none ↦ x | some z ↦ z ]) e

-- In a well-formed allocator whose space ends below 2^64, for an address below 2^64 and a size
-- that rounds to more than 0 bytes, a release of what an allocation gave, an address other than 0,
-- returns and gives every address the status that it had before the allocation.
pub vmem_free-vmem_alloc :
    (top : ℕ) (v w : Vmem) (size addr a : ℕ)
    → Inv top [] v
    → top < 2 ^ 64
    → addr < 2 ^ 64
    → 0 < align_up size v.quantum
    → vmem_alloc v size addr ≡ some (w, a)
    → a ≢ 0
    → (x : Vmem) × (vmem_free w a size ≡ returned x)
      × Inv top [] x
      × ((b : ℕ) → status b x.segments ≡ status b v.segments)
vmem_free-vmem_alloc top v w size addr a inv small sa sp e nz =
    let (r, (f, how)) = vmem_alloc-IsAllocation top v size addr inv sa sp (inr (inl small)) in
    let same : r ≡ (w, a) = option-inj (sym f ∙ e) in
    elim how [
      | inl nothing ↦ absurd (nz (ap (λ p. p.1) (sym same ∙ nothing)))
      | inr is ↦
          undone top v w size addr a small sp
            (subst (IsAllocation top v (align_up size v.quantum) addr) same is) inv
    ]
