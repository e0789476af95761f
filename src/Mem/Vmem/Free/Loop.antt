-- ===== src/Mem/Vmem/Free/Loop.antt =====
-- A release frees its range, and nothing else.
use mathlib.Core.Path.{subst}
use evalyn_os.Base.{
  ℕ, zero, suc, ◌+◌, ◌-◌, ◌^◌, ◌≤◌, ◌<◌, ◌≡◌, ◌⊎◌, inl, inr, refl, ap, sym, ◌∙◌, ◌==◌, ltb, leb,
  ◌&&◌, true, false, none, some, [], arith, Bool-cases,
}
use evalyn_os.Mem.Words.{add64, smaller, align_up}
use evalyn_os.Mem.Words.Multiples.{IsMultiple, IsMultiple-add, align_up-IsMultiple}
use evalyn_os.Mem.Vmem.{Segment, Vmem}
use evalyn_os.Mem.Vmem.Segments.{covers, status, find-Ordered}
use evalyn_os.Mem.Vmem.Invariant.{All-find, Aligned, Inv}
use evalyn_os.Mem.Vmem.Splits.{status-find, in_range}
use evalyn_os.Mem.Vmem.Free.{returned, find_segment, free_segment, free_loop, vmem_free}
use evalyn_os.Mem.Vmem.Free.Lookup.{find_segment-covers}
use evalyn_os.Mem.Vmem.Free.Freed.{IsFreed, free_segment-IsFreed}

abbrev AllAllocated : Vmem → (lo hi : ℕ) → Type 0
AllAllocated v lo hi = (a : ℕ) → lo ≤ a → a < hi → status a v.segments ≡ some true

-- Address 0 or address 2^64 - 1 lies in no segment, and address 2^64 - 1 in no allocated one.
abbrev pub EndsBelow : Vmem → Type 0
EndsBelow v =
    ((status 0 v.segments ≡ none) ⊎ (status (2 ^ 64 - 1) v.segments ≡ none))
    × (status (2 ^ 64 - 1) v.segments ≡ some true → ⊥)

EndsBelow-IsFreed :
    (top : ℕ) (v w : Vmem) (lo hi : ℕ)
    → EndsBelow v
    → AllAllocated v lo hi
    → IsFreed top v lo hi w
    → EndsBelow w
EndsBelow-IsFreed top v w lo hi (gap, last) all f = (
  elim gap [ inl e ↦ inl (kept 0 e) | inr e ↦ inr (kept (2 ^ 64 - 1) e) ],
  λ e. elim (Bool-cases (leb lo (2 ^ 64 - 1) && ltb (2 ^ 64 - 1) hi)) [
    | inl in' ↦ absurd (ground (arith, in', f.now (2 ^ 64 - 1), e))
    | inr out ↦ last (sym (f.now (2 ^ 64 - 1) ∙ rw out refl) ∙ e)
  ],
)
  where
    kept : (a : ℕ) → status a v.segments ≡ none → status a w.segments ≡ none
    kept a e = elim (Bool-cases (leb lo a && ltb a hi)) [
      | inl in' ↦ absurd (ground (arith, all a (ground (arith, in')) (ground (arith, in')), e))
      | inr out ↦ f.now a ∙ rw out e
    ]

-- A round that frees.
free_loop_lem :
    (fuel : ℕ) (v w : Vmem) (cur end : ℕ) (s : Segment)
    → leb end cur ≡ false
    → find_segment v cur ≡ some s
    → s.allocated ≡ true
    → free_segment v s cur end ≡ some w
    → free_loop (suc fuel) v cur end ≡ free_loop fuel w (smaller (add64 s.base s.size) end) end
unfolding free_loop
free_loop_lem fuel v w cur end s more e al f = rw (more, free_loop, e, al, f) refl

module _ (top : ℕ) (v : Vmem) (cur end : ℕ) (inv : Inv top [] v) (ends : EndsBelow v)
    (all : AllAllocated v cur end) (mc : IsMultiple v.quantum cur) (me : IsMultiple v.quantum end)
    (small : end < 2 ^ 64) where
  -- A round of the loop frees up to `stop`.
  free_round :
      (fuel : ℕ)
      → leb end cur ≡ false
      → (w : Vmem) × (stop : ℕ) × (free_loop (suc fuel) v cur end ≡ free_loop fuel w stop end)
        × IsFreed top v cur stop w
        × IsMultiple v.quantum stop
        × (cur < stop)
        × (stop ≤ end)
  free_round fuel more =
      let here = all cur (omega arith) (ground (arith, more)) in
      let (s, e, found, m, on, al) =
        find_segment-covers top v cur inv (ground (arith, more, small)) here in
      let place = find-Ordered 0 v.segments top s.base s inv.ordered found in
      let low : s.base + s.size < 2 ^ 64 = elim (Bool-cases (covers s (2 ^ 64 - 1))) [
        | inl tail ↦ absurd (
            ends.1 (
              status-find (2 ^ 64 - 1) 0 v.segments top s.base s inv.ordered found tail
              ∙ ap some al))
        | inr off ↦ ground (arith, off, place, inv.inside)
      ] in
      let am = All-find (Aligned v.quantum) s.base s v.segments found inv.aligned in
      let (w, f, freed) =
        free_segment-IsFreed top v inv s found m al cur end on (ground (arith, more)) mc me low
          ends.0 in
      (
        w,
        smaller (add64 s.base s.size) end,
        free_loop_lem fuel v w cur end s more e al f,
        freed,
        stop_IsMultiple s low am,
        ground (arith, on, low, more),
        ground arith,
      )
    where
      stop_IsMultiple :
          (s : Segment)
          → s.base + s.size < 2 ^ 64
          → Aligned v.quantum s
          → IsMultiple v.quantum (smaller (add64 s.base s.size) end)
      stop_IsMultiple s low am = elim (Bool-cases (ltb (add64 s.base s.size) end)) [
        | inl part ↦
            let at : add64 s.base s.size ≡ s.base + s.size = omega (arith, low) in
            rw (part, at) (IsMultiple-add v.quantum s.base s.size am.0 am.1)
        | inr rest ↦ rw rest me
      ]

  module _ (stop : ℕ) (w : Vmem) (freed : IsFreed top v cur stop w) (far : cur < stop)
      (stop_at : stop ≤ end) where
    AllAllocated-IsFreed : AllAllocated w stop end
    AllAllocated-IsFreed a le lt =
        let before = all a (omega (arith, le, far)) lt in
        let out : (leb cur a && ltb a stop) ≡ false = ground (arith, le) in
        freed.now a ∙ rw out before

    IsFreed-concat : (x : Vmem) → IsFreed top w stop end x → IsFreed top v cur end x
    IsFreed-concat x later = record {
      inv = later.inv;
      quantum = later.quantum ∙ freed.quantum;
      now = λ a. later.now a ∙ ground (arith, freed.now a, far, stop_at);
    }

  EndsBelow-round : (stop : ℕ) (w : Vmem) → IsFreed top v cur stop w → stop ≤ end → EndsBelow w
  EndsBelow-round stop w freed stop_at =
      EndsBelow-IsFreed top v w cur stop ends (λ a le lt. all a le (omega (arith, lt, stop_at)))
        freed

free_loop_over :
    (fuel : ℕ) (v : Vmem) (cur end : ℕ)
    → leb end cur ≡ true
    → free_loop (suc fuel) v cur end ≡ returned v
unfolding free_loop
free_loop_over fuel v cur end over = rw over refl

free_loop-IsFreed :
    (top fuel : ℕ) (v : Vmem) (cur end : ℕ)
    → Inv top [] v
    → EndsBelow v
    → AllAllocated v cur end
    → IsMultiple v.quantum cur
    → IsMultiple v.quantum end
    → end < 2 ^ 64
    → cur ≤ end
    → end < cur + fuel
    → (w : Vmem) × (free_loop fuel v cur end ≡ returned w) × IsFreed top v cur end w
free_loop-IsFreed top zero v cur end inv ends all mc me small le enough =
    absurd (omega (arith, le, enough))
free_loop-IsFreed top (suc fuel) v cur end inv ends all mc me small le enough =
    elim (Bool-cases (leb end cur)) [
      | inl over ↦ (
        v,
        free_loop_over fuel v cur end over,
        record { inv = inv; quantum = refl; now = λ a. ground (arith, over) },
      )
      | inr more ↦
          let (w, stop, e, freed, ms, far, stop_at) =
            free_round top v cur end inv ends all mc me small fuel more in
          let (x, g, later) =
            free_loop-IsFreed top fuel w stop end freed.inv
              (EndsBelow-round top v cur end inv ends all mc me small stop w freed stop_at)
              (AllAllocated-IsFreed top v cur end inv ends all mc me small stop w freed far stop_at)
              (subst (λ q. IsMultiple q stop) (sym freed.quantum) ms)
              (subst (λ q. IsMultiple q end) (sym freed.quantum) me) small stop_at
              (omega (arith, enough, far)) in
          (
            x,
            e ∙ g,
            IsFreed-concat top v cur end inv ends all mc me small stop w freed far stop_at x later,
          )
    ]

-- In a well-formed allocator where address 0 or address 2^64 - 1 lies in no segment, and address
-- 2^64 - 1 in no allocated one, vmem_free of a rounded range that ends below 2^64 and is wholly
-- allocated, in one segment or in several, returns, with no failed assertion: the range is free,
-- no other address has another status than before, and the allocator is well formed.
pub vmem_free-IsFreed :
    (top : ℕ) (v : Vmem) (addr size : ℕ)
    → Inv top [] v
    → EndsBelow v
    → align_up addr v.quantum + align_up size v.quantum < 2 ^ 64
    → ((a : ℕ)
        → in_range (align_up addr v.quantum) (align_up size v.quantum) a ≡ true
        → status a v.segments ≡ some true)
    → (w : Vmem) × (vmem_free v addr size ≡ returned w)
      × IsFreed top v
          (align_up addr v.quantum)
          (align_up addr v.quantum + align_up size v.quantum)
          w
unfolding vmem_free
vmem_free-IsFreed top v addr size inv ends small all =
    let n = align_up size v.quantum in
    let start = align_up addr v.quantum in
    elim (Bool-cases (n == 0)) [
      | inl nothing ↦
          rw nothing
            (v, refl, record { inv = inv; quantum = refl; now = λ a. ground (arith, nothing) })
      | inr some' ↦
          let plain : add64 start n ≡ start + n = omega (arith, small) in
          let ms = align_up-IsMultiple v.quantum addr in
          rw (some', plain)
            (free_loop-IsFreed top (suc n) v start (start + n) inv ends
              (λ a le lt. all a (ground (arith, le, lt))) ms
              (IsMultiple-add v.quantum start n ms (align_up-IsMultiple v.quantum size)) small
              (omega arith) (omega arith))
    ]
