-- ===== src/Tests/Mem.antt =====
-- The allocator of virtual addresses on a small range.
use mathlib.Core.Path.{ap₂, subst}
use evalyn_os.Base.{
  ℕ, ◌+◌, ◌<◌, ◌≡◌, ◌⊎◌, inl, inr, refl, ap, sym, ◌∙◌, if◌then◌else◌, false, Option, none, some,
  List, [], arith, ◌-◌, ◌^◌,
}
use evalyn_os.Mem.Words.{align_up, log2ull, log2ullceil, high_bit}
use evalyn_os.Mem.Vmem.{
  Segment, Vmem, find, allocator_init, add_segment, insert_sorted, flist_add, flist_del, fit_alloc,
  scan_lists, scan_list, try_segment, first_set, left_split, right_split, vmem_alloc,
}
use evalyn_os.Mem.Vmem.Segments.{status, status_outside}
use evalyn_os.Mem.Vmem.Invariant.{Inv}
use evalyn_os.Mem.Vmem.Splits.{in_range}
use evalyn_os.Mem.Vmem.Alloc.{IsAllocation, vmem_alloc-IsAllocation}
use evalyn_os.Mem.Vmem.Complete.{vmem_alloc_succeeds}
use evalyn_os.Mem.Vmem.Init.{allocator_init-Inv}
use evalyn_os.Mem.Vmem.Free.{returned, vmem_free}
use evalyn_os.Mem.Vmem.Free.Freed.{IsFreed}
use evalyn_os.Mem.Vmem.Free.Loop.{EndsBelow, vmem_free-IsFreed}
use evalyn_os.Mem.Vmem.Free.RoundTrip.{vmem_free-vmem_alloc}

abbrev small_space : Vmem
small_space = allocator_init 4096 65536 4096

abbrev segments_of : Option (Vmem × ℕ) → List Segment
segments_of none = []
segments_of (some r) = r.0.segments

abbrev address_of : Option (Vmem × ℕ) → ℕ
address_of none = 0
address_of (some r) = r.1

fixed_place : address_of (vmem_alloc small_space 5000 16384) ≡ 16384
unfolding vmem_alloc left_split right_split flist_del flist_add fit_alloc scan_lists scan_list
    try_segment first_set align_up log2ull log2ullceil high_bit allocator_init add_segment
    insert_sorted
fixed_place = refl

small_space-Inv : Inv 69632 [] small_space
small_space-Inv =
    (allocator_init-Inv 4096 65536 4096 69632 (omega arith) (omega arith) (omega arith) refl
      (omega arith) refl refl).0

allocator_init-Inv_example :
    Inv 69632 [] (allocator_init 4096 65536 4096)
    × ((a : ℕ)
        → status a (allocator_init 4096 65536 4096).segments
          ≡ (if in_range 4096 65536 a then some false else none))
allocator_init-Inv_example =
    allocator_init-Inv 4096 65536 4096 69632 (omega arith) (omega arith) (omega arith) refl
      (omega arith) refl refl

small_space-positive : 0 < align_up 5000 4096
unfolding align_up
small_space-positive = omega arith

vmem_alloc-IsAllocation_example :
    (r : Vmem × ℕ) × ((vmem_alloc small_space 5000 16384 ≡ some r)
      × ((r ≡ (small_space, 0)) ⊎ IsAllocation 69632 small_space (align_up 5000 4096) 16384 r))
unfolding allocator_init
vmem_alloc-IsAllocation_example =
    vmem_alloc-IsAllocation 69632 small_space 5000 16384 small_space-Inv (omega arith)
      small_space-positive (inr (inl (omega arith)))

abbrev space_of : Option (Vmem × ℕ) → Vmem
space_of none = small_space
space_of (some r) = r.0

-- Two pages are allocated at 16384.
abbrev taken : Vmem
taken = space_of (vmem_alloc small_space 5000 16384)

taken-IsAllocation : IsAllocation 69632 small_space (align_up 5000 4096) 16384 (taken, 16384)
unfolding allocator_init
taken-IsAllocation =
    let (r, (e, how)) =
      vmem_alloc-IsAllocation 69632 small_space 5000 16384 small_space-Inv (omega arith)
        small_space-positive (inr (inl (omega arith))) in
    let at : 16384 ≡ r.1 = sym fixed_place ∙ ap address_of e in
    elim how [
      | inl nothing ↦ absurd (ground (arith, at, ap (λ p. p.1) nothing))
      | inr is ↦
          subst (IsAllocation 69632 small_space (align_up 5000 4096) 16384)
            (ap₂ (λ w a. (w, a)) (sym (ap space_of e)) (sym at)) is
    ]

taken_alloc : vmem_alloc small_space 5000 16384 ≡ some (taken, 16384)
unfolding vmem_alloc left_split right_split flist_del flist_add fit_alloc scan_lists scan_list
    try_segment first_set align_up log2ull log2ullceil high_bit allocator_init add_segment
    insert_sorted
taken_alloc = refl

vmem_free-vmem_alloc_example :
    (x : Vmem) × (vmem_free taken 16384 5000 ≡ returned x)
    × Inv 69632 [] x
    × ((b : ℕ) → status b x.segments ≡ status b small_space.segments)
unfolding allocator_init
vmem_free-vmem_alloc_example =
    vmem_free-vmem_alloc 69632 small_space taken 5000 16384 16384 small_space-Inv (omega arith)
      (omega arith) small_space-positive taken_alloc (λ e. ground (arith, e))

taken_ends : EndsBelow taken
taken_ends =
    let is = taken-IsAllocation in
    let tail : status (2 ^ 64 - 1) taken.segments ≡ none =
      status_outside 0 taken.segments 69632 (2 ^ 64 - 1) is.inv.ordered (inr (omega arith)) in
    (inr tail, λ t. ground (arith, t, tail))

taken_places : (align_up 5000 taken.quantum ≡ 8192) × (align_up 16384 taken.quantum ≡ 16384)
unfolding vmem_alloc left_split right_split flist_del flist_add fit_alloc scan_lists scan_list
    try_segment first_set align_up log2ull log2ullceil high_bit allocator_init add_segment
    insert_sorted
taken_places = (refl, refl)

vmem_free-IsFreed_example :
    (w : Vmem) × (vmem_free taken 16384 5000 ≡ returned w)
    × IsFreed 69632 taken
        (align_up 16384 taken.quantum)
        (align_up 16384 taken.quantum + align_up 5000 taken.quantum)
        w
unfolding align_up
vmem_free-IsFreed_example =
    vmem_free-IsFreed 69632 taken 16384 5000 taken-IsAllocation.inv taken_ends
      (omega (arith, taken_places))
      (λ a i. taken-IsAllocation.now a ∙ ground (arith, i, taken_places))

-- A request for the page below the last one, where only the last is free: an assertion fails.
past_tail : vmem_alloc (allocator_init (2 ^ 64 - 4096) 4096 4096) 4096 (2 ^ 64 - 8192) ≡ none
unfolding vmem_alloc left_split right_split flist_del flist_add fit_alloc scan_lists scan_list
    try_segment first_set align_up log2ull log2ullceil high_bit allocator_init add_segment
    insert_sorted
past_tail = refl

whole_free :
    find 4096 small_space.segments ≡ some (record { base = 4096; size = 65536; allocated = false })
unfolding allocator_init add_segment insert_sorted
whole_free = refl

vmem_alloc_succeeds_example :
    (r : Vmem × ℕ) × ((vmem_alloc small_space 5000 0 ≡ some r)
      × IsAllocation 69632 small_space (align_up 5000 4096) 0 r)
unfolding allocator_init align_up
vmem_alloc_succeeds_example =
    vmem_alloc_succeeds 69632 small_space 5000 4096
      (record { base = 4096; size = 65536; allocated = false }) small_space-Inv small_space-positive
      whole_free refl (omega arith) (omega arith)
