-- ===== src/Mem/Vmem/Init.antt =====
-- A new allocator: its one segment is free.
use evalyn_os.Base.{
  ℕ, ◌+◌, ◌^◌, ◌≤◌, ◌<◌, ◌≡◌, refl, if◌then◌else◌, false, none, some, [], ◌∷◌, arith,
}
use evalyn_os.Mem.Words.Multiples.{IsMultiple}
use evalyn_os.Mem.Vmem.{Segment, Vmem, allocator_init, insert_sorted, add_segment}
use evalyn_os.Mem.Vmem.Segments.{status}
use evalyn_os.Mem.Vmem.Invariant.{Inv}
use evalyn_os.Mem.Vmem.Attach.{attach_free-Inv}
use evalyn_os.Mem.Vmem.Splits.{in_range}

module _ (base size q top : ℕ) where
  -- Before the segment is in a list.
  detached : Vmem
  detached = record {
    quantum = q;
    bitmap = λ i. false;
    freelists = λ i. [];
    segments = (let s : Segment = record { base = base; size = size; allocated = false } in s) ∷ [];
    tree = [];
  }

  detached-Inv :
      0 < size
      → base + size ≤ top
      → top ≤ 2 ^ 64
      → IsMultiple q (2 ^ 64)
      → 0 < q
      → IsMultiple q base
      → IsMultiple q size
      → Inv top (base ∷ []) detached
  unfolding detached
  detached-Inv sp fits inside div pos mb ms = record {
    ordered = omega (arith, sp, fits);
    inside = inside;
    divides = div;
    positive = pos;
    aligned = ((mb, ms), tt);
    names_free = λ i c h. ground (arith, h);
    class_of = λ i c u h. ground (arith, h);
    lists_distinct = λ i. tt;
    listed = (λ f o. ground (arith, o), tt);
    bits = λ i. refl;
    names_allocated = λ c h. ground (arith, h);
    tree_distinct = tt;
    in_tree = (λ f. ground (arith, f), tt);
  }

  -- A new allocator of a range that is not empty and ends by 2^64, whose bounds are multiples of a
  -- quantum that divides 2^64, is well formed, and exactly the addresses of its range are free.
  pub allocator_init-Inv :
      0 < size
      → base + size ≤ top
      → top ≤ 2 ^ 64
      → IsMultiple q (2 ^ 64)
      → 0 < q
      → IsMultiple q base
      → IsMultiple q size
      → Inv top [] (allocator_init base size q)
        × ((a : ℕ)
            → status a (allocator_init base size q).segments
              ≡ (if in_range base size a then some false else none))
  unfolding allocator_init add_segment insert_sorted detached
  allocator_init-Inv sp fits inside div pos mb ms =
      let s : Segment = record { base = base; size = size; allocated = false } in
      (
        attach_free-Inv top [] detached base s (ground arith) refl refl
            (detached-Inv sp fits inside div pos mb ms),
        λ a. refl,
      )
