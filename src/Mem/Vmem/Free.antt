-- ===== src/Mem/Vmem/Free.antt =====
-- kernel/src/mem/vmem.c: the search for the segment of an address, and the release of a range.
pub mod Lookup
pub mod Merge
pub mod Cuts
pub mod Joins
pub mod Freed
pub mod Loop
pub mod RoundTrip
use evalyn_os.Base.{
  ℕ, zero, suc, ◌^◌, ◌==◌, ltb, leb, if◌then◌else◌, not, ◌&&◌, ◌||◌, Bool, true, false, Option,
  none, some, List, [], ◌∷◌,
}
use evalyn_os.Mem.Words.{add64, sub64, larger, smaller, align_up, log2ull}
use evalyn_os.Mem.Vmem.{Segment, Vmem, find, replace, remove, flist_add, flist_del}

-- `rbtree_search` with `RB_SEARCH_TYPE_NEAREST_LTE`
abbrev pub nearest : (addr : ℕ) → List ℕ → Option ℕ
nearest addr [] = none
nearest addr (b ∷ tree) =
    let rest = nearest addr tree in
    if leb b addr then some (elim rest [ none ↦ b | some c ↦ larger c b ]) else rest

unfoldable pub find_segment : Vmem → (addr : ℕ) → Option Segment
find_segment v addr = elim (nearest addr v.tree) [
  | none ↦ none
  | some b ↦ elim (find b v.segments) [
    | none ↦ none
    | some seg ↦ if ltb addr seg.base || leb seg.size (sub64 addr seg.base) then none else some seg
  ]
]

-- `segment_list_node.prev` and `segment_list_node.next`
abbrev pub starts : (b : ℕ) → List Segment → Bool
starts b [] = false
starts b (s ∷ rest) = s.base == b

abbrev pub prev_of : (b : ℕ) → List Segment → Option Segment
prev_of b [] = none
prev_of b (p ∷ rest) = let later = prev_of b rest in if starts b rest then some p else later

abbrev pub first : List Segment → Option Segment
first [] = none
first (s ∷ rest) = some s

abbrev pub next_of : (b : ℕ) → List Segment → Option Segment
next_of b [] = none
next_of b (s ∷ rest) = let later = next_of b rest in if s.base == b then first rest else later

-- The part below `cur_addr` stays allocated.
unfoldable pub cut_left : Vmem → Segment → (cur_addr : ℕ) → Vmem × Segment
cut_left v seg cur_addr =
    let left : Segment = record {
      base = seg.base;
      size = sub64 cur_addr seg.base;
      allocated = true;
    } in
    let rest : Segment = record seg { base = cur_addr; size = sub64 seg.size left.size } in
    if ltb seg.base cur_addr
    then (
      record v {
        segments = replace seg.base (left ∷ rest ∷ []) v.segments;
        tree = left.base ∷ v.tree;
      },
      rest,
    )
    else (v, seg)

-- The part from `end_addr` on stays allocated.
unfoldable pub cut_right : Vmem → Segment → (seg_end end_addr : ℕ) → Vmem × Segment
cut_right v seg seg_end end_addr =
    let right : Segment = record {
      base = end_addr;
      size = sub64 seg_end end_addr;
      allocated = true;
    } in
    let rest : Segment = record seg { size = sub64 end_addr seg.base } in
    if ltb end_addr seg_end
    then (
      record v {
        segments = replace seg.base (rest ∷ right ∷ []) v.segments;
        tree = right.base ∷ v.tree;
      },
      rest,
    )
    else (v, seg)

-- `seg->allocated = false`
unfoldable pub mark_free : Vmem → Segment → Vmem × Segment
mark_free v seg =
    let freed : Segment = record seg { allocated = false } in
    (record v { segments = replace seg.base (freed ∷ []) v.segments }, freed)

-- A neighbour leaves its list and the list of segments, and the segment takes its extent.
unfoldable pub absorb : Vmem → (seg gone wide : Segment) → Vmem
unfolding flist_del
absorb v seg gone wide =
    let w = flist_del v gone.base (log2ull gone.size) in
    record w { segments = replace seg.base (wide ∷ []) (replace gone.base [] w.segments) }

unfoldable pub left_coalesce : Vmem → Segment → Vmem × Segment
unfolding absorb
left_coalesce v seg = elim (prev_of seg.base v.segments) [
  | none ↦ (v, seg)
  | some prev ↦
      let wide : Segment = record seg { base = prev.base; size = add64 seg.size prev.size } in
      if not prev.allocated && (add64 prev.base prev.size == seg.base)
      then (absorb v seg prev wide, wide)
      else (v, seg)
]

unfoldable pub right_coalesce : Vmem → Segment → Vmem × Segment
unfolding absorb
right_coalesce v seg = elim (next_of seg.base v.segments) [
  | none ↦ (v, seg)
  | some next ↦
      let wide : Segment = record seg { size = add64 seg.size next.size } in
      if not next.allocated && (add64 seg.base seg.size == next.base)
      then (absorb v seg next wide, wide)
      else (v, seg)
]

-- The body of the loop for an allocated segment, up to the assertion: `none` where it fails.
unfoldable pub free_segment : Vmem → Segment → (cur_addr end_addr : ℕ) → Option Vmem
unfolding cut_left cut_right mark_free left_coalesce right_coalesce flist_add
free_segment v seg cur_addr end_addr =
    let seg_end = add64 seg.base seg.size in
    let left = cut_left (record v { tree = remove seg.base v.tree }) seg cur_addr in
    let right = cut_right left.0 left.1 seg_end end_addr in
    let free = mark_free right.0 right.1 in
    let lower = left_coalesce free.0 free.1 in
    let upper = right_coalesce lower.0 lower.1 in
    if upper.1.size == 0 then none else some (flist_add upper.0 upper.1.base (log2ull upper.1.size))

-- How a call of `vmem_free` ends.
pub data Outcome : Type 0 where
  returned : Vmem → Outcome
  failed : Outcome
  out_of_fuel : Outcome

unfoldable pub free_loop : (fuel : ℕ) → Vmem → (cur_addr end_addr : ℕ) → Outcome
free_loop zero v cur_addr end_addr = out_of_fuel
free_loop (suc fuel) v cur_addr end_addr =
    if leb end_addr cur_addr then returned v else elim (find_segment v cur_addr) [
      | none ↦ returned v
      | some seg ↦
          let seg_end = add64 seg.base seg.size in
          elim seg.allocated [
            | false ↦ free_loop fuel v seg_end end_addr
            | true ↦ elim (free_segment v seg cur_addr end_addr) [
              | none ↦ failed
              | some w ↦ free_loop fuel w (smaller seg_end end_addr) end_addr
            ]
          ]
    ]

-- Every round that frees moves `cur_addr` up, so that one more round than bytes is enough.
unfoldable pub vmem_free : Vmem → (addr size : ℕ) → Outcome
vmem_free v addr size =
    let size = align_up size v.quantum in
    let addr = align_up addr v.quantum in
    if size == 0 then returned v else free_loop (suc size) v addr (add64 addr size)
