-- ===== src/Mem/Vmem.antt =====
-- kernel/src/mem/vmem.c: the allocator of ranges of virtual addresses. A segment is named by its
-- base, which no operation changes while a list or the tree holds the segment; the fields of the
-- tree's nodes are not modelled, and a search in it is for the greatest base that is at most the
-- address, as kernel/src/utils/dstruct/rbtree.c finds it. A call runs with the lock held.
pub mod Fit
pub mod Segments
pub mod Replace
pub mod Invariant
pub mod Attach
pub mod Detach
pub mod Splits
pub mod Alloc
pub mod Init
pub mod Scans
pub mod Complete
pub mod Free
use evalyn_os.Base.{
  ℕ, zero, suc, ◌+◌, ◌-◌, ◌*◌, ◌%◌, ◌^◌, ◌==◌, ltb, leb, if◌then◌else◌, not, ◌&&◌, ◌||◌, Bool, true,
  false, Option, none, some, List, [], ◌∷◌, ◌++◌,
}
use evalyn_os.Base.Maps.{update}
use evalyn_os.Mem.Words.{add64, sub64, larger, smaller, align_up, is_aligned, log2ull, log2ullceil}

-- `vmem_segment_t`
pub record Segment : Type 0 where
  pub base : ℕ
  pub size : ℕ
  pub allocated : Bool

-- `vmem_allocator_t`: the bitmap by its bits, a free list and the tree by the bases of their segments.
pub record Vmem : Type 0 where
  pub quantum : ℕ
  pub bitmap : ℕ → Bool
  pub freelists : ℕ → List ℕ
  pub segments : List Segment
  pub tree : List ℕ

-- The segment that a pointer is to.
abbrev pub find : ℕ → List Segment → Option Segment
find b [] = none
find b (s ∷ rest) = if s.base == b then some s else find b rest

-- Other segments in the place of one: `llist_node_prepend` and `llist_node_append` beside it, with
-- the new values of its fields.
abbrev pub replace : ℕ → List Segment → List Segment → List Segment
replace b news [] = []
replace b news (s ∷ rest) = if s.base == b then news ++ rest else s ∷ replace b news rest

abbrev pub remove : ℕ → List ℕ → List ℕ
remove b [] = []
remove b (x ∷ xs) = if x == b then xs else x ∷ remove b xs

abbrev pub is_empty : List ℕ → Bool
is_empty [] = true
is_empty (x ∷ xs) = false

unfoldable pub flist_add : Vmem → (b index : ℕ) → Vmem
flist_add v b index = record v {
  freelists = update v.freelists index (b ∷ v.freelists index);
  bitmap = update v.bitmap index true;
}

unfoldable pub flist_del : Vmem → (b index : ℕ) → Vmem
flist_del v b index =
    let rest = remove b (v.freelists index) in
    record v {
      freelists = update v.freelists index rest;
      bitmap = if is_empty rest then update v.bitmap index false else v.bitmap;
    }

-- The loop of `vmem_add_segment` finds the first segment above, and the new one goes before it.
unfoldable pub insert_sorted : Segment → List Segment → List Segment
insert_sorted seg [] = seg ∷ []
insert_sorted seg (s ∷ rest) =
    if ltb seg.base s.base then seg ∷ s ∷ rest else s ∷ insert_sorted seg rest

unfoldable pub add_segment : Vmem → (base size : ℕ) → Vmem
unfolding flist_add insert_sorted
add_segment v base size =
    let seg : Segment = record { base = base; size = size; allocated = false } in
    flist_add (record v { segments = insert_sorted seg v.segments }) base (log2ull size)

unfoldable pub allocator_init : (base size quantum : ℕ) → Vmem
unfolding add_segment
allocator_init base size quantum =
    let empty : Vmem = record {
      quantum = quantum;
      bitmap = λ i. false;
      freelists = λ i. [];
      segments = [];
      tree = [];
    } in
    add_segment empty base size

-- `struct fit_alloc_ret`, where it is not `FIT_ALLOC_FAIL`
pub record FitAlloc : Type 0 where
  pub addr : ℕ
  pub flist_idx : ℕ
  pub seg : Segment

-- The body of the loops of `fit_alloc`: `alloc_start`, or `none` for `continue`.
unfoldable pub try_segment : (quantum size min max : ℕ) → Segment → Option ℕ
try_segment quantum size min max seg =
    let alloc_start = align_up (larger min seg.base) quantum in
    if ltb seg.size size
    then none
    else if ltb (seg.size - size) (sub64 alloc_start seg.base)
    then none
    else if not (max == 2 ^ 64 - 1) && ltb max (add64 alloc_start size)
    then none
    else some alloc_start

-- `LLIST_FOR_EACH(alloc->freelists[i], cnode)`
unfoldable pub scan_list : Vmem → (size min max i : ℕ) → List ℕ → Option FitAlloc
unfolding try_segment
scan_list v size min max i [] = none
scan_list v size min max i (b ∷ rest) = elim (find b v.segments) [
  | none ↦ scan_list v size min max i rest
  | some seg ↦ elim (try_segment v.quantum size min max seg) [
    | none ↦ scan_list v size min max i rest
    | some addr ↦ some (record { addr = addr; flist_idx = i; seg = seg })
  ]
]

-- The free lists from `i` on, `n` of them.
unfoldable pub scan_lists : Vmem → (size min max n i : ℕ) → Option FitAlloc
unfolding scan_list
scan_lists v size min max zero i = none
scan_lists v size min max (suc n) i = elim (scan_list v size min max i (v.freelists i)) [
  | some fit ↦ some fit
  | none ↦ scan_lists v size min max n (i + 1)
]

-- `COUNT_TRAILING_ZEROS` of the bitmap from bit `i` on, with `n` bits left: 64 if none is set.
unfoldable pub first_set : (bitmap : ℕ → Bool) → (n i : ℕ) → ℕ
first_set bitmap zero i = i
first_set bitmap (suc n) i = let rest = first_set bitmap n (i + 1) in if bitmap i then i else rest

unfoldable pub fit_alloc : Vmem → (size addr : ℕ) → Option FitAlloc
unfolding scan_lists first_set
fit_alloc v size addr =
    let min = align_up addr v.quantum in
    let max = if addr == 0 then 2 ^ 64 - 1 else align_up (add64 addr size) v.quantum in
    let index = smaller (log2ullceil size) 63 in
    let start = first_set v.bitmap (64 - index) index in
    elim (scan_lists v size min max (64 - start) start) [
      | some fit ↦ some fit
      | none ↦
          if index == 0
          then none
          else scan_list v size min max (index - 1) (v.freelists (index - 1))
    ]

unfoldable pub left_split : Vmem → Segment → (addr : ℕ) → Vmem × Segment
unfolding flist_add
left_split v seg addr =
    let gap = sub64 addr seg.base in
    let left : Segment = record { base = seg.base; size = gap; allocated = false } in
    let rest : Segment = record seg { base = addr; size = sub64 seg.size gap } in
    if not (seg.base == addr) && leb v.quantum gap
    then (
      flist_add (record v { segments = replace seg.base (left ∷ rest ∷ []) v.segments }) seg.base
          (log2ull gap),
      rest,
    )
    else (v, seg)

unfoldable pub right_split : Vmem → Segment → (size : ℕ) → Vmem × ℕ
unfolding flist_add
right_split v seg size =
    let left : Segment = record { base = seg.base; size = size; allocated = true } in
    let rest : Segment = record {
      base = add64 seg.base size;
      size = sub64 seg.size size;
      allocated = false;
    } in
    if not (seg.size == size) && leb v.quantum (sub64 seg.size size)
    then (
      flist_add
          (record v {
            segments = replace seg.base (left ∷ rest ∷ []) v.segments;
            tree = seg.base ∷ v.tree;
          })
          rest.base (log2ull rest.size),
      seg.base,
    )
    else (
      record v {
        segments = replace seg.base (record seg { allocated = true } ∷ []) v.segments;
        tree = seg.base ∷ v.tree;
      },
      seg.base,
    )

-- `none` is a failed assertion.
unfoldable pub vmem_alloc : Vmem → (size addr : ℕ) → Option (Vmem × ℕ)
unfolding flist_del left_split right_split
vmem_alloc v size addr =
    let size = align_up size v.quantum in
    if not (is_aligned addr v.quantum) then some (v, 0) else elim (fit_alloc v size addr) [
      | none ↦ some (v, 0)
      | some fit ↦
          if not (addr == 0) && not (fit.addr == addr)
          then none
          else if ltb fit.seg.size size
          then none
          else let (w, seg) =
              left_split (flist_del v fit.seg.base fit.flist_idx) fit.seg fit.addr in
            some (right_split w seg size)
    ]
