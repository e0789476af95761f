-- ===== src/Mem/Buddy.antt =====
-- kernel/src/mem/buddy.c, with the entries of kernel/src/mem/pfndb.h: the allocator of physical
-- pages. Pages are named by their frame numbers, addresses divided by the page size; a block of
-- order k is 2^k pages. A call runs with the lock held.
pub mod Invariant
pub mod Moves
pub mod Split
pub mod Find
pub mod Alloc
pub mod Halves
pub mod Merge
pub mod Free
pub mod Range
use evalyn_os.Base.{
  ℕ, zero, suc, ◌+◌, ◌-◌, ◌*◌, ◌/◌, ◌%◌, ◌^◌, ◌==◌, ltb, leb, if◌then◌else◌, not, ◌&&◌, ◌||◌, Bool,
  true, false, Option, none, some, List, [], ◌∷◌,
}
use evalyn_os.Base.Maps.{update}
use evalyn_os.Mem.Words.{add64, sub64, larger, smaller, align_up, log2ull}
use evalyn_os.Mem.Vmem.{remove}

-- `pagetype_t`
pub data PageType : Type 0 where
  invalid : PageType
  free : PageType
  allocated : PageType
  page_table : PageType

abbrev pub is_free : PageType → Bool
is_free invalid = false
is_free free = true
is_free allocated = false
is_free page_table = false

-- `page_t`, of which `order` is two halves of four bits each; the flags and the count of
-- references are not used here.
pub record Page : Type 0 where
  pub kind : PageType
  pub max_order : ℕ
  pub cur_order : ℕ

-- `pfndb` and `orders`
pub record Buddy : Type 0 where
  pub pages : ℕ → Page
  pub orders : ℕ → List ℕ

-- How a call ends; `panicked` is a panic or a failed assertion.
pub data Outcome (A : Type 0) : Type 0 where
  returned : A → Outcome A
  panicked : Outcome A
  out_of_fuel : Outcome A

-- A free block, in the list of its order: what `buddy_add_block` and the loop of
-- `buddy_allocate` do.
unfoldable pub put_block : Buddy → (page max_order order : ℕ) → Buddy
put_block b page max_order order = record b {
  pages =
      update b.pages page
        (record { kind = free; max_order = max_order % 16; cur_order = order % 16 });
  orders = update b.orders order (page ∷ b.orders order);
}

unfoldable pub add_block : Buddy → (page order : ℕ) → Buddy
unfolding put_block
add_block b page order = put_block b page order order

-- `GET_ORDER`: the trailing zeros of a frame number of 52 bits.
unfoldable pub trailing_zeros : (bits page : ℕ) → ℕ
trailing_zeros zero page = 0
trailing_zeros (suc bits) page =
    let rest = suc (trailing_zeros bits (page / 2)) in if page % 2 == 1 then 0 else rest

unfoldable pub fitting_order : (page end : ℕ) → ℕ
unfolding trailing_zeros log2ull
fitting_order page end = smaller 14 (smaller (log2ull (end - page)) (trailing_zeros 52 page))

-- The loop of `buddy_add_range_nlock`
unfoldable pub add_loop : (fuel : ℕ) → Buddy → (page end : ℕ) → Outcome Buddy
unfolding fitting_order add_block
add_loop zero b page end = out_of_fuel
add_loop (suc fuel) b page end =
    let order = fitting_order page end in
    let rest = add_loop fuel (add_block b page order) (page + 2 ^ order) end in
    if leb end page then returned b else if page == 0 then panicked else rest

-- `buddy_add_range_nlock` of bytes
unfoldable pub add_range : (page_size : ℕ) → Buddy → (start length : ℕ) → Outcome Buddy
add_range page_size b start length =
    let end = add64 start length / page_size in
    let first = align_up start page_size / page_size in
    if leb end first then returned b else add_loop (suc (end - first)) b first end

-- The lowest order from `order` on, of `n`, with a block, and its first block.
unfoldable pub find_order : Buddy → (n order : ℕ) → Option (ℕ × ℕ)
find_order b zero order = none
find_order b (suc n) order = elim (b.orders order) [
  | [] ↦ find_order b n (order + 1)
  | page ∷ rest ↦ some (order, page)
]

-- `llist_pop`
abbrev pub drop_first : List ℕ → List ℕ
drop_first [] = []
drop_first (page ∷ rest) = rest

abbrev pub pop_order : Buddy → (order : ℕ) → Buddy
pop_order b order = record b { orders = update b.orders order (drop_first (b.orders order)) }

-- The loop that splits: `d` orders are left above `order`.
unfoldable pub split_loop : (d : ℕ) → Buddy → (page max_order order : ℕ) → Buddy
unfolding put_block
split_loop zero b page max_order order = b
split_loop (suc d) b page max_order order =
    split_loop d (put_block b (page + 2 ^ (order + d)) max_order (order + d)) page max_order order

-- An entry that is marked as allocated
abbrev pub set_allocated : Buddy → (page cur_order : ℕ) → Buddy
set_allocated b page cur_order = record b {
  pages = update b.pages page (record (b.pages page) { kind = allocated; cur_order = cur_order });
}

-- `buddy_allocate`; frame 0 is a failure.
unfoldable pub allocate : Buddy → (order : ℕ) → (nofail : Bool) → Outcome (Buddy × ℕ)
unfolding find_order split_loop
allocate b order nofail = elim (b.orders order) [
  | page ∷ rest ↦ returned (set_allocated (pop_order b order) page (b.pages page).cur_order, page)
  | [] ↦ elim (find_order b (14 - order) (order + 1)) [
    | none ↦ if nofail then panicked else returned (b, 0)
    | some (found, page) ↦
        let max_order = (b.pages page).max_order in
        let split = split_loop (found - order) (pop_order b found) page max_order order in
        if is_free (split.pages page).kind
        then returned (set_allocated split page (order % 16), page)
        else panicked
  ]
]

-- `paddr ^ GET_ORDER_SIZE(corder)`
abbrev pub buddy_of : (page order : ℕ) → ℕ
buddy_of page order = if page / 2 ^ order % 2 == 0 then page + 2 ^ order else page - 2 ^ order

-- The loop of `buddy_free`: the block that is left, and its order.
unfoldable pub merge_loop : (fuel : ℕ) → Buddy → (page order : ℕ) → Outcome (Buddy × ℕ × ℕ)
merge_loop zero b page order = out_of_fuel
merge_loop (suc fuel) b page order =
    let other = buddy_of page order in
    let entry = b.pages other in
    let b' = record b { orders = update b.orders order (remove other (b.orders order)) } in
    let rest =
      merge_loop fuel (set_allocated b' other entry.cur_order) (smaller other page) (order + 1) in
    if leb (b.pages page).max_order order
    then returned (b, page, order)
    else if not (is_free entry.kind)
    then returned (b, page, order)
    else if not (entry.cur_order == order)
    then returned (b, page, order)
    else rest

-- `buddy_free`; an entry's greatest order is at most 15.
unfoldable pub release : Buddy → (page order : ℕ) → Outcome Buddy
unfolding merge_loop put_block
release b page order = elim (merge_loop 16 b page order) [
  | returned (b', page', order') ↦ returned (put_block b' page' (b'.pages page').max_order order')
  | panicked ↦ panicked
  | out_of_fuel ↦ out_of_fuel
]
