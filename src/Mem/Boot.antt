-- ===== src/Mem/Boot.antt =====
-- kernel/src/mem/balloc.c, and buddy_init of kernel/src/mem/buddy.c: memory is given out page by
-- page from the boot loader's map, and what is left goes to the page allocator. An entry of the
-- map has its base, its length, and whether its type is LIMINE_MEMMAP_USABLE.
pub mod Map
pub mod Step
pub mod Pages
pub mod Left
pub mod Init
use evalyn_os.Base.{ℕ, ◌+◌, ◌-◌, ◌*◌, ◌/◌, ◌==◌, leb, if◌then◌else◌, not, Bool, List, [], ◌∷◌}
use evalyn_os.Mem.Words.{add64, sub64, larger, align_up}
use evalyn_os.Mem.Buddy.{Buddy, Outcome, returned, panicked, out_of_fuel, add_range}

-- `struct limine_memmap_entry`, as far as it is used
pub record Entry : Type 0 where
  pub usable : Bool
  pub base : ℕ
  pub length : ℕ

-- `balloc_entry`, `balloc_offset` and `balloc_last_addr`: an index is the entries from it on.
pub record Boot : Type 0 where
  pub rest : List Entry
  pub offset : ℕ
  pub last : ℕ

-- `ALIGN_DOWN`, whose mask is this at a power of two.
abbrev pub align_down : (x align : ℕ) → ℕ
align_down x align = x / align * align

abbrev pub aligned_start : (page_size low : ℕ) → Entry → ℕ
aligned_start page_size low e = larger (align_up e.base page_size) low

abbrev pub aligned_end : (page_size : ℕ) → Entry → ℕ
aligned_end page_size e = align_down (add64 e.base e.length) page_size

-- The loop of `balloc_alloc_page`, at these entries and this offset.
unfoldable pub alloc_from : (page_size : ℕ) → List Entry → (offset : ℕ) → Outcome (Boot × ℕ)
alloc_from page_size [] offset = panicked
alloc_from page_size (e ∷ es) offset =
    let next = alloc_from page_size es 0 in
    let start = aligned_start page_size 1048576 e in
    let offset' = if offset == 0 then sub64 start e.base else offset in
    let page = add64 e.base offset' in
    if not e.usable
    then next
    else if leb (add64 page page_size) (aligned_end page_size e)
    then returned (record { rest = e ∷ es; offset = add64 offset' page_size; last = page }, page)
    else next

unfoldable pub balloc_alloc_page : (page_size : ℕ) → Boot → Outcome (Boot × ℕ)
unfolding alloc_from
balloc_alloc_page page_size s = alloc_from page_size s.rest s.offset

-- `buddy_init`, after the last page that balloc gave out.
unfoldable pub buddy_init : (page_size last : ℕ) → List Entry → Buddy → Outcome Buddy
buddy_init page_size last [] b = returned b
buddy_init page_size last (e ∷ es) b =
    let start = aligned_start page_size (add64 last page_size) e in
    let skipped = buddy_init page_size last es b in
    let added : Outcome Buddy =
      elim (add_range page_size b start (sub64 (aligned_end page_size e) start)) [
        | returned b' ↦ buddy_init page_size last es b'
        | panicked ↦ panicked
        | out_of_fuel ↦ out_of_fuel
      ] in
    if not e.usable then skipped else added
