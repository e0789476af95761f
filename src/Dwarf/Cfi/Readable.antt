-- ===== src/Dwarf/Cfi/Readable.antt =====
-- `dwarf_vaddr_readable`: an access that it allows touches mapped pages only.
use evalyn_os.Base.{
  ℕ, ◌+◌, ◌-◌, ◌*◌, ◌/◌, ◌%◌, ◌^◌, ◌≤◌, ◌<◌, ◌≡◌, ◌≢◌, ◌⊎◌, inl, inr, true, arith, dec_lt, ◌∙◌, sym,
}
use native.Mathlib.Nat.{div-eq_of_lt-le, div-add-mod', mod-lt}
use evalyn_os.Dwarf.Cfi.{vaddr_readable}

quotient : (page q t : ℕ) → t < page → (q * page + t) / page ≡ q
quotient page q t h = div-eq_of_lt-le page (omega arith) (omega arith)

module _ (page v size d : ℕ) (some_page : 0 < page) (short : size ≤ page) (inside : d < size) where
  abbrev q : ℕ
  q = v / page

  abbrev r : ℕ
  r = v % page

  parts : q * page + r ≡ v
  parts = div-add-mod' v page

  -- A byte of the access lies in the page of its first byte, or else in the page of its last one.
  one_of_two :
      ((v + d) / page ≡ v / page)
      ⊎ ((page < v % page + size) × ((v + d) / page ≡ (v + size - 1) / page))
  one_of_two = elim (dec_lt (r + d) page) [
    | yes lt ↦
        let e : v + d ≡ q * page + (r + d) = omega (arith, parts) in
        inl (rw e (quotient page q (r + d) lt))
    | no ge ↦
        let small : r < page = mod-lt v some_page in
        let e : v + d ≡ (q + 1) * page + (r + d - page) = omega (arith, parts) in
        let e' : v + size - 1 ≡ (q + 1) * page + (r + size - 1 - page) = omega (arith, parts) in
        inr (
          omega arith,
          rw (e, e')
              (quotient page (q + 1) _ (omega arith) ∙ sym (quotient page (q + 1) _ (omega arith))),
        )
  ]

module _ (page_table page_size : ℕ) (get_paddr memory : ℕ → ℕ) where
  readable-cases :
      (vaddr size : ℕ)
      → 0 < size
      → vaddr + size ≤ 2 ^ 64
      → vaddr_readable page_table page_size get_paddr memory vaddr size ≡ true
      → (get_paddr vaddr ≢ 0)
        × (page_size < vaddr % page_size + size → get_paddr (vaddr + size - 1) ≢ 0)
  unfolding vaddr_readable
  readable-cases vaddr size h h' ok =
      let e : (vaddr + size + 2 ^ 64 - 1) % 2 ^ 64 ≡ vaddr + size - 1 = omega arith in ground arith

  -- Every byte of an access that dwarf_vaddr_readable allows is mapped.
  pub vaddr_readable-mapped :
      ((a b : ℕ) → a / page_size ≡ b / page_size → get_paddr a ≡ get_paddr b)
      → (vaddr size d : ℕ) → 0 < page_size
      → size ≤ page_size
      → d < size
      → vaddr + size ≤ 2 ^ 64
      → vaddr_readable page_table page_size get_paddr memory vaddr size ≡ true
      → get_paddr (vaddr + d) ≢ 0
  vaddr_readable-mapped frame vaddr size d h h' lt wrap ok z =
      let (first, last) = readable-cases vaddr size (omega arith) wrap ok in
      elim (one_of_two page_size vaddr size d h h' lt) [
        | inl same ↦ first (sym (frame (vaddr + d) vaddr same) ∙ z)
        | inr (over, same) ↦ last over (sym (frame (vaddr + d) (vaddr + size - 1) same) ∙ z)
      ]
