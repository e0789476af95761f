-- ===== src/Mem/Boot/Pages.antt =====
-- `balloc_alloc_page` gives the lowest page that is left.
use mathlib.Core.Path.{subst}
use native.Mathlib.Nat.{mod-mod, mod_self}
use evalyn_os.Base.{
  ℕ, ◌+◌, ◌-◌, ◌%◌, ◌^◌, ◌≤◌, ◌<◌, ◌≡◌, ◌⊎◌, refl, ap, sym, ◌∙◌, ltb, if◌then◌else◌, false, List,
  [], ◌∷◌, arith, Bool-cases, inl, inr,
}
use evalyn_os.Mem.Words.Multiples.{IsMultiple, IsMultiple-add, multiples_apart}
use evalyn_os.Mem.Boot.{Entry, Boot, aligned_start, alloc_from, balloc_alloc_page}
use evalyn_os.Mem.Boot.Map.{IsRegion, IsMap, aligned_start_is}
use evalyn_os.Mem.Boot.Step.{
  IsNew, IsRunning, GivesNext, offset_at, offset_moved, sub_plain, alloc_from-skip, alloc_from-here,
}

module _ (page_size : ℕ) (divides : IsMultiple page_size (2 ^ 64)) (positive : 0 < page_size)
    (megabyte : IsMultiple page_size 1048576) (last : ℕ) where
  skipped :
      (e : Entry) (es : List Entry) (offset : ℕ)
      → e.usable ≡ false
      → GivesNext page_size last es (alloc_from page_size es 0)
      → GivesNext page_size last (e ∷ es) (alloc_from page_size (e ∷ es) offset)
  skipped e es offset n (inl (s, p, r, found)) = inl (
    s,
    p,
    alloc_from-skip page_size e es offset n ∙ r,
    record {
      fresh = found.fresh;
      in_memory = ground (arith, found.in_memory);
      lowest = λ x new h. found.lowest x new (ground (arith, h, n));
      last_is = found.last_is;
      running = found.running;
      remaining = λ x new. found.remaining x new ∙ ground (arith, n);
    },
  )
  skipped e es offset n (inr (r, none_left)) =
      inr (alloc_from-skip page_size e es offset n ∙ r, λ x new. ground (arith, n, none_left x new))

  -- Where an entry is begun.
  record StartFacts (e : Entry) : Type 0 where
    above : e.base ≤ aligned_start page_size 1048576 e
    room : aligned_start page_size 1048576 e + page_size < 2 ^ 64
    fresh : IsNew page_size last (aligned_start page_size 1048576 e)
    least : (x : ℕ) → IsNew page_size last x → e.base ≤ x → aligned_start page_size 1048576 e ≤ x

  offset_zero :
      (e : Entry)
      → e.base ≤ aligned_start page_size 1048576 e
      → aligned_start page_size 1048576 e + page_size < 2 ^ 64
      → offset_at page_size e 0 ≡ aligned_start page_size 1048576 e - e.base
  offset_zero e above room =
      sub_plain (aligned_start page_size 1048576 e) e.base page_size above room

  small_page : page_size ≤ 1048576
  small_page =
      let zero_whole : IsMultiple page_size 0 =
        ap (λ x. x % page_size) (sym megabyte) ∙ mod-mod 1048576 page_size ∙ megabyte in
      omega (arith, multiples_apart page_size 0 1048576 zero_whole megabyte (omega arith))

  start_facts :
      (low : ℕ) (e : Entry)
      → IsRegion page_size low e
      → (last < low) ⊎ (last < 1048576)
      → StartFacts e
  start_facts low e r gap =
      let is = aligned_start_is page_size divides positive low 1048576 e r in
      elim (Bool-cases (ltb 1048576 e.base)) [
        | inl more ↦
            let s : aligned_start page_size 1048576 e ≡ e.base = is ∙ rw more refl in
            let new : last < e.base = elim gap [
              | inl a ↦ omega (arith, a, r.above)
              | inr b ↦ ground (arith, b, more)
            ] in
            record {
              above = omega (arith, s);
              room = omega (arith, s, r.fits);
              fresh =
                  subst (IsNew page_size last) (sym s) (r.base_whole, ground (arith, more), new);
              least = λ x _ le. omega (arith, s, le);
            }
        | inr less ↦
            let s : aligned_start page_size 1048576 e ≡ 1048576 = is ∙ rw less refl in
            let new : last < 1048576 = elim gap [
              | inl a ↦ ground (arith, a, r.above, less)
              | inr b ↦ b
            ] in
            record {
              above = ground (arith, s, less);
              room = omega (arith, s, small_page);
              fresh = subst (IsNew page_size last) (sym s) (megabyte, omega arith, new);
              least = λ x n _. omega (arith, s, n.1);
            }
      ]

  -- The entries after the one that is used up.
  alloc_from_start :
      (low : ℕ) (es : List Entry)
      → IsMap page_size low es
      → (last < low) ⊎ (last < 1048576)
      → GivesNext page_size last es (alloc_from page_size es 0)
  unfolding alloc_from
  alloc_from_start low [] whole gap = inr (refl, λ x new. refl)
  alloc_from_start low (e ∷ es) whole gap = elim (Bool-cases e.usable) [
    | inr n ↦
        let later =
          alloc_from_start low es
            (subst (λ t. IsMap page_size (if t then e.base + e.length else low) es) n whole.1)
            gap in
        skipped e es 0 n later
    | inl u ↦
        let r = whole.0 u in
        let facts = start_facts low e r gap in
        let rest =
          subst (λ t. IsMap page_size (if t then e.base + e.length else low) es) u whole.1 in
        let gap' : (last < e.base + e.length) ⊎ (last < 1048576) = elim gap [
          | inl a ↦ inl (omega (arith, a, r.above))
          | inr b ↦ inr b
        ] in
        alloc_from-here page_size divides positive last low e es 0
          (aligned_start page_size 1048576 e) whole u (offset_zero e facts.above facts.room)
          facts.above facts.room facts.fresh facts.least
          (alloc_from_start (e.base + e.length) es rest gap')
  ]

-- Before the first page, or after one.
abbrev pub IsBoot : (page_size : ℕ) → Boot → Type 0
IsBoot page_size s =
    ((s.offset ≡ 0) × (s.last ≡ 0) × IsMap page_size 0 s.rest) ⊎ IsRunning page_size s

module _ (page_size : ℕ) (divides : IsMultiple page_size (2 ^ 64)) (positive : 0 < page_size)
    (megabyte : IsMultiple page_size 1048576) where
  first_page :
      (s : Boot)
      → s.offset ≡ 0
      → s.last ≡ 0
      → IsMap page_size 0 s.rest
      → GivesNext page_size s.last s.rest (balloc_alloc_page page_size s)
  unfolding balloc_alloc_page
  first_page s none_yet no_last whole =
      subst (λ o. GivesNext page_size s.last s.rest (alloc_from page_size s.rest o)) (sym none_yet)
        (alloc_from_start page_size divides positive megabyte s.last 0 s.rest whole
          (inr (omega (arith, no_last))))

  next_page :
      (s : Boot)
      → IsRunning page_size s
      → GivesNext page_size s.last s.rest (balloc_alloc_page page_size s)
  unfolding balloc_alloc_page
  next_page s r =
      let e = r.entry in
      let region = r.whole.0 r.usable in
      let rest =
        subst (λ t. IsMap page_size (if t then e.base + e.length else r.low) r.later) r.usable
          r.whole.1 in
      subst (λ es. GivesNext page_size s.last es (alloc_from page_size es s.offset)) (sym r.rest_is)
        (alloc_from-here page_size divides positive s.last r.low e r.later s.offset
          (s.last + page_size) r.whole r.usable
          (offset_moved page_size e s.offset r.moved ∙ omega (arith, r.place))
          (omega (arith, r.place)) (omega (arith, r.within, region.fits))
          (
            IsMultiple-add page_size s.last page_size r.last_whole (mod_self page_size),
            omega (arith, r.last_high),
            omega (arith, positive),
          )
          (λ x new _. multiples_apart page_size s.last x r.last_whole new.0 new.2)
          (alloc_from_start page_size divides positive megabyte s.last (e.base + e.length) r.later
            rest (inl (omega (arith, r.within, positive)))))

  -- Where the page size divides 2^64 and a megabyte, and the usable entries of the memory map are
  -- whole pages, in order, without overlap, and end a page below 2^64, balloc_alloc_page, at first
  -- or after any number of pages, gives the lowest page of usable memory at a megabyte or above
  -- that lies above the last one given, and leaves those above it; or there is none, and it
  -- panics.
  pub balloc_alloc_page-GivesNext :
      (s : Boot)
      → IsBoot page_size s
      → GivesNext page_size s.last s.rest (balloc_alloc_page page_size s)
  balloc_alloc_page-GivesNext s (inl (none_yet, no_last, whole)) =
      first_page s none_yet no_last whole
  balloc_alloc_page-GivesNext s (inr running) = next_page s running
