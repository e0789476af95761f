-- ===== src/Mem/Boot/Map.antt =====
-- The boot loader's map: the pages in its usable entries.
use mathlib.Core.Path.{subst}
use native.Mathlib.Nat.{mul-le-mul_left}
use evalyn_os.Base.{
  ℕ, ◌+◌, ◌*◌, ◌/◌, ◌^◌, ◌≤◌, ◌<◌, ◌≡◌, ap, ◌∙◌, ltb, leb, if◌then◌else◌, ◌&&◌, ◌||◌, Bool, true,
  false, List, [], ◌∷◌, arith, Bool-cases, dec_lt, inl, inr,
}
use evalyn_os.Mem.Words.{add64}
use evalyn_os.Mem.Words.Multiples.{IsMultiple, quotient, IsMultiple-add, align_up_same}
use evalyn_os.Mem.Boot.{Entry, align_down, aligned_start, aligned_end}

-- The page at `x` lies in a usable entry.
abbrev pub in_entry : (page_size : ℕ) → Entry → (x : ℕ) → Bool
in_entry page_size e x = e.usable && (leb e.base x && leb (x + page_size) (e.base + e.length))

abbrev pub in_map : (page_size : ℕ) → List Entry → (x : ℕ) → Bool
in_map page_size [] x = false
in_map page_size (e ∷ es) x = in_entry page_size e x || in_map page_size es x

-- A usable entry has whole pages, starts no lower than `low`, and leaves a page of the address
-- space above it.
pub record IsRegion (page_size low : ℕ) (e : Entry) : Type 0 where
  pub base_whole : IsMultiple page_size e.base
  pub length_whole : IsMultiple page_size e.length
  pub above : low ≤ e.base
  pub fits : e.base + e.length + page_size < 2 ^ 64

-- The boot loader's promise: usable entries are whole pages, in order, and do not overlap.
abbrev pub IsMap : (page_size low : ℕ) → List Entry → Type 0
IsMap page_size low [] = Unit
IsMap page_size low (e ∷ es) =
    (e.usable ≡ true → IsRegion page_size low e)
    × IsMap page_size (if e.usable then e.base + e.length else low) es

pub IsMap-lower :
    (page_size low low' : ℕ) (es : List Entry)
    → low' ≤ low
    → IsMap page_size low es
    → IsMap page_size low' es
IsMap-lower page_size low low' [] le map = tt
IsMap-lower page_size low low' (e ∷ es) le map = (
  λ u.
      let r = map.0 u in
      record {
        base_whole = r.base_whole;
        length_whole = r.length_whole;
        above = omega (arith, le, r.above);
        fits = r.fits;
      },
  elim (Bool-cases e.usable) [
    | inl u ↦ rw u (subst (λ t. IsMap page_size (if t then e.base + e.length else low) es) u map.1)
    | inr n ↦ rw n (
        IsMap-lower page_size low low' es le
          (subst (λ t. IsMap page_size (if t then e.base + e.length else low) es) n map.1))
  ],
)

pub in_map-above :
    (page_size low : ℕ) (es : List Entry) (x : ℕ)
    → IsMap page_size low es
    → in_map page_size es x ≡ true
    → low ≤ x
in_map-above page_size low [] x map h = absurd (ground (arith, h))
in_map-above page_size low (e ∷ es) x map h = elim (Bool-cases e.usable) [
  | inl u ↦
      let r = map.0 u in
      let rest = subst (λ t. IsMap page_size (if t then e.base + e.length else low) es) u map.1 in
      elim (Bool-cases (in_map page_size es x)) [
        | inl later ↦
            omega (arith, in_map-above page_size (e.base + e.length) es x rest later, r.above)
        | inr not_later ↦ ground (arith, h, u, not_later, r.above)
      ]
  | inr n ↦
      in_map-above page_size low es x
        (subst (λ t. IsMap page_size (if t then e.base + e.length else low) es) n map.1)
        (ground (arith, h, n))
]

-- The bounds of an entry that is whole pages.
module _ (page_size : ℕ) (divides : IsMultiple page_size (2 ^ 64)) (positive : 0 < page_size) where
  pub align_down_same : (x : ℕ) → IsMultiple page_size x → align_down x page_size ≡ x
  align_down_same x h =
      let flip : x / page_size * page_size ≡ page_size * (x / page_size) = grind arith in
      flip ∙ quotient page_size x h

  pub aligned_end_is :
      (low : ℕ) (e : Entry) → IsRegion page_size low e → aligned_end page_size e ≡ e.base + e.length
  aligned_end_is low e region =
      let plain : add64 e.base e.length ≡ e.base + e.length = omega (arith, region.fits) in
      rw plain (
        align_down_same (e.base + e.length)
          (IsMultiple-add page_size e.base e.length region.base_whole region.length_whole))

  pub aligned_start_is :
      (low floor : ℕ) (e : Entry)
      → IsRegion page_size low e
      → aligned_start page_size floor e ≡ (if ltb floor e.base then e.base else floor)
  aligned_start_is low floor e region =
      ap (λ x. if ltb floor x then x else floor)
        (align_up_same page_size divides positive e.base region.base_whole
          (omega (arith, region.fits)))

  -- Pages and the frames of their addresses.
  pub frame_le : (x a : ℕ) → IsMultiple page_size x → leb (x / page_size) a ≡ leb x (page_size * a)
  frame_le x a h = elim (dec_lt a (x / page_size)) [
    | yes lt ↦
        let far : page_size * (a + 1) ≤ page_size * (x / page_size) =
          mul-le-mul_left page_size (omega (arith, lt)) in
        let flat : page_size * (a + 1) ≡ page_size * a + page_size = grind arith in
        ground (arith, lt, far, flat, quotient page_size x h, positive)
    | no ge ↦
        let near : page_size * (x / page_size) ≤ page_size * a =
          mul-le-mul_left page_size (omega (arith, ge)) in
        ground (arith, ge, near, quotient page_size x h)
  ]

  pub frame_lt :
      (x a : ℕ) → IsMultiple page_size x → ltb a (x / page_size) ≡ leb (page_size * a + page_size) x
  frame_lt x a h = elim (dec_lt a (x / page_size)) [
    | yes lt ↦
        let far : page_size * (a + 1) ≤ page_size * (x / page_size) =
          mul-le-mul_left page_size (omega (arith, lt)) in
        let flat : page_size * (a + 1) ≡ page_size * a + page_size = grind arith in
        ground (arith, lt, far, flat, quotient page_size x h)
    | no ge ↦
        let near : page_size * (x / page_size) ≤ page_size * a =
          mul-le-mul_left page_size (omega (arith, ge)) in
        ground (arith, ge, near, quotient page_size x h, positive)
  ]
