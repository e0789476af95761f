-- ===== src/Mem/Boot/Init.antt =====
-- `buddy_init`: what the page allocator has at first.
use mathlib.Core.Path.{subst}
use native.Mathlib.Nat.{mod_self}
use evalyn_os.Base.{
  ℕ, ◌+◌, ◌*◌, ◌/◌, ◌^◌, ◌≤◌, ◌<◌, ◌≡◌, ◌⊎◌, refl, ap, sym, ◌∙◌, ltb, leb, if◌then◌else◌, ◌&&◌,
  Bool, true, List, [], ◌∷◌, arith, Bool-cases, inl, inr,
}
use evalyn_os.Mem.Words.{add64, sub64}
use evalyn_os.Mem.Words.Multiples.{IsMultiple, IsMultiple-add, align_up_same}
use evalyn_os.Mem.Buddy.{Buddy, returned}
use evalyn_os.Mem.Buddy.Invariant.{none_out, Inv, IsFreePage}
use evalyn_os.Mem.Buddy.Range.{in_range, first_frame, end_frame, add_range-IsAdded}
use evalyn_os.Mem.Boot.{Entry, aligned_start, aligned_end, buddy_init}
use evalyn_os.Mem.Boot.Map.{
  in_entry, IsRegion, IsMap, in_map-above, aligned_end_is, aligned_start_is, frame_le, frame_lt,
}
use evalyn_os.Mem.Boot.Left.{
  is_left, buddy_init-skip, buddy_init-add, left_first, left_later, left_cases, left_apart,
}

pub record IsFilled (page_size last : ℕ) (es : List Entry) (b b' : Buddy) : Type 0 where
  pub inv : Inv none_out b'
  pub to_free :
      (a : ℕ)
      → (is_left page_size last es a ≡ true) ⊎ IsFreePage none_out b a
      → IsFreePage none_out b' a
  pub of_free :
      (a : ℕ)
      → IsFreePage none_out b' a
      → (is_left page_size last es a ≡ true) ⊎ IsFreePage none_out b a

add_after_sub : (s e : ℕ) → s < 2 ^ 64 → e < 2 ^ 64 → add64 s (sub64 e s) ≡ e
add_after_sub s e hs he = omega (arith, hs, he)

first_above : (x q : ℕ) → 0 < q → ltb 0 (x / q) ≡ leb (q * 0 + q) x → q ≤ x → 0 < x / q
first_above x q pos e le = ground (arith, e, le)

bounds_same :
    (lo hi floor x q : ℕ) (usable : Bool)
    → usable ≡ true
    → (leb (if ltb floor lo then lo else floor) x && leb (x + q) hi)
      ≡ ((usable && (leb lo x && leb (x + q) hi)) && leb floor x)
bounds_same lo hi floor x q usable u = ground (arith, u)

module _ (page_size last : ℕ) (divides : IsMultiple page_size (2 ^ 64)) (positive : 0 < page_size)
    (last_whole : IsMultiple page_size last) (room : last + page_size < 2 ^ 64) where
  page_whole : IsMultiple page_size page_size
  page_whole = mod_self page_size

  -- The frames that an entry adds.
  module _ (low : ℕ) (e : Entry) (usable : e.usable ≡ true)
      (region : IsRegion page_size low e) where
    abbrev start : ℕ
    start = aligned_start page_size (add64 last page_size) e

    abbrev length : ℕ
    length = sub64 (aligned_end page_size e) start

    floor_is : add64 last page_size ≡ last + page_size
    floor_is = omega (arith, room)

    start_is : start ≡ (if ltb (last + page_size) e.base then e.base else last + page_size)
    start_is =
        aligned_start_is page_size divides positive low (add64 last page_size) e region
        ∙ rw floor_is refl

    start_facts : IsMultiple page_size start × (start < 2 ^ 64) × (page_size ≤ start)
    start_facts = rw start_is (elim (Bool-cases (ltb (last + page_size) e.base)) [
      | inl more ↦ rw more (region.base_whole, omega (arith, region.fits), ground (arith, more))
      | inr less ↦
          rw less (IsMultiple-add page_size last page_size last_whole page_whole, room, omega arith)
    ])

    first_is : first_frame page_size start ≡ start / page_size
    first_is =
        ap (λ x. x / page_size)
          (align_up_same page_size divides positive start start_facts.0 start_facts.1)

    end_is : end_frame page_size start length ≡ (e.base + e.length) / page_size
    end_is =
        ap (λ x. x / page_size)
          (ap (λ x. add64 start (sub64 x start))
              (aligned_end_is page_size divides positive low e region)
            ∙ add_after_sub start (e.base + e.length) start_facts.1 (omega (arith, region.fits)))

    pub first-positive : 0 < first_frame page_size start
    first-positive =
        subst (λ x. 0 < x) (sym first_is)
          (first_above start page_size positive
            (frame_lt page_size divides positive start 0 start_facts.0) start_facts.2)

    pub frames_are :
        (a : ℕ)
        → in_range (first_frame page_size start) (end_frame page_size start length) a
          ≡ (in_entry page_size e (page_size * a) && leb (last + page_size) (page_size * a))
    frames_are a =
        let x = page_size * a in
        let lower =
          frame_le page_size divides positive start a start_facts.0 ∙ ap (λ y. leb y x) start_is in
        let upper =
          frame_lt page_size divides positive (e.base + e.length) a
            (IsMultiple-add page_size e.base e.length region.base_whole region.length_whole) in
        ap (λ y. leb y a && ltb a (end_frame page_size start length)) first_is
        ∙ ap (λ y. leb (start / page_size) a && ltb a y) end_is
        ∙ ap (λ y. y && ltb a ((e.base + e.length) / page_size)) lower
        ∙ ap (λ y. leb (if ltb (last + page_size) e.base then e.base else last + page_size) x && y)
            upper
        ∙ bounds_same e.base (e.base + e.length) (last + page_size) x page_size e.usable usable

  -- Where the page size divides 2^64, the boot allocator's last page is a multiple of it that ends
  -- below 2^64, and the usable entries of the memory map are whole pages, in order, without
  -- overlap, and end a page below 2^64: in a well-formed page allocator where no frame of usable
  -- memory above the boot allocator's last page is free, buddy_init returns without a failed
  -- assertion: exactly these frames are free besides those that were, none of the pages that the
  -- boot allocator gave out, and the allocator is well formed.
  pub buddy_init-IsFilled :
      (low : ℕ) (es : List Entry) (b : Buddy)
      → IsMap page_size low es
      → Inv none_out b
      → ((a : ℕ) → is_left page_size last es a ≡ true → ¬ IsFreePage none_out b a)
      → (b' : Buddy) × (buddy_init page_size last es b ≡ returned b')
        × IsFilled page_size last es b b'
  unfolding buddy_init
  buddy_init-IsFilled low [] b map inv unused = (
    b,
    refl,
    record {
      inv = inv;
      to_free = λ a h. elim h [ inl w ↦ absurd (ground (arith, w)) | inr f ↦ f ];
      of_free = λ a f. inr f;
    },
  )
  buddy_init-IsFilled low (e ∷ es) b map inv unused = elim (Bool-cases e.usable) [
    | inr n ↦
        let (b', r, filled) =
          buddy_init-IsFilled low es b
            (subst (λ t. IsMap page_size (if t then e.base + e.length else low) es) n map.1) inv
            (λ a w. unused a (ground (arith, w, n))) in
        (
          b',
          buddy_init-skip page_size last e es b n ∙ r,
          record {
            inv = filled.inv;
            to_free = λ a h.
                filled.to_free a (elim h [ inl w ↦ inl (ground (arith, w, n)) | inr f ↦ inr f ]);
            of_free = λ a f. elim (filled.of_free a f) [
              | inl w ↦ inl (ground (arith, w))
              | inr f' ↦ inr f'
            ];
          },
        )
    | inl u ↦
        let region = map.0 u in
        let later =
          subst (λ t. IsMap page_size (if t then e.base + e.length else low) es) u map.1 in
        let here = frames_are low e u region in
        let (c, added_is, added) =
          add_range-IsAdded page_size b (aligned_start page_size (add64 last page_size) e)
            (sub64 (aligned_end page_size e) (aligned_start page_size (add64 last page_size) e)) inv
            (first-positive low e u region)
            (λ a w. unused a (left_first page_size last e es a (sym (here a) ∙ w))) in
        let (b', r, filled) = buddy_init-IsFilled (e.base + e.length) es c later added.inv (λ a w f.
          elim (added.of_free a f) [
            | inl w' ↦
                left_apart page_size last e es a positive (sym (here a) ∙ w')
                  (λ h. in_map-above page_size (e.base + e.length) es (page_size * a) later h) w
            | inr f' ↦ unused a (left_later page_size last e es a w) f'
          ]) in
        (
          b',
          buddy_init-add page_size last e es b c u added_is ∙ r,
          record {
            inv = filled.inv;
            to_free = λ a h. elim h [
              | inl w ↦ elim (left_cases page_size last e es a w) [
                | inl first ↦ filled.to_free a (inr (added.to_free a (inl (here a ∙ first))))
                | inr rest ↦ filled.to_free a (inl rest)
              ]
              | inr f ↦ filled.to_free a (inr (added.to_free a (inr f)))
            ];
            of_free = λ a f. elim (filled.of_free a f) [
              | inl w ↦ inl (left_later page_size last e es a w)
              | inr g ↦ elim (added.of_free a g) [
                | inl w ↦ inl (left_first page_size last e es a (sym (here a) ∙ w))
                | inr f' ↦ inr f'
              ]
            ];
          },
        )
  ]
