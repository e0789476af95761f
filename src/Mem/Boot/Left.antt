-- ===== src/Mem/Boot/Left.antt =====
-- The frames that the boot allocator leaves, and the turns of the loop of `buddy_init`.
use evalyn_os.Base.{
  ℕ, ◌+◌, ◌*◌, ◌≤◌, ◌<◌, ◌≡◌, ◌⊎◌, refl, leb, ◌&&◌, Bool, true, false, List, ◌∷◌, arith, Bool-cases,
  inl, inr,
}
use evalyn_os.Mem.Words.{add64, sub64}
use evalyn_os.Mem.Buddy.{Buddy, returned, add_range}
use evalyn_os.Mem.Boot.{Entry, aligned_start, aligned_end, buddy_init}
use evalyn_os.Mem.Boot.Map.{in_entry, in_map}

-- The frame lies in the map, above the last page given out.
abbrev pub is_left : (page_size last : ℕ) → List Entry → (a : ℕ) → Bool
is_left page_size last es a =
    in_map page_size es (page_size * a) && leb (last + page_size) (page_size * a)

-- One turn of the loop
pub buddy_init-skip :
    (page_size last : ℕ) (e : Entry) (es : List Entry) (b : Buddy)
    → e.usable ≡ false
    → buddy_init page_size last (e ∷ es) b ≡ buddy_init page_size last es b
unfolding buddy_init
buddy_init-skip page_size last e es b n = rw n refl

pub buddy_init-add :
    (page_size last : ℕ) (e : Entry) (es : List Entry) (b c : Buddy)
    → e.usable ≡ true
    → add_range page_size b
        (aligned_start page_size (add64 last page_size) e)
        (sub64 (aligned_end page_size e) (aligned_start page_size (add64 last page_size) e))
      ≡ returned c
    → buddy_init page_size last (e ∷ es) b ≡ buddy_init page_size last es c
unfolding buddy_init
buddy_init-add page_size last e es b c u r = rw (u, r) refl

-- A frame is left in the first entry, or in a later one.
module _ (page_size last : ℕ) (e : Entry) (es : List Entry) (a : ℕ) where
  abbrev left_here : Bool
  left_here = in_entry page_size e (page_size * a) && leb (last + page_size) (page_size * a)

  pub left_first : left_here ≡ true → is_left page_size last (e ∷ es) a ≡ true
  left_first h = ground (arith, h)

  pub left_later : is_left page_size last es a ≡ true → is_left page_size last (e ∷ es) a ≡ true
  left_later h = ground (arith, h)

  pub left_cases :
      is_left page_size last (e ∷ es) a ≡ true
      → (left_here ≡ true) ⊎ (is_left page_size last es a ≡ true)
  left_cases h = elim (Bool-cases (in_entry page_size e (page_size * a))) [
    | inl here ↦ inl (ground (arith, h, here))
    | inr away ↦ inr (ground (arith, h, away))
  ]

  pub left_apart :
      0 < page_size
      → left_here ≡ true
      → (in_map page_size es (page_size * a) ≡ true → e.base + e.length ≤ page_size * a)
      → is_left page_size last es a ≡ true
      → ⊥
  left_apart pos here above w =
      let there : in_map page_size es (page_size * a) ≡ true = ground (arith, w) in
      let far = above there in ground (arith, here, far, pos)
