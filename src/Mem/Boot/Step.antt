-- ===== src/Mem/Boot/Step.antt =====
-- The loop of `balloc_alloc_page` at one entry.
use mathlib.Core.Path.{subst}
use evalyn_os.Base.{
  ℕ, ◌+◌, ◌-◌, ◌^◌, ◌≤◌, ◌<◌, ◌≡◌, ◌⊎◌, refl, ap, sym, ◌∙◌, ◌==◌, leb, if◌then◌else◌, true, false,
  List, ◌∷◌, arith, Bool-cases, inl, inr,
}
use evalyn_os.Mem.Words.{add64, sub64}
use evalyn_os.Mem.Words.Multiples.{IsMultiple}
use evalyn_os.Mem.Buddy.{Outcome, returned, panicked}
use evalyn_os.Mem.Boot.{Entry, Boot, aligned_start, aligned_end, alloc_from}
use evalyn_os.Mem.Boot.Map.{in_entry, in_map, IsRegion, IsMap, in_map-above, aligned_end_is}

-- A page that may be given out: at a megabyte or above, and above the last one.
abbrev pub IsNew : (page_size last x : ℕ) → Type 0
IsNew page_size last x = IsMultiple page_size x × (1048576 ≤ x) × (last < x)

-- A page of the first entry was given out.
pub record IsRunning (page_size : ℕ) (s : Boot) : Type 0 where
  pub entry : Entry
  pub later : List Entry
  pub rest_is : s.rest ≡ entry ∷ later
  pub low : ℕ
  pub whole : IsMap page_size low (entry ∷ later)
  pub usable : entry.usable ≡ true
  pub moved : 0 < s.offset
  pub place : entry.base + s.offset ≡ s.last + page_size
  pub within : s.last + page_size ≤ entry.base + entry.length
  pub last_whole : IsMultiple page_size s.last
  pub last_high : 1048576 ≤ s.last

-- The page and the state after it: the page is the lowest new one, and those above it are left.
pub record IsNext (page_size last : ℕ) (es : List Entry) (s : Boot) (p : ℕ) : Type 0 where
  pub fresh : IsNew page_size last p
  pub in_memory : in_map page_size es p ≡ true
  pub lowest : (x : ℕ) → IsNew page_size last x → in_map page_size es x ≡ true → p ≤ x
  pub last_is : s.last ≡ p
  pub running : IsRunning page_size s
  pub remaining : (x : ℕ) → IsNew page_size p x → in_map page_size s.rest x ≡ in_map page_size es x

abbrev pub GivesNext : (page_size last : ℕ) → List Entry → Outcome (Boot × ℕ) → Type 0
GivesNext page_size last es r =
    ((s : Boot) × (p : ℕ) × (r ≡ returned (s, p)) × IsNext page_size last es s p)
    ⊎ ((r ≡ panicked) × ((x : ℕ) → IsNew page_size last x → in_map page_size es x ≡ false))

-- The offset that a call takes.
abbrev pub offset_at : (page_size : ℕ) → Entry → (offset : ℕ) → ℕ
offset_at page_size e offset =
    if offset == 0 then sub64 (aligned_start page_size 1048576 e) e.base else offset

pub offset_moved :
    (page_size : ℕ) (e : Entry) (offset : ℕ) → 0 < offset → offset_at page_size e offset ≡ offset
offset_moved page_size e offset moved =
    let nz : (offset == 0) ≡ false = ground (arith, moved) in rw nz refl

pub alloc_from-skip :
    (page_size : ℕ) (e : Entry) (es : List Entry) (offset : ℕ)
    → e.usable ≡ false
    → alloc_from page_size (e ∷ es) offset ≡ alloc_from page_size es 0
unfolding alloc_from
alloc_from-skip page_size e es offset n = rw n refl

alloc_from-next :
    (page_size : ℕ) (e : Entry) (es : List Entry) (offset : ℕ)
    → e.usable ≡ true
    → leb (add64 (add64 e.base (offset_at page_size e offset)) page_size) (aligned_end page_size e)
      ≡ false
    → alloc_from page_size (e ∷ es) offset ≡ alloc_from page_size es 0
unfolding alloc_from
alloc_from-next page_size e es offset u full = rw (u, full) refl

alloc_from-give :
    (page_size : ℕ) (e : Entry) (es : List Entry) (offset : ℕ)
    → e.usable ≡ true
    → leb (add64 (add64 e.base (offset_at page_size e offset)) page_size) (aligned_end page_size e)
      ≡ true
    → alloc_from page_size (e ∷ es) offset
      ≡ returned (
        record {
          rest = e ∷ es;
          offset = add64 (offset_at page_size e offset) page_size;
          last = add64 e.base (offset_at page_size e offset);
        },
        add64 e.base (offset_at page_size e offset),
      )
unfolding alloc_from
alloc_from-give page_size e es offset u fits = rw (u, fits) refl

pub sub_plain : (s b q : ℕ) → b ≤ s → s + q < 2 ^ 64 → sub64 s b ≡ s - b
sub_plain s b q above room = omega (arith, above, room)

module _ (page_size : ℕ) (divides : IsMultiple page_size (2 ^ 64)) (positive : 0 < page_size)
    (last : ℕ) where
  -- The call at a usable entry, whose next page is at `page`.
  module _ (low : ℕ) (e : Entry) (es : List Entry) (offset page : ℕ)
      (whole : IsMap page_size low (e ∷ es)) (u : e.usable ≡ true)
      (at : offset_at page_size e offset ≡ page - e.base) (above : e.base ≤ page)
      (room : page + page_size < 2 ^ 64) (fresh : IsNew page_size last page)
      (lowest : (x : ℕ) → IsNew page_size last x → e.base ≤ x → page ≤ x)
      (later : GivesNext page_size last es (alloc_from page_size es 0)) where
    region : IsRegion page_size low e
    region = whole.0 u

    rest-IsMap : IsMap page_size (e.base + e.length) es
    rest-IsMap = subst (λ t. IsMap page_size (if t then e.base + e.length else low) es) u whole.1

    page_is : add64 e.base (offset_at page_size e offset) ≡ page
    page_is = ap (add64 e.base) at ∙ omega (arith, above, room)

    end_is : aligned_end page_size e ≡ e.base + e.length
    end_is = aligned_end_is page_size divides positive low e region

    test_is :
        leb
          (add64 (add64 e.base (offset_at page_size e offset)) page_size)
          (aligned_end page_size e)
        ≡ leb (page + page_size) (e.base + e.length)
    test_is =
        ap (λ x. leb (add64 x page_size) (aligned_end page_size e)) page_is
        ∙ ap (leb (add64 page page_size)) end_is
        ∙ ap (λ x. leb x (e.base + e.length)) (omega (arith, room))

    map_above : (x : ℕ) → in_map page_size (e ∷ es) x ≡ true → e.base ≤ x
    map_above x h = elim (Bool-cases (in_map page_size es x)) [
      | inl rest ↦ omega (arith, in_map-above page_size (e.base + e.length) es x rest-IsMap rest)
      | inr no_rest ↦ ground (arith, h, no_rest)
    ]

    not_here :
        leb (page + page_size) (e.base + e.length) ≡ false
        → (x : ℕ) → IsNew page_size last x
        → in_entry page_size e x ≡ false
    not_here full x new = elim (Bool-cases (in_entry page_size e x)) [
      | inr away ↦ away
      | inl here ↦
          let le = lowest x new (ground (arith, here)) in absurd (ground (arith, full, le, here))
    ]

    same_map :
        leb (page + page_size) (e.base + e.length) ≡ false
        → (x : ℕ) → IsNew page_size last x
        → in_map page_size (e ∷ es) x ≡ in_map page_size es x
    same_map full x new = ground (arith, not_here full x new)

    give :
        leb (page + page_size) (e.base + e.length) ≡ true
        → GivesNext page_size last (e ∷ es) (alloc_from page_size (e ∷ es) offset)
    give fits =
        let p = add64 e.base (offset_at page_size e offset) in
        let s : Boot = record {
          rest = e ∷ es;
          offset = add64 (offset_at page_size e offset) page_size;
          last = p;
        } in
        let fits' : page + page_size ≤ e.base + e.length = ground (arith, fits) in
        let offset_is : add64 (offset_at page_size e offset) page_size ≡ page - e.base + page_size =
          ap (λ x. add64 x page_size) at ∙ omega (arith, room) in
        inl (
          s,
          p,
          alloc_from-give page_size e es offset u (test_is ∙ fits),
          record {
            fresh = subst (IsNew page_size last) (sym page_is) fresh;
            in_memory =
                subst (λ y. in_map page_size (e ∷ es) y ≡ true) (sym page_is)
                  (ground (arith, u, above, fits'));
            lowest = λ x new h. subst (λ y. y ≤ x) (sym page_is) (lowest x new (map_above x h));
            last_is = refl;
            running = record {
              entry = e;
              later = es;
              rest_is = refl;
              low = low;
              whole = whole;
              usable = u;
              moved = omega (arith, offset_is, positive);
              place = omega (arith, offset_is, page_is, above);
              within = omega (arith, page_is, fits');
              last_whole = subst (IsMultiple page_size) (sym page_is) fresh.0;
              last_high = omega (arith, page_is, fresh.1);
            };
            remaining = λ x new. refl;
          },
        )

    next :
        leb (page + page_size) (e.base + e.length) ≡ false
        → GivesNext page_size last (e ∷ es) (alloc_from page_size (e ∷ es) offset)
    next full = elim later [
      | inl (s, p, r, found) ↦ inl (
        s,
        p,
        alloc_from-next page_size e es offset u (test_is ∙ full) ∙ r,
        record {
          fresh = found.fresh;
          in_memory = ground (arith, found.in_memory);
          lowest = λ x new h. found.lowest x new (sym (same_map full x new) ∙ h);
          last_is = found.last_is;
          running = found.running;
          remaining = λ x new.
              found.remaining x new
              ∙ sym (same_map full x (new.0, new.1, omega (arith, new.2, found.fresh.2)));
        },
      )
      | inr (r, none_left) ↦ inr (
        alloc_from-next page_size e es offset u (test_is ∙ full) ∙ r,
        λ x new. same_map full x new ∙ none_left x new,
      )
    ]

    pub alloc_from-here : GivesNext page_size last (e ∷ es) (alloc_from page_size (e ∷ es) offset)
    alloc_from-here = elim (Bool-cases (leb (page + page_size) (e.base + e.length))) [
      | inl fits ↦ give fits
      | inr full ↦ next full
    ]
