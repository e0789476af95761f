-- ===== src/Mem/Buddy/Alloc.antt =====
-- `buddy_allocate`: the block it takes was free and aligned, and no other page changes hands.
use mathlib.Core.Path.{subst}
use evalyn_os.Base.{
  ℕ, zero, suc, ◌+◌, ◌-◌, ◌%◌, ◌^◌, ◌≤◌, ◌<◌, ◌≡◌, ◌⊎◌, inl, inr, refl, ap, sym, ◌∙◌, ◌==◌, ==_iff,
  if◌then◌else◌, ◌&&◌, Bool, true, false, some, List, [], ◌∷◌, arith, Bool-cases, dec_lt,
}
use evalyn_os.Base.Distinct.{has, Distinct}
use evalyn_os.Base.Maps.{update}
use evalyn_os.Base.Powers.{pow_mono, pow_double_sum}
use evalyn_os.Mem.Words.Multiples.{IsMultiple}
use evalyn_os.Mem.Buddy.{
  Buddy, allocated, Outcome, returned, panicked, is_free, find_order, drop_first, pop_order,
  split_loop, set_allocated, allocate,
}
use evalyn_os.Mem.Buddy.Invariant.{
  is_block, order_of, Apart, none_out, Inv, IsFreePage, within_block,
}
use evalyn_os.Mem.Buddy.Moves.{
  at, take-Inv, take-Apart, take-IsFreePage, mark-Inv, mark-Apart, mark-IsFreePage,
}
use evalyn_os.Mem.Buddy.Split.{IsSplitDown, split_loop-IsSplitDown, half-IsMultiple}
use evalyn_os.Mem.Buddy.Find.{list_cases, find_cases}

pub down-IsMultiple : (order d p : ℕ) → IsMultiple (2 ^ (order + d)) p → IsMultiple (2 ^ order) p
down-IsMultiple order zero p h =
    let e : order + 0 ≡ order = omega arith in subst (λ k. IsMultiple (2 ^ k) p) e h
down-IsMultiple order (suc d) p h =
    down-IsMultiple order d p
      (half-IsMultiple (2 ^ (order + d)) p (subst (λ q. IsMultiple q p) (pow_double_sum order d) h))

-- No page of a block that is apart from the free blocks is free.
pub Apart-gone :
    (out : ℕ → Bool) (b : Buddy) (p order : ℕ)
    → Apart out b p order
    → (a : ℕ) → within_block p order a ≡ true
    → ¬ IsFreePage out b a
Apart-gone out b p order clear a w (x, h, le, lt) = elim (clear x h) [
  | inl below ↦ ground (arith, w, le, lt, below)
  | inr above ↦ ground (arith, w, le, lt, above)
]

-- A block is handed out: what the caller has then, and what the allocator.
pub record IsTaken (b : Buddy) (order : ℕ) (b' : Buddy) (p : ℕ) : Type 0 where
  pub inv : Inv none_out b'
  pub aligned : IsMultiple (2 ^ order) p
  pub was_free :
      (a : ℕ) → (within_block p order a ≡ true) ⊎ IsFreePage none_out b' a → IsFreePage none_out b a
  pub rest_free :
      (a : ℕ) → IsFreePage none_out b a → (within_block p order a ≡ true) ⊎ IsFreePage none_out b' a
  pub gone : (a : ℕ) → within_block p order a ≡ true → ¬ IsFreePage none_out b' a
  pub entry : ((b'.pages p).kind ≡ allocated) × (order_of b' p ≡ order)

-- The first block of a list, `d` orders above the one asked for.
module _ (b : Buddy) (p order d : ℕ) (rest : List ℕ) (inv : Inv none_out b)
    (e : b.orders (order + d) ≡ p ∷ rest) (small : order + d ≤ 14) where
  first_block : (is_block none_out b p && (order_of b p == (order + d))) ≡ true
  first_block = sym (inv.listed (order + d) p) ∙ rw e (ground arith)

  pub block : is_block none_out b p ≡ true
  block = ground (arith, first_block)

  order_is : order_of b p ≡ order + d
  order_is = ground (arith, first_block)

  aligned_whole : IsMultiple (2 ^ (order + d)) p
  aligned_whole = subst (λ j. IsMultiple (2 ^ j) p) order_is (inv.aligned p block)

  apart_rest : Distinct (p ∷ rest)
  apart_rest = subst Distinct e (inv.distinct (order + d))

  members :
      (x : ℕ)
      → has x (drop_first (b.orders (order + d)))
        ≡ (if x == p then false else has x (b.orders (order + d)))
  members x = rw e (elim (Bool-cases (x == p)) [
    | inl here ↦ rw ((==_iff x p).0 here) (ground (arith, apart_rest.0))
    | inr away ↦ ground (arith, away)
  ])

  once : Distinct (drop_first (b.orders (order + d)))
  once = rw e apart_rest.1

  abbrev popped : Buddy
  popped = pop_order b (order + d)

  pub down :
      IsSplitDown
        (pop_order b (order + d))
        p
        order
        d
        (split_loop d (pop_order b (order + d)) p (b.pages p).max_order order)
  down =
      split_loop-IsSplitDown d (pop_order b (order + d)) p (b.pages p).max_order order
        (take-Inv b p (order + d) (drop_first (b.orders (order + d))) inv block order_is members
          once)
        (take-Apart b p (order + d) (drop_first (b.orders (order + d))) inv block order_is members
          once)
        aligned_whole small (inv.max_bounded p)

  abbrev split : Buddy
  split = split_loop d (pop_order b (order + d)) p (b.pages p).max_order order

  parts :
      (a : ℕ)
      → (IsFreePage none_out b a
          → (within_block p (order + d) a ≡ true) ⊎ IsFreePage (at p) popped a)
        × ((within_block p (order + d) a ≡ true) ⊎ IsFreePage (at p) popped a
            → IsFreePage none_out b a)
  parts a =
      take-IsFreePage b p (order + d) (drop_first (b.orders (order + d))) inv block order_is members
        once a

  pub take-IsTaken :
      (c : ℕ)
      → c ≡ order
      → IsTaken b order
          (set_allocated (split_loop d (pop_order b (order + d)) p (b.pages p).max_order order) p c)
          p
  take-IsTaken c is = record {
    inv = mark-Inv split p c down.inv;
    aligned = down-IsMultiple order d p aligned_whole;
    was_free = λ a h. (parts a).1 (elim h [
      | inl w ↦ inl (ground (arith, w, pow_mono order (order + d) (omega arith)))
      | inr f ↦ elim (down.of_free a ((mark-IsFreePage split p c down.inv a).0 f)) [
        | inl w ↦ inl (ground (arith, w))
        | inr f' ↦ inr f'
      ]
    ]);
    rest_free = λ a f. elim ((parts a).0 f) [
      | inl w ↦ elim (dec_lt a (p + 2 ^ order)) [
        | yes front ↦ inl (ground (arith, w, front))
        | no back ↦ inr (
            (mark-IsFreePage split p c down.inv a).1
              (down.to_free a (inl (ground (arith, w, back)))))
      ]
      | inr f' ↦ inr ((mark-IsFreePage split p c down.inv a).1 (down.to_free a (inr f')))
    ];
    gone = λ a w f.
        Apart-gone none_out (set_allocated split p c) p order
          (mark-Apart split p c down.inv p order down.clear) a w f;
    entry = (ground arith, ground (arith, is));
  }

-- No free block is as high as the one asked for.
abbrev pub AllSmaller : Buddy → ℕ → Type 0
AllSmaller b order = (x : ℕ) → is_block none_out b x ≡ true → order_of b x < order

abbrev pub IsAllocation : Buddy → (order : ℕ) → (nofail : Bool) → Outcome (Buddy × ℕ) → Type 0
IsAllocation b order nofail r =
    ((b' : Buddy) × (p : ℕ) × (r ≡ returned (b', p)) × IsTaken b order b' p)
    ⊎ (AllSmaller b order × (r ≡ (if nofail then panicked else returned (b, 0))))

-- Where the lists are empty there is no block.
empty-AllSmaller :
    (b : Buddy) (order : ℕ)
    → Inv none_out b
    → ((j : ℕ) → order ≤ j → j ≤ 14 → b.orders j ≡ [])
    → AllSmaller b order
empty-AllSmaller b order inv empty x h = elim (dec_lt (order_of b x) order) [
  | yes lt ↦ lt
  | no ge ↦
      let nil = empty (order_of b x) (omega (arith, ge)) (inv.bounded x h) in
      absurd (ground (arith, h, sym (ap (has x) nil) ∙ inv.listed (order_of b x) x))
]

-- The allocation, when the block comes from a higher list.
split_taken :
    (b : Buddy) (order k p : ℕ) (nofail : Bool) (rest : List ℕ)
    → Inv none_out b
    → b.orders order ≡ []
    → find_order b (14 - order) (order + 1) ≡ some (k, p)
    → order ≤ k
    → k ≤ 14
    → b.orders k ≡ p ∷ rest
    → IsAllocation b order nofail (allocate b order nofail)
unfolding allocate
split_taken b order k p nofail rest inv e f le small e' =
    let d = k - order in
    let whole : order + d ≡ k = omega (arith, le) in
    let here : b.orders (order + d) ≡ p ∷ rest = ap b.orders whole ∙ e' in
    let bound : order + d ≤ 14 = omega (arith, whole, small) in
    let lower : order % 16 ≡ order = omega (arith, le, small) in
    let m = (b.pages p).max_order in
    let fine : is_free ((split_loop d (pop_order b k) p m order).pages p).kind ≡ true =
      subst (λ j. is_free ((split_loop d (pop_order b j) p m order).pages p).kind ≡ true) whole
        (ap (λ x. is_free x.kind) (down b p order d rest inv here bound).same
          ∙ ground (arith, block b p order d rest inv here bound)) in
    inl (
      set_allocated (split_loop d (pop_order b k) p m order) p (order % 16),
      p,
      rw (allocate, e, f, fine) refl,
      subst
          (λ j.
            IsTaken b order (set_allocated (split_loop d (pop_order b j) p m order) p (order % 16))
              p)
          whole (take-IsTaken b p order d rest inv here bound (order % 16) lower),
    )

-- In a well-formed allocator, for an order of at most 14, the assertion of buddy_allocate holds.
-- Either it returns a page p aligned to the order: the pages of the block at p were free and are
-- free no more, no other page changes, the entry of p is marked as allocated with that order, and
-- the allocator is well formed; or every free block is smaller than asked for, and it returns 0
-- and changes nothing, or panics if it must not fail.
pub allocate-IsAllocation :
    (b : Buddy) (order : ℕ) (nofail : Bool)
    → Inv none_out b
    → order ≤ 14
    → IsAllocation b order nofail (allocate b order nofail)
unfolding allocate split_loop
allocate-IsAllocation b order nofail inv small = elim (list_cases (b.orders order)) [
  | inr (p, rest, e) ↦
      let whole : order + 0 ≡ order = omega arith in
      let here : b.orders (order + 0) ≡ p ∷ rest = ap b.orders whole ∙ e in
      let bound : order + 0 ≤ 14 = omega (arith, small) in
      let c = order_of b p in
      let is : c ≡ order = order_is b p order 0 rest inv here bound ∙ whole in
      let taken : List ℕ → Outcome (Buddy × ℕ) = λ l.
        returned
          (set_allocated (record b { orders = update b.orders order (drop_first l) }) p c, p) in
      inl (
        set_allocated (pop_order b order) p c,
        p,
        rw (allocate, e) (ap taken e),
        subst (λ j. IsTaken b order (set_allocated (pop_order b j) p c) p) whole
            (take-IsTaken b p order 0 rest inv here bound c is),
      )
  | inl e ↦ elim (find_cases b (14 - order) (order + 1)) [
    | inl (none_here, empty) ↦ inr (
      empty-AllSmaller b order inv (λ j le top. elim (Bool-cases (j == order)) [
        | inl here ↦ ap b.orders ((==_iff j order).0 here) ∙ e
        | inr away ↦ empty j (ground (arith, le, away)) (omega (arith, top, small))
      ]),
      rw (allocate, e, none_here) refl,
    )
    | inr (k, p, rest, f, le, lt, e') ↦
        split_taken b order k p nofail rest inv e f (omega (arith, le)) (omega (arith, lt, small))
          e'
  ]
]
