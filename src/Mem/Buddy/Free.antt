-- ===== src/Mem/Buddy/Free.antt =====
-- `buddy_free`: the pages of the block become free, and no others; the block is merged as far as
-- it can be.
use evalyn_os.Base.{
  ℕ, ◌+◌, ◌^◌, ◌≤◌, ◌≡◌, ◌⊎◌, inl, inr, refl, ap, sym, ◌∙◌, ◌==◌, leb, ◌&&◌, Bool, true, false,
  arith, dec_lt,
}
use evalyn_os.Base.Powers.{pow-pos}
use evalyn_os.Mem.Words.Multiples.{IsMultiple}
use evalyn_os.Mem.Buddy.{Buddy, returned, put_block, buddy_of, allocate, release}
use evalyn_os.Mem.Buddy.Invariant.{
  is_block, order_of, Apart, none_out, Inv, IsFreePage, within_block,
}
use evalyn_os.Mem.Buddy.Moves.{put_cases, put_block-Inv, put_block-IsFreePage}
use evalyn_os.Mem.Buddy.Halves.{buddy_of-halves, IsLoose}
use evalyn_os.Mem.Buddy.Merge.{IsMerged, merge_loop-IsMerged}
use evalyn_os.Mem.Buddy.Alloc.{AllSmaller, allocate-IsAllocation}

-- The block is in its list again, and its pages are free.
pub record IsReleased (b : Buddy) (p k : ℕ) (b' : Buddy) : Type 0 where
  pub inv : Inv none_out b'
  pub to_free :
      (a : ℕ) → (within_block p k a ≡ true) ⊎ IsFreePage none_out b a → IsFreePage none_out b' a
  pub of_free :
      (a : ℕ) → IsFreePage none_out b' a → (within_block p k a ≡ true) ⊎ IsFreePage none_out b a
  pub page : ℕ
  pub order : ℕ
  pub block : is_block none_out b' page ≡ true
  pub order_same : order_of b' page ≡ order
  pub inside : (a : ℕ) → within_block p k a ≡ true → within_block page order a ≡ true
  pub full :
      leb (b'.pages page).max_order order ≡ false
      → (is_block none_out b' (buddy_of page order) && (order_of b' (buddy_of page order) == order))
        ≡ false

buddy_of-other : (p k : ℕ) → IsMultiple (2 ^ k) p → buddy_of p k ≡ p → ⊥
buddy_of-other p k mult same = elim (buddy_of-halves p k mult) [
  | inl (m, e) ↦ omega (arith, e, same, pow-pos k)
  | inr (m, e) ↦ omega (arith, e, same, pow-pos k)
]

put_max : (b : Buddy) (p m k : ℕ) → m ≤ 14 → ((put_block b p m k).pages p).max_order ≡ m
unfolding put_block
put_max b p m k max = ground (arith, max)

-- The block that the loop leaves goes into its list.
put-IsReleased :
    (b : Buddy) (p k : ℕ) (b' : Buddy) (p' k' : ℕ)
    → IsMerged b p k b' p' k'
    → IsReleased b p k (put_block b' p' (b'.pages p').max_order k')
put-IsReleased b p k b' p' k' merged =
    let l = merged.loose in
    let m = (b'.pages p').max_order in
    let max = l.inv.max_bounded p' in
    let cases = put_cases none_out b' p' m k' l.inv l.clear l.aligned l.small max refl in
    let pages = put_block-IsFreePage none_out b' p' m k' l.inv l.clear l.aligned l.small max refl in
    let here : (is_block none_out (put_block b' p' m k') p' ≡ true)
        × (order_of (put_block b' p' m k') p' ≡ k') =
      elim (cases p') [
        | inl (e, is, o) ↦ (is, o)
        | inr (ne, is, o) ↦ absurd (ground (arith, ne))
      ] in
    record {
      inv = put_block-Inv none_out b' p' m k' l.inv l.clear l.aligned l.small max refl;
      to_free = λ a h. (pages a).1 (merged.to_free a h);
      of_free = λ a f. merged.of_free a ((pages a).0 f);
      page = p';
      order = k';
      block = here.0;
      order_same = here.1;
      inside = merged.inside;
      full = λ more. elim (cases (buddy_of p' k')) [
        | inl (e, is, o) ↦ absurd (buddy_of-other p' k' l.aligned e)
        | inr (ne, is, o) ↦
            rw (is, o) (merged.full (ap (λ x. leb x k') (sym (put_max b' p' m k' max)) ∙ more))
      ];
    }

-- Pages that are not free are apart from the free blocks.
pub gone-Apart :
    (out : ℕ → Bool) (b : Buddy) (p k : ℕ)
    → ((a : ℕ) → within_block p k a ≡ true → ¬ IsFreePage out b a)
    → Apart out b p k
gone-Apart out b p k unused x h = elim (dec_lt p (x + 2 ^ order_of b x)) [
  | no below ↦ inl (omega (arith, below))
  | yes meets ↦ elim (dec_lt x (p + 2 ^ k)) [
    | no above ↦ inr (omega (arith, above))
    | yes both ↦ elim (dec_lt x p) [
      | yes less ↦ absurd (unused p (ground (arith, pow-pos k)) (x, h, omega (arith, less), meets))
      | no more ↦ absurd (
          unused x (ground (arith, more, both))
            (x, h, omega arith, omega (arith, pow-pos (order_of b x))))
    ]
  ]
]

-- In a well-formed allocator, buddy_free of an aligned block of order at most 14, no page of which
-- is free, returns: exactly its pages are free besides those that were, the allocator is well
-- formed, and the block is part of a free block that is either as high as the greatest order in
-- its entry or has a buddy that is not a free block of the same order.
pub release-IsReleased :
    (b : Buddy) (p k : ℕ)
    → Inv none_out b
    → IsMultiple (2 ^ k) p
    → k ≤ 14
    → ((a : ℕ) → within_block p k a ≡ true → ¬ IsFreePage none_out b a)
    → (b' : Buddy) × (release b p k ≡ returned b') × IsReleased b p k b'
unfolding release
release-IsReleased b p k inv mult small unused =
    let loose : IsLoose b p k = record {
      inv = inv;
      aligned = mult;
      small = small;
      clear = gone-Apart none_out b p k unused;
    } in
    let (b', p', k', r, merged) = merge_loop-IsMerged 16 b p k loose (omega arith) in
    (
      put_block b' p' (b'.pages p').max_order k',
      rw (release, r) refl,
      put-IsReleased b p k b' p' k' merged,
    )

-- In a well-formed allocator with a free block at least as high as an order of at most 14, an
-- allocation of that order returns a block, its release returns, and then the same pages are free
-- as before, in a well-formed allocator.
pub allocate-release :
    (b : Buddy) (order : ℕ) (nofail : Bool)
    → Inv none_out b
    → order ≤ 14
    → ¬ AllSmaller b order
    → (b' : Buddy) × (p : ℕ) × (b'' : Buddy) × (allocate b order nofail ≡ returned (b', p))
      × (release b' p order ≡ returned b'')
      × Inv none_out b''
      × ((a : ℕ)
          → (IsFreePage none_out b a → IsFreePage none_out b'' a)
            × (IsFreePage none_out b'' a → IsFreePage none_out b a))
allocate-release b order nofail inv small enough =
    elim (allocate-IsAllocation b order nofail inv small) [
      | inr (few, e) ↦ absurd (enough few)
      | inl (b', p, e, taken) ↦
          let (b'', r, back) =
            release-IsReleased b' p order taken.inv taken.aligned small taken.gone in
          (
            b',
            p,
            b'',
            e,
            r,
            back.inv,
            λ a. (
              λ f. back.to_free a (taken.rest_free a f),
              λ f. taken.was_free a (back.of_free a f),
            ),
          )
    ]
