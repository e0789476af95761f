-- ===== src/Mem/Buddy/Moves.antt =====
-- A block goes into the lists, and out of them.
use mathlib.Core.Path.{subst}
use evalyn_os.Base.{
  ℕ, ◌+◌, ◌^◌, ◌≤◌, ◌<◌, ◌≡◌, ◌⊎◌, inl, inr, ap, sym, ◌∙◌, ◌==◌, ==_iff, if◌then◌else◌, Bool, true,
  false, List, arith, Bool-cases, dec_lt,
}
use evalyn_os.Base.Maps.{update}
use evalyn_os.Base.Distinct.{has, Distinct}
use evalyn_os.Base.Powers.{pow-pos}
use evalyn_os.Mem.Words.Multiples.{IsMultiple}
use evalyn_os.Mem.Buddy.{Buddy, put_block, set_allocated}
use evalyn_os.Mem.Buddy.Invariant.{
  is_block, order_of, Apart, none_out, Inv, IsFreePage, within_block,
}

abbrev pub at : ℕ → ℕ → Bool
at p x = x == p

-- A free block goes into its list.
module _ (out : ℕ → Bool) (b : Buddy) (p m k : ℕ) (inv : Inv out b) (clear : Apart out b p k)
    (mult : IsMultiple (2 ^ k) p) (small : k ≤ 14) (max : m ≤ 14) (inside : out p ≡ false) where
  -- The block itself was none.
  not_before : is_block out b p ≡ false
  not_before = elim (Bool-cases (is_block out b p)) [
    | inl was ↦ absurd (omega (arith, clear p was, pow-pos k, pow-pos (order_of b p)))
    | inr was_not ↦ was_not
  ]

  -- What the pages say then.
  pub put_cases :
      (x : ℕ)
      → ((x ≡ p)
          × (is_block out (put_block b p m k) x ≡ true)
          × (order_of (put_block b p m k) x ≡ k))
        ⊎ (((x == p) ≡ false)
            × (is_block out (put_block b p m k) x ≡ is_block out b x)
            × (order_of (put_block b p m k) x ≡ order_of b x))
  unfolding put_block
  put_cases x = elim (Bool-cases (x == p)) [
    | inl here ↦ inl (
      (==_iff x p).0 here,
      ground (arith, here, inside, ap out ((==_iff x p).0 here)),
      ground (arith, here, small),
    )
    | inr away ↦ inr (away, ground (arith, away), ground (arith, away))
  ]

  put-IsMultiple :
      (x : ℕ)
      → is_block out (put_block b p m k) x ≡ true
      → IsMultiple (2 ^ order_of (put_block b p m k) x) x
  put-IsMultiple x h = elim (put_cases x) [
    | inl (e, l, o) ↦
        subst (λ y. IsMultiple (2 ^ order_of (put_block b p m k) y) y) (sym e)
          (elim (put_cases p) [
            | inl (e', l', o') ↦ subst (λ j. IsMultiple (2 ^ j) p) (sym o') mult
            | inr (ne, l', o') ↦ absurd (ground (arith, ne))
          ])
    | inr (ne, l, o) ↦ subst (λ j. IsMultiple (2 ^ j) x) (sym o) (inv.aligned x (sym l ∙ h))
  ]

  put-apart :
      (x y : ℕ)
      → is_block out (put_block b p m k) x ≡ true
      → is_block out (put_block b p m k) y ≡ true
      → x < y
      → x + 2 ^ order_of (put_block b p m k) x ≤ y
  put-apart x y hx hy lt = elim (put_cases x) [
    | inl (e, l, o) ↦ elim (put_cases y) [
      | inl (e', l', o') ↦ absurd (omega (arith, e, e', lt))
      | inr (ne, l', o') ↦
          omega (arith, clear y (sym l' ∙ hy), lt, e, ap (λ j. 2 ^ j) o, pow-pos (order_of b y))
    ]
    | inr (ne, l, o) ↦ elim (put_cases y) [
      | inl (e', l', o') ↦ omega (arith, clear x (sym l ∙ hx), lt, e', ap (λ j. 2 ^ j) o, pow-pos k)
      | inr (ne', l', o') ↦ rw o (inv.apart x y (sym l ∙ hx) (sym l' ∙ hy) lt)
    ]
  ]

  pub put_block-Inv : Inv out (put_block b p m k)
  unfolding put_block
  put_block-Inv = record {
    listed = λ j x. ground (arith, inv.listed j x, not_before, inside, small, ap out);
    distinct = λ j. elim (Bool-cases (j == k)) [
      | inl here ↦ rw here (ground (arith, inv.listed k p, not_before), inv.distinct k)
      | inr away ↦ rw away (inv.distinct j)
    ];
    aligned = put-IsMultiple;
    apart = put-apart;
    bounded = λ x h. elim (put_cases x) [
      | inl (e, l, o) ↦ omega (arith, o, small)
      | inr (ne, l, o) ↦ omega (arith, o, inv.bounded x (sym l ∙ h))
    ];
    max_bounded = λ x. ground (arith, inv.max_bounded x, max);
  }

  -- Its pages are free, and those that were.
  pub put_block-IsFreePage :
      (a : ℕ)
      → (IsFreePage out (put_block b p m k) a → (within_block p k a ≡ true) ⊎ IsFreePage out b a)
        × ((within_block p k a ≡ true) ⊎ IsFreePage out b a → IsFreePage out (put_block b p m k) a)
  put_block-IsFreePage a = (ahead, back)
    where
      ahead :
          IsFreePage out (put_block b p m k) a → (within_block p k a ≡ true) ⊎ IsFreePage out b a
      ahead (x, h, le, lt) = elim (put_cases x) [
        | inl (e, l, o) ↦ inl (ground (arith, le, lt, e, ap (λ j. 2 ^ j) o))
        | inr (ne, l, o) ↦ inr (x, sym l ∙ h, le, omega (arith, lt, ap (λ j. 2 ^ j) o))
      ]

      back : (within_block p k a ≡ true) ⊎ IsFreePage out b a → IsFreePage out (put_block b p m k) a
      back (inl w) = elim (put_cases p) [
        | inl (e, l, o) ↦ (p, l, ground (arith, w), ground (arith, w, ap (λ j. 2 ^ j) o))
        | inr (ne, l, o) ↦ absurd (ground (arith, ne))
      ]
      back (inr (x, h, le, lt)) = elim (put_cases x) [
        | inl (e, l, o) ↦ absurd (ground (arith, not_before, h, ap (is_block out b) e))
        | inr (ne, l, o) ↦ (x, l ∙ h, le, omega (arith, lt, ap (λ j. 2 ^ j) o))
      ]

-- A free block goes out of its list, which then is `rest`.
module _ (b : Buddy) (p k : ℕ) (rest : List ℕ) (inv : Inv none_out b)
    (block : is_block none_out b p ≡ true) (order : order_of b p ≡ k)
    (members : (x : ℕ) → has x rest ≡ (if x == p then false else has x (b.orders k)))
    (once : Distinct rest) where
  abbrev without : Buddy
  without = record b { orders = update b.orders k rest }

  was :
      (x : ℕ)
      → is_block (at p) without x ≡ true
      → (is_block none_out b x ≡ true) × ((x == p) ≡ false)
  was x h = ground (arith, h)

  pub take-Inv : Inv (at p) (record b { orders = update b.orders k rest })
  take-Inv = record {
    listed = λ j x. elim (Bool-cases (j == k)) [
      | inl here ↦ rw here (members x ∙ ground (arith, inv.listed k x, order, here))
      | inr away ↦ rw away (ground (arith, inv.listed j x, order, away, ap (order_of b)))
    ];
    distinct = λ j. elim (Bool-cases (j == k)) [
      | inl here ↦ rw here once
      | inr away ↦ rw away (inv.distinct j)
    ];
    aligned = λ x h. inv.aligned x (was x h).0;
    apart = λ x y hx hy lt. inv.apart x y (was x hx).0 (was y hy).0 lt;
    bounded = λ x h. inv.bounded x (was x h).0;
    max_bounded = inv.max_bounded;
  }

  pub take-Apart : Apart (at p) (record b { orders = update b.orders k rest }) p k
  take-Apart x h =
      let (hx, ne) = was x h in
      elim (dec_lt x p) [
        | yes less ↦ inl (inv.apart x p hx block less)
        | no ge ↦
            let above = inv.apart p x block hx (ground (arith, ge, ne)) in
            inr (omega (arith, above, ap (λ j. 2 ^ j) order))
      ]

  pub take-IsFreePage :
      (a : ℕ)
      → (IsFreePage none_out b a
          → (within_block p k a ≡ true)
            ⊎ IsFreePage (at p) (record b { orders = update b.orders k rest }) a)
        × ((within_block p k a ≡ true)
              ⊎ IsFreePage (at p) (record b { orders = update b.orders k rest }) a
            → IsFreePage none_out b a)
  take-IsFreePage a = (ahead, back)
    where
      ahead : IsFreePage none_out b a → (within_block p k a ≡ true) ⊎ IsFreePage (at p) without a
      ahead (x, h, le, lt) = elim (Bool-cases (x == p)) [
        | inl here ↦
            let e = (==_iff x p).0 here in
            inl (
              ground (arith, le, lt, e, order, ap (λ y. 2 ^ order_of b y) e, ap (λ j. 2 ^ j) order))
        | inr away ↦ inr (x, ground (arith, h, away), le, lt)
      ]

      back : (within_block p k a ≡ true) ⊎ IsFreePage (at p) without a → IsFreePage none_out b a
      back (inl w) = (p, block, ground (arith, w), ground (arith, w, ap (λ j. 2 ^ j) order))
      back (inr (x, h, le, lt)) = (x, (was x h).0, le, lt)

-- The entry of a block out of the lists is marked.
module _ (b : Buddy) (p c : ℕ) (inv : Inv (at p) b) where
  abbrev marked : Buddy
  marked = set_allocated b p c

  marked_block : (x : ℕ) → is_block none_out marked x ≡ is_block (at p) b x
  marked_block x = ground arith

  marked_order : (x : ℕ) → is_block (at p) b x ≡ true → order_of marked x ≡ order_of b x
  marked_order x h = ground (arith, h)

  pub mark-Inv : Inv none_out (set_allocated b p c)
  mark-Inv = record {
    listed = λ k x. inv.listed k x ∙ ground arith;
    distinct = inv.distinct;
    aligned = λ x h.
        let h' = sym (marked_block x) ∙ h in
        subst (λ j. IsMultiple (2 ^ j) x) (sym (marked_order x h')) (inv.aligned x h');
    apart = λ x y hx hy lt.
        let h' = sym (marked_block x) ∙ hx in
        omega (
          arith,
          inv.apart x y h' (sym (marked_block y) ∙ hy) lt,
          ap (λ j. 2 ^ j) (marked_order x h'),
        );
    bounded = λ x h.
        let h' = sym (marked_block x) ∙ h in omega (arith, inv.bounded x h', marked_order x h');
    max_bounded = λ x. ground (arith, inv.max_bounded x);
  }

  pub mark-Apart :
      (page order : ℕ) → Apart (at p) b page order → Apart none_out (set_allocated b p c) page order
  mark-Apart page order clear x h =
      let h' = sym (marked_block x) ∙ h in
      let e = ap (λ j. 2 ^ j) (marked_order x h') in
      elim (clear x h') [ inl below ↦ inl (omega (arith, below, e)) | inr above ↦ inr above ]

  pub mark-IsFreePage :
      (a : ℕ)
      → (IsFreePage none_out (set_allocated b p c) a → IsFreePage (at p) b a)
        × (IsFreePage (at p) b a → IsFreePage none_out (set_allocated b p c) a)
  mark-IsFreePage a = (ahead, back)
    where
      ahead : IsFreePage none_out marked a → IsFreePage (at p) b a
      ahead (x, h, le, lt) =
          let h' = sym (marked_block x) ∙ h in
          (x, h', le, omega (arith, lt, ap (λ j. 2 ^ j) (marked_order x h')))

      back : IsFreePage (at p) b a → IsFreePage none_out marked a
      back (x, h, le, lt) =
          (x, marked_block x ∙ h, le, omega (arith, lt, ap (λ j. 2 ^ j) (marked_order x h)))
