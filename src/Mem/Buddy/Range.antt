-- ===== src/Mem/Buddy/Range.antt =====
-- `buddy_add_range_nlock`: exactly the pages of the range become free.
use mathlib.Core.Path.{subst}
use native.Mathlib.Nat.{mul-mod_right, div-le_self}
use evalyn_os.Base.{
  ℕ, zero, suc, ◌+◌, ◌-◌, ◌*◌, ◌/◌, ◌%◌, ◌^◌, ◌≤◌, ◌<◌, ◌≡◌, ◌⊎◌, inl, inr, refl, ap, sym, ◌∙◌,
  ◌==◌, ltb, leb, ◌&&◌, Bool, true, false, arith, Bool-cases, dec_lt,
}
use evalyn_os.Base.Powers.{pow-pos, pow_mono, pow_double}
use evalyn_os.Mem.Words.{add64, smaller, align_up, log2ull}
use evalyn_os.Mem.Words.Logarithms.{log2ull-bounds}
use evalyn_os.Mem.Words.Multiples.{IsMultiple, quotient}
use evalyn_os.Mem.Buddy.{
  Buddy, returned, add_block, trailing_zeros, fitting_order, add_loop, add_range,
}
use evalyn_os.Mem.Buddy.Invariant.{none_out, Inv, IsFreePage}
use evalyn_os.Mem.Buddy.Moves.{put_block-Inv, put_block-IsFreePage}
use evalyn_os.Mem.Buddy.Alloc.{down-IsMultiple}
use evalyn_os.Mem.Buddy.Free.{gone-Apart}

-- A number is a multiple of the power of two at its trailing zeros.
trailing_zeros-IsMultiple : (bits p : ℕ) → IsMultiple (2 ^ trailing_zeros bits p) p
unfolding trailing_zeros
trailing_zeros-IsMultiple zero p = omega arith
trailing_zeros-IsMultiple (suc bits) p = elim (Bool-cases (p % 2 == 1)) [
  | inl odd ↦ rw odd (omega arith)
  | inr even ↦
      let z = trailing_zeros bits (p / 2) in
      let q = 2 ^ z in
      let rest = trailing_zeros-IsMultiple bits (p / 2) in
      let whole : q * (p / 2 / q) ≡ p / 2 = quotient q (p / 2) rest in
      let two : 2 ^ suc z ≡ 2 * q = ap (λ x. 2 ^ x) (omega arith) ∙ pow_double z in
      let flat : 2 * q * (p / 2 / q) ≡ 2 * (q * (p / 2 / q)) = grind arith in
      let p_is : 2 * q * (p / 2 / q) ≡ p = ground (arith, flat, whole, even) in
      rw even (
        subst (λ y. p % y ≡ 0) (sym two)
          (ap (λ x. x % (2 * q)) (sym p_is) ∙ mul-mod_right (2 * q) (p / 2 / q)))
]

IsMultiple-below : (k j p : ℕ) → k ≤ j → IsMultiple (2 ^ j) p → IsMultiple (2 ^ k) p
IsMultiple-below k j p le h =
    let e : j ≡ k + (j - k) = omega (arith, le) in
    down-IsMultiple k (j - k) p (subst (λ x. IsMultiple (2 ^ x) p) e h)

smaller_of_three :
    (a b c : ℕ)
    → (smaller a (smaller b c) ≤ a) × (smaller a (smaller b c) ≤ b) × (smaller a (smaller b c) ≤ c)
smaller_of_three a b c = (ground arith, ground arith, ground arith)

-- The block that the loop adds is aligned, and ends within the range.
module _ (page end : ℕ) (lt : page < end) (small : end < 2 ^ 64) where
  orders_fit :
      (fitting_order page end ≤ 14)
      × (fitting_order page end ≤ log2ull (end - page))
      × (fitting_order page end ≤ trailing_zeros 52 page)
  unfolding fitting_order
  orders_fit = smaller_of_three 14 (log2ull (end - page)) (trailing_zeros 52 page)

  pub fitting_order_le : fitting_order page end ≤ 14
  fitting_order_le = orders_fit.0

  pub fitting_order-IsMultiple : IsMultiple (2 ^ fitting_order page end) page
  fitting_order-IsMultiple =
      IsMultiple-below (fitting_order page end) (trailing_zeros 52 page) page orders_fit.2
        (trailing_zeros-IsMultiple 52 page)

  pub fitting_order-le : page + 2 ^ fitting_order page end ≤ end
  fitting_order-le =
      let (le, _) = log2ull-bounds (end - page) (omega (arith, lt)) (omega (arith, small)) in
      omega (arith, lt, le, pow_mono (fitting_order page end) (log2ull (end - page)) orders_fit.1)

abbrev pub in_range : (page end a : ℕ) → Bool
in_range page end a = leb page a && ltb a end

in_range-wider :
    (page end end' a : ℕ) → end ≤ end' → in_range page end a ≡ true → in_range page end' a ≡ true
in_range-wider page end end' a le w = ground (arith, w)

in_range-lower :
    (page page' end a : ℕ) → page ≤ page' → in_range page' end a ≡ true → in_range page end a ≡ true
in_range-lower page page' end a le w = ground (arith, w)

in_range-apart :
    (page next end a : ℕ) → in_range page next a ≡ true → in_range next end a ≡ true → ⊥
in_range-apart page next end a w w' = ground (arith, w, w')

in_range-front :
    (page next end a : ℕ) → in_range page end a ≡ true → a < next → in_range page next a ≡ true
in_range-front page next end a w lt = ground (arith, w, lt)

in_range-back :
    (page next end a : ℕ) → in_range page end a ≡ true → ¬ (a < next) → in_range next end a ≡ true
in_range-back page next end a w ge = ground (arith, w, ge)

pub record IsAdded (b : Buddy) (page end : ℕ) (b' : Buddy) : Type 0 where
  pub inv : Inv none_out b'
  pub to_free :
      (a : ℕ) → (in_range page end a ≡ true) ⊎ IsFreePage none_out b a → IsFreePage none_out b' a
  pub of_free :
      (a : ℕ) → IsFreePage none_out b' a → (in_range page end a ≡ true) ⊎ IsFreePage none_out b a

pub add_loop-IsAdded :
    (fuel : ℕ) (b : Buddy) (page end : ℕ)
    → Inv none_out b
    → 0 < page
    → page ≤ end
    → end < 2 ^ 64
    → end < page + fuel
    → ((a : ℕ) → in_range page end a ≡ true → ¬ IsFreePage none_out b a)
    → (b' : Buddy) × (add_loop fuel b page end ≡ returned b') × IsAdded b page end b'
unfolding add_loop add_block
add_loop-IsAdded zero b page end inv pos le small enough unused = absurd (omega (arith, enough, le))
add_loop-IsAdded (suc fuel) b page end inv pos le small enough unused =
    elim (Bool-cases (leb end page)) [
      | inl done ↦ (
        b,
        rw done refl,
        record {
          inv = inv;
          to_free = λ a h. elim h [ inl w ↦ absurd (ground (arith, w, done)) | inr f ↦ f ];
          of_free = λ a f. inr f;
        },
      )
      | inr more ↦
          let lt : page < end = ground (arith, more) in
          let k = fitting_order page end in
          let c = add_block b page k in
          let fit = fitting_order-le page end lt small in
          let tiny = fitting_order_le page end lt small in
          let mult = fitting_order-IsMultiple page end lt small in
          let nz : (page == 0) ≡ false = ground (arith, pos) in
          let clear =
            gone-Apart none_out b page k
              (λ a w. unused a (in_range-wider page (page + 2 ^ k) end a fit w)) in
          let pages = put_block-IsFreePage none_out b page k k inv clear mult tiny tiny refl in
          let (b', r, rest) =
            add_loop-IsAdded fuel c (page + 2 ^ k) end
              (put_block-Inv none_out b page k k inv clear mult tiny tiny refl) (omega (arith, pos))
              fit small (omega (arith, enough, pow-pos k))
              (λ a w f. elim ((pages a).0 f) [
                | inl w' ↦ in_range-apart page (page + 2 ^ k) end a w' w
                | inr f' ↦ unused a (in_range-lower page (page + 2 ^ k) end a (omega arith) w) f'
              ]) in
          (
            b',
            rw (more, nz) r,
            record {
              inv = rest.inv;
              to_free = λ a h. elim h [
                | inl w ↦ elim (dec_lt a (page + 2 ^ k)) [
                  | yes front ↦
                      rest.to_free a
                        (inr ((pages a).1 (inl (in_range-front page (page + 2 ^ k) end a w front))))
                  | no back ↦ rest.to_free a (inl (in_range-back page (page + 2 ^ k) end a w back))
                ]
                | inr f ↦ rest.to_free a (inr ((pages a).1 (inr f)))
              ];
              of_free = λ a f. elim (rest.of_free a f) [
                | inl w ↦ inl (in_range-lower page (page + 2 ^ k) end a (omega arith) w)
                | inr g ↦ elim ((pages a).0 g) [
                  | inl w ↦ inl (in_range-wider page (page + 2 ^ k) end a fit w)
                  | inr f' ↦ inr f'
                ]
              ];
            },
          )
    ]

-- The frames that lie whole within the bytes of a range.
abbrev pub first_frame : (page_size start : ℕ) → ℕ
first_frame page_size start = align_up start page_size / page_size

abbrev pub end_frame : (page_size start length : ℕ) → ℕ
end_frame page_size start length = add64 start length / page_size

-- In a well-formed allocator, adding a range of bytes whose first frame is not 0 and none of whose
-- frames is free terminates without a failed assertion: exactly the frames from the start rounded
-- up to the end rounded down are free besides those that were, and the allocator is well formed.
pub add_range-IsAdded :
    (page_size : ℕ) (b : Buddy) (start length : ℕ)
    → Inv none_out b
    → 0 < first_frame page_size start
    → ((a : ℕ)
        → in_range (first_frame page_size start) (end_frame page_size start length) a ≡ true
        → ¬ IsFreePage none_out b a)
    → (b' : Buddy) × (add_range page_size b start length ≡ returned b')
      × IsAdded b (first_frame page_size start) (end_frame page_size start length) b'
unfolding add_range
add_range-IsAdded page_size b start length inv pos unused =
    let first = first_frame page_size start in
    let end = end_frame page_size start length in
    let small : end < 2 ^ 64 = omega (arith, div-le_self (add64 start length) page_size) in
    elim (Bool-cases (leb end first)) [
      | inl empty ↦ (
        b,
        rw empty refl,
        record {
          inv = inv;
          to_free = λ a h. elim h [ inl w ↦ absurd (ground (arith, w, empty)) | inr f ↦ f ];
          of_free = λ a f. inr f;
        },
      )
      | inr more ↦
          let (b', r, added) =
            add_loop-IsAdded (suc (end - first)) b first end inv pos (ground (arith, more)) small
              (omega arith) unused in
          (b', rw more r, added)
    ]
