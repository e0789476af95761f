-- ===== src/Mem/Buddy/Split.antt =====
-- A block is split down to the order asked for.
use mathlib.Core.Path.{subst}
use native.Mathlib.Nat.{mod-mod, mod-mod_of_dvd, dvd_of_mod-eq-zero, mul-mod_left, mod_self}
use evalyn_os.Base.{
  ℕ, zero, suc, ◌+◌, ◌*◌, ◌%◌, ◌^◌, ◌≤◌, ◌≡◌, ◌⊎◌, inl, inr, refl, ap, sym, ◌∙◌, ltb, leb, ◌&&◌,
  Bool, true, false, arith, dec_lt,
}
use evalyn_os.Base.Powers.{pow-pos, pow_double_sum, pow_mono}
use evalyn_os.Mem.Words.Multiples.{IsMultiple, IsMultiple-add}
use evalyn_os.Mem.Buddy.{Buddy, put_block, split_loop}
use evalyn_os.Mem.Buddy.Invariant.{Apart, Inv, IsFreePage}
use evalyn_os.Mem.Buddy.Moves.{at, put_cases, put_block-Inv, put_block-IsFreePage}

-- A multiple of a double is one of the half.
pub half-IsMultiple : (q p : ℕ) → IsMultiple (2 * q) p → IsMultiple q p
half-IsMultiple q p h =
    let d : (2 * q) % q ≡ 0 = mul-mod_left 2 q in
    let e : p % (2 * q) % q ≡ p % q = mod-mod_of_dvd q p (dvd_of_mod-eq-zero q d) in
    let z : 0 % q ≡ 0 = ap (λ x. x % q) (sym d) ∙ mod-mod (2 * q) q ∙ d in
    sym e ∙ ap (λ x. x % q) h ∙ z

-- The part behind the first `2 ^ order` pages of a block of order `order + d`.
abbrev pub behind : (page order d a : ℕ) → Bool
behind page order d a = leb (page + 2 ^ order) a && ltb a (page + 2 ^ (order + d))

pub record IsSplitDown (b : Buddy) (p order d : ℕ) (r : Buddy) : Type 0 where
  pub inv : Inv (at p) r
  pub clear : Apart (at p) r p order
  pub same : r.pages p ≡ b.pages p
  pub to_free :
      (a : ℕ) → (behind p order d a ≡ true) ⊎ IsFreePage (at p) b a → IsFreePage (at p) r a
  pub of_free :
      (a : ℕ) → IsFreePage (at p) r a → (behind p order d a ≡ true) ⊎ IsFreePage (at p) b a

pub split_loop-IsSplitDown :
    (d : ℕ) (b : Buddy) (p m order : ℕ)
    → Inv (at p) b
    → Apart (at p) b p (order + d)
    → IsMultiple (2 ^ (order + d)) p
    → order + d ≤ 14
    → m ≤ 14
    → IsSplitDown b p order d (split_loop d b p m order)
unfolding split_loop
split_loop-IsSplitDown zero b p m order inv clear mult small max =
    let e : 2 ^ (order + 0) ≡ 2 ^ order = ap (λ k. 2 ^ k) (omega arith) in
    record {
      inv = inv;
      clear = λ x h. elim (clear x h) [ inl lo ↦ inl lo | inr hi ↦ inr (omega (arith, hi, e)) ];
      same = refl;
      to_free = λ a h. elim h [ inl w ↦ absurd (ground (arith, w, e)) | inr f ↦ f ];
      of_free = λ a f. inr f;
    }
split_loop-IsSplitDown (suc d) b p m order inv clear mult small max =
    let k = order + d in
    let y = p + 2 ^ k in
    let two = pow_double_sum order d in
    let pos = pow-pos k in
    let half : IsMultiple (2 ^ k) p =
      half-IsMultiple (2 ^ k) p (subst (λ q. IsMultiple q p) two mult) in
    let ym : IsMultiple (2 ^ k) y = IsMultiple-add (2 ^ k) p (2 ^ k) half (mod_self (2 ^ k)) in
    let yc : Apart (at p) b y k = λ x h. elim (clear x h) [
      | inl lo ↦ inl (omega (arith, lo))
      | inr hi ↦ inr (omega (arith, hi, two))
    ] in
    let yo : at p y ≡ false = ground (arith, pos) in
    let ks : k ≤ 14 = omega (arith, small) in
    let c = put_block b y m k in
    let shared = put_block-IsFreePage (at p) b y m k inv yc ym ks max yo in
    let cclear : Apart (at p) c p k = λ x h. elim (put_cases (at p) b y m k inv yc ym ks max yo x) [
      | inl (e, l, o) ↦ inr (omega (arith, e))
      | inr (ne, l, o) ↦ elim (clear x (sym l ∙ h)) [
        | inl lo ↦ inl (omega (arith, lo, ap (λ j. 2 ^ j) o))
        | inr hi ↦ inr (omega (arith, hi, two))
      ]
    ] in
    let rest =
      split_loop-IsSplitDown d c p m order (put_block-Inv (at p) b y m k inv yc ym ks max yo) cclear
        half ks max in
    record {
      inv = rest.inv;
      clear = rest.clear;
      same = rest.same ∙ ground (arith, pos);
      to_free = λ a h. elim h [
        | inl w ↦ elim (dec_lt a y) [
          | yes front ↦ rest.to_free a (inl (ground (arith, w, front)))
          | no back ↦ rest.to_free a (inr ((shared a).1 (inl (ground (arith, w, back, two)))))
        ]
        | inr f ↦ rest.to_free a (inr ((shared a).1 (inr f)))
      ];
      of_free = λ a f. elim (rest.of_free a f) [
        | inl w ↦ inl (ground (arith, w, two))
        | inr g ↦ elim ((shared a).0 g) [
          | inl w ↦ inl (ground (arith, w, two, pow_mono order k (omega arith)))
          | inr f' ↦ inr f'
        ]
      ];
    }
