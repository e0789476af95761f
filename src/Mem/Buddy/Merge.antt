-- ===== src/Mem/Buddy/Merge.antt =====
-- The loop of `buddy_free` takes the buddy of the block out of its list as long as it is free.
use mathlib.Core.Path.{subst}
use evalyn_os.Base.{
  ℕ, zero, suc, ◌+◌, ◌^◌, ◌≤◌, ◌<◌, ◌≡◌, inl, inr, refl, sym, ◌∙◌, ◌==◌, ==_iff, leb, if◌then◌else◌,
  ◌&&◌, true, false, arith, Bool-cases,
}
use evalyn_os.Base.Distinct.{has, Distinct}
use evalyn_os.Base.Maps.{update}
use evalyn_os.Base.Powers.{pow-pos, pow_double}
use evalyn_os.Mem.Words.{smaller}
use evalyn_os.Mem.Vmem.{remove}
use evalyn_os.Mem.Vmem.Attach.{has-remove, Distinct-remove}
use evalyn_os.Mem.Buddy.{Buddy, returned, is_free, set_allocated, buddy_of, merge_loop}
use evalyn_os.Mem.Buddy.Invariant.{is_block, order_of, Apart, none_out, Inv, within_block}
use evalyn_os.Mem.Buddy.Moves.{
  at, take-Inv, take-Apart, take-IsFreePage, mark-Inv, mark-Apart, mark-IsFreePage,
}
use evalyn_os.Mem.Buddy.Halves.{
  buddy_of-halves, merged-IsMultiple, merged_pages, IsLoose, IsLooseOrFree, Beside, Beside-halves,
}

-- The buddy of the block is taken out of its list.
module _ (b : Buddy) (p k : ℕ) (loose : IsLoose b p k) (below : k < 14)
    (block : is_block none_out b (buddy_of p k) ≡ true)
    (order : order_of b (buddy_of p k) ≡ k) where
  abbrev o : ℕ
  o = buddy_of p k

  abbrev taken : Buddy
  taken = record b { orders = update b.orders k (remove (buddy_of p k) (b.orders k)) }

  members :
      (x : ℕ)
      → has x (remove (buddy_of p k) (b.orders k))
        ≡ (if x == buddy_of p k then false else has x (b.orders k))
  members x = has-remove x (buddy_of p k) (b.orders k) (loose.inv.distinct k)

  once : Distinct (remove (buddy_of p k) (b.orders k))
  once = Distinct-remove (buddy_of p k) (b.orders k) (loose.inv.distinct k)

  taken-Inv : Inv (at o) taken
  taken-Inv = take-Inv b o k (remove o (b.orders k)) loose.inv block order members once

  merged-Apart : (c : ℕ) → Apart none_out (set_allocated taken o c) (smaller o p) (k + 1)
  merged-Apart c x h =
      let two = pow_double k in
      let w = 2 ^ order_of (set_allocated taken o c) x in
      let pos = pow-pos (order_of (set_allocated taken o c) x) in
      let one =
        mark-Apart taken o c taken-Inv o k
          (take-Apart b o k (remove o (b.orders k)) loose.inv block order members once) x h in
      let other =
        mark-Apart taken o c taken-Inv p k (λ y h'. loose.clear y (ground (arith, h'))) x h in
      elim (buddy_of-halves p k loose.aligned) [
        | inl (m, e) ↦
            let s : smaller o p ≡ p = ground (arith, e) in
            subst (λ y. Beside x w y (2 ^ (k + 1))) (sym s)
              (Beside-halves x w p o (2 ^ k) (2 ^ (k + 1)) e two pos other one)
        | inr (m, e) ↦
            let s : smaller o p ≡ o = ground (arith, e, pow-pos k) in
            subst (λ y. Beside x w y (2 ^ (k + 1))) (sym s)
              (Beside-halves x w o p (2 ^ k) (2 ^ (k + 1)) e two pos one other)
      ]

  pub merge-IsLoose : (c : ℕ) → IsLoose (set_allocated taken o c) (smaller o p) (k + 1)
  merge-IsLoose c = record {
    inv = mark-Inv taken o c taken-Inv;
    aligned = merged-IsMultiple p k loose.aligned;
    small = omega (arith, below);
    clear = merged-Apart c;
  }

  pub merge_pages :
      (c a : ℕ)
      → (IsLooseOrFree b p k a → IsLooseOrFree (set_allocated taken o c) (smaller o p) (k + 1) a)
        × (IsLooseOrFree (set_allocated taken o c) (smaller o p) (k + 1) a → IsLooseOrFree b p k a)
  merge_pages c a = (ahead, back)
    where
      ahead :
          IsLooseOrFree b p k a → IsLooseOrFree (set_allocated taken o c) (smaller o p) (k + 1) a
      ahead (inl w) = inl (merged_pages p k a loose.aligned ∙ ground (arith, w))
      ahead (inr f) =
          elim ((take-IsFreePage b o k (remove o (b.orders k)) loose.inv block order members once
              a).0
            f) [
              | inl w ↦ inl (merged_pages p k a loose.aligned ∙ ground (arith, w))
              | inr f' ↦ inr ((mark-IsFreePage taken o c taken-Inv a).1 f')
            ]

      back : IsLooseOrFree (set_allocated taken o c) (smaller o p) (k + 1) a → IsLooseOrFree b p k a
      back (inl w) = elim (Bool-cases (within_block p k a)) [
        | inl here ↦ inl here
        | inr away ↦
            let w' : within_block o k a ≡ true =
              ground (arith, sym (merged_pages p k a loose.aligned) ∙ w, away) in
            inr (
              (take-IsFreePage b o k (remove o (b.orders k)) loose.inv block order members once a).1
                (inl w'))
      ]
      back (inr f) = inr (
          (take-IsFreePage b o k (remove o (b.orders k)) loose.inv block order members once a).1
            (inr ((mark-IsFreePage taken o c taken-Inv a).0 f)))

-- What the loop leaves: a block with the same pages, and the free ones, whose buddy is not free
-- or which is as high as it gets.
pub record IsMerged (b : Buddy) (p k : ℕ) (b' : Buddy) (p' k' : ℕ) : Type 0 where
  pub loose : IsLoose b' p' k'
  pub to_free : (a : ℕ) → IsLooseOrFree b p k a → IsLooseOrFree b' p' k' a
  pub of_free : (a : ℕ) → IsLooseOrFree b' p' k' a → IsLooseOrFree b p k a
  pub inside : (a : ℕ) → within_block p k a ≡ true → within_block p' k' a ≡ true
  pub full :
      leb (b'.pages p').max_order k' ≡ false
      → (is_block none_out b' (buddy_of p' k') && (order_of b' (buddy_of p' k') == k')) ≡ false

-- One turn of the loop
merge_loop-again :
    (fuel : ℕ) (b : Buddy) (p k : ℕ)
    → leb (b.pages p).max_order k ≡ false
    → is_free (b.pages (buddy_of p k)).kind ≡ true
    → (order_of b (buddy_of p k) == k) ≡ true
    → merge_loop (suc fuel) b p k
      ≡ merge_loop fuel
          (set_allocated
            (record b { orders = update b.orders k (remove (buddy_of p k) (b.orders k)) })
            (buddy_of p k)
            (order_of b (buddy_of p k)))
          (smaller (buddy_of p k) p)
          (k + 1)
unfolding merge_loop
merge_loop-again fuel b p k more f same = rw (more, f, same) refl

merge_loop-stop :
    (fuel : ℕ) (b : Buddy) (p k : ℕ)
    → leb (b.pages p).max_order k ≡ false
    → (is_free (b.pages (buddy_of p k)).kind && (order_of b (buddy_of p k) == k)) ≡ false
    → merge_loop (suc fuel) b p k ≡ returned (b, p, k)
unfolding merge_loop
merge_loop-stop fuel b p k more apart =
    rw more (elim (Bool-cases (is_free (b.pages (buddy_of p k)).kind)) [
      | inl f ↦
          let ne : (order_of b (buddy_of p k) == k) ≡ false = ground (arith, apart, f) in
          rw (f, ne) refl
      | inr nf ↦ rw nf refl
    ])

pub merge_loop-IsMerged :
    (fuel : ℕ) (b : Buddy) (p k : ℕ)
    → IsLoose b p k
    → 15 ≤ fuel + k
    → (b' : Buddy) × (p' k' : ℕ) × (merge_loop fuel b p k ≡ returned (b', p', k'))
      × IsMerged b p k b' p' k'
unfolding merge_loop
merge_loop-IsMerged zero b p k loose enough = absurd (omega (arith, enough, loose.small))
merge_loop-IsMerged (suc fuel) b p k loose enough =
    elim (Bool-cases (leb (b.pages p).max_order k)) [
      | inl top ↦ (
        b,
        p,
        k,
        rw top refl,
        record {
          loose = loose;
          to_free = λ a h. h;
          of_free = λ a h. h;
          inside = λ a w. w;
          full = λ more. absurd (ground (arith, top, more));
        },
      )
      | inr more ↦
          elim (Bool-cases
            (is_free (b.pages (buddy_of p k)).kind && (order_of b (buddy_of p k) == k))) [
              | inr apart ↦ (
                b,
                p,
                k,
                merge_loop-stop fuel b p k more apart,
                record {
                  loose = loose;
                  to_free = λ a h. h;
                  of_free = λ a h. h;
                  inside = λ a w. w;
                  full = λ _. ground (arith, apart);
                },
              )
              | inl both ↦
                  let o = buddy_of p k in
                  let f : is_free (b.pages o).kind ≡ true = ground (arith, both) in
                  let same : (order_of b o == k) ≡ true = ground (arith, both) in
                  let below : k < 14 = ground (arith, more, loose.inv.max_bounded p) in
                  let block : is_block none_out b o ≡ true = ground (arith, f) in
                  let order = (==_iff (order_of b o) k).0 same in
                  let c = order_of b o in
                  let pages = merge_pages b p k loose below block order c in
                  let (b', p', k', r, merged) =
                    merge_loop-IsMerged fuel
                      (set_allocated
                        (record b { orders = update b.orders k (remove o (b.orders k)) }) o c)
                      (smaller o p) (k + 1) (merge-IsLoose b p k loose below block order c)
                      (omega (arith, enough)) in
                  (
                    b',
                    p',
                    k',
                    merge_loop-again fuel b p k more f same ∙ r,
                    record {
                      loose = merged.loose;
                      to_free = λ a h. merged.to_free a ((pages a).0 h);
                      of_free = λ a h. (pages a).1 (merged.of_free a h);
                      inside = λ a w.
                          merged.inside a (merged_pages p k a loose.aligned ∙ ground (arith, w));
                      full = merged.full;
                    },
                  )
            ]
    ]
