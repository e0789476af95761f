-- ===== src/Locks/Mutex/Handed.antt =====
-- The first waiter is taken out of the list and woken up.
use mathlib.Core.Path.{subst}
use evalyn_os.Base.{
  ℕ, ◌≡◌, ◌⊎◌, inl, inr, ap, sym, ◌∙◌, ◌==◌, ==_iff, Bool, true, false, ◌||◌, List, ◌∷◌, arith,
  Bool-cases,
}
use evalyn_os.Base.Distinct.{has, Distinct}
use evalyn_os.Base.Maps.{update}
use evalyn_os.Locks.Mutex.{
  Pc, Mutex, idle, waiting, woken, popping, popped, to_wake, inside, awake, move, move_to, waken,
}
use evalyn_os.Locks.Mutex.Invariant.{owns, Inv}
use evalyn_os.Locks.Mutex.Moves.{at_all}
use evalyn_os.Locks.Mutex.Listed.{is_queued, hands, Listed, update-here, update-other}
use evalyn_os.Locks.Mutex.Lists.{elsewhere, queued_outside, hands-owns}

-- A thread that hands the mutex on is the one that has it.
one_hands : (s : Mutex) (i m k : ℕ) → Inv s → owns (s.pc i) ≡ true → hands (s.pc m) k ≡ true → m ≡ i
one_hands s i m k inv own h = inv.one_owner m i (hands-owns (s.pc m) k h) own

differs : (k j : ℕ) (xs : List ℕ) → has k xs ≡ true → has j xs ≡ false → (k == j) ≡ false
differs k j xs h n = elim (Bool-cases (k == j)) [
  | inl here ↦ absurd (ground (arith, h, n, ap (λ x. has x xs) ((==_iff k j).0 here)))
  | inr away ↦ away
]

-- The first waiter is taken out of the list.
module _ (s : Mutex) (i : ℕ) (b : Bool) (j : ℕ) (rest : List ℕ) (inv : Inv s) (listed : Listed s)
    (at : s.pc i ≡ popping b) (first : s.queue ≡ j ∷ rest) where
  whole : (k : ℕ) → has k s.queue ≡ ((k == j) || has k rest)
  whole k = ap (has k) first

  apart : (has j rest ≡ false) × Distinct rest
  apart = subst Distinct first listed.distinct

  first_waits : s.pc j ≡ waiting
  first_waits =
      let q = listed.queued j (whole j ∙ ground arith) in
      queued_outside (s.pc j) q (elim (Bool-cases (inside (s.pc j))) [
        | inr out ↦ out
        | inl in_too ↦
            let e = inv.one_inside j i in_too (ap inside at) in
            absurd (ground (arith, q, ap (λ k. is_queued (s.pc k)) e, ap is_queued at))
      ])

  no_hands : (m k : ℕ) → hands (s.pc m) k ≡ true → ⊥
  no_hands m k h =
      let e = one_hands s i m k inv (ap owns at) h in
      ground (arith, h, ap (λ x. hands (s.pc x) k) e, ap (λ x. hands x k) at)

  pub pop_front-Listed : Listed (move_to s i (popped j) s.locked rest)
  pop_front-Listed = record {
    distinct = apart.1;
    queued = λ k h.
        let was = listed.queued k (whole k ∙ ground (arith, h)) in
        ap is_queued
          (update-other s.pc i (popped j) k (elsewhere is_queued s.pc i k (ap is_queued at) was))
        ∙ was;
    handed =
        at_all
          (λ m x.
            (k : ℕ)
            → hands x k ≡ true
            → (update s.pc i (popped j) k ≡ waiting) × (has k rest ≡ false))
          s.pc i (popped j)
          (λ k h.
            let e = (==_iff k j).0 h in
            subst (λ y. (update s.pc i (popped j) y ≡ waiting) × (has y rest ≡ false)) (sym e)
              (
                update-other s.pc i (popped j) j
                      (elsewhere is_queued s.pc i j (ap is_queued at) (ap is_queued first_waits))
                    ∙ first_waits,
                apart.0,
              ))
          (λ m _ k h. absurd (no_hands m k h));
    waits =
        at_all
          (λ k x.
            is_queued x ≡ true
            → (has k rest ≡ true) ⊎ ((m : ℕ) × (hands (update s.pc i (popped j) m) k ≡ true)))
          s.pc i (popped j) (λ h. absurd (ground (arith, h)))
          (λ k other h. elim (listed.waits k h) [
            | inl there ↦ elim (Bool-cases (k == j)) [
              | inl here ↦ inr (i, ap (λ x. hands x k) (update-here s.pc i (popped j)) ∙ here)
              | inr away ↦ inl (ground (arith, sym (whole k) ∙ there, away))
            ]
            | inr (m, hd) ↦ absurd (no_hands m k hd)
          ]);
    owned = λ z. (i, ap owns (update-here s.pc i (popped j)));
  }

-- It is woken up.
module _ (s : Mutex) (i j : ℕ) (inv : Inv s) (listed : Listed s) (at : s.pc i ≡ to_wake j) where
  j_waits : (s.pc j ≡ waiting) × (has j s.queue ≡ false)
  j_waits = listed.handed i j (ap (λ x. hands x j) at ∙ ground arith)

  j_other : (j == i) ≡ false
  j_other = elsewhere is_queued s.pc i j (ap is_queued at) (ap is_queued j_waits.0)

  abbrev after : ℕ → Pc
  after = update (update s.pc i idle) j woken

  after_else : (k : ℕ) → (k == j) ≡ false → (k == i) ≡ false → after k ≡ s.pc k
  after_else k a c = update-other (update s.pc i idle) j woken k a ∙ update-other s.pc i idle k c

  none_hands : (m k : ℕ) → hands (after m) k ≡ true → ⊥
  none_hands m k h = elim (Bool-cases (m == j)) [
    | inl here ↦ ground (arith, h, here)
    | inr away ↦ elim (Bool-cases (m == i)) [
      | inl self ↦ ground (arith, h, away, self)
      | inr other ↦
          let e =
            one_hands s i m k inv (ap owns at)
              (sym (ap (λ x. hands x k) (after_else m away other)) ∙ h) in
          ground (arith, e, other)
    ]
  ]

  in_list_else : (k : ℕ) → has k s.queue ≡ true → ((k == j) ≡ false) × ((k == i) ≡ false)
  in_list_else k h = (
    differs k j s.queue h j_waits.1,
    elsewhere is_queued s.pc i k (ap is_queued at) (listed.queued k h),
  )

  woken-Listed : Listed (record s { pc = after })
  woken-Listed = record {
    distinct = listed.distinct;
    queued =
        λ k h. let (a, c) = in_list_else k h in ap is_queued (after_else k a c) ∙ listed.queued k h;
    handed = λ m k h. absurd (none_hands m k h);
    waits = λ k h. elim (Bool-cases (k == j)) [
      | inl here ↦ absurd (ground (arith, h, here))
      | inr a ↦ elim (Bool-cases (k == i)) [
        | inl self ↦ absurd (ground (arith, h, a, self))
        | inr c ↦ elim (listed.waits k (sym (ap is_queued (after_else k a c)) ∙ h)) [
          | inl there ↦ inl there
          | inr (m, hd) ↦
              let e = one_hands s i m k inv (ap owns at) hd in
              let back : (k == j) ≡ true =
                sym (ap (λ x. hands x k) at) ∙ sym (ap (λ x. hands (s.pc x) k) e) ∙ hd in
              absurd (ground (arith, back, a))
        ]
      ]
    ];
    owned = λ z. (j, ap owns (update-here (update s.pc i idle) j woken));
  }

  pub wake-Listed : Listed (waken (move s i idle) j)
  wake-Listed =
      let e : awake (update s.pc i idle j) ≡ woken =
        ap awake (update-other s.pc i idle j j_other ∙ j_waits.0) in
      subst (λ x. Listed (record s { pc = update (update s.pc i idle) j x })) (sym e) woken-Listed
