-- ===== src/Locks/Mutex/Lists.antt =====
-- The steps of a mutex that change the list of the waiters.
use evalyn_os.Base.{
  ℕ, ◌≡◌, ◌⊎◌, inl, inr, refl, ap, sym, ◌∙◌, ◌==◌, ==_iff, Bool, true, false, ◌||◌, List, [], ◌∷◌,
  ◌++◌, arith, Bool-cases,
}
use evalyn_os.Base.Distinct.{has, Distinct}
use evalyn_os.Base.Maps.{update}
use evalyn_os.Mem.Vmem.{remove}
use evalyn_os.Mem.Vmem.Attach.{has-remove, Distinct-remove}
use evalyn_os.Locks.Mutex.{
  Pc, Mutex, refused, pushed, waiting, deleting, deleted, inside, move, move_to,
}
use evalyn_os.Locks.Mutex.Invariant.{owns}
use evalyn_os.Locks.Mutex.Moves.{at_all}
use evalyn_os.Locks.Mutex.Listed.{is_queued, hands, Listed, update-here, update-other, owner_stays}

has-append : (k i : ℕ) (xs : List ℕ) → has k (xs ++ (i ∷ [])) ≡ (has k xs || (k == i))
has-append k i [] = ground arith
has-append k i (x ∷ xs) = ground (arith, has-append k i xs)

append-Distinct : (i : ℕ) (xs : List ℕ) → Distinct xs → has i xs ≡ false → Distinct (xs ++ (i ∷ []))
append-Distinct i [] d h = (refl, tt)
append-Distinct i (x ∷ xs) d h =
    (has-append x i xs ∙ ground (arith, d.0, h), append-Distinct i xs d.1 (ground (arith, h)))

-- A thread that stands elsewhere is another.
pub elsewhere :
    (P : Pc → Bool) (f : ℕ → Pc) (i k : ℕ) → P (f i) ≡ false → P (f k) ≡ true → (k == i) ≡ false
elsewhere P f i k out h = elim (Bool-cases (k == i)) [
  | inl here ↦ absurd (ground (arith, out, h, ap (λ j. P (f j)) ((==_iff k i).0 here)))
  | inr away ↦ away
]

waiting_queued : (x : Pc) → x ≡ waiting → is_queued x ≡ true
waiting_queued x e = ap is_queued e

pub queued_outside : (x : Pc) → is_queued x ≡ true → inside x ≡ false → x ≡ waiting
queued_outside x h o = ground (arith, h, o)

pub hands-owns : (x : Pc) (k : ℕ) → hands x k ≡ true → owns x ≡ true
hands-owns x k h = ground (arith, h)

-- A waiter is put into the list.
module _ (s : Mutex) (i : ℕ) (listed : Listed s) (at : s.pc i ≡ refused) where
  abbrev grown : List ℕ
  grown = s.queue ++ (i ∷ [])

  not_in : has i s.queue ≡ false
  not_in = elim (Bool-cases (has i s.queue)) [
    | inl there ↦ absurd (ground (arith, sym (ap is_queued at) ∙ listed.queued i there))
    | inr away ↦ away
  ]

  grown_other : (k : ℕ) → (k == i) ≡ false → has k grown ≡ has k s.queue
  grown_other k other = has-append k i s.queue ∙ ground (arith, other)

  grown_hands : (j k : ℕ) → hands (update s.pc i pushed j) k ≡ hands (s.pc j) k
  grown_hands =
      at_all (λ j x. (k : ℕ) → hands x k ≡ hands (s.pc j) k) s.pc i pushed
        (λ k. ap (λ x. hands x k) (sym at)) (λ j _ k. refl)

  pub push_back-Listed : Listed (move_to s i pushed s.locked (s.queue ++ (i ∷ [])))
  push_back-Listed = record {
    distinct = append-Distinct i s.queue listed.distinct not_in;
    queued =
        at_all (λ k x. has k grown ≡ true → is_queued x ≡ true) s.pc i pushed (λ _. refl)
          (λ k other h. listed.queued k (sym (grown_other k other) ∙ h));
    handed = λ j k h.
        let (w, n) = listed.handed j k (sym (grown_hands j k) ∙ h) in
        let other = elsewhere is_queued s.pc i k (ap is_queued at) (ap is_queued w) in
        (update-other s.pc i pushed k other ∙ w, grown_other k other ∙ n);
    waits =
        at_all
          (λ k x.
            is_queued x ≡ true
            → (has k grown ≡ true) ⊎ ((j : ℕ) × (hands (update s.pc i pushed j) k ≡ true)))
          s.pc i pushed (λ _. inl (has-append i i s.queue ∙ ground arith))
          (λ k other h. elim (listed.waits k h) [
            | inl there ↦ inl (grown_other k other ∙ there)
            | inr (j, hd) ↦ inr (j, grown_hands j k ∙ hd)
          ]);
    owned = λ z.
        elim (owner_stays s i refused pushed listed at (λ h. absurd (ground (arith, h))) z) [
          | inl own ↦ absurd (ground (arith, own))
          | inr (k, other, own) ↦ (k, ap owns (update-other s.pc i pushed k other) ∙ own)
        ];
  }

-- It leaves the lock of the list.
module _ (s : Mutex) (i : ℕ) (listed : Listed s) (at : s.pc i ≡ pushed) where
  left_hands : (j k : ℕ) → hands (update s.pc i waiting j) k ≡ hands (s.pc j) k
  left_hands =
      at_all (λ j x. (k : ℕ) → hands x k ≡ hands (s.pc j) k) s.pc i waiting
        (λ k. ap (λ x. hands x k) (sym at)) (λ j _ k. refl)

  left_waits :
      (k : ℕ)
      → is_queued (s.pc k) ≡ true
      → (has k s.queue ≡ true) ⊎ ((j : ℕ) × (hands (update s.pc i waiting j) k ≡ true))
  left_waits k h = elim (listed.waits k h) [
    | inl there ↦ inl there
    | inr (j, hd) ↦ inr (j, left_hands j k ∙ hd)
  ]

  pub leave_pushed-Listed : Listed (move s i waiting)
  leave_pushed-Listed = record {
    distinct = listed.distinct;
    queued =
        at_all (λ k x. has k s.queue ≡ true → is_queued x ≡ true) s.pc i waiting (λ _. refl)
          (λ k _. listed.queued k);
    handed = λ j k h.
        let (w, n) = listed.handed j k (sym (left_hands j k) ∙ h) in
        (
          elim (Bool-cases (k == i)) [
            | inl here ↦ rw here refl
            | inr away ↦ update-other s.pc i waiting k away ∙ w
          ],
          n,
        );
    waits =
        at_all
          (λ k x.
            is_queued x ≡ true
            → (has k s.queue ≡ true) ⊎ ((j : ℕ) × (hands (update s.pc i waiting j) k ≡ true)))
          s.pc i waiting (λ _. left_waits i (ap is_queued at)) (λ k _ h. left_waits k h);
    owned = λ z.
        elim (owner_stays s i pushed waiting listed at (λ h. absurd (ground (arith, h))) z) [
          | inl own ↦ absurd (ground (arith, own))
          | inr (k, other, own) ↦ (k, ap owns (update-other s.pc i waiting k other) ∙ own)
        ];
  }

-- A thread deletes itself, which is not there.
module _ (s : Mutex) (i : ℕ) (listed : Listed s) (at : s.pc i ≡ deleting) where
  cut_other : (k : ℕ) → (k == i) ≡ false → has k (remove i s.queue) ≡ has k s.queue
  cut_other k other = has-remove k i s.queue listed.distinct ∙ ground (arith, other)

  cut_within : (k : ℕ) → has k (remove i s.queue) ≡ true → has k s.queue ≡ true
  cut_within k h = ground (arith, sym (has-remove k i s.queue listed.distinct) ∙ h)

  cut_hands : (j k : ℕ) → hands (update s.pc i deleted j) k ≡ hands (s.pc j) k
  cut_hands =
      at_all (λ j x. (k : ℕ) → hands x k ≡ hands (s.pc j) k) s.pc i deleted
        (λ k. ap (λ x. hands x k) (sym at)) (λ j _ k. refl)

  pub try_delete-Listed : Listed (move_to s i deleted s.locked (remove i s.queue))
  try_delete-Listed = record {
    distinct = Distinct-remove i s.queue listed.distinct;
    queued = λ k h.
        let was = listed.queued k (cut_within k h) in
        ap is_queued
          (update-other s.pc i deleted k (elsewhere is_queued s.pc i k (ap is_queued at) was))
        ∙ was;
    handed = λ j k h.
        let (w, n) = listed.handed j k (sym (cut_hands j k) ∙ h) in
        let other = elsewhere is_queued s.pc i k (ap is_queued at) (ap is_queued w) in
        (update-other s.pc i deleted k other ∙ w, cut_other k other ∙ n);
    waits =
        at_all
          (λ k x.
            is_queued x ≡ true
            → (has k (remove i s.queue) ≡ true)
              ⊎ ((j : ℕ) × (hands (update s.pc i deleted j) k ≡ true)))
          s.pc i deleted (λ h. absurd (ground (arith, h)))
          (λ k other h. elim (listed.waits k h) [
            | inl there ↦ inl (cut_other k other ∙ there)
            | inr (j, hd) ↦ inr (j, cut_hands j k ∙ hd)
          ]);
    owned = λ z. (i, ap owns (update-here s.pc i deleted));
  }
