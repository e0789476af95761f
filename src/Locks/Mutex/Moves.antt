-- ===== src/Locks/Mutex/Moves.antt =====
-- The steps of a mutex that keep the invariant for the same reason.
use mathlib.Core.Path.{subst}
use evalyn_os.Base.{
  ℕ, ◌<◌, ◌≡◌, ◌≢◌, ◌⊎◌, inl, inr, refl, ap, sym, ◌∙◌, ◌==◌, ==_iff, if◌then◌else◌, Bool, true,
  false, not, ◌&&◌, ◌||◌, List, [], arith, Bool-cases,
}
use evalyn_os.Base.Maps.{update}
use evalyn_os.Locks.Mutex.{Pc, Mutex, inside, move, move_to, IsOpen}
use evalyn_os.Locks.Mutex.Invariant.{
  owns, is_refused, is_storing, wakes, wakes_again, found_empty, is_bad, HasWaiter, NoWaiter, Inv,
}

abbrev implies : Bool → Bool → Bool
implies a b = not a || b

-- A place that the mutex is had at, or a thread woken up from, only if another is.
abbrev pub below : Pc → Pc → Bool
below q p =
    implies (owns q) (owns p)
    && (implies (wakes q) (wakes p) && (not (is_refused q) && not (is_refused p)))

-- A property of all threads but one, and of that one.
pub at_all :
    (P : ℕ → Pc → Type 0) (f : ℕ → Pc) (i : ℕ) (q : Pc)
    → P i q
    → ((k : ℕ) → (k == i) ≡ false → P k (f k))
    → (k : ℕ) → P k (update f i q k)
at_all P f i q here others k = elim (Bool-cases (k == i)) [
  | inl same ↦
      subst (λ b. P k (if b then q else f k)) (sym same)
        (subst (λ j. P j q) (sym ((==_iff k i).0 same)) here)
  | inr other ↦ subst (λ b. P k (if b then q else f k)) (sym other) (others k other)
]

-- At most one thread is in a set, when the one that moves was in it, or no other is.
pub at_most_one :
    (P : Pc → Bool) (f : ℕ → Pc) (i : ℕ) (q : Pc)
    → ((j k : ℕ) → P (f j) ≡ true → P (f k) ≡ true → j ≡ k)
    → (P q ≡ true → (P (f i) ≡ true) ⊎ ((k : ℕ) → P (f k) ≡ false))
    → (j k : ℕ) → P (update f i q j) ≡ true
    → P (update f i q k) ≡ true
    → j ≡ k
at_most_one P f i q one new =
    at_all (λ j p. (k : ℕ) → P p ≡ true → P (update f i q k) ≡ true → j ≡ k) f i q
      (at_all (λ k p. P q ≡ true → P p ≡ true → i ≡ k) f i q (λ _ _. refl)
        (λ k other hq hk. elim (new hq) [
          | inl was ↦ one i k was hk
          | inr no_one ↦ absurd (ground (arith, hk, no_one k))
        ]))
      (λ j other.
        at_all (λ k p. P (f j) ≡ true → P p ≡ true → j ≡ k) f i q
          (λ hj hq. elim (new hq) [
            | inl was ↦ one j i hj was
            | inr no_one ↦ absurd (ground (arith, hj, no_one j))
          ])
          (λ k _ hj hk. one j k hj hk))

-- A waiter that is not in the list yet stays when another thread moves.
pub HasWaiter-update :
    (queue queue' : List ℕ) (f : ℕ → Pc) (i : ℕ) (q : Pc)
    → (queue ≢ [] → queue' ≢ [])
    → is_refused (f i) ≡ false
    → (queue ≢ []) ⊎ ((k : ℕ) × (is_refused (f k) ≡ true))
    → (queue' ≢ []) ⊎ ((k : ℕ) × (is_refused (update f i q k) ≡ true))
HasWaiter-update queue queue' f i q keep no_refused (inl some_in) = inl (keep some_in)
HasWaiter-update queue queue' f i q keep no_refused (inr (k, h)) = elim (Bool-cases (k == i)) [
  | inl same ↦
      absurd (ground (arith, h, no_refused, ap (λ j. is_refused (f j)) ((==_iff k i).0 same)))
  | inr other ↦ inr (k, rw other h)
]

-- A thread moves on, and the mutex is as it was.
module _ (s : Mutex) (i : ℕ) (p q : Pc) (inv : Inv s) (at : s.pc i ≡ p) (less : below q p ≡ true)
    (section : inside q ≡ true → (inside p ≡ true) ⊎ IsOpen s)
    (stored : is_storing q ≡ true → (is_storing p ≡ true) ⊎ (s.queue ≡ []))
    (seen : wakes_again q ≡ true → (wakes_again p ≡ true) ⊎ (s.locked ≡ 2))
    (found : found_empty q ≡ true → (found_empty p ≡ true) ⊎ NoWaiter s)
    (fine : is_bad q ≡ false) where
  was : below q (s.pc i) ≡ true
  was = subst (λ x. below q x ≡ true) (sym at) less

  owned : owns q ≡ true → owns (s.pc i) ≡ true
  owned h = ground (arith, was, h)

  waked : wakes q ≡ true → wakes (s.pc i) ≡ true
  waked h = ground (arith, was, h)

  unrefused : (is_refused q ≡ false) × (is_refused (s.pc i) ≡ false)
  unrefused = (ground (arith, was), ground (arith, was))

  not_owned : owns (s.pc i) ≡ false → owns q ≡ false
  not_owned h = ground (arith, was, h)

  kept : NoWaiter s → NoWaiter (move s i q)
  kept (empty, none_refused) =
      (empty, at_all (λ _ x. is_refused x ≡ false) s.pc i q unrefused.0 (λ k _. none_refused k))

  kept_waiter : HasWaiter s → HasWaiter (move s i q)
  kept_waiter = HasWaiter-update s.queue s.queue s.pc i q (λ h. h) unrefused.1

  pub change-Inv : Inv (move s i q)
  change-Inv = record {
    one_owner = at_most_one owns s.pc i q inv.one_owner (λ h. inl (owned h));
    one_inside =
        at_most_one inside s.pc i q inv.one_inside
          (λ h. elim (section h) [ inl w ↦ inl (ap inside at ∙ w) | inr none_in ↦ inr none_in ]);
    unlocked = λ z.
        at_all (λ _ x. owns x ≡ false) s.pc i q (not_owned (inv.unlocked z i))
          (λ k _. inv.unlocked z k);
    few = λ lt. kept (inv.few lt);
    stored_empty =
        at_all (λ _ x. is_storing x ≡ true → s.queue ≡ []) s.pc i q
          (λ h. elim (stored h) [
            | inl w ↦ inv.stored_empty i (ap is_storing at ∙ w)
            | inr empty ↦ empty
          ])
          (λ k _. inv.stored_empty k);
    reserved =
        at_all (λ _ x. wakes x ≡ true → (s.locked ≡ 2) ⊎ (s.locked ≡ 3)) s.pc i q
          (λ h. inv.reserved i (waked h)) (λ k _. inv.reserved k);
    contended =
        at_all (λ _ x. wakes x ≡ true → s.locked ≡ 2 → HasWaiter (move s i q)) s.pc i q
          (λ h e. kept_waiter (inv.contended i (waked h) e))
          (λ k _ h e. kept_waiter (inv.contended k h e));
    again_is =
        at_all (λ _ x. wakes_again x ≡ true → s.locked ≡ 2) s.pc i q
          (λ h. elim (seen h) [ inl w ↦ inv.again_is i (ap wakes_again at ∙ w) | inr two ↦ two ])
          (λ k _. inv.again_is k);
    empty_still =
        at_all (λ _ x. found_empty x ≡ true → s.locked ≡ 3 → NoWaiter (move s i q)) s.pc i q
          (λ h e. elim (found h) [
            | inl w ↦ kept (inv.empty_still i (ap found_empty at ∙ w) e)
            | inr empty ↦ kept empty
          ])
          (λ k _ h e. kept (inv.empty_still k h e));
    sound = at_all (λ _ x. is_bad x ≡ false) s.pc i q fine (λ k _. inv.sound k);
  }

-- It gets into none of the sets that say more of the list.
abbrev pub fewer : Pc → Pc → Bool
fewer q p =
    below q p
    && (implies (is_storing q) (is_storing p)
        && (implies (wakes_again q) (wakes_again p)
            && (implies (found_empty q) (found_empty p) && not (is_bad q))))

pub move-Inv :
    (s : Mutex) (i : ℕ) (p q : Pc)
    → Inv s
    → s.pc i ≡ p
    → fewer q p ≡ true
    → (inside q ≡ true → (inside p ≡ true) ⊎ IsOpen s)
    → Inv (move s i q)
move-Inv s i p q inv at less section =
    change-Inv s i p q inv at (ground (arith, less)) section (λ h. inl (ground (arith, less, h)))
      (λ h. inl (ground (arith, less, h))) (λ h. inl (ground (arith, less, h)))
      (ground (arith, less))

-- A thread that does not have the mutex is in none of these sets.
owns-none :
    (x : Pc)
    → owns x ≡ false
    → (is_storing x ≡ false) × (wakes x ≡ false) × (wakes_again x ≡ false) × (found_empty x ≡ false)
owns-none x h = (ground (arith, h), ground (arith, h), ground (arith, h), ground (arith, h))

-- In none of the sets that say more of the list.
abbrev pub plain : Pc → Bool
plain q =
    not (is_refused q)
    && (not (is_storing q) && (not (wakes_again q) && (not (found_empty q) && not (is_bad q))))

-- A thread writes, and no other has the mutex.
module _ (s : Mutex) (i : ℕ) (p q : Pc) (v : ℕ) (queue : List ℕ) (inv : Inv s) (at : s.pc i ≡ p)
    (alone : (k : ℕ) → (k == i) ≡ false → owns (s.pc k) ≡ false) (is_plain : plain q ≡ true)
    (freed : v ≡ 0 → owns q ≡ false)
    (low : v < 2 → (queue ≡ []) × ((k : ℕ) → (k == i) ≡ false → is_refused (s.pc k) ≡ false))
    (three : wakes q ≡ true → v ≡ 3) (section : inside q ≡ true → inside p ≡ true) where
  abbrev t : Mutex
  t = move_to s i q v queue

  none_own : owns (s.pc i) ≡ false → (k : ℕ) → owns (s.pc k) ≡ false
  none_own h k = elim (Bool-cases (k == i)) [
    | inl same ↦ ap (λ j. owns (s.pc j)) ((==_iff k i).0 same) ∙ h
    | inr other ↦ alone k other
  ]

  sets :
      (k : ℕ)
      → (k == i) ≡ false
      → (is_storing (s.pc k) ≡ false)
        × (wakes (s.pc k) ≡ false)
        × (wakes_again (s.pc k) ≡ false)
        × (found_empty (s.pc k) ≡ false)
  sets k other = owns-none (s.pc k) (alone k other)

  pub write-Inv : Inv (move_to s i q v queue)
  write-Inv = record {
    one_owner = at_most_one owns s.pc i q inv.one_owner (λ _. elim (Bool-cases (owns (s.pc i))) [
      | inl yes_own ↦ inl yes_own
      | inr no_own ↦ inr (none_own no_own)
    ]);
    one_inside = at_most_one inside s.pc i q inv.one_inside (λ h. inl (ap inside at ∙ section h));
    unlocked = λ z. at_all (λ _ x. owns x ≡ false) s.pc i q (freed z) alone;
    few = λ lt. (
      (low lt).0,
      at_all (λ _ x. is_refused x ≡ false) s.pc i q (ground (arith, is_plain)) (low lt).1,
    );
    stored_empty =
        at_all (λ _ x. is_storing x ≡ true → queue ≡ []) s.pc i q
          (λ h. absurd (ground (arith, is_plain, h)))
          (λ k other h. absurd (ground (arith, h, (sets k other).0)));
    reserved =
        at_all (λ _ x. wakes x ≡ true → (v ≡ 2) ⊎ (v ≡ 3)) s.pc i q (λ h. inr (three h))
          (λ k other h. absurd (ground (arith, h, (sets k other).1)));
    contended =
        at_all (λ _ x. wakes x ≡ true → v ≡ 2 → HasWaiter t) s.pc i q
          (λ h e. absurd (omega (arith, e, three h)))
          (λ k other h. absurd (ground (arith, h, (sets k other).1)));
    again_is =
        at_all (λ _ x. wakes_again x ≡ true → v ≡ 2) s.pc i q
          (λ h. absurd (ground (arith, is_plain, h)))
          (λ k other h. absurd (ground (arith, h, (sets k other).2)));
    empty_still =
        at_all (λ _ x. found_empty x ≡ true → v ≡ 3 → NoWaiter t) s.pc i q
          (λ h. absurd (ground (arith, is_plain, h)))
          (λ k other h. absurd (ground (arith, h, (sets k other).3)));
    sound =
        at_all (λ _ x. is_bad x ≡ false) s.pc i q (ground (arith, is_plain)) (λ k _. inv.sound k);
  }
