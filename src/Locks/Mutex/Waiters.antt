-- ===== src/Locks/Mutex/Waiters.antt =====
-- The steps of a mutex that touch the list of the waiters or what is known of it.
use mathlib.Core.Path.{subst}
use evalyn_os.Base.{
  ℕ, ◌≡◌, ◌≢◌, ◌⊎◌, inl, inr, refl, ap, sym, ◌∙◌, ◌==◌, ==_iff, Bool, true, false, List, [], ◌∷◌,
  ◌++◌, arith, Bool-cases,
}
use evalyn_os.Base.Maps.{update}
use evalyn_os.Locks.Mutex.{
  Pc, Mutex, idle, loading, casing, entering, claiming, claimed, storing, leaving, refused, pushed,
  waiting, woken, deleting, deleted, restoring, holding, releasing, reserving, waking, popping,
  found_none, popped, to_wake, rechecking, failed, inside, awake, move, move_to, waken,
}
use evalyn_os.Locks.Mutex.Invariant.{
  owns, is_refused, is_storing, wakes, wakes_again, found_empty, is_bad, NoWaiter, Inv,
}
use evalyn_os.Locks.Mutex.Moves.{at_all, at_most_one, change-Inv, move-Inv, write-Inv}

-- Another thread of the lock of the list is the same.
section_same :
    (s : Mutex) (i : ℕ)
    → Inv s
    → inside (s.pc i) ≡ true
    → (k : ℕ) → (k == i) ≡ false
    → inside (s.pc k) ≡ false
section_same s i inv here k other = elim (Bool-cases (inside (s.pc k))) [
  | inl there ↦ absurd (ground (arith, other, inv.one_inside k i there here))
  | inr away ↦ away
]

refused-inside : (x : Pc) → inside x ≡ false → is_refused x ≡ false
refused-inside x h = ground (arith, h)

storing-inside : (x : Pc) → inside x ≡ false → is_storing x ≡ false
storing-inside x h = ground (arith, h)

-- In the lock of the list no other thread is refused.
pub none_refused :
    (s : Mutex) (i : ℕ)
    → Inv s
    → inside (s.pc i) ≡ true
    → is_refused (s.pc i) ≡ false
    → (k : ℕ) → is_refused (s.pc k) ≡ false
none_refused s i inv here self k = elim (Bool-cases (k == i)) [
  | inl same ↦ ap (λ j. is_refused (s.pc j)) ((==_iff k i).0 same) ∙ self
  | inr other ↦ refused-inside (s.pc k) (section_same s i inv here k other)
]

append_some : (xs : List ℕ) (i : ℕ) → (xs ++ (i ∷ [])) ≢ []
append_some [] i e = ground (arith, e)
append_some (x ∷ xs) i e = ground (arith, e)

pub claim_refused-Inv :
    (s : Mutex) (i : ℕ) → Inv s → s.pc i ≡ claiming → Inv (move_to s i refused 2 s.queue)
claim_refused-Inv s i inv at = record {
  one_owner = at_most_one owns s.pc i refused inv.one_owner (λ h. absurd (ground (arith, h)));
  one_inside = at_most_one inside s.pc i refused inv.one_inside (λ _. inl (ap inside at));
  unlocked = λ z. absurd (omega (arith, z));
  few = λ lt. absurd (omega (arith, lt));
  stored_empty =
      at_all (λ _ x. is_storing x ≡ true → s.queue ≡ []) s.pc i refused
        (λ h. absurd (ground (arith, h))) (λ k _. inv.stored_empty k);
  reserved = λ k h. inl refl;
  contended = λ k h e. inr (i, ground arith);
  again_is = λ k h. refl;
  empty_still = λ k h e. absurd (omega (arith, e));
  sound = at_all (λ _ x. is_bad x ≡ false) s.pc i refused refl (λ k _. inv.sound k);
}

pub push_back-Inv :
    (s : Mutex) (i : ℕ)
    → Inv s
    → s.pc i ≡ refused
    → Inv (move_to s i pushed s.locked (s.queue ++ (i ∷ [])))
push_back-Inv s i inv at =
    let here : is_refused (s.pc i) ≡ true = ap is_refused at in
    record {
      one_owner = at_most_one owns s.pc i pushed inv.one_owner (λ h. absurd (ground (arith, h)));
      one_inside = at_most_one inside s.pc i pushed inv.one_inside (λ _. inl (ap inside at));
      unlocked = λ z. at_all (λ _ x. owns x ≡ false) s.pc i pushed refl (λ k _. inv.unlocked z k);
      few = λ lt. absurd (ground (arith, here, (inv.few lt).1 i));
      stored_empty =
          at_all (λ _ x. is_storing x ≡ true → (s.queue ++ (i ∷ [])) ≡ []) s.pc i pushed
            (λ h. absurd (ground (arith, h)))
            (λ k other h. absurd (
              ground
                (arith, h, storing-inside (s.pc k) (section_same s i inv (ap inside at) k other))));
      reserved =
          at_all (λ _ x. wakes x ≡ true → (s.locked ≡ 2) ⊎ (s.locked ≡ 3)) s.pc i pushed
            (λ h. absurd (ground (arith, h))) (λ k _. inv.reserved k);
      contended = λ k h e. inl (append_some s.queue i);
      again_is =
          at_all (λ _ x. wakes_again x ≡ true → s.locked ≡ 2) s.pc i pushed
            (λ h. absurd (ground (arith, h))) (λ k _. inv.again_is k);
      empty_still =
          at_all
            (λ _ x.
              found_empty x ≡ true
              → s.locked ≡ 3
              → NoWaiter (move_to s i pushed s.locked (s.queue ++ (i ∷ []))))
            s.pc i pushed (λ h. absurd (ground (arith, h)))
            (λ k _ h e. absurd (ground (arith, here, (inv.empty_still k h e).1 i)));
      sound = at_all (λ _ x. is_bad x ≡ false) s.pc i pushed refl (λ k _. inv.sound k);
    }

pub no_waiters-Inv :
    (s : Mutex) (i : ℕ) → Inv s → s.pc i ≡ claimed → s.queue ≡ [] → Inv (move s i storing)
no_waiters-Inv s i inv at empty =
    change-Inv s i claimed storing inv at refl (λ _. inl refl) (λ _. inr empty)
      (λ h. absurd (ground (arith, h))) (λ h. absurd (ground (arith, h))) refl

-- A thread that comes to wake another up a second time finds one.
pub pop_none-Inv :
    (s : Mutex) (i : ℕ) (b : Bool)
    → Inv s
    → s.pc i ≡ popping b
    → s.queue ≡ []
    → Inv (move s i (found_none b))
pop_none-Inv s i b inv at empty =
    let none_there = none_refused s i inv (ap inside at) (ap is_refused at) in
    change-Inv s i (popping b) (found_none b) inv at refl (λ _. inl refl)
      (λ h. absurd (ground (arith, h))) (λ h. inl h) (λ _. inr (empty, none_there))
      (elim (Bool-cases b) [
        | inr first ↦ first
        | inl second ↦
            elim (inv.contended i (ap wakes at) (inv.again_is i (ap wakes_again at ∙ second))) [
              | inl some_in ↦ absurd (some_in empty)
              | inr (k, h) ↦ absurd (ground (arith, h, none_there k))
            ]
      ])

pub recheck_waiters-Inv :
    (s : Mutex) (i : ℕ) → Inv s → s.pc i ≡ rechecking → s.locked ≡ 2 → Inv (move s i (waking true))
recheck_waiters-Inv s i inv at two =
    change-Inv s i rechecking (waking true) inv at refl (λ h. absurd (ground (arith, h)))
      (λ h. absurd (ground (arith, h))) (λ _. inr two) (λ h. absurd (ground (arith, h))) refl

awake_cases : (x : Pc) → ((x ≡ waiting) × (awake x ≡ woken)) ⊎ (awake x ≡ x)
awake_cases waiting = inl (refl, refl)
awake_cases idle = inr refl
awake_cases loading = inr refl
awake_cases casing = inr refl
awake_cases entering = inr refl
awake_cases claiming = inr refl
awake_cases claimed = inr refl
awake_cases storing = inr refl
awake_cases leaving = inr refl
awake_cases refused = inr refl
awake_cases pushed = inr refl
awake_cases woken = inr refl
awake_cases deleting = inr refl
awake_cases deleted = inr refl
awake_cases restoring = inr refl
awake_cases holding = inr refl
awake_cases releasing = inr refl
awake_cases reserving = inr refl
awake_cases (waking again) = inr refl
awake_cases (popping again) = inr refl
awake_cases (found_none again) = inr refl
awake_cases (popped thread) = inr refl
awake_cases (to_wake thread) = inr refl
awake_cases rechecking = inr refl
awake_cases failed = inr refl

update_same : (f : ℕ → Pc) (j k : ℕ) → update f j (f j) k ≡ f k
update_same f j k = elim (Bool-cases (k == j)) [
  | inl same ↦ rw same (ap f (sym ((==_iff k j).0 same)))
  | inr other ↦ rw other refl
]

-- Where no thread has the mutex, the one that is woken up gets it.
waken-Inv :
    (s : Mutex) (j : ℕ) → Inv s → s.locked ≢ 0 → ((k : ℕ) → owns (s.pc k) ≡ false) → Inv (waken s j)
waken-Inv s j inv locked free = elim (awake_cases (s.pc j)) [
  | inl (at, e) ↦
      subst (λ x. Inv (move s j x)) (sym e)
        (write-Inv s j waiting woken s.locked s.queue inv at (λ k _. free k) refl
          (λ z. absurd (locked z)) (λ lt. ((inv.few lt).0, λ k _. (inv.few lt).1 k))
          (λ h. absurd (ground (arith, h))) (λ h. absurd (ground (arith, h))))
  | inr e ↦
      subst (λ x. Inv (move s j x)) (sym e)
        (subst (λ f. Inv (record s { pc = f })) (λ 𝕚 k. sym (update_same s.pc j k) 𝕚) inv)
]

pub wake-Inv : (s : Mutex) (i j : ℕ) → Inv s → s.pc i ≡ to_wake j → Inv (waken (move s i idle) j)
wake-Inv s i j inv at =
    let here : owns (s.pc i) ≡ true = ap owns at in
    waken-Inv (move s i idle) j
      (move-Inv s i (to_wake j) idle inv at refl (λ h. absurd (ground (arith, h))))
      (λ z. ground (arith, here, inv.unlocked z i))
      (at_all (λ _ x. owns x ≡ false) s.pc i idle refl
        (λ k other. elim (Bool-cases (owns (s.pc k))) [
          | inl too ↦ absurd (ground (arith, other, inv.one_owner k i too here))
          | inr away ↦ away
        ]))
