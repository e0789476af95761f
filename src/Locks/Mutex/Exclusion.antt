-- ===== src/Locks/Mutex/Exclusion.antt =====
-- At most one thread has the mutex, an unlocked one has no waiters, and no wake-up is lost.
use evalyn_os.Base.{
  ℕ, ◌<◌, ◌≡◌, ◌≢◌, inl, inr, refl, ap, ◌∙◌, true, false, List, [], arith, Bool-cases,
}
use evalyn_os.Mem.Vmem.{remove}
use evalyn_os.Locks.Mutex.{
  Pc, Mutex, idle, loading, casing, entering, claiming, claimed, storing, leaving, pushed, waiting,
  woken, deleting, deleted, restoring, holding, releasing, reserving, waking, popping, found_none,
  popped, to_wake, rechecking, inside, move_to, Step, call_lock, load_unlocked, load_locked,
  cas_taken, cas_missed, enter, claim_free, claim_refused, no_waiters, has_waiters, store_locked,
  leave, push_back, leave_pushed, enter_again, try_delete, leave_again, store_waiters, call_unlock,
  cas_unlocked, cas_contended, store_reserved, enter_waking, pop_none, pop_front, leave_none,
  leave_none_again, leave_popped, wake, recheck_free, recheck_waiters, recheck_failed, Reach, start,
  later,
}
use evalyn_os.Locks.Mutex.Invariant.{
  owns, is_refused, is_storing, wakes, found_empty, is_bad, NoWaiter, Inv,
}
use evalyn_os.Locks.Mutex.Moves.{plain, move-Inv, write-Inv}
use evalyn_os.Locks.Mutex.Waiters.{
  none_refused, claim_refused-Inv, push_back-Inv, no_waiters-Inv, pop_none-Inv, recheck_waiters-Inv,
  wake-Inv,
}

-- The thread that has the mutex writes.
owner-Inv :
    (s : Mutex) (i : ℕ) (p q : Pc) (v : ℕ) (queue : List ℕ)
    → Inv s
    → s.pc i ≡ p
    → owns p ≡ true
    → plain q ≡ true
    → (v ≡ 0 → owns q ≡ false)
    → (v < 2 → (queue ≡ []) × ((k : ℕ) → is_refused (s.pc k) ≡ false))
    → (wakes q ≡ true → v ≡ 3)
    → (inside q ≡ true → inside p ≡ true)
    → Inv (move_to s i q v queue)
owner-Inv s i p q v queue inv at own is_plain freed low three section =
    write-Inv s i p q v queue inv at
      (λ k other. elim (Bool-cases (owns (s.pc k))) [
        | inl too ↦ absurd (ground (arith, other, inv.one_owner k i too (ap owns at ∙ own)))
        | inr away ↦ away
      ])
      is_plain freed (λ lt. ((low lt).0, λ k _. (low lt).1 k)) three section

-- The first thread takes an unlocked mutex.
take-Inv :
    (s : Mutex) (i : ℕ) (p q : Pc) (v : ℕ)
    → Inv s
    → s.pc i ≡ p
    → s.locked ≡ 0
    → plain q ≡ true
    → wakes q ≡ false
    → 0 < v
    → (inside q ≡ true → inside p ≡ true)
    → Inv (move_to s i q v s.queue)
take-Inv s i p q v inv at zero is_plain none_woken pos section =
    let few = inv.few (omega (arith, zero)) in
    write-Inv s i p q v s.queue inv at (λ k _. inv.unlocked zero k) is_plain
      (λ z. absurd (omega (arith, z, pos))) (λ _. (few.0, λ k _. few.1 k))
      (λ h. absurd (ground (arith, h, none_woken))) section

owned-locked : (s : Mutex) (i : ℕ) → Inv s → owns (s.pc i) ≡ true → s.locked ≢ 0
owned-locked s i inv own z = ground (arith, own, inv.unlocked z i)

Inv-Step : (s : Mutex) (i : ℕ) (t : Mutex) → Inv s → Step s i t → Inv t
Inv-Step s i _ inv (call_lock at) =
    move-Inv s i idle loading inv at refl (λ h. absurd (ground (arith, h)))
Inv-Step s i _ inv (load_unlocked at z) =
    move-Inv s i loading casing inv at refl (λ h. absurd (ground (arith, h)))
Inv-Step s i _ inv (load_locked at z) =
    move-Inv s i loading entering inv at refl (λ h. absurd (ground (arith, h)))
Inv-Step s i _ inv (cas_taken at z) =
    take-Inv s i casing holding 1 inv at z refl refl (omega arith) (λ h. absurd (ground (arith, h)))
Inv-Step s i _ inv (cas_missed at z) =
    move-Inv s i casing entering inv at refl (λ h. absurd (ground (arith, h)))
Inv-Step s i _ inv (enter at none_in) =
    move-Inv s i entering claiming inv at refl (λ _. inr none_in)
Inv-Step s i _ inv (claim_free at z) =
    take-Inv s i claiming claimed 2 inv at z refl refl (omega arith) (λ _. refl)
Inv-Step s i _ inv (claim_refused at z) = claim_refused-Inv s i inv at
Inv-Step s i _ inv (no_waiters at empty) = no_waiters-Inv s i inv at empty
Inv-Step s i _ inv (has_waiters at z) = move-Inv s i claimed leaving inv at refl (λ _. inl refl)
Inv-Step s i _ inv (store_locked at) =
    owner-Inv s i storing leaving 1 s.queue inv at refl refl (λ z. absurd (omega (arith, z)))
      (λ _. (
        inv.stored_empty i (ap is_storing at),
        none_refused s i inv (ap inside at) (ap is_refused at),
      ))
      (λ h. absurd (ground (arith, h))) (λ _. refl)
Inv-Step s i _ inv (leave at) =
    move-Inv s i leaving holding inv at refl (λ h. absurd (ground (arith, h)))
Inv-Step s i _ inv (push_back at) = push_back-Inv s i inv at
Inv-Step s i _ inv (leave_pushed at) =
    move-Inv s i pushed waiting inv at refl (λ h. absurd (ground (arith, h)))
Inv-Step s i _ inv (enter_again at none_in) =
    move-Inv s i woken deleting inv at refl (λ _. inr none_in)
Inv-Step s i _ inv (try_delete at) =
    owner-Inv s i deleting deleted s.locked (remove i s.queue) inv at refl refl
      (λ z. absurd (owned-locked s i inv (ap owns at) z))
      (λ lt. (ap (remove i) (inv.few lt).0, (inv.few lt).1)) (λ h. absurd (ground (arith, h)))
      (λ _. refl)
Inv-Step s i _ inv (leave_again at) =
    move-Inv s i deleted restoring inv at refl (λ h. absurd (ground (arith, h)))
Inv-Step s i _ inv (store_waiters at) =
    owner-Inv s i restoring holding 2 s.queue inv at refl refl (λ z. absurd (omega (arith, z)))
      (λ lt. absurd (omega (arith, lt))) (λ h. absurd (ground (arith, h)))
      (λ h. absurd (ground (arith, h)))
Inv-Step s i _ inv (call_unlock at) =
    move-Inv s i holding releasing inv at refl (λ h. absurd (ground (arith, h)))
Inv-Step s i _ inv (cas_unlocked at one) =
    owner-Inv s i releasing idle 0 s.queue inv at refl refl (λ _. refl)
      (λ _. inv.few (omega (arith, one))) (λ h. absurd (ground (arith, h)))
      (λ h. absurd (ground (arith, h)))
Inv-Step s i _ inv (cas_contended at z) =
    move-Inv s i releasing reserving inv at refl (λ h. absurd (ground (arith, h)))
Inv-Step s i _ inv (store_reserved at) =
    owner-Inv s i reserving (waking false) 3 s.queue inv at refl refl
      (λ z. absurd (omega (arith, z))) (λ lt. absurd (omega (arith, lt))) (λ _. refl)
      (λ h. absurd (ground (arith, h)))
Inv-Step s i _ inv (enter_waking {b = true} at none_in) =
    move-Inv s i (waking true) (popping true) inv at refl (λ _. inr none_in)
Inv-Step s i _ inv (enter_waking {b = false} at none_in) =
    move-Inv s i (waking false) (popping false) inv at refl (λ _. inr none_in)
Inv-Step s i _ inv (pop_none {b = b} at empty) = pop_none-Inv s i b inv at empty
Inv-Step s i _ inv (pop_front {b = b} {j = j} {rest = rest} at first) =
    owner-Inv s i (popping b) (popped j) s.locked rest inv at refl refl
      (λ z. absurd (owned-locked s i inv (ap owns at) z))
      (λ lt. absurd (ground (arith, first, (inv.few lt).0))) (λ h. absurd (ground (arith, h)))
      (λ _. refl)
Inv-Step s i _ inv (leave_none at) =
    move-Inv s i (found_none false) rechecking inv at refl (λ h. absurd (ground (arith, h)))
Inv-Step s i _ inv (leave_none_again at) = absurd (ground (arith, inv.sound i, ap is_bad at))
Inv-Step s i _ inv (leave_popped {j = j} at) =
    move-Inv s i (popped j) (to_wake j) inv at refl (λ h. absurd (ground (arith, h)))
Inv-Step s i _ inv (wake {j = j} at) = wake-Inv s i j inv at
Inv-Step s i _ inv (recheck_free at three) =
    owner-Inv s i rechecking idle 0 s.queue inv at refl refl (λ _. refl)
      (λ _. inv.empty_still i (ap found_empty at) three) (λ h. absurd (ground (arith, h)))
      (λ h. absurd (ground (arith, h)))
Inv-Step s i _ inv (recheck_waiters at two) = recheck_waiters-Inv s i inv at two
Inv-Step s i _ inv (recheck_failed at not_three not_two) = elim (inv.reserved i (ap wakes at)) [
  | inl two ↦ absurd (not_two two)
  | inr three ↦ absurd (not_three three)
]

pub Inv-Reach : (s : Mutex) → Reach s → Inv s
Inv-Reach s start = record {
  one_owner = λ j k a b. absurd (ground (arith, a));
  one_inside = λ j k a b. absurd (ground (arith, a));
  unlocked = λ z k. refl;
  few = λ lt. (refl, λ k. refl);
  stored_empty = λ k h. refl;
  reserved = λ k h. absurd (ground (arith, h));
  contended = λ k h e. absurd (ground (arith, h));
  again_is = λ k h. absurd (ground (arith, h));
  empty_still = λ k h e. absurd (ground (arith, h));
  sound = λ k. refl;
}
Inv-Reach s (later {s = r} i run step) = Inv-Step r i s (Inv-Reach r run) step

-- In a reachable state of a mutex whose waiting threads it alone wakes up, two threads that have
-- it are the same; a thread has it from the exchange, or the wake-up, that gives it to the thread
-- until it stores that the mutex is unlocked, or has woken up another.
pub mutex_exclusive :
    (s : Mutex) (i j : ℕ) → Reach s → owns (s.pc i) ≡ true → owns (s.pc j) ≡ true → i ≡ j
mutex_exclusive s i j run a b = (Inv-Reach s run).one_owner i j a b

-- In a reachable state of a mutex whose waiting threads it alone wakes up, the debug assertion of
-- mutex_unlock has not failed, and no thread whose second call of sched_wakeup_n_threads found no
-- thread to wake up.
pub unlock_sound : (s : Mutex) (i : ℕ) → Reach s → is_bad (s.pc i) ≡ false
unlock_sound s i run = (Inv-Reach s run).sound i

-- In a reachable state of a mutex whose waiting threads it alone wakes up, and whose word is
-- MUTEX_UNLOCKED or MUTEX_LOCKED, the list of waiters is empty and no thread is about to join it;
-- if it is MUTEX_UNLOCKED, no thread has the mutex.
pub unlocked-NoWaiter :
    (s : Mutex)
    → Reach s
    → s.locked < 2
    → NoWaiter s × (s.locked ≡ 0 → (k : ℕ) → owns (s.pc k) ≡ false)
unlocked-NoWaiter s run lt = let inv = Inv-Reach s run in (inv.few lt, inv.unlocked)
