-- ===== src/Locks/Mutex/Lost.antt =====
-- No waiter of a mutex is lost: the thread that unlocks it hands it to one.
use evalyn_os.Base.{ℕ, ◌≡◌, ◌⊎◌, inl, inr, refl, ap, true, false, arith, dec_lt}
use evalyn_os.Base.Distinct.{has}
use evalyn_os.Locks.Mutex.{
  Mutex, idle, loading, casing, entering, claiming, claimed, storing, leaving, refused, waiting,
  woken, deleting, deleted, restoring, holding, releasing, reserving, waking, popping, found_none,
  popped, to_wake, rechecking, failed, Step, call_lock, load_unlocked, load_locked, cas_taken,
  cas_missed, enter, claim_free, claim_refused, no_waiters, has_waiters, store_locked, leave,
  push_back, leave_pushed, enter_again, try_delete, leave_again, store_waiters, call_unlock,
  cas_unlocked, cas_contended, store_reserved, enter_waking, pop_none, pop_front, leave_none,
  leave_none_again, leave_popped, wake, recheck_free, recheck_waiters, recheck_failed, Reach, start,
  later,
}
use evalyn_os.Locks.Mutex.Invariant.{owns, is_bad, Inv}
use evalyn_os.Locks.Mutex.Exclusion.{Inv-Reach}
use evalyn_os.Locks.Mutex.Listed.{is_queued, hands, Listed, owner_stays, move-Listed, stay-Listed}
use evalyn_os.Locks.Mutex.Lists.{push_back-Listed, leave_pushed-Listed, try_delete-Listed}
use evalyn_os.Locks.Mutex.Handed.{pop_front-Listed, wake-Listed}

Listed-Step : (s : Mutex) (i : ℕ) (t : Mutex) → Inv s → Listed s → Step s i t → Listed t
Listed-Step s i _ inv listed (call_lock at) =
    move-Listed s i idle loading listed at refl refl (λ k. refl) (λ h. absurd (ground (arith, h)))
Listed-Step s i _ inv listed (load_unlocked at z) =
    move-Listed s i loading casing listed at refl refl (λ k. refl) (λ h. absurd (ground (arith, h)))
Listed-Step s i _ inv listed (load_locked at z) =
    move-Listed s i loading entering listed at refl refl (λ k. refl)
      (λ h. absurd (ground (arith, h)))
Listed-Step s i _ inv listed (cas_taken at z) =
    stay-Listed s i casing holding 1 listed at refl refl (λ k. refl) (λ _. inl refl)
Listed-Step s i _ inv listed (cas_missed at z) =
    move-Listed s i casing entering listed at refl refl (λ k. refl)
      (λ h. absurd (ground (arith, h)))
Listed-Step s i _ inv listed (enter at none_in) =
    move-Listed s i entering claiming listed at refl refl (λ k. refl)
      (λ h. absurd (ground (arith, h)))
Listed-Step s i _ inv listed (claim_free at z) =
    stay-Listed s i claiming claimed 2 listed at refl refl (λ k. refl) (λ _. inl refl)
Listed-Step s i _ inv listed (claim_refused at z) =
    stay-Listed s i claiming refused 2 listed at refl refl (λ k. refl)
      (λ _. owner_stays s i claiming refused listed at (λ h. absurd (ground (arith, h))) z)
Listed-Step s i _ inv listed (no_waiters at empty) =
    move-Listed s i claimed storing listed at refl refl (λ k. refl) (λ _. refl)
Listed-Step s i _ inv listed (has_waiters at some_in) =
    move-Listed s i claimed leaving listed at refl refl (λ k. refl) (λ _. refl)
Listed-Step s i _ inv listed (store_locked at) =
    stay-Listed s i storing leaving 1 listed at refl refl (λ k. refl) (λ _. inl refl)
Listed-Step s i _ inv listed (leave at) =
    move-Listed s i leaving holding listed at refl refl (λ k. refl) (λ _. refl)
Listed-Step s i _ inv listed (push_back at) = push_back-Listed s i listed at
Listed-Step s i _ inv listed (leave_pushed at) = leave_pushed-Listed s i listed at
Listed-Step s i _ inv listed (enter_again at none_in) =
    move-Listed s i woken deleting listed at refl refl (λ k. refl) (λ _. refl)
Listed-Step s i _ inv listed (try_delete at) = try_delete-Listed s i listed at
Listed-Step s i _ inv listed (leave_again at) =
    move-Listed s i deleted restoring listed at refl refl (λ k. refl) (λ _. refl)
Listed-Step s i _ inv listed (store_waiters at) =
    stay-Listed s i restoring holding 2 listed at refl refl (λ k. refl) (λ _. inl refl)
Listed-Step s i _ inv listed (call_unlock at) =
    move-Listed s i holding releasing listed at refl refl (λ k. refl) (λ _. refl)
Listed-Step s i _ inv listed (cas_unlocked at one) =
    stay-Listed s i releasing idle 0 listed at refl refl (λ k. refl) (λ z. absurd (z refl))
Listed-Step s i _ inv listed (cas_contended at z) =
    move-Listed s i releasing reserving listed at refl refl (λ k. refl) (λ _. refl)
Listed-Step s i _ inv listed (store_reserved at) =
    stay-Listed s i reserving (waking false) 3 listed at refl refl (λ k. refl) (λ _. inl refl)
Listed-Step s i _ inv listed (enter_waking {b = b} at none_in) =
    move-Listed s i (waking b) (popping b) listed at refl refl (λ k. refl) (λ _. refl)
Listed-Step s i _ inv listed (pop_none {b = b} at empty) =
    move-Listed s i (popping b) (found_none b) listed at refl refl (λ k. refl) (λ _. refl)
Listed-Step s i _ inv listed (pop_front {b = b} {j = j} {rest = rest} at first) =
    pop_front-Listed s i b j rest inv listed at first
Listed-Step s i _ inv listed (leave_none at) =
    move-Listed s i (found_none false) rechecking listed at refl refl (λ k. refl) (λ _. refl)
Listed-Step s i _ inv listed (leave_none_again at) =
    absurd (ground (arith, inv.sound i, ap is_bad at))
Listed-Step s i _ inv listed (leave_popped {j = j} at) =
    move-Listed s i (popped j) (to_wake j) listed at refl refl (λ k. refl) (λ _. refl)
Listed-Step s i _ inv listed (wake {j = j} at) = wake-Listed s i j inv listed at
Listed-Step s i _ inv listed (recheck_free at three) =
    stay-Listed s i rechecking idle 0 listed at refl refl (λ k. refl) (λ z. absurd (z refl))
Listed-Step s i _ inv listed (recheck_waiters at two) =
    move-Listed s i rechecking (waking true) listed at refl refl (λ k. refl) (λ _. refl)
Listed-Step s i _ inv listed (recheck_failed at not_three not_two) =
    move-Listed s i rechecking failed listed at refl refl (λ k. refl) (λ _. refl)

Listed-Reach : (s : Mutex) → Reach s → Listed s
Listed-Reach s start = record {
  distinct = tt;
  queued = λ k h. absurd (ground (arith, h));
  handed = λ i k h. absurd (ground (arith, h));
  waits = λ k h. absurd (ground (arith, h));
  owned = λ z. absurd (z refl);
}
Listed-Reach s (later {s = r} i run step) =
    Listed-Step r i s (Inv-Reach r run) (Listed-Reach r run) step

-- In a reachable state of a mutex whose waiting threads it alone wakes up, a thread that waits is
-- in the list while some thread has the mutex, or a thread took it out of the list and is about to
-- wake it up.
pub no_lost_waiter :
    (s : Mutex) (i : ℕ)
    → Reach s
    → s.pc i ≡ waiting
    → ((has i s.queue ≡ true) × (k : ℕ) × (owns (s.pc k) ≡ true))
      ⊎ ((k : ℕ) × (hands (s.pc k) i ≡ true))
no_lost_waiter s i run at =
    let inv = Inv-Reach s run in
    let listed = Listed-Reach s run in
    elim (listed.waits i (ap is_queued at)) [
      | inr handed ↦ inr handed
      | inl there ↦ elim (dec_lt s.locked 2) [
        | yes low ↦ absurd (ground (arith, there, ap (has i) (inv.few low).0))
        | no high ↦
            let (k, own) = listed.owned (λ z. high (omega (arith, z))) in inl (there, k, own)
      ]
    ]
