-- ===== src/Locks/Mutex/Invariant.antt =====
-- What holds between the steps of a mutex.
use evalyn_os.Base.{ℕ, ◌<◌, ◌≡◌, ◌≢◌, ◌⊎◌, Bool, true, false, []}
use evalyn_os.Locks.Mutex.{
  Pc, Mutex, idle, loading, casing, entering, claiming, claimed, storing, leaving, refused, pushed,
  waiting, woken, deleting, deleted, restoring, holding, releasing, reserving, waking, popping,
  found_none, popped, to_wake, rechecking, failed, inside,
}

-- The thread has the mutex, or hands it to the one that it wakes up.
abbrev pub owns : Pc → Bool
owns idle = false
owns loading = false
owns casing = false
owns entering = false
owns claiming = false
owns claimed = true
owns storing = true
owns leaving = true
owns refused = false
owns pushed = false
owns waiting = false
owns woken = true
owns deleting = true
owns deleted = true
owns restoring = true
owns holding = true
owns releasing = true
owns reserving = true
owns (waking again) = true
owns (popping again) = true
owns (found_none again) = true
owns (popped thread) = true
owns (to_wake thread) = true
owns rechecking = true
owns failed = true

-- It found the mutex locked, and is not in the list yet.
abbrev pub is_refused : Pc → Bool
is_refused idle = false
is_refused loading = false
is_refused casing = false
is_refused entering = false
is_refused claiming = false
is_refused claimed = false
is_refused storing = false
is_refused leaving = false
is_refused refused = true
is_refused pushed = false
is_refused waiting = false
is_refused woken = false
is_refused deleting = false
is_refused deleted = false
is_refused restoring = false
is_refused holding = false
is_refused releasing = false
is_refused reserving = false
is_refused (waking again) = false
is_refused (popping again) = false
is_refused (found_none again) = false
is_refused (popped thread) = false
is_refused (to_wake thread) = false
is_refused rechecking = false
is_refused failed = false

-- It found no waiter.
abbrev pub is_storing : Pc → Bool
is_storing idle = false
is_storing loading = false
is_storing casing = false
is_storing entering = false
is_storing claiming = false
is_storing claimed = false
is_storing storing = true
is_storing leaving = false
is_storing refused = false
is_storing pushed = false
is_storing waiting = false
is_storing woken = false
is_storing deleting = false
is_storing deleted = false
is_storing restoring = false
is_storing holding = false
is_storing releasing = false
is_storing reserving = false
is_storing (waking again) = false
is_storing (popping again) = false
is_storing (found_none again) = false
is_storing (popped thread) = false
is_storing (to_wake thread) = false
is_storing rechecking = false
is_storing failed = false

-- It reserved the mutex, and has not woken a thread up.
abbrev pub wakes : Pc → Bool
wakes idle = false
wakes loading = false
wakes casing = false
wakes entering = false
wakes claiming = false
wakes claimed = false
wakes storing = false
wakes leaving = false
wakes refused = false
wakes pushed = false
wakes waiting = false
wakes woken = false
wakes deleting = false
wakes deleted = false
wakes restoring = false
wakes holding = false
wakes releasing = false
wakes reserving = false
wakes (waking again) = true
wakes (popping again) = true
wakes (found_none again) = true
wakes (popped thread) = false
wakes (to_wake thread) = false
wakes rechecking = true
wakes failed = false

-- It is to wake up a thread that it has seen to wait.
abbrev pub wakes_again : Pc → Bool
wakes_again idle = false
wakes_again loading = false
wakes_again casing = false
wakes_again entering = false
wakes_again claiming = false
wakes_again claimed = false
wakes_again storing = false
wakes_again leaving = false
wakes_again refused = false
wakes_again pushed = false
wakes_again waiting = false
wakes_again woken = false
wakes_again deleting = false
wakes_again deleted = false
wakes_again restoring = false
wakes_again holding = false
wakes_again releasing = false
wakes_again reserving = false
wakes_again (waking again) = again
wakes_again (popping again) = again
wakes_again (found_none again) = again
wakes_again (popped thread) = false
wakes_again (to_wake thread) = false
wakes_again rechecking = false
wakes_again failed = false

-- It found the list empty.
abbrev pub found_empty : Pc → Bool
found_empty idle = false
found_empty loading = false
found_empty casing = false
found_empty entering = false
found_empty claiming = false
found_empty claimed = false
found_empty storing = false
found_empty leaving = false
found_empty refused = false
found_empty pushed = false
found_empty waiting = false
found_empty woken = false
found_empty deleting = false
found_empty deleted = false
found_empty restoring = false
found_empty holding = false
found_empty releasing = false
found_empty reserving = false
found_empty (waking again) = false
found_empty (popping again) = false
found_empty (found_none again) = true
found_empty (popped thread) = false
found_empty (to_wake thread) = false
found_empty rechecking = true
found_empty failed = false

-- Its assertion failed, or nothing was there to be woken up.
abbrev pub is_bad : Pc → Bool
is_bad idle = false
is_bad loading = false
is_bad casing = false
is_bad entering = false
is_bad claiming = false
is_bad claimed = false
is_bad storing = false
is_bad leaving = false
is_bad refused = false
is_bad pushed = false
is_bad waiting = false
is_bad woken = false
is_bad deleting = false
is_bad deleted = false
is_bad restoring = false
is_bad holding = false
is_bad releasing = false
is_bad reserving = false
is_bad (waking again) = false
is_bad (popping again) = false
is_bad (found_none again) = again
is_bad (popped thread) = false
is_bad (to_wake thread) = false
is_bad rechecking = false
is_bad failed = true

-- A waiter is in the list, or about to be.
abbrev pub HasWaiter : Mutex → Type 0
HasWaiter s = (s.queue ≢ []) ⊎ ((k : ℕ) × (is_refused (s.pc k) ≡ true))

abbrev pub NoWaiter : Mutex → Type 0
NoWaiter s = (s.queue ≡ []) × ((k : ℕ) → is_refused (s.pc k) ≡ false)

pub record Inv (s : Mutex) : Type 0 where
  pub one_owner : (j k : ℕ) → owns (s.pc j) ≡ true → owns (s.pc k) ≡ true → j ≡ k
  pub one_inside : (j k : ℕ) → inside (s.pc j) ≡ true → inside (s.pc k) ≡ true → j ≡ k
  pub unlocked : s.locked ≡ 0 → (k : ℕ) → owns (s.pc k) ≡ false
  pub few : s.locked < 2 → NoWaiter s
  pub stored_empty : (k : ℕ) → is_storing (s.pc k) ≡ true → s.queue ≡ []
  pub reserved : (k : ℕ) → wakes (s.pc k) ≡ true → (s.locked ≡ 2) ⊎ (s.locked ≡ 3)
  pub contended : (k : ℕ) → wakes (s.pc k) ≡ true → s.locked ≡ 2 → HasWaiter s
  pub again_is : (k : ℕ) → wakes_again (s.pc k) ≡ true → s.locked ≡ 2
  pub empty_still : (k : ℕ) → found_empty (s.pc k) ≡ true → s.locked ≡ 3 → NoWaiter s
  pub sound : (k : ℕ) → is_bad (s.pc k) ≡ false
