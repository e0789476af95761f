-- ===== src/Tests/Mutex.antt =====
-- A mutex that one thread has, and for which another waits.
use evalyn_os.Base.{ℕ, ◌≡◌, ◌⊎◌, refl, true, false, [], ◌∷◌, arith}
use evalyn_os.Locks.Mutex.{
  Mutex, loading, casing, entering, claiming, refused, pushed, waiting, holding, releasing,
  reserving, waking, move, move_to, IsOpen, call_lock, load_unlocked, load_locked, cas_taken, enter,
  claim_refused, push_back, leave_pushed, call_unlock, cas_contended, store_reserved, init, Reach,
  start, later,
}
use evalyn_os.Locks.Mutex.Invariant.{owns, is_bad, NoWaiter}
use evalyn_os.Base.Distinct.{has}
use evalyn_os.Locks.Mutex.Listed.{hands}
use evalyn_os.Locks.Mutex.Lost.{no_lost_waiter}
use evalyn_os.Locks.Mutex.Exclusion.{mutex_exclusive, unlock_sound, unlocked-NoWaiter}

-- Thread 0 takes the mutex.
abbrev taken : Mutex
taken = move_to (move (move init 0 loading) 0 casing) 0 holding 1 []

taken_run : Reach taken
taken_run =
    later 0 (later 0 (later 0 start (call_lock refl)) (load_unlocked refl refl))
      (cas_taken refl refl)

-- Thread 1 finds it locked.
abbrev entered : Mutex
entered = move (move taken 1 loading) 1 entering

entered_run : Reach entered
entered_run =
    later 1 (later 1 taken_run (call_lock refl)) (load_locked refl (λ e. omega (arith, e)))

entered-IsOpen : IsOpen entered
entered-IsOpen k = ground arith

-- It waits.
abbrev queued : Mutex
queued =
    move (move_to (move_to (move entered 1 claiming) 1 refused 2 []) 1 pushed 2 (1 ∷ [])) 1 waiting

queued_run : Reach queued
queued_run =
    later 1
      (later 1
        (later 1 (later 1 entered_run (enter refl entered-IsOpen))
          (claim_refused refl (λ e. omega (arith, e))))
        (push_back refl))
      (leave_pushed refl)

-- Thread 0 unlocks it, and is about to look for a thread to wake up.
abbrev reserved : Mutex
reserved = move_to (move (move queued 0 releasing) 0 reserving) 0 (waking false) 3 (1 ∷ [])

reserved_run : Reach reserved
reserved_run =
    later 0
      (later 0 (later 0 queued_run (call_unlock refl)) (cas_contended refl (λ e. omega (arith, e))))
      (store_reserved refl)

mutex_exclusive_example : ◌≡◌ {A = ℕ} 0 0
mutex_exclusive_example = mutex_exclusive reserved 0 0 reserved_run refl refl

unlock_sound_example : is_bad (reserved.pc 0) ≡ false
unlock_sound_example = unlock_sound reserved 0 reserved_run

unlocked-NoWaiter_example :
    NoWaiter taken × (taken.locked ≡ 0 → (k : ℕ) → owns (taken.pc k) ≡ false)
unlocked-NoWaiter_example = unlocked-NoWaiter taken taken_run (omega arith)

no_lost_waiter_example :
    ((has 1 reserved.queue ≡ true) × (k : ℕ) × (owns (reserved.pc k) ≡ true))
    ⊎ ((k : ℕ) × (hands (reserved.pc k) 1 ≡ true))
no_lost_waiter_example = no_lost_waiter reserved 1 reserved_run refl
