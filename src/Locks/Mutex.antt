-- ===== src/Locks/Mutex.antt =====
-- kernel/src/utils/locks/mutex.c, with wait_impl and sched_wakeup_n_threads of
-- kernel/src/sched/wait.c as it calls them: threads that lock and unlock one mutex, in any
-- interleaving of their atomic accesses. The lock of the wait list is an irqlock, which at most one
-- thread holds; a thread takes it when no other is inside of it. A thread that waits is woken by
-- this mutex only.
pub mod Invariant
pub mod Moves
pub mod Waiters
pub mod Exclusion
pub mod Listed
pub mod Lists
pub mod Handed
pub mod Lost
use evalyn_os.Base.{ℕ, ◌≡◌, ◌≢◌, Bool, true, false, List, [], ◌∷◌, ◌++◌}
use evalyn_os.Base.Maps.{update}
use evalyn_os.Mem.Vmem.{remove}

-- Where a thread stands in `mutex_lock`, with `wait_impl` and `mutex_claim`, and in `mutex_unlock`,
-- with `sched_wakeup_n_threads`, of which the second call is marked by `true`.
pub data Pc : Type 0 where
  idle : Pc
  loading : Pc
  casing : Pc  -- the load gave MUTEX_UNLOCKED
  entering : Pc  -- before `irqlock_lock` of `wait_impl`
  claiming : Pc  -- before the exchange
  claimed : Pc  -- the exchange gave MUTEX_UNLOCKED
  storing : Pc  -- there was no waiter
  leaving : Pc  -- before `irqlock_unlock`, with the condition met
  refused : Pc  -- the exchange gave something else
  pushed : Pc
  waiting : Pc
  woken : Pc
  deleting : Pc  -- before `llist_node_try_delete`
  deleted : Pc
  restoring : Pc  -- before the last store of `mutex_lock`
  holding : Pc
  releasing : Pc  -- before the first exchange of `mutex_unlock`
  reserving : Pc  -- it failed
  waking : (again : Bool) → Pc
  popping : (again : Bool) → Pc
  found_none : (again : Bool) → Pc
  popped : (thread : ℕ) → Pc
  to_wake : (thread : ℕ) → Pc
  rechecking : Pc  -- nothing was woken up
  failed : Pc  -- `dbg_assert` failed

-- `mutex_t`: `locked`, and the threads of `waiters`
pub record Mutex : Type 0 where
  pub locked : ℕ
  pub queue : List ℕ
  pub pc : ℕ → Pc

-- Inside of the lock of the wait list
abbrev pub inside : Pc → Bool
inside idle = false
inside loading = false
inside casing = false
inside entering = false
inside claiming = true
inside claimed = true
inside storing = true
inside leaving = true
inside refused = true
inside pushed = true
inside waiting = false
inside woken = false
inside deleting = true
inside deleted = true
inside restoring = false
inside holding = false
inside releasing = false
inside reserving = false
inside (waking again) = false
inside (popping again) = true
inside (found_none again) = true
inside (popped thread) = true
inside (to_wake thread) = false
inside rechecking = false
inside failed = false

-- A thread that waits is made runable.
abbrev pub awake : Pc → Pc
awake waiting = woken
awake idle = idle
awake loading = loading
awake casing = casing
awake entering = entering
awake claiming = claiming
awake claimed = claimed
awake storing = storing
awake leaving = leaving
awake refused = refused
awake pushed = pushed
awake woken = woken
awake deleting = deleting
awake deleted = deleted
awake restoring = restoring
awake holding = holding
awake releasing = releasing
awake reserving = reserving
awake (waking again) = waking again
awake (popping again) = popping again
awake (found_none again) = found_none again
awake (popped thread) = popped thread
awake (to_wake thread) = to_wake thread
awake rechecking = rechecking
awake failed = failed

abbrev pub move : Mutex → (i : ℕ) → Pc → Mutex
move s i q = record s { pc = update s.pc i q }

abbrev pub move_to : Mutex → (i : ℕ) → Pc → (locked : ℕ) → List ℕ → Mutex
move_to s i q locked queue = record { locked = locked; queue = queue; pc = update s.pc i q }

-- No thread holds the lock of the wait list.
abbrev pub IsOpen : Mutex → Type 0
IsOpen s = (k : ℕ) → inside (s.pc k) ≡ false

abbrev pub waken : Mutex → (j : ℕ) → Mutex
waken s j = move s j (awake (s.pc j))

-- One atomic access of thread `i`.
pub data Step (s : Mutex) (i : ℕ) : Mutex → Type 0 where
  call_lock : s.pc i ≡ idle → Step s i (move s i loading)
  load_unlocked : s.pc i ≡ loading → s.locked ≡ 0 → Step s i (move s i casing)
  load_locked : s.pc i ≡ loading → s.locked ≢ 0 → Step s i (move s i entering)
  cas_taken : s.pc i ≡ casing → s.locked ≡ 0 → Step s i (move_to s i holding 1 s.queue)
  cas_missed : s.pc i ≡ casing → s.locked ≢ 0 → Step s i (move s i entering)
  enter : s.pc i ≡ entering → IsOpen s → Step s i (move s i claiming)
  claim_free : s.pc i ≡ claiming → s.locked ≡ 0 → Step s i (move_to s i claimed 2 s.queue)
  claim_refused : s.pc i ≡ claiming → s.locked ≢ 0 → Step s i (move_to s i refused 2 s.queue)
  no_waiters : s.pc i ≡ claimed → s.queue ≡ [] → Step s i (move s i storing)
  has_waiters : s.pc i ≡ claimed → s.queue ≢ [] → Step s i (move s i leaving)
  store_locked : s.pc i ≡ storing → Step s i (move_to s i leaving 1 s.queue)
  leave : s.pc i ≡ leaving → Step s i (move s i holding)
  push_back : s.pc i ≡ refused → Step s i (move_to s i pushed s.locked (s.queue ++ (i ∷ [])))
  leave_pushed : s.pc i ≡ pushed → Step s i (move s i waiting)
  enter_again : s.pc i ≡ woken → IsOpen s → Step s i (move s i deleting)
  try_delete : s.pc i ≡ deleting → Step s i (move_to s i deleted s.locked (remove i s.queue))
  leave_again : s.pc i ≡ deleted → Step s i (move s i restoring)
  store_waiters : s.pc i ≡ restoring → Step s i (move_to s i holding 2 s.queue)
  call_unlock : s.pc i ≡ holding → Step s i (move s i releasing)
  cas_unlocked : s.pc i ≡ releasing → s.locked ≡ 1 → Step s i (move_to s i idle 0 s.queue)
  cas_contended : s.pc i ≡ releasing → s.locked ≢ 1 → Step s i (move s i reserving)
  store_reserved : s.pc i ≡ reserving → Step s i (move_to s i (waking false) 3 s.queue)
  enter_waking : {b : Bool} → s.pc i ≡ waking b → IsOpen s → Step s i (move s i (popping b))
  pop_none : {b : Bool} → s.pc i ≡ popping b → s.queue ≡ [] → Step s i (move s i (found_none b))
  pop_front :
      {b : Bool} {j : ℕ} {rest : List ℕ}
      → s.pc i ≡ popping b
      → s.queue ≡ j ∷ rest
      → Step s i (move_to s i (popped j) s.locked rest)
  leave_none : s.pc i ≡ found_none false → Step s i (move s i rechecking)
  leave_none_again : s.pc i ≡ found_none true → Step s i (move s i idle)
  leave_popped : {j : ℕ} → s.pc i ≡ popped j → Step s i (move s i (to_wake j))
  wake : {j : ℕ} → s.pc i ≡ to_wake j → Step s i (waken (move s i idle) j)
  recheck_free : s.pc i ≡ rechecking → s.locked ≡ 3 → Step s i (move_to s i idle 0 s.queue)
  recheck_waiters : s.pc i ≡ rechecking → s.locked ≡ 2 → Step s i (move s i (waking true))
  recheck_failed : s.pc i ≡ rechecking → s.locked ≢ 3 → s.locked ≢ 2 → Step s i (move s i failed)

-- An unlocked mutex that no thread uses.
abbrev pub init : Mutex
init = record { locked = 0; queue = []; pc = λ i. idle }

pub data Reach : Mutex → Type 0 where
  start : Reach init
  later : {s t : Mutex} (i : ℕ) → Reach s → Step s i t → Reach t
