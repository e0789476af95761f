-- ===== src/Locks/Ticketlock.antt =====
-- kernel/src/utils/locks/ticketlock.h, with `disable_preemption` and `enable_preemption` of
-- kernel/src/sched/preempt.h: threads that lock and unlock one ticket lock, in any interleaving of
-- their atomic accesses.
pub mod Invariant
pub mod Fifo
pub mod Exclusion
use evalyn_os.Base.{ℕ, ◌+◌, ◌-◌, ◌%◌, ◌^◌, ◌<◌, ◌≡◌}
use evalyn_os.Base.Maps.{update}

-- `uint32_t`
abbrev pub word : ℕ
word = 2 ^ 32

-- Where a thread stands in `ticketlock_lock` and `ticketlock_unlock`; `my` is its local variable.
pub data Pc : Type 0 where
  idle : Pc
  taking : Pc  -- preemption is disabled, and no ticket taken
  spinning : (my : ℕ) → Pc
  holding : (my : ℕ) → Pc  -- between the return of `lock` and the call of `unlock`
  leaving : Pc  -- the owner is advanced, and preemption still disabled

-- `ticketlock_t`, with the threads and their `preempt_disable_counter`
pub record System : Type 0 where
  pub next : ℕ
  pub owner : ℕ
  pub preempt : ℕ → ℕ
  pub pc : ℕ → Pc

-- One atomic access of thread `i` of `n`. A load of the owner that differs changes nothing.
pub data Step (n : ℕ) (s : System) : System → Type 0 where
  disable_preemption :
      (i : ℕ)
      → i < n
      → s.pc i ≡ idle
      → Step n s (record s {
        preempt = update s.preempt i ((s.preempt i + 1) % word);
        pc = update s.pc i taking;
      })
  fetch_next :
      (i : ℕ)
      → i < n
      → s.pc i ≡ taking
      → Step n s (record s { next = (s.next + 1) % word; pc = update s.pc i (spinning s.next) })
  load_owner :
      (i my : ℕ)
      → i < n
      → s.pc i ≡ spinning my
      → s.owner ≡ my
      → Step n s (record s { pc = update s.pc i (holding my) })
  fetch_owner :
      (i my : ℕ)
      → i < n
      → s.pc i ≡ holding my
      → Step n s (record s { owner = (s.owner + 1) % word; pc = update s.pc i leaving })
  enable_preemption :
      (i : ℕ)
      → i < n
      → s.pc i ≡ leaving
      → Step n s (record s {
        preempt = update s.preempt i ((s.preempt i + word - 1) % word);
        pc = update s.pc i idle;
      })

-- `ticketlock_init`, with no thread inside
abbrev pub init : System
init = record { next = 0; owner = 0; preempt = λ i. 0; pc = λ i. idle }

pub data Reach (n : ℕ) : System → Type 0 where
  start : Reach n init
  later : {s t : System} → Reach n s → Step n s t → Reach n t
