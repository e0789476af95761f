-- ===== src/Locks/Flaglock.antt =====
-- kernel/src/utils/locks/spinlock.h, preemptlock.h and irqlock.h: threads that lock and unlock one
-- flag, in any interleaving of their atomic accesses. The three differ in what a thread does before
-- and after, which is a pair of functions on a state of its own.
pub mod Exclusion
use evalyn_os.Base.{ℕ, ◌+◌, ◌-◌, ◌%◌, ◌^◌, ◌<◌, ◌≡◌, ◌≢◌, Bool, true, false}
use evalyn_os.Base.Maps.{update}

-- What surrounds the accesses of the flag.
pub record Guard (L : Type 0) : Type 0 where
  pub enter : L → L
  pub leave : L → L

-- `spinlock_t`: nothing
abbrev pub spin_guard : Guard Unit
spin_guard = record { enter = λ l. l; leave = λ l. l }

-- `preemptlock_t`: the counter of `disable_preemption` and `enable_preemption`
abbrev pub preempt_guard : Guard ℕ
preempt_guard = record {
  enter = λ counter. (counter + 1) % 2 ^ 32;
  leave = λ counter. (counter + 2 ^ 32 - 1) % 2 ^ 32;
}

-- `irqlock_t`: whether interrupts are enabled, or that they are disabled and what `irqs` holds
pub data Irqs : Type 0 where
  outside : (enabled : Bool) → Irqs
  inside : (irqs : Bool) → Irqs

abbrev pub interrupts_enabled : Irqs → Bool
interrupts_enabled (outside enabled) = enabled
interrupts_enabled (inside irqs) = false

abbrev pub save_irqs : Irqs → Irqs
save_irqs l = inside (interrupts_enabled l)

abbrev pub restore_irqs : Irqs → Irqs
restore_irqs (inside irqs) = outside irqs
restore_irqs (outside enabled) = outside enabled

abbrev pub irq_guard : Guard Irqs
irq_guard = record { enter = save_irqs; leave = restore_irqs }

-- Where a thread stands in the functions that lock and unlock.
pub data Pc : Type 0 where
  idle : Pc
  loading : Pc  -- the inner loop
  exchanging : Pc  -- the load gave 0
  holding : Pc
  leaving : Pc  -- the flag is stored, and `leave` is not done

pub record System (L : Type 0) : Type 0 where
  pub flag : ℕ
  pub pc : ℕ → Pc
  pub own : ℕ → L

-- One atomic access of thread `i`.
pub data Step {L : Type 0} (g : Guard L) (s : System L) : System L → Type 0 where
  call_lock :
      (i : ℕ)
      → s.pc i ≡ idle
      → Step g s (record s { pc = update s.pc i loading; own = update s.own i (g.enter (s.own i)) })
  load_zero :
      (i : ℕ)
      → s.pc i ≡ loading
      → s.flag ≡ 0
      → Step g s (record s { pc = update s.pc i exchanging })
  exchange_zero :
      (i : ℕ)
      → s.pc i ≡ exchanging
      → s.flag ≡ 0
      → Step g s (record s { flag = 1; pc = update s.pc i holding })
  exchange_other :
      (i : ℕ)
      → s.pc i ≡ exchanging
      → s.flag ≢ 0
      → Step g s (record s { flag = 1; pc = update s.pc i loading })
  store_zero :
      (i : ℕ) → s.pc i ≡ holding → Step g s (record s { flag = 0; pc = update s.pc i leaving })
  return_unlock :
      (i : ℕ)
      → s.pc i ≡ leaving
      → Step g s (record s { pc = update s.pc i idle; own = update s.own i (g.leave (s.own i)) })

-- The lock is initialised, and the threads have the states `own`.
abbrev pub init : {L : Type 0} → (ℕ → L) → System L
init own = record { flag = 0; pc = λ i. idle; own = own }

pub data Reach {L : Type 0} (g : Guard L) (own : ℕ → L) : System L → Type 0 where
  start : Reach g own (init own)
  later : {s t : System L} → Reach g own s → Step g s t → Reach g own t

-- The three locks.
abbrev pub SpinStep : System Unit → System Unit → Type 0
SpinStep = Step spin_guard

abbrev pub PreemptStep : System ℕ → System ℕ → Type 0
PreemptStep = Step preempt_guard

abbrev pub IrqStep : System Irqs → System Irqs → Type 0
IrqStep = Step irq_guard
