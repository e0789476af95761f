-- ===== src/Tests/Sched.antt =====
-- A thread that is woken as it goes to wait, and processors at one lock.
use evalyn_os.Base.{ℕ, ◌+◌, ◌≡◌, refl, inl, if◌then◌else◌, not, ◌&&◌, Bool, true, false, arith}
use evalyn_os.Sched.Wakeup.{
  runable, off_cpu, Thread, waits, wakes, set_blocking, schedule, load_blocking, commit_blocked,
  wake_blocked, pop_front, store_running, created, Steps, done, after,
}
use evalyn_os.Sched.Wakeup.Queued.{is_off, is_blocked, queued_once}
use evalyn_os.Sched.Wakeup.Runs.{Runs, woken_runs}
use evalyn_os.Locks.Flaglock.{
  System, Reach, start, later, call_lock, load_zero, exchange_zero, preempt_guard, irq_guard, Irqs,
  outside, holding, interrupts_enabled,
}
use evalyn_os.Locks.Flaglock.Exclusion.{is_idle, one_holder, irqs_restored}

-- It runs, waits, is blocked and then woken, and the waker has yet to put it into a queue.
abbrev woken : Thread
woken = record { state = runable; place = off_cpu; queued = 0; pending = 1 }

woken-Steps : Steps created woken
woken-Steps =
    after
      (after
        (after
          (after
            (after (after (after done (pop_front refl)) (store_running refl))
              (waits (set_blocking refl)))
            (schedule refl))
          (load_blocking refl (inl refl)))
        (commit_blocked refl refl))
      (wakes (wake_blocked refl))

queued_once_example :
    (0 + 1 ≡ (if is_off off_cpu && not (is_blocked runable) then 1 else 0))
    × ((is_blocked runable && not (is_off off_cpu)) ≡ false)
queued_once_example = queued_once woken woken-Steps

woken_runs_example : Runs 5 woken
woken_runs_example = woken_runs woken woken-Steps refl

-- The first processor takes the lock.
abbrev enabled : ℕ → Bool
enabled i = true

irq-Reach : (s : System Irqs) × Reach irq_guard (λ l. outside (enabled l)) s × (s.pc 0 ≡ holding)
irq-Reach = (
  _,
  later (later (later start (call_lock 0 refl)) (load_zero 0 refl refl))
      (exchange_zero 0 refl refl),
  refl,
)

irq_run : interrupts_enabled (irq-Reach.0.own 0) ≡ (is_idle (irq-Reach.0.pc 0) && true)
irq_run = irqs_restored enabled irq-Reach.0 0 irq-Reach.1

preempt-Reach : (s : System ℕ) × Reach preempt_guard (λ l. 0) s × (s.pc 0 ≡ holding)
preempt-Reach = (
  _,
  later (later (later start (call_lock 0 refl)) (load_zero 0 refl refl))
      (exchange_zero 0 refl refl),
  refl,
)

one_holder_example : (◌≡◌ {A = ℕ} 0 0) × (preempt-Reach.0.own 0 ≡ preempt_guard.enter 0)
one_holder_example =
    one_holder preempt_guard (λ l. 0) preempt-Reach.0 0 0 (λ l. omega arith) preempt-Reach.1
      preempt-Reach.2 preempt-Reach.2
