-- ===== src/Tests/Locks.antt =====
-- Two threads at the ticket lock.
use evalyn_os.Base.{ℕ, ◌≡◌, ◌==◌, if◌then◌else◌, refl, arith, List, [], ◌∷◌}
use evalyn_os.Locks.Ticketlock.{
  System, holding, idle, spinning, leaving, Reach, start, later, disable_preemption, fetch_next,
  load_owner, fetch_owner,
}
use evalyn_os.Locks.Ticketlock.Invariant.{Inv, inside}
use evalyn_os.Locks.Ticketlock.Fifo.{QueueStep}
use evalyn_os.Locks.Ticketlock.Exclusion.{Step-QueueStep, mutual_exclusion, preemption_counted}

-- The first thread holds the lock, and the second waits for it.
abbrev contended : System
contended = record {
  next = 2;
  owner = 0;
  preempt = λ i. if i == 0 then 1 else if i == 1 then 1 else 0;
  pc = λ i. if i == 0 then holding 0 else if i == 1 then spinning 1 else idle;
}

contended-Inv : Inv 2 contended (0 ∷ 1 ∷ [])
contended-Inv = record {
  bound = omega arith;
  tickets = (refl, (refl, tt));
  end = refl;
  distinct = (refl, (refl, tt));
  below = (omega arith, (omega arith, tt));
  outside = λ i m. ground (arith, m);
  held = λ i my e. ground (arith, e);
  counted = λ i. ground arith;
}

abbrev released : System
released = record contended {
  owner = 1;
  pc = λ i.
      if i == 0
      then leaving
      else (if i == 0 then holding 0 else if i == 1 then spinning 1 else idle);
}

Step-QueueStep_example : (q : List ℕ) × QueueStep (0 ∷ 1 ∷ []) q × Inv 2 released q
Step-QueueStep_example =
    Step-QueueStep 2 contended released (0 ∷ 1 ∷ []) (omega arith) contended-Inv
      (fetch_owner 0 0 (omega arith) refl)

-- The lock is taken by thread 1 of 2.
abbrev acquired : (s : System) × Reach 2 s × (s.pc 1 ≡ holding 0)
acquired = (
  _,
  later
      (later (later start (disable_preemption 1 (omega arith) refl))
        (fetch_next 1 (omega arith) refl))
      (load_owner 1 0 (omega arith) refl refl),
  refl,
)

mutual_exclusion_example : ◌≡◌ {A = ℕ} 1 1
mutual_exclusion_example =
    mutual_exclusion 2 acquired.0 1 1 0 0 (omega arith) acquired.1 acquired.2 acquired.2

preemption_counted_example : acquired.0.preempt 1 ≡ inside (acquired.0.pc 1)
preemption_counted_example = preemption_counted 2 acquired.0 1 (omega arith) acquired.1
