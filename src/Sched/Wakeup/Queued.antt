-- ===== src/Sched/Wakeup/Queued.antt =====
-- A thread is in at most one place that can run it.
use evalyn_os.Base.{ℕ, ◌+◌, ◌≡◌, ◌≢◌, refl, ap, Bool, true, false, if◌then◌else◌, not, ◌&&◌, arith}
use evalyn_os.Sched.Wakeup.{
  ThreadState, running, runable, blocking, blocked, Place, on_cpu, leaving, requeueing, committing,
  pushing, off_cpu, arriving, Thread, Step, waits, wakes, set_blocking, condition_met, schedule,
  load_running, load_blocking, store_runable, commit_blocked, commit_failed, push_back,
  wake_blocked, wake_other, enqueue, pop_front, store_running, created, Steps, done, after,
}

abbrev pub is_blocked : ThreadState → Bool
is_blocked running = false
is_blocked runable = false
is_blocked blocking = false
is_blocked blocked = true

abbrev pub is_off : Place → Bool
is_off on_cpu = false
is_off leaving = false
is_off requeueing = false
is_off committing = false
is_off pushing = false
is_off off_cpu = true
is_off arriving = false

-- How often the thread may yet be taken from a queue.
abbrev pub chances : ThreadState → Place → ℕ
chances state place = if is_off place && not (is_blocked state) then 1 else 0

pub record Inv (s : Thread) : Type 0 where
  pub count : s.queued + s.pending ≡ chances s.state s.place
  pub blocked_off : is_blocked s.state ≡ true → is_off s.place ≡ true

-- The place and the state, by what the count reads.
place_at : {p q : Place} → p ≡ q → is_off p ≡ is_off q
place_at e = ap is_off e

state_at : {k l : ThreadState} → k ≡ l → is_blocked k ≡ is_blocked l
state_at e = ap is_blocked e

not_blocked : (k : ThreadState) → k ≢ blocked → is_blocked k ≡ false
not_blocked running ne = refl
not_blocked runable ne = refl
not_blocked blocking ne = refl
not_blocked blocked ne = absurd (ne refl)

pub Inv-Step : (s t : Thread) → Inv s → Step s t → Inv t
Inv-Step s t inv (waits (set_blocking p)) = record {
  count = ground (arith, inv.count, place_at p);
  blocked_off = λ b. ground (arith, b);
}
Inv-Step s t inv (waits (condition_met p)) = record {
  count = ground (arith, inv.count, place_at p);
  blocked_off = λ b. ground (arith, b);
}
Inv-Step s t inv (schedule p) = record {
  count = ground (arith, inv.count, place_at p);
  blocked_off = λ b. ground (arith, b, inv.blocked_off, place_at p);
}
Inv-Step s t inv (load_running p e) = record {
  count = ground (arith, inv.count, place_at p);
  blocked_off = λ b. ground (arith, b, state_at e);
}
Inv-Step s t inv (load_blocking p e) = record {
  count = ground (arith, inv.count, place_at p);
  blocked_off = λ b. ground (arith, b, inv.blocked_off, place_at p);
}
Inv-Step s t inv (store_runable p) = record {
  count = ground (arith, inv.count, place_at p);
  blocked_off = λ b. ground (arith, b);
}
Inv-Step s t inv (commit_blocked p e) = record {
  count = ground (arith, inv.count, place_at p);
  blocked_off = λ b. refl;
}
Inv-Step s t inv (commit_failed p e) = record {
  count = ground (arith, inv.count, place_at p);
  blocked_off = λ b. ground (arith, b, inv.blocked_off, place_at p);
}
Inv-Step s t inv (push_back p) = record {
  count = ground (arith, inv.count, place_at p, inv.blocked_off);
  blocked_off = λ b. refl;
}
Inv-Step s t inv (wakes (wake_blocked e)) = record {
  count = ground (arith, inv.count, state_at e, inv.blocked_off);
  blocked_off = λ b. ground (arith, b);
}
Inv-Step s t inv (wakes (wake_other e)) = record {
  count = ground (arith, inv.count, not_blocked s.state e);
  blocked_off = λ b. ground (arith, b);
}
Inv-Step s t inv (wakes (enqueue p)) = record {
  count = ground (arith, inv.count, p);
  blocked_off = inv.blocked_off;
}
Inv-Step s t inv (pop_front p) = record {
  count = ground (arith, inv.count, p);
  blocked_off = λ b. ground (arith, b, inv.count, p);
}
Inv-Step s t inv (store_running p) = record {
  count = ground (arith, inv.count, place_at p);
  blocked_off = λ b. ground (arith, b);
}

Inv-Steps : (s t : Thread) → Inv s → Steps s t → Inv t
Inv-Steps s t inv done = inv
Inv-Steps s t inv (after {t = m} run step) = Inv-Step m t (Inv-Steps s m inv run) step

created-Inv : Inv created
created-Inv = record { count = refl; blocked_off = λ b. refl }

pub reached-Inv : (s : Thread) → Steps created s → Inv s
reached-Inv s run = Inv-Steps created s created-Inv run

-- Of a thread in a reachable state, the times that it is in a run queue and the wakers about to
-- put it into one are together 1 if it is on no processor and not blocked, and 0 otherwise; and it
-- is not blocked unless it is on no processor.
pub queued_once :
    (s : Thread)
    → Steps created s
    → (s.queued + s.pending ≡ (if is_off s.place && not (is_blocked s.state) then 1 else 0))
      × ((is_blocked s.state && not (is_off s.place)) ≡ false)
queued_once s run = let inv = reached-Inv s run in (inv.count, ground (arith, inv.blocked_off))
