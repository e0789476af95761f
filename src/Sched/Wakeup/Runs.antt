-- ===== src/Sched/Wakeup/Runs.antt =====
-- A thread that was woken comes to run.
use evalyn_os.Base.{ℕ, zero, suc, ◌+◌, ◌≡◌, inr, refl, ap, sym, ◌∙◌, Bool, true, false, arith}
use evalyn_os.Sched.Wakeup.{
  ThreadState, running, runable, blocking, blocked, Place, on_cpu, leaving, requeueing, committing,
  pushing, off_cpu, arriving, Thread, Step, waits, wakes, set_blocking, condition_met, schedule,
  load_running, load_blocking, store_runable, commit_blocked, commit_failed, push_back,
  wake_blocked, wake_other, enqueue, pop_front, store_running, created, Steps,
}
use evalyn_os.Sched.Wakeup.Queued.{is_off, is_blocked, Inv, reached-Inv}

abbrev pub is_wake : {s t : Thread} → Step s t → Bool
is_wake (waits (set_blocking p)) = false
is_wake (waits (condition_met p)) = false
is_wake (schedule p) = false
is_wake (load_running p e) = false
is_wake (load_blocking p e) = false
is_wake (store_runable p) = false
is_wake (commit_blocked p e) = false
is_wake (commit_failed p e) = false
is_wake (push_back p) = false
is_wake (wakes (wake_blocked e)) = true
is_wake (wakes (wake_other e)) = true
is_wake (wakes (enqueue p)) = false
is_wake (pop_front p) = false
is_wake (store_running p) = false

-- At most `k` steps, none of which wakes the thread, bring it onto a processor.
pub data Runs : (k : ℕ) → Thread → Type 0 where
  now : {k : ℕ} {s : Thread} → s.place ≡ on_cpu → Runs k s
  next :
      {k : ℕ} {s t : Thread} → (step : Step s t) → is_wake step ≡ false → Runs k t → Runs (suc k) s

is_blocking : ThreadState → Bool
is_blocking running = false
is_blocking runable = false
is_blocking blocking = true
is_blocking blocked = false

arriving-Runs : (k : ℕ) (s : Thread) → s.place ≡ arriving → Runs (suc k) s
arriving-Runs k s p = next (store_running p) refl (now refl)

queued-Runs : (k j : ℕ) (s : Thread) → s.queued ≡ suc j → Runs (suc (suc k)) s
queued-Runs k j s q = next (pop_front q) refl (arriving-Runs k _ refl)

pushing-Runs : (k : ℕ) (s : Thread) → s.place ≡ pushing → Runs (suc (suc (suc k))) s
pushing-Runs k s p = next (push_back p) refl (queued-Runs k s.queued _ (omega arith))

committing-Runs :
    (k : ℕ) (s : Thread)
    → s.place ≡ committing
    → s.state ≡ runable
    → Runs (suc (suc (suc (suc k)))) s
committing-Runs k s p e =
    next (commit_failed p (λ b. absurd (ground (arith, ap is_blocking (sym e ∙ b))))) refl
      (pushing-Runs k _ refl)

off-Runs : (s : Thread) → Inv s → s.place ≡ off_cpu → s.state ≡ runable → Runs 5 s
off-Runs s inv p e =
    let one : s.queued + s.pending ≡ 1 = inv.count ∙ ground (arith, ap is_off p, ap is_blocked e) in
    go s.queued s.pending one refl refl
  where
    go : (q w : ℕ) → q + w ≡ 1 → s.queued ≡ q → s.pending ≡ w → Runs 5 s
    go zero zero sum eq ew = absurd (omega (arith, sum))
    go zero (suc w) sum eq ew =
        next (wakes (enqueue ew)) refl (queued-Runs 2 s.queued _ (omega arith))
    go (suc q) w sum eq ew = queued-Runs 3 q s eq

-- From a reachable state in which the thread is runable, at most five steps, none of which is a
-- wake-up, bring it onto a processor.
pub woken_runs : (s : Thread) → Steps created s → s.state ≡ runable → Runs 5 s
woken_runs s run e = by_place s.place refl
  where
    by_place : (p : Place) → s.place ≡ p → Runs 5 s
    by_place on_cpu p = now p
    by_place leaving p = next (load_blocking p (inr e)) refl (committing-Runs 0 _ refl e)
    by_place requeueing p = next (store_runable p) refl (pushing-Runs 1 _ refl)
    by_place committing p = committing-Runs 1 s p e
    by_place pushing p = pushing-Runs 2 s p
    by_place off_cpu p = off-Runs s (reached-Inv s run) p e
    by_place arriving p = arriving-Runs 4 s p
