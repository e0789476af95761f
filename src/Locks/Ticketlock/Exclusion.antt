-- ===== src/Locks/Ticketlock/Exclusion.antt =====
-- The ticket lock admits one thread at a time, in the order of arrival.
use evalyn_os.Base.{ℕ, ◌<◌, ◌≡◌, refl, ap, sym, ◌∙◌, some, List, [], ◌∷◌, ◌++◌, arith}
use evalyn_os.Locks.Ticketlock.{
  word, idle, taking, holding, System, Step, disable_preemption, fetch_next, load_owner,
  fetch_owner, enable_preemption, init, Reach, start, later,
}
use evalyn_os.Locks.Ticketlock.Invariant.{ticket, inside, Inv, some-inj}
use evalyn_os.Locks.Ticketlock.Fifo.{
  QueueStep, stay, arrive, depart, keep, join, unlock-next, first, inside-update, inside-same,
}

-- With fewer than 2^32 threads, from a state with the invariant, each step of the lock is a step
-- of the queue of those that hold a ticket: one joins at the end, the first leaves, or nothing
-- changes; and the invariant holds after it.
pub Step-QueueStep :
    (n : ℕ) (s t : System) (q : List ℕ)
    → n < word
    → Inv n s q
    → Step n s t
    → (q' : List ℕ) × QueueStep q q' × Inv n t q'
Step-QueueStep n s _ q few inv (disable_preemption i lt at) = (
  q,
  stay,
  keep n few s q i taking _ inv (ap ticket (sym at)) (λ my e. absurd (grind (arith, e)))
      (inside-update s.pc s.preempt i taking _ inv.counted
        (omega (arith, inv.counted i ∙ ap inside at))),
)
Step-QueueStep n s _ q few inv (fetch_next i lt at) =
    (q ++ i ∷ [], arrive i, join n few s q i lt at inv)
Step-QueueStep n s _ q few inv (load_owner i my lt at owns) = (
  q,
  stay,
  keep n few s q i (holding my) s.preempt inv (ap ticket (sym at)) mine
      (inside-same s.pc s.preempt i (holding my) inv.counted (ap inside at)),
)
  where
    mine : (my' : ℕ) → holding my ≡ holding my' → my' ≡ s.owner
    mine my' e = let eq : some my ≡ some my' = ap ticket e in sym (some-inj eq) ∙ sym owns
Step-QueueStep n s _ q few inv (fetch_owner i my lt at) =
    let f = first n few s q i inv (ap ticket at ∙ ap some (inv.held i my at)) in
    (f.0, rw f.1 (depart i), unlock-next n few s i my f.0 at (rw (← f.1) inv))
Step-QueueStep n s _ q few inv (enable_preemption i lt at) = (
  q,
  stay,
  keep n few s q i idle _ inv (ap ticket (sym at)) (λ my e. absurd (grind (arith, e)))
      (inside-update s.pc s.preempt i idle _ inv.counted
        (omega (arith, inv.counted i ∙ ap inside at))),
)

init-Inv : (n : ℕ) → Inv n init []
init-Inv n = record {
  bound = omega arith;
  tickets = tt;
  end = refl;
  distinct = tt;
  below = tt;
  outside = λ i m. refl;
  held = λ i my e. absurd (grind (arith, e));
  counted = λ i. refl;
}

pub Reach-Inv : (n : ℕ) (s : System) → n < word → Reach n s → (q : List ℕ) × Inv n s q
Reach-Inv n _ few start = ([], init-Inv n)
Reach-Inv n s few (later {s = t} r st) =
    let before = Reach-Inv n t few r in
    let after = Step-QueueStep n t s before.0 few before.1 st in (after.0, after.2)

-- With fewer than 2^32 threads, two threads that hold the lock in a reachable state are the same.
pub mutual_exclusion :
    (n : ℕ) (s : System) (i j a b : ℕ)
    → n < word
    → Reach n s
    → s.pc i ≡ holding a
    → s.pc j ≡ holding b
    → i ≡ j
mutual_exclusion n s i j a b few r hi hj =
    let (q, inv) = Reach-Inv n s few r in
    let fi = first n few s q i inv (ap ticket hi ∙ ap some (inv.held i a hi)) in
    let fj = first n few s q j inv (ap ticket hj ∙ ap some (inv.held j b hj)) in
    head-inj (sym fi.1 ∙ fj.1)
  where
    head-inj : {x y : ℕ} {xs ys : List ℕ} → x ∷ xs ≡ y ∷ ys → x ≡ y
    head-inj e = grind (arith, e)

-- With fewer than 2^32 threads, in a reachable state the preemption counter of a thread is 1 from
-- its first step in lock to its last in unlock, and 0 elsewhere.
pub preemption_counted :
    (n : ℕ) (s : System) (i : ℕ) → n < word → Reach n s → s.preempt i ≡ inside (s.pc i)
preemption_counted n s i few r = (Reach-Inv n s few r).1.counted i
