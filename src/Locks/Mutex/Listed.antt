-- ===== src/Locks/Mutex/Listed.antt =====
-- The waiters of a mutex: each is in the list, or about to be woken up.
use evalyn_os.Base.{
  ℕ, ◌≡◌, ◌≢◌, ◌⊎◌, inl, inr, refl, ap, sym, ◌∙◌, ◌==◌, ==_iff, Bool, true, false, arith,
  Bool-cases,
}
use evalyn_os.Base.Distinct.{has, Distinct}
use evalyn_os.Base.Maps.{update}
use evalyn_os.Locks.Mutex.{
  Pc, Mutex, idle, loading, casing, entering, claiming, claimed, storing, leaving, refused, pushed,
  waiting, woken, deleting, deleted, restoring, holding, releasing, reserving, waking, popping,
  found_none, popped, to_wake, rechecking, failed, move, move_to,
}
use evalyn_os.Locks.Mutex.Invariant.{owns}
use evalyn_os.Locks.Mutex.Moves.{at_all}

-- The thread is in the list, or was.
abbrev pub is_queued : Pc → Bool
is_queued idle = false
is_queued loading = false
is_queued casing = false
is_queued entering = false
is_queued claiming = false
is_queued claimed = false
is_queued storing = false
is_queued leaving = false
is_queued refused = false
is_queued pushed = true
is_queued waiting = true
is_queued woken = false
is_queued deleting = false
is_queued deleted = false
is_queued restoring = false
is_queued holding = false
is_queued releasing = false
is_queued reserving = false
is_queued (waking again) = false
is_queued (popping again) = false
is_queued (found_none again) = false
is_queued (popped thread) = false
is_queued (to_wake thread) = false
is_queued rechecking = false
is_queued failed = false

-- The thread wakes up thread `k`.
abbrev pub hands : Pc → (k : ℕ) → Bool
hands idle k = false
hands loading k = false
hands casing k = false
hands entering k = false
hands claiming k = false
hands claimed k = false
hands storing k = false
hands leaving k = false
hands refused k = false
hands pushed k = false
hands waiting k = false
hands woken k = false
hands deleting k = false
hands deleted k = false
hands restoring k = false
hands holding k = false
hands releasing k = false
hands reserving k = false
hands (waking again) k = false
hands (popping again) k = false
hands (found_none again) k = false
hands (popped thread) k = k == thread
hands (to_wake thread) k = k == thread
hands rechecking k = false
hands failed k = false

pub record Listed (s : Mutex) : Type 0 where
  pub distinct : Distinct s.queue
  pub queued : (k : ℕ) → has k s.queue ≡ true → is_queued (s.pc k) ≡ true
  pub handed : (i k : ℕ) → hands (s.pc i) k ≡ true → (s.pc k ≡ waiting) × (has k s.queue ≡ false)
  pub waits :
      (k : ℕ)
      → is_queued (s.pc k) ≡ true
      → (has k s.queue ≡ true) ⊎ ((i : ℕ) × (hands (s.pc i) k ≡ true))
  pub owned : s.locked ≢ 0 → (i : ℕ) × (owns (s.pc i) ≡ true)

pub update-here : (f : ℕ → Pc) (i : ℕ) (q : Pc) → update f i q i ≡ q
update-here f i q = let e : (i == i) ≡ true = ground arith in rw e refl

pub update-other : (f : ℕ → Pc) (i : ℕ) (q : Pc) (k : ℕ) → (k == i) ≡ false → update f i q k ≡ f k
update-other f i q k e = rw e refl

-- A thread that is not in the list moves, and wakes up the same as before.
module _ (s : Mutex) (i : ℕ) (p q : Pc) (v : ℕ) (listed : Listed s) (at : s.pc i ≡ p)
    (out : is_queued p ≡ false) (out' : is_queued q ≡ false)
    (same : (k : ℕ) → hands q k ≡ hands p k)
    (owner : v ≢ 0
      → (owns q ≡ true) ⊎ ((k : ℕ) × ((k == i) ≡ false) × (owns (s.pc k) ≡ true))) where
  abbrev t : Mutex
  t = move_to s i q v s.queue

  out_i : is_queued (s.pc i) ≡ false
  out_i = ap is_queued at ∙ out

  other_than : (k : ℕ) → is_queued (s.pc k) ≡ true → (k == i) ≡ false
  other_than k h = elim (Bool-cases (k == i)) [
    | inl here ↦
        absurd (ground (arith, out_i, h, ap (λ j. is_queued (s.pc j)) ((==_iff k i).0 here)))
    | inr away ↦ away
  ]

  hands_same : (j k : ℕ) → hands (update s.pc i q j) k ≡ hands (s.pc j) k
  hands_same =
      at_all (λ j x. (k : ℕ) → hands x k ≡ hands (s.pc j) k) s.pc i q
        (λ k. same k ∙ ap (λ x. hands x k) (sym at)) (λ j _ k. refl)

  pub stay-Listed : Listed (move_to s i q v s.queue)
  stay-Listed = record {
    distinct = listed.distinct;
    queued = λ k h.
        let was = listed.queued k h in
        ap is_queued (update-other s.pc i q k (other_than k was)) ∙ was;
    handed = λ j k h.
        let (w, n) = listed.handed j k (sym (hands_same j k) ∙ h) in
        (update-other s.pc i q k (other_than k (ap is_queued w)) ∙ w, n);
    waits =
        at_all
          (λ k x.
            is_queued x ≡ true → (has k s.queue ≡ true) ⊎ ((j : ℕ) × (hands (t.pc j) k ≡ true)))
          s.pc i q (λ h. absurd (ground (arith, out', h)))
          (λ k other h. elim (listed.waits k h) [
            | inl there ↦ inl there
            | inr (j, hd) ↦ inr (j, hands_same j k ∙ hd)
          ]);
    owned = λ z. elim (owner z) [
      | inl own ↦ (i, ap owns (update-here s.pc i q) ∙ own)
      | inr (k, other, own) ↦ (k, ap owns (update-other s.pc i q k other) ∙ own)
    ];
  }

-- The owner stays when a thread moves that keeps the mutex, or that does not have it.
pub owner_stays :
    (s : Mutex) (i : ℕ) (p q : Pc)
    → Listed s
    → s.pc i ≡ p
    → (owns p ≡ true → owns q ≡ true)
    → s.locked ≢ 0
    → (owns q ≡ true) ⊎ ((k : ℕ) × ((k == i) ≡ false) × (owns (s.pc k) ≡ true))
owner_stays s i p q listed at keeps z =
    let (k, own) = listed.owned z in
    elim (Bool-cases (k == i)) [
      | inl here ↦
          inl (keeps (ap owns (sym at) ∙ ap (λ j. owns (s.pc j)) (sym ((==_iff k i).0 here)) ∙ own))
      | inr away ↦ inr (k, away, own)
    ]

pub move-Listed :
    (s : Mutex) (i : ℕ) (p q : Pc)
    → Listed s
    → s.pc i ≡ p
    → is_queued p ≡ false
    → is_queued q ≡ false
    → ((k : ℕ) → hands q k ≡ hands p k)
    → (owns p ≡ true → owns q ≡ true)
    → Listed (move s i q)
move-Listed s i p q listed at out out' same keeps =
    stay-Listed s i p q s.locked listed at out out' same (owner_stays s i p q listed at keeps)
