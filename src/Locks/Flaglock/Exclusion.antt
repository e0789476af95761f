-- ===== src/Locks/Flaglock/Exclusion.antt =====
-- At most one thread holds the flag, in the state that `enter` gives.
use evalyn_os.Base.{
  ℕ, ◌≡◌, refl, ap, sym, ◌∙◌, inl, inr, Bool, true, false, ◌&&◌, arith, Bool-cases, ◌==◌, ==_iff,
}
use evalyn_os.Base.Maps.{update}
use evalyn_os.Locks.Flaglock.{
  Guard, Pc, idle, loading, exchanging, holding, leaving, System, Step, call_lock, load_zero,
  exchange_zero, exchange_other, store_zero, return_unlock, Reach, start, later, Irqs, outside,
  interrupts_enabled, irq_guard,
}

abbrev pub holds : Pc → Bool
holds idle = false
holds loading = false
holds exchanging = false
holds holding = true
holds leaving = false

abbrev pub is_idle : Pc → Bool
is_idle idle = true
is_idle loading = false
is_idle exchanging = false
is_idle holding = false
is_idle leaving = false

record Inv {L : Type 0} (g : Guard L) (own : ℕ → L) (s : System L) : Type 0 where
  one : (i j : ℕ) → holds (s.pc i) ≡ true → holds (s.pc j) ≡ true → i ≡ j
  free : s.flag ≡ 0 → (i : ℕ) → holds (s.pc i) ≡ false
  outside' : (i : ℕ) → is_idle (s.pc i) ≡ true → s.own i ≡ own i
  inside' : (i : ℕ) → is_idle (s.pc i) ≡ false → s.own i ≡ g.enter (own i)

module _ {L : Type 0} (g : Guard L) (own : ℕ → L) (s : System L) (i : ℕ) (new : Pc)
    (inv : Inv g own s) where
  -- A thread moves on, and does not take the flag.
  moved_one :
      holds new ≡ false
      → (j k : ℕ) → holds (update s.pc i new j) ≡ true
      → holds (update s.pc i new k) ≡ true
      → j ≡ k
  moved_one h j k a b = elim (Bool-cases (j == i)) [
    | inl here ↦ absurd (ground (arith, here, h, a))
    | inr there ↦ elim (Bool-cases (k == i)) [
      | inl at ↦ absurd (ground (arith, at, h, b))
      | inr off ↦ inv.one j k (rw there at a) (rw off at b)
    ]
  ]

  moved_free : holds new ≡ false → s.flag ≡ 0 → (j : ℕ) → holds (update s.pc i new j) ≡ false
  moved_free h z j = elim (Bool-cases (j == i)) [
    | inl here ↦ rw here h
    | inr there ↦ rw there (inv.free z j)
  ]

  -- Its own state does not change, and it stays in or out.
  moved_outside :
      is_idle new ≡ false → (j : ℕ) → is_idle (update s.pc i new j) ≡ true → s.own j ≡ own j
  moved_outside h j e = elim (Bool-cases (j == i)) [
    | inl here ↦ absurd (ground (arith, here, h, e))
    | inr there ↦ inv.outside' j (rw there at e)
  ]

  moved_inside :
      is_idle (s.pc i) ≡ false
      → (j : ℕ) → is_idle (update s.pc i new j) ≡ false
      → s.own j ≡ g.enter (own j)
  moved_inside h j e = elim (Bool-cases (j == i)) [
    | inl here ↦ inv.inside' j (ap (λ k. is_idle (s.pc k)) ((==_iff j i).0 here) ∙ h)
    | inr there ↦ inv.inside' j (rw there at e)
  ]

Inv-Step :
    {L : Type 0} (g : Guard L) (own : ℕ → L) (back : (l : ℕ) → g.leave (g.enter (own l)) ≡ own l)
    (s t : System L)
    → Inv g own s
    → Step g s t
    → Inv g own t
Inv-Step g own back s t inv (call_lock i p) = record {
  one = moved_one g own s i loading inv refl;
  free = moved_free g own s i loading inv refl;
  outside' = λ j e. elim (Bool-cases (j == i)) [
    | inl here ↦ absurd (ground (arith, here, e))
    | inr there ↦ rw there (inv.outside' j (rw there at e))
  ];
  inside' = λ j e. elim (Bool-cases (j == i)) [
    | inl here ↦ rw here (
        ap g.enter (inv.outside' i (ap is_idle p))
        ∙ ap (λ k. g.enter (own k)) (sym ((==_iff j i).0 here)))
    | inr there ↦ rw there (inv.inside' j (rw there at e))
  ];
}
Inv-Step g own back s t inv (load_zero i p z) = record {
  one = moved_one g own s i exchanging inv refl;
  free = moved_free g own s i exchanging inv refl;
  outside' = moved_outside g own s i exchanging inv refl;
  inside' = moved_inside g own s i exchanging inv (ap is_idle p);
}
Inv-Step g own back s t inv (exchange_zero i p z) = record {
  one = λ j k a b. taken j a ∙ sym (taken k b);
  free = λ e. absurd (ground (arith, e));
  outside' = moved_outside g own s i holding inv refl;
  inside' = moved_inside g own s i holding inv (ap is_idle p);
}
  where
    taken : (j : ℕ) → holds (update s.pc i holding j) ≡ true → j ≡ i
    taken j a = elim (Bool-cases (j == i)) [
      | inl here ↦ (==_iff j i).0 here
      | inr there ↦ let a' = rw there at a in absurd (ground (arith, a', inv.free z j))
    ]
Inv-Step g own back s t inv (exchange_other i p z) = record {
  one = moved_one g own s i loading inv refl;
  free = λ e. absurd (ground (arith, e));
  outside' = moved_outside g own s i loading inv refl;
  inside' = moved_inside g own s i loading inv (ap is_idle p);
}
Inv-Step g own back s t inv (store_zero i p) = record {
  one = moved_one g own s i leaving inv refl;
  free = λ e j. elim (Bool-cases (j == i)) [
    | inl here ↦ rw here refl
    | inr there ↦ rw there (elim (Bool-cases (holds (s.pc j))) [
      | inl on ↦ absurd (ground (arith, there, inv.one j i on (ap holds p)))
      | inr off ↦ off
    ])
  ];
  outside' = moved_outside g own s i leaving inv refl;
  inside' = moved_inside g own s i leaving inv (ap is_idle p);
}
Inv-Step g own back s t inv (return_unlock i p) = record {
  one = moved_one g own s i idle inv refl;
  free = moved_free g own s i idle inv refl;
  outside' = λ j e. elim (Bool-cases (j == i)) [
    | inl here ↦
        rw here
          (ap g.leave (inv.inside' i (ap is_idle p)) ∙ back i ∙ ap own (sym ((==_iff j i).0 here)))
    | inr there ↦ rw there (inv.outside' j (rw there at e))
  ];
  inside' = λ j e. elim (Bool-cases (j == i)) [
    | inl here ↦ absurd (ground (arith, here, e))
    | inr there ↦ rw there (inv.inside' j (rw there at e))
  ];
}

Inv-Reach :
    {L : Type 0} (g : Guard L) (own : ℕ → L) (back : (l : ℕ) → g.leave (g.enter (own l)) ≡ own l)
    (s : System L)
    → Reach g own s
    → Inv g own s
Inv-Reach g own back s start = record {
  one = λ i j a b. absurd (ground (arith, a));
  free = λ e i. refl;
  outside' = λ i e. refl;
  inside' = λ i e. absurd (ground (arith, e));
}
Inv-Reach g own back s (later {s = r} run step) =
    Inv-Step g own back r s (Inv-Reach g own back r run) step

-- Where what a thread does after it unlocks undoes what it does before it locks, two threads that
-- hold the flag in a reachable state are the same, and the thread is in the state that the latter
-- gives.
pub one_holder :
    {L : Type 0} (g : Guard L) (own : ℕ → L) (s : System L) (i j : ℕ)
    → ((l : ℕ) → g.leave (g.enter (own l)) ≡ own l)
    → Reach g own s
    → s.pc i ≡ holding
    → s.pc j ≡ holding
    → (i ≡ j) × (s.own i ≡ g.enter (own i))
one_holder g own s i j back run a b =
    let inv = Inv-Reach g own back s run in
    (inv.one i j (ap holds a) (ap holds b), inv.inside' i (ap is_idle a))

-- In a reachable state of an irqlock, interrupts are disabled on a processor from its call of
-- irqlock_lock to the return of irqlock_unlock, and elsewhere they are enabled if they were at
-- first.
pub irqs_restored :
    (enabled : ℕ → Bool) (s : System Irqs) (i : ℕ)
    → Reach irq_guard (λ l. outside (enabled l)) s
    → interrupts_enabled (s.own i) ≡ (is_idle (s.pc i) && enabled i)
irqs_restored enabled s i run =
    let inv = Inv-Reach irq_guard (λ l. outside (enabled l)) (λ l. refl) s run in
    elim (Bool-cases (is_idle (s.pc i))) [
      | inl out ↦ rw out (ap interrupts_enabled (inv.outside' i out))
      | inr within ↦ rw within (ap interrupts_enabled (inv.inside' i within))
    ]
