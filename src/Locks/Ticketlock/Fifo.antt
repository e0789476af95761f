-- ===== src/Locks/Ticketlock/Fifo.antt =====
-- Each step of the ticket lock, as a step of its queue.
use evalyn_os.Base.{
  ℕ, suc, ◌+◌, ◌%◌, ◌<◌, ◌≡◌, refl, ap, sym, ◌∙◌, ◌==◌, ==_iff, true, false, none, some, List, [],
  ◌∷◌, ◌++◌, length-append, arith, Bool-cases, inl, inr,
}
use evalyn_os.Locks.Ticketlock.{word, Pc, taking, spinning, holding, leaving, System}
use evalyn_os.Base.Maps.{update, update-cases}
use evalyn_os.Base.Distinct.{has, length-Distinct, has-append, Distinct-append, AllBelow-append}
use evalyn_os.Locks.Ticketlock.Invariant.{
  ticket, inside, Queued, Queued-cong, Queued-append, later-ticket, Inv,
}

pub ticket-update :
    (pc : ℕ → Pc) (i : ℕ) (p : Pc)
    → ticket p ≡ ticket (pc i)
    → (j : ℕ) → ticket (update pc i p j) ≡ ticket (pc j)
ticket-update pc i p e j = elim (update-cases pc i p j) [
  | inl (at, new) ↦ ap ticket new ∙ e ∙ ap (λ k. ticket (pc k)) (sym at)
  | inr (away, old) ↦ ap ticket old
]

pub inside-update :
    (pc : ℕ → Pc) (pre : ℕ → ℕ) (i : ℕ) (p : Pc) (c : ℕ)
    → ((j : ℕ) → pre j ≡ inside (pc j))
    → c ≡ inside p
    → (j : ℕ) → update pre i c j ≡ inside (update pc i p j)
inside-update pc pre i p c h e j = elim (Bool-cases (j == i)) [
  | inl same ↦ rw same e
  | inr other ↦ rw other (h j)
]

pub inside-same :
    (pc : ℕ → Pc) (pre : ℕ → ℕ) (i : ℕ) (p : Pc)
    → ((j : ℕ) → pre j ≡ inside (pc j))
    → inside (pc i) ≡ inside p
    → (j : ℕ) → pre j ≡ inside (update pc i p j)
inside-same pc pre i p h e j = elim (update-cases pc i p j) [
  | inl (at, new) ↦ h j ∙ ap (λ k. inside (pc k)) at ∙ e ∙ ap inside (sym new)
  | inr (away, old) ↦ h j ∙ ap inside (sym old)
]

-- What a step does to the queue.
pub data QueueStep : List ℕ → List ℕ → Type 0 where
  stay : {q : List ℕ} → QueueStep q q
  arrive : {q : List ℕ} (i : ℕ) → QueueStep q (q ++ i ∷ [])
  depart : {q : List ℕ} (i : ℕ) → QueueStep (i ∷ q) q

module _ (n : ℕ) (few : n < word) (s : System) where
  -- A thread moves on with the ticket it has, or without one.
  pub keep :
      (q : List ℕ) (i : ℕ) (p : Pc) (pre : ℕ → ℕ)
      → Inv n s q
      → ticket p ≡ ticket (s.pc i)
      → ((my : ℕ) → p ≡ holding my → my ≡ s.owner)
      → ((j : ℕ) → pre j ≡ inside (update s.pc i p j))
      → Inv n (record s { preempt = pre; pc = update s.pc i p }) q
  keep q i p pre inv e h c = record {
    bound = inv.bound;
    tickets =
        Queued-cong s.pc _ q s.owner s.owner refl (λ j m. ticket-update s.pc i p e j) inv.tickets;
    end = inv.end;
    distinct = inv.distinct;
    below = inv.below;
    outside = λ j m. ticket-update s.pc i p e j ∙ inv.outside j m;
    held = λ j my at. elim (update-cases s.pc i p j) [
      | inl (here, new) ↦ h my (sym new ∙ at)
      | inr (away, old) ↦ inv.held j my (sym old ∙ at)
    ];
    counted = c;
  }

  -- A thread without a ticket is not in the queue.
  absent : (q : List ℕ) (i o : ℕ) → Queued s.pc o q → ticket (s.pc i) ≡ none → has i q ≡ false
  absent [] i o t e = refl
  absent (x ∷ q) i o t e = elim (Bool-cases (i == x)) [
    | inl same ↦
        let clash : some (o % word) ≡ none =
          sym t.0 ∙ ap (λ j. ticket (s.pc j)) (sym ((==_iff i x).0 same)) ∙ e in
        grind (arith, clash)
    | inr other ↦ ground (arith, other, absent q i (suc o) t.1 e)
  ]

  pub join :
      (q : List ℕ) (i : ℕ)
      → i < n
      → s.pc i ≡ taking
      → Inv n s q
      → Inv n
          (record s { next = (s.next + 1) % word; pc = update s.pc i (spinning s.next) })
          (q ++ i ∷ [])
  join q i lt at inv =
      let out = absent q i s.owner inv.tickets (ap ticket at) in
      let pc = update s.pc i (spinning s.next) in
      let here : ticket (pc i) ≡ some s.next = elim (update-cases s.pc i (spinning s.next) i) [
        | inl (e, new) ↦ ap ticket new
        | inr (e, old) ↦ absurd (ground (arith, e))
      ] in
      let others : (j : ℕ) → has j q ≡ true → ticket (pc j) ≡ ticket (s.pc j) = λ j m.
        elim (update-cases s.pc i (spinning s.next) j) [
          | inl (e, new) ↦ absurd (let m' : has i q ≡ true = rw (← e) m in ground (arith, m', out))
          | inr (e, old) ↦ ap ticket old
        ] in
      record {
        bound = inv.bound;
        tickets =
            Queued-append pc i q s.owner (here ∙ ap some inv.end)
              (Queued-cong s.pc pc q s.owner s.owner refl others inv.tickets);
        end = omega (arith, inv.end, length-append q (i ∷ []));
        distinct = Distinct-append i q inv.distinct out;
        below = AllBelow-append n i q inv.below lt;
        outside = λ j m. elim (update-cases s.pc i (spinning s.next) j) [
          | inl (e, new) ↦ absurd (ground (arith, m, has-append j i q, e))
          | inr (e, old) ↦ ap ticket old ∙ inv.outside j (ground (arith, m, has-append j i q))
        ];
        held = λ j my h. elim (update-cases s.pc i (spinning s.next) j) [
          | inl (e, new) ↦
              absurd
                (let clash : spinning s.next ≡ holding my = sym new ∙ h in grind (arith, clash))
          | inr (e, old) ↦ inv.held j my (sym old ∙ h)
        ];
        counted = inside-same s.pc s.preempt i (spinning s.next) inv.counted (ap inside at);
      }

  pub unlock-next :
      (i my : ℕ) (q : List ℕ)
      → s.pc i ≡ holding my
      → Inv n s (i ∷ q)
      → Inv n (record s { owner = (s.owner + 1) % word; pc = update s.pc i leaving }) q
  unlock-next i my q at inv =
      let others : (j : ℕ) → (j == i) ≡ false → update s.pc i leaving j ≡ s.pc j =
        λ j away. rw away refl in
      let away : (j : ℕ) → has j q ≡ true → (j == i) ≡ false = λ j m. elim (Bool-cases (j == i)) [
        | inl same ↦
            let m' : has i q ≡ true = rw (← (==_iff j i).0 same) m in
            absurd (ground (arith, m', inv.distinct.0))
        | inr other ↦ other
      ] in
      record {
        bound = omega arith;
        tickets =
            Queued-cong s.pc _ q (suc s.owner) ((s.owner + 1) % word) (omega arith)
              (λ j m. ap ticket (others j (away j m))) inv.tickets.1;
        end = omega (arith, inv.end);
        distinct = inv.distinct.1;
        below = inv.below.1;
        outside = λ j m. elim (update-cases s.pc i leaving j) [
          | inl (e, new) ↦ ap ticket new
          | inr (e, old) ↦ ap ticket old ∙ inv.outside j (ground (arith, m, e))
        ];
        held = λ j my' h. elim (update-cases s.pc i leaving j) [
          | inl (e, new) ↦
              absurd (let clash : leaving ≡ holding my' = sym new ∙ h in grind (arith, clash))
          | inr (e, old) ↦ absurd (second j my' e (sym old ∙ h))
        ];
        counted = inside-same s.pc s.preempt i leaving inv.counted (ap inside at);
      }
    where
      -- A second holder would be further back in the queue.
      second : (j my' : ℕ) → (j == i) ≡ false → s.pc j ≡ holding my' → ⊥
      second j my' e h =
          let owns : ticket (s.pc j) ≡ some s.owner = ap ticket h ∙ ap some (inv.held j my' h) in
          elim (Bool-cases (has j q)) [
            | inl m ↦
                later-ticket s.pc j s.owner 1 q inv.bound (omega arith)
                  (omega (arith, few, length-Distinct n (i ∷ q) inv.distinct inv.below))
                  (Queued-cong s.pc s.pc q _ _ (ap (λ k. k % word) (omega arith)) (λ k h'. refl)
                    inv.tickets.1)
                  m owns
            | inr m ↦
                let clash : none ≡ some s.owner =
                  sym (inv.outside j (ground (arith, m, e))) ∙ owns in
                grind (arith, clash)
          ]

  -- The thread that the owner's number names is the first of the queue.
  pub first :
      (q : List ℕ) (i : ℕ)
      → Inv n s q
      → ticket (s.pc i) ≡ some s.owner
      → (rest : List ℕ) × (q ≡ i ∷ rest)
  first [] i inv e =
      let clash : none ≡ some s.owner = sym (inv.outside i refl) ∙ e in grind (arith, clash)
  first (x ∷ q) i inv e = elim (Bool-cases (i == x)) [
    | inl same ↦ (q, ap (λ y. y ∷ q) (sym ((==_iff i x).0 same)))
    | inr other ↦ elim (Bool-cases (has i q)) [
      | inl m ↦ absurd (
          later-ticket s.pc i s.owner 1 q inv.bound (omega arith)
            (omega (arith, few, length-Distinct n (x ∷ q) inv.distinct inv.below))
            (Queued-cong s.pc s.pc q _ _ (ap (λ k. k % word) (omega arith)) (λ k h'. refl)
              inv.tickets.1)
            m e)
      | inr m ↦
          let clash : none ≡ some s.owner = sym (inv.outside i (ground (arith, m, other))) ∙ e in
          grind (arith, clash)
    ]
  ]
