-- ===== src/Locks/Ticketlock/Invariant.antt =====
-- The threads inside the ticket lock as a queue, and what each step does to it.
use evalyn_os.Base.{
  ℕ, suc, ◌+◌, ◌%◌, ◌≤◌, ◌<◌, ◌≡◌, ◌≢◌, refl, ap, sym, ◌∙◌, ◌==◌, ==_iff, true, false, Option, none,
  some, List, [], ◌∷◌, ◌++◌, length, arith, Bool-cases, inl, inr,
}
use evalyn_os.Locks.Ticketlock.{word, Pc, idle, taking, spinning, holding, leaving, System}
use evalyn_os.Base.Distinct.{has, Distinct, AllBelow}

abbrev pub ticket : Pc → Option ℕ
ticket idle = none
ticket taking = none
ticket (spinning my) = some my
ticket (holding my) = some my
ticket leaving = none

abbrev pub inside : Pc → ℕ
inside idle = 0
inside taking = 1
inside (spinning my) = 1
inside (holding my) = 1
inside leaving = 1

-- The threads of the queue hold consecutive tickets, from `o` on.
abbrev pub Queued : (ℕ → Pc) → ℕ → List ℕ → Type 0
Queued pc o [] = Unit
Queued pc o (i ∷ q) = (ticket (pc i) ≡ some (o % word)) × Queued pc (suc o) q

pub Queued-cong :
    (pc pc' : ℕ → Pc) (q : List ℕ) (o o' : ℕ)
    → o % word ≡ o' % word
    → ((j : ℕ) → has j q ≡ true → ticket (pc' j) ≡ ticket (pc j))
    → Queued pc o q
    → Queued pc' o' q
Queued-cong pc pc' [] o o' e same t = tt
Queued-cong pc pc' (i ∷ q) o o' e same t = (
  same i (ground arith) ∙ t.0 ∙ ap some e,
  Queued-cong pc pc' q (suc o) (suc o') (omega (arith, e)) (λ j h. same j (ground (arith, h))) t.1,
)

pub Queued-append :
    (pc : ℕ → Pc) (i : ℕ) (q : List ℕ) (o : ℕ)
    → ticket (pc i) ≡ some ((o + length q) % word)
    → Queued pc o q
    → Queued pc o (q ++ i ∷ [])
Queued-append pc i [] o e t = (e ∙ ap some (omega arith), tt)
Queued-append pc i (j ∷ q) o e t =
    (t.0, Queued-append pc i q (suc o) (e ∙ ap some (omega arith)) t.1)

pub some-inj : {x y : ℕ} → some x ≡ some y → x ≡ y
some-inj e = grind (arith, e)

-- A thread further back in the queue has another ticket than the owner's.
pub later-ticket :
    (pc : ℕ → Pc) (i o d : ℕ) (q : List ℕ)
    → o < word
    → 0 < d
    → d + length q ≤ word
    → Queued pc (o + d) q
    → has i q ≡ true
    → ticket (pc i) ≢ some o
later-ticket pc i o d [] small pos le t h e = absurd (ground (arith, h))
later-ticket pc i o d (x ∷ q) small pos le t h e = elim (Bool-cases (i == x)) [
  | inl same ↦
      let at : i ≡ x = (==_iff i x).0 same in
      let clash : o ≡ (o + d) % word = some-inj (sym e ∙ ap (λ j. ticket (pc j)) at ∙ t.0) in
      omega (arith, clash)
  | inr other ↦
      later-ticket pc i o (suc d) q small (omega arith) (omega arith)
        (Queued-cong pc pc q _ _ (ap (λ k. k % word) (omega arith)) (λ j h'. refl) t.1)
        (ground (arith, h, other)) e
]

-- `q` is the threads that have a ticket, in the order of their tickets.
pub record Inv (n : ℕ) (s : System) (q : List ℕ) : Type 0 where
  pub bound : s.owner < word
  pub tickets : Queued s.pc s.owner q
  pub end : s.next ≡ (s.owner + length q) % word
  pub distinct : Distinct q
  pub below : AllBelow n q
  pub outside : (i : ℕ) → has i q ≡ false → ticket (s.pc i) ≡ none
  pub held : (i my : ℕ) → s.pc i ≡ holding my → my ≡ s.owner
  pub counted : (i : ℕ) → s.preempt i ≡ inside (s.pc i)
