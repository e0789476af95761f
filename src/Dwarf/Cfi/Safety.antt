-- ===== src/Dwarf/Cfi/Safety.antt =====
-- The rules are executed and resolved inside their arrays: the stack of rules, the registers, and
-- the section of the opcodes.
use evalyn_os.Base.{
  ℕ, zero, suc, ◌+◌, ◌≤◌, ◌<◌, ◌≡◌, ◌==◌, leb, leb→gt, some, arith, List, [], ◌∷◌, length,
  get_elem?, get_elem?-lt, set, length-set,
}
use mathlib.Core.Path.{subst}
use evalyn_os.Dwarf.Run
use evalyn_os.Dwarf.Run.{Section, load, Safe, success, failure}
use evalyn_os.Dwarf.Reader.Bounds.{IsMapped}
use evalyn_os.Dwarf.Fde.{Cie}
use evalyn_os.Dwarf.Cfi.{
  stack_depth_max, max_regs, CfiRule, CfiRules, CfiState, zero_rule, at, put, put_rules, put_cfa,
  put_reg, Flow, continue, stop, cfi_advance, restore, remember_state, restore_state,
}

abbrev pub All {ℓ κ} : {A : Type ℓ} → (A → Type κ) → List A → Type κ
All P [] = Unit
All P (x ∷ xs) = P x × All P xs

pub at-done {ℓ} :
    {A : Type ℓ} (xs : List A) (i : ℕ) {x : A} → get_elem? xs i ≡ some x → at xs i ≡ Run.done x
unfolding at
at-done xs i e = rw (e, at)

pub put-done {ℓ} :
    {A : Type ℓ} (xs : List A) (i : ℕ) (x : A) {old : A}
    → get_elem? xs i ≡ some old
    → put xs i x ≡ Run.done (set xs i x)
unfolding put
put-done xs i x e = rw (e, put)

module _ {ℓ κ} {A : Type ℓ} (P : A → Type κ) where
  pub at-Safe : (xs : List A) (i : ℕ) → All P xs → i < length xs → Safe P (at xs i)
  unfolding at
  at-Safe [] i all h = elim h [ ]
  at-Safe (x ∷ xs) zero all h = success all.0
  at-Safe (x ∷ xs) (suc i) all h = at-Safe xs i all.1 (omega arith)

  pub All-get : (xs : List A) (i : ℕ) {x : A} → All P xs → get_elem? xs i ≡ some x → P x
  All-get [] i all h = absurd (cc)
  All-get (x ∷ xs) zero all h = subst P (cc) all.0
  All-get (x ∷ xs) (suc i) all h = All-get xs i all.1 h

  All-set : (xs : List A) (i : ℕ) (x : A) → All P xs → P x → All P (set xs i x)
  All-set [] i x all p = tt
  All-set (y ∷ xs) zero x all p = (p, all.1)
  All-set (y ∷ xs) (suc i) x all p = (all.0, All-set xs i x all.1 p)

  pub put-Safe :
      (xs : List A) (i : ℕ) (x : A)
      → i < length xs
      → All P xs
      → P x
      → Safe (λ ys. (length ys ≡ length xs) × All P ys) (put xs i x)
  unfolding put
  put-Safe xs i x h all p =
      let (old, e) = get_elem?-lt xs i h in
      rw (e, put) (success (length-set xs i x, All-set xs i x all p))

abbrev pub Any : {A : Type 0} → A → Type 0
Any _ = Unit

pub All-Any : {A : Type 0} (xs : List A) → All Any xs
All-Any [] = tt
All-Any (x ∷ xs) = (tt, All-Any xs)

-- A rule for each register, and a CFA register among them.
pub record IsRules (r : CfiRules) : Type 0 where
  pub count : length r.regs ≡ max_regs
  pub cfa : r.cfa.reg_num < max_regs

pub record IsState (st : CfiState) : Type 0 where
  pub depth : st.depth < stack_depth_max
  pub rules : (length st.rules ≡ stack_depth_max) × All IsRules st.rules
  pub baseline : IsRules st.baseline
  pub regs : length st.regs ≡ max_regs

-- A flow keeps the state well formed; one that goes on keeps the pointer in its buffer.
abbrev pub Kept : (p end : ℕ) → Flow → Type 0
Kept p end (continue p' _ st) = (p ≤ p') × (p' ≤ end) × IsState st
Kept p end (stop st) = IsState st

pub cfi_advance-Kept :
    (cur delta code_align target p q end : ℕ) (st : CfiState)
    → q ≤ p
    → p ≤ end
    → IsState st
    → Kept q end (cfi_advance cur delta code_align target p st)
unfolding cfi_advance
cfi_advance-Kept cur delta code_align target p q end st h h' ok = ground arith

module _ {st : CfiState} (ok : IsState st) where
  pub current : Safe IsRules (at st.rules st.depth)
  current = at-Safe IsRules st.rules st.depth ok.rules.1 (omega (arith, ok.rules.0, ok.depth))

  put_rules-Safe : (r : CfiRules) → IsRules r → Safe IsState (put_rules st r)
  unfolding put_rules
  put_rules-Safe r good =
      Run.bind
        (put-Safe IsRules st.rules st.depth r (omega (arith, ok.rules.0, ok.depth)) ok.rules.1 good)
        λ rules (same, all). success (record {
          depth = ok.depth;
          rules = (omega (arith, ok.rules.0, same), all);
          baseline = ok.baseline;
          regs = ok.regs;
        })

  pub put_cfa-Safe :
      (r : CfiRules) (rule : CfiRule)
      → IsRules r
      → rule.reg_num < max_regs
      → Safe IsState (put_cfa st r rule)
  unfolding put_cfa
  put_cfa-Safe r rule good h = put_rules-Safe _ (record { count = good.count; cfa = h })

  pub put_reg-Safe : (i : ℕ) (rule : CfiRule) → i < max_regs → Safe IsState (put_reg st i rule)
  unfolding put_reg
  put_reg-Safe i rule h = Run.bind current λ r good.
      Run.bind (put-Safe Any r.regs i rule (omega (arith, good.count)) (All-Any r.regs) tt)
        λ regs (same, _).
          put_rules-Safe _ (record { count = omega (arith, same, good.count); cfa = good.cfa })

  module _ (s : Section) {end : ℕ} (m : IsMapped s end) (p cur : ℕ) (le : p ≤ end) where
    pub go : {st' : CfiState} → IsState st' → Safe (Kept p end) (Run.done (continue p cur st'))
    go ok' = success (omega arith, le, ok')

    pub restore-Safe :
        (cie : Cie) (start operand : ℕ) → Safe (Kept p end) (restore cie start operand p cur st)
    unfolding restore
    restore-Safe cie start operand =
        Run.branch (leb max_regs operand) (λ _. go ok)
          λ small.
            Run.branch (cie.opcodes_start == start)
              (λ _. Run.bind (put_reg-Safe operand zero_rule (leb→gt _ _ small)) λ st' ok'. go ok')
              λ _.
                Run.bind
                  (at-Safe Any st.baseline.regs operand (All-Any _)
                    (omega (arith, leb→gt _ _ small, ok.baseline.count)))
                  λ rule _.
                    Run.bind (put_reg-Safe operand rule (leb→gt _ _ small)) λ st' ok'. go ok'

    -- The depth is tested before the slot above the current rules is written.
    pub remember_state-Safe : Safe (Kept p end) (remember_state p cur st)
    unfolding remember_state
    remember_state-Safe =
        Run.branch (leb stack_depth_max (st.depth + 1)) (λ _. failure)
          λ room. Run.bind current λ r good.
            Run.bind
              (put-Safe IsRules st.rules (st.depth + 1) r
                (omega (arith, ok.rules.0, leb→gt _ _ room)) ok.rules.1 good)
              λ rules (same, all). go (record {
                depth = leb→gt _ _ room;
                rules = (omega (arith, ok.rules.0, same), all);
                baseline = ok.baseline;
                regs = ok.regs;
              })

    pub restore_state-Safe : Safe (Kept p end) (restore_state p cur st)
    unfolding restore_state
    restore_state-Safe =
        Run.branch (st.depth == 0) (λ _. failure)
          λ _. go (record {
            depth = omega (arith, ok.depth);
            rules = ok.rules;
            baseline = ok.baseline;
            regs = ok.regs;
          })
