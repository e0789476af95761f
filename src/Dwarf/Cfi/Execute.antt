-- ===== src/Dwarf/Cfi/Execute.antt =====
-- Whole programs of rules: execution keeps the state well formed and never faults.
use evalyn_os.Base.{
  ℕ, zero, suc, ◌+◌, ◌-◌, ◌*◌, ◌^◌, ◌/◌, ◌%◌, if◌then◌else◌, ◌≤◌, ◌<◌, ◌≡◌, refl, ◌==◌, ltb, leb,
  leb→gt, ltb→lt, arith, length,
}
use evalyn_os.Dwarf.Run
use evalyn_os.Dwarf.Run.{
  Run, Section, load, Safe, success, failure, Ends, returns, overflows, bind-Ends, branch-Ends,
}
use evalyn_os.Dwarf.Reader.{sub64}
use evalyn_os.Dwarf.Reader.Bounds
use evalyn_os.Dwarf.Reader.Bounds.{IsMapped, Advanced}
use evalyn_os.Dwarf.Fde.{Cie}
use evalyn_os.Dwarf.Fde.Safety.{get_fde-Safe}
use evalyn_os.Dwarf.Cfi.{
  max_regs, CfiState, zero_rules, Flow, continue, stop, magnitude, same_sign, signed_mul,
  offset_opcode, def_cfa, def_cfa_register, def_cfa_offset, advance_loc, execute_opcode,
  execute_loop, execute, cfi,
}
use evalyn_os.Dwarf.Cfi.Safety.{
  Any, All-Any, at-Safe, IsRules, IsState, Kept, cfi_advance-Kept, current, put_cfa-Safe,
  put_reg-Safe, go, restore-Safe, remember_state-Safe, restore_state-Safe,
}

signed_mul-Ends : (a b : ℕ) → Ends Any (signed_mul a b)
unfolding signed_mul
signed_mul-Ends a b =
    branch-Ends (ltb (if same_sign a b then 2 ^ 63 - 1 else 2 ^ 63) (magnitude a * magnitude b))
      (λ _. overflows) (λ _. returns (success tt))

module _ (s : Section) {end : ℕ} (m : IsMapped s end) {st : CfiState} (ok : IsState st)
    (p cur : ℕ) where
  -- Behind an operand the pointer is still inside.
  on :
      {p' : ℕ} {st' : CfiState}
      → Advanced p end p'
      → IsState st'
      → Safe (Kept p end) (Run.done (continue p' cur st'))
  on adv ok' = success (omega arith, adv.1, ok')

  offset_opcode-Ends :
      (cie : Cie) (operand : ℕ) → Ends (Kept p end) (offset_opcode s cie end operand p cur st)
  unfolding offset_opcode
  offset_opcode-Ends cie operand =
      bind-Ends (returns (Bounds.read_uleb-Safe s m p)) λ (q, factored) adv.
        branch-Ends (ltb operand max_regs)
          (λ small. bind-Ends (returns (current ok)) λ r good.
            bind-Ends
              (returns (
                at-Safe Any r.regs operand (All-Any r.regs)
                  (omega (arith, good.count, ltb→lt _ _ small))))
              λ old _. bind-Ends (signed_mul-Ends factored cie.data_align) λ product _.
                returns
                  (Run.bind (put_reg-Safe ok operand _ (ltb→lt _ _ small)) λ st' ok'. on adv ok'))
          λ _. returns (on adv ok)

  def_cfa-Safe : Safe (Kept p end) (def_cfa s end p cur st)
  unfolding def_cfa
  def_cfa-Safe = Run.bind (Bounds.read_uleb-Safe s m p) λ (q, reg) adv.
      Run.bind (Bounds.read_uleb-Safe s m q) λ (q', off) adv'.
        Run.branch (leb max_regs reg) (λ _. failure)
          λ small. Run.bind (current ok) λ r good.
            Run.bind (put_cfa-Safe ok r _ good (leb→gt _ _ small)) λ st' ok'. on (omega arith) ok'

  def_cfa_register-Safe : Safe (Kept p end) (def_cfa_register s end p cur st)
  unfolding def_cfa_register
  def_cfa_register-Safe = Run.bind (Bounds.read_uleb-Safe s m p) λ (q, reg) adv.
      Run.branch (leb max_regs reg) (λ _. failure)
        λ small.
          Run.bind (current ok)
            λ r good. Run.bind (put_cfa-Safe ok r _ good (leb→gt _ _ small)) λ st' ok'. on adv ok'

  def_cfa_offset-Safe : Safe (Kept p end) (def_cfa_offset s end p cur st)
  unfolding def_cfa_offset
  def_cfa_offset-Safe = Run.bind (Bounds.read_uleb-Safe s m p) λ (q, off) adv.
      Run.bind (current ok)
        λ r good. Run.bind (put_cfa-Safe ok r _ good good.cfa) λ st' ok'. on adv ok'

  advance_loc-Safe :
      (cie : Cie) (bytes loc : ℕ)
      → p ≤ end
      → bytes ≤ 8
      → Safe (Kept p end) (advance_loc s cie end bytes loc p cur st)
  unfolding advance_loc
  advance_loc-Safe cie bytes loc le small =
      Run.bind (Bounds.read_bytes-Safe s m p bytes le small) λ (q, delta) (e, inside, _).
        success (cfi_advance-Kept cur delta cie.code_align loc q p end st (omega arith) inside ok)

  execute_opcode-Ends :
      (cie : Cie) (start loc opcode : ℕ)
      → p ≤ end
      → Ends (Kept p end) (execute_opcode s cie start end loc opcode p cur st)
  unfolding execute_opcode
  execute_opcode-Ends cie start loc opcode le =
      branch-Ends (opcode / 64 == 1)
        (λ _. returns (
          success
            (cfi_advance-Kept cur (opcode % 64) cie.code_align loc p p end st (omega arith) le ok)))
        λ _.
          branch-Ends (opcode / 64 == 2) (λ _. offset_opcode-Ends cie (opcode % 64))
            λ _. returns (
              Run.branch (opcode / 64 == 3)
                (λ _. restore-Safe ok s m p cur le cie start (opcode % 64))
                λ _.
                  Run.branch (opcode == 2) (λ _. advance_loc-Safe cie 1 loc le (omega arith))
                    λ _.
                      Run.branch (opcode == 3) (λ _. advance_loc-Safe cie 2 loc le (omega arith))
                        λ _.
                          Run.branch (opcode == 4)
                            (λ _. advance_loc-Safe cie 4 loc le (omega arith))
                            λ _.
                              Run.branch (opcode == 10) (λ _. remember_state-Safe ok s m p cur le)
                                λ _.
                                  Run.branch (opcode == 11)
                                    (λ _. restore_state-Safe ok s m p cur le)
                                    λ _.
                                      Run.branch (opcode == 12) (λ _. def_cfa-Safe)
                                        λ _.
                                          Run.branch (opcode == 13) (λ _. def_cfa_register-Safe)
                                            λ _.
                                              Run.branch (opcode == 14) (λ _. def_cfa_offset-Safe)
                                                λ _.
                                                  Run.branch (opcode == 0)
                                                    (λ _. go ok s m p cur le ok) λ _. failure)

module _ (s : Section) {end : ℕ} (m : IsMapped s end) (cie : Cie) (start loc : ℕ) where
  -- What follows an opcode, given the loop at one round less.
  after :
      (k p : ℕ)
      → end < p + suc k
      → ((p' cur' : ℕ) (st' : CfiState)
          → IsState st'
          → p' ≤ end
          → end < p' + k
          → Ends IsState (execute_loop s cie start end loc k p' cur' st'))
      → (f : Flow) → Kept (p + 1) end f
      → Ends IsState (elim f [
        | continue p' cur' st' ↦ execute_loop s cie start end loc k p' cur' st'
        | stop st' ↦ Run.done st'
      ])
  after k p fuel loop (continue p' cur' st') (h, h', ok) = loop p' cur' st' ok h' (omega arith)
  after k p fuel loop (stop st') ok = returns (success ok)

  execute_loop-Ends :
      (k p cur : ℕ) (st : CfiState)
      → IsState st
      → p ≤ end
      → end < p + k
      → Ends IsState (execute_loop s cie start end loc k p cur st)
  unfolding execute_loop
  execute_loop-Ends zero p cur st ok le fuel = absurd (omega arith)
  execute_loop-Ends (suc k) p cur st ok le fuel =
      branch-Ends (ltb p end)
        (λ lt.
          let h = ltb→lt _ _ lt in
          bind-Ends (returns (Bounds.load-Safe s p (omega (arith, m.inside)))) λ opcode _.
            bind-Ends (execute_opcode-Ends s m ok (p + 1) cur cie start loc opcode (omega arith))
              (after k p fuel (execute_loop-Ends k)))
        λ _. returns (success ok)

  -- The loop of opcodes ends within its fuel, reads only the opcodes, and keeps the state well
  -- formed: the depth under its bound, and each rule for a register and each CFA register in range.
  pub execute-Ends :
      (st : CfiState) → IsState st → start ≤ end → Ends IsState (execute s cie start end loc st)
  unfolding execute
  execute-Ends st ok le = execute_loop-Ends (end - start + 1) start 0 st ok le (omega arith)

zero_rules-IsRules : IsRules zero_rules
zero_rules-IsRules = record { count = refl; cfa = omega arith }

-- Whatever bytes .debug_frame holds, for a state with as many registers as there are and a
-- well-formed baseline, dwarf_cfi never leaves the section or its arrays, and it ends: it returns
-- false, or it returns true with a well-formed state, or the signed product of a DW_CFA_offset
-- overflows, and the sanitizer's handler panics.
pub cfi-Ends :
    (s : Section) (size pc : ℕ) (st : CfiState)
    → IsMapped s size
    → length st.regs ≡ max_regs
    → IsRules st.baseline
    → Ends IsState (cfi s size pc st)
unfolding cfi
cfi-Ends s size pc st m regs baseline =
    bind-Ends (returns (get_fde-Safe s m pc)) λ (fde, cie) (found, good).
      bind-Ends
        (execute-Ends s (mapped cie.opcodes_end good.inside) cie cie.opcodes_start 0 _
          (record {
            depth = omega arith;
            rules = (refl, (zero_rules-IsRules, (zero_rules-IsRules, tt)));
            baseline = baseline;
            regs = regs;
          })
          good.order)
        λ st2 ok2. bind-Ends (returns (current ok2)) λ initial ok3.
          execute-Ends s (mapped fde.opcodes_end found.inside) cie fde.opcodes_start
            (sub64 pc fde.initial_location) _
            (record { depth = ok2.depth; rules = ok2.rules; baseline = ok3; regs = ok2.regs })
            found.order
  where
    mapped : (q : ℕ) → q ≤ size → IsMapped s q
    mapped q h = record { inside = omega (arith, m.inside); small = omega (arith, m.small) }
