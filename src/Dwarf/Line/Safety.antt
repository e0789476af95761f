-- ===== src/Dwarf/Line/Safety.antt =====
-- The search for a line never leaves the section and ends within its fuel, whatever the bytes are.
use evalyn_os.Base.{
  ℕ, zero, suc, ◌+◌, ◌-◌, ◌%◌, ◌^◌, ◌≤◌, ◌<◌, ◌==◌, arith, ltb, leb, leb→le, ltb→ge, ltb→lt, ◌||◌,
  some,
}
use evalyn_os.Dwarf.Run
use evalyn_os.Dwarf.Run.{Run, Section, load, Safe, success, failure}
use evalyn_os.Dwarf.Reader.{sub64}
use evalyn_os.Dwarf.Reader.Bounds
use evalyn_os.Dwarf.Reader.Bounds.{IsMapped, Advanced}
use evalyn_os.Dwarf.Line.Defs.{LineInfo, LineResult}
use evalyn_os.Dwarf.Line.Tables.{
  IsString, IsDir, IsLaidOut, lookup_file-Safe, lookup_dir-Safe, parse_tables-Safe,
}
use evalyn_os.Dwarf.Line.Program.{
  LineVm, Flow, continue, resolve, emit_row, emit, special_opcode, end_sequence, set_address,
  extended_opcode, standard_opcode, line_step, resolve_row, line_loop, line_find, units_loop,
  line_for_pc,
}

-- An opcode that goes on has moved the pointer.
abbrev pub Moved : (p end : ℕ) → Flow → Type 0
Moved p end (continue p' _) = Advanced p end p'
Moved p end (resolve _) = Unit

-- The strings of a result are terminated inside the section.
pub record IsResolved (s : Section) (end : ℕ) (r : LineResult) : Type 0 where
  pub file : IsString s end r.file
  pub dir : IsDir s end r.dir

-- A row goes on where it stands, or ends the search.
emit-Moved : (vm : LineVm) (pc p q end : ℕ) → q < p → p ≤ end → Moved q end (emit vm pc p)
unfolding emit emit_row
emit-Moved vm pc p q end h h' = ground arith

end_sequence-Moved :
    (pc p q end : ℕ) (vm : LineVm) → q < p → p ≤ end → Moved q end (end_sequence pc p vm)
unfolding end_sequence
end_sequence-Moved pc p q end vm h h' = ground arith

module _ (s : Section) {end : ℕ} (m : IsMapped s end) where
  set_address-Safe :
      (p next operand q limit : ℕ) (vm : LineVm)
      → IsMapped s next
      → p ≤ next
      → q < next
      → next ≤ limit
      → Safe (Moved q limit) (set_address s p next operand vm)
  unfolding set_address
  set_address-Safe p next operand q limit vm m' le lt lim =
      let size = (operand - 1) % 2 ^ 8 in
      Run.branch ((size == 0) || ltb 8 size) (λ _. failure)
        λ ok.
          Run.bind (Bounds.read_bytes-Safe s m' p size le (ground arith)) λ r _. success (lt, lim)

  extended_opcode-Safe :
      (pc p : ℕ) (vm : LineVm) → Safe (Moved p end) (extended_opcode s end pc p vm)
  unfolding extended_opcode
  extended_opcode-Safe pc p vm = Run.bind (Bounds.read_uleb-Safe s m p) λ (p1, operand) a1.
      Run.branch ((operand == 0) || ltb (sub64 end p1) operand) (λ _. failure)
        λ ok.
          let fits : p1 + operand ≤ end = ground (arith, m.small) in
          let some_byte : 0 < operand = ground arith in
          let m' : IsMapped s (p1 + operand) = record {
            inside = omega (arith, m.inside);
            small = omega (arith, m.small);
          } in
          Run.bind (Bounds.load-Safe s p1 (omega (arith, m.inside))) λ sub _.
            Run.branch (sub == 1)
              (λ _. success (end_sequence-Moved pc (p1 + operand) p end vm (omega arith) fits))
              λ _.
                Run.branch (sub == 2)
                  (λ _.
                    set_address-Safe (p1 + 1) (p1 + operand) operand p end vm m' (omega arith)
                      (omega arith) fits)
                  λ _.
                    Run.branch (sub == 4)
                      (λ _.
                        Run.bind (Bounds.read_uleb-Safe s m' (p1 + 1))
                          λ r _. success (omega arith, fits))
                      λ _. failure

module _ (s : Section) {end : ℕ} (m : IsMapped s end) {info : LineInfo}
    (v : IsLaidOut s end info) where
  abbrev limit : ℕ
  limit = info.instr_end

  abbrev program : IsMapped s limit
  program = record {
    inside = omega (arith, m.inside, v.inside);
    small = omega (arith, m.small, v.inside);
  }

  standard_opcode-Safe :
      (pc opcode q : ℕ) (vm : LineVm)
      → q < limit
      → Safe (Moved q limit) (standard_opcode s info pc opcode (q + 1) vm)
  unfolding standard_opcode
  standard_opcode-Safe pc opcode q vm h =
      let stay : (q < q + 1) × (q + 1 ≤ limit) = omega arith in
      let number = Bounds.read_uleb-Safe s program (q + 1) in
      Run.branch (opcode == 0)
        (λ _. Run.mono (extended_opcode-Safe s program pc (q + 1) vm) (Moved-later q))
        λ _.
          Run.branch (opcode == 1)
            (λ _. success (emit-Moved vm pc (q + 1) q limit (omega arith) (omega arith)))
            λ _.
              Run.branch (opcode == 2) (λ _. Run.bind number λ r a. success (omega arith))
                λ _.
                  Run.branch (opcode == 3)
                    (λ _.
                      Run.bind (Bounds.read_sleb-Safe s program (q + 1))
                        λ r a. success (omega arith))
                    λ _.
                      Run.branch (opcode == 4) (λ _. Run.bind number λ r a. success (omega arith))
                        λ _.
                          Run.branch (opcode == 8) (λ _. success stay)
                            λ _.
                              Run.branch (opcode == 9)
                                (λ _.
                                  Run.bind
                                    (Bounds.read_bytes-Safe s program (q + 1) 2 stay.1
                                      (omega arith))
                                    λ r a. success (omega arith))
                                λ _.
                                  Run.branch ((opcode == 5) || (opcode == 12))
                                    (λ _. Run.bind number λ r a. success (omega arith))
                                    λ _.
                                      Run.branch
                                        ((opcode == 6)
                                          || (opcode == 7)
                                          || (opcode == 10)
                                          || (opcode == 11))
                                        (λ _. success stay) (λ _. failure)
    where
      Moved-later : (q : ℕ) (f : Flow) → Moved (q + 1) limit f → Moved q limit f
      Moved-later q (continue p' vm') h = omega arith
      Moved-later q (resolve vm') h = tt

  line_step-Safe :
      (pc q : ℕ) (vm : LineVm) → q < limit → Safe (Moved q limit) (line_step s info pc q vm)
  unfolding line_step special_opcode
  line_step-Safe pc q vm h =
      Run.bind (Bounds.load-Safe s q (omega (arith, m.inside, v.inside))) λ opcode _.
        Run.branch (leb info.opcode_base opcode)
          (λ _. success (emit-Moved _ pc (q + 1) q limit (omega arith) (omega arith)))
          λ _. standard_opcode-Safe pc opcode q vm h

  resolve_row-Safe : (vm : LineVm) → Safe (IsResolved s end) (resolve_row s info vm)
  unfolding resolve_row
  resolve_row-Safe vm = Run.bind (lookup_file-Safe s m v vm.cand_file) λ (name, dir) f.
      Run.bind (lookup_dir-Safe s m v dir) λ d ok. success (record { file = f; dir = ok })

  -- What follows an opcode, given the loop at one round less.
  after_step :
      (pc k p : ℕ)
      → limit < p + suc k
      → ((p' : ℕ) (vm' : LineVm)
          → p' ≤ limit
          → limit < p' + k
          → Safe (IsResolved s end) (line_loop s info pc k p' vm'))
      → (f : Flow) → Moved p limit f
      → Safe (IsResolved s end) (elim f [
        | continue p' vm' ↦ line_loop s info pc k p' vm'
        | resolve vm' ↦ resolve_row s info vm'
      ])
  after_step pc k p fuel loop (continue p' vm') moved = loop p' vm' moved.1 (omega arith)
  after_step pc k p fuel loop (resolve vm') moved = resolve_row-Safe vm'

  line_loop-Safe :
      (pc k p : ℕ) (vm : LineVm)
      → p ≤ limit
      → limit < p + k
      → Safe (IsResolved s end) (line_loop s info pc k p vm)
  unfolding line_loop
  line_loop-Safe pc zero p vm le fuel = absurd (omega arith)
  line_loop-Safe pc (suc k) p vm le fuel =
      Run.branch (ltb p limit)
        (λ lt.
          Run.bind (line_step-Safe pc p vm (ltb→lt p limit lt))
            (after_step pc k p fuel (line_loop-Safe pc k)))
        λ _. failure

  line_find-Safe : (pc : ℕ) → Safe (IsResolved s end) (line_find s info pc)
  unfolding line_find
  line_find-Safe pc =
      line_loop-Safe pc (limit - info.instr_start + 1) info.instr_start _ v.program (omega arith)

module _ (s : Section) {end : ℕ} (m : IsMapped s end) where
  units_loop-Safe :
      (pc k unit : ℕ)
      → unit ≤ end
      → end < unit + k
      → Safe (IsResolved s end) (units_loop s end pc k unit)
  unfolding units_loop
  units_loop-Safe pc zero unit le fuel = absurd (omega arith)
  units_loop-Safe pc (suc k) unit le fuel =
      Run.branch (leb (unit + 4) end)
        (λ room.
          Run.bind (Bounds.load_le-Safe s unit 4 (omega (arith, m.inside, leb→le _ _ room)))
            λ unit_length _.
              Run.branch (unit_length == 2 ^ 32 - 1) (λ _. failure)
                λ _.
                  Run.branch (ltb (end - unit - 4) unit_length) (λ _. failure)
                    λ fits.
                      let h = ltb→ge _ _ fits in
                      let h' = leb→le _ _ room in
                      Run.or_else-Safe
                        (Run.bind (parse_tables-Safe s m unit le) λ info v. line_find-Safe s m v pc)
                        (units_loop-Safe pc k (unit + 4 + unit_length) (omega arith) (omega arith)))
        λ _. failure

  -- Whatever bytes .debug_line holds, dwarf_line_for_pc never reads outside the section and always
  -- returns; the strings it returns end inside the section.
  pub line_for_pc-Safe : (pc : ℕ) → Safe (IsResolved s end) (line_for_pc (some s) end pc)
  unfolding line_for_pc
  line_for_pc-Safe pc =
      Run.branch (ltb end 4) (λ _. failure)
        λ _. units_loop-Safe pc (end + 1) 0 (omega arith) (omega arith)
