-- ===== src/Dwarf/Line/Program.antt =====
-- The line number program: one opcode, the loop of `dwarf_line_find`, and the units of a section.
use evalyn_os.Base.{
  ℕ, zero, suc, ◌+◌, ◌-◌, ◌*◌, ◌/◌, ◌%◌, ◌^◌, ◌==◌, ltb, leb, if◌then◌else◌, ◌&&◌, ◌||◌, not, Bool,
  true, false, Option, none, some,
}
use evalyn_os.Dwarf.Run.{Run, done, failed, out_of_fuel, ◌>>=◌, or_else, Section, load}
use evalyn_os.Dwarf.Reader.{sub64, read_uleb, read_sleb, load_le, read_bytes}
use evalyn_os.Dwarf.Line.Defs.{LineInfo, LineResult, lookup_file, lookup_dir, parse_tables}

-- `struct line_vm`
pub record LineVm : Type 0 where
  pub address : ℕ
  pub line : ℕ
  pub file : ℕ
  pub cand_line : ℕ
  pub cand_file : ℕ

abbrev pub initial_vm : LineVm
initial_vm = record { address = 0; line = 1; file = 1; cand_line = 0; cand_file = 0 }

-- An opcode either goes on at a pointer or ends the search at the candidate row.
pub data Flow : Type 0 where
  continue : ℕ → LineVm → Flow
  resolve : LineVm → Flow

abbrev pub u64 : ℕ → ℕ
u64 n = n % 2 ^ 64

-- `(int64_t)` of the int8_t that a byte holds
abbrev pub sign_extend8 : ℕ → ℕ
sign_extend8 b = if ltb b 128 then b else b + (2 ^ 64 - 2 ^ 8)

-- True where the row lies past the program counter; else the row becomes the candidate.
unfoldable pub emit_row : LineVm → (pc : ℕ) → Bool × LineVm
emit_row vm pc =
    if ltb pc vm.address
    then (true, vm)
    else (false, record vm { cand_line = vm.line; cand_file = vm.file })

-- `if (emit_row(&vm, pc) && vm.cand_file != 0) return resolve_row(...);`
unfoldable pub emit : LineVm → (pc p : ℕ) → Flow
unfolding emit_row
emit vm pc p =
    let (past, vm') = emit_row vm pc in
    if past && not (vm'.cand_file == 0) then resolve vm' else continue p vm'

unfoldable pub advance_address : LineInfo → (ops : ℕ) → LineVm → LineVm
advance_address info ops vm = record vm {
  address = u64 (vm.address + u64 (info.min_inst_len * (ops / info.max_ops)));
}

unfoldable pub advance_line : (delta : ℕ) → LineVm → LineVm
advance_line delta vm = record vm { line = u64 (vm.line + delta) }

unfoldable pub special_opcode : LineInfo → (pc opcode p : ℕ) → LineVm → Flow
unfolding advance_address advance_line emit
special_opcode info pc opcode p vm =
    let adjusted = opcode - info.opcode_base in
    let vm = advance_address info (adjusted / info.line_range) vm in
    let vm = advance_line (u64 (sign_extend8 info.line_base + adjusted % info.line_range)) vm in
    emit vm pc p

unfoldable pub end_sequence : (pc next : ℕ) → LineVm → Flow
end_sequence pc next vm =
    if ltb pc vm.address && not (vm.cand_file == 0)
    then resolve vm
    else continue next (record vm { cand_file = 0; address = 0; line = 1; file = 1 })

-- `DW_LNE_set_address`, with the length of the operand cut to a byte
unfoldable pub set_address : Section → (p next operand : ℕ) → LineVm → Run Flow
unfolding read_bytes
set_address s p next operand vm =
    let addr_size = (operand - 1) % 2 ^ 8 in
    if (addr_size == 0) || ltb 8 addr_size then failed else do
      (_, address) ← read_bytes s next p addr_size
      done (continue next (record vm { address = address }))

unfoldable pub extended_opcode : Section → (end pc p : ℕ) → LineVm → Run Flow
unfolding read_uleb load end_sequence set_address
extended_opcode s end pc p vm = do
  (p, operand) ← read_uleb s end p
  if (operand == 0) || ltb (sub64 end p) operand then failed else do
    let next = p + operand
    sub ← load s p
    let p = p + 1
    if sub == 1
        then done (end_sequence pc next vm)
        else if sub == 2
        then set_address s p next operand vm
        else if sub == 4
        then (do _ ← read_uleb s next p; done (continue next vm))
        else failed

unfoldable pub standard_opcode : Section → LineInfo → (pc opcode p : ℕ) → LineVm → Run Flow
unfolding extended_opcode emit advance_address advance_line read_uleb read_sleb read_bytes
standard_opcode s info pc opcode p vm =
    let end = info.instr_end in
    if opcode == 0x00
    then extended_opcode s end pc p vm
    else if opcode == 0x01
    then done (emit vm pc p)
    else if opcode == 0x02
    then (do (p, operand) ← read_uleb s end p; done (continue p (advance_address info operand vm)))
    else if opcode == 0x03
    then (do (p, operand) ← read_sleb s end p; done (continue p (advance_line operand vm)))
    else if opcode == 0x04
    then (do (p, file) ← read_uleb s end p; done (continue p (record vm { file = file })))
    else if opcode == 0x08
    then done (continue p (advance_address info ((255 - info.opcode_base) / info.line_range) vm))
    else if opcode == 0x09
    then (do
      (p, operand) ← read_bytes s end p 2
      done (continue p (record vm { address = u64 (vm.address + operand) })))
    else if (opcode == 0x05) || (opcode == 0x0c)
    then (do (p, _) ← read_uleb s end p; done (continue p vm))
    else if (opcode == 0x06) || (opcode == 0x07) || (opcode == 0x0a) || (opcode == 0x0b)
    then done (continue p vm)
    else failed

-- One pass of the loop of `dwarf_line_find`.
unfoldable pub line_step : Section → LineInfo → (pc p : ℕ) → LineVm → Run Flow
unfolding load special_opcode standard_opcode
line_step s info pc p vm = do
  opcode ← load s p
  if leb info.opcode_base opcode
      then done (special_opcode info pc opcode (p + 1) vm)
      else standard_opcode s info pc opcode (p + 1) vm

unfoldable pub resolve_row : Section → LineInfo → LineVm → Run LineResult
unfolding lookup_file lookup_dir
resolve_row s info vm = do
  (name, dir_index) ← lookup_file s info vm.cand_file
  dir ← lookup_dir s info dir_index
  done (record { dir = dir; file = name; line = vm.cand_line })

unfoldable pub line_loop : Section → LineInfo → (pc fuel p : ℕ) → LineVm → Run LineResult
unfolding line_step resolve_row
line_loop s info pc zero p vm = out_of_fuel
line_loop s info pc (suc k) p vm =
    let rest = λ (p' : ℕ) (vm' : LineVm). line_loop s info pc k p' vm' in
    if ltb p info.instr_end
    then (do
      flow ← line_step s info pc p vm
      elim flow [ continue p' vm' ↦ rest p' vm' | resolve vm' ↦ resolve_row s info vm' ])
    else failed

-- Every opcode takes a byte at least.
unfoldable pub line_find : Section → LineInfo → (pc : ℕ) → Run LineResult
unfolding line_loop
line_find s info pc =
    line_loop s info pc (info.instr_end - info.instr_start + 1) info.instr_start initial_vm

unfoldable pub units_loop : Section → (end pc fuel unit : ℕ) → Run LineResult
unfolding load_le parse_tables line_find
units_loop s end pc zero unit = out_of_fuel
units_loop s end pc (suc k) unit =
    let rest = λ (unit' : ℕ). units_loop s end pc k unit' in
    if leb (unit + 4) end
    then (do
      unit_length ← load_le s unit 4
      if unit_length == 2 ^ 32 - 1
          then failed
          else if ltb (end - unit - 4) unit_length
          then failed
          else or_else (parse_tables s unit end >>= λ info. line_find s info pc)
              (rest (unit + 4 + unit_length)))
    else failed

-- A null section is `none`. A unit takes four bytes at least.
unfoldable pub line_for_pc : Option Section → (size pc : ℕ) → Run LineResult
unfolding units_loop
line_for_pc none size pc = failed
line_for_pc (some s) size pc = if ltb size 4 then failed else units_loop s size pc (size + 1) 0
