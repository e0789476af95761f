-- ===== src/Dwarf/Cfi.antt =====
-- kernel/src/loader/dwarf/cfi.c and cfi.h: the rules by which a frame's registers are recovered,
-- their execution, and their resolution. Every index into a C array is checked, and one that is
-- out of its bounds is a fault; a signed product that overflows is an overflow.
pub mod Safety
pub mod Execute
pub mod Resolve
pub mod Readable
use evalyn_os.Base.{
  ℕ, zero, suc, ◌+◌, ◌-◌, ◌*◌, ◌/◌, ◌%◌, ◌^◌, ◌==◌, ltb, leb, if◌then◌else◌, ◌&&◌, ◌||◌, not, Bool,
  true, false, none, some, List, get_elem?, set, replicate,
}
use evalyn_os.Dwarf.Run.{Run, done, failed, fault, overflow, out_of_fuel, ◌>>=◌, Section, load}
use evalyn_os.Dwarf.Reader.{sub64, read_uleb, read_bytes}
use evalyn_os.Dwarf.Fde.{Cie, Fde, get_fde}

abbrev pub stack_depth_max : ℕ
stack_depth_max = 2

abbrev pub max_regs : ℕ
max_regs = 32

pub data RuleKind : Type 0 where
  same_value : RuleKind
  offset_rule : RuleKind

-- `struct cfi_rule`; `offset` holds the 64 bits of an int64_t.
pub record CfiRule : Type 0 where
  pub kind : RuleKind
  pub reg_num : ℕ
  pub offset : ℕ

-- `struct cfi_rules`
pub record CfiRules : Type 0 where
  pub cfa : CfiRule
  pub regs : List CfiRule

-- `struct cfi_state`
pub record CfiState : Type 0 where
  pub baseline : CfiRules
  pub rules : List CfiRules
  pub regs : List ℕ
  pub ra_col : ℕ
  pub depth : ℕ
  pub is_signal_frame : Bool

abbrev pub zero_rule : CfiRule
zero_rule = record { kind = same_value; reg_num = 0; offset = 0 }

abbrev pub zero_rules : CfiRules
zero_rules = record { cfa = zero_rule; regs = replicate max_regs zero_rule }

-- `a[i]` of a C array, read and written
unfoldable pub at {ℓ} : {A : Type ℓ} → List A → ℕ → Run A
at xs i = elim (get_elem? xs i) [ none ↦ fault | some x ↦ done x ]

unfoldable pub put {ℓ} : {A : Type ℓ} → List A → ℕ → A → Run (List A)
put xs i x = elim (get_elem? xs i) [ none ↦ fault | some _ ↦ done (set xs i x) ]

-- `state->rules[state->depth] = rules`
unfoldable pub put_rules : CfiState → CfiRules → Run CfiState
unfolding put
put_rules st r = do rules ← put st.rules st.depth r; done (record st { rules = rules })

unfoldable pub put_cfa : CfiState → CfiRules → CfiRule → Run CfiState
unfolding put_rules
put_cfa st r rule = put_rules st (record r { cfa = rule })

unfoldable pub put_reg : CfiState → ℕ → CfiRule → Run CfiState
unfolding at put put_rules
put_reg st i rule = do
  r ← at st.rules st.depth
  regs ← put r.regs i rule
  put_rules st (record r { regs = regs })

-- An opcode goes on at a pointer and a location, or stops at the location wanted.
pub data Flow : Type 0 where
  continue : (p cur : ℕ) → CfiState → Flow
  stop : CfiState → Flow

unfoldable pub cfi_advance : (cur delta code_align target p : ℕ) → CfiState → Flow
cfi_advance cur delta code_align target p st =
    let next = (cur + delta * code_align) % 2 ^ 64 in
    if ltb target next then stop st else continue p next st

unfoldable pub restore : Cie → (start operand p cur : ℕ) → CfiState → Run Flow
unfolding at put_reg
restore cie start operand p cur st =
    if leb max_regs operand
    then done (continue p cur st)
    else if cie.opcodes_start == start
    then (do st' ← put_reg st operand zero_rule; done (continue p cur st'))
    else (do
      rule ← at st.baseline.regs operand
      st' ← put_reg st operand rule
      done (continue p cur st'))

unfoldable pub remember_state : (p cur : ℕ) → CfiState → Run Flow
unfolding at put
remember_state p cur st = if leb stack_depth_max (st.depth + 1) then failed else do
  r ← at st.rules st.depth
  rules ← put st.rules (st.depth + 1) r
  done (continue p cur (record st { rules = rules; depth = st.depth + 1 }))

unfoldable pub restore_state : (p cur : ℕ) → CfiState → Run Flow
restore_state p cur st =
    if st.depth == 0 then failed else done (continue p cur (record st { depth = st.depth - 1 }))

-- The distance from 0 of the int64_t of these bits, and whether two have the same sign.
abbrev pub magnitude : ℕ → ℕ
magnitude a = if leb (2 ^ 63) a then 2 ^ 64 - a else a

abbrev pub same_sign : (a b : ℕ) → Bool
same_sign a b = if leb (2 ^ 63) a then leb (2 ^ 63) b else not (leb (2 ^ 63) b)

-- `(int64_t)a * b`: the kernel is built with `-fsanitize=undefined`, whose handler panics when the
-- product is no int64_t.
unfoldable pub signed_mul : (a b : ℕ) → Run ℕ
signed_mul a b =
    if ltb (if same_sign a b then 2 ^ 63 - 1 else 2 ^ 63) (magnitude a * magnitude b)
    then overflow
    else done (a * b % 2 ^ 64)

unfoldable pub offset_opcode : Section → Cie → (end operand p cur : ℕ) → CfiState → Run Flow
unfolding read_uleb signed_mul put_reg at
offset_opcode s cie end operand p cur st = do
  (p, factored) ← read_uleb s end p
  if ltb operand max_regs
      then (do
        r ← at st.rules st.depth
        old ← at r.regs operand
        product ← signed_mul factored cie.data_align
        st' ← put_reg st operand (record old { kind = offset_rule; offset = product })
        done (continue p cur st'))
      else done (continue p cur st)

unfoldable pub def_cfa : Section → (end p cur : ℕ) → CfiState → Run Flow
unfolding read_uleb put_cfa at
def_cfa s end p cur st = do
  (p, reg) ← read_uleb s end p
  (p, off) ← read_uleb s end p
  if leb max_regs reg then failed else do
    r ← at st.rules st.depth
    st' ← put_cfa st r (record { kind = offset_rule; reg_num = reg; offset = off })
    done (continue p cur st')

unfoldable pub def_cfa_register : Section → (end p cur : ℕ) → CfiState → Run Flow
unfolding read_uleb put_cfa at
def_cfa_register s end p cur st = do
  (p, reg) ← read_uleb s end p
  if leb max_regs reg then failed else do
    r ← at st.rules st.depth
    st' ← put_cfa st r (record { kind = r.cfa.kind; reg_num = reg; offset = r.cfa.offset })
    done (continue p cur st')

unfoldable pub def_cfa_offset : Section → (end p cur : ℕ) → CfiState → Run Flow
unfolding read_uleb put_cfa at
def_cfa_offset s end p cur st = do
  (p, off) ← read_uleb s end p
  r ← at st.rules st.depth
  st' ← put_cfa st r (record { kind = r.cfa.kind; reg_num = r.cfa.reg_num; offset = off })
  done (continue p cur st')

unfoldable pub advance_loc : Section → Cie → (end bytes loc p cur : ℕ) → CfiState → Run Flow
unfolding read_bytes cfi_advance
advance_loc s cie end bytes loc p cur st = do
  (p, delta) ← read_bytes s end p bytes
  done (cfi_advance cur delta cie.code_align loc p st)

-- One pass of the loop of `dwarf_cfi_execute`, behind the opcode's byte. An opcode with one of the
-- two upper bits has its operand in the lower six.
unfoldable pub execute_opcode :
    Section → Cie → (start end loc opcode p cur : ℕ) → CfiState → Run Flow
unfolding cfi_advance restore remember_state restore_state offset_opcode def_cfa def_cfa_register
    def_cfa_offset advance_loc
execute_opcode s cie start end loc opcode p cur st =
    if opcode / 64 == 1
    then done (cfi_advance cur (opcode % 64) cie.code_align loc p st)
    else if opcode / 64 == 2
    then offset_opcode s cie end (opcode % 64) p cur st
    else if opcode / 64 == 3
    then restore cie start (opcode % 64) p cur st
    else if opcode == 0x02
    then advance_loc s cie end 1 loc p cur st
    else if opcode == 0x03
    then advance_loc s cie end 2 loc p cur st
    else if opcode == 0x04
    then advance_loc s cie end 4 loc p cur st
    else if opcode == 0x0a
    then remember_state p cur st
    else if opcode == 0x0b
    then restore_state p cur st
    else if opcode == 0x0c
    then def_cfa s end p cur st
    else if opcode == 0x0d
    then def_cfa_register s end p cur st
    else if opcode == 0x0e
    then def_cfa_offset s end p cur st
    else if opcode == 0x00
    then done (continue p cur st)
    else failed

unfoldable pub execute_loop :
    Section → Cie → (start end loc fuel p cur : ℕ) → CfiState → Run CfiState
unfolding load execute_opcode
execute_loop s cie start end loc zero p cur st = out_of_fuel
execute_loop s cie start end loc (suc k) p cur st =
    let rest = λ (p' cur' : ℕ) (st' : CfiState). execute_loop s cie start end loc k p' cur' st' in
    if ltb p end
    then (do
      opcode ← load s p
      flow ← execute_opcode s cie start end loc opcode (p + 1) cur st
      elim flow [ continue p' cur' st' ↦ rest p' cur' st' | stop st' ↦ done st' ])
    else done st

-- Every opcode takes a byte at least. Where the C function returns false the caller gives the
-- state up, and so does `failed`.
unfoldable pub execute : Section → Cie → (start end loc : ℕ) → CfiState → Run CfiState
unfolding execute_loop
execute s cie start end loc st = execute_loop s cie start end loc (end - start + 1) start 0 st

-- `dwarf_cfi`
unfoldable pub cfi : Section → (size pc : ℕ) → CfiState → Run CfiState
unfolding get_fde execute at
cfi s size pc st = do
  (fde, cie) ← get_fde s size pc
  let st1 = record st {
    is_signal_frame = cie.is_signal_frame;
    depth = 0;
    ra_col = cie.ra_col;
    rules = replicate stack_depth_max zero_rules;
  }
  st2 ← execute s cie cie.opcodes_start cie.opcodes_end 0 st1
  initial ← at st2.rules st2.depth
  let st3 = record st2 { baseline = initial }
  execute s cie fde.opcodes_start fde.opcodes_end (sub64 pc fde.initial_location) st3

-- The page walk of the kernel's page table, 0 where an address is not mapped, and the size of a
-- page; `memory` is the doubleword at an address. `sp_reg` is `ARCH_DWARF_SP_REG`.
module _ (page_table page_size : ℕ) (get_paddr memory : ℕ → ℕ) where
  unfoldable pub vaddr_readable : (vaddr size : ℕ) → Bool
  vaddr_readable vaddr size =
      not (page_table == 0)
      && not (get_paddr vaddr == 0)
      && (leb (vaddr % page_size + size) page_size
          || not (get_paddr ((vaddr + size + 2 ^ 64 - 1) % 2 ^ 64) == 0))

  -- The register that a rule gives.
  unfoldable pub resolve_reg : (cfa_value i : ℕ) → CfiRule → List ℕ → Run (List ℕ)
  unfolding vaddr_readable put
  resolve_reg cfa_value i rule regs = elim rule.kind [
    | same_value ↦ done regs
    | offset_rule ↦
        let vaddr = (cfa_value + rule.offset) % 2 ^ 64 in
        if vaddr_readable vaddr 8 then put regs i (memory vaddr) else failed
  ]

  unfoldable pub resolve_regs : (cfa_value rounds i : ℕ) → List CfiRule → List ℕ → Run (List ℕ)
  unfolding resolve_reg at
  resolve_regs cfa_value zero i rules regs = done regs
  resolve_regs cfa_value (suc n) i rules regs = do
    rule ← at rules i
    regs' ← resolve_reg cfa_value i rule regs
    resolve_regs cfa_value n (i + 1) rules regs'

  unfoldable pub resolve : (sp_reg : ℕ) → CfiState → Run CfiState
  unfolding at put resolve_regs
  resolve sp_reg st = do
    r ← at st.rules st.depth
    elim r.cfa.kind [
      | same_value ↦ failed
      | offset_rule ↦ do
        base ← at st.regs r.cfa.reg_num
        let cfa_value = (base + r.cfa.offset) % 2 ^ 64
        regs ← put st.regs sp_reg cfa_value
        regs' ← resolve_regs cfa_value max_regs 0 r.regs regs
        done (record st { regs = regs' })
    ]
