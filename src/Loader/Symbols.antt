-- ===== src/Loader/Symbols.antt =====
-- kernel/src/loader/symbols.c: the function that a program counter lies in, for back traces.
pub mod Best
pub mod Found
use evalyn_os.Base.{
  ℕ, zero, suc, ◌+◌, ◌-◌, ◌/◌, ◌%◌, ◌==◌, ltb, leb, if◌then◌else◌, not, ◌&&◌, ◌||◌, Bool, true,
  false, Option, none, some,
}
use evalyn_os.Libc.Memory.{Memory}
use evalyn_os.Libc.Strings.{strnlen}

-- `struct elf_symbol_64`
pub record Symbol : Type 0 where
  pub name : ℕ
  pub info : ℕ
  pub shndx : ℕ
  pub value : ℕ
  pub size : ℕ

-- A symbol that is not passed over: a defined function at or below the program counter.
abbrev pub is_candidate : (pc : ℕ) → Symbol → Bool
is_candidate pc symbol = (symbol.info % 16 == 2) && (not (symbol.shndx == 0) && leb symbol.value pc)

-- The body of the loop.
abbrev pub better : (pc : ℕ) → Option Symbol → Symbol → Option Symbol
better pc none symbol = if is_candidate pc symbol then some symbol else none
better pc (some best) symbol =
    if is_candidate pc symbol && ltb best.value symbol.value then some symbol else some best

-- `n` symbols from the one at `i` on.
unfoldable pub best_loop : (symbols : ℕ → Symbol) → (pc n i : ℕ) → Option Symbol → Option Symbol
best_loop symbols pc zero i best = best
best_loop symbols pc (suc n) i best = best_loop symbols pc n (i + 1) (better pc best (symbols i))

-- `struct symbol_result`
pub record SymbolResult : Type 0 where
  pub name : ℕ
  pub offset : ℕ

-- The checks behind the loop.
unfoldable pub check_best : Memory → (strtab strtab_size pc : ℕ) → Symbol → Option SymbolResult
check_best memory strtab strtab_size pc best =
    if leb strtab_size best.name
    then none
    else if not (best.size == 0) && leb best.size (pc - best.value)
    then none
    else let name = strtab + best.name in
      let remaining = strtab_size - best.name in
      if leb remaining (strnlen remaining memory name)
      then none
      else some (record { name = name; offset = pc - best.value })

-- `none` for `symtab` and 0 for `strtab` are `nullptr`; the table is read as symbols of 24 bytes.
unfoldable pub symbol_for_pc :
    Memory
    → (symtab : Option (ℕ → Symbol)) → (symtab_size strtab strtab_size pc : ℕ) → Option SymbolResult
symbol_for_pc memory none symtab_size strtab strtab_size pc = none
symbol_for_pc memory (some symbols) symtab_size strtab strtab_size pc =
    if strtab == 0 then none else elim (best_loop symbols pc (symtab_size / 24) 0 none) [
      | none ↦ none
      | some best ↦ check_best memory strtab strtab_size pc best
    ]
