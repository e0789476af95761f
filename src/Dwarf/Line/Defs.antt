-- ===== src/Dwarf/Line/Defs.antt =====
-- The unit header and the file and directory tables.
use evalyn_os.Base.{
  ℕ, zero, suc, ◌+◌, ◌-◌, ◌^◌, ◌==◌, ltb, leb, if◌then◌else◌, ◌||◌, Option, none, some,
}
use evalyn_os.Dwarf.Run.{Run, done, failed, out_of_fuel, ◌>>=◌, or_else, Section, load}
use evalyn_os.Dwarf.Reader.{sub64, read_uleb, load_le, strnlen, skip_string}

-- `struct dwarf_line_info`; a table pointer is an offset in the section, and `line_base` the byte
-- that holds the int8_t.
pub record LineInfo : Type 0 where
  pub min_inst_len : ℕ
  pub max_ops : ℕ
  pub line_base : ℕ
  pub line_range : ℕ
  pub opcode_base : ℕ
  pub dir_table : ℕ
  pub file_table : ℕ
  pub instr_start : ℕ
  pub instr_end : ℕ

-- `struct dwarf_line_result`, its strings as offsets in the section
pub record LineResult : Type 0 where
  pub dir : Option ℕ
  pub file : ℕ
  pub line : ℕ

-- Four LEB numbers or strings of an entry are at least four bytes, so a table of n bytes has fewer
-- than n + 1 entries.
unfoldable pub skip_files : Section → (end fuel i index p : ℕ) → Run ℕ
unfolding skip_string read_uleb
skip_files s end zero i index p = out_of_fuel
skip_files s end (suc k) i index p =
    let rest = λ (p' : ℕ). skip_files s end k (i + 1) index p' in
    if ltb i index
    then (do
      p ← skip_string s end p
      (p, _) ← read_uleb s end p
      (p, _) ← read_uleb s end p
      (p, _) ← read_uleb s end p
      rest p)
    else done p

-- The name of a file and the index of its directory.
unfoldable pub lookup_file : Section → LineInfo → (index : ℕ) → Run (ℕ × ℕ)
unfolding skip_files skip_string read_uleb
lookup_file s info index =
    let end = info.instr_start in
    if index == 0 then failed else do
      p ← skip_files s end (end - info.file_table + 1) 1 index info.file_table
      let name = p
      p ← skip_string s end p
      (p, dir_index) ← read_uleb s end p
      done (name, dir_index)

unfoldable pub skip_dirs : Section → (end fuel i index p : ℕ) → Run ℕ
unfolding skip_string
skip_dirs s end zero i index p = out_of_fuel
skip_dirs s end (suc k) i index p =
    let rest = λ (p' : ℕ). skip_dirs s end k (i + 1) index p' in
    if ltb i index then skip_string s end p >>= rest else done p

-- The body of `lookup_dir` behind its first test, where `failed` is `return nullptr`.
unfoldable pub find_dir : Section → LineInfo → (index : ℕ) → Run (Option ℕ)
unfolding skip_dirs load strnlen
find_dir s info index =
    let end = info.file_table in
    do
      p ← skip_dirs s end (end - info.dir_table + 1) 1 index info.dir_table
      if leb end p then failed else do
        c ← load s p
        if c == 0 then failed else do
          len ← strnlen s p (sub64 end p)
          if leb end (p + len) then failed else done (some p)

unfoldable pub lookup_dir : Section → LineInfo → (index : ℕ) → Run (Option ℕ)
unfolding find_dir
lookup_dir s info index =
    if index == 0 then done none else or_else (find_dir s info index) (done none)

unfoldable pub walk_dirs : Section → (end fuel p : ℕ) → Run ℕ
unfolding load skip_string
walk_dirs s end zero p = out_of_fuel
walk_dirs s end (suc k) p =
    let rest = λ (p' : ℕ). walk_dirs s end k p' in
    if ltb p end
    then (do c ← load s p; if c == 0 then done (p + 1) else (skip_string s end p >>= rest))
    else done p

-- The fields of `struct dwarf_line_header_v3` and `_v4` that are used, and the ends of the program.
unfoldable pub parse_v3 : Section → (unit instr_start instr_end : ℕ) → Run LineInfo
unfolding load
parse_v3 s unit instr_start instr_end = do
  min_inst_len ← load s (unit + 10)
  line_base ← load s (unit + 12)
  line_range ← load s (unit + 13)
  opcode_base ← load s (unit + 14)
  done (record {
    min_inst_len = min_inst_len;
    max_ops = 1;
    line_base = line_base;
    line_range = line_range;
    opcode_base = opcode_base;
    dir_table = 0;
    file_table = 0;
    instr_start = instr_start;
    instr_end = instr_end;
  })

unfoldable pub parse_v4 : Section → (unit instr_start instr_end : ℕ) → Run LineInfo
unfolding load
parse_v4 s unit instr_start instr_end = do
  min_inst_len ← load s (unit + 10)
  max_ops ← load s (unit + 11)
  line_base ← load s (unit + 13)
  line_range ← load s (unit + 14)
  opcode_base ← load s (unit + 15)
  done (record {
    min_inst_len = min_inst_len;
    max_ops = max_ops;
    line_base = line_base;
    line_range = line_range;
    opcode_base = opcode_base;
    dir_table = 0;
    file_table = 0;
    instr_start = instr_start;
    instr_end = instr_end;
  })

-- From the checks on the fields to the end of `dwarf_line_parse_tables`.
unfoldable pub parse_dirs : Section → (unit header_size header_length : ℕ) → LineInfo → Run LineInfo
unfolding walk_dirs
parse_dirs s unit header_size header_length info =
    if (info.line_range == 0) || (info.opcode_base == 0) || (info.max_ops == 0)
    then failed
    else if ltb header_length (header_size - 10 + info.opcode_base - 1)
    then failed
    else let p = unit + header_size + info.opcode_base - 1 in
      do
        file_table ← walk_dirs s info.instr_start (info.instr_start - p + 1) p
        done (record info { dir_table = p; file_table = file_table })

unfoldable pub parse_tables : Section → (unit end : ℕ) → Run LineInfo
unfolding load_le parse_v3 parse_v4 parse_dirs
parse_tables s unit end = if ltb (sub64 end unit) 16 then failed else do
  unit_length ← load_le s unit 4
  version ← load_le s (unit + 4) 2
  header_length ← load_le s (unit + 6) 4
  let header_size = if version == 3 then 15 else 16
  let unit_end = unit + 4 + unit_length
  let instr_start = unit + 10 + header_length
  if (version == 3) || (version == 4)
      then (if unit_length == 2 ^ 32 - 1
          then failed
          else if ltb (end - unit - 4) unit_length
          then failed
          else if ltb unit_length (header_size - 4)
          then failed
          else if ltb (sub64 unit_end (unit + 10)) header_length
          then failed
          else do
            info ←
                (if version == 3
                  then parse_v3 s unit instr_start unit_end
                  else parse_v4 s unit instr_start unit_end)
            parse_dirs s unit header_size header_length info)
      else failed
