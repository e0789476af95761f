-- ===== src/Dwarf/Fde.antt =====
-- kernel/src/loader/dwarf/fde.c and fde.h: the frame description entry of a program counter and
-- the common information entry that it names.
pub mod Safety
use evalyn_os.Base.{
  ℕ, zero, suc, ◌+◌, ◌-◌, ◌*◌, ◌^◌, ◌==◌, ltb, leb, if◌then◌else◌, ◌&&◌, ◌||◌, not, Bool, true,
  false,
}
use evalyn_os.Dwarf.Run.{Run, done, failed, out_of_fuel, ◌>>=◌, Section, load}
use evalyn_os.Dwarf.Reader.{read_uleb, read_sleb, load_le}

-- `struct dwarf_cie`; `data_align` holds the 64 bits of an int64_t.
pub record Cie : Type 0 where
  pub valid : Bool
  pub is_signal_frame : Bool
  pub offset : ℕ
  pub code_align : ℕ
  pub data_align : ℕ
  pub ra_col : ℕ
  pub addr_size : ℕ
  pub seg_size : ℕ
  pub opcodes_start : ℕ
  pub opcodes_end : ℕ

-- `struct dwarf_fde`
pub record Fde : Type 0 where
  pub initial_location : ℕ
  pub opcodes_start : ℕ
  pub opcodes_end : ℕ

abbrev pub invalid_cie : Cie
invalid_cie = record {
  valid = false;
  is_signal_frame = false;
  offset = 0;
  code_align = 0;
  data_align = 0;
  ra_col = 0;
  addr_size = 0;
  seg_size = 0;
  opcodes_start = 0;
  opcodes_end = 0;
}

abbrev pub id_of_cie : ℕ
id_of_cie = 2 ^ 32 - 1

-- The offset of the entry, where `failed` is `return nullptr`.
unfoldable pub get_cie : Section → (size pointer : ℕ) → Run ℕ
unfolding load_le
get_cie s size pointer = if ltb size (pointer + 8) then failed else do
  length ← load_le s pointer 4
  id ← load_le s (pointer + 4) 4
  if not (id == id_of_cie)
      then failed
      else if ltb size (pointer + 4 + length)
      then failed
      else done pointer

-- Whether a letter S stands at `p`, the mark of a signal frame.
unfoldable pub signal_mark : Section → (end p : ℕ) → Run Bool
unfolding load
signal_mark s end p = if ltb p end then (do c ← load s p; done (c == b'S')) else done false

-- From the NUL of the augmentation on.
unfoldable pub decode_fields : Section → (end p : ℕ) → Bool → Run Cie
unfolding load read_uleb read_sleb
decode_fields s end p signal = if leb end p then failed else do
  nul ← load s p
  if not (nul == 0) then failed else if ltb end (p + 1 + 2) then failed else do
    addr_size ← load s (p + 1)
    seg_size ← load s (p + 2)
    if (addr_size == 0) || ltb 8 addr_size then failed else do
      (q, code_align) ← read_uleb s end (p + 3)
      (q, data_align) ← read_sleb s end q
      (q, ra_col) ← read_uleb s end q
      if code_align == 0
          then failed
          else done (record {
            valid = true;
            is_signal_frame = signal;
            offset = 0;
            code_align = code_align;
            data_align = data_align;
            ra_col = ra_col;
            addr_size = addr_size;
            seg_size = seg_size;
            opcodes_start = q;
            opcodes_end = end;
          })

unfoldable pub decode_cie : Section → (cie : ℕ) → Run Cie
unfolding load load_le signal_mark decode_fields
decode_cie s cie = do
  length ← load_le s cie 4
  if ltb length 5 then failed else do
    version ← load s (cie + 8)
    if not (version == 4) then failed else do
      let end = cie + 4 + length
      let p = cie + 9
      signal ← signal_mark s end p
      decode_fields s end (if signal then p + 1 else p) signal

-- The entry that an FDE names: the one at hand, or a new one.
unfoldable pub cie_for : Section → (size id : ℕ) → Cie → Run Cie
unfolding get_cie decode_cie
cie_for s size id cie = if cie.valid && (cie.offset == id) then done cie else do
  packet ← get_cie s size id
  cie' ← decode_cie s packet
  done (record cie' { offset = id })

unfoldable pub covers : (pc initial_location address_range : ℕ) → Bool
covers pc initial_location address_range =
    leb initial_location pc
    && not (initial_location == 0)
    && ltb (pc - initial_location) address_range

-- The two addresses of the FDE at `p`, and the pointer behind them.
unfoldable pub read_range : Section → (p : ℕ) → Cie → Run (ℕ × ℕ × ℕ)
unfolding load_le
read_range s p cie =
    let cursor = p + 8 + cie.seg_size in
    do
      initial_location ← load_le s cursor cie.addr_size
      address_range ← load_le s (cursor + cie.addr_size) cie.addr_size
      done (cursor + cie.addr_size + cie.addr_size, initial_location, address_range)

unfoldable pub fde_loop : Section → (size pc fuel p : ℕ) → Cie → Run (Fde × Cie)
unfolding load_le cie_for read_range covers
fde_loop s size pc zero p cie = out_of_fuel
fde_loop s size pc (suc k) p cie =
    let rest = λ (p' : ℕ) (cie' : Cie). fde_loop s size pc k p' cie' in
    if leb (p + 8) size
    then (do
      length ← load_le s p 4
      id ← load_le s (p + 4) 4
      let entry_end = p + 4 + length
      if length == 2 ^ 32 - 1
          then failed
          else if ltb length 4
          then failed
          else if ltb (size - p - 4) length
          then failed
          else if id == id_of_cie
          then rest entry_end cie
          else do
            cie' ← cie_for s size id cie
            if ltb length (4 + cie'.seg_size + 2 * cie'.addr_size) then failed else do
              (cursor, initial_location, address_range) ← read_range s p cie'
              if covers pc initial_location address_range
                  then done (
                    record {
                      initial_location = initial_location;
                      opcodes_start = cursor;
                      opcodes_end = entry_end;
                    },
                    cie',
                  )
                  else rest entry_end cie')
    else failed

-- Every entry takes eight bytes at least.
unfoldable pub get_fde : Section → (size pc : ℕ) → Run (Fde × Cie)
unfolding fde_loop
get_fde s size pc = fde_loop s size pc (size + 1) 0 invalid_cie
