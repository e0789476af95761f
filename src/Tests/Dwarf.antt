-- ===== src/Tests/Dwarf.antt =====
-- A line program and a frame entry, written out byte by byte, through the parsers of
-- kernel/src/loader/dwarf.
use evalyn_os.Base.{
  ℕ, ◌+◌, ◌*◌, ◌/◌, ◌≡◌, ◌≢◌, refl, arith, true, false, some, [], ◌∷◌, length, replicate, set,
  if◌then◌else◌, ltb, ◌-◌, ◌^◌,
}
use evalyn_os.Dwarf.Run.{Run, ◌>>=◌, Section, load, Safe, Ends, Decided}
use evalyn_os.Dwarf.Reader.{read_uleb, sign_extend}
use evalyn_os.Dwarf.Reader.Bounds.{IsMapped}
use evalyn_os.Dwarf.Reader.Leb.{encode_uleb, read_uleb-encode_uleb, sign_extend_lem}
use evalyn_os.Dwarf.Line.Program.{line_for_pc}
use evalyn_os.Dwarf.Line.Safety.{IsResolved, line_for_pc-Safe}
use evalyn_os.Dwarf.Fde.{get_fde}
use evalyn_os.Dwarf.Fde.Safety.{IsFound, IsCie, get_fde-Safe}
use evalyn_os.Dwarf.Cfi.{
  CfiState, offset_rule, zero_rule, cfi, resolve, signed_mul, vaddr_readable, zero_rules, max_regs,
}
use evalyn_os.Dwarf.Cfi.Safety.{IsState}
use evalyn_os.Dwarf.Cfi.Execute.{cfi-Ends}
use evalyn_os.Dwarf.Cfi.Resolve
use evalyn_os.Dwarf.Cfi.Resolve.{resolve-IsResolved}
use evalyn_os.Dwarf.Cfi.Readable.{vaddr_readable-mapped}

-- A version 3 unit: directory "d", file "a.c", and rows at 0x1000, 0x1010 and 0x1018.
abbrev line_section : Section
line_section =
    55 ∷ 0 ∷ 0 ∷ 0 ∷ 3 ∷ 0 ∷ 25 ∷ 0 ∷ 0 ∷ 0 ∷ 1 ∷ 1 ∷ 251 ∷ 14 ∷ 10 ∷ 0 ∷ 1 ∷ 1 ∷ 1 ∷ 1 ∷ 0 ∷ 0 ∷ 0
    ∷ 1 ∷ 100 ∷ 0 ∷ 0 ∷ 97 ∷ 46 ∷ 99 ∷ 0 ∷ 1 ∷ 0 ∷ 0 ∷ 0 ∷ 0 ∷ 9 ∷ 2 ∷ 0 ∷ 16 ∷ 0 ∷ 0 ∷ 0 ∷ 0 ∷ 0
    ∷ 0 ∷ 3 ∷ 4 ∷ 1 ∷ 2 ∷ 16 ∷ 3 ∷ 1 ∷ 1 ∷ 2 ∷ 8 ∷ 0 ∷ 1 ∷ 1 ∷ []

-- The file name stands at 27, the directory at 24, and the row at 0x1010 is on line 6.
line_found :
    line_for_pc (some line_section) 59 0x1012
    ≡ Run.done (record { dir = some 24; file = 27; line = 6 })
unfolding line_for_pc
line_found = refl

line_past : line_for_pc (some line_section) 59 0x1018 ≡ Run.failed
unfolding line_for_pc
line_past = refl

line_mapped : IsMapped line_section 59
line_mapped = record { inside = omega arith; small = omega arith }

line_for_pc-Safe_example :
    Safe (IsResolved line_section 59) (line_for_pc (some line_section) 59 0x1012)
line_for_pc-Safe_example = line_for_pc-Safe line_section line_mapped 0x1012

-- A common entry, with the CFA in register 7, and an entry for 0x1000 to 0x1100.
abbrev frame_section : Section
frame_section =
    16 ∷ 0 ∷ 0 ∷ 0 ∷ 255 ∷ 255 ∷ 255 ∷ 255 ∷ 4 ∷ 0 ∷ 8 ∷ 0 ∷ 1 ∷ 120 ∷ 16 ∷ 12 ∷ 7 ∷ 8 ∷ 144 ∷ 1
    ∷ 28 ∷ 0 ∷ 0 ∷ 0 ∷ 0 ∷ 0 ∷ 0 ∷ 0 ∷ 0 ∷ 16 ∷ 0 ∷ 0 ∷ 0 ∷ 0 ∷ 0 ∷ 0 ∷ 0 ∷ 1 ∷ 0 ∷ 0 ∷ 0 ∷ 0 ∷ 0
    ∷ 0 ∷ 65 ∷ 14 ∷ 16 ∷ 134 ∷ 2 ∷ 68 ∷ 13 ∷ 6 ∷ []

frame_mapped : IsMapped frame_section 52
frame_mapped = record { inside = omega arith; small = omega arith }

get_fde-Safe_example :
    Safe (λ (f, c). IsFound 52 0x1010 f × IsCie 52 c) (get_fde frame_section 52 0x1010)
get_fde-Safe_example = get_fde-Safe frame_section frame_mapped 0x1010

abbrev seeded : CfiState
seeded = record {
  baseline = zero_rules;
  rules = [];
  regs = set (replicate max_regs 0) 7 0x8000;
  ra_col = 0;
  depth = 5;
  is_signal_frame = true;
}

cfi-Ends_example : Ends IsState (cfi frame_section 52 0x1010 seeded)
cfi-Ends_example =
    cfi-Ends frame_section 52 0x1010 seeded frame_mapped refl
      (record { count = refl; cfa = omega arith })

-- The products of DW_CFA_offset: -16, the least int64_t, and one more than the greatest.
products_run : signed_mul 2 (2 ^ 64 - 8) ≡ Run.done (2 ^ 64 - 16)
unfolding signed_mul
products_run = refl

least_run : signed_mul (2 ^ 63) 1 ≡ Run.done (2 ^ 63)
unfolding signed_mul
least_run = refl

overflow_run : signed_mul (2 ^ 62) 2 ≡ Run.overflow
unfolding signed_mul
overflow_run = refl

-- Every page is mapped to the next frame, and a doubleword holds its own address.
abbrev frame_of : ℕ → ℕ
frame_of a = a / 4096 * 4096 + 4096

same_page : (a b : ℕ) → a / 4096 ≡ b / 4096 → frame_of a ≡ frame_of b
same_page a b e = omega arith

-- The number 300 in two groups.
leb_section : Section
leb_section = 7 ∷ 0xac ∷ 0x02 ∷ 9 ∷ []

read_uleb-encode_uleb_example :
    read_uleb leb_section 4 1 ≡ Run.done (1 + length (encode_uleb 300), 300)
unfolding leb_section load encode_uleb
read_uleb-encode_uleb_example =
    read_uleb-encode_uleb leb_section 4 300 1 (omega arith) (refl, (refl, tt)) (omega arith)

sign_extend_lem_at_work :
    sign_extend 0x7f 7 ≡ (if ltb 0x7f (2 ^ 6) then 0x7f else 0x7f + (2 ^ 64 - 2 ^ 7))
sign_extend_lem_at_work = sign_extend_lem 6 0x7f (omega arith) (omega arith)

-- A state whose CFA is register 7 plus 16, and whose register 16 stands at the CFA less 8.
abbrev recovering : CfiState
recovering = record {
  baseline = zero_rules;
  rules =
      (record {
        cfa = record { kind = offset_rule; reg_num = 7; offset = 16 };
        regs =
            set (replicate max_regs zero_rule) 16
              (record { kind = offset_rule; reg_num = 0; offset = 2 ^ 64 - 8 });
      })
      ∷ zero_rules
      ∷ [];
  regs = set (replicate max_regs 0) 7 0x8000;
  ra_col = 16;
  depth = 0;
  is_signal_frame = false;
}

recovering-IsState : IsState recovering
recovering-IsState = record {
  depth = omega arith;
  rules = (
    refl,
    (record { count = refl; cfa = omega arith }, (record { count = refl; cfa = omega arith }, tt)),
  );
  baseline = record { count = refl; cfa = omega arith };
  regs = refl;
}

resolve-IsResolved_example :
    Decided
      (Resolve.IsResolved 1 4096 frame_of (λ a. a) 7 recovering)
      (Resolve.IsRefused 1 4096 frame_of (λ a. a) recovering)
      (resolve 1 4096 frame_of (λ a. a) 7 recovering)
resolve-IsResolved_example =
    resolve-IsResolved 1 4096 frame_of (λ a. a) 7 recovering recovering-IsState (omega arith)

return_address :
    (resolve 1 4096 frame_of (λ a. a) 7 recovering >>= λ st. Run.done st.regs)
    ≡ Run.done (set (set (replicate max_regs 0) 7 0x8010) 16 0x8008)
unfolding resolve
return_address = refl

vaddr_readable-mapped_at_work : frame_of (0x1ffc + 7) ≢ 0
unfolding vaddr_readable
vaddr_readable-mapped_at_work =
    vaddr_readable-mapped 1 4096 frame_of (λ a. a) same_page 0x1ffc 8 7 (omega arith) (omega arith)
      (omega arith) (omega arith) refl
