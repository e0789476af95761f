-- ===== src/Dwarf/Line/Tables.antt =====
-- The tables of a unit are read inside the section, and their entries are terminated strings.
use evalyn_os.Base.{
  ℕ, zero, suc, ◌+◌, ◌-◌, ◌^◌, ◌≤◌, ◌<◌, ◌≡◌, ◌≢◌, refl, ltb→ge, ◌==◌, arith, ltb, leb,
  if◌then◌else◌, ◌||◌, Option, none, some, true, false, Bool,
}
use evalyn_os.Dwarf.Run
use evalyn_os.Dwarf.Run.{Run, ◌>>=◌, Section, load, Safe, success, failure}
use evalyn_os.Dwarf.Reader.{sub64}
use evalyn_os.Dwarf.Reader.Bounds
use evalyn_os.Dwarf.Reader.Bounds.{IsMapped, Advanced}
use evalyn_os.Dwarf.Line.Defs.{
  LineInfo, skip_files, lookup_file, skip_dirs, find_dir, lookup_dir, walk_dirs, parse_v3, parse_v4,
  parse_dirs, parse_tables,
}

-- A string of the section that ends before `end`.
abbrev pub IsString : Section → (end p : ℕ) → Type 0
IsString s end p = (n : ℕ) × (p + n < end) × (load s (p + n) ≡ Run.done 0)

abbrev pub IsDir : Section → (end : ℕ) → Option ℕ → Type 0
IsDir s end none = Unit
IsDir s end (some p) = IsString s end p

-- The tables and the program of a unit follow one another inside the section.
pub record IsLaidOut (s : Section) (end : ℕ) (info : LineInfo) : Type 0 where
  pub dirs : info.dir_table ≤ info.file_table
  pub files : info.file_table ≤ info.instr_start
  pub program : info.instr_start ≤ info.instr_end
  pub inside : info.instr_end ≤ end

module _ (s : Section) {end : ℕ} (m : IsMapped s end) where
  mapped : (q : ℕ) → q ≤ end → IsMapped s q
  mapped q h = record { inside = omega (arith, m.inside); small = omega (arith, m.small) }

  -- A pointer that did not move back, nor past `q`.
  abbrev Kept : (p q p' : ℕ) → Type 0
  Kept p q p' = (p ≤ p') × (p' ≤ q)

  skip_files-Safe :
      (q k i index p : ℕ)
      → q ≤ end
      → p ≤ q
      → q < p + k
      → Safe (Kept p q) (skip_files s q k i index p)
  unfolding skip_files
  skip_files-Safe q zero i index p h le fuel = absurd (omega arith)
  skip_files-Safe q (suc k) i index p h le fuel =
      Run.branch (ltb i index)
        (λ _. Run.bind (Bounds.skip_string-Safe s (mapped q h) p le) λ p1 (a1, _, _, _).
          Run.bind (Bounds.read_uleb-Safe s (mapped q h) p1) λ (p2, _) a2.
            Run.bind (Bounds.read_uleb-Safe s (mapped q h) p2) λ (p3, _) a3.
              Run.bind (Bounds.read_uleb-Safe s (mapped q h) p3) λ (p4, _) a4.
                Run.mono (skip_files-Safe q k (i + 1) index p4 h (omega arith) (omega arith))
                  λ p' kept. omega arith)
        λ _. success (omega arith)

  skip_dirs-Safe :
      (q k i index p : ℕ)
      → q ≤ end
      → p ≤ q
      → q < p + k
      → Safe (Kept p q) (skip_dirs s q k i index p)
  unfolding skip_dirs
  skip_dirs-Safe q zero i index p h le fuel = absurd (omega arith)
  skip_dirs-Safe q (suc k) i index p h le fuel =
      Run.branch (ltb i index)
        (λ _. Run.bind (Bounds.skip_string-Safe s (mapped q h) p le) λ p1 (a1, _, _, _).
          Run.mono (skip_dirs-Safe q k (i + 1) index p1 h (omega arith) (omega arith))
            λ p' kept. omega arith)
        λ _. success (omega arith)

  walk_dirs-Safe : (q k p : ℕ) → q ≤ end → p ≤ q → q < p + k → Safe (Kept p q) (walk_dirs s q k p)
  unfolding walk_dirs
  walk_dirs-Safe q zero p h le fuel = absurd (omega arith)
  walk_dirs-Safe q (suc k) p h le fuel =
      Run.branch (ltb p q)
        (λ lt. Run.bind (Bounds.load-Safe s p (ground (arith, m.inside))) λ c _.
          Run.branch (c == 0) (λ _. success (ground arith))
            λ _. Run.bind (Bounds.skip_string-Safe s (mapped q h) p le) λ p1 (a1, _, _, _).
              Run.mono (walk_dirs-Safe q k p1 h (omega arith) (omega arith)) λ p' kept. omega arith)
        λ _. success (omega arith)

  module _ {info : LineInfo} (v : IsLaidOut s end info) where
    pub lookup_file-Safe :
        (index : ℕ) → Safe (λ (name, _). IsString s end name) (lookup_file s info index)
    unfolding lookup_file
    lookup_file-Safe index =
        let q = info.instr_start in
        let h : q ≤ end = omega (arith, v.program, v.inside) in
        Run.branch (index == 0) (λ _. failure)
          λ _.
            Run.bind
              (skip_files-Safe q (q - info.file_table + 1) 1 index info.file_table h v.files
                (omega arith))
              λ p kept.
                Run.bind (Bounds.skip_string-Safe s (mapped q h) p kept.1) λ p1 (a1, n, e, nul).
                  Run.bind (Bounds.read_uleb-Safe s (mapped q h) p1)
                    λ r a2. success (n, omega arith, nul)

    find_dir-Safe : (index : ℕ) → Safe (IsDir s end) (find_dir s info index)
    unfolding find_dir
    find_dir-Safe index =
        let q = info.file_table in
        let h : q ≤ end = omega (arith, v.files, v.program, v.inside) in
        Run.bind
          (skip_dirs-Safe q (q - info.dir_table + 1) 1 index info.dir_table h v.dirs (omega arith))
          λ p kept.
            Run.branch (leb q p) (λ _. failure)
              λ lt. Run.bind (Bounds.load-Safe s p (ground (arith, m.inside))) λ c _.
                Run.branch (c == 0) (λ _. failure)
                  λ _.
                    let e : sub64 q p ≡ q - p = omega (arith, m.small) in
                    rw e (
                      Run.bind (Bounds.strnlen-Safe s p (q - p) (omega (arith, m.inside))) λ n t.
                        Run.branch (leb q (p + n)) (λ _. failure)
                          λ stop. success (n, ground arith, t.1 (ground arith)))

    pub lookup_dir-Safe : (index : ℕ) → Safe (IsDir s end) (lookup_dir s info index)
    unfolding lookup_dir
    lookup_dir-Safe index =
        Run.branch (index == 0) (λ _. success tt)
          λ _. Run.or_else-Safe (find_dir-Safe index) (success tt)

  -- The loaded fields do not matter to the layout, but for the ends of the program.
  abbrev Ends : (a b : ℕ) → LineInfo → Type 0
  Ends a b i = (i.instr_start ≡ a) × (i.instr_end ≡ b)

  module _ (unit : ℕ) (room : unit + 16 ≤ end) where
    field : (i : ℕ) → i < 16 → Safe (λ b. b < 256) (load s (unit + i))
    field i h = Bounds.load-Safe s (unit + i) (omega (arith, m.inside))

    parse_v3-Safe : (a b : ℕ) → Safe (Ends a b) (parse_v3 s unit a b)
    unfolding parse_v3
    parse_v3-Safe a b = Run.bind (field 10 (omega arith)) λ _ _.
        Run.bind (field 12 (omega arith)) λ _ _.
          Run.bind (field 13 (omega arith))
            λ _ _. Run.bind (field 14 (omega arith)) λ _ _. success (refl, refl)

    parse_v4-Safe : (a b : ℕ) → Safe (Ends a b) (parse_v4 s unit a b)
    unfolding parse_v4
    parse_v4-Safe a b = Run.bind (field 10 (omega arith)) λ _ _.
        Run.bind (field 11 (omega arith)) λ _ _. Run.bind (field 13 (omega arith)) λ _ _.
          Run.bind (field 14 (omega arith))
            λ _ _. Run.bind (field 15 (omega arith)) λ _ _. success (refl, refl)

    parse_dirs-Safe :
        (header_size header_length unit_end : ℕ) (info : LineInfo)
        → 15 ≤ header_size
        → Ends (unit + 10 + header_length) unit_end info
        → unit + 10 + header_length ≤ unit_end
        → unit_end ≤ end
        → Safe (IsLaidOut s end) (parse_dirs s unit header_size header_length info)
    unfolding parse_dirs
    parse_dirs-Safe header_size header_length unit_end info h15 (e1, e2) le le' =
        Run.branch ((info.line_range == 0) || (info.opcode_base == 0) || (info.max_ops == 0))
          (λ _. failure)
          λ good.
            Run.branch (ltb header_length (header_size - 10 + info.opcode_base - 1)) (λ _. failure)
              λ fits.
                let base : info.opcode_base ≢ 0 = ground arith in
                let p = unit + header_size + info.opcode_base - 1 in
                let q = info.instr_start in
                let h : q ≤ end = omega arith in
                let pq : p ≤ q = omega (arith, ltb→ge _ _ fits) in
                Run.bind (walk_dirs-Safe q (q - p + 1) p h pq (omega arith)) λ f kept.
                  success (record {
                    dirs = kept.0;
                    files = kept.1;
                    program = omega arith;
                    inside = omega arith;
                  })

    -- Behind the checks on the lengths in the header.
    header-Safe :
        (is_v3 : Bool) (unit_length header_length : ℕ)
        → unit + 4 + unit_length ≤ end
        → 11 ≤ unit_length
        → header_length + 6 ≤ unit_length
        → Safe (IsLaidOut s end) (do
          info ←
              (if is_v3
                then parse_v3 s unit (unit + 10 + header_length) (unit + 4 + unit_length)
                else parse_v4 s unit (unit + 10 + header_length) (unit + 4 + unit_length))
          parse_dirs s unit (if is_v3 then 15 else 16) header_length info)
    header-Safe true unit_length header_length h h' h'' =
        Run.bind (parse_v3-Safe _ _)
          λ info ends. parse_dirs-Safe 15 header_length _ info (omega arith) ends (omega arith) h
    header-Safe false unit_length header_length h h' h'' =
        Run.bind (parse_v4-Safe _ _)
          λ info ends. parse_dirs-Safe 16 header_length _ info (omega arith) ends (omega arith) h

  size : (is_v3 : Bool) → 15 ≤ (if is_v3 then 15 else 16)
  size true = omega arith
  size false = omega arith

  header_room : (unit : ℕ) → unit ≤ end → ltb (sub64 end unit) 16 ≡ false → unit + 16 ≤ end
  header_room unit le big = ground (arith, m.small)

  inner_room :
      (unit unit_length header_length : ℕ)
      → unit + 4 + unit_length ≤ end
      → 11 ≤ unit_length
      → ltb (sub64 (unit + 4 + unit_length) (unit + 10)) header_length ≡ false
      → header_length + 6 ≤ unit_length
  inner_room unit unit_length header_length h long inner =
      let e : sub64 (unit + 4 + unit_length) (unit + 10) ≡ unit_length - 6 =
        omega (arith, m.small) in
      omega (arith, e, ltb→ge _ _ inner)

  -- The lengths in the header are checked before anything is read by them.
  pub parse_tables-Safe : (unit : ℕ) → unit ≤ end → Safe (IsLaidOut s end) (parse_tables s unit end)
  unfolding parse_tables
  parse_tables-Safe unit le =
      Run.branch (ltb (sub64 end unit) 16) (λ _. failure)
        λ big.
          let room = header_room unit le big in
          Run.bind (Bounds.load_le-Safe s unit 4 (omega (arith, m.inside))) λ unit_length _.
            Run.bind (Bounds.load_le-Safe s (unit + 4) 2 (omega (arith, m.inside))) λ version _.
              Run.bind (Bounds.load_le-Safe s (unit + 6) 4 (omega (arith, m.inside)))
                λ header_length _.
                  let size3 = size (version == 3) in
                  Run.branch ((version == 3) || (version == 4))
                    (λ _.
                      Run.branch (unit_length == 2 ^ 32 - 1) (λ _. failure)
                        λ _.
                          Run.branch (ltb (end - unit - 4) unit_length) (λ _. failure)
                            λ fits.
                              Run.branch (ltb unit_length ((if version == 3 then 15 else 16) - 4))
                                (λ _. failure)
                                λ long.
                                  Run.branch
                                    (ltb (sub64 (unit + 4 + unit_length) (unit + 10)) header_length)
                                    (λ _. failure)
                                    λ inner.
                                      let h : unit + 4 + unit_length ≤ end =
                                        omega (arith, ltb→ge _ _ fits) in
                                      let h' : 11 ≤ unit_length = omega (arith, ltb→ge _ _ long) in
                                      header-Safe unit room (version == 3) unit_length header_length
                                        h h' (inner_room unit unit_length header_length h h' inner))
                    λ _. failure
