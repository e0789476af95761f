-- ===== src/Dwarf/Fde/Safety.antt =====
-- The search for a frame description entry never leaves the section.
use evalyn_os.Base.{
  ℕ, zero, suc, ◌+◌, ◌-◌, ◌*◌, ◌^◌, ◌≤◌, ◌<◌, ◌≡◌, ◌≢◌, ◌==◌, refl, sym, ◌∙◌, ltb, leb, leb→le,
  leb→gt, ltb→ge, ltb→lt, if◌then◌else◌, ◌&&◌, ◌||◌, not, Bool, true, arith,
}
use evalyn_os.Dwarf.Run
use evalyn_os.Dwarf.Run.{Section, load, Safe, success, failure}
use evalyn_os.Dwarf.Reader.{load_le}
use evalyn_os.Dwarf.Reader.Bounds
use evalyn_os.Dwarf.Reader.Bounds.{IsMapped}
use evalyn_os.Dwarf.Fde.{
  Cie, Fde, invalid_cie, id_of_cie, get_cie, signal_mark, decode_fields, decode_cie, cie_for,
  covers, read_range, fde_loop, get_fde,
}

done-injective : {a b : ℕ} → Run.done a ≡ Run.done b → a ≡ b
done-injective e = cc

-- A decoded entry: its opcodes lie in the section, and its sizes fit.
pub record IsCie (end : ℕ) (c : Cie) : Type 0 where
  pub order : c.opcodes_start ≤ c.opcodes_end
  pub inside : c.opcodes_end ≤ end
  pub aligned : c.code_align ≢ 0
  pub addr : (0 < c.addr_size) × (c.addr_size ≤ 8)

-- The entry that is found: it covers the program counter, and its opcodes lie in the section.
pub record IsFound (end pc : ℕ) (f : Fde) : Type 0 where
  pub order : f.opcodes_start ≤ f.opcodes_end
  pub inside : f.opcodes_end ≤ end
  pub starts : (0 < f.initial_location) × (f.initial_location ≤ pc)

covers-starts : (pc start range : ℕ) → covers pc start range ≡ true → (0 < start) × (start ≤ pc)
unfolding covers
covers-starts pc start range h = ground arith

module _ (s : Section) {end : ℕ} (m : IsMapped s end) where
  abbrev Fits : ℕ → Type 0
  Fits p = (p + 8 ≤ end) × ((length : ℕ) → load_le s p 4 ≡ Run.done length → p + 4 + length ≤ end)

  word : (p : ℕ) → p + 4 ≤ end → Safe (λ v. v < 256 ^ 4) (load_le s p 4)
  word p h = Bounds.load_le-Safe s p 4 (omega (arith, m.inside))

  byte : (p : ℕ) → p < end → Safe (λ b. b < 256) (load s p)
  byte p h = Bounds.load-Safe s p (omega (arith, m.inside))

  get_cie-Safe : (id : ℕ) → Safe Fits (get_cie s end id)
  unfolding get_cie
  get_cie-Safe id =
      Run.branch (ltb end (id + 8)) (λ _. failure)
        λ room.
          let h : id + 8 ≤ end = ltb→ge _ _ room in
          Run.bind_eq (word id (omega arith)) λ length e _.
            Run.bind (word (id + 4) (omega arith)) λ tag _.
              Run.branch (not (tag == id_of_cie)) (λ _. failure)
                λ _.
                  Run.branch (ltb end (id + 4 + length)) (λ _. failure)
                    λ fits. success (
                      h,
                      λ length' e'.
                          let same = done-injective (sym e' ∙ e) in
                          omega (arith, ltb→ge _ _ fits, same),
                    )

  signal_mark-Safe :
      (limit p : ℕ) → limit ≤ end → Safe (λ b. b ≡ true → p < limit) (signal_mark s limit p)
  unfolding signal_mark
  signal_mark-Safe limit p h =
      Run.branch (ltb p limit)
        (λ lt. Run.bind (byte p (omega (arith, ltb→lt _ _ lt))) λ c _. success (λ _. ltb→lt _ _ lt))
        λ _. success (λ e. cc)

  decode_fields-Safe :
      (limit p : ℕ) (signal : Bool)
      → limit ≤ end
      → Safe (λ c. IsCie end c × (c.valid ≡ true)) (decode_fields s limit p signal)
  unfolding decode_fields
  decode_fields-Safe limit p signal h =
      let m' : IsMapped s limit = record {
        inside = omega (arith, m.inside);
        small = omega (arith, m.small);
      } in
      Run.branch (leb limit p) (λ _. failure)
        λ e1. Run.bind (byte p (omega (arith, leb→gt _ _ e1))) λ nul _.
          Run.branch (not (nul == 0)) (λ _. failure)
            λ _.
              Run.branch (ltb limit (p + 1 + 2)) (λ _. failure)
                λ e2.
                  let room : p + 3 ≤ limit = omega (arith, ltb→ge _ _ e2) in
                  Run.bind (byte (p + 1) (omega arith)) λ addr_size _.
                    Run.bind (byte (p + 2) (omega arith)) λ seg_size _.
                      Run.branch ((addr_size == 0) || ltb 8 addr_size) (λ _. failure)
                        λ ok. Run.bind (Bounds.read_uleb-Safe s m' (p + 3)) λ (q1, code_align) a1.
                          Run.bind (Bounds.read_sleb-Safe s m' q1) λ (q2, data_align) a2.
                            Run.bind (Bounds.read_uleb-Safe s m' q2) λ (q3, ra_col) a3.
                              Run.branch (code_align == 0) (λ _. failure)
                                λ e4. success (
                                  record {
                                    order = a3.1;
                                    inside = h;
                                    aligned = ground arith;
                                    addr = ground arith;
                                  },
                                  refl,
                                )

  decode_cie-Safe :
      (cie : ℕ) → Fits cie → Safe (λ c. IsCie end c × (c.valid ≡ true)) (decode_cie s cie)
  unfolding decode_cie
  decode_cie-Safe cie (room, fits) = Run.bind_eq (word cie (omega arith)) λ length e _.
      Run.branch (ltb length 5) (λ _. failure)
        λ long.
          let h : cie + 4 + length ≤ end = fits length e in
          Run.bind (byte (cie + 8) (omega (arith, ltb→ge _ _ long))) λ version _.
            Run.branch (not (version == 4)) (λ _. failure)
              λ _. Run.bind (signal_mark-Safe (cie + 4 + length) (cie + 9) h) λ signal _.
                decode_fields-Safe (cie + 4 + length) (if signal then cie + 9 + 1 else cie + 9)
                  signal h

  -- What is cached is decoded once it is marked valid.
  abbrev IsCached : Cie → Type 0
  IsCached c = c.valid ≡ true → IsCie end c

  cie_for-Safe :
      (id : ℕ) (c : Cie)
      → IsCached c
      → Safe (λ c'. IsCie end c' × (c'.valid ≡ true)) (cie_for s end id c)
  unfolding cie_for
  cie_for-Safe id c cached =
      Run.branch (c.valid && (c.offset == id))
        (λ hit. let valid : c.valid ≡ true = ground arith in success (cached valid, valid))
        λ _. Run.bind (get_cie-Safe id) λ packet fits.
          Run.bind (decode_cie-Safe packet fits) λ c' (ok, valid). success (
            record { order = ok.order; inside = ok.inside; aligned = ok.aligned; addr = ok.addr },
            valid,
          )

  read_range-Safe :
      (p : ℕ) (c : Cie)
      → p + 8 + c.seg_size + 2 * c.addr_size ≤ end
      → Safe (λ r. r.0 ≡ p + 8 + c.seg_size + 2 * c.addr_size) (read_range s p c)
  unfolding read_range
  read_range-Safe p c h =
      Run.bind (Bounds.load_le-Safe s (p + 8 + c.seg_size) c.addr_size (omega (arith, m.inside)))
        λ start _.
          Run.bind
            (Bounds.load_le-Safe s (p + 8 + c.seg_size + c.addr_size) c.addr_size
              (omega (arith, m.inside)))
            λ range _. success (omega arith)

  fde_loop-Safe :
      (pc k p : ℕ) (c : Cie)
      → p ≤ end
      → end < p + k
      → IsCached c
      → Safe (λ (f, c'). IsFound end pc f × IsCie end c') (fde_loop s end pc k p c)
  unfolding fde_loop
  fde_loop-Safe pc zero p c le fuel cached = absurd (omega arith)
  fde_loop-Safe pc (suc k) p c le fuel cached =
      Run.branch (leb (p + 8) end)
        (λ room.
          let h : p + 8 ≤ end = leb→le _ _ room in
          Run.bind (word p (omega arith)) λ length _. Run.bind (word (p + 4) (omega arith)) λ id _.
            Run.branch (length == 2 ^ 32 - 1) (λ _. failure)
              λ _.
                Run.branch (ltb length 4) (λ _. failure)
                  λ long.
                    Run.branch (ltb (end - p - 4) length) (λ _. failure)
                      λ fits.
                        let inside : p + 4 + length ≤ end = omega (arith, ltb→ge _ _ fits) in
                        Run.branch (id == id_of_cie)
                          (λ _. fde_loop-Safe pc k (p + 4 + length) c inside (omega arith) cached)
                          λ _. Run.bind (cie_for-Safe id c cached) λ c' (ok, _).
                            Run.branch (ltb length (4 + c'.seg_size + 2 * c'.addr_size))
                              (λ _. failure)
                              λ both.
                                let two = ltb→ge _ _ both in
                                Run.bind (read_range-Safe p c' (omega arith))
                                  λ (cursor, initial_location, address_range) e.
                                    Run.branch (covers pc initial_location address_range)
                                      (λ hit. success (
                                        record {
                                          order = omega arith;
                                          inside = inside;
                                          starts =
                                              covers-starts pc initial_location address_range hit;
                                        },
                                        ok,
                                      ))
                                      λ _.
                                        fde_loop-Safe pc k (p + 4 + length) c' inside (omega arith)
                                          (λ _. ok))
        λ _. failure

  -- dwarf_get_fde never reads outside the section, always returns, and returns an entry that
  -- starts at or below the program counter with its opcodes in the section.
  pub get_fde-Safe : (pc : ℕ) → Safe (λ (f, c). IsFound end pc f × IsCie end c) (get_fde s end pc)
  unfolding get_fde
  get_fde-Safe pc = fde_loop-Safe pc (end + 1) 0 invalid_cie (omega arith) (omega arith) (λ e. cc)
