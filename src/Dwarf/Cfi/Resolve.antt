-- ===== src/Dwarf/Cfi/Resolve.antt =====
-- `dwarf_cfi_resolve` gives every register what its rule says, from memory that it may read, and
-- stays inside its arrays.
use evalyn_os.Base.{
  ℕ, zero, suc, ◌+◌, ◌%◌, ◌^◌, ◌≤◌, ◌<◌, ◌≡◌, ◌≢◌, ◌⊎◌, inl, inr, refl, Bool, true, false, sym, ◌∙◌,
  arith, if◌then◌else◌, Option, none, some, List, length, length-set, get_elem?, get_elem?-lt,
  get_elem?-set_self, get_elem?-set_ne, set, dec_lt,
}
use evalyn_os.Dwarf.Run
use evalyn_os.Dwarf.Run.{◌>>=◌, Decided, accepted, refused, bind-Decided, branch-Decided}
use evalyn_os.Dwarf.Cfi.{
  max_regs, RuleKind, same_value, offset_rule, CfiRule, CfiRules, CfiState, at, put, vaddr_readable,
  resolve_reg, resolve_regs, resolve,
}
use evalyn_os.Dwarf.Cfi.Safety.{at-done, put-done, All-get, IsRules, IsState}

module _ (page_table page_size : ℕ) (get_paddr memory : ℕ → ℕ) where
  abbrev pub is_readable : (cfa : ℕ) → CfiRule → Bool
  is_readable cfa rule =
      vaddr_readable page_table page_size get_paddr memory ((cfa + rule.offset) % 2 ^ 64) 8

  -- The register's memory may not be read.
  abbrev pub IsBlocked : (cfa : ℕ) → CfiRule → Type 0
  IsBlocked cfa rule = (rule.kind ≡ offset_rule) × (is_readable cfa rule ≡ false)

  -- What a rule makes of a register.
  abbrev By : (cfa : ℕ) → RuleKind → CfiRule → (old new : Option ℕ) → Type 0
  By cfa same_value rule old new = new ≡ old
  By cfa offset_rule rule old new =
      (is_readable cfa rule ≡ true) × (new ≡ some (memory ((cfa + rule.offset) % 2 ^ 64)))

  abbrev Recovered : (cfa : ℕ) → Option CfiRule → (old new : Option ℕ) → Type 0
  Recovered cfa none old new = ⊥
  Recovered cfa (some rule) old new = By cfa rule.kind rule old new

  abbrev Step : (cfa i : ℕ) → CfiRule → List ℕ → List ℕ → Type 0
  Step cfa i rule regs regs' =
      (length regs' ≡ max_regs)
      × ((j : ℕ) → j ≢ i → get_elem? regs' j ≡ get_elem? regs j)
      × By cfa rule.kind rule (get_elem? regs i) (get_elem? regs' i)

  put-Step :
      (cfa i : ℕ) (rule : CfiRule) (regs : List ℕ)
      → i < max_regs
      → length regs ≡ max_regs
      → is_readable cfa rule ≡ true
      → let v = memory ((cfa + rule.offset) % 2 ^ 64) in
        Decided
          (λ regs'.
            (length regs' ≡ max_regs)
            × ((j : ℕ) → j ≢ i → get_elem? regs' j ≡ get_elem? regs j)
            × By cfa offset_rule rule (get_elem? regs i) (get_elem? regs' i))
          (IsBlocked cfa rule)
          (put regs i v)
  unfolding put
  put-Step cfa i rule regs h len readable =
      let value = memory ((cfa + rule.offset) % 2 ^ 64) in
      let (old, e) = get_elem?-lt regs i (omega arith) in
      rw (e, put)
        (accepted (
          length-set regs i value ∙ len,
          λ j ne. get_elem?-set_ne regs value (λ q. ne (sym q)),
          (readable, get_elem?-set_self regs i value (omega arith)),
        ))

  resolve_reg-Step :
      (cfa i : ℕ) (rule : CfiRule) (regs : List ℕ)
      → i < max_regs
      → length regs ≡ max_regs
      → Decided
          (Step cfa i rule regs)
          (IsBlocked cfa rule)
          (resolve_reg page_table page_size get_paddr memory cfa i rule regs)
  unfolding resolve_reg
  resolve_reg-Step cfa i rule regs h len = by_kind rule.kind refl
    where
      v : ℕ
      v = (cfa + rule.offset) % 2 ^ 64

      by_kind :
          (k : RuleKind)
          → rule.kind ≡ k
          → Decided
              (λ regs'.
                (length regs' ≡ max_regs)
                × ((j : ℕ) → j ≢ i → get_elem? regs' j ≡ get_elem? regs j)
                × By cfa k rule (get_elem? regs i) (get_elem? regs' i))
              (IsBlocked cfa rule)
              (elim k [
                | same_value ↦ Run.done regs
                | offset_rule ↦
                    if vaddr_readable page_table page_size get_paddr memory v 8
                    then put regs i (memory v)
                    else Run.failed
              ])
      by_kind same_value e = accepted (len, λ j ne. refl, refl)
      by_kind offset_rule e =
          branch-Decided (vaddr_readable page_table page_size get_paddr memory v 8)
            (λ readable. put-Step cfa i rule regs h len readable) (λ blocked. refused (e, blocked))

  -- A register whose memory may not be read.
  abbrev pub HasBlocked : (cfa : ℕ) → List CfiRule → Type 0
  HasBlocked cfa rules =
      (j : ℕ) × (rule : CfiRule) × (j < max_regs)
      × (get_elem? rules j ≡ some rule)
      × IsBlocked cfa rule

  -- The registers below `i` are left alone, and those from `i` on follow their rules.
  resolve_regs-Recovered :
      (cfa n i : ℕ) (rules : List CfiRule) (regs : List ℕ)
      → i + n ≡ max_regs
      → length rules ≡ max_regs
      → length regs ≡ max_regs
      → Decided
          (λ out.
            (length out ≡ max_regs)
            × ((j : ℕ) → j < i → get_elem? out j ≡ get_elem? regs j)
            × ((j : ℕ)
                → i ≤ j
                → j < max_regs
                → Recovered cfa (get_elem? rules j) (get_elem? regs j) (get_elem? out j)))
          (HasBlocked cfa rules)
          (resolve_regs page_table page_size get_paddr memory cfa n i rules regs)
  unfolding resolve_regs
  resolve_regs-Recovered cfa zero i rules regs e lr lg =
      accepted (lg, λ j lt. refl, λ j le lt. absurd (omega arith))
  resolve_regs-Recovered cfa (suc n) i rules regs e lr lg =
      let (rule, here) = get_elem?-lt rules i (omega arith) in
      rw (at-done rules i here) (
        bind-Decided (resolve_reg-Step cfa i rule regs (omega arith) lg)
          (λ blocked. (i, rule, omega arith, here, blocked))
          λ regs' (lg', others, by).
            step rule regs' here others by
              (resolve_regs-Recovered cfa n (i + 1) rules regs' (omega arith) lr lg'))
    where
      step :
          (rule : CfiRule) (regs' : List ℕ)
          → get_elem? rules i ≡ some rule
          → ((j : ℕ) → j ≢ i → get_elem? regs' j ≡ get_elem? regs j)
          → By cfa rule.kind rule (get_elem? regs i) (get_elem? regs' i)
          → {r : Run.Run (List ℕ)}
          → Decided
              (λ out.
                (length out ≡ max_regs)
                × ((j : ℕ) → j < i + 1 → get_elem? out j ≡ get_elem? regs' j)
                × ((j : ℕ)
                    → i + 1 ≤ j
                    → j < max_regs
                    → Recovered cfa (get_elem? rules j) (get_elem? regs' j) (get_elem? out j)))
              (HasBlocked cfa rules)
              r
          → Decided
              (λ out.
                (length out ≡ max_regs)
                × ((j : ℕ) → j < i → get_elem? out j ≡ get_elem? regs j)
                × ((j : ℕ)
                    → i ≤ j
                    → j < max_regs
                    → Recovered cfa (get_elem? rules j) (get_elem? regs j) (get_elem? out j)))
              (HasBlocked cfa rules)
              r
      step rule regs' here others by (refused why) = refused why
      step rule regs' here others by (accepted (lo, below, from)) = accepted (
        lo,
        λ j lt. below j (omega arith) ∙ others j (omega arith),
        λ j le lt. elim (dec_lt i j) [
          | yes more ↦ rw (← others j (omega arith)) (from j (omega arith) lt)
          | no last ↦ let same : j ≡ i = omega arith in rw (same, here, below i (omega arith)) by
        ],
      )

  -- A resolved frame: some register and offset give the frame address, the stack pointer is set to
  -- it, and then every register follows its rule in the state's current rules.
  pub record IsResolved (sp_reg : ℕ) (st st' : CfiState) : Type 0 where
    pub rules : CfiRules
    pub base : ℕ
    pub current : get_elem? st.rules st.depth ≡ some rules
    pub from : get_elem? st.regs rules.cfa.reg_num ≡ some base
    pub count : length st'.regs ≡ max_regs
    pub rest : st' ≡ record st { regs = st'.regs }
    pub each :
        (j : ℕ)
        → j < max_regs
        → Recovered
            ((base + rules.cfa.offset) % 2 ^ 64)
            (get_elem? rules.regs j)
            (get_elem? (set st.regs sp_reg ((base + rules.cfa.offset) % 2 ^ 64)) j)
            (get_elem? st'.regs j)

  -- Why false is returned: there is no rule for the frame address, or a register whose memory may
  -- not be read.
  pub record IsRefused (st : CfiState) : Type 0 where
    pub rules : CfiRules
    pub current : get_elem? st.rules st.depth ≡ some rules
    pub reason :
        (rules.cfa.kind ≡ same_value)
        ⊎ ((base : ℕ) × (get_elem? st.regs rules.cfa.reg_num ≡ some base)
            × HasBlocked ((base + rules.cfa.offset) % 2 ^ 64) rules.regs)

  by_cfa :
      (sp_reg : ℕ) (st : CfiState) (r : CfiRules) (k : RuleKind)
      → r.cfa.kind ≡ k
      → IsState st
      → get_elem? st.rules st.depth ≡ some r
      → IsRules r
      → sp_reg < max_regs
      → Decided (IsResolved sp_reg st) (IsRefused st) (elim k [
        | same_value ↦ Run.failed
        | offset_rule ↦ do
          base ← at st.regs r.cfa.reg_num
          let cfa_value = (base + r.cfa.offset) % 2 ^ 64
          regs ← put st.regs sp_reg cfa_value
          regs' ←
              resolve_regs page_table page_size get_paddr memory cfa_value max_regs 0 r.regs regs
          Run.done (record st { regs = regs' })
      ])
  by_cfa sp_reg st r same_value e ok cur good small =
      refused (record { rules = r; current = cur; reason = inl e })
  by_cfa sp_reg st r offset_rule e ok cur good small =
      let (base, from) = get_elem?-lt st.regs r.cfa.reg_num (omega (arith, ok.regs, good.cfa)) in
      let (old, e) = get_elem?-lt st.regs sp_reg (omega (arith, ok.regs)) in
      let cfa = (base + r.cfa.offset) % 2 ^ 64 in
      rw (at-done st.regs r.cfa.reg_num from, put-done st.regs sp_reg cfa e)
        (bind-Decided
          (resolve_regs-Recovered cfa max_regs 0 r.regs (set st.regs sp_reg cfa) (omega arith)
            good.count (length-set st.regs sp_reg cfa ∙ ok.regs))
          (λ blocked. record { rules = r; current = cur; reason = inr (base, from, blocked) })
          λ out (count, _, each). accepted (record {
            rules = r;
            base = base;
            current = cur;
            from = from;
            count = count;
            rest = refl;
            each = λ j lt. each j (omega arith) lt;
          }))

  -- In a well-formed state, for a stack pointer register in range, dwarf_cfi_resolve stays inside
  -- its arrays and returns. Either it returns true, and has changed only the registers: the stack
  -- pointer is the frame address, and then every register is as it was if its rule says so, or the
  -- doubleword at the address of its rule, which dwarf_vaddr_readable allows. Or it returns false,
  -- and the frame address has no rule, or a register has a rule whose address dwarf_vaddr_readable
  -- refuses.
  pub resolve-IsResolved :
      (sp_reg : ℕ) (st : CfiState)
      → IsState st
      → sp_reg < max_regs
      → Decided
          (IsResolved sp_reg st)
          (IsRefused st)
          (resolve page_table page_size get_paddr memory sp_reg st)
  unfolding resolve
  resolve-IsResolved sp_reg st ok small =
      let (r, e) = get_elem?-lt st.rules st.depth (omega (arith, ok.rules.0, ok.depth)) in
      rw (at-done st.rules st.depth e) (
        by_cfa sp_reg st r r.cfa.kind refl ok e (All-get IsRules st.rules st.depth ok.rules.1 e)
          small)
