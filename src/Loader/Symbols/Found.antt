-- ===== src/Loader/Symbols/Found.antt =====
-- What a symbol that is found is.
use evalyn_os.Base.{
  ℕ, zero, suc, ◌+◌, ◌-◌, ◌/◌, ◌≤◌, ◌<◌, ◌≡◌, ◌≢◌, ap, ◌∙◌, ◌==◌, ==_iff, leb, not, ◌&&◌, ◌⊎◌, inl,
  inr, true, Option, none, some, arith, Bool-cases, Option-cases,
}
use evalyn_os.Libc.Memory.{Memory}
use evalyn_os.Libc.Strings.{strnlen}
use evalyn_os.Loader.Symbols.{
  Symbol, SymbolResult, is_candidate, best_loop, check_best, symbol_for_pc,
}
use evalyn_os.Loader.Symbols.Best.{IsBest, best_loop-IsBest}

-- The result stands for the symbol `k` of the table, the highest function that begins at or below
-- the program counter, which lies in it, and the name ends within the string table.
pub record IsFound (memory : Memory) (symbols : ℕ → Symbol) (count strtab strtab_size pc : ℕ)
    (r : SymbolResult) : Type 0 where
  pub k : ℕ
  pub listed : k < count
  pub candidate : is_candidate pc (symbols k) ≡ true
  pub highest :
      (j : ℕ)
      → j < count
      → is_candidate pc (symbols j) ≡ true
      → (symbols j).value ≤ (symbols k).value
  pub offset : (symbols k).value + r.offset ≡ pc
  pub inside : ((symbols k).size ≡ 0) ⊎ (r.offset < (symbols k).size)
  pub name : r.name ≡ strtab + (symbols k).name
  pub length : ℕ
  pub terminated : memory (r.name + length) ≡ 0
  pub within : (symbols k).name + length < strtab_size

-- The string ends where it was found to.
strnlen_end : (n : ℕ) (m : Memory) (s : ℕ) → strnlen n m s < n → m (s + strnlen n m s) ≡ 0
unfolding strnlen
strnlen_end zero m s lt = absurd (omega (arith, lt))
strnlen_end (suc n) m s lt = elim (Bool-cases (m s == 0)) [
  | inl end ↦ rw end (ap m (omega arith) ∙ (==_iff (m s) 0).0 end)
  | inr more ↦
      let lt' : strnlen n m (s + 1) < n = ground (arith, more, lt) in
      rw more (ap m (omega arith) ∙ strnlen_end n m (s + 1) lt')
]

check_best-IsFound :
    (memory : Memory) (symbols : ℕ → Symbol) (count strtab strtab_size pc : ℕ) (b : Symbol)
    (r : SymbolResult)
    → IsBest symbols pc count (some b)
    → check_best memory strtab strtab_size pc b ≡ some r
    → IsFound memory symbols count strtab strtab_size pc r
unfolding check_best
check_best-IsFound memory symbols count strtab strtab_size pc b r ((k, lt, e, c), top) found =
    let size = ap (λ s. s.size) e in
    let value = ap (λ s. s.value) e in
    let name = ap (λ s. s.name) e in
    let n = strnlen (strtab_size - b.name) memory (strtab + b.name) in
    let listed_name : b.name < strtab_size = ground (arith, found) in
    let in_size : (b.size ≡ 0) ⊎ (pc - b.value < b.size) = ground (arith, found) in
    let short : n < strtab_size - b.name = ground (arith, found) in
    let name_at : r.name ≡ strtab + b.name = ground (arith, found) in
    let offset_at : r.offset ≡ pc - b.value = ground (arith, found) in
    record {
      k = k;
      listed = lt;
      candidate = c;
      highest = λ j l d. omega (arith, top j l d, value);
      offset = ground (arith, offset_at, value, c);
      inside = ground (arith, in_size, offset_at, size);
      name = omega (arith, name_at, name);
      length = n;
      terminated =
          ap (λ x. memory (x + n)) name_at
          ∙ strnlen_end (strtab_size - b.name) memory (strtab + b.name) short;
      within = omega (arith, short, name);
    }

-- There is no such symbol: no function begins at or below the program counter, or the highest that
-- does has a name out of the string table, ends at or below it, or its name does not end within.
pub data IsMissing (memory : Memory) (symbols : ℕ → Symbol) (count strtab strtab_size pc : ℕ)
    : Type 0 where
  no_candidate : IsBest symbols pc count none → IsMissing memory symbols count strtab strtab_size pc
  no_name :
      (b : Symbol)
      → IsBest symbols pc count (some b)
      → strtab_size ≤ b.name
      → IsMissing memory symbols count strtab strtab_size pc
  past_end :
      (b : Symbol)
      → IsBest symbols pc count (some b)
      → 0 < b.size
      → b.value + b.size ≤ pc
      → IsMissing memory symbols count strtab strtab_size pc
  no_end :
      (b : Symbol)
      → IsBest symbols pc count (some b)
      → ((l : ℕ) → b.name + l < strtab_size → memory (strtab + b.name + l) ≢ 0)
      → IsMissing memory symbols count strtab strtab_size pc

strnlen_none : (n : ℕ) (m : Memory) (s : ℕ) → n ≤ strnlen n m s → (l : ℕ) → l < n → m (s + l) ≢ 0
unfolding strnlen
strnlen_none zero m s le l lt = absurd (omega (arith, lt))
strnlen_none (suc n) m s le zero lt =
    λ z. let z' : m s ≡ 0 = ap m (omega arith) ∙ z in absurd (ground (arith, le, z'))
strnlen_none (suc n) m s le (suc l) lt = λ z.
    let le' : n ≤ strnlen n m (s + 1) = ground (arith, le) in
    strnlen_none n m (s + 1) le' l (omega (arith, lt)) (ap m (omega arith) ∙ z)

check_best-IsMissing :
    (memory : Memory) (symbols : ℕ → Symbol) (count strtab strtab_size pc : ℕ) (b : Symbol)
    → IsBest symbols pc count (some b)
    → check_best memory strtab strtab_size pc b ≡ none
    → IsMissing memory symbols count strtab strtab_size pc
unfolding check_best
check_best-IsMissing memory symbols count strtab strtab_size pc b best e =
    let n = strnlen (strtab_size - b.name) memory (strtab + b.name) in
    elim (Bool-cases (leb strtab_size b.name)) [
      | inl out ↦ no_name b best (ground (arith, out))
      | inr named ↦ elim (Bool-cases (not (b.size == 0) && leb b.size (pc - b.value))) [
        | inl past ↦ past_end b best (ground (arith, past)) (ground (arith, past))
        | inr inside' ↦
            let long : strtab_size - b.name ≤ n = ground (arith, named, inside', e) in
            no_end b best (λ l lt.
              strnlen_none (strtab_size - b.name) memory (strtab + b.name) long l
                (omega (arith, lt)))
      ]
    ]

-- What the result stands for.
abbrev pub IsResult :
    (memory : Memory) (symbols : ℕ → Symbol) (count strtab strtab_size pc : ℕ)
    → Option SymbolResult
    → Type 0
IsResult memory symbols count strtab strtab_size pc none =
    IsMissing memory symbols count strtab strtab_size pc
IsResult memory symbols count strtab strtab_size pc (some r) =
    IsFound memory symbols count strtab strtab_size pc r

-- With a symbol table, and a string table that is not nullptr, symbol_for_pc finds the highest
-- function that begins at or below the program counter, which lies in it or has size 0, with the
-- offset and a name that ends within the string table; or it finds none, since no function begins
-- there, or the highest has a name out of the table, ends at or below the program counter, or its
-- name does not end within the table.
pub symbol_for_pc-IsResult :
    (memory : Memory) (symbols : ℕ → Symbol) (symtab_size strtab strtab_size pc : ℕ)
    → strtab ≢ 0
    → IsResult memory symbols
        (symtab_size / 24)
        strtab
        strtab_size
        pc
        (symbol_for_pc memory (some symbols) symtab_size strtab strtab_size pc)
unfolding symbol_for_pc
symbol_for_pc-IsResult memory symbols symtab_size strtab strtab_size pc nz =
    elim (Bool-cases (strtab == 0)) [
      | inl null ↦ absurd (nz ((==_iff strtab 0).0 null))
      | inr table ↦
          let n = symtab_size / 24 in
          let all =
            best_loop-IsBest symbols pc n 0 n none (omega arith)
              (λ j lt. absurd (omega (arith, lt))) in
          rw table (elim (Option-cases (best_loop symbols pc n 0 none)) [
            | inl nothing ↦ rw (nothing, symbol_for_pc) (no_candidate (rw nothing at all))
            | inr (b, f) ↦
                let all' = rw f at all in
                rw (f, symbol_for_pc)
                  (elim (Option-cases (check_best memory strtab strtab_size pc b)) [
                    | inl missing ↦
                        rw missing (
                          check_best-IsMissing memory symbols n strtab strtab_size pc b all'
                            missing)
                    | inr (r, e) ↦
                        rw e (check_best-IsFound memory symbols n strtab strtab_size pc b r all' e)
                  ])
          ])
    ]
