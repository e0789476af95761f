-- ===== src/Mem/Vmem/Free/Cuts.antt =====
-- The parts of a segment out of the range that is freed are cut off.
use evalyn_os.Base.{
  ℕ, ◌+◌, ◌-◌, ◌≤◌, ◌<◌, ◌≡◌, inl, inr, refl, ◌∙◌, ◌==◌, ltb, if◌then◌else◌, Bool, true, false,
  Option, some, [], ◌∷◌, arith, Bool-cases,
}
use evalyn_os.Mem.Words.{sub64, smaller}
use evalyn_os.Mem.Words.Multiples.{IsMultiple, IsMultiple-add, IsMultiple-sub}
use evalyn_os.Mem.Vmem.{Segment, Vmem, find, replace}
use evalyn_os.Mem.Vmem.Segments.{Ordered, covers, status, find-Ordered}
use evalyn_os.Mem.Vmem.Replace.{status-replace, find-replace_new}
use evalyn_os.Mem.Vmem.Invariant.{Aligned, All-find, Inv, replace-Inv}
use evalyn_os.Mem.Vmem.Attach.{attach_allocated-Inv}
use evalyn_os.Mem.Vmem.Splits.{status-find}
use evalyn_os.Mem.Vmem.Free.{cut_left, cut_right, mark_free}
use evalyn_os.Mem.Vmem.Free.Merge.{swap-Inv}

-- One segment is detached, of the given extent, with the given statuses of all addresses.
pub record IsPiece (top : ℕ) (v : Vmem) (lo hi : ℕ) (flag : Bool) (now : ℕ → Option Bool)
    (result : Vmem × Segment) : Type 0 where
  pub inv : Inv top (result.1.base ∷ []) result.0
  pub found : find result.1.base result.0.segments ≡ some result.1
  pub base_at : result.1.base ≡ lo
  pub end_at : result.1.base + result.1.size ≡ hi
  pub flagged : result.1.allocated ≡ flag
  pub quantum : result.0.quantum ≡ v.quantum
  pub statuses : (a : ℕ) → status a result.0.segments ≡ now a

module _ (top : ℕ) (v : Vmem) (s : Segment) (inv : Inv top (s.base ∷ []) v)
    (found : find s.base v.segments ≡ some s) where
  abbrev q : ℕ
  q = v.quantum

  place : (s.base ≡ s.base) × (0 ≤ s.base) × (0 < s.size) × (s.base + s.size ≤ top)
  place = find-Ordered 0 v.segments top s.base s inv.ordered found

  seg-Aligned : Aligned q s
  seg-Aligned = All-find (Aligned q) s.base s v.segments found inv.aligned

  end-IsMultiple : IsMultiple q (s.base + s.size)
  end-IsMultiple = IsMultiple-add q s.base s.size seg-Aligned.0 seg-Aligned.1

  whole :
      s.allocated ≡ true
      → IsPiece top v s.base (s.base + s.size) true (λ a. status a v.segments) (v, s)
  whole al = record {
    inv = inv;
    found = found;
    base_at = refl;
    end_at = refl;
    flagged = al;
    quantum = refl;
    statuses = λ a. refl;
  }

  pub cut_left-IsPiece :
      (cur : ℕ)
      → s.allocated ≡ true
      → s.base ≤ cur
      → cur < s.base + s.size
      → IsMultiple q cur
      → IsPiece top v cur (s.base + s.size) true (λ a. status a v.segments) (cut_left v s cur)
  unfolding cut_left
  cut_left-IsPiece cur al le lt mult = elim (Bool-cases (ltb s.base cur)) [
    | inr here ↦ let at : s.base ≡ cur = ground (arith, le, here) in rw (here, ← at) (whole al)
    | inl there ↦
        let less : s.base < cur = ground (arith, there) in
        let g = sub64 cur s.base in
        let gap : g ≡ cur - s.base = omega (arith, le, lt, place, inv.inside) in
        let size' : sub64 s.size g ≡ s.base + s.size - cur =
          omega (arith, le, lt, place, inv.inside, gap) in
        let left : Segment = record { base = s.base; size = g; allocated = true } in
        let rest : Segment = record s { base = cur; size = sub64 s.size g } in
        let news = left ∷ rest ∷ [] in
        let within : Ordered s.base news (s.base + s.size) = omega (arith, gap, size', less, lt) in
        let gm : IsMultiple q g = rw gap (IsMultiple-sub q cur s.base le mult seg-Aligned.0) in
        let rm : IsMultiple q (sub64 s.size g) =
          rw size'
            (IsMultiple-sub q (s.base + s.size) cur (omega (arith, lt)) end-IsMultiple mult) in
        let w = record v { segments = replace s.base news v.segments } in
        let winv : Inv top (s.base ∷ cur ∷ []) w =
          replace-Inv top [] v s.base s news inv found within
            ((seg-Aligned.0, gm), ((mult, rm), tt)) in
        let other : (s.base == cur) ≡ false = ground (arith, there) in
        let lfound : find s.base w.segments ≡ some left =
          find-replace_new top s.base s news within 0 v.segments s.base left inv.ordered found
            (ground arith) in
        let rfound : find cur w.segments ≡ some rest =
          find-replace_new top s.base s news within 0 v.segments cur rest inv.ordered found
            (ground (arith, other)) in
        rw there (record {
          inv =
              attach_allocated-Inv top (cur ∷ []) w s.base left lfound refl (ground (arith, other))
                winv;
          found = rfound;
          base_at = refl;
          end_at = omega (arith, size', lt);
          flagged = al;
          quantum = refl;
          statuses = λ a.
              status-replace top s.base s news within a 0 v.segments inv.ordered found
              ∙ elim (Bool-cases (covers s a)) [
                | inl on ↦
                    let old = status-find a 0 v.segments top s.base s inv.ordered found on in
                    ground (arith, on, old, al, gap, size', le, lt)
                | inr off ↦ rw off refl
              ];
        })
  ]

  pub cut_right-IsPiece :
      (seg_end end : ℕ)
      → seg_end ≡ s.base + s.size
      → s.allocated ≡ true
      → s.base < end
      → IsMultiple q end
      → IsPiece top v s.base
          (smaller seg_end end)
          true
          (λ a. status a v.segments)
          (cut_right v s seg_end end)
  unfolding cut_right
  cut_right-IsPiece seg_end end at_end al lt mult = elim (Bool-cases (ltb end seg_end)) [
    | inr all_of ↦
        let at : smaller seg_end end ≡ s.base + s.size = ground (arith, all_of, at_end) in
        rw (all_of, at) (whole al)
    | inl part ↦
        let at : smaller seg_end end ≡ end = ground (arith, part) in
        let less : end < s.base + s.size = ground (arith, part, at_end) in
        let g : sub64 seg_end end ≡ s.base + s.size - end =
          omega (arith, at_end, less, place, inv.inside) in
        let n : sub64 end s.base ≡ end - s.base = omega (arith, lt, less, place, inv.inside) in
        let right : Segment = record { base = end; size = sub64 seg_end end; allocated = true } in
        let rest : Segment = record s { size = sub64 end s.base } in
        let news = rest ∷ right ∷ [] in
        let within : Ordered s.base news (s.base + s.size) = omega (arith, g, n, less, lt) in
        let gm : IsMultiple q (sub64 seg_end end) =
          rw g (IsMultiple-sub q (s.base + s.size) end (omega (arith, less)) end-IsMultiple mult) in
        let rm : IsMultiple q (sub64 end s.base) =
          rw n (IsMultiple-sub q end s.base (omega (arith, lt)) mult seg-Aligned.0) in
        let w = record v { segments = replace s.base news v.segments } in
        let winv : Inv top (s.base ∷ end ∷ []) w =
          replace-Inv top [] v s.base s news inv found within
            ((seg-Aligned.0, rm), ((mult, gm), tt)) in
        let other : (s.base == end) ≡ false = ground (arith, lt) in
        let lfound : find s.base w.segments ≡ some rest =
          find-replace_new top s.base s news within 0 v.segments s.base rest inv.ordered found
            (ground arith) in
        let rfound : find end w.segments ≡ some right =
          find-replace_new top s.base s news within 0 v.segments end right inv.ordered found
            (ground (arith, other)) in
        rw (part, at)
          (record {
            inv =
                attach_allocated-Inv top (s.base ∷ []) w end right rfound refl
                  (ground (arith, other)) (swap-Inv top s.base end [] w winv);
            found = lfound;
            base_at = refl;
            end_at = omega (arith, n, lt);
            flagged = al;
            quantum = refl;
            statuses = λ a.
                status-replace top s.base s news within a 0 v.segments inv.ordered found
                ∙ elim (Bool-cases (covers s a)) [
                  | inl on ↦
                      let old = status-find a 0 v.segments top s.base s inv.ordered found on in
                      ground (arith, on, old, al, g, n, lt, less)
                  | inr off ↦ rw off refl
                ];
          })
  ]

  pub mark_free-IsPiece :
      IsPiece top v s.base
        (s.base + s.size)
        false
        (λ a. if covers s a then some false else status a v.segments)
        (mark_free v s)
  unfolding mark_free
  mark_free-IsPiece =
      let freed : Segment = record s { allocated = false } in
      let within : Ordered s.base (freed ∷ []) (s.base + s.size) = omega (arith, place) in
      record {
        inv = replace-Inv top [] v s.base s (freed ∷ []) inv found within (seg-Aligned, tt);
        found =
            find-replace_new top s.base s (freed ∷ []) within 0 v.segments s.base freed inv.ordered
              found (ground arith);
        base_at = refl;
        end_at = refl;
        flagged = refl;
        quantum = refl;
        statuses = λ a.
            status-replace top s.base s (freed ∷ []) within a 0 v.segments inv.ordered found
            ∙ ground arith;
      }
