-- ===== src/Mem/Vmem/Free/Freed.antt =====
-- A round of a release frees its part of a segment, and nothing else.
use mathlib.Core.Path.{subst}
use evalyn_os.Base.{
  ℕ, ◌+◌, ◌-◌, ◌^◌, ◌<◌, ◌≡◌, ◌⊎◌, inl, inr, refl, ap, sym, ◌∙◌, ◌==◌, ltb, leb, if◌then◌else◌,
  ◌&&◌, true, false, none, some, [], arith, Bool-cases,
}
use evalyn_os.Base.Distinct.{has}
use evalyn_os.Mem.Words.{add64, smaller, log2ull}
use evalyn_os.Mem.Words.Multiples.{IsMultiple}
use evalyn_os.Mem.Vmem.{Segment, Vmem, find, remove, flist_add}
use evalyn_os.Mem.Vmem.Segments.{covers, status, find-Ordered}
use evalyn_os.Mem.Vmem.Invariant.{Inv}
use evalyn_os.Mem.Vmem.Attach.{attach_free-Inv}
use evalyn_os.Mem.Vmem.Detach.{detach_allocated-Inv}
use evalyn_os.Mem.Vmem.Splits.{status-find}
use evalyn_os.Mem.Vmem.Free.{
  cut_left, cut_right, mark_free, left_coalesce, right_coalesce, free_segment,
}
use evalyn_os.Mem.Vmem.Free.Cuts.{IsPiece, cut_left-IsPiece, cut_right-IsPiece, mark_free-IsPiece}
use evalyn_os.Mem.Vmem.Free.Joins.{IsJoined, left_coalesce-IsJoined, right_coalesce-IsJoined}

-- The addresses from `lo` on and below `hi` are free, and no other has another status than before.
pub record IsFreed (top : ℕ) (v : Vmem) (lo hi : ℕ) (w : Vmem) : Type 0 where
  pub inv : Inv top [] w
  pub quantum : w.quantum ≡ v.quantum
  pub now :
      (a : ℕ)
      → status a w.segments ≡ (if leb lo a && ltb a hi then some false else status a v.segments)

module _ (top : ℕ) (v : Vmem) (inv : Inv top [] v) (s : Segment)
    (found : find s.base v.segments ≡ some s) (m : has s.base v.tree ≡ true)
    (al : s.allocated ≡ true) (cur end : ℕ) (on : covers s cur ≡ true) (more : cur < end)
    (mc : IsMultiple v.quantum cur) (me : IsMultiple v.quantum end) (low : s.base + s.size < 2 ^ 64)
    (not_all : (status 0 v.segments ≡ none) ⊎ (status (2 ^ 64 - 1) v.segments ≡ none)) where
  stop : ℕ
  stop = add64 s.base s.size

  left : Vmem × Segment
  left = cut_left (record v { tree = remove s.base v.tree }) s cur

  one : IsPiece top v cur (s.base + s.size) true (λ a. status a v.segments) left
  unfolding left
  one =
      let w = record v { tree = remove s.base v.tree } in
      let r =
        cut_left-IsPiece top w s (detach_allocated-Inv top [] v s.base inv m) found cur al
          (ground (arith, on)) (ground (arith, on)) mc in
      record {
        inv = r.inv;
        found = r.found;
        base_at = r.base_at;
        end_at = r.end_at;
        flagged = r.flagged;
        quantum = r.quantum;
        statuses = r.statuses;
      }

  right : Vmem × Segment
  right = cut_right left.0 left.1 stop end

  two : IsPiece top left.0 left.1.base (smaller stop end) true (λ a. status a left.0.segments) right
  unfolding right stop
  two =
      cut_right-IsPiece top left.0 left.1 one.inv one.found stop end
        (omega (arith, one.end_at, low)) one.flagged (omega (arith, one.base_at, more))
        (subst (λ q. IsMultiple q end) (sym one.quantum) me)

  freed : Vmem × Segment
  freed = mark_free right.0 right.1

  three :
      IsPiece top right.0 right.1.base
        (right.1.base + right.1.size)
        false
        (λ a. if covers right.1 a then some false else status a right.0.segments)
        freed
  unfolding freed
  three = mark_free-IsPiece top right.0 right.1 two.inv two.found

  old_status : (a : ℕ) → status a right.0.segments ≡ status a v.segments
  old_status a = two.statuses a ∙ one.statuses a

  new_status :
      (a : ℕ)
      → status a freed.0.segments
        ≡ (if leb cur a && ltb a (smaller stop end) then some false else status a v.segments)
  new_status a =
      three.statuses a
      ∙ ap (λ x. if covers right.1 a then some false else x) (old_status a)
      ∙ ground (arith, two.base_at, two.end_at, one.base_at)

  unmapped : (a : ℕ) → status a v.segments ≡ none → status a freed.0.segments ≡ none
  unmapped a e = elim (Bool-cases (covers right.1 a)) [
    | inl in' ↦
        let is =
          status-find a 0 right.0.segments top right.1.base right.1 two.inv.ordered two.found in' in
        absurd (ground (arith, sym is ∙ old_status a ∙ e))
    | inr out ↦ three.statuses a ∙ rw out (old_status a ∙ e)
  ]

  not_all' : (status 0 freed.0.segments ≡ none) ⊎ (status (2 ^ 64 - 1) freed.0.segments ≡ none)
  not_all' = elim not_all [ inl e ↦ inl (unmapped 0 e) | inr e ↦ inr (unmapped (2 ^ 64 - 1) e) ]

  lower : Vmem × Segment
  lower = left_coalesce freed.0 freed.1

  four : IsJoined top freed.0 lower
  unfolding lower
  four = left_coalesce-IsJoined top freed.0 freed.1 three.inv three.found three.flagged not_all'

  upper : Vmem × Segment
  upper = right_coalesce lower.0 lower.1

  five : IsJoined top lower.0 upper
  unfolding upper
  five =
      right_coalesce-IsJoined top lower.0 lower.1 four.inv four.found four.flag
        (elim not_all' [ inl e ↦ inl (four.same 0 ∙ e) | inr e ↦ inr (four.same (2 ^ 64 - 1) ∙ e) ])

  pub free_segment-IsFreed :
      (w : Vmem) × (free_segment v s cur end ≡ some w)
      × IsFreed top v cur (smaller (add64 s.base s.size) end) w
  unfolding free_segment left right freed lower upper stop
  free_segment-IsFreed =
      let place =
        find-Ordered 0 upper.0.segments top upper.1.base upper.1 five.inv.ordered five.found in
      let some' : (upper.1.size == 0) ≡ false = ground (arith, place) in
      let w = flist_add upper.0 upper.1.base (log2ull upper.1.size) in
      (
        w,
        rw (some') refl,
        record {
          inv =
              attach_free-Inv top [] upper.0 upper.1.base upper.1 five.found five.flag refl
                five.inv;
          quantum = five.quantum ∙ four.quantum ∙ three.quantum ∙ two.quantum ∙ one.quantum;
          now = λ a. five.same a ∙ four.same a ∙ new_status a;
        },
      )
