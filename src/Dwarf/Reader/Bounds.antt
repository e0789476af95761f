-- ===== src/Dwarf/Reader/Bounds.antt =====
-- The readers stay inside their buffer and have fuel enough.
use evalyn_os.Base.{
  ℕ, zero, suc, ◌+◌, ◌-◌, ◌*◌, ◌/◌, ◌%◌, ◌^◌, ◌≤◌, ◌<◌, ◌≡◌, refl, ap, ◌∙◌, ◌==◌, ==_iff, arith,
  length, get_elem?-lt, ltb, leb,
}
use native.Mathlib.Nat.{pow-suc}
use evalyn_os.Dwarf.Run
use evalyn_os.Dwarf.Run.{Section, load, Safe, success, failure}
use evalyn_os.Dwarf.Reader.{
  sub64, read_uleb_impl, uleb_rounds, read_uleb, read_sleb, load_le, read_bytes, strnlen,
  skip_string,
}

-- The section lies in the address space.
pub record IsMapped (s : Section) (end : ℕ) : Type 0 where
  pub inside : end ≤ length s
  pub small : end < 2 ^ 64

-- A reader moved its pointer forward, and not past the end.
abbrev pub Advanced : (p end p' : ℕ) → Type 0
Advanced p end p' = (p < p') × (p' ≤ end)

module _ (s : Section) where
  pub load-Safe : (p : ℕ) → p < length s → Safe (λ b. b < 256) (load s p)
  unfolding load
  load-Safe p h = let (b, e) = get_elem?-lt s p h in rw (load, e) (success (omega arith))

  pub load-done : (p : ℕ) → p < length s → (b : ℕ) × (load s p ≡ Run.done b) × (b < 256)
  unfolding load
  load-done p h = let (b, e) = get_elem?-lt s p h in (b % 256, rw (load, e), omega arith)

  pub load_le-Safe : (p n : ℕ) → p + n ≤ length s → Safe (λ v. v < 256 ^ n) (load_le s p n)
  unfolding load_le
  load_le-Safe p zero h = success (omega arith)
  load_le-Safe p (suc n) h = Run.bind (load-Safe p (omega arith)) λ b hb.
      Run.bind (load_le-Safe (p + 1) n (omega arith))
        λ v hv. success (omega (arith, hb, hv, pow-suc 256 n))

  module _ {end : ℕ} (m : IsMapped s end) where
    read_uleb_impl-Safe :
        (k result shift p : ℕ)
        → shift ≤ 70
        → 70 < shift + 7 * k
        → Safe
            (λ (p', value, shift'). Advanced p end p' × (0 < shift') × (shift' ≤ 70))
            (read_uleb_impl s k end result shift p)
    unfolding read_uleb_impl
    read_uleb_impl-Safe zero result shift p h h' = absurd (omega arith)
    read_uleb_impl-Safe (suc k) result shift p h h' =
        Run.branch (leb end p) (λ _. failure)
          λ e.
            Run.branch (leb 64 shift) (λ _. failure)
              λ e'. Run.bind (load-Safe p (ground (arith, m.inside))) λ byte _.
                Run.branch (byte / 128 % 2 == 0) (λ _. success (ground arith))
                  λ _.
                    Run.mono
                      (read_uleb_impl-Safe k _ (shift + 7) (p + 1) (ground arith) (ground arith))
                      λ r adv. omega arith

    pub read_uleb-Safe : (p : ℕ) → Safe (λ (p', _). Advanced p end p') (read_uleb s end p)
    unfolding read_uleb
    read_uleb-Safe p =
        Run.bind (read_uleb_impl-Safe uleb_rounds 0 0 p (omega arith) (omega arith))
          λ r adv. success adv.0

    pub read_sleb-Safe : (p : ℕ) → Safe (λ (p', _). Advanced p end p') (read_sleb s end p)
    unfolding read_sleb
    read_sleb-Safe p =
        Run.bind (read_uleb_impl-Safe uleb_rounds 0 0 p (omega arith) (omega arith))
          λ r adv. success adv.0

    pub read_bytes-Safe :
        (p n : ℕ)
        → p ≤ end
        → n ≤ 8
        → Safe (λ (p', v). (p' ≡ p + n) × (p' ≤ end) × (v < 256 ^ n)) (read_bytes s end p n)
    unfolding read_bytes
    read_bytes-Safe p n h h' =
        Run.branch (ltb (sub64 end p) n) (λ _. failure)
          λ e.
            Run.branch (ltb 8 n) (λ e'. absurd (ground arith))
              λ _.
                Run.bind (load_le-Safe p n (ground (arith, m.inside, m.small)))
                  λ v hv. success (refl, ground (arith, m.small), hv)

  -- Either the whole of `maxlen` bytes, or up to a NUL.
  abbrev pub Terminated : (p maxlen n : ℕ) → Type 0
  Terminated p maxlen n = (n ≤ maxlen) × (n < maxlen → load s (p + n) ≡ Run.done 0)

  pub strnlen-Safe :
      (p maxlen : ℕ) → p + maxlen ≤ length s → Safe (Terminated p maxlen) (strnlen s p maxlen)
  unfolding strnlen
  strnlen-Safe p zero h = success (omega arith, λ lt. absurd (omega arith))
  strnlen-Safe p (suc k) h =
      let (c, e, _) = load-done p (omega arith) in
      rw e (
        Run.branch (c == 0)
          (λ z.
            success
              (omega arith, λ _. ap (load s) (omega arith) ∙ e ∙ ap Run.done ((==_iff c 0).0 z)))
          λ _. Run.bind (strnlen-Safe (p + 1) k (omega arith)) λ n (le, stop).
            success (omega arith, λ lt. ap (load s) (omega arith) ∙ stop (omega arith)))

  module _ {end : ℕ} (m : IsMapped s end) where
    -- The string that is skipped ends inside the buffer, at a NUL.
    pub skip_string-Safe :
        (p : ℕ)
        → p ≤ end
        → Safe
            (λ p'. Advanced p end p' × (n : ℕ) × (p' ≡ p + (n + 1)) × (load s (p + n) ≡ Run.done 0))
            (skip_string s end p)
    unfolding skip_string
    skip_string-Safe p h =
        let e : sub64 end p ≡ end - p = omega (arith, m.small) in
        rw e (
          Run.bind (strnlen-Safe p (end - p) (omega (arith, m.inside))) λ n t.
            Run.branch (leb end (p + n)) (λ _. failure)
              λ e'. success (ground arith, n, refl, t.1 (ground arith)))
