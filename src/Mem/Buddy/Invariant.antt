-- ===== src/Mem/Buddy/Invariant.antt =====
-- The lists hold the free blocks, which are aligned and apart.
use evalyn_os.Base.{ℕ, ◌+◌, ◌^◌, ◌≤◌, ◌<◌, ◌≡◌, ◌⊎◌, ◌==◌, ltb, leb, not, ◌&&◌, Bool, true, false}
use evalyn_os.Base.Distinct.{has, Distinct}
use evalyn_os.Mem.Words.Multiples.{IsMultiple}
use evalyn_os.Mem.Buddy.{Buddy, is_free}

-- The first page of a free block, unless the block is `out` of the lists.
abbrev pub is_block : (out : ℕ → Bool) → Buddy → ℕ → Bool
is_block out b x = is_free (b.pages x).kind && not (out x)

abbrev pub order_of : Buddy → ℕ → ℕ
order_of b x = (b.pages x).cur_order

-- No block meets the pages from `page` on, `2 ^ order` of them.
abbrev pub Apart : (out : ℕ → Bool) → Buddy → (page order : ℕ) → Type 0
Apart out b page order =
    (x : ℕ) → is_block out b x ≡ true → (x + 2 ^ order_of b x ≤ page) ⊎ (page + 2 ^ order ≤ x)

abbrev pub none_out : ℕ → Bool
none_out x = false

-- The blocks named by `out` are in no list.
pub record Inv (out : ℕ → Bool) (b : Buddy) : Type 0 where
  pub listed : (k x : ℕ) → has x (b.orders k) ≡ (is_block out b x && (order_of b x == k))
  pub distinct : (k : ℕ) → Distinct (b.orders k)
  pub aligned : (x : ℕ) → is_block out b x ≡ true → IsMultiple (2 ^ order_of b x) x
  pub apart :
      (x y : ℕ)
      → is_block out b x ≡ true
      → is_block out b y ≡ true
      → x < y
      → x + 2 ^ order_of b x ≤ y
  pub bounded : (x : ℕ) → is_block out b x ≡ true → order_of b x ≤ 14
  pub max_bounded : (x : ℕ) → (b.pages x).max_order ≤ 14

-- A page of a free block.
abbrev pub IsFreePage : (out : ℕ → Bool) → Buddy → ℕ → Type 0
IsFreePage out b a = (x : ℕ) × (is_block out b x ≡ true) × (x ≤ a) × (a < x + 2 ^ order_of b x)

abbrev pub within_block : (page order a : ℕ) → Bool
within_block page order a = leb page a && ltb a (page + 2 ^ order)
