-- ===== src/Structures/Rbtree/Ordered.antt =====
-- Search trees in the store: the shape, the order of the values, and membership.
use evalyn_os.Base.{ℕ, suc, ◌+◌, ◌<◌, ◌≡◌, ◌==◌, false}
use evalyn_os.Structures.Rbtree.{Nodes}

pub data Tree : Type 0 where
  leaf : Tree
  branch : (l : Tree) → (n : ℕ) → (r : Tree) → Tree

-- The number of nodes, which bounds the way down.
abbrev pub size : Tree → ℕ
size leaf = 0
size (branch l n r) = suc (size l + size r)

-- The subtree at `p`.
abbrev pub Holds : Nodes → Tree → (p : ℕ) → Type 0
Holds s leaf p = p ≡ 0
Holds s (branch l n r) p =
    (p ≡ n) × ((n == 0) ≡ false) × Holds s l (s.left n) × Holds s r (s.right n)

abbrev pub All {ℓ} : (ℕ → Type ℓ) → Tree → Type ℓ
All P leaf = Unit
All P (branch l n r) = All P l × P n × All P r

pub All-map {ℓ κ} :
    {P : ℕ → Type ℓ} {Q : ℕ → Type κ} (t : Tree) → ((n : ℕ) → P n → Q n) → All P t → All Q t
All-map leaf f a = tt
All-map (branch l n r) f a = (All-map l f a.0, f n a.1, All-map r f a.2)

-- Values grow from left to right.
abbrev pub Sorted : (value : ℕ → ℕ) → Tree → Type 0
Sorted value leaf = Unit
Sorted value (branch l n r) =
    Sorted value l
    × Sorted value r
    × All (λ x. value x < value n) l
    × All (λ x. value n < value x) r

pub data In (x : ℕ) : Tree → Type 0 where
  at : (l r : Tree) → In x (branch l x r)
  on_left : (l r : Tree) (n : ℕ) → In x l → In x (branch l n r)
  on_right : (l r : Tree) (n : ℕ) → In x r → In x (branch l n r)

pub All-In {ℓ} : (P : ℕ → Type ℓ) (x : ℕ) (t : Tree) → In x t → All P t → P x
All-In P x _ (at l r) a = a.1
All-In P x _ (on_left l r n i) a = All-In P x l i a.0
All-In P x _ (on_right l r n i) a = All-In P x r i a.2
