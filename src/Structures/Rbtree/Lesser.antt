-- ===== src/Structures/Rbtree/Lesser.antt =====
-- The search for the nearest smaller value.
use evalyn_os.Base.{
  ℕ, zero, suc, ◌≤◌, ◌<◌, ◌≡◌, inl, inr, refl, ◌==◌, ltb, leb, if◌then◌else◌, Bool, true, false,
  arith, some, Bool-cases,
}
use evalyn_os.Structures.Rbtree.{Nodes, lesser_loop, search_lesser, rightmost, maximum}
use evalyn_os.Structures.Rbtree.Ordered.{
  Tree, leaf, branch, size, Holds, All, All-map, Sorted, In, at, on_left, on_right, All-In,
}

-- Whether a value counts as smaller.
abbrev pub admits : (find_equal : Bool) → (query v : ℕ) → Bool
admits find_equal query v = if find_equal then leb v query else ltb v query

-- The node of the greatest value that counts, or `candidate` if there is none.
pub data Nearest (value : ℕ → ℕ) (find_equal : Bool) (query : ℕ) (t : Tree) (candidate : ℕ)
    : ℕ → Type 0 where
  keep :
      All (λ x. admits find_equal query (value x) ≡ false) t
      → Nearest value find_equal query t candidate candidate
  better :
      (r : ℕ)
      → In r t
      → admits find_equal query (value r) ≡ true
      → All (λ x. admits find_equal query (value x) ≡ true → value x ≤ value r) t
      → Nearest value find_equal query t candidate r

not_admitted : (eq : Bool) (q v : ℕ) → q < v → admits eq q v ≡ false
not_admitted true q v h = ground arith
not_admitted false q v h = ground arith

admitted : (eq : Bool) (q v : ℕ) → v < q → admits eq q v ≡ true
admitted true q v h = ground arith
admitted false q v h = ground arith

-- The last node of a tree has its greatest value.
rightmost-In :
    (s : Nodes) (k : ℕ) (l : Tree) (n : ℕ) (r : Tree)
    → Holds s (branch l n r) n
    → Sorted s.value_of_node (branch l n r)
    → size r < k
    → (x : ℕ) × (rightmost k s n ≡ some x)
      × In x (branch l n r)
      × All (λ y. s.value_of_node y ≤ s.value_of_node x) (branch l n r)
unfolding rightmost
rightmost-In s zero l n r h sorted lt = absurd (omega (arith, lt))
rightmost-In s (suc k) l n leaf h sorted lt =
    let ends : (s.right n == 0) ≡ true = rw h.3 refl in
    (
      n,
      rw ends refl,
      at l leaf,
      (All-map l (λ y less. omega (arith, less)) sorted.2, omega arith, tt),
    )
rightmost-In s (suc k) l n (branch l' n' r') h sorted lt =
    let v = s.value_of_node in
    let more : (s.right n == 0) ≡ false = rw h.3.0 h.3.1 in
    let (x, e, i, a) =
      rightmost-In s k l' n' r' (refl, h.3.1, h.3.2, h.3.3) sorted.1 (omega (arith, lt)) in
    let over : v n < v x = All-In (λ y. v n < v y) x (branch l' n' r') i sorted.3 in
    (
      x,
      rw (more, h.3.0) e,
      on_right l (branch l' n' r') n i,
      (All-map l (λ y less. omega (arith, less, over)) sorted.2, omega (arith, over), a),
    )

maximum_root : (s : Nodes) (k p : ℕ) → (p == 0) ≡ false → maximum k s p ≡ rightmost k s p
unfolding maximum
maximum_root s k p h = rw h refl

-- At a node with the very value.
equal-Nearest :
    (s : Nodes) (query : ℕ) (eq : Bool) (k : ℕ) (l : Tree) (n : ℕ) (r : Tree) (c : ℕ)
    → s.value_of_node n ≡ query
    → Holds s (branch l n r) n
    → Sorted s.value_of_node (branch l n r)
    → size l < k
    → (x : ℕ) × ((if eq then some n else if s.left n == 0 then some c else maximum k s (s.left n))
        ≡ some x)
      × Nearest s.value_of_node eq query (branch l n r) c x
equal-Nearest s query true k l n r c same h sorted lt = (
  n,
  refl,
  better n (at l r) (ground (arith, same)) (
    All-map l (λ y d u. omega (arith, d)) sorted.2,
    (λ u. omega arith),
    All-map r (λ y d u. absurd (ground (arith, u, d, same))) sorted.3,
  ),
)
equal-Nearest s query false k leaf n r c same h sorted lt =
    let ends : (s.left n == 0) ≡ true = rw h.2 refl in
    (
      c,
      rw ends refl,
      keep (tt, ground (arith, same), All-map r (λ y d. ground (arith, d, same)) sorted.3),
    )
equal-Nearest s query false k (branch l' n' r') n r c same h sorted lt =
    let v = s.value_of_node in
    let more : (s.left n == 0) ≡ false = rw h.2.0 h.2.1 in
    let (x, e, i, a) =
      rightmost-In s k l' n' r' (refl, h.2.1, h.2.2, h.2.3) sorted.0 (omega (arith, lt)) in
    let under : v x < v n = All-In (λ y. v y < v n) x (branch l' n' r') i sorted.2 in
    let biggest = maximum_root s k (s.left n) more in
    (
      x,
      rw (more, biggest, h.2.0) e,
      better x (on_left (branch l' n' r') r n i) (ground (arith, under, same)) (
        All-map (branch l' n' r') (λ y le u. le) a,
        (λ u. absurd (ground (arith, u, same))),
        All-map r (λ y d u. absurd (ground (arith, u, d, same))) sorted.3,
      ),
    )

lesser_loop-Nearest :
    (s : Nodes) (query : ℕ) (eq : Bool) (fuel : ℕ) (t : Tree) (p candidate : ℕ)
    → Holds s t p
    → Sorted s.value_of_node t
    → size t < fuel
    → (r : ℕ) × (lesser_loop fuel s query eq p candidate ≡ some r)
      × Nearest s.value_of_node eq query t candidate r
unfolding lesser_loop
lesser_loop-Nearest s query eq zero t p c h sorted lt = absurd (omega (arith, lt))
lesser_loop-Nearest s query eq (suc k) leaf p c h sorted lt = (c, rw h refl, keep tt)
lesser_loop-Nearest s query eq (suc k) (branch l n r) p c h sorted lt =
    let v = s.value_of_node in
    elim (Bool-cases (ltb (v n) query)) [
      | inl below ↦
          let (x, e, b) =
            lesser_loop-Nearest s query eq k r (s.right n) n h.3 sorted.1 (omega (arith, lt)) in
          (x, rw (h.0, h.1, below) e, go_right (ground (arith, below)) x b)
      | inr not_below ↦ elim (Bool-cases (ltb query (v n))) [
        | inl above ↦
            let (x, e, b) =
              lesser_loop-Nearest s query eq k l (s.left n) c h.2 sorted.0 (omega (arith, lt)) in
            (x, rw (h.0, h.1, not_below, above) e, go_left (ground (arith, above)) x b)
        | inr not_above ↦
            let same : v n ≡ query = ground (arith, not_below, not_above) in
            let (x, e, b) =
              equal-Nearest s query eq k l n r c same (refl, h.1, h.2, h.3) sorted
                (omega (arith, lt)) in
            (x, rw (h.0, h.1, not_below, not_above) e, b)
      ]
    ]
  where
    go_right :
        s.value_of_node n < query
        → (x : ℕ) → Nearest s.value_of_node eq query r n x
        → Nearest s.value_of_node eq query (branch l n r) c x
    go_right less _ (keep a) = better n (at l r) (admitted eq query _ less) (
      All-map l (λ y d u. omega (arith, d)) sorted.2,
      (λ u. omega arith),
      All-map r (λ y no' yes'. ground (arith, no', yes')) a,
    )
    go_right less _ (better x i ok a) =
        let over : s.value_of_node n < s.value_of_node x =
          All-In (λ y. s.value_of_node n < s.value_of_node y) x r i sorted.3 in
        better x (on_right l r n i) ok
          (All-map l (λ y d u. omega (arith, d, over)) sorted.2, (λ u. omega (arith, over)), a)

    go_left :
        query < s.value_of_node n
        → (x : ℕ) → Nearest s.value_of_node eq query l c x
        → Nearest s.value_of_node eq query (branch l n r) c x
    go_left more _ (keep a) = keep (
      a,
      not_admitted eq query _ more,
      All-map r (λ y d. not_admitted eq query _ (omega (arith, d, more))) sorted.3,
    )
    go_left more _ (better x i ok a) = better x (on_left l r n i) ok (
      a,
      (λ u. absurd (ground (arith, u, not_admitted eq query _ more))),
      All-map r
          (λ y d u.
            absurd (
              ground
                (arith, u, not_admitted eq query (s.value_of_node y) (omega (arith, d, more)))))
          sorted.3,
    )

-- With more fuel than nodes, rbtree_search_lesser returns in an ordered tree, and finds the node
-- of the greatest value below the query, or at most the query where equals are asked for, or
-- nullptr if there is none.
pub search_lesser-Nearest :
    (s : Nodes) (query : ℕ) (eq : Bool) (fuel : ℕ) (t : Tree)
    → Holds s t s.root
    → Sorted s.value_of_node t
    → size t < fuel
    → (r : ℕ) × (search_lesser fuel s query eq ≡ some r) × Nearest s.value_of_node eq query t 0 r
unfolding search_lesser
search_lesser-Nearest s query eq fuel t h sorted lt =
    lesser_loop-Nearest s query eq fuel t s.root 0 h sorted lt
