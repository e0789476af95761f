-- ===== src/Structures/Rbtree/Greater.antt =====
-- The search for the nearest greater value.
use evalyn_os.Base.{
  ℕ, zero, suc, ◌≤◌, ◌<◌, ◌≡◌, inl, inr, refl, ◌==◌, ltb, leb, if◌then◌else◌, Bool, true, false,
  arith, some, Bool-cases,
}
use evalyn_os.Structures.Rbtree.{Nodes, greater_loop, search_greater, leftmost, minimum}
use evalyn_os.Structures.Rbtree.Ordered.{
  Tree, leaf, branch, size, Holds, All, All-map, Sorted, In, at, on_left, on_right, All-In,
}

-- Whether a value counts as greater.
abbrev pub exceeds : (find_equal : Bool) → (query v : ℕ) → Bool
exceeds find_equal query v = if find_equal then leb query v else ltb query v

-- The node of the least value that counts, or `candidate` if there is none.
pub data NearestAbove (value : ℕ → ℕ) (find_equal : Bool) (query : ℕ) (t : Tree) (candidate : ℕ)
    : ℕ → Type 0 where
  keep :
      All (λ x. exceeds find_equal query (value x) ≡ false) t
      → NearestAbove value find_equal query t candidate candidate
  better :
      (r : ℕ)
      → In r t
      → exceeds find_equal query (value r) ≡ true
      → All (λ x. exceeds find_equal query (value x) ≡ true → value r ≤ value x) t
      → NearestAbove value find_equal query t candidate r

not_counted : (eq : Bool) (q v : ℕ) → v < q → exceeds eq q v ≡ false
not_counted true q v h = ground arith
not_counted false q v h = ground arith

counted : (eq : Bool) (q v : ℕ) → q < v → exceeds eq q v ≡ true
counted true q v h = ground arith
counted false q v h = ground arith

-- The first node of a tree has its least value.
leftmost-In :
    (s : Nodes) (k : ℕ) (l : Tree) (n : ℕ) (r : Tree)
    → Holds s (branch l n r) n
    → Sorted s.value_of_node (branch l n r)
    → size l < k
    → (x : ℕ) × (leftmost k s n ≡ some x)
      × In x (branch l n r)
      × All (λ y. s.value_of_node x ≤ s.value_of_node y) (branch l n r)
unfolding leftmost
leftmost-In s zero l n r h sorted lt = absurd (omega (arith, lt))
leftmost-In s (suc k) leaf n r h sorted lt =
    let ends : (s.left n == 0) ≡ true = rw h.2 refl in
    (
      n,
      rw ends refl,
      at leaf r,
      (tt, omega arith, All-map r (λ y more. omega (arith, more)) sorted.3),
    )
leftmost-In s (suc k) (branch l' n' r') n r h sorted lt =
    let v = s.value_of_node in
    let more : (s.left n == 0) ≡ false = rw h.2.0 h.2.1 in
    let (x, e, i, a) =
      leftmost-In s k l' n' r' (refl, h.2.1, h.2.2, h.2.3) sorted.0 (omega (arith, lt)) in
    let under : v x < v n = All-In (λ y. v y < v n) x (branch l' n' r') i sorted.2 in
    (
      x,
      rw (more, h.2.0) e,
      on_left (branch l' n' r') r n i,
      (a, omega (arith, under), All-map r (λ y bigger. omega (arith, bigger, under)) sorted.3),
    )

minimum_root : (s : Nodes) (k p : ℕ) → (p == 0) ≡ false → minimum k s p ≡ leftmost k s p
unfolding minimum
minimum_root s k p h = rw h refl

-- At a node with the very value.
equal-NearestAbove :
    (s : Nodes) (query : ℕ) (eq : Bool) (k : ℕ) (l : Tree) (n : ℕ) (r : Tree) (c : ℕ)
    → s.value_of_node n ≡ query
    → Holds s (branch l n r) n
    → Sorted s.value_of_node (branch l n r)
    → size r < k
    → (x : ℕ) × ((if eq then some n else if s.right n == 0 then some c else minimum k s (s.right n))
        ≡ some x)
      × NearestAbove s.value_of_node eq query (branch l n r) c x
equal-NearestAbove s query true k l n r c same h sorted lt = (
  n,
  refl,
  better n (at l r) (ground (arith, same)) (
    All-map l (λ y d u. absurd (ground (arith, u, d, same))) sorted.2,
    (λ u. omega arith),
    All-map r (λ y d u. omega (arith, d)) sorted.3,
  ),
)
equal-NearestAbove s query false k l n leaf c same h sorted lt =
    let ends : (s.right n == 0) ≡ true = rw h.3 refl in
    (
      c,
      rw ends refl,
      keep (All-map l (λ y d. ground (arith, d, same)) sorted.2, ground (arith, same), tt),
    )
equal-NearestAbove s query false k l n (branch l' n' r') c same h sorted lt =
    let v = s.value_of_node in
    let more : (s.right n == 0) ≡ false = rw h.3.0 h.3.1 in
    let (x, e, i, a) =
      leftmost-In s k l' n' r' (refl, h.3.1, h.3.2, h.3.3) sorted.1 (omega (arith, lt)) in
    let over : v n < v x = All-In (λ y. v n < v y) x (branch l' n' r') i sorted.3 in
    let least = minimum_root s k (s.right n) more in
    (
      x,
      rw (more, least, h.3.0) e,
      better x (on_right l (branch l' n' r') n i) (ground (arith, over, same)) (
        All-map l (λ y d u. absurd (ground (arith, u, d, same))) sorted.2,
        (λ u. absurd (ground (arith, u, same))),
        All-map (branch l' n' r') (λ y le u. le) a,
      ),
    )

greater_loop-NearestAbove :
    (s : Nodes) (query : ℕ) (eq : Bool) (fuel : ℕ) (t : Tree) (p candidate : ℕ)
    → Holds s t p
    → Sorted s.value_of_node t
    → size t < fuel
    → (r : ℕ) × (greater_loop fuel s query eq p candidate ≡ some r)
      × NearestAbove s.value_of_node eq query t candidate r
unfolding greater_loop
greater_loop-NearestAbove s query eq zero t p c h sorted lt = absurd (omega (arith, lt))
greater_loop-NearestAbove s query eq (suc k) leaf p c h sorted lt = (c, rw h refl, keep tt)
greater_loop-NearestAbove s query eq (suc k) (branch l n r) p c h sorted lt =
    let v = s.value_of_node in
    elim (Bool-cases (ltb query (v n))) [
      | inl above ↦
          let (x, e, b) =
            greater_loop-NearestAbove s query eq k l (s.left n) n h.2 sorted.0
              (omega (arith, lt)) in
          (x, rw (h.0, h.1, above) e, go_left (ground (arith, above)) x b)
      | inr not_above ↦ elim (Bool-cases (ltb (v n) query)) [
        | inl below ↦
            let (x, e, b) =
              greater_loop-NearestAbove s query eq k r (s.right n) c h.3 sorted.1
                (omega (arith, lt)) in
            (x, rw (h.0, h.1, not_above, below) e, go_right (ground (arith, below)) x b)
        | inr not_below ↦
            let same : v n ≡ query = ground (arith, not_below, not_above) in
            let (x, e, b) =
              equal-NearestAbove s query eq k l n r c same (refl, h.1, h.2, h.3) sorted
                (omega (arith, lt)) in
            (x, rw (h.0, h.1, not_above, not_below) e, b)
      ]
    ]
  where
    go_left :
        query < s.value_of_node n
        → (x : ℕ) → NearestAbove s.value_of_node eq query l n x
        → NearestAbove s.value_of_node eq query (branch l n r) c x
    go_left more _ (keep a) = better n (at l r) (counted eq query _ more) (
      All-map l (λ y no' yes'. ground (arith, no', yes')) a,
      (λ u. omega arith),
      All-map r (λ y d u. omega (arith, d)) sorted.3,
    )
    go_left more _ (better x i ok a) =
        let under : s.value_of_node x < s.value_of_node n =
          All-In (λ y. s.value_of_node y < s.value_of_node n) x l i sorted.2 in
        better x (on_left l r n i) ok
          (a, (λ u. omega (arith, under)), All-map r (λ y d u. omega (arith, d, under)) sorted.3)

    go_right :
        s.value_of_node n < query
        → (x : ℕ) → NearestAbove s.value_of_node eq query r c x
        → NearestAbove s.value_of_node eq query (branch l n r) c x
    go_right less _ (keep a) = keep (
      All-map l (λ y d. not_counted eq query _ (omega (arith, d, less))) sorted.2,
      not_counted eq query _ less,
      a,
    )
    go_right less _ (better x i ok a) = better x (on_right l r n i) ok (
      All-map l
          (λ y d u.
            absurd (
              ground (arith, u, not_counted eq query (s.value_of_node y) (omega (arith, d, less)))))
          sorted.2,
      (λ u. absurd (ground (arith, u, not_counted eq query _ less))),
      a,
    )

-- With more fuel than nodes, rbtree_search_greater returns in an ordered tree, and finds the node
-- of the least value above the query, or at least the query where equals are asked for, or nullptr
-- if there is none.
pub search_greater-NearestAbove :
    (s : Nodes) (query : ℕ) (eq : Bool) (fuel : ℕ) (t : Tree)
    → Holds s t s.root
    → Sorted s.value_of_node t
    → size t < fuel
    → (r : ℕ) × (search_greater fuel s query eq ≡ some r)
      × NearestAbove s.value_of_node eq query t 0 r
unfolding search_greater
search_greater-NearestAbove s query eq fuel t h sorted lt =
    greater_loop-NearestAbove s query eq fuel t s.root 0 h sorted lt
