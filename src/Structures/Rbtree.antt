-- ===== src/Structures/Rbtree.antt =====
-- The searches of kernel/src/utils/dstruct/rbtree.c. A node is its address, and 0 is `nullptr`; a
-- loop runs on fuel, one unit for each node on its way, and gives `none` when that runs out.
pub mod Ordered
pub mod Searches
pub mod Lesser
pub mod Greater
use evalyn_os.Base.{ℕ, zero, suc, ◌-◌, ◌^◌, ◌==◌, ltb, if◌then◌else◌, Bool, Option, some, none}

-- The links of `rbtree_node_t` that a search follows, for every node, with the fields of `rbtree_t`.
pub record Nodes : Type 0 where
  pub left : ℕ → ℕ
  pub right : ℕ → ℕ
  pub root : ℕ
  pub value_of_node : ℕ → ℕ

-- The loop of `rbtree_minimum`, from a node.
unfoldable pub leftmost : (fuel : ℕ) → Nodes → (node : ℕ) → Option ℕ
leftmost zero s node = none
leftmost (suc k) s node =
    let rest = leftmost k s (s.left node) in if s.left node == 0 then some node else rest

unfoldable pub minimum : (fuel : ℕ) → Nodes → (node : ℕ) → Option ℕ
minimum fuel s node = if node == 0 then some 0 else leftmost fuel s node

-- The loop of `rbtree_maximum`, from a node.
unfoldable pub rightmost : (fuel : ℕ) → Nodes → (node : ℕ) → Option ℕ
rightmost zero s node = none
rightmost (suc k) s node =
    let rest = rightmost k s (s.right node) in if s.right node == 0 then some node else rest

unfoldable pub maximum : (fuel : ℕ) → Nodes → (node : ℕ) → Option ℕ
maximum fuel s node = if node == 0 then some 0 else rightmost fuel s node

unfoldable pub exact_loop : (fuel : ℕ) → Nodes → (query node : ℕ) → Option ℕ
exact_loop zero s query node = none
exact_loop (suc k) s query node =
    let below = exact_loop k s query (s.left node) in
    let above = exact_loop k s query (s.right node) in
    if node == 0
    then some 0
    else if ltb query (s.value_of_node node)
    then below
    else if ltb (s.value_of_node node) query
    then above
    else some node

unfoldable pub search_exact : (fuel : ℕ) → Nodes → (query : ℕ) → Option ℕ
search_exact fuel s query = exact_loop fuel s query s.root

unfoldable pub lesser_loop :
    (fuel : ℕ) → Nodes → (query : ℕ) → (find_equal : Bool) → (node candidate : ℕ) → Option ℕ
lesser_loop zero s query find_equal node candidate = none
lesser_loop (suc k) s query find_equal node candidate =
    let right = lesser_loop k s query find_equal (s.right node) node in
    let left = lesser_loop k s query find_equal (s.left node) candidate in
    if node == 0
    then some candidate
    else if ltb (s.value_of_node node) query
    then right
    else if ltb query (s.value_of_node node)
    then left
    else if find_equal
    then some node
    else if s.left node == 0
    then some candidate
    else maximum k s (s.left node)

unfoldable pub search_lesser : (fuel : ℕ) → Nodes → (query : ℕ) → (find_equal : Bool) → Option ℕ
search_lesser fuel s query find_equal = lesser_loop fuel s query find_equal s.root 0

unfoldable pub greater_loop :
    (fuel : ℕ) → Nodes → (query : ℕ) → (find_equal : Bool) → (node candidate : ℕ) → Option ℕ
greater_loop zero s query find_equal node candidate = none
greater_loop (suc k) s query find_equal node candidate =
    let left = greater_loop k s query find_equal (s.left node) node in
    let right = greater_loop k s query find_equal (s.right node) candidate in
    if node == 0
    then some candidate
    else if ltb query (s.value_of_node node)
    then left
    else if ltb (s.value_of_node node) query
    then right
    else if find_equal
    then some node
    else if s.right node == 0
    then some candidate
    else minimum k s (s.right node)

unfoldable pub search_greater : (fuel : ℕ) → Nodes → (query : ℕ) → (find_equal : Bool) → Option ℕ
search_greater fuel s query find_equal = greater_loop fuel s query find_equal s.root 0
