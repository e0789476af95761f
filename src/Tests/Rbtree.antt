-- ===== src/Tests/Rbtree.antt =====
-- A tree of three nodes.
use evalyn_os.Base.{ℕ, ◌≡◌, ◌*◌, ◌==◌, if◌then◌else◌, refl, arith, true, false, some}
use evalyn_os.Structures.Rbtree.{
  Nodes, search_exact, lesser_loop, search_lesser, greater_loop, search_greater, leftmost, minimum,
  rightmost, maximum,
}
use evalyn_os.Structures.Rbtree.Ordered.{Tree, leaf, branch, Holds, Sorted}
use evalyn_os.Structures.Rbtree.Searches.{Exact, search_exact-Exact}
use evalyn_os.Structures.Rbtree.Greater.{NearestAbove, search_greater-NearestAbove}
use evalyn_os.Structures.Rbtree.Lesser.{Nearest, search_lesser-Nearest}

-- 8 and 24 below 16, with ten times their addresses as values.
abbrev three : Nodes
three = record {
  left = λ n. if n == 16 then 8 else 0;
  right = λ n. if n == 16 then 24 else 0;
  root = 16;
  value_of_node = λ n. 10 * n;
}

abbrev shape : Tree
shape = branch (branch leaf 8 leaf) 16 (branch leaf 24 leaf)

three-Holds : Holds three shape 16
three-Holds = (refl, refl, (refl, refl, refl, refl), (refl, refl, refl, refl))

shape-Sorted : Sorted three.value_of_node shape
shape-Sorted = ((tt, tt, tt, tt), (tt, tt, tt, tt), (tt, omega arith, tt), (tt, omega arith, tt))

search_exact-Exact_example :
    (r : ℕ) × (search_exact 4 three 240 ≡ some r) × Exact three.value_of_node 240 shape r
search_exact-Exact_example =
    search_exact-Exact three 240 4 shape three-Holds shape-Sorted (omega arith)

search_lesser-Nearest_example :
    (r : ℕ) × (search_lesser 4 three 160 false ≡ some r)
    × Nearest three.value_of_node false 160 shape 0 r
search_lesser-Nearest_example =
    search_lesser-Nearest three 160 false 4 shape three-Holds shape-Sorted (omega arith)

lesser_run : search_lesser 4 three 160 false ≡ some 8
unfolding search_lesser lesser_loop maximum rightmost
lesser_run = refl

greater_run : search_greater 4 three 161 true ≡ some 24
unfolding search_greater greater_loop minimum leftmost
greater_run = refl

search_greater-NearestAbove_example :
    (r : ℕ) × (search_greater 4 three 161 true ≡ some r)
    × NearestAbove three.value_of_node true 161 shape 0 r
search_greater-NearestAbove_example =
    search_greater-NearestAbove three 161 true 4 shape three-Holds shape-Sorted (omega arith)
