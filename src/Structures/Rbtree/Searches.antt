-- ===== src/Structures/Rbtree/Searches.antt =====
-- What the searches find in an ordered tree.
use evalyn_os.Base.{ℕ, zero, suc, ◌<◌, ◌≡◌, ◌≢◌, inl, inr, refl, ltb, true, arith, some, Bool-cases}
use evalyn_os.Structures.Rbtree.{Nodes, exact_loop, search_exact}
use evalyn_os.Structures.Rbtree.Ordered.{
  Tree, leaf, branch, size, Holds, All, All-map, Sorted, In, at, on_left, on_right,
}

-- The node with the value, or `nullptr` if no node has it.
pub data Exact (value : ℕ → ℕ) (query : ℕ) (t : Tree) : ℕ → Type 0 where
  missing : All (λ x. value x ≢ query) t → Exact value query t 0
  found : (r : ℕ) → In r t → value r ≡ query → Exact value query t r

exact_loop-Exact :
    (s : Nodes) (query fuel : ℕ) (t : Tree) (p : ℕ)
    → Holds s t p
    → Sorted s.value_of_node t
    → size t < fuel
    → (r : ℕ) × (exact_loop fuel s query p ≡ some r) × Exact s.value_of_node query t r
unfolding exact_loop
exact_loop-Exact s query zero t p h sorted lt = absurd (omega (arith, lt))
exact_loop-Exact s query (suc k) leaf p h sorted lt = (0, rw h refl, missing tt)
exact_loop-Exact s query (suc k) (branch l n r) p h sorted lt =
    let v = s.value_of_node in
    elim (Bool-cases (ltb query (v n))) [
      | inl below ↦
          let (x, e, ex) =
            exact_loop-Exact s query k l (s.left n) h.2 sorted.0 (omega (arith, lt)) in
          (x, rw (h.0, h.1, below) e, go_left below x ex)
      | inr not_below ↦ elim (Bool-cases (ltb (v n) query)) [
        | inl above ↦
            let (x, e, ex) =
              exact_loop-Exact s query k r (s.right n) h.3 sorted.1 (omega (arith, lt)) in
            (x, rw (h.0, h.1, not_below, above) e, go_right above x ex)
        | inr not_above ↦ (
          n,
          rw (h.0, h.1, not_below, not_above) refl,
          found n (at l r) (ground (arith, not_below, not_above)),
        )
      ]
    ]
  where
    go_left :
        ltb query (s.value_of_node n) ≡ true
        → (x : ℕ) → Exact s.value_of_node query l x
        → Exact s.value_of_node query (branch l n r) x
    go_left below _ (missing a) = missing (
      a,
      (λ e. ground (arith, below, e)),
      All-map r (λ x big e. ground (arith, below, big, e)) sorted.3,
    )
    go_left below _ (found x i e) = found x (on_left l r n i) e

    go_right :
        ltb (s.value_of_node n) query ≡ true
        → (x : ℕ) → Exact s.value_of_node query r x
        → Exact s.value_of_node query (branch l n r) x
    go_right above _ (missing a) = missing (
      All-map l (λ x little e. ground (arith, above, little, e)) sorted.2,
      (λ e. ground (arith, above, e)),
      a,
    )
    go_right above _ (found x i e) = found x (on_right l r n i) e

-- With more fuel than nodes, rbtree_search_exact returns in an ordered tree, and finds the node
-- with the value, or nullptr if no node has it.
pub search_exact-Exact :
    (s : Nodes) (query fuel : ℕ) (t : Tree)
    → Holds s t s.root
    → Sorted s.value_of_node t
    → size t < fuel
    → (r : ℕ) × (search_exact fuel s query ≡ some r) × Exact s.value_of_node query t r
unfolding search_exact
search_exact-Exact s query fuel t h sorted lt = exact_loop-Exact s query fuel t s.root h sorted lt
