-- ===== src/Tests/Structures.antt =====
-- Linked lists of nodes at small addresses.
use evalyn_os.Base.{ℕ, ◌≡◌, refl, [], ◌∷◌, ◌++◌, List}
use evalyn_os.Structures.Llist.{
  Store, node_append, node_prepend, node_delete, push_front, push_back, pop_front, pop_back,
}
use evalyn_os.Structures.Llist.Refinement.{IsList, node_delete-IsList}
use evalyn_os.Structures.Llist.Insert.{node_append-IsList, node_prepend-IsList}
use evalyn_os.Structures.Llist.Ends.{push_front-IsList, push_back-IsList, pops-IsList}

abbrev empty : Store
empty = record { next = λ x. 0; prev = λ x. 0; head = 0; tail = 0; count = 0 }

empty-IsList : IsList empty []
empty-IsList = record {
  linked = tt;
  head_at = refl;
  tail_at = refl;
  counted = refl;
  distinct = tt;
  nonnull = refl;
}

-- 8, 16 and 24, in this order.
abbrev three : Store
three = push_back (push_front (push_front empty 16) 8) 24

one-IsList : IsList (push_front empty 16) (16 ∷ [])
one-IsList = push_front-IsList empty [] 16 refl refl empty-IsList

push_front-IsList_at_work : IsList (push_front (push_front empty 16) 8) (8 ∷ 16 ∷ [])
push_front-IsList_at_work = push_front-IsList (push_front empty 16) (16 ∷ []) 8 refl refl one-IsList

two-IsList : IsList (push_front (push_front empty 16) 8) (8 ∷ 16 ∷ [])
two-IsList = push_front-IsList (push_front empty 16) (16 ∷ []) 8 refl refl one-IsList

push_back-IsList_at_work : IsList three (8 ∷ 16 ∷ 24 ∷ [])
push_back-IsList_at_work =
    push_back-IsList (push_front (push_front empty 16) 8) (8 ∷ 16 ∷ []) 24 refl refl two-IsList

three-IsList : IsList three (8 ∷ 16 ∷ 24 ∷ [])
three-IsList =
    push_back-IsList (push_front (push_front empty 16) 8) (8 ∷ 16 ∷ []) 24 refl refl two-IsList

pop_run : (pop_back (node_delete three 24)).0 ≡ 16
unfolding pop_back push_back push_front
pop_run = refl

node_delete-IsList_example :
    IsList (node_delete three 16) (8 ∷ 24 ∷ [])
    × ((node_delete three 16).next 16 ≡ 16)
    × ((node_delete three 16).prev 16 ≡ 16)
node_delete-IsList_example = node_delete-IsList three (8 ∷ []) (24 ∷ []) 16 three-IsList

node_append-IsList_example : IsList (node_append three 16 32) (8 ∷ 16 ∷ 32 ∷ 24 ∷ [])
node_append-IsList_example =
    node_append-IsList three (8 ∷ []) (24 ∷ []) 16 32 refl refl three-IsList

node_prepend-IsList_at_work : IsList (node_prepend three 16 32) (8 ∷ 32 ∷ 16 ∷ 24 ∷ [])
node_prepend-IsList_at_work =
    node_prepend-IsList three (8 ∷ []) (24 ∷ []) 16 32 refl refl three-IsList

pops-IsList_example :
    (IsList three [] → (pop_front three ≡ (0, three)) × (pop_back three ≡ (0, three)))
    × ((x : ℕ) (q : List ℕ)
        → IsList three (x ∷ q)
        → ((pop_front three).0 ≡ x) × IsList (pop_front three).1 q)
    × ((q : List ℕ) (x : ℕ)
        → IsList three (q ++ x ∷ [])
        → ((pop_back three).0 ≡ x) × IsList (pop_back three).1 q)
pops-IsList_example = pops-IsList three
