-- ===== src/Structures/Llist.antt =====
-- kernel/src/utils/dstruct/llist.c: the intrusive doubly linked list. A node is its address, 0 is
-- `nullptr`, and the store holds the links of every node of the memory.
pub mod Links
pub mod Edges
pub mod Refinement
pub mod Insert
pub mod Ends
use evalyn_os.Base.{ℕ, ◌+◌, ◌-◌, ◌%◌, ◌^◌, ◌==◌, if◌then◌else◌, Bool, true, false, ◌&&◌}
use evalyn_os.Base.Maps.{update}

-- The fields of `llist_node_t`, for every node, and those of one `llist_t`.
pub record Store : Type 0 where
  pub next : ℕ → ℕ
  pub prev : ℕ → ℕ
  pub head : ℕ
  pub tail : ℕ
  pub count : ℕ

-- `if(node != nullptr) node->next = value;`, and the same of `prev`
abbrev pub link : (ℕ → ℕ) → (node value : ℕ) → ℕ → ℕ
link links node value = if node == 0 then links else update links node value

unfoldable pub initial_node : Store → (node : ℕ) → Store
initial_node s node = record {
  next = update s.next node 0;
  prev = update s.prev node 0;
  head = node;
  tail = node;
  count = 1;
}

unfoldable pub node_append : Store → (pos node : ℕ) → Store
node_append s pos node =
    let a = record s { next = update s.next node (s.next pos); prev = update s.prev node pos } in
    let b = record a { next = update a.next pos node } in
    let c = record b { prev = link b.prev (b.next node) node } in
    record c { tail = if c.tail == pos then node else c.tail; count = (c.count + 1) % 2 ^ 64 }

unfoldable pub node_prepend : Store → (pos node : ℕ) → Store
node_prepend s pos node =
    let a = record s { next = update s.next node pos; prev = update s.prev node (s.prev pos) } in
    let b = record a { prev = update a.prev pos node } in
    let c = record b { next = link b.next (b.prev node) node } in
    record c { head = if c.head == pos then node else c.head; count = (c.count + 1) % 2 ^ 64 }

-- The deleted node is linked to itself.
unfoldable pub node_delete : Store → (node : ℕ) → Store
node_delete s node =
    let a = record s {
      head = if s.head == node then s.next node else s.head;
      tail = if s.tail == node then s.prev node else s.tail;
      count = (s.count + 2 ^ 64 - 1) % 2 ^ 64;
    } in
    let b = record a { next = link a.next (a.prev node) (a.next node) } in
    let c = record b { prev = link b.prev (b.next node) (b.prev node) } in
    record c { next = update c.next node node; prev = update c.prev node node }

unfoldable pub node_try_delete : Store → (node : ℕ) → Bool × Store
unfolding node_delete
node_try_delete s node =
    if s.next node == node && s.prev node == node then (false, s) else (true, node_delete s node)

unfoldable pub push_front : Store → (node : ℕ) → Store
unfolding initial_node node_prepend
push_front s node = if s.head == 0 then initial_node s node else node_prepend s s.head node

unfoldable pub push_back : Store → (node : ℕ) → Store
unfolding initial_node node_append
push_back s node = if s.tail == 0 then initial_node s node else node_append s s.tail node

unfoldable pub pop_front : Store → ℕ × Store
unfolding node_delete
pop_front s = if s.head == 0 then (0, s) else (s.head, node_delete s s.head)

unfoldable pub pop_back : Store → ℕ × Store
unfolding node_delete
pop_back s = if s.tail == 0 then (0, s) else (s.tail, node_delete s s.tail)
