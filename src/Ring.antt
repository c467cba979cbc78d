-- ===== src/Ring.antt =====
-- include/list.h: doubly linked lists that are rings. The heap gives for each node, by its
-- address, the fields `prev` and `next`; the list itself is a node, with `last` and `first` in
-- their place.
pub mod Back
pub mod Chain
pub mod Middle
pub mod Tests
use zeptux.Base.{ℕ, zero, suc, ◌+◌, Bool, true, false, Option, some, none, ◌==◌, if◌then◌else◌}

pub record ListHeap : Type 0 where
  pub prev : ℕ → ℕ
  pub next : ℕ → ℕ

-- `node->prev = value;` and `node->next = value;`
abbrev pub set_prev : ListHeap → ℕ → ℕ → ListHeap
set_prev h node value = record h { prev = λ a. if node == a then value else h.prev a }

abbrev pub set_next : ListHeap → ℕ → ℕ → ListHeap
set_next h node value = record h { next = λ a. if node == a then value else h.next a }

unfoldable pub list_node_init : ListHeap → ℕ → ListHeap
list_node_init h node = set_prev (set_next h node node) node node

unfoldable pub list_init : ListHeap → ℕ → ListHeap
list_init h list = list_node_init h list

unfoldable pub list_empty : ListHeap → ℕ → Bool
list_empty h list = h.next list == list

unfoldable pub list_node_insert_before : ListHeap → ℕ → ℕ → ListHeap
list_node_insert_before h node it =
    let prev = h.prev node in
    let h1 = set_prev h node it in
    let h2 = set_next h1 prev it in let h3 = set_prev h2 it prev in set_next h3 it node

unfoldable pub list_node_insert_after : ListHeap → ℕ → ℕ → ListHeap
list_node_insert_after h node it =
    let next = h.next node in
    let h1 = set_next h node it in
    let h2 = set_prev h1 next it in let h3 = set_prev h2 it node in set_next h3 it next

unfoldable pub list_detach : ListHeap → ℕ → ListHeap
list_detach h node =
    let h1 = set_next h (h.prev node) (h.next node) in
    let h2 = set_prev h1 (h1.next node) (h1.prev node) in
    let h3 = set_prev h2 node node in set_next h3 node node

unfoldable pub list_push_back : ListHeap → ℕ → ℕ → ListHeap
list_push_back h list it = list_node_insert_before h list it

unfoldable pub list_push_front : ListHeap → ℕ → ℕ → ListHeap
list_push_front h list it = list_node_insert_after h list it

-- The loop of `list_count`, on fuel.
unfoldable pub count_from : ℕ → ListHeap → ℕ → ℕ → ℕ → Option ℕ
count_from zero h list node ret = none
count_from (suc fuel) h list node ret =
    let rest = count_from fuel h list (h.next node) (ret + 1) in
    if node == list then some ret else rest

unfoldable pub list_count : ℕ → ListHeap → ℕ → Option ℕ
list_count fuel h list = count_from fuel h list (h.next list) 0
