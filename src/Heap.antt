-- ===== src/Heap.antt =====
-- heap.c: the heap of graph nodes by cost. The array is a function of the index; `none` is NULL.
pub mod Order
pub mod Root
pub mod Kept
use csc.Common.{
  ℕ, zero, suc, ◌+◌, ◌-◌, ◌*◌, Bool, true, false, ◌&&◌, not, Option, none, some, ltb, ◌==◌,
  if◌then◌else◌,
}

-- The fields of `gnode` that the heap and its callers use.
pub record Gnode : Type 0 where
  pub id : ℕ
  pub cost : ℕ

abbrev pub Items : Type 0
Items = ℕ → Option Gnode

pub record Heap : Type 0 where
  pub items : Items
  pub size : ℕ
  pub min : Bool

-- `items[i]->cost`. The code reads it only below the size, where no item is NULL.
abbrev pub node_cost : Option Gnode → ℕ
node_cost none = 0
node_cost (some g) = g.cost

abbrev pub cost_at : Items → ℕ → ℕ
cost_at items i = node_cost (items i)

abbrev pub set_item : Items → ℕ → Option Gnode → Items
set_item items i x j = if i == j then x else items j

unfoldable pub create_empty_heap : Bool → Heap
create_empty_heap min = record { items = λ i. none; size = 0; min = min }

unfoldable pub add_to_heap : Gnode → Heap → Heap
add_to_heap elto heap = record heap {
  items = set_item heap.items heap.size (some elto);
  size = suc heap.size;
}

-- The comparison of a child's cost with another: `<` in a min heap, `>` in a max heap.
unfoldable pub is_better : Bool → ℕ → ℕ → Bool
is_better min a b = if min then ltb a b else ltb b a

-- The test of one child in heapify.
unfoldable pub pick : Bool → ℕ → Items → ℕ → ℕ → ℕ
unfolding is_better
pick min size items child best =
    if ltb child size && is_better min (cost_at items child) (cost_at items best)
    then child
    else best

abbrev pub swap : Items → ℕ → ℕ → Items
swap items i j = set_item (set_item items i (items j)) j (items i)

-- The index grows with each call, so the size is fuel enough.
unfoldable pub heapify_items : ℕ → Bool → ℕ → Items → ℕ → Items
unfolding pick
heapify_items zero min size items i = items
heapify_items (suc fuel) min size items i =
    let best = pick min size items (2 * i + 2) (pick min size items (2 * i + 1) i) in
    let rest = heapify_items fuel min size (swap items i best) best in
    if i == best then items else rest

unfoldable pub heapify : Heap → ℕ → Heap
unfolding heapify_items
heapify heap i = record heap { items = heapify_items heap.size heap.min heap.size heap.items i }

-- `for (int i = k - 1; i >= 0; i--)`.
unfoldable pub heapify_down : ℕ → Heap → Heap
unfolding heapify
heapify_down zero heap = heap
heapify_down (suc k) heap = heapify_down k (heapify heap k)

unfoldable pub build_heap : Heap → Heap
unfolding heapify_down
build_heap heap = heapify_down heap.size heap

unfoldable pub extract_heap_root : Heap → Option Gnode × Heap
unfolding heapify
extract_heap_root heap =
    let last = heap.size - 1 in
    let moved = set_item heap.items 0 (heap.items last) in
    if heap.size == 0
    then (none, heap)
    else (heap.items 0, heapify (record heap { items = set_item moved last none; size = last }) 0)

unfoldable pub peek_heap_root : Heap → Option Gnode
peek_heap_root heap = if heap.size == 0 then none else heap.items 0
