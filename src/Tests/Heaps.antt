-- ===== src/Tests/Heaps.antt =====
-- A min heap of three nodes.
use csc.Common.{ℕ, ◌<◌, ◌≡◌, refl, Bool, true, false, Option, none, some, arith}
use csc.Heap.{
  Gnode, Heap, cost_at, is_better, create_empty_heap, add_to_heap, build_heap, extract_heap_root,
  heapify, heapify_down,
}
use csc.Heap.Root.{IsHeap, build_heap-IsHeap, extract_heap_root_lem}
use csc.Heap.Kept.{occurrences, build_heap_keeps}

abbrev three : Heap
three =
    add_to_heap (record { id = 2; cost = 4 })
      (add_to_heap (record { id = 1; cost = 7 })
        (add_to_heap (record { id = 0; cost = 9 }) (create_empty_heap true)))

build_heap-IsHeap_example : IsHeap (build_heap three)
build_heap-IsHeap_example = build_heap-IsHeap three

-- The cheapest node comes first.
cheapest : (extract_heap_root (build_heap three)).0 ≡ some (record { id = 2; cost = 4 })
unfolding extract_heap_root build_heap add_to_heap create_empty_heap
cheapest = refl

extract_heap_root_lem_example :
    ((extract_heap_root (build_heap three)).0 ≡ (build_heap three).items 0)
    × IsHeap (extract_heap_root (build_heap three)).1
    × ((j : ℕ)
        → j < (build_heap three).size
        → is_better
            (build_heap three).min
            (cost_at (build_heap three).items j)
            (cost_at (build_heap three).items 0)
          ≡ false)
unfolding build_heap heapify_down heapify add_to_heap create_empty_heap
extract_heap_root_lem_example =
    extract_heap_root_lem (build_heap three) (build_heap-IsHeap three) (omega arith)

abbrev is_cheap : Option Gnode → Bool
is_cheap none = false
is_cheap (some g) = is_better true g.cost 8

build_heap_keeps_example :
    occurrences is_cheap three.size (build_heap three).items
    ≡ occurrences is_cheap three.size three.items
build_heap_keeps_example = build_heap_keeps is_cheap three
