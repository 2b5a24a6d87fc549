-- ===== src/Heap/Root.antt =====
-- build_heap and extract_heap_root keep the heap in order, so its root is a best item.
use csc.Common.{
  subst, eq→==, ℕ, zero, suc, ◌+◌, ◌-◌, ◌*◌, ◌/◌, ◌<◌, ◌≤◌, ◌≡◌, refl, ap, Bool, true, false, none,
  ◌==◌, ==→eq, if◌then◌else◌, arith, Bool-cases, inl, inr, ◌⊎◌,
}
use csc.Heap.{
  Items, Heap, node_cost, cost_at, set_item, is_better, swap, heapify_items, heapify, heapify_down,
  build_heap, extract_heap_root,
}
use csc.Heap.Order.{
  InOrder, IsChild, IsNearly, IsOrdered, Choice, choice, picked, swap-IsNearly, better_trans,
  better_irrefl,
}

module _ (min : Bool) (size : ℕ) where
  -- What a run of heapify with this fuel does, if the fuel is enough.
  abbrev Restores : ℕ → Type 0
  Restores fuel =
      (items : Items) (i k : ℕ)
      → IsNearly min size items k i
      → size ≤ fuel + i
      → IsOrdered min size (heapify_items fuel min size items i) k

  moved :
      (fuel : ℕ) (items : Items) (i k : ℕ)
      → Restores fuel
      → IsNearly min size items k i
      → size ≤ suc fuel + i
      → (m : ℕ) → Choice min size items i m
      → IsOrdered min size
          (if i == m then items else heapify_items fuel min size (swap items i m) m)
          k
  moved fuel items i k later near enough _ (Choice.stays here) =
      let same : (i == i) ≡ true = eq→== i i refl in
      rw same λ p c low h. elim (Bool-cases (p == i)) [
        | inl e ↦
            let at : i ≡ p = ground arith in
            subst (λ q. InOrder min size items q c) at (here c (rw at h))
        | inr e ↦ near.others p c low (ground arith) h
      ]
  moved fuel items i k later near enough m (Choice.moves child better best) =
      let lower : i < m = deeper child in
      let other : (i == m) ≡ false = ground arith in
      rw other (
        later (swap items i m) m k (swap-IsNearly min size items i m k child better best near)
          (omega arith))
    where
      deeper : IsChild min size i m → i < m
      deeper (side, s) = elim side [ inl e ↦ omega arith | inr e ↦ omega arith ]

  -- heapify at the one place that is out of order restores the order.
  heapify_lem : (fuel : ℕ) → Restores fuel
  unfolding heapify_items
  heapify_lem zero items i k near enough =
      λ p c low h. near.others p c low (λ e. beyond_size p c e h) h
    where
      beyond_size : (p c : ℕ) → p ≡ i → IsChild min size p c → ⊥
      beyond_size p c e (side, below) = elim side [ inl f ↦ omega arith | inr f ↦ omega arith ]
  heapify_lem (suc fuel) items i k near enough =
      moved fuel items i k (heapify_lem fuel) near enough (picked min size items i)
        (choice min size items i)

  from_next :
      (items : Items) (k : ℕ) → IsOrdered min size items (suc k) → IsNearly min size items k k
  from_next items k h = record {
    others = λ p c low other g. h p c (apart p low other) g;
    around = λ p c low g h'. absurd (no_parent p low g);
  }
    where
      apart : (p : ℕ) → k ≤ p → (p ≡ k → ⊥) → suc k ≤ p
      apart p low other = elim (Bool-cases (p == k)) [
        | inl e ↦ absurd (other (==→eq p k e))
        | inr e ↦ ground arith
      ]

      no_parent : (p : ℕ) → k ≤ p → IsChild min size p k → ⊥
      no_parent p low (side, s) = elim side [ inl e ↦ omega arith | inr e ↦ omega arith ]

  -- In an ordered heap nothing is better than the root.
  root_best :
      (items : Items)
      → IsOrdered min size items 0
      → (n j : ℕ) → j ≤ n
      → j < size
      → is_better min (cost_at items j) (cost_at items 0) ≡ false
  root_best items h n zero low below = better_irrefl min size (cost_at items 0)
  root_best items h zero (suc j) low below = absurd (omega arith)
  root_best items h (suc n) (suc j) low below =
      let parent : InOrder min size items (j / 2) (suc j) =
        h (j / 2) (suc j) (omega arith) (side, below) in
      better_trans min size (cost_at items (suc j)) (cost_at items (j / 2)) (cost_at items 0) parent
        (root_best items h n (j / 2) (omega arith) (omega arith))
    where
      side : (suc j ≡ 2 * (j / 2) + 1) ⊎ (suc j ≡ 2 * (j / 2) + 2)
      side = ground arith

abbrev pub IsHeap : Heap → Type 0
IsHeap heap = IsOrdered heap.min heap.size heap.items 0

down_lem :
    (k : ℕ) (heap : Heap) → IsOrdered heap.min heap.size heap.items k → IsHeap (heapify_down k heap)
unfolding heapify_down heapify
down_lem zero heap h = h
down_lem (suc k) heap h = down_lem k (heapify heap k) (
    heapify_lem heap.min heap.size heap.size heap.items k k
      (from_next heap.min heap.size heap.items k h) (omega arith))

-- build_heap orders any items: afterwards no child is better than its parent.
pub build_heap-IsHeap : (heap : Heap) → IsHeap (build_heap heap)
unfolding build_heap
build_heap-IsHeap heap = down_lem heap.size heap λ p c low h. absurd (beyond p c low h)
  where
    beyond : (p c : ℕ) → heap.size ≤ p → IsChild heap.min heap.size p c → ⊥
    beyond p c low (side, s) = elim side [ inl e ↦ omega arith | inr e ↦ omega arith ]

-- The heap with its last item in the place of the root is out of order there at most.
without_root : Heap → Items
without_root heap =
    set_item (set_item heap.items 0 (heap.items (heap.size - 1))) (heap.size - 1) none

without_root-IsNearly :
    (heap : Heap)
    → IsHeap heap
    → 0 < heap.size
    → IsNearly heap.min (heap.size - 1) (without_root heap) 0 0
unfolding without_root
without_root-IsNearly heap h filled = record {
  others = λ p c low other child.
      let (deep, (here, there)) = places p c other child in
      let wider : IsChild heap.min heap.size p c = (child.0, there) in
      rw
        (
          ap node_cost (untouched p (ground arith) (omega arith)),
          ap node_cost (untouched c (ground arith) (omega arith)),
        )
        (h p c low wider);
  around = λ p c low child g. absurd (no_parent p child);
}
  where
    places :
        (p c : ℕ)
        → (p ≡ 0 → ⊥)
        → IsChild heap.min (heap.size - 1) p c
        → (0 < p) × ((p < c) × (c < heap.size))
    places p c other (side, s) = elim (Bool-cases (p == 0)) [
      | inl e ↦ absurd (other (==→eq p 0 e))
      | inr e ↦ elim side [
        | inl f ↦ (ground arith, (omega arith, omega arith))
        | inr f ↦ (ground arith, (omega arith, omega arith))
      ]
    ]

    no_parent : (p : ℕ) → IsChild heap.min (heap.size - 1) p 0 → ⊥
    no_parent p (side, s) = elim side [ inl e ↦ omega arith | inr e ↦ omega arith ]

    untouched : (j : ℕ) → 0 < j → j < heap.size - 1 → without_root heap j ≡ heap.items j
    untouched j low high =
        let first : (0 == j) ≡ false = ground arith in
        let last : (heap.size - 1 == j) ≡ false = ground arith in
        rw (without_root, set_item, last, first) refl

-- Taking the root returns it and leaves a heap; no item of the heap was better.
pub extract_heap_root_lem :
    (heap : Heap)
    → IsHeap heap
    → 0 < heap.size
    → ((extract_heap_root heap).0 ≡ heap.items 0)
      × IsHeap (extract_heap_root heap).1
      × ((j : ℕ)
          → j < heap.size
          → is_better heap.min (cost_at heap.items j) (cost_at heap.items 0) ≡ false)
unfolding extract_heap_root heapify without_root
extract_heap_root_lem heap h filled =
    let some_items : (heap.size == 0) ≡ false = ground arith in
    (
      rw some_items refl,
      rw some_items (
          heapify_lem heap.min (heap.size - 1) (heap.size - 1) (without_root heap) 0 0
            (without_root-IsNearly heap h filled) (omega arith)),
      λ j below. root_best heap.min heap.size heap.items h j j (omega arith) below,
    )
