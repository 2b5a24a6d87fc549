-- ===== src/Heap/Kept.antt =====
-- heapify and build_heap only move items: they keep how often each kind of item occurs.
use csc.Common.{
  ℕ, zero, suc, ◌+◌, ◌*◌, ◌<◌, ◌≤◌, ◌≡◌, refl, ap, ◌∙◌, Bool, true, false, Option, ltb→lt, ◌==◌,
  ==→eq, eq→==, if◌then◌else◌, arith, Bool-cases, inl, inr, ◌⊎◌, bit, count_below,
}
use csc.Heap.{
  Gnode, Items, Heap, set_item, pick, swap, heapify_items, heapify, heapify_down, build_heap,
}

module _ (P : Option Gnode → Bool) where
  -- How many of the first `n` items satisfy `P`.
  abbrev pub occurrences : ℕ → Items → ℕ
  occurrences n items = count_below n (λ j. P (items j))

  item_other :
      (items : Items) (i j : ℕ) (x : Option Gnode)
      → (i == j) ≡ false
      → set_item items i x j ≡ items j
  item_other items i j x h = rw (set_item, h) refl

  item_same : (items : Items) (i : ℕ) (x : Option Gnode) → set_item items i x i ≡ x
  item_same items i x = rw (set_item, eq→== i i refl) refl

  set_beyond :
      (n : ℕ) (items : Items) (i : ℕ) (x : Option Gnode)
      → n ≤ i
      → occurrences n (set_item items i x) ≡ occurrences n items
  set_beyond zero items i x h = refl
  set_beyond (suc n) items i x h = omega (
    arith,
    set_beyond n items i x (omega arith),
    ap (λ y. bit (P y)) (item_other items i n x (ground arith)),
  )

  set_lem :
      (n : ℕ) (items : Items) (i : ℕ) (x : Option Gnode)
      → i < n
      → occurrences n (set_item items i x) + bit (P (items i)) ≡ occurrences n items + bit (P x)
  set_lem zero items i x h = absurd (omega arith)
  set_lem (suc n) items i x h = elim (Bool-cases (i == n)) [
    | inl e ↦
        let at : i ≡ n = ==→eq i n e in
        omega (
          arith,
          set_beyond n items i x (omega arith),
          ap (λ y. bit (P y)) (item_same items i x),
          ap (λ y. bit (P (set_item items i x y))) at,
          ap (λ y. bit (P (items y))) at,
        )
    | inr e ↦
        omega (
          arith,
          set_lem n items i x (ground arith),
          ap (λ y. bit (P y)) (item_other items i n x e),
        )
  ]

  swap_lem :
      (n : ℕ) (items : Items) (i j : ℕ)
      → i < n
      → j < n
      → occurrences n (swap items i j) ≡ occurrences n items
  swap_lem n items i j hi hj = omega (
    arith,
    set_lem n items i (items j) hi,
    set_lem n (set_item items i (items j)) j (items i) hj,
    ap (λ y. bit (P y)) (kept_at (Bool-cases (i == j))),
  )
    where
      kept_at : ((i == j) ≡ true) ⊎ ((i == j) ≡ false) → set_item items i (items j) j ≡ items j
      kept_at (inl e) = rw (set_item, e) refl
      kept_at (inr e) = item_other items i j (items j) e

  pick_below :
      (min : Bool) (size : ℕ) (items : Items) (c best : ℕ)
      → best < size
      → pick min size items c best < size
  unfolding pick
  pick_below min size items c best h = ground (arith, ltb→lt c size)

  heapify_items_lem :
      (fuel : ℕ) (min : Bool) (size : ℕ) (items : Items) (i : ℕ)
      → i < size
      → occurrences size (heapify_items fuel min size items i) ≡ occurrences size items
  unfolding heapify_items
  heapify_items_lem zero min size items i h = refl
  heapify_items_lem (suc fuel) min size items i h =
      let best = pick min size items (2 * i + 2) (pick min size items (2 * i + 1) i) in
      let inside : best < size =
        pick_below min size items (2 * i + 2) (pick min size items (2 * i + 1) i)
          (pick_below min size items (2 * i + 1) i h) in
      one_way (i == best) _ (
        heapify_items_lem fuel min size (swap items i best) best inside
        ∙ swap_lem size items i best h inside)
    where
      one_way :
          (b : Bool) (rest : Items)
          → occurrences size rest ≡ occurrences size items
          → occurrences size (if b then items else rest) ≡ occurrences size items
      one_way true rest e = refl
      one_way false rest e = e

  down_kept :
      (k : ℕ) (heap : Heap)
      → k ≤ heap.size
      → occurrences heap.size (heapify_down k heap).items ≡ occurrences heap.size heap.items
  unfolding heapify_down heapify
  down_kept zero heap h = refl
  down_kept (suc k) heap h =
      down_kept k (heapify heap k) (omega arith)
      ∙ heapify_items_lem heap.size heap.min heap.size heap.items k (omega arith)

  -- build_heap keeps how many of its items have any property: it loses and repeats none.
  pub build_heap_keeps :
      (heap : Heap)
      → occurrences heap.size (build_heap heap).items ≡ occurrences heap.size heap.items
  unfolding build_heap
  build_heap_keeps heap = down_kept heap.size heap (omega arith)
