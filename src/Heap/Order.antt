-- ===== src/Heap/Order.antt =====
-- heapify and build_heap put no item below a worse one.
use csc.Common.{
  subst, eq→==, ℕ, ◌+◌, ◌*◌, ◌<◌, ◌≤◌, ◌≡◌, refl, ap, Bool, true, false, ◌&&◌, ltb, ltb→lt, ◌==◌,
  ==→eq, arith, Bool-cases, inl, inr, ◌⊎◌,
}
use csc.Heap.{Items, node_cost, cost_at, is_better, pick, swap}

module _ (min : Bool) (size : ℕ) where
  -- Item `j` is not better than item `i`.
  abbrev pub InOrder : Items → ℕ → ℕ → Type 0
  InOrder items i j = is_better min (cost_at items j) (cost_at items i) ≡ false

  abbrev pub IsChild : ℕ → ℕ → Type 0
  IsChild p c = ((c ≡ 2 * p + 1) ⊎ (c ≡ 2 * p + 2)) × (c < size)

  -- All parents from `k` on are in order with their children, but for those at `i`; and the parent
  -- of `i` is in order with the children of `i`.
  pub record IsNearly (items : Items) (k i : ℕ) : Type 0 where
    pub others : (p c : ℕ) → k ≤ p → (p ≡ i → ⊥) → IsChild p c → InOrder items p c
    pub around : (p c : ℕ) → k ≤ p → IsChild p i → IsChild i c → InOrder items p c

  abbrev pub IsOrdered : Items → ℕ → Type 0
  IsOrdered items k = (p c : ℕ) → k ≤ p → IsChild p c → InOrder items p c

  better_asym : (a b : ℕ) → is_better min a b ≡ true → is_better min b a ≡ false
  unfolding is_better
  better_asym a b h = ground arith

  pub better_trans :
      (a b c : ℕ)
      → is_better min a b ≡ false
      → is_better min b c ≡ false
      → is_better min a c ≡ false
  unfolding is_better
  better_trans a b c h k = ground arith

  better_skip :
      (a b c : ℕ) → is_better min a c ≡ true → is_better min b c ≡ false → is_better min b a ≡ false
  unfolding is_better
  better_skip a b c h k = ground arith

  -- The place that heapify picks.
  abbrev pub picked : Items → ℕ → ℕ
  picked items i = pick min size items (2 * i + 2) (pick min size items (2 * i + 1) i)

  -- It is a child that is better than the parent and not worse than the other child, or the parent
  -- is in order.
  pub data Choice (items : Items) (i : ℕ) : ℕ → Type 0 where
    stays : ((c : ℕ) → IsChild i c → InOrder items i c) → Choice items i i
    moves :
        {m : ℕ}
        → IsChild i m
        → is_better min (cost_at items m) (cost_at items i) ≡ true
        → ((c : ℕ) → IsChild i c → InOrder items m c)
        → Choice items i m

  better_chain :
      (a b c : ℕ) → is_better min a b ≡ true → is_better min b c ≡ true → is_better min a c ≡ true
  unfolding is_better
  better_chain a b c h k = ground arith

  pub better_irrefl : (a : ℕ) → is_better min a a ≡ false
  unfolding is_better
  better_irrefl a = ground arith

  -- The test of pick.
  abbrev test : Items → ℕ → ℕ → Bool
  test items c best = ltb c size && is_better min (cost_at items c) (cost_at items best)

  taken :
      (items : Items) (c best : ℕ)
      → test items c best ≡ true
      → (c < size) × (is_better min (cost_at items c) (cost_at items best) ≡ true)
  taken items c best h = ground (arith, ltb→lt c size)

  left_out :
      (items : Items) (c best : ℕ)
      → test items c best ≡ false
      → c < size
      → is_better min (cost_at items c) (cost_at items best) ≡ false
  left_out items c best h below = ground arith

  module _ (items : Items) (i : ℕ) where
    abbrev pub l : ℕ
    l = 2 * i + 1

    abbrev pub r : ℕ
    r = 2 * i + 2

    -- A statement on both children.
    both :
        (m : ℕ)
        → (l < size → InOrder items m l)
        → (r < size → InOrder items m r)
        → (c : ℕ) → IsChild i c
        → InOrder items m c
    both m hl hr c (side, below) = elim side [
      | inl e ↦ rw e (hl (omega arith))
      | inr e ↦ rw e (hr (omega arith))
    ]

    pub choice : Choice items i (picked items i)
    unfolding pick
    choice = elim (Bool-cases (test items l i)) [
      | inl tl ↦ elim (Bool-cases (test items r l)) [
        | inl tr ↦
            let (il, bl) = taken items l i tl in
            let (ir, br) = taken items r l tr in
            rw (tl, tr)
              (Choice.moves (inr refl, ir)
                (better_chain (cost_at items r) (cost_at items l) (cost_at items i) br bl)
                (both r (λ b. better_asym (cost_at items r) (cost_at items l) br)
                  (λ b. better_irrefl (cost_at items r))))
        | inr tr ↦
            let (il, bl) = taken items l i tl in
            rw (tl, tr)
              (Choice.moves (inl refl, il) bl
                (both l (λ b. better_irrefl (cost_at items l)) (left_out items r l tr)))
      ]
      | inr tl ↦ elim (Bool-cases (test items r i)) [
        | inl tr ↦
            let (ir, br) = taken items r i tr in
            rw (tl, tr)
              (Choice.moves (inr refl, ir) br
                (both r
                  (λ b.
                    better_skip (cost_at items r) (cost_at items l) (cost_at items i) br
                      (left_out items l i tl b))
                  (λ b. better_irrefl (cost_at items r))))
        | inr tr ↦
            rw (tl, tr) (Choice.stays (both i (left_out items l i tl) (left_out items r i tr)))
      ]
    ]

    -- After the swap with `m`, what is out of order is at `m` at most.
    module _ (m k : ℕ) (child : IsChild i m)
        (better : is_better min (cost_at items m) (cost_at items i) ≡ true)
        (best : (c : ℕ) → IsChild i c → InOrder items m c) (nearly : IsNearly items k i) where
      abbrev pub after : Items
      after = swap items i m

      below : (p c : ℕ) → IsChild p c → p < c
      below p c (side, s) = elim side [ inl e ↦ omega arith | inr e ↦ omega arith ]

      one_parent : (p q c : ℕ) → IsChild p c → IsChild q c → p ≡ q
      one_parent p q c (s, a) (t, b) = elim s [
        | inl e ↦ elim t [ inl f ↦ omega arith | inr f ↦ omega arith ]
        | inr e ↦ elim t [ inl f ↦ omega arith | inr f ↦ omega arith ]
      ]

      cost-m : cost_at after m ≡ cost_at items i
      cost-m = ap node_cost item
        where
          item : after m ≡ items i
          item = let same : (m == m) ≡ true = eq→== m m refl in rw (swap, same) refl

      cost-i : cost_at after i ≡ cost_at items m
      cost-i = ap node_cost item
        where
          item : after i ≡ items m
          item =
              let lower : i < m = below i m child in
              let other : (m == i) ≡ false = ground arith in
              let same : (i == i) ≡ true = eq→== i i refl in rw (swap, other, same) refl

      cost-other : (j : ℕ) → (m == j) ≡ false → (i == j) ≡ false → cost_at after j ≡ cost_at items j
      cost-other j a b = ap node_cost item
        where
          item : after j ≡ items j
          item = rw (swap, a, b) refl

      at_parent : (c : ℕ) → IsChild i c → InOrder after i c
      at_parent c h = elim (Bool-cases (m == c)) [
        | inl e ↦
            let same : m ≡ c = ==→eq m c e in
            subst (InOrder after i) same
              (rw (cost-m, cost-i) (better_asym (cost_at items m) (cost_at items i) better))
        | inr e ↦
            let lower : i < c = below i c h in rw (cost-i, cost-other c e (ground arith)) (best c h)
      ]

      elsewhere : (p c : ℕ) → k ≤ p → (p ≡ m → ⊥) → (p ≡ i → ⊥) → IsChild p c → InOrder after p c
      elsewhere p c low pm pi h = elim (Bool-cases (i == c)) [
        | inl e ↦
            let same : i ≡ c = ==→eq i c e in
            subst (InOrder after p) same (
              rw (cost-i, cost-other p (ground arith) (ground arith))
                (nearly.around p m low (rw same h) child))
        | inr e ↦ elim (Bool-cases (m == c)) [
          | inl f ↦ absurd (pi (one_parent p i c h (subst (IsChild i) (==→eq m c f) child)))
          | inr f ↦
              rw (cost-other c f e, cost-other p (ground arith) (ground arith))
                (nearly.others p c low pi h)
        ]
      ]

      pub swap-IsNearly : IsNearly after k m
      swap-IsNearly = record {
        others = λ p c low pm h. elim (Bool-cases (p == i)) [
          | inl e ↦
              let same : i ≡ p = ground arith in
              subst (λ q. InOrder after q c) same (at_parent c (rw same h))
          | inr e ↦ elsewhere p c low pm (ground arith) h
        ];
        around = λ p c low h g.
            let same : i ≡ p = one_parent i p m child h in
            let lower : i < m = below i m child in
            let deeper : m < c = below m c g in
            subst (λ q. InOrder after q c) same
              (rw (cost-i, cost-other c (ground arith) (ground arith))
                (nearly.others m c (omega arith) (λ e. omega arith) g));
      }
