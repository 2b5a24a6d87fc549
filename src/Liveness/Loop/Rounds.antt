-- ===== src/Liveness/Loop/Rounds.antt =====
-- One visit and one round: either nothing changes and the equations hold, or the sets grow.
use csc.Common.{
  ℕ, zero, suc, ◌+◌, ◌≤◌, ◌<◌, Bool, true, false, ◌&&◌, ◌||◌, not, List, [], ◌∷◌, if◌then◌else◌,
  ◌==◌, ◌≡◌, refl, ap, arith, length, set, length-set, get_or-set, count_below, count_mono,
  count_eq, Bool-cases, inl, inr, ◌⊎◌, ==→eq, eq→==, ◌∙◌, sym, subst, set-get_or,
}
use native.Mathlib.Decide.{dec_lt, ℕ_discrete}
use csc.Set.{Set, are_set_equals}
use csc.Set.Compare.{are_set_equals_iff, equal_members}
use csc.Liveness.Loop.{Flow, no_flow, flow, Round, visit_block, visit_blocks}
use csc.Liveness.Loop.Growth.{
  has, Within, live_after, live_before, IsFormed, IsBelow, visited, new_out, new_in, new_out_lem,
  new_in_lem, visited_out, visited_in, visited-IsFormed, out_grows, in_grows,
}

module _ (n : ℕ) where
  abbrev pub score : Flow → ℕ
  score b = count_below n (has n b.in_set) + count_below n (has n b.out)

  -- What the analysis does not change.
  abbrev pub fixed : Flow → List ℕ × Set × Set
  fixed b = (b.children, b.def, b.use_set)

  -- The equations of liveness at block `k`.
  pub record IsBalanced (fs : List Flow) (k : ℕ) : Type 0 where
    pub out_balanced :
        (v : ℕ) → has n (flow n fs k).out v ≡ live_after n fs (flow n fs k).children v
    pub in_balanced :
        (v : ℕ)
        → has n (flow n fs k).in_set v ≡ live_before n (flow n fs k) (has n (flow n fs k).out) v

  live_after_mono :
      (fs gs : List Flow)
      → ((j : ℕ) → Within n (has n (flow n fs j).in_set) (has n (flow n gs j).in_set))
      → (cs : List ℕ) → Within n (live_after n fs cs) (live_after n gs cs)
  live_after_mono fs gs h [] v m = cc
  live_after_mono fs gs h (c ∷ rest) v m = ground (arith, h c v, live_after_mono fs gs h rest v)

  module _ (fs : List Flow) (k : ℕ) (inside : k < length fs) (h : IsBelow n fs) where
    abbrev after : List Flow
    after = set fs k (visited n fs k)

    flow-after : (j : ℕ) → flow n after j ≡ (if k == j then visited n fs k else flow n fs j)
    flow-after j = get_or-set fs k j (visited n fs k) (no_flow n) inside

    -- What holds of the visited block and of the old ones holds of all.
    flow_case :
        (P : Flow → Type 0) (j : ℕ)
        → (k ≡ j → P (visited n fs k))
        → P (flow n fs j)
        → P (flow n after j)
    flow_case P j x y = subst P (sym (flow-after j)) (choose (k == j) refl)
      where
        choose : (b : Bool) → (k == j) ≡ b → P (if b then visited n fs k else flow n fs j)
        choose true e = x (==→eq k j e)
        choose false e = y

    in_after : (j : ℕ) → Within n (has n (flow n fs j).in_set) (has n (flow n after j).in_set)
    in_after j =
        flow_case (λ b. Within n (has n (flow n fs j).in_set) (has n b.in_set)) j
          (λ e.
            subst (λ i. Within n (has n (flow n fs i).in_set) (has n (visited n fs k).in_set)) e
              (in_grows n fs k h))
          (λ v m. m)

    out_after : (j : ℕ) → Within n (has n (flow n fs j).out) (has n (flow n after j).out)
    out_after j =
        flow_case (λ b. Within n (has n (flow n fs j).out) (has n b.out)) j
          (λ e.
            subst (λ i. Within n (has n (flow n fs i).out) (has n (visited n fs k).out)) e
              (out_grows n fs k h))
          (λ v m. m)

    pub after-IsBelow : IsBelow n after
    after-IsBelow = record {
      formed = λ j. flow_case (IsFormed n) j (λ _. visited-IsFormed n fs k h) (h.formed j);
      out_below = λ j.
          flow_case (λ b. Within n (has n b.out) (live_after n after b.children)) j
            (λ _ v m.
              live_after_mono fs after in_after (flow n fs k).children v
                (rw ((visited_out n fs k h).1 v, (new_out_lem n fs k h).1 v) at m))
            (λ v m. live_after_mono fs after in_after (flow n fs j).children v (h.out_below j v m));
      in_below = λ j.
          flow_case (λ b. Within n (has n b.in_set) (live_before n b (has n b.out))) j
            (λ _ v m.
              rw ((visited_out n fs k h).1 v)
                (rw ((visited_in n fs k h).1 v, (new_in_lem n fs k h).1 v) at m))
            (h.in_below j);
    }

    pub fixed-after : (j : ℕ) → fixed (flow n after j) ≡ fixed (flow n fs j)
    fixed-after j =
        flow_case (λ b. fixed b ≡ fixed (flow n fs j)) j (λ e. ap (λ i. fixed (flow n fs i)) e) refl

    pub score-after : (j : ℕ) → score (flow n fs j) ≤ score (flow n after j)
    score-after j = omega (
      arith,
      count_mono n (has n (flow n fs j).in_set) (has n (flow n after j).in_set)
          (λ v r. in_after j v),
      count_mono n (has n (flow n fs j).out) (has n (flow n after j).out) (λ v r. out_after j v),
    )

    abbrev same : Bool
    same =
        are_set_equals (flow n fs k).out (new_out n fs k)
        && are_set_equals (flow n fs k).in_set (new_in n fs k)

    same_parts :
        same ≡ true
        → (are_set_equals (flow n fs k).out (new_out n fs k) ≡ true)
          × (are_set_equals (flow n fs k).in_set (new_in n fs k) ≡ true)
    same_parts e = ground arith

    -- If neither set differs the visit changes nothing, and the equations hold.
    unchanged : same ≡ true → (after ≡ fs) × IsBalanced fs k
    unchanged e =
        let (same_out, same_in) = same_parts e in
        let kept : visited n fs k ≡ flow n fs k = rw (same_out, same_in) refl in
        let out_members = λ (v : ℕ).
          equal_members n v (flow n fs k).out (new_out n fs k) (h.formed k).out_formed
            (new_out_lem n fs k h).0 same_out in
        (
          ap (set fs k) kept ∙ set-get_or fs k (no_flow n),
          record {
            out_balanced = λ v. out_members v ∙ (new_out_lem n fs k h).1 v;
            in_balanced = λ v.
                equal_members n v (flow n fs k).in_set (new_in n fs k) (h.formed k).in_formed
                  (new_in_lem n fs k h).0 same_in
                ∙ (new_in_lem n fs k h).1 v
                ∙ ap (λ m. has n (flow n fs k).use_set v || m && not (has n (flow n fs k).def v))
                    (sym (out_members v));
          },
        )

    no_growth : score (visited n fs k) ≤ score (flow n fs k) → same ≡ true
    no_growth le =
        let out_le =
          count_mono n (has n (flow n fs k).out) (has n (visited n fs k).out)
            (λ v r. out_grows n fs k h v) in
        let in_le =
          count_mono n (has n (flow n fs k).in_set) (has n (visited n fs k).in_set)
            (λ v r. in_grows n fs k h v) in
        let same_out =
          (are_set_equals_iff n (flow n fs k).out (new_out n fs k) (h.formed k).out_formed
              (new_out_lem n fs k h).0).1
            (λ v r.
              count_eq n _ _ (λ i q. out_grows n fs k h i) (omega arith) v r
              ∙ (visited_out n fs k h).1 v) in
        let same_in =
          (are_set_equals_iff n (flow n fs k).in_set (new_in n fs k) (h.formed k).in_formed
              (new_in_lem n fs k h).0).1
            (λ v r.
              count_eq n _ _ (λ i q. in_grows n fs k h i) (omega arith) v r
              ∙ (visited_in n fs k h).1 v) in
        rw (same_out, same_in) refl

    -- If one does, the block's score goes up.
    changed : same ≡ false → score (flow n fs k) < score (flow n after k)
    changed e = elim (dec_lt (score (flow n fs k)) (score (visited n fs k))) [
      | yes up ↦ rw (flow-after k, eq→== k k refl) up
      | no down ↦ cc (e, no_growth (omega arith))
    ]

  -- What the visits to the blocks below `m` have made of `fs`.
  pub record Progress (fs : List Flow) (m : ℕ) (r : Round) : Type 0 where
    pub below : IsBelow n r.flows
    pub long : length r.flows ≡ length fs
    pub kept : (j : ℕ) → fixed (flow n r.flows j) ≡ fixed (flow n fs j)
    pub up : (j : ℕ) → score (flow n fs j) ≤ score (flow n r.flows j)
    pub outcome :
        ((r.flows ≡ fs) × (r.converged ≡ true) × ((k : ℕ) → k < m → IsBalanced fs k))
        ⊎ ((r.converged ≡ false)
            × ((j : ℕ) × (j < length fs) × (score (flow n fs j) < score (flow n r.flows j))))

  module _ (fs : List Flow) (m : ℕ) (s : Round) (inside : m < length fs) (p : Progress fs m s) where
    room : m < length s.flows
    room = omega (arith, p.long)

    step-outcome :
        ((after s.flows m room p.below ≡ fs)
          × ((s.converged && same s.flows m room p.below) ≡ true)
          × ((k : ℕ) → k < suc m → IsBalanced fs k))
        ⊎ (((s.converged && same s.flows m room p.below) ≡ false)
            × ((j : ℕ) × (j < length fs)
                × (score (flow n fs j) < score (flow n (after s.flows m room p.below) j))))
    step-outcome = elim (Bool-cases (same s.flows m room p.below)) [
      | inl e ↦ elim p.outcome [
        | inl (still, conv, balanced) ↦ inl (
          (unchanged s.flows m room p.below e).0 ∙ still,
          rw (conv, e) refl,
          λ k r. elim (ℕ_discrete k m) [
            | yes at ↦
                subst (λ i. IsBalanced fs i) (sym at)
                  (subst (λ gs. IsBalanced gs m) still (unchanged s.flows m room p.below e).1)
            | no other ↦ balanced k (omega arith)
          ],
        )
        | inr (conv, (j, r, lt)) ↦
            inr (rw conv refl, (j, r, omega (arith, score-after s.flows m room p.below j)))
      ]
      | inr e ↦ inr (
        rw e (ground arith),
        (m, inside, omega (arith, p.up m, changed s.flows m room p.below e)),
      )
    ]

    step-Progress : Progress fs (suc m) (visit_block n m s)
    unfolding visit_block
    step-Progress = record {
      below = after-IsBelow s.flows m room p.below;
      long = length-set s.flows m (visited n s.flows m) ∙ p.long;
      kept = λ j. fixed-after s.flows m room p.below j ∙ p.kept j;
      up = λ j. omega (arith, p.up j, score-after s.flows m room p.below j);
      outcome = step-outcome;
    }

  -- A round from `fs`, so far.
  pub round-Progress :
      (fs : List Flow) (m : ℕ)
      → m ≤ length fs
      → IsBelow n fs
      → Progress fs m (visit_blocks n m (record { flows = fs; converged = true }))
  unfolding visit_blocks
  round-Progress fs zero h below = record {
    below = below;
    long = refl;
    kept = λ j. refl;
    up = λ j. omega arith;
    outcome = inl (refl, refl, λ k r. absurd (omega arith));
  }
  round-Progress fs (suc m) h below =
      step-Progress fs m (visit_blocks n m (record { flows = fs; converged = true })) h
        (round-Progress fs m (omega arith) below)
