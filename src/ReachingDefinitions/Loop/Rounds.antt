-- ===== src/ReachingDefinitions/Loop/Rounds.antt =====
-- One visit and one round: either nothing changes and the equations hold, or an out set grows.
use csc.Common.{
  ℕ, zero, suc, ◌≤◌, ◌<◌, Bool, true, false, ◌&&◌, List, if◌then◌else◌, ◌≡◌, refl, arith,
  Bool-cases, inl, inr, ◌⊎◌, ◌==◌, ==→eq, eq→==, ◌∙◌, sym, subst, length, set, get_or-set,
  length-set, set-get_or, count_below, count_mono, count_eq, ap,
}
use native.Mathlib.Decide.{dec_lt, ℕ_discrete}
use csc.Set.{Set, are_set_equals}
use csc.Set.Words.{IsWellFormed}
use csc.Set.Compare.{equal_members, are_set_equals_iff}
use csc.Liveness.Loop.Growth.{has, Within}
use csc.ReachingDefinitions.Loop.{DefFlow, DefRound, def_flow, visit_definitions, definitions_round}
use csc.ReachingDefinitions.Loop.Growth.{
  wanted, reaches_mono, IsFormed, IsBelow, new_out, new_out_lem,
}

module _ (n : ℕ) where
  abbrev pub score : DefFlow → ℕ
  score b = count_below n (has n b.out)

  -- What the iteration does not change.
  abbrev pub fixed : DefFlow → List ℕ × Set × Set
  fixed b = (b.parents, b.gen, b.kill)

  -- The equation of reaching definitions at block `k`.
  abbrev pub IsBalanced : List DefFlow → ℕ → Type 0
  IsBalanced fs k = (v : ℕ) → has n (def_flow n fs k).out v ≡ wanted n fs (def_flow n fs k) v

  module _ (fs : List DefFlow) (k : ℕ) (inside : k < length fs) (h : IsBelow n fs) where
    abbrev b : DefFlow
    b = def_flow n fs k

    abbrev new : Set
    new = new_out n fs h.formed b

    formed_new : IsWellFormed n new
    formed_new = (new_out_lem n fs h.formed b (h.formed k)).0

    members_new : (v : ℕ) → has n new v ≡ wanted n fs b v
    members_new = (new_out_lem n fs h.formed b (h.formed k)).1

    abbrev same : Bool
    same = are_set_equals b.out new

    abbrev visited : DefFlow
    visited = record b { out = if same then b.out else new }

    abbrev after : List DefFlow
    after = set fs k visited

    visited_lem : IsFormed n visited × ((v : ℕ) → has n visited.out v ≡ wanted n fs b v)
    visited_lem = elim (Bool-cases same) [
      | inl e ↦ rw e (
        h.formed k,
        λ v. equal_members n v b.out new (h.formed k).out_formed formed_new e ∙ members_new v,
      )
      | inr e ↦ rw e (
        record {
          gen_formed = (h.formed k).gen_formed;
          kill_formed = (h.formed k).kill_formed;
          out_formed = formed_new;
        },
        members_new,
      )
    ]

    visited_grows : Within n (has n b.out) (has n visited.out)
    visited_grows v m = visited_lem.1 v ∙ h.below k v m

    after_case :
        (P : DefFlow → Type 0) (j : ℕ)
        → (k ≡ j → P visited)
        → P (def_flow n fs j)
        → P (def_flow n after j)
    after_case P j x y = subst P (sym (get_or-set fs k j visited _ inside)) (choose (k == j) refl)
      where
        choose : (t : Bool) → (k == j) ≡ t → P (if t then visited else def_flow n fs j)
        choose true e = x (==→eq k j e)
        choose false e = y

    out_after : (j : ℕ) → Within n (has n (def_flow n fs j).out) (has n (def_flow n after j).out)
    out_after j =
        after_case (λ c. Within n (has n (def_flow n fs j).out) (has n c.out)) j
          (λ e.
            subst (λ i. Within n (has n (def_flow n fs i).out) (has n visited.out)) e visited_grows)
          (λ v m. m)

    wanted_after : (c : DefFlow) → Within n (wanted n fs c) (wanted n after c)
    wanted_after c v m = ground (arith, m, reaches_mono n fs after out_after c.parents v)

    pub after-IsBelow : IsBelow n after
    after-IsBelow = record {
      formed = λ j. after_case (IsFormed n) j (λ _. visited_lem.0) (h.formed j);
      below = λ j.
          after_case (λ c. Within n (has n c.out) (wanted n after c)) j
            (λ _ v m. wanted_after b v (sym (visited_lem.1 v) ∙ m))
            (λ v m. wanted_after (def_flow n fs j) v (h.below j v m));
    }

    pub fixed-after : (j : ℕ) → fixed (def_flow n after j) ≡ fixed (def_flow n fs j)
    fixed-after j =
        after_case (λ c. fixed c ≡ fixed (def_flow n fs j)) j
          (λ e. ap (λ i. fixed (def_flow n fs i)) e) refl

    pub score-after : (j : ℕ) → score (def_flow n fs j) ≤ score (def_flow n after j)
    score-after j =
        count_mono n (has n (def_flow n fs j).out) (has n (def_flow n after j).out)
          (λ v r. out_after j v)

    pub unchanged : same ≡ true → (after ≡ fs) × IsBalanced fs k
    unchanged e =
        let kept : visited ≡ b = rw e refl in
        (
          ap (set fs k) kept ∙ set-get_or fs k _,
          λ v. equal_members n v b.out new (h.formed k).out_formed formed_new e ∙ members_new v,
        )

    pub changed : same ≡ false → score b < score (def_flow n after k)
    changed e = elim (dec_lt (score b) (score visited)) [
      | yes up ↦ rw (get_or-set fs k k visited _ inside, eq→== k k refl) up
      | no down ↦ absurd (
          cc (
            e,
            (are_set_equals_iff n b.out new (h.formed k).out_formed formed_new).1 (λ v r.
                count_eq n _ _ (λ i q. visited_grows i) (omega (arith, down)) v r
                ∙ visited_lem.1 v
                ∙ sym (members_new v)),
          ))
    ]

  -- What the visits to the blocks below `m` have made of `fs`.
  pub record Progress (fs : List DefFlow) (m : ℕ) (r : DefRound) : Type 0 where
    pub below : IsBelow n r.flows
    pub long : length r.flows ≡ length fs
    pub kept : (j : ℕ) → fixed (def_flow n r.flows j) ≡ fixed (def_flow n fs j)
    pub up : (j : ℕ) → score (def_flow n fs j) ≤ score (def_flow n r.flows j)
    pub outcome :
        ((r.flows ≡ fs) × (r.converged ≡ true) × ((k : ℕ) → k < m → IsBalanced fs k))
        ⊎ ((r.converged ≡ false)
            × ((j : ℕ) × (j < length fs)
                × (score (def_flow n fs j) < score (def_flow n r.flows j))))

  module _ (fs : List DefFlow) (m : ℕ) (s : DefRound) (inside : m < length fs)
      (p : Progress fs m s) where
    room : m < length s.flows
    room = omega (arith, p.long)

    step-outcome :
        ((after s.flows m room p.below ≡ fs)
          × ((s.converged && same s.flows m room p.below) ≡ true)
          × ((k : ℕ) → k < suc m → IsBalanced fs k))
        ⊎ (((s.converged && same s.flows m room p.below) ≡ false)
            × ((j : ℕ) × (j < length fs)
                × (score (def_flow n fs j) < score (def_flow n (after s.flows m room p.below) j))))
    step-outcome = elim (Bool-cases (same s.flows m room p.below)) [
      | inl e ↦ elim p.outcome [
        | inl (still, conv, balanced) ↦ inl (
          (unchanged s.flows m room p.below e).0 ∙ still,
          rw (conv, e) refl,
          λ k r. elim (ℕ_discrete k m) [
            | yes at ↦
                subst (IsBalanced fs) (sym at)
                  (subst (λ gs. IsBalanced gs m) still (unchanged s.flows m room p.below e).1)
            | no other ↦ balanced k (omega (arith, r, other))
          ],
        )
        | inr (conv, (j, r, lt)) ↦
            inr (rw conv refl, (j, r, omega (arith, lt, score-after s.flows m room p.below j)))
      ]
      | inr e ↦ inr (
        rw e (ground arith),
        (m, inside, omega (arith, p.up m, changed s.flows m room p.below e)),
      )
    ]

    step-Progress : Progress fs (suc m) (visit_definitions n m s)
    unfolding visit_definitions
    step-Progress = record {
      below = after-IsBelow s.flows m room p.below;
      long = length-set s.flows m (visited s.flows m room p.below) ∙ p.long;
      kept = λ j. fixed-after s.flows m room p.below j ∙ p.kept j;
      up = λ j. omega (arith, p.up j, score-after s.flows m room p.below j);
      outcome = step-outcome;
    }

  -- A round from `fs`, so far.
  pub round-Progress :
      (fs : List DefFlow) (m : ℕ)
      → m ≤ length fs
      → IsBelow n fs
      → Progress fs m (definitions_round n m (record { flows = fs; converged = true }))
  unfolding definitions_round
  round-Progress fs zero h below = record {
    below = below;
    long = refl;
    kept = λ j. refl;
    up = λ j. omega arith;
    outcome = inl (refl, refl, λ k r. absurd (omega (arith, r)));
  }
  round-Progress fs (suc m) h below =
      step-Progress fs m (definitions_round n m (record { flows = fs; converged = true }))
        (omega (arith, h)) (round-Progress fs m (omega (arith, h)) below)
