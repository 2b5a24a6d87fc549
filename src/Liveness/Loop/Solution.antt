-- ===== src/Liveness/Loop/Solution.antt =====
-- The loop of find_in_and_out_liveness_sets ends, in a solution of the equations of liveness.
use csc.Common.{
  ℕ, zero, suc, ◌+◌, ◌*◌, ◌≤◌, ◌<◌, true, some, List, ◌≡◌, refl, ap, arith, length, sum_below,
  sum_strict, sum_bound, count_bound, inl, inr, ◌∙◌,
}
use csc.Set.{create_empty_set}
use csc.Set.Laws.{belongs-empty}
use csc.Liveness.Loop.{Flow, flow, visit_blocks, find_in_and_out}
use csc.Liveness.Loop.Growth.{has, IsFormed, IsBelow}
use csc.Liveness.Loop.Rounds.{score, fixed, IsBalanced, round-Progress}

module _ (n : ℕ) where
  -- The blocks before the first round.
  pub record IsStart (fs : List Flow) : Type 0 where
    pub formed : (k : ℕ) → IsFormed n (flow n fs k)
    pub in_start : (k : ℕ) → (flow n fs k).in_set ≡ (flow n fs k).use_set
    pub out_start : (k : ℕ) → (flow n fs k).out ≡ create_empty_set n

  start-IsBelow : (fs : List Flow) → IsStart fs → IsBelow n fs
  start-IsBelow fs h = record {
    formed = h.formed;
    out_below = λ k v m. cc (belongs-empty n v, ap (λ s. has n s v) (h.out_start k));
    in_below = λ k v m. ground (arith, ap (λ s. has n s v) (h.in_start k));
  }

  -- The number of members of all sets.
  abbrev total : List Flow → ℕ
  total fs = sum_below (length fs) (λ k. score n (flow n fs k))

  -- Rounds that are enough: each but the last adds a member to a set.
  abbrev pub enough : List Flow → ℕ
  enough fs = length fs * (n + n)

  total-le : (fs : List Flow) → total fs ≤ enough fs
  total-le fs = sum_bound (length fs) (n + n) _ λ k r.
      omega
        (arith, count_bound n (has n (flow n fs k).in_set), count_bound n (has n (flow n fs k).out))

  -- What the analysis ends in.
  pub record IsSolution (fs r : List Flow) : Type 0 where
    pub long : length r ≡ length fs
    pub kept : (k : ℕ) → fixed n (flow n r k) ≡ fixed n (flow n fs k)
    pub balanced : (k : ℕ) → k < length fs → IsBalanced n r k
    pub formed : (k : ℕ) → IsFormed n (flow n r k)

  loop_ends :
      (fuel : ℕ) (fs : List Flow)
      → IsBelow n fs
      → enough fs < fuel + total fs
      → (r : List Flow) × (find_in_and_out n fuel fs ≡ some r) × IsSolution fs r
  unfolding find_in_and_out
  loop_ends zero fs h lt = absurd (omega (arith, total-le fs))
  loop_ends (suc fuel) fs h lt =
      let p = round-Progress n fs (length fs) (omega arith) h in
      elim p.outcome [
        | inl (still, conv, balanced) ↦ (
          fs,
          rw (conv, find_in_and_out) (ap some still),
          record { long = refl; kept = λ k. refl; balanced = balanced; formed = h.formed },
        )
        | inr (more, (j, r, up)) ↦
            let gs = (visit_blocks n (length fs) (record { flows = fs; converged = true })).flows in
            let grown =
              sum_strict (length fs) (λ k. score n (flow n fs k)) (λ k. score n (flow n gs k)) j
                (λ k q. p.up k) r up in
            let (x, ends, solved) = loop_ends fuel gs p.below (
              omega (
                arith,
                ap (λ m. m * (n + n)) p.long,
                ap (λ m. sum_below m (λ k. score n (flow n gs k))) p.long,
              )) in
            (
              x,
              rw (more, find_in_and_out) ends,
              record {
                long = solved.long ∙ p.long;
                kept = λ k. solved.kept k ∙ p.kept k;
                balanced = λ k q. solved.balanced k (omega (arith, p.long));
                formed = solved.formed;
              },
            )
      ]

  -- From the start the loop ends within `enough fs + 1` rounds. The blocks keep their children and
  -- their def and use sets; in the result, what is live after a block is what is live before some
  -- child, and what is live before it is `use` and what is live after it without `def`; all sets are well formed.
  pub liveness_solved :
      (fs : List Flow)
      → IsStart fs
      → (r : List Flow) × (find_in_and_out n (enough fs + 1) fs ≡ some r) × IsSolution fs r
  liveness_solved fs h = loop_ends (enough fs + 1) fs (start-IsBelow fs h) (omega arith)
