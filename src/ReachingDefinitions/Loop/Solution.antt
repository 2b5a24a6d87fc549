-- ===== src/ReachingDefinitions/Loop/Solution.antt =====
-- The loop of find_in_and_out_def_sets ends, in a solution of the equations of reaching definitions.
use csc.Common.{
  ℕ, zero, suc, ◌+◌, ◌*◌, ◌≤◌, ◌<◌, true, some, List, ◌≡◌, refl, ap, arith, length, sum_below,
  sum_strict, sum_bound, count_bound, inl, inr, ◌∙◌,
}
use csc.Liveness.Loop.Growth.{has}
use csc.ReachingDefinitions.Loop.{DefFlow, def_flow, definitions_round, find_in_and_out_def_sets}
use csc.ReachingDefinitions.Loop.Growth.{IsFormed, IsBelow}
use csc.ReachingDefinitions.Loop.Rounds.{score, fixed, IsBalanced, round-Progress}

module _ (n : ℕ) where
  -- The blocks before the first round, with `out` as find_gen_and_kill_sets leaves it.
  pub record IsStart (fs : List DefFlow) : Type 0 where
    pub formed : (k : ℕ) → IsFormed n (def_flow n fs k)
    pub out_start : (k : ℕ) → (def_flow n fs k).out ≡ (def_flow n fs k).gen

  start-IsBelow : (fs : List DefFlow) → IsStart fs → IsBelow n fs
  start-IsBelow fs h = record {
    formed = h.formed;
    below = λ k v m. ground (arith, m, ap (λ s. has n s v) (h.out_start k));
  }

  abbrev total : List DefFlow → ℕ
  total fs = sum_below (length fs) (λ k. score n (def_flow n fs k))

  -- Rounds that are enough: each but the last adds a member to a set.
  abbrev pub enough : List DefFlow → ℕ
  enough fs = length fs * n

  total-le : (fs : List DefFlow) → total fs ≤ enough fs
  total-le fs = sum_bound (length fs) n _ (λ k r. count_bound n (has n (def_flow n fs k).out))

  -- What the analysis ends in.
  pub record IsSolution (fs r : List DefFlow) : Type 0 where
    pub long : length r ≡ length fs
    pub kept : (k : ℕ) → fixed n (def_flow n r k) ≡ fixed n (def_flow n fs k)
    pub balanced : (k : ℕ) → k < length fs → IsBalanced n r k

  loop_ends :
      (fuel : ℕ) (fs : List DefFlow)
      → IsBelow n fs
      → enough fs < fuel + total fs
      → (r : List DefFlow) × (find_in_and_out_def_sets n fuel fs ≡ some r) × IsSolution fs r
  unfolding find_in_and_out_def_sets
  loop_ends zero fs h lt = absurd (omega (arith, lt, total-le fs))
  loop_ends (suc fuel) fs h lt =
      let p = round-Progress n fs (length fs) (omega arith) h in
      elim p.outcome [
        | inl (still, conv, balanced) ↦ (
          fs,
          rw (conv, find_in_and_out_def_sets) (ap some still),
          record { long = refl; kept = λ k. refl; balanced = balanced },
        )
        | inr (more, (j, r, up)) ↦
            let gs =
              (definitions_round n (length fs) (record { flows = fs; converged = true })).flows in
            let grown =
              sum_strict (length fs) (λ k. score n (def_flow n fs k))
                (λ k. score n (def_flow n gs k)) j (λ k q. p.up k) r up in
            let (x, ends, solved) = loop_ends fuel gs p.below (
              omega (
                arith,
                lt,
                grown,
                ap (λ m. m * n) p.long,
                ap (λ m. sum_below m (λ k. score n (def_flow n gs k))) p.long,
              )) in
            (
              x,
              rw (more, find_in_and_out_def_sets) ends,
              record {
                long = solved.long ∙ p.long;
                kept = λ k. solved.kept k ∙ p.kept k;
                balanced = λ k q. solved.balanced k (omega (arith, q, p.long));
              },
            )
      ]

  -- From the start the loop ends within as many rounds as the number of blocks times the number
  -- of definitions, and one more. The blocks keep their parents and their gen and kill sets, and in
  -- the result a definition reaches the end of a block exactly when it is in `gen`, or it reaches
  -- the end of some parent and is not in `kill`.
  pub definitions_solved :
      (fs : List DefFlow)
      → IsStart fs
      → (r : List DefFlow) × (find_in_and_out_def_sets n (enough fs + 1) fs ≡ some r)
        × IsSolution fs r
  definitions_solved fs h = loop_ends (enough fs + 1) fs (start-IsBelow fs h) (omega arith)
