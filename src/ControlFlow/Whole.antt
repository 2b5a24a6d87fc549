-- ===== src/ControlFlow/Whole.antt =====
-- The control flow graph of a function covers every step that the control can take.
use csc.Common.{
  ℕ, suc, ◌-◌, ◌<◌, true, none, some, List, [], ◌∷◌, ◌≡◌, refl, ◌∙◌, subst, arith, length, ◌>>=◌,
}
use native.Mathlib.Decide.{ℕ_discrete}
use csc.Symbol.{Symbols}
use csc.Instruction.{Inode}
use csc.ControlFlow.{
  Graph, Walk, instruction, jump_place, starts_block, update_blocks, find_block_leaders,
}
use csc.ControlFlow.Leaders.{IsLed, IsJump, Done, HasBlock, find_leaders_lem, starts-jump}
use csc.ControlFlow.Edges.{IsCode, Joined, Jumped}
use csc.ControlFlow.Passes.{turns}
use csc.ControlFlow.Turns.{IsBody, Seen}

-- The instruction at `k` is the first of its block.
abbrev pub IsFirst : Graph → ℕ → Type 0
IsFirst g k = (b : ℕ) × (g.block k ≡ some b) × (g.first_instruction b ≡ some k)

-- The blocks and edges cover the steps from one instruction to the next and to the destination of
-- a jump, and a block ends with a jump and before a call.
pub record IsCovered (code : List Inode) (g : Graph) : Type 0 where
  pub joins : (j : ℕ) → suc j < length code → IsCode code j → IsCode code (suc j) → Joined g j
  pub jumps : (j t : ℕ) → j < length code → jump_place code j ≡ some t → Jumped g j t
  pub ends : (j : ℕ) → suc j < length code → IsJump code j → IsFirst g (suc j)
  pub starts :
      (j : ℕ) → j < length code → starts_block (instruction code j).op_type ≡ true → IsFirst g j

no_jump_at_start : (code : List Inode) → IsBody code → (t : ℕ) → jump_place code 0 ≡ some t → ⊥
no_jump_at_start code body t e =
    cc (body.only_jumps 0 t e, starts-jump (instruction code 0) body.enters)

not_empty : (code : List Inode) → IsBody code → 0 < length code
not_empty [] body = absurd (cc body.enters)
not_empty (x ∷ rest) body = omega arith

covered :
    (code : List Inode) (body : IsBody code) (led : Graph) (good : IsLed led)
    (done : (k : ℕ) → k < length code → Done code k led) (m : ℕ) (w : Walk)
    → length code ≡ suc m
    → Seen code body led good done m w
    → IsCovered code w.graph
covered code body led good done m w long seen = record {
  joins = λ j lt c d. seen.joins j (omega (arith, lt, long)) c d;
  jumps = λ j t lt e. elim (ℕ_discrete j 0) [
    | yes first ↦
        absurd (no_jump_at_start code body t (subst (λ i. jump_place code i ≡ some t) first e))
    | no later ↦ seen.jumps j t (omega (arith, later)) (omega (arith, lt, long)) e
  ];
  ends = λ j lt jump. leads (suc j) ((done j (omega (arith, lt))).next jump lt);
  starts = λ j lt s. leads j ((done j lt).started s);
}
  where
    leads : (k : ℕ) → HasBlock led k → IsFirst w.graph k
    leads k (b, has) = (b, seen.kept k b has, seen.firsts b ∙ good.first k b has)

start-Seen :
    (code : List Inode) (body : IsBody code) (led : Graph) (good : IsLed led)
    (done : (k : ℕ) → k < length code → Done code k led)
    → Seen code body led good done 0 (record { graph = led; curr_block = led.block 0 })
start-Seen code body led good done =
    let (b, has) = (done 0 (not_empty code body)).started body.enters in
    record {
      curr = b;
      at_curr = has;
      here = λ _. has;
      firsts = λ c. refl;
      later = λ k lt. refl;
      kept = λ k c e. e;
      joins = λ j lt c d. absurd (omega (arith, lt));
      jumps = λ j t pos le e. absurd (omega (arith, pos, le));
    }

-- For the code of a function, of whose instructions none has a block, the leaders and then the
-- blocks are found without a null pointer. In the result each instruction that is no declaration
-- and follows such a one is in the same block, or is the first of a block that an edge leads to;
-- an edge leads from the block of each jump to the block of which its destination is the first;
-- and the instruction after a jump, a call and the entry are each the first of a block.
pub built_covered :
    (symbols : Symbols) (code : List Inode) (g : Graph)
    → IsBody code
    → ((k : ℕ) → g.block k ≡ none)
    → (after : Graph) × ((find_block_leaders symbols code g >>= update_blocks code) ≡ some after)
      × IsCovered code after
unfolding find_block_leaders update_blocks
built_covered symbols code g body no_block =
    let (led, ran, good, done) =
      find_leaders_lem symbols code body.labelled (length code) g (omega arith) (record {
        first = λ k b e. absurd (cc (no_block k, e));
        existing = λ k b e. absurd (cc (no_block k, e));
      }) in
    let long : length code ≡ suc (length code - 1) = omega (arith, not_empty code body) in
    let (w, walked, seen) =
      turns code body led good done (length code - 1)
        (record { graph = led; curr_block = led.block 0 }) (omega (arith, not_empty code body))
        (start-Seen code body led good done) in
    (w.graph, rw (ran, walked) refl, covered code body led good done (length code - 1) w long seen)
