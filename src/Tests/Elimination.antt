-- ===== src/Tests/Elimination.antt =====
-- A loop of two blocks in which one assignment is dead in the first round and, with it gone,
-- another in the second.
use csc.Common.{ℕ, ◌+◌, ◌≡◌, refl, true, false, arith, some, none, List, [], ◌∷◌, map}
use mathlib.Core.Option as O
use csc.Machine.{State}
use csc.Set.{
  create_empty_set, add_to_set, clone_set, unify_sets, diff_sets, does_elto_belong_to_set,
  are_set_equals,
}
use csc.Instruction.{redefines_variable, is_rhs_variable, OpType}
use csc.Liveness.{operand_sets, find_def_and_use_sets}
use csc.Liveness.Loop.{
  get_in_set_from_sucessors, visit_block, visit_blocks, start_flow, find_in_and_out,
}
use csc.DeadCode.{remove_dead_in_block}
use csc.DeadCode.Loop.{
  Part, part_flow, find_liveness_sets, remove_dead_instructions, do_dead_code_elimination,
}
use csc.DeadCode.Loop.Ends.{alive, IsFinished, elimination_ends}
use csc.DeadCode.Loop.Paths.{run_parts}
use csc.DeadCode.Loop.Whole.{LoweredParts, elimination_sound}
use csc.Tests.Blocks.{symbols, op, machine, ids, unique}

-- v0 = 7; v1 = v0; and: v2 = v1; param v0; goto the first block.
abbrev parts : List Part
parts =
    record {
      children = 1 ∷ [];
      instructions = op OpType.assign (some 0) (some 7) ∷ op OpType.assign (some 1) (some 0) ∷ [];
    }
    ∷ record {
      children = 0 ∷ [];
      instructions = op OpType.assign (some 2) (some 1) ∷ op OpType.param none (some 0) ∷ [];
    }
    ∷ []

lowered_parts : LoweredParts symbols parts
lowered_parts = (
  (
    record { variable = λ d e. ground arith; no_self_store = λ e. cc },
    (record { variable = λ d e. ground arith; no_self_store = λ e. cc }, tt),
  ),
  (
    (
      record { variable = λ d e. ground arith; no_self_store = λ e. cc },
      (record { variable = λ d e. cc; no_self_store = λ e. cc }, tt),
    ),
    tt,
  ),
)

marks :
    O.map
      (map (λ p. map (λ i. i.dead) p.instructions))
      (do_dead_code_elimination (alive parts + 1) 3 symbols parts)
    ≡ some ((false ∷ true ∷ []) ∷ (true ∷ false ∷ []) ∷ [])
unfolding do_dead_code_elimination remove_dead_instructions find_liveness_sets find_in_and_out
    part_flow start_flow visit_blocks visit_block are_set_equals find_def_and_use_sets
    get_in_set_from_sucessors remove_dead_in_block does_elto_belong_to_set unify_sets diff_sets
    create_empty_set add_to_set redefines_variable is_rhs_variable clone_set operand_sets
marks = refl

elimination_ends_example :
    (r : List Part) × (do_dead_code_elimination (alive parts + 1) 3 symbols parts ≡ some r)
    × IsFinished 3 symbols ids r
elimination_ends_example = elimination_ends 3 symbols ids parts

elimination_sound_example :
    (r : List Part) × (do_dead_code_elimination (alive parts + 1) 3 symbols parts ≡ some r)
    × ((steps k : ℕ) (st : State machine symbols)
        → (run_parts machine symbols (λ w k. 0) steps parts k st).world
          ≡ (run_parts machine symbols (λ w k. 0) steps r k st).world)
elimination_sound_example =
    elimination_sound machine (λ w k. 0) 3 symbols ids unique parts lowered_parts
