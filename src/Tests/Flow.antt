-- ===== src/Tests/Flow.antt =====
-- The control flow graph of a small function with a loop.
use csc.Common.{ℕ, zero, suc, ◌≡◌, refl, Option, some, none, List, [], ◌∷◌, map, ◌>>=◌}
use csc.Instruction.{Inode, OpType, redefines_variable}
use csc.Block.{create_block, connect_blocks}
use csc.Block.Edges.{start}
use csc.ControlFlow.{
  Graph, jump_place, label_place, find_block_leaders, update_blocks, find_leaders, find_leader,
  lead_jump, lead, start_block, number_instruction, update_each, update_block, enter_block,
  fall_through, mark_last, link_jump,
}
use csc.ControlFlow.Leaders.{IsJump, Labelled}
use csc.ControlFlow.Turns.{IsBody}
use csc.ControlFlow.Whole.{IsCovered, built_covered}
use csc.Tests.Blocks.{symbols, op}

-- enter; if ... goto label 0; v0 = 7; label 0; goto label 0.
abbrev code : List Inode
code =
    op OpType.enter none (some 3)
    ∷ record (op OpType.if_jump none (some 0)) { jump_to = some 0 }
    ∷ op OpType.assign (some 0) (some 7)
    ∷ record (op OpType.label none none) { label = some 0 }
    ∷ record (op OpType.goto none none) { jump_to = some 0 }
    ∷ []

labelled : Labelled code
unfolding jump_place label_place
labelled zero lt j = absurd cc
labelled (suc zero) lt j = (3, refl)
labelled (suc (suc zero)) lt j = absurd cc
labelled (suc (suc (suc zero))) lt j = absurd cc
labelled (suc (suc (suc (suc zero)))) lt j = (3, refl)
labelled (suc (suc (suc (suc (suc k))))) lt j = absurd cc

only_jumps : (k t : ℕ) → jump_place code k ≡ some t → IsJump code k
unfolding jump_place
only_jumps zero t e = absurd cc
only_jumps (suc zero) t e = refl
only_jumps (suc (suc zero)) t e = absurd cc
only_jumps (suc (suc (suc zero))) t e = absurd cc
only_jumps (suc (suc (suc (suc zero)))) t e = refl
only_jumps (suc (suc (suc (suc (suc k))))) t e = absurd cc

body : IsBody code
body = record { labelled = labelled; only_jumps = only_jumps; enters = refl }

abbrev unbuilt : Graph
unbuilt = record {
  blocks = start;
  block = λ k. none;
  first_instruction = λ b. none;
  last_instruction = λ b. none;
  order = λ k. 0;
  definition_id = λ k. 0;
  total_instructions = 0;
  total_assignment_instructions = 0;
}

-- The blocks of the instructions, and the children of the blocks.
shape : Graph → List (Option ℕ) × List (List ℕ)
shape g = (map g.block (0 ∷ 1 ∷ 2 ∷ 3 ∷ 4 ∷ []), map g.blocks.children (0 ∷ 1 ∷ 2 ∷ []))

built :
    ((find_block_leaders symbols code unbuilt >>= update_blocks code) >>= λ g. some (shape g))
    ≡ some (
      (some 0 ∷ some 0 ∷ some 2 ∷ some 1 ∷ some 1 ∷ []),
      ((2 ∷ 1 ∷ []) ∷ (1 ∷ []) ∷ (1 ∷ []) ∷ []),
    )
unfolding shape find_block_leaders update_blocks find_leaders find_leader lead_jump lead start_block
    number_instruction update_each update_block enter_block fall_through mark_last link_jump
    jump_place label_place create_block connect_blocks redefines_variable
built = refl

built_covered_example :
    (after : Graph) × ((find_block_leaders symbols code unbuilt >>= update_blocks code)
      ≡ some after)
    × IsCovered code after
built_covered_example = built_covered symbols code unbuilt body (λ k. refl)
