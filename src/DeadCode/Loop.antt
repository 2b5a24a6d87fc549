-- ===== src/DeadCode/Loop.antt =====
-- code_optimization.c: do_dead_code_elimination, and remove_dead_instructions over the blocks of a
-- function. A block is known by its place in the list of blocks.
pub mod Settled
pub mod Ends
pub mod Paths
pub mod Whole
use csc.Common.{
  ℕ, zero, suc, ◌+◌, ◌*◌, Bool, true, false, ◌||◌, Option, none, some, List, [], ◌∷◌, length, map,
}
use csc.Symbol.{Symbols}
use csc.Instruction.{Inode}
use csc.Liveness.{find_def_and_use_sets}
use csc.Liveness.Loop.{Flow, flow, start_flow, find_in_and_out}
use csc.DeadCode.{remove_dead_in_block}

-- The fields of `bnode` that the elimination reads; it writes the marks of the instructions.
pub record Part : Type 0 where
  pub children : List ℕ
  pub instructions : List Inode

-- What one run of remove_dead_instructions leaves.
pub record Swept : Type 0 where
  pub parts : List Part
  pub found : Bool

-- The flow of a block before the first round of liveness.
unfoldable pub part_flow : ℕ → Symbols → Part → Flow
part_flow n sym p = start_flow n p.children (find_def_and_use_sets n sym p.instructions)

-- find_in_and_out_liveness_sets. Each round but the last adds a member to a set.
unfoldable pub find_liveness_sets : ℕ → Symbols → List Part → Option (List Flow)
unfolding part_flow
find_liveness_sets n sym parts =
    find_in_and_out n (length parts * (n + n) + 1) (map (part_flow n sym) parts)

-- The loop over the blocks from place `k`.
unfoldable pub remove_dead_instructions : ℕ → Symbols → List Flow → ℕ → List Part → Swept
remove_dead_instructions n sym flows k [] = record { parts = []; found = false }
remove_dead_instructions n sym flows k (p ∷ rest) =
    let m = remove_dead_in_block n sym (flow n flows k).out p.instructions in
    let later = remove_dead_instructions n sym flows (suc k) rest in
    record {
      parts = record p { instructions = m.instructions } ∷ later.parts;
      found = m.found || later.found;
    }

-- `while (any_change)`, with fuel; `none` means that the fuel ran out.
unfoldable pub do_dead_code_elimination : ℕ → ℕ → Symbols → List Part → Option (List Part)
unfolding find_liveness_sets remove_dead_instructions
do_dead_code_elimination zero n sym parts = none
do_dead_code_elimination (suc fuel) n sym parts = elim (find_liveness_sets n sym parts) [
  | none ↦ none
  | some flows ↦
      let swept = remove_dead_instructions n sym flows 0 parts in
      elim swept.found [
        | true ↦ do_dead_code_elimination fuel n sym swept.parts
        | false ↦ some swept.parts
      ]
]
