-- ===== src/DeadCode.antt =====
-- code_optimization.c, remove_dead_instructions: marking the dead instructions of one block.
pub mod LiveIn
pub mod Step
pub mod SelfStore
pub mod Sound
pub mod Loop
use csc.Common.{
  ℕ, Bool, true, false, ◌&&◌, ◌||◌, not, Option, none, some, List, [], ◌∷◌, if◌then◌else◌,
}
use csc.Symbol.{Symbols, is_local}
use csc.Set.{Set, unify_sets, diff_sets, clone_set, does_elto_belong_to_set}
use csc.Instruction.{Inode, redefines_variable}
use csc.Liveness.{is_null_assignment, operand_sets}

-- What the walk has at one instruction: the later instructions as marked, the variables live
-- before them, and whether any of them was found dead.
pub record Marked : Type 0 where
  pub instructions : List Inode
  pub live : Set
  pub found : Bool

-- The destination is a local variable that is not live after the instruction.
unfoldable pub assigns_dead_variable : Symbols → Inode → Set → Bool
assigns_dead_variable sym i live = elim i.dest [
  | none ↦ false
  | some d ↦
      redefines_variable sym i
      && is_local (sym d).scope
      && not (does_elto_belong_to_set (sym d).id live)
]

-- One turn of the loop over the instructions of the block.
unfoldable pub mark : ℕ → Symbols → Inode → Marked → Marked
mark n sym i m =
    let (lhs_set, rhs_set) = operand_sets n sym i in
    let removed = assigns_dead_variable sym i m.live in
    if i.dead
    then record m { instructions = i ∷ m.instructions }
    else if is_null_assignment i
    then record m { instructions = record i { dead = true } ∷ m.instructions }
    else (record {
      instructions = (if removed then record i { dead = true } else i) ∷ m.instructions;
      live = unify_sets (diff_sets m.live lhs_set) rhs_set;
      found = m.found || removed;
    })

-- The walk backwards over a block whose `out` set is given.
unfoldable pub remove_dead_in_block : ℕ → Symbols → Set → List Inode → Marked
unfolding mark assigns_dead_variable
remove_dead_in_block n sym out [] = record {
  instructions = [];
  live = clone_set out;
  found = false;
}
remove_dead_in_block n sym out (i ∷ rest) = mark n sym i (remove_dead_in_block n sym out rest)
