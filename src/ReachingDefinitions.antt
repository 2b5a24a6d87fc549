-- ===== src/ReachingDefinitions.antt =====
-- reaching_definitions_analysis.c: the definitions of each variable, and the gen and kill sets of
-- a block. A block is the list of its instructions in program order; the `definitions` field of
-- the entries is a store of its own, by address.
pub mod Filled
pub mod Transfer
pub mod Loop
use csc.Common.{
  ℕ, Bool, true, false, ◌&&◌, not, Option, none, some, List, [], ◌∷◌, if◌then◌else◌, ◌==◌,
}
use csc.Symbol.{Symbols}
use csc.Set.{
  Set, create_empty_set, add_to_set, remove_from_set, unify_sets, diff_sets, is_set_undefined,
}
use csc.Instruction.{Inode, redefines_variable}

abbrev pub Definitions : Type 0
Definitions = ℕ → Set

abbrev pub set_definitions : Definitions → ℕ → Set → Definitions
set_definitions defs d s a = if d == a then s else defs a

-- The variable that an instruction defines.
abbrev pub defined_variable : Symbols → Inode → Option ℕ
defined_variable sym i = if redefines_variable sym i then i.dest else none

-- The loop body of fill_definitions.
unfoldable pub note_definition : ℕ → Symbols → Inode → Definitions → Definitions
note_definition n sym i defs = elim (defined_variable sym i) [
  | none ↦ defs
  | some d ↦
      let s = if is_set_undefined (defs d) then create_empty_set n else defs d in
      set_definitions defs d (add_to_set i.definition_id s)
]

unfoldable pub fill_in_block : ℕ → Symbols → List Inode → Definitions → Definitions
unfolding note_definition
fill_in_block n sym [] defs = defs
fill_in_block n sym (i ∷ rest) defs = fill_in_block n sym rest (note_definition n sym i defs)

unfoldable pub fill_definitions : ℕ → Symbols → List (List Inode) → Definitions → Definitions
unfolding fill_in_block
fill_definitions n sym [] defs = defs
fill_definitions n sym (block ∷ rest) defs =
    fill_definitions n sym rest (fill_in_block n sym block defs)

-- The same, where the instruction is not dead.
abbrev pub live_variable : Symbols → Inode → Option ℕ
live_variable sym i = if i.dead then none else defined_variable sym i

-- The loop body of find_gen_and_kill_sets.
unfoldable pub gen_and_kill : Symbols → Definitions → Inode → Set × Set → Set × Set
gen_and_kill sym defs i (gen, kill) = elim (live_variable sym i) [
  | none ↦ (gen, kill)
  | some d ↦ (
    add_to_set i.definition_id (diff_sets gen (defs d)),
    remove_from_set i.definition_id (unify_sets kill (defs d)),
  )
]

-- The loop over the instructions of a block, from the first.
unfoldable pub gen_and_kill_loop : Symbols → Definitions → List Inode → Set × Set → Set × Set
unfolding gen_and_kill
gen_and_kill_loop sym defs [] sets = sets
gen_and_kill_loop sym defs (i ∷ rest) sets =
    gen_and_kill_loop sym defs rest (gen_and_kill sym defs i sets)

unfoldable pub find_gen_and_kill_sets : ℕ → Symbols → Definitions → List Inode → Set × Set
unfolding gen_and_kill_loop
find_gen_and_kill_sets n sym defs block =
    gen_and_kill_loop sym defs block (create_empty_set n, create_empty_set n)

-- The out set of a block from its in set, in find_in_and_out_def_sets.
unfoldable pub out_of_in : Set × Set → Set → Set
out_of_in (gen, kill) in_set = unify_sets gen (diff_sets in_set kill)
