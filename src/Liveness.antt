-- ===== src/Liveness.antt =====
-- liveness_analysis.c: the def and use sets of a block. A block is the list of its instructions in
-- program order; the walk from `last_instruction` along `previous` is a recursion that treats the
-- later instructions first.
pub mod Operands
pub mod Loop
use csc.Common.{ℕ, Bool, true, false, ◌&&◌, not, Option, none, some, List, [], ◌∷◌, if◌then◌else◌}
use csc.Symbol.{Symbols, Symbol, is_addr, is_local}
use csc.Set.{
  Set, create_empty_set, add_to_set, unify_sets, diff_sets, clone_set, does_elto_belong_to_set,
}
use csc.Instruction.{Inode, is_assign, same_operand, is_rhs_variable}

-- An assignment of a variable to itself, which the analysis skips.
abbrev pub is_null_assignment : Inode → Bool
is_null_assignment i = is_assign i.op_type && same_operand i.dest i.src1

-- Adds a source operand that is a local variable and no constant.
add_source : Symbols → Option ℕ → Set → Set
add_source sym none rhs_set = rhs_set
add_source sym (some a) rhs_set =
    if is_local (sym a).scope && not (sym a).is_constant
    then add_to_set (sym a).id rhs_set
    else rhs_set

-- The two sets with the destination added to one of them. Through a destination that holds an
-- address the instruction writes elsewhere, so it counts as read.
destination_sets : ℕ → Symbols → Option ℕ → Set × Set
destination_sets n sym none = (create_empty_set n, create_empty_set n)
destination_sets n sym (some d) =
    if is_local (sym d).scope
    then if is_addr (sym d).type
      then (create_empty_set n, add_to_set (sym d).id (create_empty_set n))
      else (add_to_set (sym d).id (create_empty_set n), create_empty_set n)
    else (create_empty_set n, create_empty_set n)

-- The sets of the variables that one instruction assigns and reads.
unfoldable pub operand_sets : ℕ → Symbols → Inode → Set × Set
unfolding add_source destination_sets
operand_sets n sym i =
    let (lhs, rhs) = destination_sets n sym i.dest in
    if is_rhs_variable i
    then (lhs, add_source sym i.src2 (add_source sym i.src1 rhs))
    else (lhs, rhs)

-- One turn of the loop over the instructions of a block.
unfoldable pub visit : ℕ → Symbols → Inode → Set × Set → Set × Set
visit n sym i (def, use_set) =
    let (lhs_set, rhs_set) = operand_sets n sym i in
    if i.dead then (def, use_set) else if is_null_assignment i then (def, use_set) else (
      diff_sets (unify_sets lhs_set def) rhs_set,
      unify_sets (diff_sets use_set lhs_set) rhs_set,
    )

-- The def and use sets of a block.
unfoldable pub find_def_and_use_sets : ℕ → Symbols → List Inode → Set × Set
unfolding visit operand_sets
find_def_and_use_sets n sym [] = (create_empty_set n, create_empty_set n)
find_def_and_use_sets n sym (i ∷ rest) = visit n sym i (find_def_and_use_sets n sym rest)
