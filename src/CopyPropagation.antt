-- ===== src/CopyPropagation.antt =====
-- code_optimization.c: do_copy_propagation. `none` is a read through a null pointer.
pub mod Lists
pub mod Links
pub mod Detach
pub mod Turns
pub mod Cleared
pub mod Block
pub mod Step
pub mod Sound
pub mod Whole
use csc.Common.{
  ℕ, zero, suc, Bool, true, false, ◌&&◌, Option, none, some, List, [], ◌∷◌, ◌==◌, if◌then◌else◌,
  ◌>>=◌, length,
}
use csc.Symbol.{Symbols, tag}
use csc.SymbolTable.Variables.{add_to_list_of_variables, remove_from_list_of_variables}
use csc.Instruction.{Inode, is_assign, is_rhs_variable, same_operand}

-- The fields of the entries that copy propagation uses, and the list `propagated_vars`.
pub record Copies : Type 0 where
  pub copied_from : ℕ → Option ℕ
  pub copied_to : ℕ → List ℕ
  pub propagated_vars : List ℕ

abbrev pub no_copies : Copies
no_copies = record { copied_from = λ v. none; copied_to = λ o. []; propagated_vars = [] }

-- A store to a field of one entry.
abbrev pub put {ℓ} : {A : Type ℓ} → (ℕ → A) → ℕ → A → ℕ → A
put f a x b = if a == b then x else f b

unfoldable pub attach_variable_to_original : ℕ → ℕ → Copies → Copies
unfolding add_to_list_of_variables
attach_variable_to_original var original st = record {
  propagated_vars = add_to_list_of_variables original st.propagated_vars;
  copied_to = put st.copied_to original (add_to_list_of_variables var (st.copied_to original));
  copied_from = put st.copied_from var (some original);
}

unfoldable pub detach_variable_from_original : ℕ → Copies → Option Copies
detach_variable_from_original var st = do
  original ← st.copied_from var
  propagated ← remove_from_list_of_variables original st.propagated_vars
  others ← remove_from_list_of_variables var (st.copied_to original)
  some (record {
    propagated_vars = propagated;
    copied_to = put st.copied_to original others;
    copied_from = put st.copied_from var none;
  })

-- `list_node->var->copied_from = NULL`, for each variable of the list.
unfoldable pub forget_each : List ℕ → (ℕ → Option ℕ) → ℕ → Option ℕ
forget_each [] from = from
forget_each (v ∷ rest) from = forget_each rest (put from v none)

unfoldable pub detach_copies_from_original : ℕ → Copies → Option Copies
unfolding forget_each
detach_copies_from_original original st = do
  propagated ← remove_from_list_of_variables original st.propagated_vars
  some (record {
    propagated_vars = propagated;
    copied_from = forget_each (st.copied_to original) st.copied_from;
    copied_to = put st.copied_to original [];
  })

-- `while (propagated_vars)`: each round removes a variable from the list, so its length is fuel
-- enough.
unfoldable pub clear_loop : ℕ → Copies → Option Copies
unfolding detach_copies_from_original
clear_loop zero st = some st
clear_loop (suc fuel) st = elim st.propagated_vars [
  | [] ↦ some st
  | ◌∷◌ v _ ↦ detach_copies_from_original v st >>= clear_loop fuel
]

unfoldable pub clear_propagated_vars : Copies → Option Copies
unfolding clear_loop
clear_propagated_vars st = do
  cleared ← clear_loop (length st.propagated_vars) st
  some (record cleared { propagated_vars = [] })

-- `var->copied_from ? var->copied_from : var`.
abbrev pub root_of : Copies → ℕ → ℕ
root_of st var = elim (st.copied_from var) [ none ↦ var | some original ↦ original ]

abbrev pub root_operand : Copies → Option ℕ → Option ℕ
root_operand st none = none
root_operand st (some var) = some (root_of st var)

-- The test for an assignment between copies of one variable.
unfoldable pub is_copy_of_itself : Copies → Inode → Option Bool
is_copy_of_itself st i =
    if is_assign i.op_type
    then (do dest ← i.dest; src ← i.src1; some (root_of st dest == root_of st src))
    else some false

-- A redefined variable is no copy any more, or has no copies any more: by its `copied_from` and
-- `copied_to`.
unfoldable pub detach_by : Option ℕ → List ℕ → ℕ → Copies → Option Copies
detach_by (some _) to dest st = detach_variable_from_original dest st
detach_by none [] dest st = some st
detach_by none (_ ∷ _) dest st = detach_copies_from_original dest st

unfoldable pub detach_destination : Option ℕ → Copies → Option Copies
unfolding detach_by
detach_destination none st = some st
detach_destination (some dest) st = detach_by (st.copied_from dest) (st.copied_to dest) dest st

-- `dest->type == SRC1->type` in an assignment: the destination becomes a copy.
unfoldable pub attach_destination : Symbols → Inode → Copies → Option Copies
unfolding attach_variable_to_original
attach_destination sym i st =
    if is_assign i.op_type
    then (do
      dest ← i.dest
      src ← i.src1
      some (
          if tag (sym dest).type == tag (sym src).type
          then attach_variable_to_original dest (root_of st src) st
          else st))
    else some st

-- The operands are replaced by the originals that they are copies of.
abbrev pub replaced : Copies → Inode → Inode
replaced st i = record i { src1 = root_operand st i.src1; src2 = root_operand st i.src2 }

-- One turn of the loop over a block.
unfoldable pub propagate : Symbols → Inode → Copies → Option (Inode × Copies)
unfolding is_copy_of_itself detach_destination attach_destination
propagate sym i st = if i.dead then some (i, st) else (do
  itself ← is_copy_of_itself st i
  if itself then some (record i { dead = true }, st) else (do
    detached ← detach_destination i.dest st
    if is_rhs_variable i
        then (do attached ← attach_destination sym i detached; some (replaced attached i, attached))
        else some (i, detached)))

unfoldable pub propagate_each : Symbols → List Inode → Copies → Option (List Inode × Copies)
unfolding propagate
propagate_each sym [] st = some ([], st)
propagate_each sym (i ∷ rest) st = do
  (first, next) ← propagate sym i st
  (others, last) ← propagate_each sym rest next
  some (first ∷ others, last)

-- A block, after which the copies are cleared.
unfoldable pub propagate_block : Symbols → List Inode → Copies → Option (List Inode × Copies)
unfolding propagate_each clear_propagated_vars
propagate_block sym block st = do
  (instructions, last) ← propagate_each sym block st
  cleared ← clear_propagated_vars last
  some (instructions, cleared)

unfoldable pub propagate_blocks : Symbols → List (List Inode) → Copies → Option (List (List Inode))
unfolding propagate_block
propagate_blocks sym [] st = some []
propagate_blocks sym (block ∷ rest) st = do
  (instructions, cleared) ← propagate_block sym block st
  others ← propagate_blocks sym rest cleared
  some (instructions ∷ others)

unfoldable pub do_copy_propagation : Symbols → List (List Inode) → Option (List (List Inode))
unfolding propagate_blocks
do_copy_propagation sym blocks = propagate_blocks sym blocks no_copies
