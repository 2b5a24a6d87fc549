-- ===== src/Translation/Program.antt =====
-- code_translation.c: print_instructions, the loop over the instructions of a function, and
-- print_strings.
use csc.Common.{ℕ, ◌*◌, Bool, true, false, Option, some, List, [], ◌∷◌, ◌++◌, if◌then◌else◌, ◌>>=◌}
use csc.Symbol.{Symbols, ℤ}
use csc.Set.{Set}
use csc.Instruction.{Inode, OpType}
use csc.Mips.{Reg, Op}
use csc.Translation.{Allocation}
use csc.Translation.Frame.{load_address}
use csc.Translation.Calls.{
  save_reg_allocated_variables_in_memory, load_reg_allocated_variables_from_memory,
}
use csc.Translation.Instructions.{
  print_global, print_enter, print_assign, print_param, print_leave, print_return, print_retrieve,
  print_uminus, print_binary_arithmetic, print_if, print_goto, print_index_array, print_deref,
}

unfoldable pub print_call : Symbols → Allocation → Inode → Set → Option (List Op)
unfolding save_reg_allocated_variables_in_memory load_reg_allocated_variables_from_memory
print_call sym alloc i live_at_call = do
  function_ptr ← i.src1
  saves ← save_reg_allocated_variables_in_memory sym alloc function_ptr live_at_call
  loads ← load_reg_allocated_variables_from_memory sym alloc function_ptr live_at_call
  some (
      saves
      ++ (Op.jal (sym function_ptr).name
          ∷ load_address Reg.sp (ℤ.pos (4 * (sym function_ptr).num_formals)) Reg.sp
          ∷ loads))

-- An instruction with the set `live_at_call` of a call.
unfoldable pub print_one : Symbols → Allocation → Bool → Inode → Set → Option (List Op)
unfolding print_global print_enter print_assign print_param print_call print_leave print_return
    print_retrieve print_uminus print_binary_arithmetic print_if print_goto print_index_array
    print_deref
print_one sym alloc after_global i live_at_call = elim i.op_type [
  | OpType.global ↦ print_global sym after_global i
  | OpType.enter ↦ print_enter sym alloc after_global i
  | OpType.assign ↦ print_assign sym alloc i
  | OpType.param ↦ print_param sym alloc i
  | OpType.call ↦ print_call sym alloc i live_at_call
  | OpType.leave ↦ print_leave alloc i
  | OpType.return ↦ some (print_return sym alloc i)
  | OpType.retrieve ↦ print_retrieve sym alloc i
  | OpType.uminus ↦ print_uminus sym alloc i
  | OpType.binary_arithmetic ↦ print_binary_arithmetic sym alloc i
  | OpType.label ↦ some (Op.label i.label ∷ [])
  | OpType.if_jump ↦ print_if sym alloc i
  | OpType.goto ↦ print_goto i
  | OpType.index_array ↦ print_index_array sym alloc i
  | OpType.deref ↦ print_deref sym alloc i
]

abbrev pub is_global_declaration : OpType → Bool
is_global_declaration OpType.global = true
is_global_declaration _ = false

-- The loop: dead instructions are passed over and do not count as the last one.
unfoldable pub print_instructions :
    Symbols → Allocation → Bool → List (Inode × Set) → Option (List Op)
unfolding print_one
print_instructions sym alloc after_global [] = some []
print_instructions sym alloc after_global ((i, live_at_call) ∷ rest) =
    let skipped = print_instructions sym alloc after_global rest in
    let later = print_instructions sym alloc (is_global_declaration i.op_type) rest in
    if i.dead then skipped else (do
      ops ← print_one sym alloc after_global i live_at_call
      more ← later
      some (ops ++ more))

-- Each string of the list gets its text and an alignment, after the start of the data segment.
unfoldable pub string_lines : Symbols → List ℕ → List Op
string_lines sym [] = []
string_lines sym (str_node ∷ rest) =
    Op.asciiz (sym str_node).name (sym str_node).const_str ∷ Op.align ∷ string_lines sym rest

unfoldable pub print_strings : Symbols → List ℕ → List Op
unfolding string_lines
print_strings sym [] = []
print_strings sym (str_node ∷ rest) = Op.data_segment ∷ string_lines sym (str_node ∷ rest)
