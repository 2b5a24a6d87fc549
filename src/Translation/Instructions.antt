-- ===== src/Translation/Instructions.antt =====
-- code_translation.c: the cases of print_instructions. `none` is a read through a null operand, or
-- of a size that was not set.
use csc.Common.{
  ℕ, ◌*◌, Bool, not, ◌&&◌, Option, none, some, List, [], ◌∷◌, ◌++◌, ◌==◌, if◌then◌else◌, ◌>>=◌, ◌%◌,
}
use csc.Symbol.{Symbols, Symbol, SymType, is_addr, ℤ, negate}
use csc.Instruction.{Inode}
use csc.Mips.{Reg, MemOp, Address, Op, OpName}
use csc.Translation.{
  Allocation, get_register_name, is_var_in_memory, find_register, get_mem_op_type,
  get_operation_name, load_from_memory, store_at_memory, copy_from_register, reg_to_char, fetch,
  is_char, is_int, is_array_type,
}
use csc.Translation.Frame.{
  save_registers_at_function_enter, restore_callee_saved_registers, load_address,
}

unfoldable pub global_size : Symbol → Option ℕ
global_size var = elim var.type [
  | SymType.int ↦ some 4
  | SymType.char ↦ some 1
  | SymType.array ↦ some (if is_char var.elt_type then var.num_elts else 4 * var.num_elts)
  | _ ↦ none
]

-- Before the first global of a run of globals the data segment starts.
unfoldable pub print_global : Symbols → Bool → Inode → Option (List Op)
unfolding global_size
print_global sym after_global i = do
  var ← i.src1
  byte_size ← global_size (sym var)
  some (
      (if after_global then [] else Op.data_segment ∷ [])
      ++ (Op.space (sym var).name byte_size ∷ (if byte_size % 4 == 0 then [] else Op.align ∷ [])))

unfoldable pub print_enter : Symbols → Allocation → Bool → Inode → Option (List Op)
unfolding save_registers_at_function_enter
print_enter sym alloc after_global i = do
  function_ptr ← i.src1
  some (
      (if after_global then Op.text_segment ∷ [] else [])
      ++ (Op.entry (sym function_ptr).name
          ∷ (save_registers_at_function_enter (alloc.registers_used function_ptr)
              ++ (load_address Reg.fp (ℤ.pos 0) Reg.sp
                  ∷ load_address Reg.sp (negate (sym function_ptr).byte_size) Reg.sp
                  ∷ []))))

-- `dest->type == t_Char && SRC1->type == t_Int`.
abbrev pub narrows : Symbols → ℕ → ℕ → Bool
narrows sym src dest = is_char (sym dest).type && is_int (sym src).type

-- The first `if` of OP_Assign: the source is brought into a register.
unfoldable pub assign_load : Symbols → Allocation → ℕ → ℕ → List Op
unfolding is_var_in_memory load_from_memory get_register_name find_register
assign_load sym alloc src dest =
    let src_reg_name = get_register_name (find_register alloc src 0) in
    let dest_reg_name = get_register_name (find_register alloc dest 0) in
    if not (is_var_in_memory alloc src)
    then []
    else if is_var_in_memory alloc dest
    then load_from_memory sym src src_reg_name (sym src).type
    else load_from_memory sym src dest_reg_name (sym src).type
      ++ (if narrows sym src dest then reg_to_char dest_reg_name else [])

-- The second: it is brought from there to its destination.
unfoldable pub assign_store : Symbols → Allocation → ℕ → ℕ → List Op
unfolding is_var_in_memory load_from_memory store_at_memory get_register_name find_register
assign_store sym alloc src dest =
    let src_reg = find_register alloc src 0 in
    let dest_reg = find_register alloc dest 0 in
    let src_reg_name = get_register_name src_reg in
    let dest_reg_name = get_register_name dest_reg in
    if is_addr (sym dest).type
    then load_from_memory sym dest (Reg.t 1) SymType.word
      ++ (Op.store (get_mem_op_type (sym dest).elt_type) src_reg_name
            (Address.based (ℤ.pos 0) (Reg.t 1))
          ∷ [])
    else if is_var_in_memory alloc src && not (is_var_in_memory alloc dest)
    then []
    else if is_var_in_memory alloc dest
    then store_at_memory sym dest src_reg_name
    else (if src_reg == dest_reg then [] else copy_from_register src_reg_name dest_reg_name)
      ++ (if narrows sym src dest then reg_to_char dest_reg_name else [])

unfoldable pub print_assign : Symbols → Allocation → Inode → Option (List Op)
unfolding assign_load assign_store
print_assign sym alloc i = do
  src ← i.src1
  dest ← i.dest
  some (assign_load sym alloc src dest ++ assign_store sym alloc src dest)

unfoldable pub print_param : Symbols → Allocation → Inode → Option (List Op)
unfolding fetch load_from_memory get_register_name find_register
print_param sym alloc i = do
  src ← i.src1
  let reg_name = get_register_name (find_register alloc src 0)
  some (
      (if (sym src).formal && is_array_type (sym src).type
        then load_from_memory sym src reg_name SymType.word
        else fetch sym alloc src reg_name)
      ++ (load_address Reg.sp (negate 4) Reg.sp
          ∷ Op.store MemOp.word reg_name (Address.based (ℤ.pos 0) Reg.sp)
          ∷ []))

unfoldable pub print_leave : Allocation → Inode → Option (List Op)
unfolding restore_callee_saved_registers
print_leave alloc i = do
  function_ptr ← i.src1
  some (restore_callee_saved_registers (alloc.registers_used function_ptr))

-- The lines after the value is in $v0.
abbrev pub return_to_caller : List Op
return_to_caller =
    load_address Reg.sp (ℤ.pos 0) Reg.fp
    ∷ Op.load MemOp.word Reg.ra (Address.based (ℤ.pos 0) Reg.sp)
    ∷ Op.load MemOp.word Reg.fp (Address.based (ℤ.pos 4) Reg.sp)
    ∷ load_address Reg.sp (ℤ.pos 8) Reg.sp
    ∷ Op.jr Reg.ra
    ∷ []

unfoldable pub print_return : Symbols → Allocation → Inode → List Op
unfolding is_var_in_memory load_from_memory get_register_name find_register
print_return sym alloc i =
    (elim i.src1 [
      | none ↦ []
      | some src ↦
          if is_var_in_memory alloc src
          then load_from_memory sym src Reg.v0 (sym src).type
          else copy_from_register (get_register_name (find_register alloc src 0)) Reg.v0
    ])
    ++ return_to_caller

unfoldable pub print_retrieve : Symbols → Allocation → Inode → Option (List Op)
unfolding is_var_in_memory store_at_memory get_register_name find_register
print_retrieve sym alloc i = do
  dest ← i.dest
  some (
      if is_var_in_memory alloc dest
      then store_at_memory sym dest Reg.v0
      else copy_from_register Reg.v0 (get_register_name (find_register alloc dest 0)))

-- What follows a computation: a result in memory is stored, one in a register cut to a char.
unfoldable pub put_result : Symbols → Allocation → ℕ → Reg → List Op
unfolding is_var_in_memory store_at_memory
put_result sym alloc dest dest_reg_name =
    if is_var_in_memory alloc dest
    then store_at_memory sym dest dest_reg_name
    else if is_char (sym dest).type
    then reg_to_char dest_reg_name
    else []

unfoldable pub print_uminus : Symbols → Allocation → Inode → Option (List Op)
unfolding fetch put_result get_register_name find_register
print_uminus sym alloc i = do
  src ← i.src1
  dest ← i.dest
  let src_reg_name = get_register_name (find_register alloc src 0)
  let dest_reg_name = get_register_name (find_register alloc dest 0)
  some (
      fetch sym alloc src src_reg_name
      ++ (Op.neg dest_reg_name src_reg_name ∷ put_result sym alloc dest dest_reg_name))

unfoldable pub print_binary_arithmetic : Symbols → Allocation → Inode → Option (List Op)
unfolding fetch put_result get_register_name find_register get_operation_name
print_binary_arithmetic sym alloc i = do
  src1 ← i.src1
  src2 ← i.src2
  dest ← i.dest
  let src1_reg_name = get_register_name (find_register alloc src1 0)
  let src2_reg_name = get_register_name (find_register alloc src2 1)
  let dest_reg_name = get_register_name (find_register alloc dest 0)
  some (
      fetch sym alloc src1 src1_reg_name
      ++ (fetch sym alloc src2 src2_reg_name
          ++ (Op.binary (get_operation_name i.type) dest_reg_name src1_reg_name src2_reg_name
              ∷ put_result sym alloc dest dest_reg_name)))

unfoldable pub print_if : Symbols → Allocation → Inode → Option (List Op)
unfolding fetch get_register_name find_register get_operation_name
print_if sym alloc i = do
  src1 ← i.src1
  src2 ← i.src2
  destiny ← i.jump_to
  let src1_reg_name = get_register_name (find_register alloc src1 0)
  let src2_reg_name = get_register_name (find_register alloc src2 1)
  some (
      fetch sym alloc src1 src1_reg_name
      ++ (fetch sym alloc src2 src2_reg_name
          ++ (Op.branch (get_operation_name i.type) src1_reg_name src2_reg_name (some destiny)
              ∷ [])))

unfoldable pub print_goto : Inode → Option (List Op)
print_goto i = do destiny ← i.jump_to; some (Op.jump (some destiny) ∷ [])

unfoldable pub print_index_array : Symbols → Allocation → Inode → Option (List Op)
unfolding fetch is_var_in_memory load_from_memory store_at_memory get_register_name find_register
print_index_array sym alloc i = do
  src1 ← i.src1
  src2 ← i.src2
  dest ← i.dest
  let src_reg_name = get_register_name (find_register alloc src1 0)
  let dest_reg_name = get_register_name (find_register alloc dest 0)
  let base_type = if (sym src2).formal then SymType.word else SymType.addr
  some (
      fetch sym alloc src1 src_reg_name
      ++ (load_from_memory sym src2 (Reg.t 1) base_type
          ++ ((if is_int (sym src2).elt_type
                then Op.shift_left (Reg.t 0) src_reg_name 2
                  ∷ Op.binary OpName.add dest_reg_name (Reg.t 0) (Reg.t 1)
                  ∷ []
                else Op.binary OpName.add dest_reg_name src_reg_name (Reg.t 1) ∷ [])
              ++ (if is_var_in_memory alloc dest
                  then store_at_memory sym dest dest_reg_name
                  else []))))

unfoldable pub print_deref : Symbols → Allocation → Inode → Option (List Op)
unfolding is_var_in_memory load_from_memory store_at_memory get_register_name find_register
    get_mem_op_type
print_deref sym alloc i = do
  src ← i.src1
  dest ← i.dest
  let dest_reg_name = get_register_name (find_register alloc dest 0)
  some (
      load_from_memory sym src (Reg.t 0) SymType.word
      ++ (Op.load (get_mem_op_type (sym dest).type) dest_reg_name
            (Address.based (ℤ.pos 0) (Reg.t 0))
          ∷ (if is_var_in_memory alloc dest then store_at_memory sym dest dest_reg_name else [])))
