-- ===== src/Translation.antt =====
-- code_translation.c: the printing of three-address instructions as MIPS code. A function returns
-- the lines that it prints, without comments.
pub mod Frame
pub mod Calls
pub mod Instructions
pub mod Program
pub mod Lines
pub mod Saves
pub mod Restored
pub mod Homes
pub mod Scalars
pub mod Exact
pub mod Kept
use csc.Common.{
  ℕ, ◌+◌, ◌-◌, ◌/◌, ◌%◌, ◌^◌, Bool, true, false, Option, none, some, List, [], ◌∷◌, ◌==◌,
  if◌then◌else◌, ltb,
}
use csc.Symbol.{Symbols, Symbol, SymType, is_addr, is_local}
use csc.Set.{Set}
use csc.Instruction.{InstructionType}
use csc.Mips.{Reg, MemOp, Address, OpName, Op}

-- What register allocation leaves in the entries: for each, `none` where `live_range_node` is NULL,
-- and `some none` where its `reg` is -1; for functions, `entered` and `registers_used`; and the
-- array of local variables by id.
pub record Allocation : Type 0 where
  pub live_range_node : ℕ → Option (Option ℕ)
  pub entered : ℕ → Bool
  pub registers_used : ℕ → Set
  pub local_variables : ℕ → ℕ

abbrev pub num_reserved_reg : ℕ
num_reserved_reg = 2

unfoldable pub get_register_name : ℕ → Reg
get_register_name reg = if ltb reg 10 then Reg.t reg else Reg.s (reg - 10)

unfoldable pub is_var_in_memory : Allocation → ℕ → Bool
is_var_in_memory alloc var = elim (alloc.live_range_node var) [
  | none ↦ true
  | some none ↦ true
  | some (some reg) ↦ false
]

unfoldable pub find_register : Allocation → ℕ → ℕ → ℕ
find_register alloc var default_reg = elim (alloc.live_range_node var) [
  | none ↦ default_reg
  | some none ↦ default_reg
  | some (some reg) ↦ reg + num_reserved_reg
]

unfoldable pub get_mem_op_type : SymType → MemOp
get_mem_op_type SymType.char = MemOp.byte
get_mem_op_type SymType.bool = MemOp.byte
get_mem_op_type SymType.int = MemOp.word
get_mem_op_type SymType.word = MemOp.word
get_mem_op_type _ = MemOp.address

unfoldable pub get_operation_name : InstructionType → OpName
get_operation_name InstructionType.plus = OpName.add
get_operation_name InstructionType.binary_minus = OpName.sub
get_operation_name InstructionType.mult = OpName.mul
get_operation_name InstructionType.div = OpName.div
get_operation_name InstructionType.le = OpName.le
get_operation_name InstructionType.eq = OpName.eq
get_operation_name InstructionType.lt = OpName.lt
get_operation_name InstructionType.gt = OpName.gt
get_operation_name InstructionType.ne = OpName.ne
get_operation_name InstructionType.ge = OpName.ge

-- Constants are not negative: a minus sign is an operation of its own.
unfoldable pub load_int_to_register : ℕ → Reg → List Op
load_int_to_register integer reg =
    let high = integer / 2 ^ 16 in
    let low = integer % 2 ^ 16 in
    if high == 0 then Op.li reg integer ∷ [] else Op.lui reg high ∷ Op.ori reg low ∷ []

-- The place of a variable that is not in a register.
abbrev pub address_of : Symbol → Address
address_of addr =
    if is_local addr.scope then Address.based addr.fp_offset Reg.fp else Address.symbol addr.name

unfoldable pub load_from_memory : Symbols → ℕ → Reg → SymType → List Op
unfolding load_int_to_register get_mem_op_type
load_from_memory sym addr reg dest_type =
    if (sym addr).is_constant
    then load_int_to_register (sym addr).const_val reg
    else (Op.load (get_mem_op_type dest_type) reg (address_of (sym addr)) ∷ [])

unfoldable pub store_at_memory : Symbols → ℕ → Reg → List Op
unfolding get_mem_op_type
store_at_memory sym addr reg =
    let mem_op_type =
      if is_addr (sym addr).type
      then get_mem_op_type SymType.word
      else get_mem_op_type (sym addr).type in
    Op.store mem_op_type reg (address_of (sym addr)) ∷ []

abbrev pub copy_from_register : Reg → Reg → List Op
copy_from_register reg_src reg_dest = Op.move reg_dest reg_src ∷ []

abbrev pub reg_to_char : Reg → List Op
reg_to_char reg = Op.shift_left reg reg 24 ∷ Op.shift_right_arithmetic reg reg 24 ∷ []

-- An operand that is in memory is brought into its register.
unfoldable pub fetch : Symbols → Allocation → ℕ → Reg → List Op
unfolding is_var_in_memory load_from_memory
fetch sym alloc var reg =
    if is_var_in_memory alloc var then load_from_memory sym var reg (sym var).type else []

abbrev pub is_char : SymType → Bool
is_char SymType.char = true
is_char _ = false

abbrev pub is_int : SymType → Bool
is_int SymType.int = true
is_int _ = false

abbrev pub is_array_type : SymType → Bool
is_array_type SymType.array = true
is_array_type _ = false
