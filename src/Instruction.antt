-- ===== src/Instruction.antt =====
-- instruction.c and instruction.h: three-address instructions.
pub mod Invert
use csc.Common.{
  ℕ, Bool, true, false, ◌&&◌, ◌||◌, not, Option, none, some, ◌==◌, if◌then◌else◌, List, [], ◌∷◌,
}
use csc.Symbol.{Symbols, is_addr}

pub data OpType : Type 0 where
  assign call param retrieve enter return global uminus binary_arithmetic : OpType
  label if_jump goto index_array deref leave : OpType

pub data InstructionType : Type 0 where
  plus binary_minus mult div le eq lt gt ne ge : InstructionType

-- Operands are addresses of entries; `none` is NULL. `jump_to` and `label` name a label
-- instruction by its number.
pub record Inode : Type 0 where
  pub op_type : OpType
  pub dest : Option ℕ
  pub label : Option ℕ
  pub type : InstructionType
  pub jump_to : Option ℕ
  pub src1 : Option ℕ
  pub src2 : Option ℕ
  pub definition_id : ℕ
  pub dead : Bool

-- zalloc clears the fields that create_instruction does not fill: `type` is IT_Plus, the first.
unfoldable pub create_instruction : OpType → Option ℕ → Option ℕ → Option ℕ → Inode
create_instruction i_type src1 src2 dest = record {
  op_type = i_type;
  dest = dest;
  label = none;
  type = InstructionType.plus;
  jump_to = none;
  src1 = src1;
  src2 = src2;
  definition_id = 0;
  dead = false;
}

-- The counter of labels is passed and returned.
unfoldable pub create_label_instruction : ℕ → Inode × ℕ
unfolding create_instruction
create_label_instruction label_counter =
    let instruction = create_instruction OpType.label none none none in
    (record instruction { label = some label_counter }, ℕ.suc label_counter)

unfoldable pub create_expr_instruction :
    OpType → Option ℕ → Option ℕ → Option ℕ → InstructionType → Inode
unfolding create_instruction
create_expr_instruction i_type src1 src2 dest type =
    let instruction = create_instruction i_type src1 src2 dest in record instruction { type = type }

unfoldable pub create_global_decl_instruction : ℕ → Inode
unfolding create_instruction
create_global_decl_instruction var = create_instruction OpType.global (some var) none none

unfoldable pub create_cond_jump_instruction : Option ℕ → Option ℕ → ℕ → InstructionType → Inode
unfolding create_expr_instruction
create_cond_jump_instruction src1 src2 destiny_instruction type =
    let instruction = create_expr_instruction OpType.if_jump src1 src2 none type in
    record instruction { jump_to = some destiny_instruction }

unfoldable pub create_jump_instruction : ℕ → Inode
unfolding create_instruction
create_jump_instruction destiny_instruction =
    let instruction = create_instruction OpType.goto none none none in
    record instruction { jump_to = some destiny_instruction }

invert_type : InstructionType → InstructionType
invert_type InstructionType.eq = InstructionType.ne
invert_type InstructionType.ne = InstructionType.eq
invert_type InstructionType.le = InstructionType.gt
invert_type InstructionType.gt = InstructionType.le
invert_type InstructionType.ge = InstructionType.lt
invert_type InstructionType.lt = InstructionType.ge
invert_type type = type

unfoldable pub invert_boolean_operator : Inode → Inode
unfolding invert_type
invert_boolean_operator i = record i { type = invert_type i.type }

abbrev pub is_index_array : OpType → Bool
is_index_array OpType.index_array = true
is_index_array _ = false

abbrev pub is_assign : OpType → Bool
is_assign OpType.assign = true
is_assign _ = false

-- The operations whose `src1` names no variable.
abbrev pub names_no_variable : OpType → Bool
names_no_variable OpType.call = true
names_no_variable OpType.enter = true
names_no_variable OpType.global = true
names_no_variable _ = false

abbrev pub is_some {ℓ} : {A : Type ℓ} → Option A → Bool
is_some none = false
is_some (some _) = true

unfoldable pub redefines_variable : Symbols → Inode → Bool
redefines_variable sym i = elim i.dest [
  | none ↦ false
  | some d ↦ not (is_addr (sym d).type) || is_index_array i.op_type
]

unfoldable pub is_rhs_variable : Inode → Bool
is_rhs_variable i = is_some i.src1 && not (names_no_variable i.op_type)

-- `dest == SRC1`, as pointers.
abbrev pub same_operand : Option ℕ → Option ℕ → Bool
same_operand none none = true
same_operand (some a) (some b) = a == b
same_operand _ _ = false
