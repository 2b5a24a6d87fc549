-- ===== src/ControlFlow.antt =====
-- control_flow.c: the leaders of the basic blocks of a function, the block of each instruction and
-- the edges between blocks. An instruction is known by its place in the code; the fields of the
-- instructions and blocks that are written here are in the state. `none` as a result is a read or
-- write through a null pointer.
pub mod Leaders
pub mod Edges
pub mod Turns
pub mod Passes
pub mod Whole
use csc.Common.{
  ℕ, zero, suc, ◌+◌, ◌-◌, Bool, true, false, ◌||◌, Option, none, some, List, [], ◌∷◌, ◌==◌, ltb,
  if◌then◌else◌, get_or, length, ◌>>=◌,
}
use csc.Symbol.{Symbols}
use csc.Instruction.{OpType, InstructionType, Inode, same_operand, redefines_variable}
use csc.Block.{Blocks, set_field, create_block, connect_blocks}

pub record Graph : Type 0 where
  pub blocks : Blocks
  pub block : ℕ → Option ℕ
  pub first_instruction : ℕ → Option ℕ
  pub last_instruction : ℕ → Option ℕ
  pub order : ℕ → ℕ
  pub definition_id : ℕ → ℕ
  pub total_instructions : ℕ
  pub total_assignment_instructions : ℕ

-- What stands beyond the code is never looked at.
abbrev pub nothing : Inode
nothing = record {
  op_type = OpType.global;
  dest = none;
  label = none;
  type = InstructionType.plus;
  jump_to = none;
  src1 = none;
  src2 = none;
  definition_id = 0;
  dead = false;
}

abbrev pub instruction : List Inode → ℕ → Inode
instruction code k = get_or code k nothing

-- The place of a label instruction.
unfoldable pub label_place : ℕ → List Inode → Option ℕ
label_place l [] = none
label_place l (x ∷ rest) =
    let later = label_place l rest in
    if same_operand x.label (some l)
    then some 0
    else elim later [ none ↦ none | some k ↦ some (suc k) ]

-- `jump_to` of the instruction at `k`.
unfoldable pub jump_place : List Inode → ℕ → Option ℕ
unfolding label_place
jump_place code k = elim (instruction code k).jump_to [ none ↦ none | some l ↦ label_place l code ]

abbrev pub declares_global : OpType → Bool
declares_global OpType.global = true
declares_global _ = false

abbrev pub is_jump : OpType → Bool
is_jump OpType.if_jump = true
is_jump OpType.goto = true
is_jump _ = false

abbrev pub starts_block : OpType → Bool
starts_block OpType.enter = true
starts_block OpType.call = true
starts_block _ = false

-- A new block with the instruction at `k` as its first.
unfoldable pub start_block : ℕ → Graph → Graph
unfolding create_block
start_block k g =
    let (b, blocks) = create_block g.blocks in
    record g {
      blocks = blocks;
      block = set_field g.block k (some b);
      first_instruction = set_field g.first_instruction b (some k);
      last_instruction = set_field g.last_instruction b none;
    }

-- The instruction at `k` becomes the leader of a new block, if it has none.
unfoldable pub lead : ℕ → Graph → Graph
unfolding start_block
lead k g = elim (g.block k) [ some b ↦ g | none ↦ start_block k g ]

unfoldable pub number_instruction : Symbols → ℕ → Inode → Graph → Graph
number_instruction sym k x g =
    let ordered = record g {
      order = set_field g.order k g.total_instructions;
      total_instructions = suc g.total_instructions;
    } in
    if redefines_variable sym x
    then record ordered {
      definition_id = set_field g.definition_id k g.total_assignment_instructions;
      total_assignment_instructions = suc g.total_assignment_instructions;
    }
    else ordered

-- The two leaders at a jump: its destination and the next instruction.
unfoldable pub lead_jump : List Inode → ℕ → Graph → Option Graph
unfolding lead jump_place
lead_jump code k g = elim (jump_place code k) [
  | none ↦ none
  | some t ↦
      let led = lead t g in some (if ltb (suc k) (length code) then lead (suc k) led else led)
]

-- The loop body of find_block_leaders.
unfoldable pub find_leader : Symbols → List Inode → ℕ → Graph → Option Graph
unfolding number_instruction lead_jump
find_leader sym code k g =
    let x = instruction code k in
    let numbered = number_instruction sym k x g in
    if declares_global x.op_type
    then some g
    else if starts_block x.op_type
    then some (lead k numbered)
    else if is_jump x.op_type
    then lead_jump code k numbered
    else some numbered

-- The loop over the first `m` instructions.
unfoldable pub find_leaders : Symbols → List Inode → ℕ → Graph → Option Graph
unfolding find_leader
find_leaders sym code zero g = some g
find_leaders sym code (suc m) g = find_leaders sym code m g >>= find_leader sym code m

unfoldable pub find_block_leaders : Symbols → List Inode → Graph → Option Graph
unfolding find_leaders
find_block_leaders sym code g = find_leaders sym code (length code) g

-- The state of the loop of update_blocks.
pub record Walk : Type 0 where
  pub graph : Graph
  pub curr_block : Option ℕ

-- The edge from the block of the instruction before `suc p`, unless that one jumps here.
unfoldable pub fall_through : List Inode → ℕ → ℕ → Graph → Option Blocks
unfolding connect_blocks jump_place
fall_through code p b g =
    if same_operand (jump_place code p) (some (suc p)) then some g.blocks else elim (g.block p) [
      | none ↦ some g.blocks
      | some before ↦ connect_blocks (some before) (some b) g.blocks
    ]

-- Instruction `suc p` gets its block, or starts the current one.
unfoldable pub enter_block : List Inode → ℕ → Walk → Option Walk
unfolding fall_through
enter_block code p w = elim (w.graph.block (suc p)) [
  | none ↦
      some (record w {
        graph = record w.graph { block = set_field w.graph.block (suc p) w.curr_block };
      })
  | some b ↦ fall_through code p b w.graph >>= λ blocks.
      some (record { graph = record w.graph { blocks = blocks }; curr_block = some b })
]

unfoldable pub mark_last : ℕ → Walk → Option Walk
mark_last k w = elim w.curr_block [
  | none ↦ none
  | some b ↦ some (record w {
    graph = record w.graph { last_instruction = set_field w.graph.last_instruction b (some k) };
  })
]

-- The edge to the block of the destination of a jump.
unfoldable pub link_jump : List Inode → ℕ → Walk → Option Walk
unfolding connect_blocks jump_place
link_jump code k w =
    let linked : Option Walk = elim (jump_place code k) [
      | none ↦ none
      | some t ↦ connect_blocks w.curr_block (w.graph.block t) w.graph.blocks >>= λ blocks.
          some (record w { graph = record w.graph { blocks = blocks } })
    ] in
    if is_jump (instruction code k).op_type then linked else some w

-- The loop body of update_blocks, at the instruction after `p`.
unfoldable pub update_block : List Inode → ℕ → Walk → Option Walk
unfolding enter_block mark_last link_jump
update_block code p w =
    let updated = enter_block code p w >>= mark_last (suc p) >>= link_jump code (suc p) in
    if declares_global (instruction code (suc p)).op_type then some w else updated

-- The loop over the instructions 1 .. m.
unfoldable pub update_each : List Inode → ℕ → Walk → Option Walk
unfolding update_block
update_each code zero w = some w
update_each code (suc m) w = update_each code m w >>= update_block code m

unfoldable pub update_blocks : List Inode → Graph → Option Graph
unfolding update_each
update_blocks code g =
    update_each code (length code - 1) (record { graph = g; curr_block = g.block 0 }) >>= λ w.
    some w.graph
