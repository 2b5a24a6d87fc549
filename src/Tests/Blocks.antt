-- ===== src/Tests/Blocks.antt =====
-- A block that computes a value that is used, and one that is not.
use csc.Common.{
  ℕ, zero, suc, ◌+◌, ◌≡◌, refl, true, false, not, ltb, arith, Option, some, none, List, [], ◌∷◌,
  if◌then◌else◌, map,
}
use csc.Symbol.{zero_symbol, Symbols, SymType, Scope}
use csc.Set.{
  create_empty_set, add_to_set, clone_set, unify_sets, diff_sets, does_elto_belong_to_set,
}
use csc.Set.Words.{empty-IsWellFormed}
use csc.Instruction.{
  redefines_variable, is_rhs_variable, Inode, OpType, InstructionType, invert_boolean_operator,
  create_cond_jump_instruction,
}
use csc.Instruction.Invert.{compares, negated, compares-invert}
use csc.Liveness.{operand_sets, is_null_assignment, find_def_and_use_sets}
use csc.Liveness.Operands.{IdsBelow}
use csc.Liveness.Loop.{Flow, flow, find_in_and_out}
use csc.Set.Laws.{add-IsWellFormed}
use csc.Liveness.Loop.Growth.{IsFormed}
use csc.Liveness.Loop.Solution.{IsStart, IsSolution, enough, liveness_solved}
use csc.DeadCode.{remove_dead_in_block}
use csc.DeadCode.LiveIn.{live_in_agrees}
use csc.DeadCode.Step.{UniqueIds, AllLowered, Agree}
use csc.DeadCode.Sound.{remove_dead_sound}
use csc.Machine.{Machine, State, run}

-- Addresses 0, 1 and 2 are local variables, all others constants.
abbrev pub symbols : Symbols
symbols a = record zero_symbol {
  scope = Scope.local;
  formal = false;
  type = SymType.int;
  elt_type = SymType.none;
  is_temporary = false;
  is_constant = not (ltb a 3);
  const_val = a;
  id = if ltb a 3 then a else 0;
}

abbrev pub op : OpType → Option ℕ → Option ℕ → Inode
op o dest src = record {
  op_type = o;
  dest = dest;
  label = none;
  type = InstructionType.plus;
  jump_to = none;
  src1 = src;
  src2 = none;
  definition_id = 0;
  dead = false;
}

-- v0 = 7; v1 = v0; param v0;
abbrev pub block : List Inode
block =
    op OpType.assign (some 0) (some 7)
    ∷ op OpType.assign (some 1) (some 0)
    ∷ op OpType.param none (some 0)
    ∷ []

abbrev pub machine : Machine
machine = record {
  World = List ℕ;
  read_global = λ w a. 0;
  compute = λ i a b w. a;
  effect = λ i a b d w. if is_null_assignment i then w else a ∷ w;
  copies = λ i a b w e. refl;
  rewrites = λ i d b w e to. rw e refl;
}

pub ids : IdsBelow 3 symbols
ids a e = ground arith

pub unique : UniqueIds symbols
unique a b ta tb e = ground arith

abbrev pub start : State machine symbols
start = record { vars = λ a. 0; world = [] }

pub lowered : AllLowered symbols block
lowered = (
  record { variable = λ d e. ground arith; no_self_store = λ e. cc },
  (
    record { variable = λ d e. ground arith; no_self_store = λ e. cc },
    (record { variable = λ d e. cc; no_self_store = λ e. cc }, tt),
  ),
)

-- The second assignment is found dead, the others stay.
marks :
    map (λ i. i.dead) (remove_dead_in_block 3 symbols (create_empty_set 3) block).instructions
    ≡ false ∷ true ∷ false ∷ []
unfolding remove_dead_in_block does_elto_belong_to_set unify_sets diff_sets create_empty_set
    add_to_set redefines_variable is_rhs_variable clone_set operand_sets
marks = refl

remove_dead_sound_example :
    Agree machine 3 symbols ids unique (create_empty_set 3) (run machine symbols block start) (
      run machine symbols
        (remove_dead_in_block 3 symbols (create_empty_set 3) block).instructions
        start)
remove_dead_sound_example =
    remove_dead_sound machine 3 symbols ids unique (create_empty_set 3) block start start
      (empty-IsWellFormed 3) lowered (record { same_world = refl; same_vars = λ a tr alive. refl })

live_in_agrees_example :
    does_elto_belong_to_set 0 (remove_dead_in_block 3 symbols (create_empty_set 3) block).live
    ≡ does_elto_belong_to_set 0 (
        unify_sets
          (find_def_and_use_sets 3 symbols block).1
          (diff_sets (create_empty_set 3) (find_def_and_use_sets 3 symbols block).0))
live_in_agrees_example =
    live_in_agrees 3 symbols ids (create_empty_set 3) (empty-IsWellFormed 3) block 0

-- One block that is its own successor: it uses variable 0 and defines variable 1.
abbrev loop : List Flow
loop =
    record {
      children = 0 ∷ [];
      def = add_to_set 1 (create_empty_set 3);
      use_set = add_to_set 0 (create_empty_set 3);
      in_set = add_to_set 0 (create_empty_set 3);
      out = create_empty_set 3;
    }
    ∷ []

loop-IsStart : IsStart 3 loop
loop-IsStart = record { formed = formed; in_start = same_in; out_start = no_out }
  where
    formed : (k : ℕ) → IsFormed 3 (flow 3 loop k)
    formed zero = record {
      def_formed = add-IsWellFormed 3 (create_empty_set 3) (empty-IsWellFormed 3) 1 (omega arith);
      use_formed = add-IsWellFormed 3 (create_empty_set 3) (empty-IsWellFormed 3) 0 (omega arith);
      in_formed = add-IsWellFormed 3 (create_empty_set 3) (empty-IsWellFormed 3) 0 (omega arith);
      out_formed = empty-IsWellFormed 3;
    }
    formed (suc k) = record {
      def_formed = empty-IsWellFormed 3;
      use_formed = empty-IsWellFormed 3;
      in_formed = empty-IsWellFormed 3;
      out_formed = empty-IsWellFormed 3;
    }

    same_in : (k : ℕ) → (flow 3 loop k).in_set ≡ (flow 3 loop k).use_set
    same_in zero = refl
    same_in (suc k) = refl

    no_out : (k : ℕ) → (flow 3 loop k).out ≡ create_empty_set 3
    no_out zero = refl
    no_out (suc k) = refl

liveness_solved_example :
    (r : List Flow) × (find_in_and_out 3 (enough 3 loop + 1) loop ≡ some r) × IsSolution 3 loop r
liveness_solved_example = liveness_solved 3 loop loop-IsStart

compares-invert_example :
    compares
      (invert_boolean_operator
        (create_cond_jump_instruction (some 0) (some 1) 0 InstructionType.lt)).type
      4
      9
    ≡ negated
        (compares (create_cond_jump_instruction (some 0) (some 1) 0 InstructionType.lt).type 4 9)
compares-invert_example =
    compares-invert (create_cond_jump_instruction (some 0) (some 1) 0 InstructionType.lt) 4 9
