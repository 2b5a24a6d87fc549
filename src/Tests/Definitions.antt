-- ===== src/Tests/Definitions.antt =====
-- A block that defines one variable twice and another once.
use csc.ReachingDefinitions.Loop.{DefFlow, def_flow, find_in_and_out_def_sets}
use csc.ReachingDefinitions.Loop.Growth.{IsFormed}
use csc.ReachingDefinitions.Loop.Solution.{IsStart, IsSolution, enough, definitions_solved}
use csc.Common.{
  ℕ, zero, suc, ◌+◌, ◌<◌, Bool-cases, inl, inr, ◌≡◌, refl, false, ◌||◌, none, some, List, [], ◌∷◌,
  ◌==◌, if◌then◌else◌, arith,
}
use csc.Symbol.{SymType, Scope, Symbols, zero_symbol}
use csc.Set.{
  create_empty_set, add_to_set, remove_from_set, unify_sets, diff_sets, does_elto_belong_to_set,
  is_set_undefined,
}
use csc.Set.Words.{IsWellFormed, empty-IsWellFormed}
use csc.Set.Laws.{add-IsWellFormed}
use csc.Instruction.{Inode, OpType, InstructionType, redefines_variable}
use csc.ReachingDefinitions.{Definitions, find_gen_and_kill_sets, out_of_in, fill_definitions}
use csc.ReachingDefinitions.Filled.{IsFilling, any_in_blocks, fill_exact}
use csc.ReachingDefinitions.Transfer.{has, out_exact, AreNumbered, IsNumbered, reach_end}

abbrev symbols : Symbols
symbols a = record zero_symbol { scope = Scope.local; type = SymType.int; id = a }

abbrev assign : ℕ → ℕ → Inode
assign d number = record {
  op_type = OpType.assign;
  dest = some d;
  label = none;
  type = InstructionType.plus;
  jump_to = none;
  src1 = some 9;
  src2 = none;
  definition_id = number;
  dead = false;
}

abbrev block : List Inode
block = assign 0 0 ∷ assign 1 1 ∷ assign 0 2 ∷ []

abbrev undefined : Definitions
undefined d = record { max_size = 0; num_partitions = 0; mask = none }

-- The definitions of variable 0 are 0 and 2, that of variable 1 is 1.
abbrev definitions : Definitions
definitions d =
    if d == 0
    then add_to_set 2 (add_to_set 0 (create_empty_set 3))
    else add_to_set 1 (create_empty_set 3)

one-IsWellFormed : (e : ℕ) → e < 3 → IsWellFormed 3 (add_to_set e (create_empty_set 3))
one-IsWellFormed e h = add-IsWellFormed 3 (create_empty_set 3) (empty-IsWellFormed 3) e h

definitions-IsWellFormed : (d : ℕ) → IsWellFormed 3 (definitions d)
definitions-IsWellFormed d = elim (Bool-cases (d == 0)) [
  | inl e ↦ rw e (
      add-IsWellFormed 3 (add_to_set 0 (create_empty_set 3)) (one-IsWellFormed 0 (omega arith)) 2
        (omega arith))
  | inr e ↦ rw e (one-IsWellFormed 1 (omega arith))
]

assign-IsNumbered : (d number : ℕ) → number < 3 → IsNumbered 3 symbols definitions (assign d number)
assign-IsNumbered d number h = record { below = h; filled = λ e p. definitions-IsWellFormed e }

block-AreNumbered : AreNumbered 3 symbols definitions block
block-AreNumbered = (
  assign-IsNumbered 0 0 (omega arith),
  (assign-IsNumbered 1 1 (omega arith), (assign-IsNumbered 0 2 (omega arith), tt)),
)

out_exact_example :
    has (out_of_in (find_gen_and_kill_sets 3 symbols definitions block) (create_empty_set 3)) 0
    ≡ reach_end symbols definitions block (has (create_empty_set 3)) 0
out_exact_example =
    out_exact 3 symbols definitions block (create_empty_set 3) block-AreNumbered
      (empty-IsWellFormed 3) 0

-- Definition 0 does not reach the end, definition 2 does.
overwritten :
    has (out_of_in (find_gen_and_kill_sets 3 symbols definitions block) (create_empty_set 3)) 0
    ≡ false
unfolding out_of_in find_gen_and_kill_sets does_elto_belong_to_set create_empty_set add_to_set
    remove_from_set unify_sets diff_sets redefines_variable
overwritten = refl

undefined-IsFilling : IsFilling 3 undefined
unfolding is_set_undefined
undefined-IsFilling d h = ground arith

fill_exact_example :
    IsFilling 3 (fill_definitions 3 symbols (block ∷ []) undefined)
    × ((d v : ℕ)
        → has (fill_definitions 3 symbols (block ∷ []) undefined d) v
          ≡ (any_in_blocks symbols d v (block ∷ []) || has (undefined d) v))
fill_exact_example =
    fill_exact 3 symbols (block ∷ []) undefined
      ((omega arith, (omega arith, (omega arith, tt))), tt) undefined-IsFilling

-- One block that is its own parent: it makes definition 1 and kills definition 0.
abbrev loop : List DefFlow
loop =
    record {
      parents = 0 ∷ [];
      gen = add_to_set 1 (create_empty_set 2);
      kill = add_to_set 0 (create_empty_set 2);
      out = add_to_set 1 (create_empty_set 2);
    }
    ∷ []

single-IsWellFormed : (v : ℕ) → v < 2 → IsWellFormed 2 (add_to_set v (create_empty_set 2))
single-IsWellFormed v = add-IsWellFormed 2 (create_empty_set 2) (empty-IsWellFormed 2) v

loop-IsStart : IsStart 2 loop
loop-IsStart = record { formed = formed; out_start = starts }
  where
    formed : (k : ℕ) → IsFormed 2 (def_flow 2 loop k)
    formed zero = record {
      gen_formed = single-IsWellFormed 1 (omega arith);
      kill_formed = single-IsWellFormed 0 (omega arith);
      out_formed = single-IsWellFormed 1 (omega arith);
    }
    formed (suc k) = record {
      gen_formed = empty-IsWellFormed 2;
      kill_formed = empty-IsWellFormed 2;
      out_formed = empty-IsWellFormed 2;
    }

    starts : (k : ℕ) → (def_flow 2 loop k).out ≡ (def_flow 2 loop k).gen
    starts zero = refl
    starts (suc k) = refl

definitions_solved_example :
    (r : List DefFlow) × (find_in_and_out_def_sets 2 (enough 2 loop + 1) loop ≡ some r)
    × IsSolution 2 loop r
definitions_solved_example = definitions_solved 2 loop loop-IsStart
