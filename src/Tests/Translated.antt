-- ===== src/Tests/Translated.antt =====
-- Code printed for a function whose first callee-saved register is in use, and for three integers:
-- a constant, one in a register and one in the frame.
use csc.Common.{
  ℕ, zero, suc, ◌+◌, true, false, Option, none, some, List, [], ◌∷◌, ◌≡◌, refl, arith, map,
}
use csc.Symbol.{Symbol, zero_symbol, SymType, Scope, ℤ}
use csc.Set.{Set, create_empty_set, add_to_set, does_elto_belong_to_set}
use csc.Set.Words.{empty-IsWellFormed}
use csc.Set.Laws.{add-IsWellFormed}
use csc.Instruction.{InstructionType, OpType, create_instruction, create_expr_instruction}
use csc.Mips.{Assembly, Cpu, Reg, number, OpName, MemOp, Address, Op}
use csc.Translation.{
  Allocation, get_operation_name, is_var_in_memory, find_register, get_register_name,
}
use csc.Translation.Frame.{saved_name}
use csc.Translation.Calls.{
  is_kept, save_variable, save_reg_allocated_variables_in_memory,
  load_reg_allocated_variables_from_memory,
}
use csc.Translation.Restored.{printed, enter_code, return_code, in_body, returns_restored}
use csc.Translation.Homes.{value}
use csc.Translation.Exact.{Assigns, translated_exact}
use csc.Translation.Kept.{kept_back, lines_of, load_back, KeepsScalars}

abbrev used : Set
used = add_to_set 8 (create_empty_set 16)

-- Entry 1 is the constant 7, 2 is in $t2, and 3 lies 4 below the frame pointer.
abbrev entry_of : ℕ → Symbol
entry_of (suc zero) = record zero_symbol { type = SymType.int; is_constant = true; const_val = 7 }
entry_of (suc (suc (suc zero))) = record zero_symbol {
  type = SymType.int;
  scope = Scope.local;
  fp_offset = ℤ.negsuc 3;
}
entry_of _ = record zero_symbol { type = SymType.int; scope = Scope.local; byte_size = 8 }

abbrev registers_of : ℕ → Option (Option ℕ)
registers_of (suc (suc zero)) = some (some 0)
registers_of _ = none

abbrev allocation : Allocation
allocation = record {
  live_range_node = registers_of;
  entered = λ _. false;
  registers_used = λ _. used;
  local_variables = λ i. i;
}

abbrev sums : OpName → ℕ → ℕ → ℕ
sums o x y = x + y

abbrev assembly : Assembly
assembly = record { place = λ _. 4096; compute = sums; negated = λ x. x }

abbrev caller : Cpu
caller = record { regs = λ n. 100 + n; memory = λ _. 0; target = none }

-- Register 8 is saved; a function that uses no register restores the frame alone.
returns_restored_example :
    (printed assembly (enter_code assembly entry_of allocation 0 false) caller
      ≡ some (in_body assembly entry_of allocation 0 caller))
    × (e : Cpu) × (printed assembly
          (return_code assembly entry_of allocation 0)
          (in_body assembly entry_of allocation 0 caller)
        ≡ some e)
    × (e.target ≡ some (caller.regs (number Reg.ra)))
    × (e.regs (number Reg.fp) ≡ caller.regs (number Reg.fp))
    × (e.regs (number Reg.sp) ≡ caller.regs (number Reg.sp))
    × (e.regs (number (saved_name 8)) ≡ caller.regs (number (saved_name 8)))
    × (e.regs (number Reg.v0)
        ≡ (in_body assembly entry_of allocation 0 caller).regs (number Reg.v0))
    × (e.memory ≡ (in_body assembly entry_of allocation 0 caller).memory)
unfolding does_elto_belong_to_set add_to_set create_empty_set
returns_restored_example =
    returns_restored assembly entry_of allocation 0 caller
      (in_body assembly entry_of allocation 0 caller) (omega arith) refl (λ x p q. refl) false 8

abbrev plain_allocation : Allocation
plain_allocation = record allocation { registers_used = λ _. create_empty_set 16 }

plain_function :
    (e : Cpu) × (printed assembly
        (return_code assembly entry_of plain_allocation 0)
        (in_body assembly entry_of plain_allocation 0 caller)
      ≡ some e)
    × (e.regs (number Reg.sp) ≡ caller.regs (number Reg.sp))
unfolding does_elto_belong_to_set create_empty_set
plain_function =
    let (entered, e, ran, target, fp, sp, kept, value_kept, memory_kept) =
      returns_restored assembly entry_of plain_allocation 0 caller
        (in_body assembly entry_of plain_allocation 0 caller) (omega arith) refl (λ x p q. refl)
        false 8 in
    (e, ran, sp)

translated_exact_example :
    Assigns assembly entry_of allocation false used caller 3 2
      (create_instruction OpType.assign (some 1) none (some 3))
      (value assembly entry_of allocation caller 1)
    × Assigns assembly entry_of allocation false used caller 3 2
        (create_instruction OpType.uminus (some 1) none (some 3))
        (assembly.negated (value assembly entry_of allocation caller 1))
    × Assigns assembly entry_of allocation false used caller 3 2
        (create_expr_instruction OpType.binary_arithmetic
          (some 1)
          (some 2)
          (some 3)
          InstructionType.plus)
        (assembly.compute
          (get_operation_name InstructionType.plus)
          (value assembly entry_of allocation caller 1)
          (value assembly entry_of allocation caller 2))
unfolding is_var_in_memory
translated_exact_example =
    translated_exact assembly entry_of allocation false used caller 3 2 InstructionType.plus 1 2
      (record { word = refl; small = omega arith }) (record { word = refl; small = omega arith })
      (record { word = refl; small = omega arith }) refl refl

-- Variable 2 is live after a call of a function that was not parsed yet.
abbrev live : Set
live = add_to_set 2 (create_empty_set 4)

scalars : KeepsScalars entry_of allocation 0
unfolding is_kept
scalars zero h = (refl, refl)
scalars (suc zero) h = absurd (ground arith)
scalars (suc (suc zero)) h = (refl, refl)
scalars (suc (suc (suc zero))) h = (refl, refl)
scalars (suc (suc (suc (suc i)))) h = (refl, refl)

kept_back_example :
    (saves : List Op) × (save_reg_allocated_variables_in_memory entry_of allocation 0 live
      ≡ some saves)
    × (saves ≡ lines_of 5 0 live (save_variable entry_of allocation 0))
    × (load_reg_allocated_variables_from_memory entry_of allocation 0 live
        ≡ some (map load_back saves))
unfolding add_to_set create_empty_set
kept_back_example =
    kept_back entry_of allocation 0 live
      (add-IsWellFormed 4 (create_empty_set 4) (empty-IsWellFormed 4) 2 (omega arith)) scalars

-- Only the variable in a register is kept.
kept_one :
    lines_of 5 0 live (save_variable entry_of allocation 0)
    ≡ Op.store MemOp.word (Reg.t 2) (Address.based (ℤ.pos 0) Reg.fp) ∷ []
unfolding does_elto_belong_to_set add_to_set create_empty_set save_variable is_kept find_register
    get_register_name
kept_one = refl
