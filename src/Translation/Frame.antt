-- ===== src/Translation/Frame.antt =====
-- code_translation.c: the registers that a function saves at its entry and restores before it
-- returns.
use csc.Common.{ℕ, zero, suc, ◌+◌, ◌-◌, ◌*◌, List, [], ◌∷◌, ◌++◌, if◌then◌else◌, ◌==◌}
use csc.Symbol.{ℤ, negate}
use csc.Set.{Set, does_elto_belong_to_set}
use csc.Mips.{Reg, MemOp, Address, Op}
use csc.Translation.{get_register_name}

-- Three loops `for (int reg = 8; reg < max_size; reg++)`, by the rounds left. The first counts.
unfoldable pub count_saved : ℕ → ℕ → Set → ℕ
count_saved zero reg used = 0
count_saved (suc rounds) reg used =
    (if does_elto_belong_to_set reg used then 1 else 0) + count_saved rounds (reg + 1) used

abbrev pub saved_name : ℕ → Reg
saved_name reg = get_register_name (reg + 2)

unfoldable pub save_each : ℕ → ℕ → ℕ → Set → List Op × ℕ
save_each zero reg pos used = ([], pos)
save_each (suc rounds) reg pos used =
    let taken = save_each rounds (reg + 1) (pos + 4) used in
    let skipped = save_each rounds (reg + 1) pos used in
    if does_elto_belong_to_set reg used
    then (
      Op.store MemOp.word (saved_name reg) (Address.based (ℤ.pos pos) Reg.sp) ∷ taken.0,
      taken.1,
    )
    else skipped

unfoldable pub save_registers_at_function_enter : Set → List Op
unfolding count_saved save_each
save_registers_at_function_enter used =
    let num_callee_saved_registers = count_saved (used.max_size - 8) 8 used in
    let bytes_in_memory = 8 + 4 * num_callee_saved_registers in
    let (stores, pos) = save_each (used.max_size - 8) 8 0 used in
    Op.load MemOp.address Reg.sp (Address.based (negate bytes_in_memory) Reg.sp)
    ∷ (stores
        ++ (Op.store MemOp.word Reg.fp (Address.based (ℤ.pos (pos + 4)) Reg.sp)
            ∷ Op.store MemOp.word Reg.ra (Address.based (ℤ.pos pos) Reg.sp)
            ∷ []))

abbrev pub load_address : Reg → ℤ → Reg → Op
load_address reg n base = Op.load MemOp.address reg (Address.based n base)

-- The first register that is restored moves the stack pointer to the frame.
unfoldable pub restore_each : ℕ → ℕ → ℕ → Set → List Op × ℕ
restore_each zero reg pos used = ([], pos)
restore_each (suc rounds) reg pos used =
    let taken = restore_each rounds (reg + 1) (pos + 4) used in
    let skipped = restore_each rounds (reg + 1) pos used in
    let start = if pos == 0 then load_address Reg.sp (ℤ.pos 0) Reg.fp ∷ [] else [] in
    if does_elto_belong_to_set reg used
    then (
      start ++ (Op.load MemOp.word (saved_name reg) (Address.based (ℤ.pos pos) Reg.sp) ∷ taken.0),
      taken.1,
    )
    else skipped

unfoldable pub restore_callee_saved_registers : Set → List Op
unfolding restore_each
restore_callee_saved_registers used =
    let (loads, pos) = restore_each (used.max_size - 8) 8 0 used in
    if pos == 0 then loads else loads ++ (load_address Reg.fp (ℤ.pos pos) Reg.fp ∷ [])
