-- ===== src/Translation/Restored.antt =====
-- code_translation.c: the code at the entry and at the return of a function, run on the machine.
use csc.Common.{
  if◌then◌else◌, ℕ, ◌+◌, ◌-◌, ◌*◌, ◌≤◌, ◌<◌, Bool, true, false, Option, none, some, List, [], ◌∷◌,
  ◌++◌, ◌>>=◌, ◌≡◌, refl, ap, ◌∙◌, length, arith,
}
use native.Mathlib.Nat.{add-zero}
use csc.Symbol.{Symbols, ℤ, negate}
use csc.Instruction.{OpType, create_instruction}
use csc.Mips.{Reg, number, Op, Assembly, Cpu, put, step, run, run-append}
use csc.Translation.{Allocation}
use csc.Translation.Frame.{saved_name, save_registers_at_function_enter, load_address}
use csc.Translation.Instructions.{print_enter, print_leave, print_return, return_to_caller}
use csc.Translation.Lines.{
  saved, saves, loads, leave_lines, restore-leave_lines, frame_bytes, enter_lines, save-enter_lines,
  offset-negate,
}
use csc.Translation.Saves.{
  stored, loaded, saved_name-number, Holds, stored-Holds, Holds-agree, plus_four, sp_kept, framed,
  entered, after_leave, after_return, is_saved-pointer, after_leave-fp, after_leave-other,
  after_leave-memory, is_callee_saved, is_saved-frame, framed-stored,
}

module _ (asm : Assembly) where
  abbrev go : List Op → Cpu → Option Cpu
  go = run asm

  run-saves :
      (rs : List ℕ) (pos : ℕ) (c : Cpu)
      → go (saves rs pos) c
        ≡ some (record c { memory = stored rs (c.regs 3 + pos) c.regs c.memory })
  unfolding run step
  run-saves [] pos c = refl
  run-saves (r ∷ rs) pos c = rw (run-saves rs (pos + 4), plus_four) refl

  run-loads :
      (rs : List ℕ) (pos : ℕ) (c : Cpu)
      → go (loads rs pos) c ≡ some (record c { regs = loaded rs (c.regs 3 + pos) c.memory c.regs })
  unfolding run step
  run-loads [] pos c = refl
  run-loads (r ∷ rs) pos c = rw (run-loads rs (pos + 4), sp_kept r, plus_four) refl

  run-enter_lines :
      (rs : List ℕ) (c : Cpu)
      → go (enter_lines rs) c
        ≡ some (record c { regs = put c.regs 3 (c.regs 3 - frame_bytes rs); memory = framed rs c })
  unfolding run step
  run-enter_lines rs c =
      rw (offset-negate, run-append asm (saves rs 0), run-saves rs 0) (rw add-zero refl)

  run-enter :
      (rs : List ℕ) (size : ℕ) (c : Cpu)
      → go
          (enter_lines rs
            ++ (load_address Reg.fp (ℤ.pos 0) Reg.sp
                ∷ load_address Reg.sp (negate size) Reg.sp
                ∷ []))
          c
        ≡ some (entered rs size c)
  unfolding run step
  run-enter rs size c =
      rw (run-append asm (enter_lines rs), run-enter_lines rs c, offset-negate) (rw add-zero refl)

  run-restores :
      (rs : List ℕ) (k : ℕ) (x : Cpu)
      → go (loads rs 0 ++ (load_address Reg.fp (ℤ.pos k) Reg.fp ∷ [])) x ≡ (
          let regs = loaded rs (x.regs 3) x.memory x.regs in
          some (record x { regs = put regs 2 (regs 2 + k) }))
  unfolding run step
  run-restores rs k x = rw (run-append asm (loads rs 0), run-loads rs 0, add-zero) refl

  run-leave_lines : (rs : List ℕ) (d : Cpu) → go (leave_lines rs) d ≡ some (after_leave rs d)
  unfolding run step
  run-leave_lines [] d = refl
  run-leave_lines (r ∷ rs) d =
      ap (λ base. go (loads (r ∷ rs) 0 ++ last) (record d { regs = put d.regs 3 base }))
        (add-zero (d.regs 2))
      ∙ run-restores (r ∷ rs) (4 * length (r ∷ rs)) (record d { regs = put d.regs 3 (d.regs 2) })
    where
      last : List Op
      last = load_address Reg.fp (ℤ.pos (4 * length (r ∷ rs))) Reg.fp ∷ []

  run-return : (x : Cpu) → go return_to_caller x ≡ some (after_return x)
  unfolding run step
  run-return x = rw (add-zero, add-zero) refl

  abbrev pub printed : Option (List Op) → Cpu → Option Cpu
  printed m c = m >>= λ ops. go ops c

module _ (asm : Assembly) (syms : Symbols) (alloc : Allocation) (f : ℕ) where
  abbrev pub enter_code : Bool → Option (List Op)
  enter_code after_global =
      print_enter syms alloc after_global (create_instruction OpType.enter (some f) none none)

  -- A return without a value.
  abbrev pub return_code : Option (List Op)
  return_code = print_leave alloc (create_instruction OpType.leave (some f) none none) >>= λ leave.
      some (leave ++ print_return syms alloc (create_instruction OpType.return none none none))

  abbrev pub frame : List ℕ
  frame = saved (alloc.registers_used f)

  abbrev pub in_body : Cpu → Cpu
  in_body c = entered frame (syms f).byte_size c

  body_start : List Op
  body_start =
      load_address Reg.fp (ℤ.pos 0) Reg.sp
      ∷ load_address Reg.sp (negate (syms f).byte_size) Reg.sp
      ∷ []

  saves_run :
      (c : Cpu)
      → run asm (save_registers_at_function_enter (alloc.registers_used f) ++ body_start) c
        ≡ some (in_body c)
  unfolding body_start
  saves_run c =
      ap (λ saving. run asm (saving ++ body_start) c) (save-enter_lines (alloc.registers_used f))
      ∙ run-enter asm frame (syms f).byte_size c

  enter_runs :
      (after_global : Bool) (c : Cpu) → printed asm (enter_code after_global) c ≡ some (in_body c)
  unfolding print_enter create_instruction run step body_start
  enter_runs true c = saves_run c
  enter_runs false c = saves_run c

  return_runs : (d : Cpu) → printed asm return_code d ≡ some (after_return (after_leave frame d))
  unfolding print_leave print_return create_instruction
  return_runs d =
      rw (restore-leave_lines, run-append asm (leave_lines frame), run-leave_lines asm frame d)
        (run-return asm _)

  module _ (c d : Cpu) (room : frame_bytes frame ≤ c.regs 3)
      (same_frame : d.regs 2 ≡ (in_body c).regs 2)
      (kept : (x : ℕ)
        → d.regs 2 ≤ x
        → x < d.regs 2 + frame_bytes frame
        → d.memory x ≡ (in_body c).memory x) where
    base : ℕ
    base = c.regs 3 - frame_bytes frame

    first : ℕ → ℕ
    first = put c.regs 3 base

    held_at_base : Holds frame base first d.memory
    unfolding base first
    held_at_base =
        Holds-agree frame base first (stored frame base first c.memory) d.memory
          (λ x p q. kept x (omega arith) (omega arith) ∙ framed-stored frame c x q)
          (stored-Holds frame base first c.memory)

    held : Holds frame (d.regs 2) first d.memory
    unfolding base
    held = rw same_frame held_at_base

    fp_at : (after_leave frame d).regs 2 ≡ base + 4 * length frame
    unfolding base
    fp_at = omega (arith, after_leave-fp frame d first held)

    -- The entry code of a function runs, and a return without a value runs from any state in which
    -- the frame pointer and the saved words of the frame are as after the entry, whichever
    -- registers the function uses, and none at all included. Then control is at the caller's return
    -- address, the frame and stack pointers are as before the entry, memory and $v0 are unchanged,
    -- and each register of the allocation is as before the entry, if it is callee-saved and in use,
    -- and otherwise as before the return.
    pub returns_restored :
        (after_global : Bool) (reg : ℕ)
        → (printed asm (enter_code after_global) c ≡ some (in_body c))
          × (e : Cpu) × (printed asm return_code d ≡ some e)
          × (e.target ≡ some (c.regs (number Reg.ra)))
          × (e.regs (number Reg.fp) ≡ c.regs (number Reg.fp))
          × (e.regs (number Reg.sp) ≡ c.regs (number Reg.sp))
          × (e.regs (number (saved_name reg)) ≡ (
              if is_callee_saved (alloc.registers_used f) reg
              then c.regs (number (saved_name reg))
              else d.regs (number (saved_name reg))))
          × (e.regs (number Reg.v0) ≡ d.regs (number Reg.v0))
          × (e.memory ≡ d.memory)
    unfolding base first
    returns_restored after_global reg = (
      enter_runs after_global c,
      after_return (after_leave frame d),
      return_runs d,
      rw (after_leave-memory frame d, fp_at)
          (ap some (kept _ (omega arith) (omega arith) ∙ ground arith)),
      rw (after_leave-memory frame d, fp_at) (kept _ (omega arith) (omega arith) ∙ ground arith),
      omega (arith, fp_at),
      ground (
        arith,
        saved_name-number reg,
        after_leave-other frame d first held (number (saved_name reg)),
        is_saved-frame (alloc.registers_used f) reg,
      ),
      ground (arith, after_leave-other frame d first held 0, is_saved-pointer 0 frame),
      after_leave-memory frame d,
    )
