-- ===== src/Translation/Lines.antt =====
-- code_translation.c: the lines that save and restore registers, written over the list of registers.
use csc.Common.{
  ℕ, zero, suc, ◌+◌, ◌-◌, ◌*◌, false, List, [], ◌∷◌, ◌++◌, ◌==◌, if◌then◌else◌, ◌≡◌, refl, length,
  arith, Bool-cases, inl, inr,
}
use native.Mathlib.Nat.{zero-add}
use csc.Symbol.{ℤ, negate}
use csc.Set.{Set, does_elto_belong_to_set}
use csc.Mips.{offset, Reg, MemOp, Address, Op}
use csc.Translation.Frame.{
  count_saved, saved_name, save_each, save_registers_at_function_enter, load_address, restore_each,
  restore_callee_saved_registers,
}

-- The callee-saved registers in use, in the order of the loops.
abbrev pub saved_from : ℕ → ℕ → Set → List ℕ
saved_from zero reg used = []
saved_from (suc rounds) reg used =
    let rest = saved_from rounds (reg + 1) used in
    if does_elto_belong_to_set reg used then reg ∷ rest else rest

abbrev pub saved : Set → List ℕ
saved used = saved_from (used.max_size - 8) 8 used

abbrev pub saves : List ℕ → ℕ → List Op
saves [] pos = []
saves (r ∷ rs) pos =
    Op.store MemOp.word (saved_name r) (Address.based (ℤ.pos pos) Reg.sp) ∷ saves rs (pos + 4)

abbrev pub loads : List ℕ → ℕ → List Op
loads [] pos = []
loads (r ∷ rs) pos =
    Op.load MemOp.word (saved_name r) (Address.based (ℤ.pos pos) Reg.sp) ∷ loads rs (pos + 4)

pub count_saved-length :
    (n reg : ℕ) (used : Set) → count_saved n reg used ≡ length (saved_from n reg used)
unfolding count_saved
count_saved-length zero reg used = refl
count_saved-length (suc n) reg used = ground (arith, count_saved-length n (reg + 1) used)

pub four_more : (p k : ℕ) → p + 4 + 4 * k ≡ p + 4 * suc k
four_more p k = omega arith

pub four_first : (k : ℕ) → 4 + 4 * k ≡ 4 * suc k
four_first k = omega arith

pub save_each-saves :
    (n reg pos : ℕ) (used : Set)
    → save_each n reg pos used
      ≡ (saves (saved_from n reg used) pos, pos + 4 * length (saved_from n reg used))
unfolding save_each
save_each-saves zero reg pos used = ground arith
save_each-saves (suc n) reg pos used = elim (Bool-cases (does_elto_belong_to_set reg used)) [
  | inl e ↦ rw (e, save_each-saves n (reg + 1) (pos + 4) used, four_more) refl
  | inr e ↦ rw (e, save_each-saves n (reg + 1) pos used) refl
]

pub restore_each-loads :
    (n reg pos : ℕ) (used : Set)
    → (pos == 0) ≡ false
    → restore_each n reg pos used
      ≡ (loads (saved_from n reg used) pos, pos + 4 * length (saved_from n reg used))
unfolding restore_each
restore_each-loads zero reg pos used h = ground arith
restore_each-loads (suc n) reg pos used h = elim (Bool-cases (does_elto_belong_to_set reg used)) [
  | inl e ↦ rw (e, h, restore_each-loads n (reg + 1) (pos + 4) used (ground arith), four_more) refl
  | inr e ↦ rw (e, restore_each-loads n (reg + 1) pos used h) refl
]

-- From position 0 the stack pointer is moved before the first register.
abbrev pub first_loads : List ℕ → List Op
first_loads [] = []
first_loads (r ∷ rs) = load_address Reg.sp (ℤ.pos 0) Reg.fp ∷ loads (r ∷ rs) 0

pub restore_each-first_loads :
    (n reg : ℕ) (used : Set)
    → restore_each n reg 0 used
      ≡ (first_loads (saved_from n reg used), 4 * length (saved_from n reg used))
unfolding restore_each
restore_each-first_loads zero reg used = refl
restore_each-first_loads (suc n) reg used = elim (Bool-cases (does_elto_belong_to_set reg used)) [
  | inl e ↦ rw (e, restore_each-loads n (reg + 1) 4 used refl, four_first) refl
  | inr e ↦ rw (e, restore_each-first_loads n (reg + 1) used) refl
]

abbrev pub leave_lines : List ℕ → List Op
leave_lines [] = []
leave_lines (r ∷ rs) =
    first_loads (r ∷ rs) ++ (load_address Reg.fp (ℤ.pos (4 * length (r ∷ rs))) Reg.fp ∷ [])

pub four_positive : (k : ℕ) → (4 * suc k == 0) ≡ false
four_positive k = ground arith

pub restore-leave_lines :
    (used : Set) → restore_callee_saved_registers used ≡ leave_lines (saved used)
unfolding restore_callee_saved_registers
restore-leave_lines used =
    rw (restore_each-first_loads (used.max_size - 8) 8 used) (by_list (saved used))
  where
    by_list :
        (rs : List ℕ)
        → (if 4 * length rs == 0
            then first_loads rs
            else first_loads rs ++ (load_address Reg.fp (ℤ.pos (4 * length rs)) Reg.fp ∷ []))
          ≡ leave_lines rs
    by_list [] = refl
    by_list (r ∷ rs) = rw (four_positive (length rs)) refl

abbrev pub frame_bytes : List ℕ → ℕ
frame_bytes rs = 8 + 4 * length rs

abbrev pub enter_lines : List ℕ → List Op
enter_lines rs =
    load_address Reg.sp (negate (frame_bytes rs)) Reg.sp
    ∷ (saves rs 0
        ++ (Op.store MemOp.word Reg.fp (Address.based (ℤ.pos (4 * length rs + 4)) Reg.sp)
            ∷ Op.store MemOp.word Reg.ra (Address.based (ℤ.pos (4 * length rs)) Reg.sp)
            ∷ []))

pub save-enter_lines :
    (used : Set) → save_registers_at_function_enter used ≡ enter_lines (saved used)
unfolding save_registers_at_function_enter
save-enter_lines used =
    rw
      (
        save_each-saves (used.max_size - 8) 8 0 used,
        count_saved-length (used.max_size - 8) 8 used,
        zero-add,
      )
      refl

pub offset-negate : (b n : ℕ) → offset b (negate n) ≡ b - n
offset-negate b zero = omega arith
offset-negate b (suc n) = refl
