-- ===== src/Translation/Scalars.antt =====
-- code_translation.c: what writing to registers and cells does to the variables' values.
use csc.Common.{
  ℕ, ◌≤◌, ◌<◌, Bool, true, false, ◌&&◌, not, some, ◌==◌, if◌then◌else◌, ◌≡◌, refl, sym, ap, ◌∙◌,
  arith, Bool-cases, inl, inr,
}
use csc.Symbol.{Symbols, is_local}
use csc.Mips.{set_reg, Reg, number, Assembly, Cpu, put, step, run}
use csc.Translation.{
  Allocation, get_register_name, is_var_in_memory, find_register, get_mem_op_type, store_at_memory,
}
use csc.Translation.Instructions.{put_result}
use csc.Translation.Homes.{value, register_of, cell_of, IsInt, put-same}

name-number : (n : ℕ) → 3 < number (get_register_name n)
unfolding get_register_name
name-number n = ground arith

same_write : (c : Cpu) (n x : ℕ) → x ≡ c.regs n → record c { regs = put c.regs n x } ≡ c
same_write c n x h = rw h (ap (λ r. record c { regs = r }) (put-same c.regs n))

module _ (asm : Assembly) (syms : Symbols) (alloc : Allocation) where
  abbrev pub in_memory : ℕ → Bool
  in_memory = is_var_in_memory alloc

  abbrev pub val : Cpu → ℕ → ℕ
  val = value asm syms alloc

  abbrev pub put_reg : Cpu → Reg → ℕ → Cpu
  put_reg = set_reg asm

  abbrev pub cell : Cpu → ℕ → ℕ
  cell = cell_of asm syms alloc

  abbrev pub at : ℕ → ℕ
  at = register_of asm syms alloc

  abbrev pub reg : ℕ → ℕ → Reg
  reg var default_reg = get_register_name (find_register alloc var default_reg)

  -- The scratch registers hold no variable.
  pub register_apart :
      (var k : ℕ) → in_memory var ≡ false → k ≤ 1 → (number (get_register_name k) == at var) ≡ false
  unfolding get_register_name find_register is_var_in_memory
  register_apart var k h small = ground arith

  pub scratch : (var k : ℕ) → in_memory var ≡ true → reg var k ≡ get_register_name k
  unfolding find_register is_var_in_memory
  scratch var k h = ground arith

  pub own_register : (var k : ℕ) → in_memory var ≡ false → number (reg var k) ≡ at var
  unfolding find_register is_var_in_memory
  own_register var k h = ground arith

  pub cell-put_reg :
      (c : Cpu) (n x var : ℕ) → cell (put_reg c (get_register_name n) x) var ≡ cell c var
  cell-put_reg c n x var = elim (Bool-cases (is_local (syms var).scope)) [
    | inl e ↦ rw e (ground (arith, name-number n))
    | inr e ↦ rw e refl
  ]

  -- Variables that share a cell or a register.
  abbrev pub same_home : Cpu → ℕ → ℕ → Bool
  same_home c a b =
      if in_memory a
      then in_memory b && (cell c a == cell c b)
      else not (in_memory b) && (at a == at b)

  pub val-register : (c : Cpu) (a : ℕ) → in_memory a ≡ false → val c a ≡ c.regs (at a)
  unfolding value
  val-register c a e = rw e refl

  -- Writing a scratch register changes no variable,
  pub val-scratch :
      (c : Cpu) (k x var : ℕ) → k ≤ 1 → val (put_reg c (get_register_name k) x) var ≡ val c var
  unfolding value
  val-scratch c k x var small = elim (Bool-cases (in_memory var)) [
    | inl e ↦ rw (e, cell-put_reg c k x var) refl
    | inr e ↦ rw e (ground (arith, register_apart var k e small))
  ]

  -- nor does writing a variable's value into its register.
  pub val-fetched :
      (c : Cpu) (a k var : ℕ) → k ≤ 1 → val (put_reg c (reg a k) (val c a)) var ≡ val c var
  val-fetched c a k var small = elim (Bool-cases (in_memory a)) [
    | inl e ↦ rw (scratch a k e) (val-scratch c k (val c a) var small)
    | inr e ↦
        ap (λ s. val s var)
          (same_write c (number (reg a k)) (val c a) (rw (own_register a k e) (val-register c a e)))
  ]

  -- After a result: it is in its register, and in its cell where the variable is in memory.
  abbrev pub finished : Cpu → ℕ → ℕ → Cpu
  finished c d x =
      let done = put_reg c (reg d 0) x in
      if in_memory d then record done { memory = put c.memory (cell done d) x } else done

  pub put-hit : (f : ℕ → ℕ) (a x : ℕ) → put f a x a ≡ x
  put-hit f a x = ground arith

  pub val-memory_put :
      (c : Cpu) (a x w : ℕ)
      → (in_memory w ≡ true → (a == cell c w) ≡ false)
      → val (record c { memory = put c.memory a x }) w ≡ val c w
  unfolding value
  val-memory_put c a x w apart = elim (Bool-cases (in_memory w)) [
    | inl m ↦ rw (m, apart m) refl
    | inr m ↦ rw m refl
  ]

  module _ (c : Cpu) (d x : ℕ) where
    pub other_cell :
        (w : ℕ)
        → in_memory d ≡ true
        → in_memory w ≡ true
        → same_home c w d ≡ false
        → (cell c d == cell c w) ≡ false
    other_cell w e m apart = ground arith

    pub other_register :
        (w : ℕ)
        → in_memory d ≡ false
        → in_memory w ≡ false
        → same_home c w d ≡ false
        → (at d == at w) ≡ false
    other_register w e m apart = ground arith

    pub run-put_result :
        IsInt asm syms alloc d
        → run asm (put_result syms alloc d (reg d 0)) (put_reg c (reg d 0) x)
          ≡ some (finished c d x)
    unfolding put_result store_at_memory get_mem_op_type run step
    run-put_result int = elim (Bool-cases (in_memory d)) [
      | inl e ↦ rw (e, int.word, put-hit) refl
      | inr e ↦ rw (e, int.word) refl
    ]

    pub val-finished : (syms d).is_constant ≡ false → val (finished c d x) d ≡ x
    unfolding value
    val-finished var = elim (Bool-cases (in_memory d)) [
      | inl e ↦ rw (e, var) (put-hit c.memory (cell (put_reg c (reg d 0) x) d) x)
      | inr e ↦ rw e (put-hit c.regs (at d) x)
    ]

    pub val-apart : (w : ℕ) → same_home c w d ≡ false → val (finished c d x) w ≡ val c w
    val-apart w apart = elim (Bool-cases (in_memory d)) [
      | inl e ↦ rw e (
          val-memory_put (put_reg c (reg d 0) x) (cell (put_reg c (reg d 0) x) d) x w
            (λ m. rw (cell-put_reg c _ x d, cell-put_reg c _ x w) (other_cell w e m apart))
          ∙ rw (scratch d 0 e) (val-scratch c 0 x w (omega arith)))
      | inr e ↦ rw e (elim (Bool-cases (in_memory w)) [
        | inl m ↦ unfold value in rw (m, cell-put_reg c _ x w) refl
        | inr m ↦ unfold value in rw m (ground (arith, other_register w e m apart))
      ])
    ]

  -- Operands that share a register have one value.
  pub same_number :
      (c : Cpu) (a b : ℕ) → (number (reg b 1) == number (reg a 0)) ≡ true → val c b ≡ val c a
  same_number c a b h = elim (Bool-cases (in_memory b)) [
    | inl e ↦ elim (Bool-cases (in_memory a)) [
      | inl m ↦ absurd (
          unfold get_register_name in
          ground (arith, ap number (scratch b 1 e), ap number (scratch a 0 m)))
      | inr m ↦
          absurd
            (ground (arith, ap number (scratch b 1 e), register_apart a 1 m, own_register a 0 m))
    ]
    | inr e ↦ elim (Bool-cases (in_memory a)) [
      | inl m ↦
          absurd
            (ground (arith, ap number (scratch a 0 m), register_apart b 0 e, own_register b 1 e))
      | inr m ↦
          val-register c b e
          ∙ ap c.regs (ground (arith, own_register a 0 m, own_register b 1 e))
          ∙ sym (val-register c a m)
    ]
  ]

  pub same_home-put_reg :
      (c : Cpu) (n x w d : ℕ) → same_home (put_reg c (get_register_name n) x) w d ≡ same_home c w d
  same_home-put_reg c n x w d = rw (cell-put_reg c n x w, cell-put_reg c n x d) refl

  -- Two operands in their registers.
  pub both_fetched :
      (c : Cpu) (a b : ℕ)
      → put
          (put c.regs (number (reg a 0)) (val c a))
          (number (reg b 1))
          (val c b)
          (number (reg a 0))
        ≡ val c a
  both_fetched c a b = elim (Bool-cases (number (reg b 1) == number (reg a 0))) [
    | inl e ↦ ground (arith, same_number c a b e)
    | inr e ↦ ground arith
  ]
