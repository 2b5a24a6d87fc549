-- ===== src/Translation/Homes.antt =====
-- code_translation.c: where the value of a variable is when the printed code runs, and the code
-- that brings it into a register.
use csc.Common.{
  ℕ, zero, suc, ◌+◌, ◌*◌, ◌/◌, ◌%◌, ◌^◌, ◌<◌, bit_or, or_by_halves, or-zero, true, false, some,
  ◌==◌, if◌then◌else◌, ◌≡◌, refl, ap, arith, Bool-cases, inl, inr,
}
use mathlib.Core.Path.{fun_ext}
use native.Mathlib.Nat.{pow-suc}
use csc.Symbol.{Symbols, SymType}
use csc.Mips.{effective, set_reg, Reg, number, Assembly, Cpu, put, step, run}
use csc.Translation.{
  Allocation, get_register_name, is_var_in_memory, find_register, get_mem_op_type,
  load_int_to_register, address_of, load_from_memory, fetch,
}

bit_or-high : (k h l : ℕ) → l < 2 ^ k → bit_or (h * 2 ^ k) l ≡ h * 2 ^ k + l
bit_or-high zero h l small =
    let e : l ≡ 0 = omega arith in
    rw e (ground (arith, or_by_halves (h * 1) 0, or-zero (h * 1 / 2) (h * 1 / 2)))
bit_or-high (suc k) h l small = ground (
  arith,
  double,
  or_by_halves (h * 2 ^ suc k) l,
  ap (λ v. bit_or v (l / 2)) half,
  bit_or-high k h (l / 2) (omega (arith, pow-suc 2 k)),
)
  where
    double : h * 2 ^ suc k ≡ 2 * (h * 2 ^ k)
    double = rw (pow-suc 2 k) (grind arith)

    half : h * 2 ^ suc k / 2 ≡ h * 2 ^ k
    half = omega (arith, double)

put-hit : (f : ℕ → ℕ) (a x : ℕ) → put f a x a ≡ x
put-hit f a x = ground arith

halves : (n : ℕ) → bit_or (n / 2 ^ 16 * 2 ^ 16) (n % 2 ^ 16) ≡ n
halves n = omega (arith, bit_or-high 16 (n / 2 ^ 16) (n % 2 ^ 16) (omega arith))

put-put : (f : ℕ → ℕ) (a x y : ℕ) → put (put f a x) a y ≡ put f a y
put-put f a x y = fun_ext λ b. ground arith

pub put-same : (f : ℕ → ℕ) (a : ℕ) → put f a (f a) ≡ f
put-same f a = fun_ext λ b. ground (arith, λ (e : a ≡ b). ap f e)

module _ (asm : Assembly) where
  -- A constant below 2 ^ 32 is put into the register.
  pub run-load_int :
      (n : ℕ) (reg : Reg) (c : Cpu)
      → n < 2 ^ 32
      → run asm (load_int_to_register n reg) c ≡ some (set_reg asm c reg n)
  unfolding load_int_to_register run step
  run-load_int n reg c small = elim (Bool-cases (n / 2 ^ 16 == 0)) [
    | inl e ↦ rw e refl
    | inr e ↦ rw (e, put-hit, halves n, put-put) refl
  ]

module _ (asm : Assembly) (syms : Symbols) (alloc : Allocation) where
  abbrev pub register_of : ℕ → ℕ
  register_of var = number (get_register_name (find_register alloc var 0))

  abbrev pub cell_of : Cpu → ℕ → ℕ
  cell_of c var = effective asm c.regs (address_of (syms var))

  -- The value of a variable: its constant, the word in its cell, or its register.
  unfoldable pub value : Cpu → ℕ → ℕ
  value c var =
      if is_var_in_memory alloc var
      then if (syms var).is_constant then (syms var).const_val else c.memory (cell_of c var)
      else c.regs (register_of var)

  -- An integer whose constant, if it is one, is a machine word.
  pub record IsInt (var : ℕ) : Type 0 where
    pub word : (syms var).type ≡ SymType.int
    pub small : (syms var).const_val < 2 ^ 32

  -- A register with a live range is the same, whatever the default.
  find_register-default :
      (var reg : ℕ)
      → is_var_in_memory alloc var ≡ false
      → find_register alloc var reg ≡ find_register alloc var 0
  unfolding is_var_in_memory find_register
  find_register-default var reg h = ground arith

  -- Loading a variable that is in memory puts its value into the register.
  pub run-load :
      (var : ℕ) (reg : Reg) (c : Cpu)
      → IsInt var
      → is_var_in_memory alloc var ≡ true
      → run asm (load_from_memory syms var reg (syms var).type) c
        ≡ some (set_reg asm c reg (value c var))
  unfolding value load_from_memory run step get_mem_op_type
  run-load var reg c int e = elim (Bool-cases (syms var).is_constant) [
    | inl k ↦ rw (e, k) (run-load_int asm _ reg c int.small)
    | inr k ↦ rw (e, k, int.word) refl
  ]

  module _ (var default_reg : ℕ) (c : Cpu) (int : IsInt var) where
    abbrev reg : Reg
    reg = get_register_name (find_register alloc var default_reg)

    abbrev Fetches : Type 0
    Fetches = run asm (fetch syms alloc var reg) c ≡ some (set_reg asm c reg (value c var))

    fetch_register : is_var_in_memory alloc var ≡ false → Fetches
    unfolding fetch value run
    fetch_register e =
        rw (e, find_register-default var default_reg e, put-same c.regs (register_of var)) refl

    -- Fetching a variable puts its value into its register and changes nothing else.
    pub run-fetch : Fetches
    run-fetch = elim (Bool-cases (is_var_in_memory alloc var)) [
      | inl e ↦ unfold fetch in rw e (run-load var reg c int e)
      | inr e ↦ fetch_register e
    ]
