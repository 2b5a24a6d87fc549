-- ===== src/Mips.antt =====
-- The MIPS assembly that code_translation.c prints, as data, and what its straight-line part does
-- when it runs: the independent description of the printed code.
use csc.Common.{
  ℕ, suc, ◌+◌, ◌-◌, ◌*◌, ◌%◌, ◌/◌, ◌^◌, bit_or, Option, none, some, List, [], ◌∷◌, ◌++◌, ◌==◌,
  if◌then◌else◌, ltb, ◌>>=◌, ◌≡◌, refl, sym, ◌∙◌, bind_assoc, bind_congr,
}
use csc.Symbol.{ℤ}

pub data Reg : Type 0 where
  v0 ra fp sp : Reg
  t s : ℕ → Reg

-- Distinct registers have distinct numbers.
abbrev pub number : Reg → ℕ
number Reg.v0 = 0
number Reg.ra = 1
number Reg.fp = 2
number Reg.sp = 3
number (Reg.t n) = 2 * n + 4
number (Reg.s n) = 2 * n + 5

-- The letter after `l` or `s`.
pub data MemOp : Type 0 where
  byte word address : MemOp

-- `_name` and `%d($reg)`.
pub data Address : Type 0 where
  symbol : List ℕ → Address
  based : ℤ → Reg → Address

pub data OpName : Type 0 where
  add sub mul div le eq lt gt ne ge : OpName

-- One line of assembly, or one of the data segment. Comments and blank lines are left out.
pub data Op : Type 0 where
  load store : MemOp → Reg → Address → Op
  li lui ori : Reg → ℕ → Op
  move neg : Reg → Reg → Op
  binary : OpName → Reg → Reg → Reg → Op
  shift_left shift_right_arithmetic : Reg → Reg → ℕ → Op
  branch : OpName → Reg → Reg → Option ℕ → Op
  jump : Option ℕ → Op
  jal entry : List ℕ → Op
  jr : Reg → Op
  label : Option ℕ → Op
  space : List ℕ → ℕ → Op
  align data_segment text_segment : Op
  asciiz : List ℕ → List ℕ → Op

-- Registers by number, memory by the address of a word or a byte, and where a `jr` has gone.
pub record Cpu : Type 0 where
  pub regs : ℕ → ℕ
  pub memory : ℕ → ℕ
  pub target : Option ℕ

abbrev pub put : (ℕ → ℕ) → ℕ → ℕ → ℕ → ℕ
put f a x b = if a == b then x else f b

-- An offset below address 0 stays at 0.
abbrev pub offset : ℕ → ℤ → ℕ
offset base (ℤ.pos n) = base + n
offset base (ℤ.negsuc n) = base - suc n

-- The low byte, with its sign in all higher bits.
abbrev pub sign_extend : ℕ → ℕ
sign_extend w = if ltb (w % 256) 128 then w % 256 else w % 256 + (2 ^ 32 - 256)

abbrev pub shift_right : ℕ → ℕ → ℕ
shift_right w k = if ltb w (2 ^ 31) then w / 2 ^ k else w / 2 ^ k + (2 ^ 32 - 2 ^ (32 - k))

-- What assembler and processor fix: where the linker puts a name, and the arithmetic.
pub record Assembly : Type 0 where
  pub place : List ℕ → ℕ
  pub compute : OpName → ℕ → ℕ → ℕ
  pub negated : ℕ → ℕ

module _ (asm : Assembly) where
  abbrev pub effective : (ℕ → ℕ) → Address → ℕ
  effective regs (Address.symbol name) = asm.place name
  effective regs (Address.based n r) = offset (regs (number r)) n

  abbrev pub set_reg : Cpu → Reg → ℕ → Cpu
  set_reg c r x = record c { regs = put c.regs (number r) x }

  -- One line; `none` where the rest of the text is not what runs next.
  unfoldable pub step : Op → Cpu → Option Cpu
  step (Op.load MemOp.word r a) c = some (set_reg c r (c.memory (effective c.regs a)))
  step (Op.load MemOp.byte r a) c = some (set_reg c r (sign_extend (c.memory (effective c.regs a))))
  step (Op.load MemOp.address r a) c = some (set_reg c r (effective c.regs a))
  step (Op.store MemOp.word r a) c =
      some (record c { memory = put c.memory (effective c.regs a) (c.regs (number r)) })
  step (Op.store MemOp.byte r a) c =
      some (record c { memory = put c.memory (effective c.regs a) (c.regs (number r) % 256) })
  step (Op.store MemOp.address r a) c = none
  step (Op.li r n) c = some (set_reg c r n)
  step (Op.lui r n) c = some (set_reg c r (n * 2 ^ 16))
  step (Op.ori r n) c = some (set_reg c r (bit_or (c.regs (number r)) n))
  step (Op.move d r) c = some (set_reg c d (c.regs (number r)))
  step (Op.neg d r) c = some (set_reg c d (asm.negated (c.regs (number r))))
  step (Op.binary o d a b) c =
      some (set_reg c d (asm.compute o (c.regs (number a)) (c.regs (number b))))
  step (Op.shift_left d r k) c = some (set_reg c d (c.regs (number r) * 2 ^ k % 2 ^ 32))
  step (Op.shift_right_arithmetic d r k) c = some (set_reg c d (shift_right (c.regs (number r)) k))
  step (Op.jr r) c = some (record c { target = some (c.regs (number r)) })
  step (Op.entry name) c = some c
  step (Op.label l) c = some c
  step Op.text_segment c = some c
  step _ c = none

  unfoldable pub run : List Op → Cpu → Option Cpu
  run [] c = some c
  run (o ∷ ops) c = step o c >>= run ops

  pub run-append : (xs ys : List Op) (c : Cpu) → run (xs ++ ys) c ≡ (run xs c >>= run ys)
  unfolding run
  run-append [] ys c = refl
  run-append (o ∷ xs) ys c =
      bind_congr (step o c) (run (xs ++ ys)) (λ d. run xs d >>= run ys) (λ d. run-append xs ys d)
      ∙ sym (bind_assoc (step o c) (run xs) (run ys))
