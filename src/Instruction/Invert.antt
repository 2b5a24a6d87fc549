-- ===== src/Instruction/Invert.antt =====
-- instruction.c: inverting a comparison negates it.
use csc.Common.{ℕ, Bool, not, ◌≡◌, refl, ltb, leb, ◌==◌, arith, Option, some, none}
use csc.Instruction.{Inode, InstructionType, invert_type, invert_boolean_operator}

-- What a conditional jump of each type tests; the arithmetic types test nothing.
abbrev pub compares : InstructionType → ℕ → ℕ → Option Bool
compares InstructionType.le a b = some (leb a b)
compares InstructionType.eq a b = some (a == b)
compares InstructionType.lt a b = some (ltb a b)
compares InstructionType.gt a b = some (ltb b a)
compares InstructionType.ne a b = some (not (a == b))
compares InstructionType.ge a b = some (leb b a)
compares _ a b = none

abbrev pub negated : Option Bool → Option Bool
negated none = none
negated (some b) = some (not b)

-- Inverting the operator of a comparison negates its outcome on all operands, and leaves an
-- arithmetic operator, which has none, as it is.
pub compares-invert :
    (i : Inode) (a b : ℕ)
    → compares (invert_boolean_operator i).type a b ≡ negated (compares i.type a b)
unfolding invert_boolean_operator
compares-invert i a b = by_type i.type
  where
    by_type : (t : InstructionType) → compares (invert_type t) a b ≡ negated (compares t a b)
    by_type InstructionType.plus = refl
    by_type _ = ground arith
