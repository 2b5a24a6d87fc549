-- ===== src/Tests/Copies.antt =====
-- Copy propagation on the block `b = a; c = b; a = c; d = b + c;` of integers.
use csc.Common.{
  ℕ, true, ◌==◌, if◌then◌else◌, none, some, List, [], ◌∷◌, ◌≡◌, refl, ap, ◌∙◌, ◌+◌, arith,
}
use mathlib.Core.Path.{fun_ext}
use csc.Symbol.{Symbols, zero_symbol, SymType, Scope}
use csc.SymbolTable.Variables.{remove_from_list_of_variables}
use csc.Instruction.{
  Inode, OpType, InstructionType, create_instruction, create_expr_instruction, is_rhs_variable,
}
use csc.Machine.{Machine, State}
use csc.CopyPropagation.{do_copy_propagation}
use csc.CopyPropagation.Block.{Copying, IsGenerated}
use csc.CopyPropagation.Whole.{EachGenerated, RunAlike, copy_propagation_sound}

abbrev symbols : Symbols
symbols a = record zero_symbol { scope = Scope.local; type = SymType.int; id = a }

abbrev put : (ℕ → ℕ) → ℕ → ℕ → ℕ → ℕ
put f a x b = if a == b then x else f b

abbrev stored : Inode → ℕ → (ℕ → ℕ) → ℕ → ℕ
stored i x w = elim i.dest [ none ↦ w | some d ↦ put w d x ]

put_same : (f : ℕ → ℕ) (a : ℕ) → put f a (f a) ≡ f
put_same f a = fun_ext λ b. ground (arith, λ (e : a ≡ b). ap f e)

stored_at : (i : Inode) (d x : ℕ) (w : ℕ → ℕ) → i.dest ≡ some d → stored i x w ≡ put w d x
stored_at i d x w e = ap (λ o. elim o [ none ↦ w | some a ↦ put w a x ]) e

elsewhere : (i : Inode) (g x : ℕ) (w : ℕ → ℕ) → (i.dest ≡ some g → ⊥) → stored i x w g ≡ w g
elsewhere i g x w other = ground arith

abbrev machine : Machine
machine = record {
  World = ℕ → ℕ;
  read_global = λ w a. w a;
  compute = λ i a b w. a;
  effect = λ i a b old w. stored i a w;
  copies = λ i a b w e. refl;
  rewrites = λ i d b w e to. stored_at i d (w d) w to ∙ put_same w d;
}

laws : Copying machine symbols
laws = record {
  same_compute = λ i a b x y w p q. refl;
  same_effect = λ i a b x y old w p q. refl;
  assigns = λ i s d x y w a e to t. refl;
  stores = λ i s d x y old w a e to p t. ap (λ f. f d) (stored_at i d x w to) ∙ ground arith;
  stays = λ i s d x y w a e to p t h. stored_at i d x w to ∙ ap (put w d) h ∙ put_same w d;
  others = λ i g x y old w q other. elsewhere i g x w other;
}

unfoldable copy : ℕ → ℕ → Inode
unfolding create_instruction
copy d s = create_instruction OpType.assign (some s) none (some d)

unfoldable sum : Inode
unfolding create_expr_instruction
sum =
    create_expr_instruction OpType.binary_arithmetic (some 1) (some 2) (some 3) InstructionType.plus

abbrev block : List Inode
block = copy 1 0 ∷ copy 2 1 ∷ copy 0 2 ∷ sum ∷ []

copy-IsGenerated : (d s : ℕ) → IsGenerated machine symbols (copy d s)
unfolding copy create_instruction
copy-IsGenerated d s = record {
  target = λ a. (s, d, refl, refl, refl);
  single = λ a. refl;
  variable = λ v e. refl;
}

sum-IsGenerated : IsGenerated machine symbols sum
unfolding sum create_expr_instruction create_instruction
sum-IsGenerated = record {
  target = λ a. absurd (ground arith);
  single = λ a. absurd (ground arith);
  variable = λ v e. refl;
}

generated : EachGenerated machine symbols laws (block ∷ [])
unfolding copy sum create_expr_instruction create_instruction
generated = (
  (copy-IsGenerated 1 0, (copy-IsGenerated 2 1, (copy-IsGenerated 0 2, (sum-IsGenerated, tt)))),
  (refl, (refl, (refl, tt))),
  tt,
)

abbrev start : State machine symbols
start = record { vars = λ a. a + 5; world = λ a. 0 }

copy_propagation_sound_example :
    (outs : List (List Inode)) × (do_copy_propagation symbols (block ∷ []) ≡ some outs)
    × RunAlike machine symbols laws start outs (block ∷ [])
copy_propagation_sound_example =
    copy_propagation_sound machine symbols laws (block ∷ []) start generated

-- The third assignment is dead, and the sum reads the original.
propagated :
    do_copy_propagation symbols (block ∷ [])
    ≡ some (
        (copy 1 0
          ∷ record (copy 2 1) { src1 = some 0 }
          ∷ record (copy 0 2) { dead = true }
          ∷ record sum { src1 = some 0; src2 = some 0 }
          ∷ [])
        ∷ [])
unfolding do_copy_propagation copy sum create_expr_instruction create_instruction is_rhs_variable
    remove_from_list_of_variables
propagated = refl
