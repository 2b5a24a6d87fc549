-- ===== src/CopyPropagation/Turns.antt =====
-- code_optimization.c: one turn of the loop of do_copy_propagation, by its cases.
use csc.Common.{ℕ, true, false, some, ◌==◌, if◌then◌else◌, ◌≡◌, refl, arith}
use csc.Symbol.{Symbols, tag}
use csc.Instruction.{Inode, is_assign, is_rhs_variable}
use csc.CopyPropagation.{
  Copies, root_of, replaced, attach_destination, attach_variable_to_original, is_copy_of_itself,
  propagate, detach_destination,
}

pub some_injective : (a b : ℕ) → some a ≡ some b → a ≡ b
some_injective a b h = ground arith

module _ (syms : Symbols) (i : Inode) (c c' : Copies) (alive : i.dead ≡ false) where
  pub replaced_turn :
      (c'' : Copies)
      → is_copy_of_itself c i ≡ some false
      → detach_destination i.dest c ≡ some c'
      → is_rhs_variable i ≡ true
      → attach_destination syms i c' ≡ some c''
      → propagate syms i c ≡ some (replaced c'' i, c'')
  unfolding propagate
  replaced_turn c'' x d r a = simp (alive, x, d, r, a)

  pub plain_turn :
      is_copy_of_itself c i ≡ some false
      → detach_destination i.dest c ≡ some c'
      → is_rhs_variable i ≡ false
      → propagate syms i c ≡ some (i, c')
  unfolding propagate
  plain_turn x d r = simp (alive, x, d, r)

  pub dead_turn :
      is_copy_of_itself c i ≡ some true → propagate syms i c ≡ some (record i { dead = true }, c)
  unfolding propagate
  dead_turn x = simp (alive, x)

  pub not_itself : is_assign i.op_type ≡ false → is_copy_of_itself c i ≡ some false
  unfolding is_copy_of_itself
  not_itself a = rw a refl

  pub no_attach : is_assign i.op_type ≡ false → attach_destination syms i c' ≡ some c'
  unfolding attach_destination
  no_attach a = rw a refl

  pub compares_roots :
      (s d : ℕ)
      → is_assign i.op_type ≡ true
      → i.src1 ≡ some s
      → i.dest ≡ some d
      → is_copy_of_itself c i ≡ some (root_of c d == root_of c s)
  unfolding is_copy_of_itself
  compares_roots s d a es ed = rw (a, es, ed) refl

  pub attaches :
      (s d : ℕ)
      → is_assign i.op_type ≡ true
      → i.src1 ≡ some s
      → i.dest ≡ some d
      → attach_destination syms i c'
        ≡ some (
            if tag (syms d).type == tag (syms s).type
            then attach_variable_to_original d (root_of c' s) c'
            else c')
  unfolding attach_destination
  attaches s d a es ed = rw (a, es, ed) refl
