-- ===== src/Machine.antt =====
-- What instructions do when they run, for stating that an optimisation keeps the meaning of a
-- block. The compiler has no interpreter: this is the independent description that the code
-- printed by code_translation.c is meant to follow.
pub mod Exec
use csc.Common.{ℕ, true, ◌&&◌, Option, none, some, List, [], ◌∷◌, if◌then◌else◌, ◌==◌, ◌≡◌}
use csc.Symbol.{Symbols, is_local}
use csc.Instruction.{Inode, redefines_variable, is_rhs_variable}
use csc.Liveness.{is_null_assignment}

-- The memory outside the local scalars (globals, arrays, the stack of parameters, the output), and
-- what the operations compute from operands and do to it.
pub record Machine : Type 1 where
  pub World : Type 0
  pub read_global : World → ℕ → ℕ
  pub compute : Inode → ℕ → ℕ → World → ℕ
  pub effect : Inode → ℕ → ℕ → ℕ → World → World
  -- Assigning a variable to itself changes nothing.
  pub copies : (i : Inode) (a b : ℕ) (w : World) → is_null_assignment i ≡ true → compute i a b w ≡ a
  pub rewrites :
      (i : Inode) (d b : ℕ) (w : World)
      → is_null_assignment i ≡ true
      → i.dest ≡ some d
      → effect i (read_global w d) b (read_global w d) w ≡ w

module _ (machine : Machine) (sym : Symbols) where
  open machine use {World, read_global, compute, effect}

  -- The values of the local variables, by address, and the rest.
  pub record State : Type 0 where
    pub vars : ℕ → ℕ
    pub world : World

  unfoldable pub value : State → Option ℕ → ℕ
  value st none = 0
  value st (some a) =
      if (sym a).is_constant
      then (sym a).const_val
      else if is_local (sym a).scope
      then st.vars a
      else read_global st.world a

  abbrev pub update : (ℕ → ℕ) → ℕ → ℕ → ℕ → ℕ
  update vars d x a = if d == a then x else vars a

  -- The operands are read where `src1` names a variable.
  abbrev pub source : Inode → State → Option ℕ → ℕ
  source i st o = if is_rhs_variable i then value st o else 0

  abbrev pub assigned : Inode → State → ℕ
  assigned i st = compute i (source i st i.src1) (source i st i.src2) st.world

  abbrev pub affected : Inode → State → ℕ → World
  affected i st x = effect i (source i st i.src1) (source i st i.src2) x st.world

  -- An instruction either assigns a local variable or acts on the world.
  unfoldable pub exec : Inode → State → State
  exec i st = elim i.dest [
    | none ↦ record st { world = affected i st 0 }
    | some d ↦
        if redefines_variable sym i && is_local (sym d).scope
        then record st { vars = update st.vars d (assigned i st) }
        else record st { world = affected i st (value st (some d)) }
  ]

  -- The instructions that are not marked dead, in order.
  unfoldable pub run : List Inode → State → State
  run [] st = st
  run (i ∷ rest) st = if i.dead then run rest st else run rest (exec i st)
