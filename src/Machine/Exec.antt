-- ===== src/Machine/Exec.antt =====
-- What an instruction does when it runs, by its destination.
use csc.Common.{ℕ, true, false, ◌&&◌, none, some, ◌≡◌, arith}
use csc.Symbol.{Symbols, is_local}
use csc.Instruction.{Inode, redefines_variable}
use csc.Machine.{Machine, State, value, update, assigned, affected, exec}

module _ (machine : Machine) (sym : Symbols) (i : Inode) where
  pub exec-none :
      (s : State machine sym)
      → i.dest ≡ none
      → exec machine sym i s ≡ record s { world = affected machine sym i s 0 }
  unfolding exec
  exec-none s e = ground arith

  pub exec-local :
      (s : State machine sym) (d : ℕ)
      → i.dest ≡ some d
      → (redefines_variable sym i && is_local (sym d).scope) ≡ true
      → exec machine sym i s
        ≡ record s { vars = update machine sym s.vars d (assigned machine sym i s) }
  unfolding exec
  exec-local s d e here = ground arith

  pub exec-world :
      (s : State machine sym) (d : ℕ)
      → i.dest ≡ some d
      → (redefines_variable sym i && is_local (sym d).scope) ≡ false
      → exec machine sym i s
        ≡ record s { world = affected machine sym i s (value machine sym s (some d)) }
  unfolding exec
  exec-world s d e out = ground arith
