-- ===== src/DeadCode/Sound.antt =====
-- Dead code elimination keeps the meaning of a block.
use csc.Common.{ℕ, List, [], ◌∷◌, Bool-cases, inl, inr}
use csc.Symbol.{Symbols}
use csc.Set.{Set}
use csc.Set.Words.{IsWellFormed}
use csc.Set.Laws.{belongs-clone}
use csc.Instruction.{Inode}
use csc.Liveness.{is_null_assignment}
use csc.Liveness.Operands.{IdsBelow}
use csc.DeadCode.{Marked, mark, remove_dead_in_block, assigns_dead_variable}
use csc.DeadCode.LiveIn.{live-IsWellFormed}
use csc.DeadCode.Step.{UniqueIds, IsLowered, AllLowered, Agree, exec-Agree, removed-Agree}
use csc.DeadCode.SelfStore.{null-Agree}
use csc.Machine.{Machine, State, run}

module _ (machine : Machine) (n : ℕ) (sym : Symbols) (ids : IdsBelow n sym)
    (unique : UniqueIds sym) where
  abbrev Same : Set → State machine sym → State machine sym → Type 0
  Same = Agree machine n sym ids unique

  mark-Agree :
      (i : Inode) (rest : List Inode) (m : Marked) (out : Set) (s t : State machine sym)
      → IsWellFormed n m.live
      → IsLowered sym i
      → Same (mark n sym i m).live s t
      → ((s' t' : State machine sym)
          → Same m.live s' t'
          → Same out (run machine sym rest s') (run machine sym m.instructions t'))
      → Same out (run machine sym (i ∷ rest) s) (run machine sym (mark n sym i m).instructions t)
  unfolding mark run
  mark-Agree i rest m out s t formed low h later = elim (Bool-cases i.dead) [
    | inl dead ↦ simp dead (later s t (simp dead at h))
    | inr alive ↦ elim (Bool-cases (is_null_assignment i)) [
      | inl null ↦
          simp (alive, null)
            (later _ _
              (null-Agree machine n sym ids unique i m.live s t low null (simp (alive, null) at h)))
      | inr other ↦ elim (Bool-cases (assigns_dead_variable sym i m.live)) [
        | inl gone ↦
            simp (alive, other, gone)
              (later _ _ (
                removed-Agree machine n sym ids unique i m.live formed s t low gone
                  (simp (alive, other) at h)))
        | inr stays ↦
            simp (alive, other, stays)
              (later _ _ (
                exec-Agree machine n sym ids unique i m.live formed s t low.variable
                  (simp (alive, other) at h)))
      ]
    ]
  ]

  -- If local entries have ids below the number of variables and no two variables share one, the
  -- `out` set is well formed, and the instructions are lowered, then the block and the marked block,
  -- run from states that agree on the world and on the variables live before the block, end in
  -- states that agree on the world and on the variables in `out`.
  pub remove_dead_sound :
      (out : Set) (block : List Inode) (s t : State machine sym)
      → IsWellFormed n out
      → AllLowered sym block
      → Same (remove_dead_in_block n sym out block).live s t
      → Same out
          (run machine sym block s)
          (run machine sym (remove_dead_in_block n sym out block).instructions t)
  unfolding remove_dead_in_block run
  remove_dead_sound out [] s t formed low h = record {
    same_world = h.same_world;
    same_vars = λ a tr alive. h.same_vars a tr (rw (belongs-clone n out formed (sym a).id) alive);
  }
  remove_dead_sound out (i ∷ rest) s t formed low h =
      mark-Agree i rest (remove_dead_in_block n sym out rest) out s t
        (live-IsWellFormed n sym ids out formed rest) low.0 h
        (λ s' t' h'. remove_dead_sound out rest s' t' formed low.1 h')
