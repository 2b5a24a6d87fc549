-- ===== src/DeadCode/SelfStore.antt =====
-- An assignment of a variable to itself: leaving it out keeps the agreement of two states.
use csc.Common.{
  ℕ, true, false, ◌&&◌, some, ◌==◌, ◌≡◌, refl, ◌∙◌, ap, arith, Bool-cases, inl, inr, ==→eq,
}
use csc.Symbol.{Symbols, is_addr, is_local}
use csc.Set.{Set}
use csc.Instruction.{Inode, redefines_variable, is_rhs_variable}
use csc.Liveness.{is_null_assignment}
use csc.Liveness.Operands.{IdsBelow}
use csc.Machine.{Machine, State, value, source, assigned, affected, exec}
use csc.Machine.Exec.{exec-local, exec-world}
use csc.DeadCode.Step.{UniqueIds, IsLowered, Agree}

module _ (machine : Machine) (n : ℕ) (sym : Symbols) (ids : IdsBelow n sym) (unique : UniqueIds sym)
    (i : Inode) (live : Set) where
  null_reads : (d : ℕ) → is_null_assignment i ≡ true → i.src1 ≡ some d → is_rhs_variable i ≡ true
  unfolding is_rhs_variable
  null_reads d null e = ground arith

  null_global :
      (d : ℕ)
      → is_null_assignment i ≡ true
      → i.dest ≡ some d
      → (is_local (sym d).scope && is_addr (sym d).type) ≡ false
      → (redefines_variable sym i && is_local (sym d).scope) ≡ false
      → is_local (sym d).scope ≡ false
  unfolding redefines_variable
  null_global d null e no_store out = ground arith

  null_source :
      (s : State machine sym) (d : ℕ)
      → is_null_assignment i ≡ true
      → i.src1 ≡ some d
      → source machine sym i s i.src1 ≡ value machine sym s (some d)
  null_source s d null e = rw (null_reads d null e, e) refl

  copied :
      (s : State machine sym) (d : ℕ)
      → is_null_assignment i ≡ true
      → i.src1 ≡ some d
      → assigned machine sym i s ≡ value machine sym s (some d)
  copied s d null e =
      machine.copies i (source machine sym i s i.src1) (source machine sym i s i.src2) s.world null
      ∙ null_source s d null e

  value_local :
      (s : State machine sym) (d : ℕ)
      → (sym d).is_constant ≡ false
      → (redefines_variable sym i && is_local (sym d).scope) ≡ true
      → value machine sym s (some d) ≡ s.vars d
  unfolding value
  value_local s d variable here = ground arith

  value_global :
      (s : State machine sym) (d : ℕ)
      → (sym d).is_constant ≡ false
      → is_local (sym d).scope ≡ false
      → value machine sym s (some d) ≡ machine.read_global s.world d
  unfolding value
  value_global s d variable out = rw (variable, out) refl

  unaffected :
      (s : State machine sym) (d : ℕ)
      → is_null_assignment i ≡ true
      → i.dest ≡ some d
      → i.src1 ≡ some d
      → value machine sym s (some d) ≡ machine.read_global s.world d
      → affected machine sym i s (value machine sym s (some d)) ≡ s.world
  unaffected s d null e e' at = cc (
    null_source s d null e',
    at,
    machine.rewrites i d (source machine sym i s i.src2) s.world null e,
  )

  -- So may an assignment of a variable to itself.
  pub null-Agree :
      (s t : State machine sym)
      → IsLowered sym i
      → is_null_assignment i ≡ true
      → Agree machine n sym ids unique live s t
      → Agree machine n sym ids unique live (exec machine sym i s) t
  null-Agree s t low null h =
      let (d, e, e', no_store) = low.no_self_store null in
      elim (Bool-cases (redefines_variable sym i && is_local (sym d).scope)) [
        | inl here ↦ rw (exec-local machine sym i s d e here) (record {
          same_world = h.same_world;
          same_vars = λ a tr alive. elim (Bool-cases (d == a)) [
            | inl it ↦ rw it (
                copied s d null e'
                ∙ value_local s d (low.variable d e) here
                ∙ ap s.vars (==→eq d a it)
                ∙ h.same_vars a tr alive)
            | inr ne ↦ rw ne (h.same_vars a tr alive)
          ];
        })
        | inr out ↦ rw (exec-world machine sym i s d e out) (record {
          same_world =
              unaffected s d null e e'
                (value_global s d (low.variable d e) (null_global d null e no_store out))
              ∙ h.same_world;
          same_vars = h.same_vars;
        })
      ]
