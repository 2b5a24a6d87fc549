-- ===== src/DeadCode/Step.antt =====
-- One instruction: running it, or leaving it out, keeps the agreement of two states.
use csc.Common.{
  ℕ, Bool, true, false, ◌&&◌, ◌||◌, not, Option, none, some, List, [], ◌∷◌, ◌==◌, ◌≡◌, refl, ap,
  arith, Bool-cases, Option-cases, inl, inr, ==→eq,
}
use csc.Symbol.{Symbols, is_addr, is_local}
use csc.Set.{Set, unify_sets, diff_sets, does_elto_belong_to_set}
use csc.Set.Words.{IsWellFormed}
use csc.Set.Laws.{belongs-unify, belongs-diff, diff-IsWellFormed}
use csc.Instruction.{Inode, redefines_variable, is_rhs_variable}
use csc.Liveness.{is_null_assignment, operand_sets}
use csc.Liveness.Operands.{IdsBelow, operands_lem, assigns_operand, reads_operand, uses_id}
use csc.DeadCode.{assigns_dead_variable}
use csc.Machine.Exec.{exec-none, exec-local, exec-world}
use csc.Machine.{Machine, State, value, source, assigned, affected, exec}

-- A local variable that the analysis follows.
abbrev pub tracked : Symbols → ℕ → Bool
tracked sym a = is_local (sym a).scope && not (sym a).is_constant

-- No two variables share an id.
abbrev pub UniqueIds : Symbols → Type 0
UniqueIds sym =
    (a b : ℕ) → tracked sym a ≡ true → tracked sym b ≡ true → (sym a).id ≡ (sym b).id → a ≡ b

-- What code generation gives: a destination is no constant, and an instruction that assigns a
-- variable to itself does not store through a local address.
pub record IsLowered (sym : Symbols) (i : Inode) : Type 0 where
  pub variable : (d : ℕ) → i.dest ≡ some d → (sym d).is_constant ≡ false
  pub no_self_store :
      is_null_assignment i ≡ true
      → (d : ℕ) × (i.dest ≡ some d)
        × (i.src1 ≡ some d)
        × ((is_local (sym d).scope && is_addr (sym d).type) ≡ false)

abbrev pub AllLowered : Symbols → List Inode → Type 0
AllLowered sym [] = Unit {0}
AllLowered sym (i ∷ rest) = IsLowered sym i × AllLowered sym rest

module _ (machine : Machine) (n : ℕ) (sym : Symbols) (ids : IdsBelow n sym)
    (unique : UniqueIds sym) where
  -- Two states agree where the set says that a variable is live, and in all that is not local.
  pub record Agree (live : Set) (s t : State machine sym) : Type 0 where
    pub same_world : s.world ≡ t.world
    pub same_vars :
        (a : ℕ)
        → tracked sym a ≡ true
        → does_elto_belong_to_set (sym a).id live ≡ true
        → s.vars a ≡ t.vars a

  -- An operand whose id is live has one value in states that agree.
  value-Agree :
      (live : Set) (s t : State machine sym) (o : Option ℕ)
      → Agree live s t
      → ((v : ℕ) → reads_operand sym o v ≡ true → does_elto_belong_to_set v live ≡ true)
      → value machine sym s o ≡ value machine sym t o
  unfolding value
  value-Agree live s t none h covered = refl
  value-Agree live s t (some a) h covered =
      ground
        (arith, h.same_vars a, covered (sym a).id, ap (λ w. machine.read_global w a) h.same_world)

  module _ (i : Inode) where
    module _ (live : Set) (formed : IsWellFormed n live) where
      abbrev pub lhs : Set
      lhs = (operand_sets n sym i).0

      abbrev pub rhs : Set
      rhs = (operand_sets n sym i).1

      -- What is live before the instruction.
      abbrev pub before : Set
      before = unify_sets (diff_sets live lhs) rhs

      open operands_lem n sym ids i use {lhs_formed, rhs_formed, in_lhs, in_rhs}

      belongs-before :
          (v : ℕ)
          → does_elto_belong_to_set v before ≡ (
              does_elto_belong_to_set v live && not (assigns_operand sym i.dest v)
              || uses_id sym i v)
      belongs-before v =
          rw
            (
              belongs-unify n (diff_sets live lhs) rhs
                  (diff-IsWellFormed n live lhs formed lhs_formed) rhs_formed v,
              belongs-diff n live lhs formed lhs_formed v,
              in_lhs v,
              in_rhs v,
            )
            refl

      source-Agree :
          (s t : State machine sym) (o : Option ℕ)
          → Agree before s t
          → ((v : ℕ) → (is_rhs_variable i && reads_operand sym o v) ≡ true → uses_id sym i v ≡ true)
          → source machine sym i s o ≡ source machine sym i t o
      source-Agree s t o h used = elim (Bool-cases (is_rhs_variable i)) [
        | inl here ↦
            rw here
              (value-Agree before s t o h λ v r. rw (belongs-before v) (ground (arith, used v)))
        | inr out ↦ rw out refl
      ]

      assigned-Agree :
          (s t : State machine sym)
          → Agree before s t
          → assigned machine sym i s ≡ assigned machine sym i t
      assigned-Agree s t h = cc (
        source-Agree s t i.src1 h (λ v r. ground arith),
        source-Agree s t i.src2 h (λ v r. ground arith),
        h.same_world,
      )

      affected-Agree :
          (s t : State machine sym) (x y : ℕ)
          → Agree before s t
          → x ≡ y
          → affected machine sym i s x ≡ affected machine sym i t y
      affected-Agree s t x y h e = cc (
        source-Agree s t i.src1 h (λ v r. ground arith),
        source-Agree s t i.src2 h (λ v r. ground arith),
        h.same_world,
      )

      -- A variable that the instruction does not assign stays live through it.
      kept :
          (s t : State machine sym) (a : ℕ)
          → Agree before s t
          → tracked sym a ≡ true
          → does_elto_belong_to_set (sym a).id live ≡ true
          → assigns_operand sym i.dest (sym a).id ≡ false
          → s.vars a ≡ t.vars a
      kept s t a h here alive other =
          h.same_vars a here (rw (belongs-before (sym a).id) (ground arith))

      -- The test of assigns_dead_variable.
      dead_local :
          (d : ℕ)
          → i.dest ≡ some d
          → assigns_dead_variable sym i live ≡ true
          → (redefines_variable sym i && is_local (sym d).scope) ≡ true
      unfolding assigns_dead_variable
      dead_local d e dead = ground arith

      dead_id :
          (d : ℕ)
          → i.dest ≡ some d
          → assigns_dead_variable sym i live ≡ true
          → does_elto_belong_to_set (sym d).id live ≡ false
      unfolding assigns_dead_variable
      dead_id d e dead = ground arith

      dead_dest : i.dest ≡ none → assigns_dead_variable sym i live ≡ false
      unfolding assigns_dead_variable
      dead_dest e = ground arith

      -- Another variable than the destination has another id.
      other_id :
          (d a : ℕ)
          → i.dest ≡ some d
          → (sym d).is_constant ≡ false
          → tracked sym a ≡ true
          → (d == a) ≡ false
          → assigns_operand sym i.dest (sym a).id ≡ false
      other_id d a e variable here ne = rw e (ground (arith, unique d a))

      -- A destination that is no local variable is not assigned, and an address that is stored
      -- through is read.
      world_id :
          (d v : ℕ)
          → i.dest ≡ some d
          → (redefines_variable sym i && is_local (sym d).scope) ≡ false
          → assigns_operand sym i.dest v ≡ false
      unfolding redefines_variable
      world_id d v e out = ground arith

      address_read :
          (d v : ℕ)
          → i.dest ≡ some d
          → (redefines_variable sym i && is_local (sym d).scope) ≡ false
          → reads_operand sym (some d) v ≡ true
          → uses_id sym i v ≡ true
      unfolding redefines_variable
      address_read d v e out r = ground arith

      -- The instruction runs alike in states that agree on what is live before it.
      pub exec-Agree :
          (s t : State machine sym)
          → ((d : ℕ) → i.dest ≡ some d → (sym d).is_constant ≡ false)
          → Agree before s t
          → Agree live (exec machine sym i s) (exec machine sym i t)
      exec-Agree s t variable h = elim (Option-cases i.dest) [
        | inl e ↦
            rw (exec-none machine sym i s e, exec-none machine sym i t e)
              (record {
                same_world = affected-Agree s t 0 0 h refl;
                same_vars = λ a here alive. kept s t a h here alive (rw e refl);
              })
        | inr (d, e) ↦ elim (Bool-cases (redefines_variable sym i && is_local (sym d).scope)) [
          | inl here ↦
              rw (exec-local machine sym i s d e here, exec-local machine sym i t d e here)
                (record {
                  same_world = h.same_world;
                  same_vars = λ a tr alive. elim (Bool-cases (d == a)) [
                    | inl it ↦ rw it (assigned-Agree s t h)
                    | inr ne ↦ rw ne (kept s t a h tr alive (other_id d a e (variable d e) tr ne))
                  ];
                })
          | inr out ↦
              rw (exec-world machine sym i s d e out, exec-world machine sym i t d e out)
                (record {
                  same_world = affected-Agree s t _ _ h (
                      value-Agree before s t (some d) h λ v r.
                        rw (belongs-before v) (rw (address_read d v e out r) (ground arith)));
                  same_vars = λ a tr alive. kept s t a h tr alive (world_id d (sym a).id e out);
                })
        ]
      ]

      -- An instruction whose variable is not live after it may be left out.
      pub removed-Agree :
          (s t : State machine sym)
          → IsLowered sym i
          → assigns_dead_variable sym i live ≡ true
          → Agree before s t
          → Agree live (exec machine sym i s) t
      removed-Agree s t low dead h = elim (Option-cases i.dest) [
        | inl e ↦ cc (dead_dest e)
        | inr (d, e) ↦ rw (exec-local machine sym i s d e (dead_local d e dead)) (record {
          same_world = h.same_world;
          same_vars = λ a tr alive. elim (Bool-cases (d == a)) [
            | inl it ↦
                cc (
                  dead_id d e dead,
                  ap (λ x. does_elto_belong_to_set (sym x).id live) (==→eq d a it),
                )
            | inr ne ↦ rw ne (kept s t a h tr alive (other_id d a e (low.variable d e) tr ne))
          ];
        })
      ]
