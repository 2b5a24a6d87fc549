-- ===== src/CopyPropagation/Block.antt =====
-- code_optimization.c: what copy propagation relies on, and the values of copies.
use csc.Common.{
  ℕ, Bool, true, false, ◌&&◌, Option, none, some, ◌==◌, ◌≡◌, refl, sym, arith, Bool-cases,
  Option-cases, ==→eq, inl, inr,
}
use csc.Symbol.{SymType, Symbols, tag, is_addr, is_local}
use csc.Instruction.{Inode, OpType, is_assign, redefines_variable}
use csc.Machine.{Machine, State, value, update, source, affected, exec}
use csc.Machine.Exec.{exec-none, exec-local, exec-world}
use csc.CopyPropagation.{Copies, root_of}

abbrev pub is_call : OpType → Bool
is_call OpType.call = true
is_call _ = false

-- Operands of one type, or none.
abbrev pub SameKind : Symbols → Option ℕ → Option ℕ → Type 0
SameKind syms none none = Unit
SameKind syms (some a) (some b) = tag (syms a).type ≡ tag (syms b).type
SameKind syms _ _ = ⊥

pub is_addr-tag : (t : SymType) → is_addr t ≡ (tag t == 8)
is_addr-tag SymType.char = refl
is_addr-tag SymType.int = refl
is_addr-tag SymType.bool = refl
is_addr-tag SymType.array = refl
is_addr-tag SymType.func = refl
is_addr-tag SymType.none = refl
is_addr-tag SymType.error = refl
is_addr-tag SymType.string = refl
is_addr-tag SymType.addr = refl
is_addr-tag SymType.word = refl

module _ (machine : Machine) (syms : Symbols) where
  -- What the code of an instruction does with variables: it depends on the operands' values and
  -- types only, an assignment between variables of one type copies the value, and only a call
  -- changes a global variable that is not the destination.
  pub record Copying : Type 0 where
    pub same_compute :
        (i : Inode) (a b : Option ℕ) (x y : ℕ) (w : machine.World)
        → SameKind syms a i.src1
        → SameKind syms b i.src2
        → machine.compute (record i { src1 = a; src2 = b }) x y w ≡ machine.compute i x y w
    pub same_effect :
        (i : Inode) (a b : Option ℕ) (x y old : ℕ) (w : machine.World)
        → SameKind syms a i.src1
        → SameKind syms b i.src2
        → machine.effect (record i { src1 = a; src2 = b }) x y old w ≡ machine.effect i x y old w
    pub assigns :
        (i : Inode) (s d : ℕ) (x y : ℕ) (w : machine.World)
        → is_assign i.op_type ≡ true
        → i.src1 ≡ some s
        → i.dest ≡ some d
        → tag (syms d).type ≡ tag (syms s).type
        → machine.compute i x y w ≡ x
    pub stores :
        (i : Inode) (s d : ℕ) (x y old : ℕ) (w : machine.World)
        → is_assign i.op_type ≡ true
        → i.src1 ≡ some s
        → i.dest ≡ some d
        → is_addr (syms d).type ≡ false
        → tag (syms d).type ≡ tag (syms s).type
        → machine.read_global (machine.effect i x y old w) d ≡ x
    pub stays :
        (i : Inode) (s d : ℕ) (x y : ℕ) (w : machine.World)
        → is_assign i.op_type ≡ true
        → i.src1 ≡ some s
        → i.dest ≡ some d
        → is_addr (syms d).type ≡ false
        → tag (syms d).type ≡ tag (syms s).type
        → x ≡ machine.read_global w d
        → machine.effect i x y x w ≡ w
    pub others :
        (i : Inode) (g : ℕ) (x y old : ℕ) (w : machine.World)
        → is_call i.op_type ≡ false
        → (i.dest ≡ some g → ⊥)
        → machine.read_global (machine.effect i x y old w) g ≡ machine.read_global w g

  -- What code generation makes: an assignment has one operand, whose type is no address, and a
  -- destination; no destination is a constant.
  pub record IsGenerated (i : Inode) : Type 0 where
    pub target :
        is_assign i.op_type ≡ true
        → (s d : ℕ) × (i.src1 ≡ some s) × (i.dest ≡ some d) × (is_addr (syms s).type ≡ false)
    pub single : is_assign i.op_type ≡ true → i.src2 ≡ none
    pub variable : (d : ℕ) → i.dest ≡ some d → (syms d).is_constant ≡ false

  abbrev pub val : State machine syms → ℕ → ℕ
  val st v = value machine syms st (some v)

  -- Copies have the value and the type of their originals.
  pub record Agrees (st : State machine syms) (c : Copies) : Type 0 where
    pub agree : (v o : ℕ) → c.copied_from v ≡ some o → val st v ≡ val st o
    pub typed : (v o : ℕ) → c.copied_from v ≡ some o → tag (syms v).type ≡ tag (syms o).type

  module _ (st : State machine syms) (c : Copies) (ok : Agrees st c) where
    pub root-val : (v : ℕ) → val st (root_of c v) ≡ val st v
    root-val v = elim (Option-cases (c.copied_from v)) [
      | inl e ↦ rw (root_of, e) refl
      | inr (o, e) ↦ rw (root_of, e) (sym (ok.agree v o e))
    ]

    pub root-type : (v : ℕ) → tag (syms (root_of c v)).type ≡ tag (syms v).type
    root-type v = elim (Option-cases (c.copied_from v)) [
      | inl e ↦ rw (root_of, e) refl
      | inr (o, e) ↦ rw (root_of, e) (sym (ok.typed v o e))
    ]

  module _ (i : Inode) (st : State machine syms) where
    val-vars :
        (d v x : ℕ)
        → (d == v) ≡ false
        → val (record st { vars = update machine syms st.vars d x }) v ≡ val st v
    unfolding value
    val-vars d v x h = ground arith

    val-world :
        Copying
        → (v x : ℕ) → is_call i.op_type ≡ false
        → (i.dest ≡ some v → ⊥)
        → val (record st { world = affected machine syms i st x }) v ≡ val st v
    unfolding value
    val-world laws v x quiet other =
        rw
          (laws.others i v (source machine syms i st i.src1) (source machine syms i st i.src2) x
            st.world quiet other)
          refl

    -- A variable that is not the destination keeps its value.
    pub val-exec :
        Copying
        → (v : ℕ) → is_call i.op_type ≡ false
        → (i.dest ≡ some v → ⊥)
        → val (exec machine syms i st) v ≡ val st v
    val-exec laws v quiet other = elim (Option-cases i.dest) [
      | inl e ↦ rw (exec-none machine syms i st e) (val-world laws v 0 quiet other)
      | inr (d, e) ↦ elim (Bool-cases (redefines_variable syms i && is_local (syms d).scope)) [
        | inl r ↦ rw (exec-local machine syms i st d e r) (
            val-vars d v _ (elim (Bool-cases (d == v)) [
              | inl h ↦ absurd (other (rw (← ==→eq d v h) e))
              | inr h ↦ h
            ]))
        | inr r ↦ rw (exec-world machine syms i st d e r) (val-world laws v (val st d) quiet other)
      ]
    ]
