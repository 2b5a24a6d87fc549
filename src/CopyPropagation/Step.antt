-- ===== src/CopyPropagation/Step.antt =====
-- code_optimization.c: one instruction of copy propagation.
use csc.Common.{
  ℕ, true, false, ◌&&◌, Option, none, some, ◌==◌, ◌≡◌, refl, ap, ap₂, sym, ◌∙◌, arith, Bool-cases,
  Option-cases, ◌⊎◌, inl, inr,
}
use mathlib.Core.Path.{fun_ext}
use csc.Symbol.{Symbols, tag, is_addr, is_local}
use csc.Instruction.{Inode, is_some, is_assign, is_rhs_variable, redefines_variable}
use csc.Machine.{Machine, State, value, update, source, assigned, affected, exec}
use csc.Machine.Exec.{exec-none, exec-local, exec-world}
use csc.CopyPropagation.{Copies, root_of, root_operand, replaced}
use csc.CopyPropagation.Block.{SameKind, is_addr-tag, Copying, IsGenerated, val}

is_some-root : (c : Copies) (o : Option ℕ) → is_some (root_operand c o) ≡ is_some o
is_some-root c none = refl
is_some-root c (some v) = refl

rhs-replaced : (c : Copies) (i : Inode) → is_rhs_variable (replaced c i) ≡ is_rhs_variable i
unfolding is_rhs_variable
rhs-replaced c i = rw (is_some-root c i.src1) refl

redefines-replaced :
    (syms : Symbols) (c : Copies) (i : Inode)
    → redefines_variable syms (replaced c i) ≡ redefines_variable syms i
unfolding redefines_variable
redefines-replaced syms c i = refl

module _ (machine : Machine) (syms : Symbols) (laws : Copying machine syms) where
  module _ (i : Inode) (st : State machine syms) (c : Copies) where
    -- The operand's original has its value and its type.
    abbrev pub Stands : Option ℕ → Type 0
    Stands o =
        (v : ℕ)
        → o ≡ some v
        → (val machine syms st (root_of c v) ≡ val machine syms st v)
          × (tag (syms (root_of c v)).type ≡ tag (syms v).type)

    Stands-value :
        (o : Option ℕ)
        → Stands o
        → value machine syms st (root_operand c o) ≡ value machine syms st o
    Stands-value none h = refl
    Stands-value (some v) h = (h v refl).0

    Stands-SameKind : (o : Option ℕ) → Stands o → SameKind syms (root_operand c o) o
    Stands-SameKind none h = tt
    Stands-SameKind (some v) h = (h v refl).1

    module _ (first : Stands i.src1) (second : Stands i.src2) where
      source_same :
          (o : Option ℕ)
          → Stands o
          → source machine syms (replaced c i) st (root_operand c o) ≡ source machine syms i st o
      source_same o h = rw (rhs-replaced c i, Stands-value o h) refl

      assigned_same : assigned machine syms (replaced c i) st ≡ assigned machine syms i st
      assigned_same =
          ap₂ (λ x y. machine.compute (replaced c i) x y st.world) (source_same i.src1 first)
            (source_same i.src2 second)
          ∙ laws.same_compute i (root_operand c i.src1) (root_operand c i.src2) _ _ st.world
              (Stands-SameKind i.src1 first) (Stands-SameKind i.src2 second)

      affected_same :
          (x : ℕ) → affected machine syms (replaced c i) st x ≡ affected machine syms i st x
      affected_same x =
          ap₂ (λ a b. machine.effect (replaced c i) a b x st.world) (source_same i.src1 first)
            (source_same i.src2 second)
          ∙ laws.same_effect i (root_operand c i.src1) (root_operand c i.src2) _ _ x st.world
              (Stands-SameKind i.src1 first) (Stands-SameKind i.src2 second)

      -- The instruction with its operands replaced does the same.
      pub replaced-exec : exec machine syms (replaced c i) st ≡ exec machine syms i st
      replaced-exec = elim (Option-cases i.dest) [
        | inl e ↦
            exec-none machine syms (replaced c i) st e
            ∙ ap (λ w. record st { world = w }) (affected_same 0)
            ∙ sym (exec-none machine syms i st e)
        | inr (d, e) ↦ elim (Bool-cases (redefines_variable syms i && is_local (syms d).scope)) [
          | inl r ↦
              exec-local machine syms (replaced c i) st d e (rw (redefines-replaced syms c i) r)
              ∙ ap (λ x. record st { vars = update machine syms st.vars d x }) assigned_same
              ∙ sym (exec-local machine syms i st d e r)
          | inr r ↦
              exec-world machine syms (replaced c i) st d e (rw (redefines-replaced syms c i) r)
              ∙ ap (λ w. record st { world = w }) (affected_same (val machine syms st d))
              ∙ sym (exec-world machine syms i st d e r)
        ]
      ]

  val-local :
      (st : State machine syms) (d : ℕ)
      → (syms d).is_constant ≡ false
      → is_local (syms d).scope ≡ true
      → val machine syms st d ≡ st.vars d
  unfolding value
  val-local st d k l = rw (k, l) refl

  val-global :
      (st : State machine syms) (d : ℕ)
      → (syms d).is_constant ≡ false
      → is_local (syms d).scope ≡ false
      → val machine syms st d ≡ machine.read_global st.world d
  unfolding value
  val-global st d k l = rw (k, l) refl

  update_same : (f : ℕ → ℕ) (d x : ℕ) → x ≡ f d → update machine syms f d x ≡ f
  update_same f d x h = fun_ext λ v. ground (arith, h, λ (e : d ≡ v). ap f e)

  pub plain_like :
      (a b : ℕ)
      → tag (syms a).type ≡ tag (syms b).type
      → is_addr (syms b).type ≡ false
      → is_addr (syms a).type ≡ false
  plain_like a b t h =
      is_addr-tag (syms a).type ∙ ap (λ n. n == 8) t ∙ sym (is_addr-tag (syms b).type) ∙ h

  redefines_plain :
      (i : Inode) (d : ℕ)
      → i.dest ≡ some d
      → is_addr (syms d).type ≡ false
      → redefines_variable syms i ≡ true
  unfolding redefines_variable
  redefines_plain i d e h = ground arith

  module _ (i : Inode) (made : IsGenerated machine syms i) (st : State machine syms) (s d : ℕ)
      (a : is_assign i.op_type ≡ true) (es : i.src1 ≡ some s) (ed : i.dest ≡ some d)
      (same_type : tag (syms d).type ≡ tag (syms s).type)
      (plain : is_addr (syms d).type ≡ false) where
    pub rhs_assign : is_rhs_variable i ≡ true
    unfolding is_rhs_variable
    rhs_assign = ground arith

    source_value : source machine syms i st i.src1 ≡ val machine syms st s
    source_value = ap (λ o. source machine syms i st o) es ∙ rw rhs_assign refl

    assigned_value : assigned machine syms i st ≡ val machine syms st s
    assigned_value = laws.assigns i s d _ _ st.world a es ed same_type ∙ source_value

    here_or_world :
        ((is_local (syms d).scope ≡ true)
          × (exec machine syms i st
              ≡ record st { vars = update machine syms st.vars d (val machine syms st s) }))
        ⊎ ((is_local (syms d).scope ≡ false)
            × (exec machine syms i st
                ≡ record st { world = affected machine syms i st (val machine syms st d) }))
    here_or_world = elim (Bool-cases (is_local (syms d).scope)) [
      | inl l ↦ inl (
        l,
        exec-local machine syms i st d ed (rw (redefines_plain i d ed plain, l) refl)
            ∙ ap (λ x. record st { vars = update machine syms st.vars d x }) assigned_value,
      )
      | inr l ↦
          inr (l, exec-world machine syms i st d ed (rw (redefines_plain i d ed plain, l) refl))
    ]

    -- An assignment gives the destination the value of the source.
    pub written : val machine syms (exec machine syms i st) d ≡ val machine syms st s
    written = elim here_or_world [
      | inl (l, e) ↦ rw e (val-local _ d (made.variable d ed) l ∙ (ground arith))
      | inr (l, e) ↦ rw e (
          val-global _ d (made.variable d ed) l
          ∙ laws.stores i s d _ _ (val machine syms st d) st.world a es ed plain same_type
          ∙ source_value)
    ]

    -- An assignment of a value that the destination has already changes nothing.
    pub unchanged : val machine syms st d ≡ val machine syms st s → exec machine syms i st ≡ st
    unchanged h = elim here_or_world [
      | inl (l, e) ↦
          e
          ∙ ap (λ f. record st { vars = f })
              (update_same st.vars d (val machine syms st s)
                (sym h ∙ val-local st d (made.variable d ed) l))
      | inr (l, e) ↦
          e
          ∙ ap (λ w. record st { world = w })
              (ap
                  (λ x.
                    machine.effect i x (source machine syms i st i.src2) (val machine syms st d)
                      st.world)
                  (source_value ∙ sym h)
                ∙ laws.stays i s d (val machine syms st d) _ st.world a es ed plain same_type
                    (val-global st d (made.variable d ed) l))
    ]
