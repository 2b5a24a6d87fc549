-- ===== src/CopyPropagation/Sound.antt =====
-- code_optimization.c: copy propagation keeps what a block does when it runs, and never goes
-- through a null pointer.
use csc.Common.{
  ℕ, true, false, Option, none, some, ◌==◌, if◌then◌else◌, ◌≡◌, refl, ap, sym, ◌∙◌, arith,
  Bool-cases, Option-cases, ==→eq, eq→==, subst, ◌⊎◌, inl, inr,
}
use csc.Symbol.{Symbols, tag, is_addr}
use csc.Instruction.{Inode, is_assign, is_rhs_variable}
use csc.Machine.{Machine, State, exec}
use csc.CopyPropagation.{
  Copies, root_of, replaced, attach_variable_to_original, propagate, detach_destination,
}
use csc.CopyPropagation.Links.{Linked, attached-Linked, not_copied}
use csc.CopyPropagation.Block.{
  is_call, Copying, IsGenerated, val, Agrees, root-val, root-type, val-exec,
}
use csc.CopyPropagation.Step.{Stands, replaced-exec, written, unchanged, plain_like}
use csc.CopyPropagation.Detach.{Detached, detaches}
use csc.CopyPropagation.Turns.{
  replaced_turn, plain_turn, dead_turn, not_itself, no_attach, compares_roots, attaches,
  some_injective,
}

module _ (machine : Machine) (syms : Symbols) (laws : Copying machine syms) where
  abbrev pub run_one : Inode → State machine syms → State machine syms
  run_one i st = if i.dead then st else exec machine syms i st

  live_run :
      (j : Inode)
      → j.dead ≡ false
      → (st : State machine syms) → run_one j st ≡ exec machine syms j st
  live_run j h st = ap (λ b. if b then st else exec machine syms j st) h

  module _ (i : Inode) (made : IsGenerated machine syms i) (alive : i.dead ≡ false)
      (st : State machine syms) (c : Copies) (links : Linked c) (ok : Agrees machine syms st c)
      (quiet : (is_call i.op_type ≡ false) ⊎ ((v : ℕ) → c.copied_from v ≡ none)) where
    abbrev pub after : State machine syms
    after = exec machine syms i st

    -- The outcome of one turn of the loop.
    pub record Turn (out : Inode × Copies) : Type 0 where
      pub runs : propagate syms i c ≡ some out
      pub linked : Linked out.1
      pub agrees : Agrees machine syms after out.1
      pub same : run_one out.0 st ≡ after

    -- Fewer copies, none of which is the destination or a copy of it.
    record Apart (c' : Copies) : Type 0 where
      links' : Linked c'
      fewer : (v o : ℕ) → c'.copied_from v ≡ some o → c.copied_from v ≡ some o
      not_copy : (v o : ℕ) → c'.copied_from v ≡ some o → i.dest ≡ some v → ⊥
      not_original : (v o : ℕ) → c'.copied_from v ≡ some o → i.dest ≡ some o → ⊥

    before-Agrees : (c' : Copies) → Apart c' → Agrees machine syms st c'
    before-Agrees c' h = record {
      agree = λ v o e. ok.agree v o (h.fewer v o e);
      typed = λ v o e. ok.typed v o (h.fewer v o e);
    }

    after-Agrees : (c' : Copies) → Apart c' → Agrees machine syms after c'
    after-Agrees c' h = record {
      agree = λ v o e. elim quiet [
        | inl q ↦
            val-exec machine syms i st laws v q (h.not_copy v o e)
            ∙ ok.agree v o (h.fewer v o e)
            ∙ sym (val-exec machine syms i st laws o q (h.not_original v o e))
        | inr n ↦ absurd (ground (arith, n v, h.fewer v o e))
      ];
      typed = λ v o e. ok.typed v o (h.fewer v o e);
    }

    Detached-Apart : (d : ℕ) (c' : Copies) → i.dest ≡ some d → Detached c d c' → Apart c'
    Detached-Apart d c' ed h = record {
      links' = h.links;
      fewer = h.fewer;
      not_copy = λ v o e to. absurd (ground (arith, λ (p : d ≡ v). ap c'.copied_from p));
      not_original = λ v o e to. absurd (ground (arith, not_copied c' d v o h.links h.free e));
    }

    stands : (c' : Copies) → Apart c' → (o : Option ℕ) → Stands machine syms laws i st c' o
    stands c' h o v e = (
      root-val machine syms st c' (before-Agrees c' h) v,
      root-type machine syms st c' (before-Agrees c' h) v,
    )

    none-Apart : i.dest ≡ none → Apart c
    none-Apart e = record {
      links' = links;
      fewer = λ v o h. h;
      not_copy = λ v o h to. absurd (ground arith);
      not_original = λ v o h to. absurd (ground arith);
    }

    -- No assignment: the destination is detached, and operands are replaced.
    other-Turn :
        (c' : Copies)
        → is_assign i.op_type ≡ false
        → detach_destination i.dest c ≡ some c'
        → Apart c'
        → (out : Inode × Copies) × Turn out
    other-Turn c' a runs h = elim (Bool-cases (is_rhs_variable i)) [
      | inl r ↦ (
        (replaced c' i, c'),
        record {
          runs =
              replaced_turn syms i c c' alive c' (not_itself syms i c c' alive a) runs r
                (no_attach syms i c c' alive a);
          linked = h.links';
          agrees = after-Agrees c' h;
          same =
              live_run (replaced c' i) alive st
              ∙ replaced-exec machine syms laws i st c' (stands c' h i.src1) (stands c' h i.src2);
        },
      )
      | inr r ↦ (
        (i, c'),
        record {
          runs = plain_turn syms i c c' alive (not_itself syms i c c' alive a) runs r;
          linked = h.links';
          agrees = after-Agrees c' h;
          same = live_run i alive st;
        },
      )
    ]

    module _ (s d : ℕ) (a : is_assign i.op_type ≡ true) (es : i.src1 ≡ some s)
        (ed : i.dest ≡ some d) (plain : is_addr (syms s).type ≡ false) where
      rhs : is_rhs_variable i ≡ true
      unfolding is_rhs_variable
      rhs = ground arith

      -- An assignment between copies of one variable.
      itself-Turn : (root_of c d == root_of c s) ≡ true → (out : Inode × Copies) × Turn out
      itself-Turn x = (
        (record i { dead = true }, c),
        record {
          runs =
              dead_turn syms i c c alive (compares_roots syms i c c alive s d a es ed ∙ ap some x);
          linked = links;
          agrees = rw nothing ok;
          same = sym nothing;
        },
      )
        where
          roots : root_of c d ≡ root_of c s
          roots = ==→eq (root_of c d) (root_of c s) x

          like : tag (syms d).type ≡ tag (syms s).type
          like =
              sym (root-type machine syms st c ok d)
              ∙ ap (λ v. tag (syms v).type) roots
              ∙ root-type machine syms st c ok s

          nothing : after ≡ st
          nothing =
              unchanged machine syms laws i made st s d a es ed like
                (plain_like machine syms laws d s like plain)
                (sym (root-val machine syms st c ok d)
                  ∙ ap (val machine syms st) roots
                  ∙ root-val machine syms st c ok s)

      differ : (root_of c d == root_of c s) ≡ false → (d == s) ≡ false
      differ x = ground (arith, λ (p : d ≡ s). ap (root_of c) p)

      -- An assignment between variables of different types.
      convert-Turn :
          (c' : Copies)
          → (root_of c d == root_of c s) ≡ false
          → (tag (syms d).type == tag (syms s).type) ≡ false
          → Detached c d c'
          → (out : Inode × Copies) × Turn out
      convert-Turn c' x t h = (
        (replaced c' i, c'),
        record {
          runs =
              replaced_turn syms i c c' alive c'
                (compares_roots syms i c c alive s d a es ed ∙ ap some x)
                (ap (λ o. detach_destination o c) ed ∙ h.runs) rhs
                (attaches syms i c c' alive s d a es ed ∙ rw t refl);
          linked = h.links;
          agrees = after-Agrees c' apart;
          same =
              live_run (replaced c' i) alive st
              ∙ replaced-exec machine syms laws i st c' (stands c' apart i.src1)
                  (stands c' apart i.src2);
        },
      )
        where
          apart : Apart c'
          apart = Detached-Apart d c' ed h

      -- An assignment between variables of one type: the destination becomes a copy.
      module _ (c' : Copies) (x : (root_of c d == root_of c s) ≡ false)
          (t : tag (syms d).type ≡ tag (syms s).type) (h : Detached c d c') where
        abbrev original : ℕ
        original = root_of c' s

        abbrev attached : Copies
        attached = attach_variable_to_original d original c'

        apart : Apart c'
        apart = Detached-Apart d c' ed h

        original_apart : (original == d) ≡ false
        original_apart = elim (Option-cases (c'.copied_from s)) [
          | inl e ↦ rw (root_of, e) (ground (arith, differ x))
          | inr (o, e) ↦ rw (root_of, e) (ground (arith, not_copied c' d s o h.links h.free e))
        ]

        original_free : c'.copied_from original ≡ none
        original_free = elim (Option-cases (c'.copied_from s)) [
          | inl e ↦ rw (root_of, e) e
          | inr (o, e) ↦ rw (root_of, e) (h.links.rooted s o e)
        ]

        no_call : is_call i.op_type ≡ false
        no_call = ground (arith, a)

        other : i.dest ≡ some original → ⊥
        other e = absurd (ground (arith, original_apart))

        value_after : val machine syms after d ≡ val machine syms after original
        value_after =
            written machine syms laws i made st s d a es ed t
              (plain_like machine syms laws d s t plain)
            ∙ sym (root-val machine syms st c' (before-Agrees c' apart) s)
            ∙ sym (val-exec machine syms i st laws original no_call other)

        type_after : tag (syms d).type ≡ tag (syms original).type
        type_after = t ∙ sym (root-type machine syms st c' (before-Agrees c' apart) s)

        new_original : (v o : ℕ) → (d == v) ≡ true → attached.copied_from v ≡ some o → original ≡ o
        unfolding attach_variable_to_original
        new_original v o p e = some_injective original o (ground arith)

        old_original :
            (v o : ℕ)
            → (d == v) ≡ false
            → attached.copied_from v ≡ some o
            → c'.copied_from v ≡ some o
        unfolding attach_variable_to_original
        old_original v o p e = ground arith

        root_kept : root_of attached s ≡ original
        unfolding attach_variable_to_original
        root_kept = rw (root_of, differ x) refl

        attached-Agrees : Agrees machine syms after attached
        unfolding attach_variable_to_original
        attached-Agrees = record {
          agree = λ v o e. elim (Bool-cases (d == v)) [
            | inl p ↦
                ap (val machine syms after) (sym (==→eq d v p))
                ∙ value_after
                ∙ ap (val machine syms after) (new_original v o p e)
            | inr p ↦ (after-Agrees c' apart).agree v o (old_original v o p e)
          ];
          typed = λ v o e. elim (Bool-cases (d == v)) [
            | inl p ↦
                ap (λ u. tag (syms u).type) (sym (==→eq d v p))
                ∙ type_after
                ∙ ap (λ u. tag (syms u).type) (new_original v o p e)
            | inr p ↦ (after-Agrees c' apart).typed v o (old_original v o p e)
          ];
        }

        first-Stands : Stands machine syms laws i st attached i.src1
        unfolding attach_variable_to_original
        first-Stands v e =
            let same_source : s ≡ v = some_injective s v (sym es ∙ e) in
            subst
              (λ u.
                (val machine syms st (root_of attached u) ≡ val machine syms st u)
                × (tag (syms (root_of attached u)).type ≡ tag (syms u).type))
              same_source (rw root_kept (stands c' apart (some s) s refl))

        second-Stands : Stands machine syms laws i st attached i.src2
        second-Stands v e = absurd (ground (arith, made.single a))

        copy-Turn : (out : Inode × Copies) × Turn out
        copy-Turn = (
          (replaced attached i, attached),
          record {
            runs =
                replaced_turn syms i c c' alive attached
                  (compares_roots syms i c c alive s d a es ed ∙ ap some x)
                  (ap (λ o. detach_destination o c) ed ∙ h.runs) rhs
                  (attaches syms i c c' alive s d a es ed ∙ rw (eq→== _ _ t) refl);
            linked = attached-Linked c' d original h.links h.free original_apart original_free;
            agrees = attached-Agrees;
            same =
                live_run (replaced attached i) alive st
                ∙ replaced-exec machine syms laws i st attached first-Stands second-Stands;
          },
        )

    assign-Turn : is_assign i.op_type ≡ true → (out : Inode × Copies) × Turn out
    assign-Turn a =
        let (s, d, es, ed, plain) = made.target a in
        let (c', h) = detaches c links d in
        elim (Bool-cases (root_of c d == root_of c s)) [
          | inl x ↦ itself-Turn s d a es ed plain x
          | inr x ↦ elim (Bool-cases (tag (syms d).type == tag (syms s).type)) [
            | inl t ↦ copy-Turn s d a es ed plain c' x (==→eq _ _ t) h
            | inr t ↦ convert-Turn s d a es ed plain c' x t h
          ]
        ]

    pub turn : (out : Inode × Copies) × Turn out
    unfolding detach_destination
    turn = elim (Bool-cases (is_assign i.op_type)) [
      | inl a ↦ assign-Turn a
      | inr a ↦ elim (Option-cases i.dest) [
        | inl e ↦ other-Turn c a (ap (λ o. detach_destination o c) e) (none-Apart e)
        | inr (d, e) ↦
            let (c', h) = detaches c links d in
            other-Turn c' a (ap (λ o. detach_destination o c) e ∙ h.runs) (Detached-Apart d c' e h)
      ]
    ]
