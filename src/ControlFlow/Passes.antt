-- ===== src/ControlFlow/Passes.antt =====
-- The loop of update_blocks: each turn, from its two halves, and all of them.
use csc.Common.{
  ℕ, zero, suc, ◌<◌, true, some, List, ◌≡◌, refl, ap, sym, ◌∙◌, subst, arith, length, Bool-cases,
  inl, inr, ◌>>=◌,
}
use mathlib.Core.Option.{some-injective}
use native.Mathlib.Decide.{ℕ_discrete}
use csc.Instruction.{Inode}
use csc.Block.{set_field, connect_blocks}
use csc.ControlFlow.{
  Graph, Walk, instruction, jump_place, declares_global, is_jump, mark_last, link_jump,
  update_block, update_each,
}
use csc.ControlFlow.Leaders.{IsLed, IsJump, Done, global-jump}
use csc.ControlFlow.Edges.{
  IsCode, Joined, Jumped, Extends, Joined-extended, Jumped-extended, Extends-trans, linked,
  linked-Extends, linked-Edge,
}
use csc.ControlFlow.Turns.{IsBody, Seen, Entered, enter}

module _ (code : List Inode) (body : IsBody code) (led : Graph) (good : IsLed led)
    (done : (k : ℕ) → k < length code → Done code k led) where
  module _ (k : ℕ) (inside : k < length code) (w : Walk) (c : ℕ) (at : w.curr_block ≡ some c)
      (here : w.graph.block k ≡ some c)
      (kept : (j b : ℕ) → led.block j ≡ some b → w.graph.block j ≡ some b)
      (firsts : (b : ℕ) → w.graph.first_instruction b ≡ led.first_instruction b) where
    record Left (after : Walk) : Type 0 where
      at_curr : after.curr_block ≡ some c
      extends : Extends k w.graph after.graph
      jumps : (t : ℕ) → jump_place code k ≡ some t → Jumped after.graph k t

    abbrev marked : Walk
    marked = record {
      graph = record w.graph { last_instruction = set_field w.graph.last_instruction c (some k) };
      curr_block = some c;
    }

    mark : mark_last k w ≡ some marked
    unfolding mark_last
    mark = rw (mark_last, at) (ap (λ b. some (record marked { curr_block = b })) at)

    marked-Extends : Extends k w.graph marked.graph
    marked-Extends = record {
      kept = λ j b e. e;
      later = λ j lt. refl;
      edges = λ b d e. e;
      firsts = λ b. refl;
    }

    -- The jump at `k`, whose destination leads a block.
    link : IsJump code k → (after : Walk) × (link_jump code k marked ≡ some after) × Left after
    unfolding link_jump connect_blocks
    link jumps =
        let (t, e) = body.labelled k inside jumps in
        let (d, leads) = (done k inside).target t jumps e in
        let graph = linked marked.graph c d in
        let at_t = kept t d leads in
        (
          record { graph = graph; curr_block = some c },
          rw (link_jump, jumps, e, at_t) refl,
          record {
            at_curr = refl;
            extends =
                Extends-trans k w.graph marked.graph graph marked-Extends
                  (linked-Extends k c d marked.graph);
            jumps = λ u e'. record {
              from = c;
              to = d;
              at_from = here;
              at_to = subst (λ v. w.graph.block v ≡ some d) (some-injective _ _ (sym e ∙ e')) at_t;
              first = firsts d ∙ good.first t d leads ∙ (sym e ∙ e');
              edge = linked-Edge c d marked.graph;
            };
          },
        )

    leave : (after : Walk) × ((mark_last k w >>= link_jump code k) ≡ some after) × Left after
    unfolding link_jump
    leave = elim (Bool-cases (is_jump (instruction code k).op_type)) [
      | inl jumps ↦ let (after, ran, left) = link jumps in (after, rw mark ran, left)
      | inr plain ↦ (
        marked,
        rw (mark, link_jump, plain) refl,
        record {
          at_curr = refl;
          extends = marked-Extends;
          jumps = λ t e. absurd (cc (body.only_jumps k t e, plain));
        },
      )
    ]

  -- What the turn at the instruction after `p` leaves, from the two halves of it.
  module _ (p : ℕ) (inside : suc p < length code) (w : Walk)
      (seen : Seen code body led good done p w) (mid : Walk)
      (entered : Entered code body led good done p w seen mid) (after : Walk) where
    abbrev mid_kept : (j b : ℕ) → led.block j ≡ some b → mid.graph.block j ≡ some b
    mid_kept = λ j b e. entered.extends.kept j b (seen.kept j b e)

    abbrev mid_firsts : (b : ℕ) → mid.graph.first_instruction b ≡ led.first_instruction b
    mid_firsts = λ b. entered.extends.firsts b ∙ seen.firsts b

    next-Seen :
        Left
          (suc p)
          inside
          mid
          entered.block
          entered.at_block
          entered.here
          mid_kept
          mid_firsts
          after
        → Seen code body led good done (suc p) after
    next-Seen left =
        let grown =
          Extends-trans (suc p) w.graph mid.graph after.graph entered.extends left.extends in
        record {
          curr = entered.block;
          at_curr = left.at_curr;
          here = λ _. left.extends.kept (suc p) entered.block entered.here;
          firsts = λ b. left.extends.firsts b ∙ mid_firsts b;
          later = λ k lt. grown.later k lt ∙ seen.later k (omega (arith, lt));
          kept = λ k b e. grown.kept k b (seen.kept k b e);
          joins = λ j lt c d. elim (ℕ_discrete j p) [
            | yes e ↦
                subst (Joined after.graph) (sym e)
                  (Joined-extended left.extends p (entered.joins (subst (IsCode code) e c)))
            | no other ↦ Joined-extended grown j (seen.joins j (omega (arith, lt, other)) c d)
          ];
          jumps = λ j t pos le e. elim (ℕ_discrete j (suc p)) [
            | yes last ↦
                subst (λ i. Jumped after.graph i t) (sym last)
                  (left.jumps t (subst (λ i. jump_place code i ≡ some t) last e))
            | no other ↦ Jumped-extended grown j t (seen.jumps j t pos (omega (arith, le, other)) e)
          ];
        }

  turn :
      (p : ℕ) (w : Walk)
      → suc p < length code
      → Seen code body led good done p w
      → (after : Walk) × (update_block code p w ≡ some after)
        × Seen code body led good done (suc p) after
  unfolding update_block
  turn p w inside seen = elim (Bool-cases (declares_global (instruction code (suc p)).op_type)) [
    | inl global ↦ (
      w,
      rw (update_block, global) refl,
      record {
        curr = seen.curr;
        at_curr = seen.at_curr;
        here = λ c. absurd (cc (c, global));
        firsts = seen.firsts;
        later = λ k lt. seen.later k (omega (arith, lt));
        kept = seen.kept;
        joins = λ j lt c d. elim (ℕ_discrete j p) [
          | yes e ↦ absurd (cc (subst (λ i. IsCode code (suc i)) e d, global))
          | no other ↦ seen.joins j (omega (arith, lt, other)) c d
        ];
        jumps = λ j t pos le e. elim (ℕ_discrete j (suc p)) [
          | yes last ↦ absurd (no_jump (subst (λ i. jump_place code i ≡ some t) last e) global)
          | no other ↦ seen.jumps j t pos (omega (arith, le, other)) e
        ];
      },
    )
    | inr code_one ↦
        let (mid, ran, entered) = enter code body led good done p w seen in
        let (after, left_ran, left) =
          leave (suc p) inside mid entered.block entered.at_block entered.here
            (mid_kept p inside w seen mid entered mid)
            (mid_firsts p inside w seen mid entered mid) in
        (
          after,
          rw (update_block, code_one, ran) left_ran,
          next-Seen p inside w seen mid entered after left,
        )
  ]
    where
      no_jump :
          {t : ℕ}
          → jump_place code (suc p) ≡ some t
          → declares_global (instruction code (suc p)).op_type ≡ true
          → ⊥
      no_jump {t} e global =
          cc (body.only_jumps (suc p) t e, global-jump (instruction code (suc p)) global)

  pub turns :
      (m : ℕ) (w : Walk)
      → m < length code
      → Seen code body led good done 0 w
      → (after : Walk) × (update_each code m w ≡ some after) × Seen code body led good done m after
  unfolding update_each
  turns zero w lt seen = (w, refl, seen)
  turns (suc m) w lt seen =
      let (before, ran, had) = turns m w (omega (arith, lt)) seen in
      let (after, stepped, has) = turn m before lt had in (after, rw ran stepped, has)
