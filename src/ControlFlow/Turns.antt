-- ===== src/ControlFlow/Turns.antt =====
-- One turn of the loop of update_blocks: an instruction gets its block and its edges.
use csc.Common.{
  ℕ, suc, ◌≤◌, ◌<◌, true, Option, none, some, List, ◌≡◌, refl, ap, sym, ◌∙◌, subst, arith, length,
  Bool-cases, Option-cases, inl, inr, ==→eq, eq→==,
}
use native.Mathlib.Decide.{ℕ_discrete}
use csc.Instruction.{Inode, same_operand}
use csc.Block.{connect_blocks}
use csc.ControlFlow.{
  Graph, Walk, instruction, jump_place, is_jump, starts_block, fall_through, enter_block,
}
use csc.ControlFlow.Leaders.{starts-jump, IsLed, IsJump, Labelled, Done}
use csc.ControlFlow.Edges.{
  IsCode, Joined, Jumped, Extends, Extends-refl, linked, linked-Extends, linked-Edge, joined,
  joined-Extends,
}

-- `jump_to == curr_instruction`, by place.
same_operand-some : (o : Option ℕ) (k : ℕ) → same_operand o (some k) ≡ true → o ≡ some k
same_operand-some none k e = absurd cc
same_operand-some (some j) k e = ap some (==→eq j k e)

-- Only jumps have a destination, and it is a label of the code; the first instruction
-- enters the function, or is a call.
pub record IsBody (code : List Inode) : Type 0 where
  pub labelled : Labelled code
  pub only_jumps : (k t : ℕ) → jump_place code k ≡ some t → IsJump code k
  pub enters : starts_block (instruction code 0).op_type ≡ true

module _ (code : List Inode) (body : IsBody code) (led : Graph) (good : IsLed led)
    (done : (k : ℕ) → k < length code → Done code k led) where
  -- What the loop has after the instruction at `p`.
  pub record Seen (p : ℕ) (w : Walk) : Type 0 where
    pub curr : ℕ
    pub at_curr : w.curr_block ≡ some curr
    pub here : IsCode code p → w.graph.block p ≡ some curr
    pub firsts : (b : ℕ) → w.graph.first_instruction b ≡ led.first_instruction b
    pub later : (k : ℕ) → p < k → w.graph.block k ≡ led.block k
    pub kept : (k b : ℕ) → led.block k ≡ some b → w.graph.block k ≡ some b
    pub joins : (j : ℕ) → j < p → IsCode code j → IsCode code (suc j) → Joined w.graph j
    pub jumps : (j t : ℕ) → 0 < j → j ≤ p → jump_place code j ≡ some t → Jumped w.graph j t

  module _ (p : ℕ) (w : Walk) (seen : Seen p w) where
    -- The instruction has its block, which is joined to the one before.
    pub record Entered (after : Walk) : Type 0 where
      pub block : ℕ
      pub at_block : after.curr_block ≡ some block
      pub here : after.graph.block (suc p) ≡ some block
      pub extends : Extends (suc p) w.graph after.graph
      pub joins : IsCode code p → Joined after.graph p

    fresh_first :
        (b : ℕ) → w.graph.block (suc p) ≡ some b → w.graph.first_instruction b ≡ some (suc p)
    fresh_first b e =
        seen.firsts b ∙ good.first (suc p) b (sym (seen.later (suc p) (omega arith)) ∙ e)

    enter_inside :
        w.graph.block (suc p) ≡ none
        → (after : Walk) × (enter_block code p w ≡ some after) × Entered after
    unfolding enter_block
    enter_inside e =
        let after : Walk = record {
          graph = joined w.graph (suc p) seen.curr;
          curr_block = some seen.curr;
        } in
        let grown = joined-Extends (suc p) seen.curr w.graph e in
        let at_here : after.graph.block (suc p) ≡ some seen.curr =
          rw (eq→== (suc p) (suc p) refl) refl in
        (
          after,
          rw (enter_block, e, seen.at_curr) refl,
          record {
            block = seen.curr;
            at_block = refl;
            here = at_here;
            extends = grown;
            joins = λ c. record {
              before = seen.curr;
              here = seen.curr;
              at_before = grown.kept p seen.curr (seen.here c);
              at_here = at_here;
              how = inl refl;
            };
          },
        )

    -- A jump from the instruction before to this one has made the edge.
    jumped_here : jump_place code p ≡ some (suc p) → Joined w.graph p
    jumped_here e = elim (ℕ_discrete p 0) [
      | yes first ↦ absurd (
          cc (
            subst (λ k. is_jump (instruction code k).op_type ≡ true) first
                (body.only_jumps p (suc p) e),
            starts-jump (instruction code 0) body.enters,
          ))
      | no later ↦
          let j = seen.jumps p (suc p) (omega (arith, later)) (omega arith) e in
          record {
            before = j.from;
            here = j.to;
            at_before = j.at_from;
            at_here = j.at_to;
            how = inr (j.first, j.edge);
          }
    ]

    entered :
        (b : ℕ) (graph : Graph)
        → w.graph.block (suc p) ≡ some b
        → Extends (suc p) w.graph graph
        → (IsCode code p → Joined graph p)
        → Entered (record { graph = graph; curr_block = some b })
    entered b graph e grown joins = record {
      block = b;
      at_block = refl;
      here = grown.kept (suc p) b e;
      extends = grown;
      joins = joins;
    }

    enter_leader :
        (b : ℕ)
        → w.graph.block (suc p) ≡ some b
        → (after : Walk) × (enter_block code p w ≡ some after) × Entered after
    unfolding enter_block fall_through connect_blocks
    enter_leader b e = elim (Bool-cases (same_operand (jump_place code p) (some (suc p)))) [
      | inl jumps ↦ (
        record { graph = w.graph; curr_block = some b },
        rw (enter_block, e, fall_through, jumps) refl,
        entered b w.graph e (Extends-refl (suc p) w.graph)
            (λ _. jumped_here (same_operand-some (jump_place code p) (suc p) jumps)),
      )
      | inr falls ↦ elim (Option-cases (w.graph.block p)) [
        | inl nowhere ↦ (
          record { graph = w.graph; curr_block = some b },
          rw (enter_block, e, fall_through, falls, nowhere) refl,
          entered b w.graph e (Extends-refl (suc p) w.graph)
              (λ c. absurd (cc (seen.here c, nowhere))),
        )
        | inr (q, at) ↦
            let graph = linked w.graph q b in
            (
              record { graph = graph; curr_block = some b },
              rw (enter_block, e, fall_through, falls, at) refl,
              entered b graph e (linked-Extends (suc p) q b w.graph) (λ _. record {
                before = q;
                here = b;
                at_before = at;
                at_here = e;
                how = inr (fresh_first b e, linked-Edge q b w.graph);
              }),
            )
      ]
    ]

    pub enter : (after : Walk) × (enter_block code p w ≡ some after) × Entered after
    enter = elim (Option-cases (w.graph.block (suc p))) [
      | inl e ↦ enter_inside e
      | inr (b, e) ↦ enter_leader b e
    ]
