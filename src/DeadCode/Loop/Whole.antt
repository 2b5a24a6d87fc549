-- ===== src/DeadCode/Loop/Whole.antt =====
-- The whole dead code elimination keeps what a function does to the world.
use csc.Common.{
  ℕ, zero, suc, ◌+◌, ◌<◌, some, List, [], ◌∷◌, ◌≡◌, refl, ap, sym, arith, length, subst, ◌||◌, ◌&&◌,
  not, true, Bool-cases, inl, inr, ◌∙◌,
}
use mathlib.Core.Option.{some-injective}
use native.Mathlib.Decide.{dec_lt}
use csc.Symbol.{Symbols}
use csc.Instruction.{Inode}
use csc.Machine.{Machine, State, run}
use csc.Set.{Set}
use csc.Liveness.{is_null_assignment}
use csc.Liveness.Operands.{IdsBelow}
use csc.Liveness.Loop.{Flow, flow, start_flow}
use csc.Liveness.Loop.Rounds.{fixed, IsBalanced}
use csc.Liveness.Loop.Growth.{has}
use csc.Liveness.Loop.Solution.{IsSolution}
use csc.DeadCode.{Marked, mark, remove_dead_in_block, assigns_dead_variable}
use csc.DeadCode.LiveIn.{live_members}
use csc.DeadCode.Step.{UniqueIds, IsLowered, AllLowered, Agree}
use csc.DeadCode.Sound.{remove_dead_sound}
use csc.DeadCode.Loop.{Part, part_flow, remove_dead_instructions, do_dead_code_elimination}
use csc.DeadCode.Loop.Ends.{length-map, starts, liveness_found, alive, elimination_ends}
use csc.DeadCode.Loop.Paths.{
  part, nth, run_parts, leave-world, part_beyond, live_after-nth, flow-start, part-removal,
}

abbrev pub LoweredParts : Symbols → List Part → Type 0
LoweredParts symbols [] = Unit {0}
LoweredParts symbols (p ∷ rest) = AllLowered symbols p.instructions × LoweredParts symbols rest

lowered_at :
    (symbols : Symbols) (parts : List Part) (k : ℕ)
    → LoweredParts symbols parts
    → AllLowered symbols (part parts k).instructions
lowered_at symbols [] k h = tt
lowered_at symbols (p ∷ rest) zero h = h.0
lowered_at symbols (p ∷ rest) (suc k) h = lowered_at symbols rest k h.1

module _ (n : ℕ) (symbols : Symbols) where
  -- A mark keeps the operands.
  mark-Lowered :
      (i : Inode) (m : Marked)
      → IsLowered symbols i
      → AllLowered symbols m.instructions
      → AllLowered symbols (mark n symbols i m).instructions
  unfolding mark
  mark-Lowered i m one later = elim (Bool-cases i.dead) [
    | inl dead ↦ simp dead (one, later)
    | inr alive ↦ elim (Bool-cases (is_null_assignment i)) [
      | inl null ↦ simp (alive, null) (marked, later)
      | inr other ↦ elim (Bool-cases (assigns_dead_variable symbols i m.live)) [
        | inl gone ↦ simp (alive, other, gone) (marked, later)
        | inr stays ↦ simp (alive, other, stays) (one, later)
      ]
    ]
  ]
    where
      marked : IsLowered symbols (record i { dead = true })
      marked = record { variable = one.variable; no_self_store = one.no_self_store }

  walk-Lowered :
      (out : Set) (block : List Inode)
      → AllLowered symbols block
      → AllLowered symbols (remove_dead_in_block n symbols out block).instructions
  unfolding remove_dead_in_block
  walk-Lowered out [] h = tt
  walk-Lowered out (i ∷ rest) h =
      mark-Lowered i (remove_dead_in_block n symbols out rest) h.0 (walk-Lowered out rest h.1)

  removal-Lowered :
      (flows : List Flow) (j : ℕ) (parts : List Part)
      → LoweredParts symbols parts
      → LoweredParts symbols (remove_dead_instructions n symbols flows j parts).parts
  unfolding remove_dead_instructions
  removal-Lowered flows j [] h = tt
  removal-Lowered flows j (p ∷ rest) h =
      (walk-Lowered (flow n flows j).out p.instructions h.0, removal-Lowered flows (suc j) rest h.1)

module _ (machine : Machine) (next : machine.World → ℕ → ℕ) (n : ℕ) (symbols : Symbols)
    (ids : IdsBelow n symbols) (unique : UniqueIds symbols) where
  abbrev Same : Set → State machine symbols → State machine symbols → Type 0
  Same = Agree machine n symbols ids unique

  abbrev Runs : ℕ → List Part → ℕ → State machine symbols → State machine symbols
  Runs = run_parts machine symbols next

  module _ (parts : List Part) (flows : List Flow)
      (solved : IsSolution n (starts n symbols ids parts) flows)
      (low : LoweredParts symbols parts) where
    abbrev swept : List Part
    swept = (remove_dead_instructions n symbols flows 0 parts).parts

    abbrev walked : ℕ → Marked
    walked k = remove_dead_in_block n symbols (flow n flows k).out (part parts k).instructions

    kept : (k : ℕ) → fixed n (flow n flows k) ≡ fixed n (part_flow n symbols (part parts k))
    kept k = solved.kept k ∙ ap (fixed n) (flow-start n symbols parts k)

    balanced : (k : ℕ) → k < length parts → IsBalanced n flows k
    balanced k inside = solved.balanced k (rw (length-map (part_flow n symbols) parts) inside)

    -- What the marking walk of a block ends with is what liveness has found.
    live_in_solution :
        (k : ℕ)
        → k < length parts
        → (v : ℕ) → has n (walked k).live v ≡ has n (flow n flows k).in_set v
    unfolding part_flow start_flow
    live_in_solution k inside v =
        live_members n symbols ids (flow n flows k).out (solved.formed k).out_formed
          (part parts k).instructions v
        ∙ ap (λ q. has n q.2 v || has n (flow n flows k).out v && not (has n q.1 v)) (sym (kept k))
        ∙ sym ((balanced k inside).in_balanced v)

    live_out_solution :
        (k j c : ℕ)
        → k < length parts
        → nth (part parts k).children j ≡ some c
        → (v : ℕ) → has n (flow n flows c).in_set v ≡ true
        → has n (flow n flows k).out v ≡ true
    unfolding part_flow start_flow
    live_out_solution k j c inside e v m =
        (balanced k inside).out_balanced v
        ∙ live_after-nth n symbols flows (flow n flows k).children j c v
            (ap (λ q. nth q.0 j) (kept k) ∙ e) m

    step_by_step :
        (steps k : ℕ) (s t : State machine symbols)
        → Same (flow n flows k).in_set s t
        → (Runs steps parts k s).world ≡ (Runs steps swept k t).world
    unfolding run_parts run remove_dead_in_block
    step_by_step zero k s t h = h.same_world
    step_by_step (suc steps) k s t h =
        let after = run machine symbols (part parts k).instructions s in
        let after' = run machine symbols (walked k).instructions t in
        elim (dec_lt k (length parts)) [
          | yes inside ↦
              let ended : Same (flow n flows k).out after after' =
                remove_dead_sound machine n symbols ids unique (flow n flows k).out
                  (part parts k).instructions s t (solved.formed k).out_formed
                  (lowered_at symbols parts k low)
                  (record {
                    same_world = h.same_world;
                    same_vars = λ a tr m.
                        h.same_vars a tr (sym (live_in_solution k inside (symbols a).id) ∙ m);
                  }) in
              rw (part-removal n symbols flows parts k) (
                leave-world machine symbols next (Runs steps parts) (Runs steps swept)
                  (nth (part parts k).children (next after.world k))
                  (nth (part parts k).children (next after'.world k)) after after'
                  (ap (λ w. nth (part parts k).children (next w k)) (sym ended.same_world))
                  ended.same_world
                  (λ c e. step_by_step steps c after after' (record {
                    same_world = ended.same_world;
                    same_vars = λ a tr m.
                        ended.same_vars a tr
                          (live_out_solution k (next after.world k) c inside e (symbols a).id m);
                  })))
          | no out ↦
              rw (part-removal n symbols flows parts k, part_beyond parts k (omega (arith, out)))
                h.same_world
        ]

  abbrev Keeps : List Part → List Part → Type 0
  Keeps parts r =
      (steps k : ℕ) (st : State machine symbols)
      → (Runs steps parts k st).world ≡ (Runs steps r k st).world

  loop-Keeps :
      (fuel : ℕ) (parts r : List Part)
      → LoweredParts symbols parts
      → do_dead_code_elimination fuel n symbols parts ≡ some r
      → Keeps parts r
  unfolding do_dead_code_elimination
  loop-Keeps zero parts r low e = absurd cc
  loop-Keeps (suc fuel) parts r low e =
      let (flows, found, solved) = liveness_found n symbols ids parts in
      let swept = remove_dead_instructions n symbols flows 0 parts in
      let round : Keeps parts swept.parts = λ steps k st.
        step_by_step parts flows solved low steps k st st
          (record { same_world = refl; same_vars = λ a tr m. refl }) in
      elim (Bool-cases swept.found) [
        | inl more ↦ λ steps k st.
            round steps k st
            ∙ loop-Keeps fuel swept.parts r (removal-Lowered n symbols flows 0 parts low)
                (rw (do_dead_code_elimination, found, more) at e) steps k st
        | inr done ↦
            subst (Keeps parts)
              (some-injective _ _ (rw (do_dead_code_elimination, found, done) at e)) round
      ]

  -- For a function whose instructions are lowered, whose local entries have ids below the number
  -- of variables and no two variables one id: the loop ends within as many rounds as there are
  -- unmarked instructions, and one more, and the marked blocks, run from any block and state for
  -- any number of blocks, do to the world what the blocks did before.
  pub elimination_sound :
      (parts : List Part)
      → LoweredParts symbols parts
      → (r : List Part) × (do_dead_code_elimination (alive parts + 1) n symbols parts ≡ some r)
        × ((steps k : ℕ) (st : State machine symbols)
            → (run_parts machine symbols next steps parts k st).world
              ≡ (run_parts machine symbols next steps r k st).world)
  elimination_sound parts low =
      let (r, ends, _) = elimination_ends n symbols ids parts in
      (r, ends, loop-Keeps (alive parts + 1) parts r low ends)
