-- ===== src/DeadCode/Loop/Ends.antt =====
-- The loop of the dead code elimination ends: each round but the last marks an instruction.
use csc.Common.{
  ℕ, zero, suc, ◌+◌, ◌≤◌, ◌<◌, false, not, some, List, [], ◌∷◌, ◌≡◌, refl, ap, sym, Bool-cases, inl,
  inr, ◌∙◌, arith, map, length, bit,
}
use csc.Symbol.{Symbols}
use csc.Set.{Set, create_empty_set}
use csc.Set.Words.{empty-IsWellFormed}
use csc.Instruction.{Inode}
use csc.Liveness.{is_null_assignment}
use csc.Liveness.Operands.{IdsBelow}
use csc.Liveness.Loop.{Flow, flow, start_flow}
use csc.Liveness.Loop.Growth.{IsFormed}
use csc.Liveness.Loop.Solution.{IsSolution, liveness_solved}
use csc.DeadCode.{Marked, mark, remove_dead_in_block, assigns_dead_variable}
use csc.DeadCode.LiveIn.{def-IsWellFormed, use-IsWellFormed}
use csc.DeadCode.Loop.{
  Part, part_flow, find_liveness_sets, remove_dead_instructions, do_dead_code_elimination,
}
use csc.DeadCode.Loop.Settled.{find_liveness_sets-settle, removal-settled, removal-settle}

-- The instructions without a mark.
abbrev pub alive_in : List Inode → ℕ
alive_in [] = 0
alive_in (i ∷ rest) = bit (not i.dead) + alive_in rest

abbrev pub alive : List Part → ℕ
alive [] = 0
alive (p ∷ rest) = alive_in p.instructions + alive rest

pub length-map : {A : Type 0} {B : Type 0} (f : A → B) (xs : List A) → length (map f xs) ≡ length xs
length-map f [] = refl
length-map f (x ∷ xs) = ap suc (length-map f xs)

module _ (n : ℕ) (symbols : Symbols) where
  mark_alive :
      (i : Inode) (m : Marked) (count : ℕ)
      → alive_in m.instructions + bit m.found ≤ count
      → alive_in (mark n symbols i m).instructions + bit (mark n symbols i m).found
        ≤ bit (not i.dead) + count
  unfolding mark
  mark_alive i m count h = elim (Bool-cases i.dead) [
    | inl dead ↦ simp dead (omega (arith, h))
    | inr active ↦ elim (Bool-cases (is_null_assignment i)) [
      | inl null ↦ simp (active, null) (omega (arith, h))
      | inr other ↦ elim (Bool-cases (assigns_dead_variable symbols i m.live)) [
        | inl gone ↦ simp (active, other, gone) (ground (arith, h))
        | inr stays ↦ simp (active, other, stays) (ground (arith, h))
      ]
    ]
  ]

  walk_alive :
      (out : Set) (block : List Inode)
      → (let m = remove_dead_in_block n symbols out block in
          alive_in m.instructions + bit m.found ≤ alive_in block)
  unfolding remove_dead_in_block
  walk_alive out [] = omega arith
  walk_alive out (i ∷ rest) =
      mark_alive i (remove_dead_in_block n symbols out rest) (alive_in rest) (walk_alive out rest)

  -- A run marks no fewer instructions, and where it finds one dead it marks more.
  removal_alive :
      (flows : List Flow) (k : ℕ) (parts : List Part)
      → (let swept = remove_dead_instructions n symbols flows k parts in
          alive swept.parts + bit swept.found ≤ alive parts)
  unfolding remove_dead_instructions
  removal_alive flows k [] = omega arith
  removal_alive flows k (p ∷ rest) =
      ground
        (arith, walk_alive (flow n flows k).out p.instructions, removal_alive flows (suc k) rest)

  module _ (ids : IdsBelow n symbols) where
    -- What the blocks have before the first round of liveness.
    record Starts (b : Flow) : Type 0 where
      formed : IsFormed n b
      in_start : b.in_set ≡ b.use_set
      out_start : b.out ≡ create_empty_set n

    starts_lem : (parts : List Part) (k : ℕ) → Starts (flow n (map (part_flow n symbols) parts) k)
    unfolding part_flow start_flow
    starts_lem [] k = record {
      formed = record {
        def_formed = empty-IsWellFormed n;
        use_formed = empty-IsWellFormed n;
        in_formed = empty-IsWellFormed n;
        out_formed = empty-IsWellFormed n;
      };
      in_start = refl;
      out_start = refl;
    }
    starts_lem (p ∷ rest) zero =
        let def_formed =
          def-IsWellFormed n symbols ids (create_empty_set n) (empty-IsWellFormed n)
            p.instructions in
        let use_formed =
          use-IsWellFormed n symbols ids (create_empty_set n) (empty-IsWellFormed n)
            p.instructions in
        record {
          formed = record {
            def_formed = def_formed;
            use_formed = use_formed;
            in_formed = use_formed;
            out_formed = empty-IsWellFormed n;
          };
          in_start = refl;
          out_start = refl;
        }
    starts_lem (p ∷ rest) (suc k) = starts_lem rest k

    abbrev pub starts : List Part → List Flow
    starts parts = map (part_flow n symbols) parts

    -- The liveness sets of each round are found.
    pub liveness_found :
        (parts : List Part)
        → (flows : List Flow) × (find_liveness_sets n symbols parts ≡ some flows)
          × IsSolution n (starts parts) flows
    unfolding find_liveness_sets
    liveness_found parts =
        let (flows, found, solved) = liveness_solved n (starts parts) (record {
          formed = λ k. (starts_lem parts k).formed;
          in_start = λ k. (starts_lem parts k).in_start;
          out_start = λ k. (starts_lem parts k).out_start;
        }) in
        (flows, rw (sym (length-map (part_flow n symbols) parts)) found, solved)

    -- The marks are settled: a further round, with liveness found afresh, marks nothing.
    pub IsFinished : List Part → Type 0
    IsFinished parts =
        (flows : List Flow) × (find_liveness_sets n symbols parts ≡ some flows)
        × (remove_dead_instructions n symbols flows 0 parts
            ≡ record { parts = parts; found = false })

    loop_ends :
        (fuel : ℕ) (parts : List Part)
        → alive parts < fuel
        → (r : List Part) × (do_dead_code_elimination fuel n symbols parts ≡ some r) × IsFinished r
    unfolding do_dead_code_elimination IsFinished
    loop_ends zero parts lt = absurd (omega arith)
    loop_ends (suc fuel) parts lt =
        let (flows, found, _) = liveness_found parts in
        let swept = remove_dead_instructions n symbols flows 0 parts in
        elim (Bool-cases swept.found) [
          | inl more ↦
              let (r, ends, fixed) =
                loop_ends fuel swept.parts (ground (arith, removal_alive flows 0 parts, more)) in
              (r, rw (found, more, do_dead_code_elimination) ends, fixed)
          | inr done ↦ (
            swept.parts,
            rw (found, done, do_dead_code_elimination) refl,
            rw (removal-settled n symbols flows 0 parts done) (
              flows,
              find_liveness_sets-settle n symbols parts ∙ found,
              removal-settle n symbols flows 0 parts ∙ (λ i. record {
                parts = removal-settled n symbols flows 0 parts done i;
                found = done i;
              }),
            ),
          )
        ]

    -- Where every local entry has an id below the number of variables, the loop ends within as
    -- many rounds as there are unmarked instructions, and one more. A further round, with
    -- liveness found afresh, would find nothing dead and leave every mark as it is.
    pub elimination_ends :
        (parts : List Part)
        → (r : List Part) × (do_dead_code_elimination (alive parts + 1) n symbols parts ≡ some r)
          × IsFinished r
    elimination_ends parts = loop_ends (alive parts + 1) parts (omega arith)
