-- ===== src/DeadCode/Loop/Settled.antt =====
-- A walk of the dead code elimination that finds nothing marks only assignments of a variable to
-- itself, which no walk looks at.
use csc.Common.{
  ℕ, suc, true, false, List, [], ◌∷◌, ◌≡◌, refl, ap, Bool-cases, inl, inr, ◌∙◌, arith, map, length,
  if◌then◌else◌,
}
use csc.Symbol.{Symbols}
use csc.Set.{Set}
use csc.Instruction.{Inode}
use csc.Liveness.{is_null_assignment, visit, find_def_and_use_sets}
use csc.Liveness.Loop.{Flow, flow}
use csc.DeadCode.{Marked, mark, remove_dead_in_block, assigns_dead_variable}
use csc.DeadCode.Loop.{Part, part_flow, find_liveness_sets, remove_dead_instructions}

-- An instruction with the mark it gets as an assignment to itself.
pub settle : Inode → Inode
settle i = if i.dead then i else if is_null_assignment i then record i { dead = true } else i

abbrev pub settle_part : Part → Part
settle_part p = record p { instructions = map settle p.instructions }

module _ (n : ℕ) (symbols : Symbols) where
  found-later : (i : Inode) (m : Marked) → (mark n symbols i m).found ≡ false → m.found ≡ false
  unfolding mark
  found-later i m e = elim (Bool-cases i.dead) [
    | inl dead ↦ simp dead at e
    | inr alive ↦ elim (Bool-cases (is_null_assignment i)) [
      | inl null ↦ simp (alive, null) at e
      | inr other ↦ ground (arith, simp (alive, other) at e)
    ]
  ]

  mark-settled :
      (i : Inode) (m : Marked)
      → (mark n symbols i m).found ≡ false
      → (mark n symbols i m).instructions ≡ settle i ∷ m.instructions
  unfolding mark settle
  mark-settled i m e = elim (Bool-cases i.dead) [
    | inl dead ↦ simp dead refl
    | inr alive ↦ elim (Bool-cases (is_null_assignment i)) [
      | inl null ↦ simp (alive, null) refl
      | inr other ↦ elim (Bool-cases (assigns_dead_variable symbols i m.live)) [
        | inl gone ↦ absurd (ground (arith, simp (alive, other, gone) at e))
        | inr stays ↦ simp (alive, other, stays) refl
      ]
    ]
  ]

  mark-settle : (i : Inode) (m : Marked) → mark n symbols (settle i) m ≡ mark n symbols i m
  unfolding mark settle
  mark-settle i m = elim (Bool-cases i.dead) [
    | inl dead ↦ simp dead refl
    | inr alive ↦ elim (Bool-cases (is_null_assignment i)) [
      | inl null ↦ simp (alive, null) refl
      | inr other ↦ simp (alive, other) refl
    ]
  ]

  visit-settle : (i : Inode) (d : Set × Set) → visit n symbols (settle i) d ≡ visit n symbols i d
  unfolding visit settle
  visit-settle i d = elim (Bool-cases i.dead) [
    | inl dead ↦ simp dead refl
    | inr alive ↦ elim (Bool-cases (is_null_assignment i)) [
      | inl null ↦ simp (alive, null) refl
      | inr other ↦ simp (alive, other) refl
    ]
  ]

  walk-settled :
      (out : Set) (block : List Inode)
      → (remove_dead_in_block n symbols out block).found ≡ false
      → (remove_dead_in_block n symbols out block).instructions ≡ map settle block
  unfolding remove_dead_in_block
  walk-settled out [] e = refl
  walk-settled out (i ∷ rest) e =
      let m = remove_dead_in_block n symbols out rest in
      mark-settled i m e ∙ ap (λ is. settle i ∷ is) (walk-settled out rest (found-later i m e))

  walk-settle :
      (out : Set) (block : List Inode)
      → remove_dead_in_block n symbols out (map settle block)
        ≡ remove_dead_in_block n symbols out block
  unfolding remove_dead_in_block
  walk-settle out [] = refl
  walk-settle out (i ∷ rest) =
      ap (mark n symbols (settle i)) (walk-settle out rest)
      ∙ mark-settle i (remove_dead_in_block n symbols out rest)

  sets-settle :
      (block : List Inode)
      → find_def_and_use_sets n symbols (map settle block) ≡ find_def_and_use_sets n symbols block
  unfolding find_def_and_use_sets
  sets-settle [] = refl
  sets-settle (i ∷ rest) =
      ap (visit n symbols (settle i)) (sets-settle rest)
      ∙ visit-settle i (find_def_and_use_sets n symbols rest)

  part_flows-settle :
      (parts : List Part)
      → map (part_flow n symbols) (map settle_part parts) ≡ map (part_flow n symbols) parts
  unfolding part_flow
  part_flows-settle [] = refl
  part_flows-settle (p ∷ rest) = rw (sets-settle p.instructions, part_flows-settle rest) refl

  length-settle : (parts : List Part) → length (map settle_part parts) ≡ length parts
  length-settle [] = refl
  length-settle (p ∷ rest) = ap suc (length-settle rest)

  -- Liveness is the same after the marks.
  pub find_liveness_sets-settle :
      (parts : List Part)
      → find_liveness_sets n symbols (map settle_part parts) ≡ find_liveness_sets n symbols parts
  unfolding find_liveness_sets
  find_liveness_sets-settle parts = rw (length-settle parts, part_flows-settle parts) refl

  pub removal-settled :
      (flows : List Flow) (k : ℕ) (parts : List Part)
      → (remove_dead_instructions n symbols flows k parts).found ≡ false
      → (remove_dead_instructions n symbols flows k parts).parts ≡ map settle_part parts
  unfolding remove_dead_instructions
  removal-settled flows k [] e = refl
  removal-settled flows k (p ∷ rest) e =
      rw
        (
          walk-settled (flow n flows k).out p.instructions (ground (arith, e)),
          removal-settled flows (suc k) rest (ground (arith, e)),
        )
        refl

  pub removal-settle :
      (flows : List Flow) (k : ℕ) (parts : List Part)
      → remove_dead_instructions n symbols flows k (map settle_part parts)
        ≡ remove_dead_instructions n symbols flows k parts
  unfolding remove_dead_instructions
  removal-settle flows k [] = refl
  removal-settle flows k (p ∷ rest) =
      rw (walk-settle (flow n flows k).out p.instructions, removal-settle flows (suc k) rest) refl
