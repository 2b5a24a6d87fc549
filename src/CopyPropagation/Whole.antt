-- ===== src/CopyPropagation/Whole.antt =====
-- code_optimization.c: copy propagation over whole blocks.
use csc.Common.{
  ℕ, Bool, true, false, none, some, List, [], ◌∷◌, if◌then◌else◌, ◌≡◌, refl, ap, sym, ◌∙◌, arith,
  Bool-cases, ◌⊎◌, inl, inr,
}
use csc.Symbol.{Symbols}
use csc.Instruction.{Inode}
use csc.Machine.{Machine, State, exec, run}
use csc.CopyPropagation.{
  Copies, no_copies, propagate, propagate_each, propagate_block, propagate_blocks,
  do_copy_propagation,
}
use csc.CopyPropagation.Links.{Linked, no_copies-Linked}
use csc.CopyPropagation.Cleared.{cleared}
use csc.CopyPropagation.Block.{is_call, Copying, IsGenerated, Agrees}
use csc.CopyPropagation.Sound.{turn}

if_ap {ℓ κ} :
    {A : Type ℓ} {B : Type κ} (b : Bool) (f : A → B) (x y : A)
    → (if b then f x else f y) ≡ f (if b then x else y)
if_ap true f x y = refl
if_ap false f x y = refl

module _ (machine : Machine) (syms : Symbols) where
  abbrev pub AllGenerated : List Inode → Type 0
  AllGenerated [] = Unit {0}
  AllGenerated (i ∷ rest) = IsGenerated machine syms i × AllGenerated rest

  abbrev pub NoCalls : List Inode → Type 0
  NoCalls [] = Unit {0}
  NoCalls (i ∷ rest) = (is_call i.op_type ≡ false) × NoCalls rest

  -- A call stands at the start of a block or nowhere in it.
  abbrev pub CallsFirst : List Inode → Type 0
  CallsFirst [] = Unit {0}
  CallsFirst (i ∷ rest) = NoCalls rest

  run_cons :
      (i : Inode) (rest : List Inode) (st : State machine syms)
      → run machine syms (i ∷ rest) st
        ≡ run machine syms rest (if i.dead then st else exec machine syms i st)
  unfolding run
  run_cons i rest st = if_ap i.dead (run machine syms rest) st (exec machine syms i st)

  skipped : (i : Inode) (c : Copies) → i.dead ≡ true → propagate syms i c ≡ some (i, c)
  unfolding propagate
  skipped i c e = simp e

  module _ (laws : Copying machine syms) where
    -- The walk over a block from a state and from copies that agree with it.
    record Walk (block : List Inode) (st : State machine syms) (c : Copies) : Type 0 where
      out : List Inode
      last : Copies
      runs : propagate_each syms block c ≡ some (out, last)
      linked : Linked last
      same : run machine syms out st ≡ run machine syms block st

    after_turn :
        (i i' : Inode) (rest : List Inode) (st next : State machine syms) (c c' : Copies)
        → propagate syms i c ≡ some (i', c')
        → (if i'.dead then st else exec machine syms i' st) ≡ next
        → (if i.dead then st else exec machine syms i st) ≡ next
        → Walk rest next c'
        → Walk (i ∷ rest) st c
    after_turn i i' rest st next c c' turns same' same w = record {
      out = i' ∷ w.out;
      last = w.last;
      runs = unfold propagate_each in rw (turns, w.runs) refl;
      linked = w.linked;
      same =
          run_cons i' w.out st
          ∙ ap (run machine syms w.out) same'
          ∙ w.same
          ∙ ap (run machine syms rest) (sym same)
          ∙ sym (run_cons i rest st);
    }

    abbrev Quiet : Inode → Copies → Type 0
    Quiet i c = (is_call i.op_type ≡ false) ⊎ ((v : ℕ) → c.copied_from v ≡ none)

    by_dead :
        (i : Inode) (st : State machine syms) (b : Bool)
        → i.dead ≡ b
        → (if i.dead then st else exec machine syms i st)
          ≡ (if b then st else exec machine syms i st)
    by_dead i st b e = ap (λ x. if x then st else exec machine syms i st) e

    -- One instruction, and then the rest of the block.
    step-Walk :
        (i : Inode) (rest : List Inode) (st : State machine syms) (c : Copies)
        → IsGenerated machine syms i
        → Quiet i c
        → Linked c
        → Agrees machine syms st c
        → ((st' : State machine syms) (c' : Copies)
            → Linked c'
            → Agrees machine syms st' c'
            → Walk rest st' c')
        → Walk (i ∷ rest) st c
    step-Walk i rest st c made quiet links ok go_on = elim (Bool-cases i.dead) [
      | inl e ↦
          after_turn i i rest st st c c (skipped i c e) (by_dead i st true e) (by_dead i st true e)
            (go_on st c links ok)
      | inr e ↦
          let ((i', c'), t) = turn machine syms laws i made e st c links ok quiet in
          after_turn i i' rest st _ c c' t.runs t.same (by_dead i st false e)
            (go_on _ c' t.linked t.agrees)
    ]

    empty-Walk : (st : State machine syms) (c : Copies) → Linked c → Walk [] st c
    empty-Walk st c links = record {
      out = [];
      last = c;
      runs = unfold propagate_each in refl;
      linked = links;
      same = refl;
    }

    walk :
        (block : List Inode) (st : State machine syms) (c : Copies)
        → AllGenerated block
        → NoCalls block
        → Linked c
        → Agrees machine syms st c
        → Walk block st c
    walk [] st c made quiet links ok = empty-Walk st c links
    walk (i ∷ rest) st c (made, all) (q, quiet) links ok =
        step-Walk i rest st c made (inl q) links ok (λ st' c' l a. walk rest st' c' all quiet l a)

    no_copies-Agrees : (st : State machine syms) → Agrees machine syms st no_copies
    no_copies-Agrees st = record {
      agree = λ v o h. absurd (ground arith);
      typed = λ v o h. absurd (ground arith);
    }

    -- A block: only the first instruction may be a call.
    Walk-block :
        (block : List Inode) (st : State machine syms)
        → AllGenerated block
        → CallsFirst block
        → Walk block st no_copies
    Walk-block [] st made quiet = empty-Walk st no_copies no_copies-Linked
    Walk-block (i ∷ rest) st (made, all) quiet =
        step-Walk i rest st no_copies made (inr λ v. refl) no_copies-Linked (no_copies-Agrees st)
          (λ st' c' l a. walk rest st' c' all quiet l a)

    block_sound :
        (block : List Inode) (st : State machine syms)
        → AllGenerated block
        → CallsFirst block
        → (out : List Inode) × (propagate_block syms block no_copies ≡ some (out, no_copies))
          × (run machine syms out st ≡ run machine syms block st)
    unfolding propagate_block
    block_sound block st made quiet =
        let w = Walk-block block st made quiet in
        (w.out, rw (w.runs, cleared w.last w.linked) refl, w.same)

    abbrev pub EachGenerated : List (List Inode) → Type 0
    EachGenerated [] = Unit {0}
    EachGenerated (block ∷ rest) = AllGenerated block × CallsFirst block × EachGenerated rest

    -- Block by block, the two lists of blocks do the same from the state.
    abbrev pub RunAlike : State machine syms → List (List Inode) → List (List Inode) → Type 0
    RunAlike st [] [] = Unit {0}
    RunAlike st (out ∷ outs) (block ∷ blocks) =
        (run machine syms out st ≡ run machine syms block st) × RunAlike st outs blocks
    RunAlike st _ _ = ⊥

    blocks_sound :
        (blocks : List (List Inode)) (st : State machine syms)
        → EachGenerated blocks
        → (outs : List (List Inode)) × (propagate_blocks syms blocks no_copies ≡ some outs)
          × RunAlike st outs blocks
    unfolding propagate_blocks
    blocks_sound [] st made = ([], refl, tt)
    blocks_sound (block ∷ rest) st (made, quiet, all) =
        let (out, runs, same) = block_sound block st made quiet in
        let (outs, later, alike) = blocks_sound rest st all in
        (out ∷ outs, rw (runs, later) refl, (same, alike))

    -- On blocks of generated instructions in which only the first may be a call, and for a machine
    -- that keeps the laws of `Copying`, copy propagation never goes through a null pointer, and
    -- each block that it returns does from any given state what the block did before.
    pub copy_propagation_sound :
        (blocks : List (List Inode)) (st : State machine syms)
        → EachGenerated blocks
        → (outs : List (List Inode)) × (do_copy_propagation syms blocks ≡ some outs)
          × RunAlike st outs blocks
    unfolding do_copy_propagation
    copy_propagation_sound blocks st made = blocks_sound blocks st made
