-- ===== src/ReachingDefinitions/Transfer.antt =====
-- What gen and kill say of a block: which definitions reach its end.
use csc.Common.{
  ℕ, ◌<◌, Bool, false, ◌&&◌, ◌||◌, not, none, some, List, [], ◌∷◌, ◌==◌, ◌≡◌, refl, sym as sym_path,
  arith, Option-cases, inl, inr, ◌∙◌,
}
use csc.Symbol.{Symbols}
use csc.Set.{
  Set, create_empty_set, add_to_set, remove_from_set, unify_sets, diff_sets,
  does_elto_belong_to_set,
}
use csc.Set.Words.{IsWellFormed, empty-IsWellFormed}
use csc.Set.Laws.{
  belongs-empty, belongs-add, belongs-remove, belongs-unify, belongs-diff, add-IsWellFormed,
  remove-IsWellFormed, unify-IsWellFormed, diff-IsWellFormed,
}
use csc.Instruction.{Inode}
use csc.ReachingDefinitions.{
  Definitions, live_variable, gen_and_kill, gen_and_kill_loop, find_gen_and_kill_sets, out_of_in,
}

abbrev pub has : Set → ℕ → Bool
has s v = does_elto_belong_to_set v s

-- The definitions that reach past one instruction: itself, if it defines a variable, in place of
-- all others of that variable.
abbrev pub reach : Symbols → Definitions → Inode → (ℕ → Bool) → ℕ → Bool
reach sym defs i before v = elim (live_variable sym i) [
  | none ↦ before v
  | some d ↦ (i.definition_id == v) || before v && not (has (defs d) v)
]

-- Past all instructions of a block.
abbrev pub reach_end : Symbols → Definitions → List Inode → (ℕ → Bool) → ℕ → Bool
reach_end sym defs [] before = before
reach_end sym defs (i ∷ rest) before = reach_end sym defs rest (reach sym defs i before)

step-some :
    (sym : Symbols) (defs : Definitions) (i : Inode) (gen kill : Set) (d : ℕ)
    → live_variable sym i ≡ some d
    → gen_and_kill sym defs i (gen, kill) ≡ (
      add_to_set i.definition_id (diff_sets gen (defs d)),
      remove_from_set i.definition_id (unify_sets kill (defs d)),
    )
unfolding gen_and_kill
step-some sym defs i gen kill d e = rw (gen_and_kill, e) refl

step-none :
    (sym : Symbols) (defs : Definitions) (i : Inode) (sets : Set × Set)
    → live_variable sym i ≡ none
    → gen_and_kill sym defs i sets ≡ sets
unfolding gen_and_kill
step-none sym defs i (gen, kill) e = rw (gen_and_kill, e) refl

reach-some :
    (sym : Symbols) (defs : Definitions) (i : Inode) (now : ℕ → Bool) (v d : ℕ)
    → live_variable sym i ≡ some d
    → reach sym defs i now v ≡ ((i.definition_id == v) || now v && not (has (defs d) v))
reach-some sym defs i now v d e = rw (reach, e) refl

reach-none :
    (sym : Symbols) (defs : Definitions) (i : Inode) (now : ℕ → Bool) (v : ℕ)
    → live_variable sym i ≡ none
    → reach sym defs i now v ≡ now v
reach-none sym defs i now v e = rw (reach, e) refl

module _ (n : ℕ) (sym : Symbols) (defs : Definitions) where
  -- The number of the instruction is in range, and the definitions of its variable are filled in.
  pub record IsNumbered (i : Inode) : Type 0 where
    pub below : i.definition_id < n
    pub filled : (d : ℕ) → live_variable sym i ≡ some d → IsWellFormed n (defs d)

  abbrev pub AreNumbered : List Inode → Type 0
  AreNumbered [] = Unit
  AreNumbered (i ∷ rest) = IsNumbered i × AreNumbered rest

  abbrev AreFormed : Set × Set → Type 0
  AreFormed (gen, kill) = IsWellFormed n gen × IsWellFormed n kill

  -- The sets say which definitions reach, whatever reaches the block.
  abbrev Says : Set × Set → (ℕ → Bool) → (ℕ → Bool) → Type 0
  Says (gen, kill) before now = (v : ℕ) → now v ≡ (has gen v || before v && not (has kill v))

  module _ (i : Inode) (gen kill : Set) (h : IsNumbered i) (g : IsWellFormed n gen)
      (k : IsWellFormed n kill) where
    module _ (d : ℕ) (e : live_variable sym i ≡ some d) where
      diff_formed : IsWellFormed n (diff_sets gen (defs d))
      diff_formed = diff-IsWellFormed n gen (defs d) g (h.filled d e)

      unify_formed : IsWellFormed n (unify_sets kill (defs d))
      unify_formed = unify-IsWellFormed n kill (defs d) k (h.filled d e)

      defined-AreFormed : AreFormed (gen_and_kill sym defs i (gen, kill))
      defined-AreFormed = rw (step-some sym defs i gen kill d e) (
        add-IsWellFormed n (diff_sets gen (defs d)) diff_formed i.definition_id h.below,
        remove-IsWellFormed n (unify_sets kill (defs d)) unify_formed i.definition_id h.below,
      )

      gen_lem :
          (v : ℕ)
          → has (add_to_set i.definition_id (diff_sets gen (defs d))) v
            ≡ ((i.definition_id == v) || has gen v && not (has (defs d) v))
      gen_lem v =
          rw
            (
              belongs-add n (diff_sets gen (defs d)) diff_formed i.definition_id h.below v,
              belongs-diff n gen (defs d) g (h.filled d e) v,
            )
            refl

      kill_lem :
          (v : ℕ)
          → has (remove_from_set i.definition_id (unify_sets kill (defs d))) v
            ≡ (not (i.definition_id == v) && (has kill v || has (defs d) v))
      kill_lem v =
          rw
            (
              belongs-remove n (unify_sets kill (defs d)) unify_formed i.definition_id h.below v,
              belongs-unify n kill (defs d) k (h.filled d e) v,
            )
            refl

      defined-Says :
          (before now : ℕ → Bool)
          → Says (gen, kill) before now
          → Says (gen_and_kill sym defs i (gen, kill)) before (reach sym defs i now)
      defined-Says before now says v =
          rw (step-some sym defs i gen kill d e, reach-some sym defs i now v d e)
            (rw (gen_lem v, kill_lem v, says v)
              (five (i.definition_id == v) (has gen v) (has kill v) (has (defs d) v) (before v)))
        where
          five :
              (same g k d b : Bool)
              → (same || (g || b && not k) && not d)
                ≡ ((same || g && not d) || b && not (not same && (k || d)))
          five same g k d b = ground arith

    -- One instruction.
    step-AreFormed : AreFormed (gen_and_kill sym defs i (gen, kill))
    step-AreFormed = elim (Option-cases (live_variable sym i)) [
      | inl e ↦ rw (step-none sym defs i (gen, kill) e) (g, k)
      | inr (d, e) ↦ defined-AreFormed d e
    ]

    step-Says :
        (before now : ℕ → Bool)
        → Says (gen, kill) before now
        → Says (gen_and_kill sym defs i (gen, kill)) before (reach sym defs i now)
    step-Says before now says = elim (Option-cases (live_variable sym i)) [
      | inl e ↦
          rw (step-none sym defs i (gen, kill) e) (λ v. reach-none sym defs i now v e ∙ says v)
      | inr (d, e) ↦ defined-Says d e before now says
    ]

  loop_lem :
      (block : List Inode) (sets : Set × Set) (before now : ℕ → Bool)
      → AreNumbered block
      → AreFormed sets
      → Says sets before now
      → AreFormed (gen_and_kill_loop sym defs block sets)
        × Says (gen_and_kill_loop sym defs block sets) before (reach_end sym defs block now)
  unfolding gen_and_kill_loop
  loop_lem [] sets before now h f says = (f, says)
  loop_lem (i ∷ rest) (gen, kill) before now (h, hs) (g, k) says =
      loop_lem rest (gen_and_kill sym defs i (gen, kill)) before (reach sym defs i now) hs
        (step-AreFormed i gen kill h g k) (step-Says i gen kill h g k before now says)

  -- The definitions in the out set that gen and kill give to an in set are those that reach the
  -- end of the block when those of the in set reach its start.
  pub out_exact :
      (block : List Inode) (in_set : Set)
      → AreNumbered block
      → IsWellFormed n in_set
      → (v : ℕ)
      → has (out_of_in (find_gen_and_kill_sets n sym defs block) in_set) v
        ≡ reach_end sym defs block (has in_set) v
  unfolding out_of_in find_gen_and_kill_sets
  out_exact block in_set h f v =
      let empty = empty-IsWellFormed n in
      let ((g, k), says) =
        loop_lem block (create_empty_set n, create_empty_set n) (has in_set) (has in_set) h
          (empty, empty) (λ w. rw (belongs-empty n w) (or_itself (has in_set w))) in
      rw (belongs-unify n _ _ g (diff-IsWellFormed n in_set _ f k) v, belongs-diff n in_set _ f k v)
        (sym_path (says v))
    where
      or_itself : (b : Bool) → b ≡ (false || b && not false)
      or_itself b = ground arith
