-- ===== src/DeadCode/LiveIn.antt =====
-- The two walks over a block agree: the set that is live before the block is the `in` set that
-- liveness_analysis.c computes from the block's def and use sets.
use csc.Common.{ℕ, Bool, true, false, ◌&&◌, ◌||◌, not, List, [], ◌∷◌, if◌then◌else◌, ◌≡◌, arith}
use csc.Symbol.{Symbols}
use csc.Set.{Set, unify_sets, diff_sets, does_elto_belong_to_set}
use csc.Set.Words.{IsWellFormed, empty-IsWellFormed}
use csc.Set.Laws.{
  belongs-empty, belongs-unify, unify-IsWellFormed, belongs-diff, diff-IsWellFormed, belongs-clone,
  clone-IsWellFormed,
}
use csc.Instruction.{Inode}
use csc.Liveness.{is_null_assignment, operand_sets, find_def_and_use_sets, visit}
use csc.Liveness.Operands.{IdsBelow, operands_lem}
use csc.DeadCode.{Marked, mark, remove_dead_in_block}

absorb :
    (l r d u o : Bool)
    → (((u || o && not d) && not l) || r) ≡ (((u && not l) || r) || o && not ((l || d) && not r))
absorb l r d u o = ground arith

keep : (o : Bool) → o ≡ (false || o && not false)
keep o = ground arith

module _ (n : ℕ) (sym : Symbols) (ids : IdsBelow n sym) (out : Set)
    (formed : IsWellFormed n out) where
  -- `live` is `use ∪ (out - def)`.
  record Agrees (live : Set) (r : Set × Set) : Type 0 where
    live_formed : IsWellFormed n live
    def_formed : IsWellFormed n r.0
    use_formed : IsWellFormed n r.1
    same :
        (v : ℕ)
        → does_elto_belong_to_set v live ≡ (
            does_elto_belong_to_set v r.1
            || does_elto_belong_to_set v out && not (does_elto_belong_to_set v r.0))

  by_case :
      (dead null : Bool) (m : Marked) (r : Set × Set) (xs ys : List Inode) (c : Marked)
      (r' : Set × Set)
      → Agrees m.live r
      → Agrees c.live r'
      → Agrees
          (if dead
            then record m { instructions = xs }
            else if null
            then record m { instructions = ys }
            else c).live
          (if dead then r else if null then r else r')
  by_case true null m r xs ys c r' h h' = h
  by_case false true m r xs ys c r' h h' = h
  by_case false false m r xs ys c r' h h' = h'

  module _ (i : Inode) (live : Set) (r : Set × Set) (h : Agrees live r) where
    abbrev lhs : Set
    lhs = (operand_sets n sym i).0

    abbrev rhs : Set
    rhs = (operand_sets n sym i).1

    open operands_lem n sym ids i use {lhs_formed, rhs_formed}

    kept_formed : IsWellFormed n (diff_sets live lhs)
    kept_formed = diff-IsWellFormed n live lhs h.live_formed lhs_formed

    used_formed : IsWellFormed n (diff_sets r.1 lhs)
    used_formed = diff-IsWellFormed n r.1 lhs h.use_formed lhs_formed

    joined_formed : IsWellFormed n (unify_sets lhs r.0)
    joined_formed = unify-IsWellFormed n lhs r.0 lhs_formed h.def_formed

    live_step :
        Agrees
          (unify_sets (diff_sets live lhs) rhs)
          (diff_sets (unify_sets lhs r.0) rhs, unify_sets (diff_sets r.1 lhs) rhs)
    live_step = record {
      live_formed = unify-IsWellFormed n (diff_sets live lhs) rhs kept_formed rhs_formed;
      def_formed = diff-IsWellFormed n (unify_sets lhs r.0) rhs joined_formed rhs_formed;
      use_formed = unify-IsWellFormed n (diff_sets r.1 lhs) rhs used_formed rhs_formed;
      same = λ v.
          rw
            (
              belongs-unify n (diff_sets live lhs) rhs kept_formed rhs_formed v,
              belongs-diff n live lhs h.live_formed lhs_formed v,
              belongs-unify n (diff_sets r.1 lhs) rhs used_formed rhs_formed v,
              belongs-diff n r.1 lhs h.use_formed lhs_formed v,
              belongs-diff n (unify_sets lhs r.0) rhs joined_formed rhs_formed v,
              belongs-unify n lhs r.0 lhs_formed h.def_formed v,
              h.same v,
            )
            (absorb (does_elto_belong_to_set v lhs) (does_elto_belong_to_set v rhs)
              (does_elto_belong_to_set v r.0) (does_elto_belong_to_set v r.1)
              (does_elto_belong_to_set v out));
    }

  step :
      (i : Inode) (m : Marked) (r : Set × Set)
      → Agrees m.live r
      → Agrees (mark n sym i m).live (visit n sym i r)
  unfolding mark visit
  step i m r h = by_case i.dead (is_null_assignment i) m r _ _ _ _ h (live_step i m.live r h)

  walk :
      (block : List Inode)
      → Agrees (remove_dead_in_block n sym out block).live (find_def_and_use_sets n sym block)
  unfolding remove_dead_in_block find_def_and_use_sets
  walk [] = record {
    live_formed = clone-IsWellFormed n out formed;
    def_formed = empty-IsWellFormed n;
    use_formed = empty-IsWellFormed n;
    same = λ v.
        rw (belongs-clone n out formed v, belongs-empty n v) (keep (does_elto_belong_to_set v out));
  }
  walk (i ∷ rest) =
      step i (remove_dead_in_block n sym out rest) (find_def_and_use_sets n sym rest) (walk rest)

  pub live-IsWellFormed :
      (block : List Inode) → IsWellFormed n (remove_dead_in_block n sym out block).live
  live-IsWellFormed block = (walk block).live_formed

  pub def-IsWellFormed : (block : List Inode) → IsWellFormed n (find_def_and_use_sets n sym block).0
  def-IsWellFormed block = (walk block).def_formed

  pub use-IsWellFormed : (block : List Inode) → IsWellFormed n (find_def_and_use_sets n sym block).1
  use-IsWellFormed block = (walk block).use_formed

  pub live_members :
      (block : List Inode) (v : ℕ)
      → does_elto_belong_to_set v (remove_dead_in_block n sym out block).live ≡ (
          does_elto_belong_to_set v (find_def_and_use_sets n sym block).1
          || does_elto_belong_to_set v out
            && not (does_elto_belong_to_set v (find_def_and_use_sets n sym block).0))
  live_members block = (walk block).same

  -- For each variable: it is in the set that the marking walk ends with exactly when it is in
  -- `use ∪ (out - def)` of the block.
  pub live_in_agrees :
      (block : List Inode) (v : ℕ)
      → does_elto_belong_to_set v (remove_dead_in_block n sym out block).live
        ≡ does_elto_belong_to_set v (
            unify_sets
              (find_def_and_use_sets n sym block).1
              (diff_sets out (find_def_and_use_sets n sym block).0))
  live_in_agrees block v =
      let w = walk block in
      let blocked =
        diff-IsWellFormed n out (find_def_and_use_sets n sym block).0 formed w.def_formed in
      rw
        (
          belongs-unify n (find_def_and_use_sets n sym block).1
              (diff_sets out (find_def_and_use_sets n sym block).0) w.use_formed blocked v,
          belongs-diff n out (find_def_and_use_sets n sym block).0 formed w.def_formed v,
        )
        (w.same v)
