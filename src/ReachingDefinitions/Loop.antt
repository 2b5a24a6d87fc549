-- ===== src/ReachingDefinitions/Loop.antt =====
-- reaching_definitions_analysis.c: the iteration of the out sets over the blocks of a function. A
-- block is known by its place in the list of blocks.
pub mod Growth
pub mod Rounds
pub mod Solution
use csc.Common.{
  ℕ, zero, suc, Bool, true, false, ◌&&◌, Option, none, some, List, [], ◌∷◌, if◌then◌else◌, length,
  get_or, set,
}
use csc.Set.{Set, create_empty_set, are_set_equals, unify_sets, diff_sets}
use csc.ReachingDefinitions.{out_of_in}

-- The fields of `bnode` that the iteration reads and writes.
pub record DefFlow : Type 0 where
  pub parents : List ℕ
  pub gen : Set
  pub kill : Set
  pub out : Set

abbrev pub def_flow : ℕ → List DefFlow → ℕ → DefFlow
def_flow n fs k =
    let empty = create_empty_set n in
    get_or fs k (record { parents = []; gen = empty; kill = empty; out = empty })

-- The loop over the parents after the first.
unfoldable pub unify_parents : ℕ → List DefFlow → Set → List ℕ → Set
unify_parents n fs acc [] = acc
unify_parents n fs acc (p ∷ rest) = unify_parents n fs (unify_sets acc (def_flow n fs p).out) rest

unfoldable pub get_out_set_from_predecessors : ℕ → List DefFlow → List ℕ → Set
unfolding unify_parents
get_out_set_from_predecessors n fs [] = create_empty_set n
get_out_set_from_predecessors n fs (p ∷ rest) = unify_parents n fs (def_flow n fs p).out rest

pub record DefRound : Type 0 where
  pub flows : List DefFlow
  pub converged : Bool

-- The body of the loop over the blocks, at block `k`.
unfoldable pub visit_definitions : ℕ → ℕ → DefRound → DefRound
unfolding get_out_set_from_predecessors out_of_in
visit_definitions n k s =
    let b = def_flow n s.flows k in
    let in_set = get_out_set_from_predecessors n s.flows b.parents in
    let out = out_of_in (b.gen, b.kill) in_set in
    let same = are_set_equals b.out out in
    record {
      flows = set s.flows k (record b { out = if same then b.out else out });
      converged = s.converged && same;
    }

-- One round, over the blocks 0 .. m - 1 in order.
unfoldable pub definitions_round : ℕ → ℕ → DefRound → DefRound
unfolding visit_definitions
definitions_round n zero s = s
definitions_round n (suc m) s = visit_definitions n m (definitions_round n m s)

-- `while (!converged)`, with fuel; `none` means that the fuel ran out.
unfoldable pub find_in_and_out_def_sets : ℕ → ℕ → List DefFlow → Option (List DefFlow)
unfolding definitions_round
find_in_and_out_def_sets n zero fs = none
find_in_and_out_def_sets n (suc fuel) fs =
    let s = definitions_round n (length fs) (record { flows = fs; converged = true }) in
    elim s.converged [ true ↦ some s.flows | false ↦ find_in_and_out_def_sets n fuel s.flows ]
