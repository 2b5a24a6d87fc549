-- ===== src/Liveness/Loop.antt =====
-- liveness_analysis.c: the iteration of the `in` and `out` sets over the blocks of a function.
-- A block is known by its place in the list of blocks.
pub mod Growth
pub mod Rounds
pub mod Solution
use csc.Common.{
  ℕ, zero, suc, Bool, true, false, ◌&&◌, Option, none, some, List, [], ◌∷◌, if◌then◌else◌, length,
  get_or, set,
}
use csc.Set.{Set, create_empty_set, are_set_equals, unify_sets, diff_sets}

-- The fields of `bnode` that the analysis reads and writes.
pub record Flow : Type 0 where
  pub children : List ℕ
  pub def : Set
  pub use_set : Set
  pub in_set : Set
  pub out : Set

abbrev pub no_flow : ℕ → Flow
no_flow n =
    let empty = create_empty_set n in
    record { children = []; def = empty; use_set = empty; in_set = empty; out = empty }

abbrev pub flow : ℕ → List Flow → ℕ → Flow
flow n fs k = get_or fs k (no_flow n)

-- The loop over the children after the first.
unify_children : ℕ → List Flow → Set → List ℕ → Set
unify_children n fs acc [] = acc
unify_children n fs acc (c ∷ rest) = unify_children n fs (unify_sets acc (flow n fs c).in_set) rest

unfoldable pub get_in_set_from_sucessors : ℕ → List Flow → List ℕ → Set
unfolding unify_children
get_in_set_from_sucessors n fs [] = create_empty_set n
get_in_set_from_sucessors n fs (c ∷ rest) = unify_children n fs (flow n fs c).in_set rest

-- What one visit has: the blocks, and whether nothing has changed in this round.
pub record Round : Type 0 where
  pub flows : List Flow
  pub converged : Bool

-- The body of the loop over the blocks, at block `k`.
unfoldable pub visit_block : ℕ → ℕ → Round → Round
unfolding get_in_set_from_sucessors
visit_block n k s =
    let b = flow n s.flows k in
    let out = get_in_set_from_sucessors n s.flows b.children in
    let diff = diff_sets out b.def in
    let in_set = unify_sets b.use_set diff in
    let same_out = are_set_equals b.out out in
    let same_in = are_set_equals b.in_set in_set in
    record {
      flows = set s.flows k (record b {
        out = if same_out then b.out else out;
        in_set = if same_in then b.in_set else in_set;
      });
      converged = s.converged && (same_out && same_in);
    }

-- One round, over the blocks 0 .. m - 1 in order.
unfoldable pub visit_blocks : ℕ → ℕ → Round → Round
visit_blocks n zero s = s
visit_blocks n (suc m) s = visit_block n m (visit_blocks n m s)

-- `while (!converged)`, with fuel; `none` means that the fuel ran out.
unfoldable pub find_in_and_out : ℕ → ℕ → List Flow → Option (List Flow)
find_in_and_out n zero fs = none
find_in_and_out n (suc fuel) fs =
    let s = visit_blocks n (length fs) (record { flows = fs; converged = true }) in
    elim s.converged [ true ↦ some s.flows | false ↦ find_in_and_out n fuel s.flows ]

-- The sets before the first round: `in` is `use` and `out` is empty.
unfoldable pub start_flow : ℕ → List ℕ → Set × Set → Flow
start_flow n children (def, use_set) = record {
  children = children;
  def = def;
  use_set = use_set;
  in_set = use_set;
  out = create_empty_set n;
}
