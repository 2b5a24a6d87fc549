-- ===== src/ReachingDefinitions/Loop/Growth.antt =====
-- What a visit makes of the out set of a block: it gets the members that its equation asks for, and
-- loses none.
use csc.Common.{ℕ, Bool, false, ◌&&◌, ◌||◌, not, List, [], ◌∷◌, ◌≡◌, refl, arith}
use csc.Set.{Set, unify_sets, diff_sets}
use csc.Set.Words.{IsWellFormed, empty-IsWellFormed}
use csc.Set.Laws.{belongs-empty, belongs-unify, unify-IsWellFormed, belongs-diff, diff-IsWellFormed}
use csc.Liveness.Loop.Growth.{has, Within}
use csc.ReachingDefinitions.{out_of_in}
use csc.ReachingDefinitions.Loop.{DefFlow, def_flow, unify_parents, get_out_set_from_predecessors}

module _ (n : ℕ) where
  -- The definition `v` reaches the end of some parent.
  abbrev pub reaches_end : List DefFlow → List ℕ → ℕ → Bool
  reaches_end fs [] v = false
  reaches_end fs (p ∷ rest) v = has n (def_flow n fs p).out v || reaches_end fs rest v

  -- What the equation of a block asks of its out set.
  abbrev pub wanted : List DefFlow → DefFlow → ℕ → Bool
  wanted fs b v = has n b.gen v || reaches_end fs b.parents v && not (has n b.kill v)

  pub record IsFormed (b : DefFlow) : Type 0 where
    pub gen_formed : IsWellFormed n b.gen
    pub kill_formed : IsWellFormed n b.kill
    pub out_formed : IsWellFormed n b.out

  pub record IsBelow (fs : List DefFlow) : Type 0 where
    pub formed : (k : ℕ) → IsFormed (def_flow n fs k)
    pub below : (k : ℕ) → Within n (has n (def_flow n fs k).out) (wanted fs (def_flow n fs k))

  pub reaches_mono :
      (fs gs : List DefFlow)
      → ((j : ℕ) → Within n (has n (def_flow n fs j).out) (has n (def_flow n gs j).out))
      → (ps : List ℕ) → Within n (reaches_end fs ps) (reaches_end gs ps)
  reaches_mono fs gs h [] v m = cc
  reaches_mono fs gs h (p ∷ rest) v m = ground (arith, h p v, reaches_mono fs gs h rest v)

  module _ (fs : List DefFlow) (formed : (k : ℕ) → IsFormed (def_flow n fs k)) where
    unify_parents_lem :
        (ps : List ℕ) (acc : Set)
        → IsWellFormed n acc
        → IsWellFormed n (unify_parents n fs acc ps)
          × ((v : ℕ) → has n (unify_parents n fs acc ps) v ≡ (has n acc v || reaches_end fs ps v))
    unfolding unify_parents
    unify_parents_lem [] acc h = (h, λ v. ground arith)
    unify_parents_lem (p ∷ rest) acc h =
        let last = (formed p).out_formed in
        let (good, members) =
          unify_parents_lem rest (unify_sets acc (def_flow n fs p).out)
            (unify-IsWellFormed n acc (def_flow n fs p).out h last) in
        (
          good,
          λ v. rw (members v, belongs-unify n acc (def_flow n fs p).out h last v) (ground arith),
        )

    predecessors_lem :
        (ps : List ℕ)
        → IsWellFormed n (get_out_set_from_predecessors n fs ps)
          × ((v : ℕ) → has n (get_out_set_from_predecessors n fs ps) v ≡ reaches_end fs ps v)
    unfolding get_out_set_from_predecessors
    predecessors_lem [] = (empty-IsWellFormed n, belongs-empty n)
    predecessors_lem (p ∷ rest) = unify_parents_lem rest (def_flow n fs p).out (formed p).out_formed

    abbrev pub new_out : DefFlow → Set
    new_out b = out_of_in (b.gen, b.kill) (get_out_set_from_predecessors n fs b.parents)

    pub new_out_lem :
        (b : DefFlow)
        → IsFormed b
        → IsWellFormed n (new_out b) × ((v : ℕ) → has n (new_out b) v ≡ wanted fs b v)
    unfolding out_of_in
    new_out_lem b h =
        let before = get_out_set_from_predecessors n fs b.parents in
        let (good, members) = predecessors_lem b.parents in
        let left = diff-IsWellFormed n before b.kill good h.kill_formed in
        (
          unify-IsWellFormed n b.gen (diff_sets before b.kill) h.gen_formed left,
          λ v.
              rw
                (
                  belongs-unify n b.gen (diff_sets before b.kill) h.gen_formed left v,
                  belongs-diff n before b.kill good h.kill_formed v,
                  members v,
                )
                refl,
        )
