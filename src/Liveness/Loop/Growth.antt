-- ===== src/Liveness/Loop/Growth.antt =====
-- What each set of a block has as members, and that a visit lets them only grow.
use csc.Common.{
  ℕ, Bool, true, false, ◌&&◌, ◌||◌, not, List, [], ◌∷◌, if◌then◌else◌, ◌≡◌, refl, arith, Bool-cases,
  inl, inr,
}
use csc.Set.{Set, are_set_equals, unify_sets, diff_sets, does_elto_belong_to_set}
use csc.Set.Words.{IsWellFormed, empty-IsWellFormed}
use csc.Set.Laws.{belongs-empty, belongs-unify, unify-IsWellFormed, belongs-diff, diff-IsWellFormed}
use csc.Set.Compare.{equal_members}
use csc.Liveness.Loop.{Flow, flow, unify_children, get_in_set_from_sucessors}

module _ (n : ℕ) where
  abbrev pub has : Set → ℕ → Bool
  has s v = does_elto_belong_to_set v s

  -- Every member of `s` is one of `t`.
  abbrev pub Within : (ℕ → Bool) → (ℕ → Bool) → Type 0
  Within p q = (v : ℕ) → p v ≡ true → q v ≡ true

  -- `v` is live before some successor.
  abbrev pub live_after : List Flow → List ℕ → ℕ → Bool
  live_after fs [] v = false
  live_after fs (c ∷ rest) v = has (flow n fs c).in_set v || live_after fs rest v

  abbrev pub live_before : Flow → (ℕ → Bool) → ℕ → Bool
  live_before b after v = has b.use_set v || after v && not (has b.def v)

  pub record IsFormed (b : Flow) : Type 0 where
    pub def_formed : IsWellFormed n b.def
    pub use_formed : IsWellFormed n b.use_set
    pub in_formed : IsWellFormed n b.in_set
    pub out_formed : IsWellFormed n b.out

  -- The sets are well formed, and each is still below what its equation asks for.
  pub record IsBelow (fs : List Flow) : Type 0 where
    pub formed : (k : ℕ) → IsFormed (flow n fs k)
    pub out_below : (k : ℕ) → Within (has (flow n fs k).out) (live_after fs (flow n fs k).children)
    pub in_below :
        (k : ℕ)
        → Within (has (flow n fs k).in_set) (live_before (flow n fs k) (has (flow n fs k).out))

  module _ (fs : List Flow) (formed : (k : ℕ) → IsFormed (flow n fs k)) where
    unify_children_lem :
        (cs : List ℕ) (acc : Set)
        → IsWellFormed n acc
        → IsWellFormed n (unify_children n fs acc cs)
          × ((v : ℕ) → has (unify_children n fs acc cs) v ≡ (has acc v || live_after fs cs v))
    unfolding unify_children
    unify_children_lem [] acc h = (h, λ v. ground arith)
    unify_children_lem (c ∷ rest) acc h =
        let joined = unify-IsWellFormed n acc (flow n fs c).in_set h (formed c).in_formed in
        let (good, members) =
          unify_children_lem rest (unify_sets acc (flow n fs c).in_set) joined in
        (
          good,
          λ v.
              rw (members v, belongs-unify n acc (flow n fs c).in_set h (formed c).in_formed v)
                (ground arith),
        )

    -- What get_in_set_from_sucessors returns: the variables live before some successor.
    pub successors_lem :
        (cs : List ℕ)
        → IsWellFormed n (get_in_set_from_sucessors n fs cs)
          × ((v : ℕ) → has (get_in_set_from_sucessors n fs cs) v ≡ live_after fs cs v)
    unfolding get_in_set_from_sucessors
    successors_lem [] = (empty-IsWellFormed n, belongs-empty n)
    successors_lem (c ∷ rest) = unify_children_lem rest (flow n fs c).in_set (formed c).in_formed

  -- A set that is only replaced where it differs.
  abbrev pub replaced : Set → Set → Set
  replaced old new = if are_set_equals old new then old else new

  replaced_lem :
      (old new : Set)
      → IsWellFormed n old
      → IsWellFormed n new
      → IsWellFormed n (replaced old new) × ((v : ℕ) → has (replaced old new) v ≡ has new v)
  replaced_lem old new h h' = elim (Bool-cases (are_set_equals old new)) [
    | inl same ↦ rw same (h, λ v. equal_members n v old new h h' same)
    | inr other ↦ rw other (h', λ v. refl)
  ]

  -- Block `k` after a visit.
  abbrev pub new_out : List Flow → ℕ → Set
  new_out fs k = get_in_set_from_sucessors n fs (flow n fs k).children

  abbrev pub new_in : List Flow → ℕ → Set
  new_in fs k = unify_sets (flow n fs k).use_set (diff_sets (new_out fs k) (flow n fs k).def)

  abbrev pub visited : List Flow → ℕ → Flow
  visited fs k = record (flow n fs k) {
    out = replaced (flow n fs k).out (new_out fs k);
    in_set = replaced (flow n fs k).in_set (new_in fs k);
  }

  module _ (fs : List Flow) (k : ℕ) (h : IsBelow fs) where
    pub new_out_lem :
        IsWellFormed n (new_out fs k)
        × ((v : ℕ) → has (new_out fs k) v ≡ live_after fs (flow n fs k).children v)
    new_out_lem = successors_lem fs h.formed (flow n fs k).children

    pub new_in_lem :
        IsWellFormed n (new_in fs k)
        × ((v : ℕ) → has (new_in fs k) v ≡ live_before (flow n fs k) (has (new_out fs k)) v)
    new_in_lem =
        let b = h.formed k in
        let left =
          diff-IsWellFormed n (new_out fs k) (flow n fs k).def new_out_lem.0 b.def_formed in
        (
          unify-IsWellFormed n (flow n fs k).use_set _ b.use_formed left,
          λ v.
              rw
                (
                  belongs-unify n (flow n fs k).use_set (diff_sets (new_out fs k) (flow n fs k).def)
                      b.use_formed left v,
                  belongs-diff n (new_out fs k) (flow n fs k).def new_out_lem.0 b.def_formed v,
                )
                refl,
        )

    pub visited_out :
        IsWellFormed n (visited fs k).out
        × ((v : ℕ) → has (visited fs k).out v ≡ has (new_out fs k) v)
    visited_out =
        replaced_lem (flow n fs k).out (new_out fs k) (h.formed k).out_formed new_out_lem.0

    pub visited_in :
        IsWellFormed n (visited fs k).in_set
        × ((v : ℕ) → has (visited fs k).in_set v ≡ has (new_in fs k) v)
    visited_in = replaced_lem (flow n fs k).in_set (new_in fs k) (h.formed k).in_formed new_in_lem.0

    pub visited-IsFormed : IsFormed (visited fs k)
    visited-IsFormed = record {
      def_formed = (h.formed k).def_formed;
      use_formed = (h.formed k).use_formed;
      in_formed = visited_in.0;
      out_formed = visited_out.0;
    }

    -- Neither set of the block loses a member.
    pub out_grows : Within (has (flow n fs k).out) (has (visited fs k).out)
    out_grows v m = rw (visited_out.1 v, new_out_lem.1 v) (h.out_below k v m)

    pub in_grows : Within (has (flow n fs k).in_set) (has (visited fs k).in_set)
    in_grows v m =
        rw (visited_in.1 v, new_in_lem.1 v)
          (ground (arith, h.in_below k v m, out_grows v, visited_out.1 v))
