-- ===== src/Liveness/Operands.antt =====
-- liveness_analysis.c: the members of the two operand sets of an instruction.
use csc.Common.{
  ℕ, ◌<◌, Bool, true, false, ◌&&◌, ◌||◌, not, Option, none, some, if◌then◌else◌, ◌≡◌, refl, arith,
  ◌==◌, Bool-cases, inl, inr,
}
use csc.Symbol.{Symbols, is_addr, is_local}
use csc.Set.{Set, create_empty_set, add_to_set, does_elto_belong_to_set}
use csc.Set.Words.{IsWellFormed, empty-IsWellFormed}
use csc.Set.Laws.{belongs-empty, belongs-add, add-IsWellFormed}
use csc.Instruction.{Inode, is_rhs_variable}
use csc.Liveness.{operand_sets, add_source, destination_sets}

-- Every local entry has an id below `n`.
abbrev pub IdsBelow : ℕ → Symbols → Type 0
IdsBelow n sym = (a : ℕ) → is_local (sym a).scope ≡ true → (sym a).id < n

-- `v` is the id of the local, non-constant operand.
abbrev pub reads_operand : Symbols → Option ℕ → ℕ → Bool
reads_operand sym none v = false
reads_operand sym (some a) v = is_local (sym a).scope && not (sym a).is_constant && (sym a).id == v

abbrev pub assigns_operand : Symbols → Option ℕ → ℕ → Bool
assigns_operand sym none v = false
assigns_operand sym (some d) v =
    is_local (sym d).scope && not (is_addr (sym d).type) && (sym d).id == v

abbrev pub stores_through : Symbols → Option ℕ → ℕ → Bool
stores_through sym none v = false
stores_through sym (some d) v = is_local (sym d).scope && is_addr (sym d).type && (sym d).id == v

abbrev pub uses_id : Symbols → Inode → ℕ → Bool
uses_id sym i v =
    stores_through sym i.dest v
    || (is_rhs_variable i && (reads_operand sym i.src1 v || reads_operand sym i.src2 v))

module _ (n : ℕ) (sym : Symbols) (ids : IdsBelow n sym) where
  add_source-IsWellFormed :
      (o : Option ℕ) (s : Set) → IsWellFormed n s → IsWellFormed n (add_source sym o s)
  unfolding add_source
  add_source-IsWellFormed none s h = h
  add_source-IsWellFormed (some a) s h =
      elim (Bool-cases (is_local (sym a).scope && not (sym a).is_constant)) [
        | inl here ↦ rw here (add-IsWellFormed n s h (sym a).id (ids a (ground arith)))
        | inr out ↦ rw out h
      ]

  belongs-add_source :
      (o : Option ℕ) (s : Set) (v : ℕ)
      → IsWellFormed n s
      → does_elto_belong_to_set v (add_source sym o s)
        ≡ (reads_operand sym o v || does_elto_belong_to_set v s)
  unfolding add_source
  belongs-add_source none s v h = refl
  belongs-add_source (some a) s v h =
      elim (Bool-cases (is_local (sym a).scope && not (sym a).is_constant)) [
        | inl here ↦
            let added = belongs-add n s h (sym a).id (ids a (ground arith)) v in
            rw here (rw added (ground arith))
        | inr out ↦ rw out (ground arith)
      ]

  -- The members of a pair of well-formed sets.
  pub record HasMembers (in_first in_second : ℕ → Bool) (r : Set × Set) : Type 0 where
    pub lhs_formed : IsWellFormed n r.0
    pub rhs_formed : IsWellFormed n r.1
    pub in_lhs : (v : ℕ) → does_elto_belong_to_set v r.0 ≡ in_first v
    pub in_rhs : (v : ℕ) → does_elto_belong_to_set v r.1 ≡ in_second v

  module _ (e : ℕ) (inside : e < n) where
    single-IsWellFormed : IsWellFormed n (add_to_set e (create_empty_set n))
    single-IsWellFormed = add-IsWellFormed n (create_empty_set n) (empty-IsWellFormed n) e inside

    belongs-single :
        (v : ℕ) → does_elto_belong_to_set v (add_to_set e (create_empty_set n)) ≡ (e == v)
    belongs-single v =
        rw (belongs-add n (create_empty_set n) (empty-IsWellFormed n) e inside v, belongs-empty n v)
          (ground arith)

  destination_lem :
      (o : Option ℕ)
      → HasMembers (assigns_operand sym o) (stores_through sym o) (destination_sets n sym o)
  unfolding destination_sets
  destination_lem none = record {
    lhs_formed = empty-IsWellFormed n;
    rhs_formed = empty-IsWellFormed n;
    in_lhs = belongs-empty n;
    in_rhs = belongs-empty n;
  }
  destination_lem (some d) = by_case (is_local (sym d).scope) (is_addr (sym d).type) (ids d)
    where
      by_case :
          (loc adr : Bool)
          → (loc ≡ true → (sym d).id < n)
          → HasMembers
              (λ v. loc && not adr && (sym d).id == v)
              (λ v. loc && adr && (sym d).id == v)
              (if loc
                then if adr
                  then (create_empty_set n, add_to_set (sym d).id (create_empty_set n))
                  else (add_to_set (sym d).id (create_empty_set n), create_empty_set n)
                else (create_empty_set n, create_empty_set n))
      by_case true true below = record {
        lhs_formed = empty-IsWellFormed n;
        rhs_formed = single-IsWellFormed (sym d).id (below refl);
        in_lhs = belongs-empty n;
        in_rhs = belongs-single (sym d).id (below refl);
      }
      by_case true false below = record {
        lhs_formed = single-IsWellFormed (sym d).id (below refl);
        rhs_formed = empty-IsWellFormed n;
        in_lhs = belongs-single (sym d).id (below refl);
        in_rhs = belongs-empty n;
      }
      by_case false adr below = record {
        lhs_formed = empty-IsWellFormed n;
        rhs_formed = empty-IsWellFormed n;
        in_lhs = belongs-empty n;
        in_rhs = belongs-empty n;
      }

  -- What operand_sets collects: the variable that the instruction assigns, and those that it reads.
  pub operands_lem :
      (i : Inode) → HasMembers (assigns_operand sym i.dest) (uses_id sym i) (operand_sets n sym i)
  unfolding operand_sets
  operands_lem i = elim (Bool-cases (is_rhs_variable i)) [
    | inl here ↦ rw here (record {
      lhs_formed = dest.lhs_formed;
      rhs_formed = add_source-IsWellFormed i.src2 _ first_formed;
      in_lhs = dest.in_lhs;
      in_rhs = λ v. ground (
        arith,
        belongs-add_source i.src2 (add_source sym i.src1 (destination_sets n sym i.dest).1) v
            first_formed,
        belongs-add_source i.src1 (destination_sets n sym i.dest).1 v dest.rhs_formed,
        dest.in_rhs v,
      );
    })
    | inr none_read ↦ rw none_read (record {
      lhs_formed = dest.lhs_formed;
      rhs_formed = dest.rhs_formed;
      in_lhs = dest.in_lhs;
      in_rhs = λ v. ground (arith, dest.in_rhs v);
    })
  ]
    where
      dest :
          HasMembers
            (assigns_operand sym i.dest)
            (stores_through sym i.dest)
            (destination_sets n sym i.dest)
      dest = destination_lem i.dest

      first_formed : IsWellFormed n (add_source sym i.src1 (destination_sets n sym i.dest).1)
      first_formed = add_source-IsWellFormed i.src1 _ dest.rhs_formed
