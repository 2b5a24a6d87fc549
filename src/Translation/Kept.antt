-- ===== src/Translation/Kept.antt =====
-- code_translation.c: the registers that a caller keeps in memory across a call.
use csc.Common.{
  ℕ, zero, suc, ◌+◌, ◌≤◌, ◌<◌, true, false, some, List, [], ◌∷◌, map, ◌++◌, if◌then◌else◌, ◌≡◌,
  refl, ap, ◌∙◌, arith, Bool-cases, inl, inr,
}
use csc.Symbol.{Symbols, is_addr}
use csc.Set.{Set, is_set_empty, does_elto_belong_to_set, remove_from_set, clone_set}
use csc.Set.Words.{IsWellFormed}
use native.Mathlib.Decide.{dec_lt}
use csc.Set.Compare.{is_set_empty_iff, belongs-beyond}
use csc.Set.Laws.{belongs-remove, remove-IsWellFormed, clone-IsWellFormed, belongs-clone}
use csc.Mips.{Op}
use csc.Translation.{Allocation, load_from_memory, store_at_memory}
use csc.Translation.Calls.{
  each_live, is_kept, save_variable, load_variable, save_reg_allocated_variables_in_memory,
  load_reg_allocated_variables_from_memory,
}

-- The lines of the members from `i` on, `k` numbers far.
abbrev pub lines_of : ℕ → ℕ → Set → (ℕ → List Op) → List Op
lines_of zero i live lines = []
lines_of (suc k) i live lines =
    (if does_elto_belong_to_set i live then lines i else []) ++ lines_of k (i + 1) live lines

lines_of-empty :
    (k i : ℕ) (live : Set) (lines : ℕ → List Op)
    → ((j : ℕ) → does_elto_belong_to_set j live ≡ false)
    → lines_of k i live lines ≡ []
lines_of-empty zero i live lines h = refl
lines_of-empty (suc k) i live lines h = rw (h i) (lines_of-empty k (i + 1) live lines h)

lines_of-agree :
    (k i : ℕ) (s t : Set) (lines : ℕ → List Op)
    → ((j : ℕ) → i ≤ j → does_elto_belong_to_set j s ≡ does_elto_belong_to_set j t)
    → lines_of k i s lines ≡ lines_of k i t lines
lines_of-agree zero i s t lines h = refl
lines_of-agree (suc k) i s t lines h =
    rw (h i (omega arith), lines_of-agree k (i + 1) s t lines (λ j p. h j (omega arith))) refl

module _ (n : ℕ) (lines : ℕ → List Op) where
  no_members :
      (tmp : Set)
      → IsWellFormed n tmp
      → is_set_empty tmp ≡ true
      → (j : ℕ) → does_elto_belong_to_set j tmp ≡ false
  no_members tmp ok e j = elim (dec_lt j n) [
    | yes below ↦ (is_set_empty_iff n tmp ok).0 e j below
    | no above ↦ belongs-beyond n j tmp ok (omega arith)
  ]

  member_below :
      (tmp : Set) (i : ℕ) → IsWellFormed n tmp → does_elto_belong_to_set i tmp ≡ true → i < n
  member_below tmp i ok m = elim (dec_lt i n) [
    | yes below ↦ below
    | no above ↦ absurd (ground (arith, belongs-beyond n i tmp ok))
  ]

  -- The loop ends, with the lines of each member in order.
  each_live-lines_of :
      (k i : ℕ) (tmp : Set)
      → IsWellFormed n tmp
      → n ≤ i + k
      → ((j : ℕ) → j < i → does_elto_belong_to_set j tmp ≡ false)
      → each_live k i tmp lines ≡ some (lines_of k i tmp lines)
  unfolding each_live
  each_live-lines_of zero i tmp ok enough gone =
      rw ((is_set_empty_iff n tmp ok).1 (λ j r. gone j (omega arith))) refl
  each_live-lines_of (suc k) i tmp ok enough gone = elim (Bool-cases (is_set_empty tmp)) [
    | inl e ↦
        rw (e, no_members tmp ok e i, lines_of-empty k (i + 1) tmp lines (no_members tmp ok e)) refl
    | inr e ↦ elim (Bool-cases (does_elto_belong_to_set i tmp)) [
      | inl m ↦
          let inside = member_below tmp i ok m in
          rw
            (
              e,
              m,
              each_live-lines_of k (i + 1) (remove_from_set i tmp)
                  (remove-IsWellFormed n tmp ok i inside) (omega arith)
                  (λ j r. rw (belongs-remove n tmp ok i inside j) (ground (arith, gone j))),
              lines_of-agree k (i + 1) (remove_from_set i tmp) tmp lines
                  (λ j p. rw (belongs-remove n tmp ok i inside j) (ground arith)),
            )
            refl
      | inr m ↦
          rw
            (
              e,
              m,
              each_live-lines_of k (i + 1) tmp ok (omega arith) (λ j r.
                  ground (arith, gone j, λ (h : j ≡ i). ap (λ v. does_elto_belong_to_set v tmp) h)),
            )
            refl
    ]
  ]

-- A load of the register that a store wrote, from the same place and of the same width.
abbrev pub load_back : Op → Op
load_back (Op.store m r a) = Op.load m r a
load_back o = o

map-append : (xs ys : List Op) → map load_back (xs ++ ys) ≡ map load_back xs ++ map load_back ys
map-append [] ys = refl
map-append (o ∷ xs) ys = rw (map-append xs ys) refl

module _ (syms : Symbols) (alloc : Allocation) (f : ℕ) where
  -- A variable that is kept is a scalar.
  abbrev pub KeepsScalars : Type 0
  KeepsScalars =
      (i : ℕ)
      → is_kept alloc f (alloc.local_variables i) ≡ true
      → ((syms (alloc.local_variables i)).is_constant ≡ false)
        × (is_addr (syms (alloc.local_variables i)).type ≡ false)

  load_variable-save :
      KeepsScalars
      → (i : ℕ) → load_variable syms alloc f i ≡ map load_back (save_variable syms alloc f i)
  unfolding load_variable save_variable load_from_memory store_at_memory
  load_variable-save scalar i = elim (Bool-cases (is_kept alloc f (alloc.local_variables i))) [
    | inl e ↦ rw (e, (scalar i e).0, (scalar i e).1) refl
    | inr e ↦ rw e refl
  ]

  lines_of-back :
      KeepsScalars
      → (k i : ℕ) (live : Set)
      → lines_of k i live (load_variable syms alloc f)
        ≡ map load_back (lines_of k i live (save_variable syms alloc f))
  lines_of-back scalar zero i live = refl
  lines_of-back scalar (suc k) i live = elim (Bool-cases (does_elto_belong_to_set i live)) [
    | inl e ↦
        rw (e, map-append, load_variable-save scalar i, lines_of-back scalar k (i + 1) live) refl
    | inr e ↦ rw (e, lines_of-back scalar k (i + 1) live) refl
  ]

  -- If the variables live after a call are a well-formed set, and those of them whose
  -- registers are kept are neither constants nor addresses, then the code before the call stores
  -- the register of each live variable that is kept, in the order of the ids, and the code after
  -- it loads the same registers from the same places in the same order.
  pub kept_back :
      (live_at_call : Set)
      → IsWellFormed live_at_call.max_size live_at_call
      → KeepsScalars
      → (saves : List Op) × (save_reg_allocated_variables_in_memory syms alloc f live_at_call
          ≡ some saves)
        × (saves ≡ lines_of (live_at_call.max_size + 1) 0 live_at_call (save_variable syms alloc f))
        × (load_reg_allocated_variables_from_memory syms alloc f live_at_call
            ≡ some (map load_back saves))
  unfolding save_reg_allocated_variables_in_memory load_reg_allocated_variables_from_memory
  kept_back live ok scalar = (
    lines_of (live.max_size + 1) 0 live (save_variable syms alloc f),
    rw ok.defined (listed (save_variable syms alloc f)),
    refl,
    rw ok.defined (
        listed (load_variable syms alloc f)
        ∙ ap some (lines_of-back scalar (live.max_size + 1) 0 live)),
  )
    where
      listed :
          (lines : ℕ → List Op)
          → each_live (live.max_size + 1) 0 (clone_set live) lines
            ≡ some (lines_of (live.max_size + 1) 0 live lines)
      listed lines =
          each_live-lines_of live.max_size lines (live.max_size + 1) 0 (clone_set live)
            (clone-IsWellFormed live.max_size live ok) (omega arith) (λ j r. absurd (omega arith))
          ∙ ap some (
              lines_of-agree (live.max_size + 1) 0 (clone_set live) live lines
                (λ j p. belongs-clone live.max_size live ok j))
