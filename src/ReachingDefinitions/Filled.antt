-- ===== src/ReachingDefinitions/Filled.antt =====
-- What fill_definitions stores: the numbers of the instructions that define each variable.
use csc.Common.{
  ℕ, ◌<◌, Bool, true, false, ◌&&◌, ◌||◌, none, some, List, [], ◌∷◌, if◌then◌else◌, ◌==◌, ==→eq, ◌≡◌,
  refl, sym as sym_path, ap, arith, Bool-cases, Option-cases, inl, inr, ◌∙◌,
}
use csc.Symbol.{Symbols}
use csc.Set.{Set, create_empty_set, add_to_set, is_set_undefined, does_elto_belong_to_set}
use csc.Set.Words.{IsWellFormed, empty-IsWellFormed}
use csc.Set.Laws.{belongs-empty, belongs-add, add-IsWellFormed}
use csc.Instruction.{Inode}
use csc.ReachingDefinitions.{
  Definitions, defined_variable, note_definition, fill_in_block, fill_definitions,
}

abbrev pub has : Set → ℕ → Bool
has s v = does_elto_belong_to_set v s

-- Whether an instruction is a definition of `d` and has the number `v`.
abbrev pub is_definition : Symbols → ℕ → ℕ → Inode → Bool
is_definition sym d v i = elim (defined_variable sym i) [
  | none ↦ false
  | some e ↦ (e == d) && (i.definition_id == v)
]

-- Whether some instruction is.
abbrev pub any_definition : Symbols → ℕ → ℕ → List Inode → Bool
any_definition sym d v [] = false
any_definition sym d v (i ∷ rest) = is_definition sym d v i || any_definition sym d v rest

abbrev pub any_in_blocks : Symbols → ℕ → ℕ → List (List Inode) → Bool
any_in_blocks sym d v [] = false
any_in_blocks sym d v (block ∷ rest) = any_definition sym d v block || any_in_blocks sym d v rest

abbrev pub AllNumbered : ℕ → List Inode → Type 0
AllNumbered n [] = Unit
AllNumbered n (i ∷ rest) = (i.definition_id < n) × AllNumbered n rest

abbrev pub BlocksNumbered : ℕ → List (List Inode) → Type 0
BlocksNumbered n [] = Unit
BlocksNumbered n (block ∷ rest) = AllNumbered n block × BlocksNumbered n rest

-- The set of each variable is undefined or well formed.
abbrev pub IsFilling : ℕ → Definitions → Type 0
IsFilling n defs = (d : ℕ) → is_set_undefined (defs d) ≡ false → IsWellFormed n (defs d)

or_swap : (p q r : Bool) → (p || (q || r)) ≡ ((q || p) || r)
or_swap p q r = ground arith

undefined-empty : (s : Set) (v : ℕ) → is_set_undefined s ≡ true → has s v ≡ false
unfolding does_elto_belong_to_set
undefined-empty s v u = rw u refl

module _ (n : ℕ) (sym : Symbols) where
  started : Set → Set
  started s = if is_set_undefined s then create_empty_set n else s

  module _ (s : Set) (h : is_set_undefined s ≡ false → IsWellFormed n s) where
    started-IsWellFormed : IsWellFormed n (started s)
    unfolding started
    started-IsWellFormed = elim (Bool-cases (is_set_undefined s)) [
      | inl u ↦ rw u (empty-IsWellFormed n)
      | inr f ↦ rw f (h f)
    ]

    has-started : (v : ℕ) → has (started s) v ≡ has s v
    unfolding started
    has-started v = elim (Bool-cases (is_set_undefined s)) [
      | inl u ↦ rw u (belongs-empty n v ∙ sym_path (undefined-empty s v u))
      | inr f ↦ rw f refl
    ]

  module _ (i : Inode) (defs : Definitions) (below : i.definition_id < n)
      (filling : IsFilling n defs) where
    -- An instruction adds its number to the set of its variable.
    module _ (e : ℕ) (defines : defined_variable sym i ≡ some e) where
      noted :
          (d : ℕ)
          → note_definition n sym i defs d
            ≡ (if e == d then add_to_set i.definition_id (started (defs e)) else defs d)
      unfolding started note_definition
      noted d = rw (note_definition, defines) refl

      noted-IsFilling : IsFilling n (note_definition n sym i defs)
      noted-IsFilling d f = elim (Bool-cases (e == d)) [
        | inl same ↦
            rw (noted d, same)
              (add-IsWellFormed n (started (defs e)) (started-IsWellFormed (defs e) (filling e))
                i.definition_id below)
        | inr other ↦ rw (noted d, other) (filling d (rw (noted d, other) at f))
      ]

      has-noted :
          (d v : ℕ)
          → has (note_definition n sym i defs d) v ≡ (is_definition sym d v i || has (defs d) v)
      has-noted d v = elim (Bool-cases (e == d)) [
        | inl same ↦
            rw (noted d, same, is_definition, defines, same)
              (belongs-add n (started (defs e)) (started-IsWellFormed (defs e) (filling e))
                  i.definition_id below v
                ∙ ap (λ b. (i.definition_id == v) || b)
                    (has-started (defs e) (filling e) v
                      ∙ ap (λ x. has (defs x) v) (==→eq e d same)))
        | inr other ↦ rw (noted d, other, is_definition, defines, other) refl
      ]

    ignored : defined_variable sym i ≡ none → note_definition n sym i defs ≡ defs
    unfolding note_definition
    ignored e = rw (note_definition, e) refl

    step-IsFilling : IsFilling n (note_definition n sym i defs)
    step-IsFilling = elim (Option-cases (defined_variable sym i)) [
      | inl e ↦ rw (ignored e) filling
      | inr (e, defines) ↦ noted-IsFilling e defines
    ]

    has-step :
        (d v : ℕ)
        → has (note_definition n sym i defs d) v ≡ (is_definition sym d v i || has (defs d) v)
    has-step d v = elim (Option-cases (defined_variable sym i)) [
      | inl e ↦ rw (ignored e, is_definition, e) refl
      | inr (e, defines) ↦ has-noted e defines d v
    ]

  block_lem :
      (block : List Inode) (defs : Definitions)
      → AllNumbered n block
      → IsFilling n defs
      → IsFilling n (fill_in_block n sym block defs)
        × ((d v : ℕ)
            → has (fill_in_block n sym block defs d) v
              ≡ (any_definition sym d v block || has (defs d) v))
  unfolding fill_in_block
  block_lem [] defs h f = (f, λ d v. refl)
  block_lem (i ∷ rest) defs (h, hs) f =
      let (good, members) =
        block_lem rest (note_definition n sym i defs) hs (step-IsFilling i defs h f) in
      (
        good,
        λ d v.
            rw (members d v, has-step i defs h f d v)
              (or_swap (any_definition sym d v rest) (is_definition sym d v i) (has (defs d) v)),
      )

  -- After fill_definitions, the set of a variable is well formed or undefined, and holds what it held before and the
  -- numbers of the instructions of all blocks that define the variable.
  pub fill_exact :
      (blocks : List (List Inode)) (defs : Definitions)
      → BlocksNumbered n blocks
      → IsFilling n defs
      → IsFilling n (fill_definitions n sym blocks defs)
        × ((d v : ℕ)
            → has (fill_definitions n sym blocks defs d) v
              ≡ (any_in_blocks sym d v blocks || has (defs d) v))
  unfolding fill_definitions
  fill_exact [] defs h f = (f, λ d v. refl)
  fill_exact (block ∷ rest) defs (h, hs) f =
      let (good, members) = block_lem block defs h f in
      let (done, all) = fill_exact rest (fill_in_block n sym block defs) hs good in
      (
        done,
        λ d v.
            rw (all d v, members d v)
              (or_swap (any_in_blocks sym d v rest) (any_definition sym d v block)
                (has (defs d) v)),
      )
