-- ===== src/SymbolTable/Variables.antt =====
-- symbol-table.c: the lists of variables of copy propagation. A list is its variables' addresses;
-- `none` is a read through a null pointer.
use csc.Common.{
  ℕ, Option, none, some, List, [], ◌∷◌, ◌==◌, if◌then◌else◌, ◌≡◌, refl, arith, mem, ◌>>=◌,
}

unfoldable pub add_to_list_of_variables : ℕ → List ℕ → List ℕ
add_to_list_of_variables var list_head = var ∷ list_head

-- The loop to the cell before the variable's, and the cell taken out.
unlink : ℕ → List ℕ → Option (List ℕ)
unlink var [] = none
unlink var (v ∷ rest) =
    let later = unlink var rest in
    if v == var then some rest else (later >>= λ shorter. some (v ∷ shorter))

unfoldable pub remove_from_list_of_variables : ℕ → List ℕ → Option (List ℕ)
unfolding unlink
remove_from_list_of_variables var [] = none
remove_from_list_of_variables var (v ∷ rest) =
    if v == var then some rest else (unlink var rest >>= λ shorter. some (v ∷ shorter))

-- The list without the first occurrence of a variable.
abbrev pub without : ℕ → List ℕ → List ℕ
without var [] = []
without var (v ∷ rest) = if v == var then rest else v ∷ without var rest

unlink-without :
    (var : ℕ) (list : List ℕ)
    → unlink var list ≡ (if mem var list then some (without var list) else none)
unfolding unlink
unlink-without var [] = refl
unlink-without var (v ∷ rest) = ground (arith, unlink-without var rest)

-- Removing a variable takes out its first occurrence, and reads through a null pointer exactly
-- when the list does not hold the variable.
pub remove_from_list_exact :
    (var : ℕ) (list : List ℕ)
    → remove_from_list_of_variables var list
      ≡ (if mem var list then some (without var list) else none)
unfolding remove_from_list_of_variables
remove_from_list_exact var [] = refl
remove_from_list_exact var (v ∷ rest) = ground (arith, unlink-without var rest)
