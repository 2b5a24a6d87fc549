-- ===== src/SyntaxTree/Calls.antt =====
-- ActualsMatchFormals of syntax-tree.c. The formals are the entries of the function's list, in
-- order; `none` is a read of what is not there. The messages are not in the model.
pub mod Match
use csc.Common.{
  ℕ, Bool, true, false, Option, none, some, ◌==◌, ◌&&◌, ◌||◌, not, if◌then◌else◌, List, [], ◌∷◌,
  ◌>>=◌,
}
use csc.Symbol.{tag, SymType, Symbol, Symbols}
use csc.SyntaxTree.{
  Tnode, SyntaxNodeType, ntype, etype, payload, l_child, r_child, sym_tab_ptr, is_null,
}
use csc.SyntaxTree.Expressions.{is_integer, is_error_type}

abbrev pub is_array : SymType → Bool
is_array SymType.array = true
is_array _ = false

abbrev pub is_char : SymType → Bool
is_char SymType.char = true
is_char _ = false

abbrev pub is_stringcon : SyntaxNodeType → Bool
is_stringcon SyntaxNodeType.stringcon = true
is_stringcon _ = false

-- `SymTabPtr(argNode)->elt_type`.
abbrev pub actual_elt_type : Symbols → Tnode → Option SymType
actual_elt_type sym arg = do p ← sym_tab_ptr (← payload arg); a ← p; some (sym a).elt_type

-- Whether an argument is a mismatch.
unfoldable pub is_mismatch : Symbols → Symbol → Tnode → Option Bool
is_mismatch sym formal Tnode.null = none
is_mismatch sym formal (Tnode.node ty t1 v) =
    let t0 = formal.type in
    if not (is_array t0) && not (is_array t1) && is_integer t0 && is_integer t1
    then some false
    else if is_array t0 && is_array t1
    then if is_stringcon ty && is_char formal.elt_type
      then some false
      else (actual_elt_type sym (Tnode.node ty t1 v) >>= λ elt.
          some (not (tag formal.elt_type == tag elt)))
    else some false

-- The loop, with `err_occurred` so far. Its update reads the next argument also after an Error.
match_loop : Symbols → List ℕ → Tnode → Bool → Option Bool
unfolding is_mismatch
match_loop sym [] actuals err = some (not (err || not (is_null actuals)))
match_loop sym (f ∷ formals) Tnode.null err = some false
match_loop sym (f ∷ formals) (Tnode.node ty ety v) err =
    let rest = match_loop sym formals in
    do
      next ← r_child v
      arg ← l_child v
      wrong ← if is_error_type ty then some false else is_mismatch sym (sym f) arg
      rest next (err || wrong)

unfoldable pub actuals_match_formals : Symbols → List ℕ → Tnode → Option Bool
unfolding match_loop
actuals_match_formals sym formals actuals = match_loop sym formals actuals false
