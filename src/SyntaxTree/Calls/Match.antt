-- ===== src/SyntaxTree/Calls/Match.antt =====
-- When ActualsMatchFormals accepts the arguments of a call.
use csc.Common.{
  ℕ, Bool, true, false, Option, none, some, ◌==◌, ◌&&◌, ◌||◌, not, if◌then◌else◌, List, [], ◌∷◌,
  ◌≡◌,
}
use csc.Symbol.{tag, SymType, Symbol, Symbols}
use csc.SyntaxTree.{Tnode, SyntaxNodeType, Val}
use csc.SyntaxTree.Calls.{is_array, is_stringcon}

-- The type of the elements of an array argument: an array variable's, or the characters of a
-- string.
abbrev pub entry_elements : Symbols → Val → SymType
entry_elements sym (Val.stref_node (some a) e) = (sym a).elt_type
entry_elements sym v = SymType.none

abbrev pub elements : Symbols → SyntaxNodeType → Val → SymType
elements sym ty v = if is_stringcon ty then SymType.char else entry_elements sym v

-- An argument as the parser makes them: an array is a variable, or a string where characters are
-- wanted.
abbrev pub IsEntry : SymType → Val → Type 0
IsEntry ety (Val.stref_node (some a) e) = Unit
IsEntry ety v = is_array ety ≡ false

abbrev pub IsStringOrEntry : Bool → Symbol → SymType → Val → Type 0
IsStringOrEntry true formal ety v = formal.elt_type ≡ SymType.char
IsStringOrEntry false formal ety v = IsEntry ety v

abbrev pub IsArgument : Symbols → Symbol → Tnode → Type 0
IsArgument sym formal Tnode.null = ⊥
IsArgument sym formal (Tnode.node ty ety v) = IsStringOrEntry (is_stringcon ty) formal ety v

-- Two arrays must have elements of one type; nothing else is asked, so an array and a scalar pass.
abbrev pub accepts : Symbols → Symbol → Tnode → Bool
accepts sym formal Tnode.null = false
accepts sym formal (Tnode.node ty ety v) =
    not (is_array formal.type && is_array ety) || (tag formal.elt_type == tag (elements sym ty v))

abbrev comparison : SymType → SymType → Option Bool
comparison wanted elt = some (not (tag wanted == tag elt))

abbrev pub all_accepted : Symbols → List ℕ → List Tnode → Bool
all_accepted sym [] [] = true
all_accepted sym (f ∷ fs) (t ∷ ts) = accepts sym (sym f) t && all_accepted sym fs ts
all_accepted sym _ _ = false

abbrev pub AreArguments : Symbols → List ℕ → List Tnode → Type 0
AreArguments sym [] ts = Unit
AreArguments sym (f ∷ fs) [] = Unit
AreArguments sym (f ∷ fs) (t ∷ ts) = IsArgument sym (sym f) t × AreArguments sym fs ts
