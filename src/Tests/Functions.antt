-- ===== src/Tests/Functions.antt =====
-- A prototype `int f(int a, char s[])`, and blocks with an edge.
use csc.Common.{some, zero, suc, ◌≡◌, refl, true, false, [], ◌∷◌, ◌==◌, if◌then◌else◌, none, arith}
use csc.Symbol.{SymType, Scope, Symbols, zero_symbol}
use csc.SymbolTable.{SymTab}
use csc.SymbolTable.Functions.{Parameter, Parsed, check_arguments}
use csc.SymbolTable.Functions.Prototype.{is_silent}
use csc.SymbolTable.Lookup.{IsBounded}
use csc.SymbolTable.Functions.Formals.{AllDescribed}
use csc.SymbolTable.Functions.Recorded.{recorded, after_record, recorded_exact, recorded_checked}
use csc.SymbolTable.Constants.{
  Strings, save_string_node, string_name, create_constant_string, get_string_list_head,
  create_strings,
}
use csc.SymbolTable.Constants.Chain.{IsStringList, entries, create_strings_exact}
use csc.Stack.{push_to_graph_node_stack, pop_from_graph_node_stack, top_node, pop-push}
use csc.Block.{Blocks, create_block, connect_blocks}
use csc.Block.Edges.{start, Reached, IsLinked, reached-IsLinked}

abbrev number : Parameter
number = record { name = 97 ∷ []; type = SymType.int; is_array = false }

abbrev text : Parameter
text = record { name = 115 ∷ []; type = SymType.char; is_array = true }

-- Address 0 is the formal of `a`, the others that of `s`.
abbrev formals : Symbols
formals zero = record zero_symbol { type = SymType.int; elt_type = SymType.none }
formals (suc a) = record zero_symbol { type = SymType.array; elt_type = SymType.char }

abbrev empty : SymTab
empty = record {
  buckets = λ s i. [];
  symbols = λ a. zero_symbol;
  fresh = 0;
  free_char = none;
  free_int = none;
  free_addr = none;
  tmp_counter = 0;
  local_var_id = 0;
}

abbrev parsed : Parsed
parsed = record {
  fn_name = 102 ∷ [];
  fn_ret_type = SymType.int;
  lptr = number ∷ text ∷ [];
  curr_scope = Scope.local;
  curr_type = SymType.int;
  is_extern = false;
}

empty-IsBounded : IsBounded empty
empty-IsBounded s i = tt

recorded_exact_example :
    ((recorded true parsed empty).type ≡ SymType.func)
    × ((recorded true parsed empty).ret_type ≡ SymType.int)
    × AllDescribed
        (after_record true parsed empty).symbols
        (recorded true parsed empty).formals
        (number ∷ text ∷ [])
    × ((recorded true parsed empty).num_formals ≡ 2)
recorded_exact_example = recorded_exact true parsed empty empty-IsBounded

-- A definition whose second parameter is no array does not match.
recorded_checked_example :
    is_silent (
      check_arguments
        (after_record true parsed empty).symbols
        1
        (recorded true parsed empty).formals
        (number ∷ number ∷ []))
    ≡ false
recorded_checked_example =
    recorded_checked true parsed empty 1 (number ∷ number ∷ []) empty-IsBounded (refl, (refl, tt))

-- Two blocks, the second a child of the first.
abbrev two_blocks : Blocks
two_blocks = (create_block (create_block start).1).1

two_blocks-Reached : Reached two_blocks
two_blocks-Reached = Reached.created (Reached.created Reached.started)

abbrev joined : Blocks
joined = record two_blocks {
  children = λ b. if 0 == b then 1 ∷ two_blocks.children 0 else two_blocks.children b;
  parents = λ b. if 1 == b then 0 ∷ two_blocks.parents 1 else two_blocks.parents b;
}

joined-Reached : Reached joined
unfolding connect_blocks create_block
joined-Reached =
    Reached.connected {p = 0} {c = 1} two_blocks-Reached (omega arith) (omega arith) refl

reached-IsLinked_example : IsLinked joined
reached-IsLinked_example = reached-IsLinked joined joined-Reached

abbrev no_strings : Strings
no_strings = record { head = none; tail = none; next = λ a. none; string_counter = 0 }

no_strings-IsStringList : IsStringList 0 no_strings []
unfolding get_string_list_head
no_strings-IsStringList = record { leads = refl; ends = refl; below = tt }

abbrev two_strings : SymTab × Strings
two_strings = create_strings ((72 ∷ []) ∷ (105 ∷ []) ∷ []) empty no_strings

-- The head leads to the node at 0 and this one to the node at 1.
two_strings-linked :
    (get_string_list_head two_strings.1 ≡ some 0)
    × (two_strings.1.next 0 ≡ some 1)
    × (two_strings.1.next 1 ≡ none)
unfolding get_string_list_head create_strings create_constant_string save_string_node
two_strings-linked = (refl, refl, refl)

create_strings_exact_example :
    IsStringList two_strings.0.fresh two_strings.1 (0 ∷ 1 ∷ [])
    × (entries two_strings.0.symbols (0 ∷ 1 ∷ [])
        ≡ (string_name 0, 72 ∷ []) ∷ (string_name 1, 105 ∷ []) ∷ [])
create_strings_exact_example =
    create_strings_exact ((72 ∷ []) ∷ (105 ∷ []) ∷ []) empty no_strings [] no_strings-IsStringList

pop-push_example :
    (pop_from_graph_node_stack (push_to_graph_node_stack 7 (some 3 ∷ [])) ≡ some 3 ∷ [])
    × (top_node (push_to_graph_node_stack 7 (some 3 ∷ [])) ≡ some 7)
pop-push_example = pop-push 7 (some 3 ∷ [])
