-- ===== src/SymbolTable/Constants.antt =====
-- symbol-table.c: constants, which no table holds. The strings are linked by their `next` fields,
-- which are a store of their own, from the head of a list that is kept with its tail.
pub mod Chain
use csc.Common.{ℕ, suc, true, Option, none, some, List, [], ◌∷◌, ◌==◌, if◌then◌else◌}
use csc.Symbol.{SymType, Scope, zero_symbol}
use csc.SymbolTable.{SymTab, set_symbol, digits}

-- `string_list`, the `next` fields of its nodes, and the static counter of strings.
pub record Strings : Type 0 where
  pub head : Option ℕ
  pub tail : Option ℕ
  pub next : ℕ → Option ℕ
  pub string_counter : ℕ

abbrev pub set_next : (ℕ → Option ℕ) → ℕ → Option ℕ → ℕ → Option ℕ
set_next next a o b = if a == b then o else next b

unfoldable pub save_string_node : ℕ → Strings → Strings
save_string_node str_node ss = elim ss.tail [
  | some last ↦ record ss { next = set_next ss.next last (some str_node); tail = some str_node }
  | none ↦ record ss { head = some str_node; tail = some str_node }
]

-- `sprintf("_Str%d", n)`.
unfoldable pub string_name : ℕ → List ℕ
unfolding digits
string_name n = 95 ∷ 83 ∷ 116 ∷ 114 ∷ digits n n []

-- A new entry for a string; zalloc clears its `next`.
unfoldable pub create_constant_string : List ℕ → SymTab → Strings → ℕ × (SymTab × Strings)
unfolding save_string_node string_name set_symbol
create_constant_string str st ss =
    let str_node = st.fresh in
    let entry = record zero_symbol {
      type = SymType.string;
      scope = Scope.global;
      name = string_name ss.string_counter;
      const_str = str;
    } in
    let allocated = record ss {
      next = set_next ss.next str_node none;
      string_counter = suc ss.string_counter;
    } in
    (
      str_node,
      (
        record st { symbols = set_symbol st.symbols str_node entry; fresh = suc st.fresh },
        save_string_node str_node allocated,
      ),
    )

-- The name is "constant".
unfoldable pub create_constant_variable : SymType → ℕ → SymTab → ℕ × SymTab
unfolding set_symbol
create_constant_variable type value st =
    let const_var = st.fresh in
    let entry = record zero_symbol {
      type = type;
      scope = Scope.local;
      name = 99 ∷ 111 ∷ 110 ∷ 115 ∷ 116 ∷ 97 ∷ 110 ∷ 116 ∷ [];
      const_val = value;
      is_constant = true;
    } in
    (const_var, record st { symbols = set_symbol st.symbols const_var entry; fresh = suc st.fresh })

unfoldable pub get_string_list_head : Strings → Option ℕ
get_string_list_head ss = ss.head

-- Calls for some strings, one after the other.
unfoldable pub create_strings : List (List ℕ) → SymTab → Strings → SymTab × Strings
unfolding create_constant_string
create_strings [] st ss = (st, ss)
create_strings (str ∷ rest) st ss =
    let (a, after) = create_constant_string str st ss in create_strings rest after.0 after.1
