-- ===== src/SymbolTable/Functions.antt =====
-- symbol-table.c: SymTabRecordFunInfo, which records a function's prototype or definition.
pub mod Prototype
pub mod Formals
pub mod Recorded
use csc.Common.{
  ℕ, zero, suc, ◌+◌, ◌*◌, Bool, true, false, ◌&&◌, ◌||◌, not, Option, none, some, List, [], ◌∷◌,
  ◌++◌, ◌==◌, if◌then◌else◌, length,
}
use csc.Symbol.{Symbol, Symbols, SymType, Scope, ℤ, tag, zero_symbol}
use csc.SymbolTable.{SymTab, set_symbol, sym_tab_lookup, sym_tab_insert}

-- A node of the parameter list `lptr`.
pub record Parameter : Type 0 where
  pub name : List ℕ
  pub type : SymType
  pub is_array : Bool

-- The parser's variables that the function reads.
pub record Parsed : Type 0 where
  pub fn_name : List ℕ
  pub fn_ret_type : SymType
  pub lptr : List Parameter
  pub curr_scope : Scope
  pub curr_type : SymType
  pub is_extern : Bool

-- The error messages.
pub data Message : Type 0 where
  argument_type : ℕ → Message
  number_of_arguments return_type was_extern multiple void_identifier : Message

abbrev pub same_type : SymType → SymType → Bool
same_type t u = tag t == tag u

abbrev pub is_void : SymType → Bool
is_void t = same_type t SymType.none

-- The test on one parameter of a definition against the formal of the prototype.
unfoldable pub is_type_mismatch : Symbol → Parameter → Bool
is_type_mismatch formal ltmp =
    is_void formal.elt_type && not ltmp.is_array && not (same_type formal.type ltmp.type)
    || not (is_void formal.elt_type) && not ltmp.is_array
    || is_void formal.elt_type && ltmp.is_array
    || not (is_void formal.elt_type) && ltmp.is_array && not (same_type formal.elt_type ltmp.type)

-- The loop over both lists, from argument `n`, and the test that both have ended.
unfoldable pub check_arguments : Symbols → ℕ → List ℕ → List Parameter → List Message
unfolding is_type_mismatch
check_arguments sym n [] [] = []
check_arguments sym n [] (p ∷ ps) = Message.number_of_arguments ∷ []
check_arguments sym n (f ∷ fs) [] = Message.number_of_arguments ∷ []
check_arguments sym n (f ∷ fs) (p ∷ ps) =
    let rest = check_arguments sym (suc n) fs ps in
    if is_type_mismatch (sym f) p then Message.argument_type n ∷ rest else rest

-- The checks on an entry that the name already has.
unfoldable pub check_prototype : Bool → Parsed → SymTab → ℕ → List Message
unfolding check_arguments
check_prototype is_proto parsed st a =
    let func = st.symbols a in
    if func.fn_proto_state == 0 && not is_proto
    then check_arguments st.symbols 1 func.formals parsed.lptr
      ++ ((if same_type parsed.fn_ret_type func.ret_type then [] else Message.return_type ∷ [])
          ++ (if func.is_extern then Message.was_extern ∷ [] else []))
    else Message.multiple ∷ []

-- The entry of a parameter, `i` places after the first.
unfoldable pub formal_entry : ℕ → Parameter → Symbol → Symbol
formal_entry i ltmp stptr = record stptr {
  formal = true;
  type = if ltmp.is_array then SymType.array else ltmp.type;
  elt_type = if ltmp.is_array then ltmp.type else SymType.none;
  fp_offset = ℤ.pos (4 * (i + 2));
}

-- The copy in the function's list of formals.
unfoldable pub formal_copy : Symbol → Symbol
formal_copy stptr = record zero_symbol {
  name = stptr.name;
  scope = stptr.scope;
  formal = stptr.formal;
  type = stptr.type;
  elt_type = stptr.elt_type;
}

-- One parameter: its entry is inserted and filled, and its copy is a new entry.
unfoldable pub declare_formal : Scope → ℕ → Parameter → SymTab → ℕ × SymTab
unfolding formal_entry formal_copy set_symbol sym_tab_insert
declare_formal curr_scope i ltmp st =
    let (a, inserted) = sym_tab_insert ltmp.name curr_scope st in
    let entry = formal_entry i ltmp (inserted.symbols a) in
    let filled = set_symbol inserted.symbols a entry in
    let copy = inserted.fresh in
    (
      copy,
      record inserted {
        symbols = set_symbol filled copy (formal_copy entry);
        fresh = suc inserted.fresh;
      },
    )

-- The loop over the parameters: the list of formals, in order.
unfoldable pub declare_formals : Scope → ℕ → List Parameter → SymTab → List ℕ × SymTab
unfolding declare_formal
declare_formals curr_scope i [] st = ([], st)
declare_formals curr_scope i (p ∷ ps) st =
    let (copy, declared) = declare_formal curr_scope i p st in
    let (copies, all) = declare_formals curr_scope (suc i) ps declared in (copy ∷ copies, all)

-- The loop that counts the formals.
unfoldable pub count_formals : ℕ → List ℕ → ℕ
count_formals num_formals [] = num_formals
count_formals num_formals (formal_param ∷ rest) = count_formals (num_formals + 1) rest

-- The fields of the function's entry.
unfoldable pub function_entry : Bool → Parsed → List ℕ → Symbol → Symbol
unfolding count_formals
function_entry is_proto parsed formals func = record func {
  type = SymType.func;
  ret_type = parsed.fn_ret_type;
  formals = formals;
  fn_proto_state = if is_proto && not (func.fn_proto_state == 1) then 0 else 1;
  is_extern = parsed.is_extern;
  num_formals = count_formals 0 formals;
}

unfoldable pub report_each : List Parameter → List Message
report_each [] = []
report_each (p ∷ ps) = Message.void_identifier ∷ report_each ps

-- With a void `CurrType`, each parameter is only reported.
unfoldable pub record_fun_info : Bool → Parsed → SymTab → (ℕ × SymTab) × List Message
unfolding check_prototype declare_formals function_entry set_symbol report_each
record_fun_info is_proto parsed st =
    let old = sym_tab_lookup parsed.fn_name Scope.global st in
    let (a, found) = sym_tab_insert parsed.fn_name Scope.global st in
    let checks : List Message = elim old [
      | none ↦ []
      | some f ↦ check_prototype is_proto parsed st f
    ] in
    let (formals, declared) =
      if is_void parsed.curr_type
      then ([], found)
      else declare_formals parsed.curr_scope 0 parsed.lptr found in
    let entry = function_entry is_proto parsed formals (declared.symbols a) in
    (
      (a, record declared { symbols = set_symbol declared.symbols a entry }),
      checks ++ (if is_void parsed.curr_type then report_each parsed.lptr else []),
    )
