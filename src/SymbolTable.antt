-- ===== src/SymbolTable.antt =====
-- symbol-table.c: the two hash tables, the temporaries and the ids of local variables. The file's
-- static variables are one state, passed and returned.
pub mod Variables
pub mod Functions
pub mod Constants
pub mod Lookup
pub mod Invariant
pub mod Temporaries
pub mod Layout
use csc.Common.{
  ℕ, zero, suc, ◌+◌, ◌%◌, ◌/◌, Bool, true, false, ◌&&◌, Option, none, some, List, [], ◌∷◌, ◌==◌,
  if◌then◌else◌, ltb,
}
use csc.Symbol.{Symbol, Symbols, SymType, Scope, zero_symbol, is_local}

abbrev pub table_size : ℕ
table_size = 256

-- The tables' buckets hold addresses of entries; addresses from `fresh` on are not yet allocated.
pub record SymTab : Type 0 where
  pub buckets : Scope → ℕ → List ℕ
  pub symbols : Symbols
  pub fresh : ℕ
  pub free_char : Option ℕ
  pub free_int : Option ℕ
  pub free_addr : Option ℕ
  pub tmp_counter : ℕ
  pub local_var_id : ℕ

-- The sum of the bytes. An overflow of the `int` would take a name of 16 million bytes.
unfoldable pub sum_bytes : List ℕ → ℕ
sum_bytes [] = 0
sum_bytes (c ∷ cs) = c + sum_bytes cs

unfoldable pub hash : List ℕ → ℕ
unfolding sum_bytes
hash str = sum_bytes str % table_size

-- `strcmp(a, b) == 0`.
unfoldable pub same_name : List ℕ → List ℕ → Bool
same_name [] [] = true
same_name (a ∷ as_) (b ∷ bs) = (a == b) && same_name as_ bs
same_name _ _ = false

abbrev pub same_scope : Scope → Scope → Bool
same_scope Scope.global Scope.global = true
same_scope Scope.local Scope.local = true
same_scope _ _ = false

unfoldable pub set_symbol : Symbols → ℕ → Symbol → Symbols
set_symbol sym a s b = if a == b then s else sym b

-- All buckets of one scope emptied. The entries stay, as garbage.
unfoldable pub sym_tab_init : Scope → SymTab → SymTab
sym_tab_init sc st = record st { buckets = λ s i. if same_scope sc s then [] else st.buckets s i }

unfoldable pub find_name : Symbols → List ℕ → List ℕ → Option ℕ
unfolding same_name
find_name sym str [] = none
find_name sym str (a ∷ rest) = if same_name str (sym a).name then some a else find_name sym str rest

unfoldable pub sym_tab_lookup : List ℕ → Scope → SymTab → Option ℕ
unfolding find_name hash
sym_tab_lookup str sc st = find_name st.symbols str (st.buckets sc (hash str))

unfoldable pub sym_tab_lookup_all : List ℕ → SymTab → Option ℕ
unfolding sym_tab_lookup
sym_tab_lookup_all str st = elim (sym_tab_lookup str Scope.local st) [
  | some a ↦ some a
  | none ↦ sym_tab_lookup str Scope.global st
]

-- The new entry at the head of its bucket.
unfoldable pub insert_new : List ℕ → Scope → SymTab → SymTab
unfolding set_symbol hash
insert_new str sc st =
    let old = st.buckets in
    record st {
      buckets = λ s i. if same_scope sc s && (hash str == i) then st.fresh ∷ old s i else old s i;
      symbols = set_symbol st.symbols st.fresh (record zero_symbol { name = str; scope = sc });
      fresh = suc st.fresh;
    }

-- A name that is there gives its entry, with a message.
unfoldable pub sym_tab_insert : List ℕ → Scope → SymTab → ℕ × SymTab
unfolding sym_tab_lookup insert_new
sym_tab_insert str sc st = elim (sym_tab_lookup str sc st) [
  | some a ↦ (a, st)
  | none ↦ (st.fresh, insert_new str sc st)
]

unfoldable pub fill_id : ℕ → SymTab → SymTab
unfolding set_symbol
fill_id a st =
    if is_local (st.symbols a).scope
    then record st {
      symbols = set_symbol st.symbols a (record (st.symbols a) { id = st.local_var_id });
      local_var_id = suc st.local_var_id;
    }
    else st

unfoldable pub get_total_local_variables : SymTab → ℕ
get_total_local_variables st = st.local_var_id

-- The head of the list of free temporaries of a type, where there is one.
abbrev pub free_list : SymType → SymTab → Option ℕ
free_list SymType.char st = st.free_char
free_list SymType.int st = st.free_int
free_list SymType.addr st = st.free_addr
free_list _ st = none

abbrev pub set_free_list : SymType → Option ℕ → SymTab → SymTab
set_free_list SymType.char o st = record st { free_char = o }
set_free_list SymType.int o st = record st { free_int = o }
set_free_list SymType.addr o st = record st { free_addr = o }
set_free_list _ o st = st

abbrev pub has_free_list : SymType → Bool
has_free_list SymType.char = true
has_free_list SymType.int = true
has_free_list SymType.addr = true
has_free_list _ = false

unfoldable pub get_free_temporary : SymType → SymTab → Option ℕ × SymTab
unfolding set_symbol
get_free_temporary type st = elim (free_list type st) [
  | none ↦ (none, st)
  | some tmp ↦
      let s = st.symbols tmp in
      let taken = set_free_list type s.next_free st in
      (
        some tmp,
        record taken { symbols = set_symbol st.symbols tmp (record s { next_free = none }) },
      )
]

-- `sprintf("%d", n)`: the digits, from the last one on, with fuel `n`.
unfoldable pub digits : ℕ → ℕ → List ℕ → List ℕ
digits zero n acc = (n % 10 + 48) ∷ acc
digits (suc fuel) n acc =
    let rest = digits fuel (n / 10) ((n % 10 + 48) ∷ acc) in
    if ltb n 10 then (n + 48) ∷ acc else rest

-- `sprintf("_tmp%d", n)`.
unfoldable pub temporary_name : ℕ → List ℕ
unfolding digits
temporary_name n = 95 ∷ 116 ∷ 109 ∷ 112 ∷ digits n n []

unfoldable pub new_temporary : SymType → SymTab → ℕ × SymTab
unfolding temporary_name sym_tab_insert fill_id set_symbol
new_temporary type st =
    let counted = record st { tmp_counter = suc st.tmp_counter } in
    let (tmp, inserted) = sym_tab_insert (temporary_name st.tmp_counter) Scope.local counted in
    let typed =
      set_symbol inserted.symbols tmp
        (record (inserted.symbols tmp) { type = type; is_temporary = true }) in
    (tmp, fill_id tmp (record inserted { symbols = typed }))

unfoldable pub create_temporary : SymType → SymTab → ℕ × SymTab
unfolding get_free_temporary new_temporary
create_temporary type st =
    let (found, taken) = get_free_temporary type st in
    elim found [ some tmp ↦ (tmp, taken) | none ↦ new_temporary type taken ]

unfoldable pub free_temporary : ℕ → SymTab → SymTab
unfolding set_symbol
free_temporary tmp st =
    let s = st.symbols tmp in
    if has_free_list s.type
    then (let freed = record s { next_free = free_list s.type st } in
        record (set_free_list s.type (some tmp) st) { symbols = set_symbol st.symbols tmp freed })
    else st

-- What a function's end resets; the static variables of the parser are not in the state.
unfoldable pub cleanup_fn_info : SymTab → SymTab
unfolding sym_tab_init
cleanup_fn_info st = sym_tab_init Scope.local (record st {
  free_char = none;
  free_int = none;
  free_addr = none;
  tmp_counter = 0;
  local_var_id = 0;
})
