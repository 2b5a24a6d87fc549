-- ===== src/Tests/Tables.antt =====
-- A local table with the character `a` and the integer `b`.
use csc.Common.{
  ℕ, zero, suc, ◌%◌, ◌≡◌, refl, true, none, some, List, [], ◌∷◌, ◌==◌, if◌then◌else◌, arith,
  Bool-cases, inl, inr, mem, NoDup,
}
use csc.Symbol.{SymType, Scope, Symbols, zero_symbol}
use csc.SymbolTable.{
  SymTab, table_size, hash, sum_bytes, same_name, sym_tab_lookup, sym_tab_insert, find_name,
  create_temporary, free_temporary, free_list,
}
use csc.SymbolTable.Lookup.{IsBounded, AllBelow, lookup-insert}
use csc.SymbolTable.Invariant.{IsTable, nodes-NoDup, insert-IsTable}
use csc.SymbolTable.Temporaries.{create-free}
use csc.SymbolTable.Variables.{remove_from_list_of_variables, remove_from_list_exact}
use csc.SymbolTable.Layout.{local_nodes, node_byte_size_type}
use csc.SymbolTable.Layout.Slots.{IsOwn, start, slot_aligned}

abbrev bucket : Scope → ℕ → List ℕ
bucket Scope.local i = if i == 97 then 0 ∷ [] else if i == 98 then 1 ∷ [] else []
bucket Scope.global i = []

abbrev entries : Symbols
entries zero = record zero_symbol { name = 97 ∷ []; scope = Scope.local }
entries (suc a) = record zero_symbol { name = 98 ∷ []; scope = Scope.local; type = SymType.int }

abbrev table : SymTab
table = record {
  buckets = bucket;
  symbols = entries;
  fresh = 2;
  free_char = none;
  free_int = none;
  free_addr = none;
  tmp_counter = 0;
  local_var_id = 2;
}

bucket_lem :
    (P : List ℕ → Type 0) → P (0 ∷ []) → P (1 ∷ []) → P [] → (s : Scope) (i : ℕ) → P (bucket s i)
bucket_lem P p q r Scope.global i = r
bucket_lem P p q r Scope.local i = elim (Bool-cases (i == 97)) [
  | inl e ↦ rw e p
  | inr e ↦ elim (Bool-cases (i == 98)) [ inl f ↦ rw (e, f) q | inr f ↦ rw (e, f) r ]
]

table-IsBounded : IsBounded table
table-IsBounded = bucket_lem (AllBelow 2) (omega arith, tt) (omega arith, tt) tt

table-hashed : (s : Scope) (i a : ℕ) → mem a (bucket s i) ≡ true → hash (entries a).name ≡ i
unfolding hash sum_bytes
table-hashed Scope.global i a m = ground arith
table-hashed Scope.local i zero m = ground arith
table-hashed Scope.local i (suc a) m = ground arith

table-IsTable : IsTable table
table-IsTable = record {
  bounded = table-IsBounded;
  distinct = bucket_lem NoDup (refl, tt) (refl, tt) tt;
  hashed = table-hashed;
}

nodes-NoDup_example : NoDup (local_nodes table_size table)
nodes-NoDup_example = nodes-NoDup table table-IsTable table_size

IsOwn-int : IsOwn table 1
unfolding local_nodes
IsOwn-int = (refl, refl)

slot_aligned_example : start table 1 % 4 ≡ 0
unfolding node_byte_size_type
slot_aligned_example =
    slot_aligned table (nodes-NoDup table table-IsTable table_size) 1 IsOwn-int refl

-- The name `c` is new; its lookup finds the new entry.
lookup-insert_example :
    sym_tab_lookup (99 ∷ []) Scope.local (sym_tab_insert (99 ∷ []) Scope.local table).1 ≡ some 2
unfolding sym_tab_insert sym_tab_lookup same_name find_name hash sum_bytes
lookup-insert_example =
    lookup-insert (99 ∷ []) Scope.local table table-IsBounded (99 ∷ []) Scope.local

insert-IsTable_example : IsTable (sym_tab_insert (99 ∷ []) Scope.local table).1
insert-IsTable_example = insert-IsTable table table-IsTable (99 ∷ []) Scope.local

create-free_example :
    ((create_temporary SymType.int (free_temporary 1 table)).0 ≡ 1)
    × (free_list SymType.int (create_temporary SymType.int (free_temporary 1 table)).1 ≡ none)
create-free_example = create-free table 1 SymType.int refl refl

remove_from_list_exact_example :
    remove_from_list_of_variables 5 (3 ∷ 5 ∷ 4 ∷ []) ≡ some (3 ∷ 4 ∷ [])
remove_from_list_exact_example = remove_from_list_exact 5 (3 ∷ 5 ∷ 4 ∷ [])
