-- ===== src/SymbolTable/Layout.antt =====
-- symbol-table.c: the places of the local variables in a function's frame.
pub mod Pass
pub mod Frame
pub mod Slots
use csc.Common.{
  ℕ, zero, suc, ◌+◌, ◌*◌, ◌/◌, ◌%◌, Bool, true, false, ◌&&◌, not, List, [], ◌∷◌, ◌++◌, ◌==◌,
  if◌then◌else◌,
}
use csc.Symbol.{Symbol, Symbols, SymType, Scope, negate}
use csc.SymbolTable.{SymTab, set_symbol, table_size}

abbrev pub is_array : SymType → Bool
is_array SymType.array = true
is_array _ = false

-- `t_1B` is true, `t_4B` false.
unfoldable pub get_byte_size_type : SymType → Bool
get_byte_size_type SymType.char = true
get_byte_size_type SymType.bool = true
get_byte_size_type _ = false

abbrev pub same_size : Bool → Bool → Bool
same_size true c = c
same_size false c = not c

unfoldable pub node_byte_size_type : Symbol → Bool
unfolding get_byte_size_type
node_byte_size_type s = get_byte_size_type (if is_array s.type then s.elt_type else s.type)

-- The byte size that allocate gives to a node.
unfoldable pub node_size : Symbol → ℕ
unfolding node_byte_size_type
node_size s =
    let element_byte_size = if node_byte_size_type s then 1 else 4 in
    let num_elements = if is_array s.type then s.num_elts else 1 in element_byte_size * num_elements

-- Whether this pass places the node.
unfoldable pub is_placed : Bool → Symbol → Bool
unfolding node_byte_size_type
is_placed byte_size_type s = not s.formal && same_size (node_byte_size_type s) byte_size_type

-- The loop body, with `curr_fp_offset` so far.
unfoldable pub allocate_node : Bool → ℕ → Symbols × ℕ → Symbols × ℕ
unfolding is_placed node_size set_symbol
allocate_node byte_size_type a (sym, curr_fp_offset) =
    let s = sym a in
    let moved = curr_fp_offset + node_size s in
    if is_placed byte_size_type s
    then (set_symbol sym a (record s { byte_size = node_size s; fp_offset = negate moved }), moved)
    else (sym, curr_fp_offset)

unfoldable pub allocate_nodes : Bool → List ℕ → Symbols × ℕ → Symbols × ℕ
unfolding allocate_node
allocate_nodes byte_size_type [] done = done
allocate_nodes byte_size_type (a ∷ rest) done =
    allocate_nodes byte_size_type rest (allocate_node byte_size_type a done)

-- The nodes of the first `n` buckets of the local table, in the order of the loops.
unfoldable pub local_nodes : ℕ → SymTab → List ℕ
local_nodes zero st = []
local_nodes (suc n) st = local_nodes n st ++ st.buckets Scope.local n

unfoldable pub allocate : ℕ → Bool → SymTab → ℕ × SymTab
unfolding allocate_nodes
allocate initial_offset byte_size_type st =
    let (placed, offset) =
      allocate_nodes byte_size_type (local_nodes table_size st) (st.symbols, initial_offset) in
    (offset, record st { symbols = placed })

unfoldable pub align : ℕ → ℕ
align offset = if not (offset % 4 == 0) then 4 * (offset / 4) + 4 else offset

unfoldable pub fill_local_allocations : SymTab → ℕ × SymTab
unfolding allocate align
fill_local_allocations st =
    let (bytes, first) = allocate 0 true st in allocate (align bytes) false first
