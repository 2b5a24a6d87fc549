-- ===== src/Symbol.antt =====
-- The entries of symbol-table.h and the type tags of global.h. Passes over the code refer to an
-- entry by its address and read it through a store, so two operands are one variable exactly when
-- their addresses are equal.
use csc.Common.{ℕ, Bool, true, false, List, [], Option}

-- The `t_` tags.
pub data SymType : Type 0 where
  char int bool array func none error string addr word : SymType

-- `==` on the `t_` numbers.
abbrev pub tag : SymType → ℕ
tag SymType.char = 0
tag SymType.int = 1
tag SymType.bool = 2
tag SymType.array = 3
tag SymType.func = 4
tag SymType.none = 5
tag SymType.error = 6
tag SymType.string = 7
tag SymType.addr = 8
tag SymType.word = 9

pub data Scope : Type 0 where
  global local : Scope

-- An offset from the frame pointer.
pub data ℤ : Type 0 where
  pos negsuc : ℕ → ℤ

-- How far below the frame pointer an offset is.
abbrev pub depth : ℤ → ℕ
depth (ℤ.pos n) = 0
depth (ℤ.negsuc n) = ℕ.suc n

-- `-n`.
abbrev pub negate : ℕ → ℤ
negate ℕ.zero = ℤ.pos 0
negate (ℕ.suc n) = ℤ.negsuc n

-- The fields of `symtabnode` that the modelled passes use. A name is its bytes before the NUL; an
-- entry is pointed to by its address, and a list through `next` is the list of its addresses.
pub record Symbol : Type 0 where
  pub name : List ℕ
  pub scope : Scope
  pub formal : Bool
  pub type : SymType
  pub elt_type : SymType
  pub num_elts : ℕ
  pub ret_type : SymType
  pub formals : List ℕ
  pub fn_proto_state : ℕ
  pub is_extern : Bool
  pub byte_size : ℕ
  pub fp_offset : ℤ
  pub num_formals : ℕ
  pub const_str : List ℕ
  pub const_val : ℕ
  pub is_temporary : Bool
  pub is_constant : Bool
  pub next_free : Option ℕ
  pub id : ℕ

-- A new entry from zalloc: `Global` and `t_Char` are zero.
abbrev pub zero_symbol : Symbol
zero_symbol = record {
  name = [];
  scope = Scope.global;
  formal = false;
  type = SymType.char;
  elt_type = SymType.char;
  num_elts = 0;
  ret_type = SymType.char;
  formals = [];
  fn_proto_state = 0;
  is_extern = false;
  byte_size = 0;
  fp_offset = ℤ.pos 0;
  num_formals = 0;
  const_str = [];
  const_val = 0;
  is_temporary = false;
  is_constant = false;
  next_free = Option.none;
  id = 0;
}

-- The store of entries, by address.
abbrev pub Symbols : Type 0
Symbols = ℕ → Symbol

abbrev pub is_addr : SymType → Bool
is_addr SymType.addr = true
is_addr _ = false

abbrev pub is_local : Scope → Bool
is_local Scope.local = true
is_local _ = false
