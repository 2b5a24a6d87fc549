-- ===== src/SyntaxTree.antt =====
-- syntax-tree.h and the constructor functions of syntax-tree.c. A pointer to a node is `null` or
-- the node it points to; no node is shared. The fields for code and places belong to code
-- generation and are left out.
pub mod Access
pub mod Expressions
pub mod Calls
pub mod Body
use Prim.Native.String.{String}
use csc.Common.{ℕ, Bool, true, false, Option, none, some, ◌==◌}
use csc.Symbol.{SymType}

pub data SyntaxNodeType : Type 0 where
  error intcon charcon stringcon var array_subscript plus unary_minus binary_minus : SyntaxNodeType
  mult div equals neq leq lt geq gt logical_and logical_or logical_not : SyntaxNodeType
  fun_call assg return_stmt for_stmt while_stmt if_stmt st_node_list : SyntaxNodeType

-- The union `val`: each constructor is a member. Symbol table entries are addresses.
mutual
  pub data Tnode : Type 0 where
    null : Tnode
    node : SyntaxNodeType → SymType → Val → Tnode

  pub data Val : Type 0 where
    iconst : ℕ → Val
    strconst : String → Val
    stref_node : Option ℕ → Tnode → Val
    expr_node : Tnode → Tnode → Val
    stmt_node : Tnode → Tnode → Tnode → Tnode → Val

abbrev pub is_null : Tnode → Bool
is_null Tnode.null = true
is_null (Tnode.node _ _ _) = false

-- The fields read through a pointer: none through a null one.
abbrev pub ntype : Tnode → Option SyntaxNodeType
ntype Tnode.null = none
ntype (Tnode.node ty _ _) = some ty

abbrev pub etype : Tnode → Option SymType
etype Tnode.null = none
etype (Tnode.node _ ty _) = some ty

abbrev pub payload : Tnode → Option Val
payload Tnode.null = none
payload (Tnode.node _ _ v) = some v

-- Members of the union, read as `ConstVal` and its like do. Another member than the one written is
-- undefined, save that the first pointers of two structs of nodes are at one place.
abbrev pub const_val : Val → Option ℕ
const_val (Val.iconst n) = some n
const_val _ = none

abbrev pub str_val : Val → Option String
str_val (Val.strconst s) = some s
str_val _ = none

abbrev pub sym_tab_ptr : Val → Option (Option ℕ)
sym_tab_ptr (Val.stref_node p _) = some p
sym_tab_ptr _ = none

abbrev pub expr_ptr : Val → Option Tnode
expr_ptr (Val.stref_node _ e) = some e
expr_ptr _ = none

abbrev pub l_child : Val → Option Tnode
l_child (Val.expr_node l _) = some l
l_child (Val.stmt_node l _ _ _) = some l
l_child _ = none

abbrev pub r_child : Val → Option Tnode
r_child (Val.expr_node _ r) = some r
r_child (Val.stmt_node _ r _ _) = some r
r_child _ = none

abbrev pub child0 : Val → Option Tnode
child0 = l_child

abbrev pub child1 : Val → Option Tnode
child1 = r_child

abbrev pub child2 : Val → Option Tnode
child2 (Val.stmt_node _ _ c _) = some c
child2 _ = none

abbrev pub child3 : Val → Option Tnode
child3 (Val.stmt_node _ _ _ c) = some c
child3 _ = none

-- The numbers of the enumeration, for `==` on node types.
abbrev pub number : SyntaxNodeType → ℕ
number SyntaxNodeType.error = 0
number SyntaxNodeType.intcon = 1
number SyntaxNodeType.charcon = 2
number SyntaxNodeType.stringcon = 3
number SyntaxNodeType.var = 4
number SyntaxNodeType.array_subscript = 5
number SyntaxNodeType.plus = 6
number SyntaxNodeType.unary_minus = 7
number SyntaxNodeType.binary_minus = 8
number SyntaxNodeType.mult = 9
number SyntaxNodeType.div = 10
number SyntaxNodeType.equals = 11
number SyntaxNodeType.neq = 12
number SyntaxNodeType.leq = 13
number SyntaxNodeType.lt = 14
number SyntaxNodeType.geq = 15
number SyntaxNodeType.gt = 16
number SyntaxNodeType.logical_and = 17
number SyntaxNodeType.logical_or = 18
number SyntaxNodeType.logical_not = 19
number SyntaxNodeType.fun_call = 20
number SyntaxNodeType.assg = 21
number SyntaxNodeType.return_stmt = 22
number SyntaxNodeType.for_stmt = 23
number SyntaxNodeType.while_stmt = 24
number SyntaxNodeType.if_stmt = 25
number SyntaxNodeType.st_node_list = 26

unfoldable pub mk_const_node : SyntaxNodeType → SymType → ℕ → Tnode
mk_const_node ty ety n = Tnode.node ty ety (Val.iconst n)

unfoldable pub mk_str_node : String → Tnode
mk_str_node s = Tnode.node SyntaxNodeType.stringcon SymType.array (Val.strconst s)

unfoldable pub mk_sym_tab_ref_node : SyntaxNodeType → SymType → Option ℕ → Tnode → Tnode
mk_sym_tab_ref_node ty ety stptr t0 = Tnode.node ty ety (Val.stref_node stptr t0)

unfoldable pub mk_expr_node : SyntaxNodeType → SymType → Tnode → Tnode → Tnode
mk_expr_node ty ety e1 e2 = Tnode.node ty ety (Val.expr_node e1 e2)

unfoldable pub mk_st_node : SyntaxNodeType → SymType → Tnode → Tnode → Tnode → Tnode → Tnode
mk_st_node ty ety x0 x1 x2 x3 = Tnode.node ty ety (Val.stmt_node x0 x1 x2 x3)

unfoldable pub mk_error_node : Tnode
unfolding mk_st_node
mk_error_node =
    mk_st_node SyntaxNodeType.error SymType.error Tnode.null Tnode.null Tnode.null Tnode.null

unfoldable pub mk_list_node : Tnode → Tnode → Tnode
mk_list_node hd tl = Tnode.node SyntaxNodeType.st_node_list SymType.none (Val.expr_node hd tl)
