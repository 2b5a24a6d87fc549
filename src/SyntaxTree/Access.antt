-- ===== src/SyntaxTree/Access.antt =====
-- The accessor functions of syntax-tree.c. Each checks the node's type, and aborts (`none`) on a
-- null pointer or another type.

use Prim.Native.String.{String}
use csc.Common.{ℕ, Bool, true, false, Option, none, ◌==◌, ◌>>=◌, ◌>>◌, assert}
use csc.SyntaxTree.{
  Tnode, SyntaxNodeType, payload, number, const_val, str_val, sym_tab_ptr, expr_ptr, l_child,
  r_child, child0, child1, child2, child3,
}

unfoldable pub chk_node_type : Tnode → SyntaxNodeType → Option {0} Unit
chk_node_type Tnode.null expected = none
chk_node_type (Tnode.node ty _ _) expected = assert (number ty == number expected)

-- The cases of the switch in stBinop_Op1 and stBinop_Op2, and in stUnop_Op.
abbrev pub is_binary : SyntaxNodeType → Bool
is_binary SyntaxNodeType.plus = true
is_binary SyntaxNodeType.binary_minus = true
is_binary SyntaxNodeType.mult = true
is_binary SyntaxNodeType.div = true
is_binary SyntaxNodeType.equals = true
is_binary SyntaxNodeType.neq = true
is_binary SyntaxNodeType.leq = true
is_binary SyntaxNodeType.lt = true
is_binary SyntaxNodeType.geq = true
is_binary SyntaxNodeType.gt = true
is_binary SyntaxNodeType.logical_and = true
is_binary SyntaxNodeType.logical_or = true
is_binary _ = false

abbrev pub is_unary : SyntaxNodeType → Bool
is_unary SyntaxNodeType.unary_minus = true
is_unary SyntaxNodeType.logical_not = true
is_unary _ = false

unfoldable pub st_intcon : Tnode → Option ℕ
unfolding chk_node_type
st_intcon t = do chk_node_type t SyntaxNodeType.intcon; const_val (← payload t)

unfoldable pub st_charcon : Tnode → Option ℕ
unfolding chk_node_type
st_charcon t = do chk_node_type t SyntaxNodeType.charcon; const_val (← payload t)

unfoldable pub st_stringcon : Tnode → Option String
unfolding chk_node_type
st_stringcon t = do chk_node_type t SyntaxNodeType.stringcon; str_val (← payload t)

unfoldable pub st_var : Tnode → Option (Option ℕ)
unfolding chk_node_type
st_var t = do chk_node_type t SyntaxNodeType.var; sym_tab_ptr (← payload t)

unfoldable pub st_array_subscript_array : Tnode → Option (Option ℕ)
unfolding chk_node_type
st_array_subscript_array t = do
  chk_node_type t SyntaxNodeType.array_subscript
  sym_tab_ptr (← payload t)

unfoldable pub st_array_subscript_subscript : Tnode → Option Tnode
unfolding chk_node_type
st_array_subscript_subscript t = do
  chk_node_type t SyntaxNodeType.array_subscript
  expr_ptr (← payload t)

unfoldable pub st_binop_op1 : Tnode → Option Tnode
st_binop_op1 Tnode.null = none
st_binop_op1 (Tnode.node ty _ v) = do assert (is_binary ty); l_child v

unfoldable pub st_binop_op2 : Tnode → Option Tnode
st_binop_op2 Tnode.null = none
st_binop_op2 (Tnode.node ty _ v) = do assert (is_binary ty); r_child v

unfoldable pub st_unop_op : Tnode → Option Tnode
st_unop_op Tnode.null = none
st_unop_op (Tnode.node ty _ v) = do assert (is_unary ty); l_child v

unfoldable pub st_fun_call_fun : Tnode → Option (Option ℕ)
unfolding chk_node_type
st_fun_call_fun t = do chk_node_type t SyntaxNodeType.fun_call; sym_tab_ptr (← payload t)

unfoldable pub st_fun_call_args : Tnode → Option Tnode
unfolding chk_node_type
st_fun_call_args t = do chk_node_type t SyntaxNodeType.fun_call; expr_ptr (← payload t)

unfoldable pub st_assg_lhs : Tnode → Option Tnode
unfolding chk_node_type
st_assg_lhs t = do chk_node_type t SyntaxNodeType.assg; l_child (← payload t)

unfoldable pub st_assg_rhs : Tnode → Option Tnode
unfolding chk_node_type
st_assg_rhs t = do chk_node_type t SyntaxNodeType.assg; r_child (← payload t)

unfoldable pub st_return : Tnode → Option Tnode
unfolding chk_node_type
st_return t = do chk_node_type t SyntaxNodeType.return_stmt; child0 (← payload t)

unfoldable pub st_for_init : Tnode → Option Tnode
unfolding chk_node_type
st_for_init t = do chk_node_type t SyntaxNodeType.for_stmt; child0 (← payload t)

unfoldable pub st_for_test : Tnode → Option Tnode
unfolding chk_node_type
st_for_test t = do chk_node_type t SyntaxNodeType.for_stmt; child1 (← payload t)

unfoldable pub st_for_update : Tnode → Option Tnode
unfolding chk_node_type
st_for_update t = do chk_node_type t SyntaxNodeType.for_stmt; child2 (← payload t)

unfoldable pub st_for_body : Tnode → Option Tnode
unfolding chk_node_type
st_for_body t = do chk_node_type t SyntaxNodeType.for_stmt; child3 (← payload t)

unfoldable pub st_while_test : Tnode → Option Tnode
unfolding chk_node_type
st_while_test t = do chk_node_type t SyntaxNodeType.while_stmt; child0 (← payload t)

unfoldable pub st_while_body : Tnode → Option Tnode
unfolding chk_node_type
st_while_body t = do chk_node_type t SyntaxNodeType.while_stmt; child1 (← payload t)

unfoldable pub st_if_test : Tnode → Option Tnode
unfolding chk_node_type
st_if_test t = do chk_node_type t SyntaxNodeType.if_stmt; child0 (← payload t)

unfoldable pub st_if_then : Tnode → Option Tnode
unfolding chk_node_type
st_if_then t = do chk_node_type t SyntaxNodeType.if_stmt; child1 (← payload t)

unfoldable pub st_if_else : Tnode → Option Tnode
unfolding chk_node_type
st_if_else t = do chk_node_type t SyntaxNodeType.if_stmt; child2 (← payload t)

unfoldable pub st_list_head : Tnode → Option Tnode
unfolding chk_node_type
st_list_head t = do chk_node_type t SyntaxNodeType.st_node_list; l_child (← payload t)

unfoldable pub st_list_rest : Tnode → Option Tnode
unfolding chk_node_type
st_list_rest t = do chk_node_type t SyntaxNodeType.st_node_list; r_child (← payload t)
