-- ===== src/SyntaxTree/Expressions.antt =====
-- SynTreeUnExp and SynTreeBinExp of syntax-tree.c: the types of expressions. `none` is a failed
-- assertion. The messages that go with an error node are not in the model.
pub mod Typing
pub mod Parts
use csc.Common.{Bool, true, false, Option, none, some, ◌&&◌, not, if◌then◌else◌}
use csc.Symbol.{SymType}
use csc.SyntaxTree.{Tnode, SyntaxNodeType, mk_expr_node, mk_error_node}

-- `t == t_Int || t == t_Char`.
abbrev pub is_integer : SymType → Bool
is_integer SymType.int = true
is_integer SymType.char = true
is_integer _ = false

abbrev pub is_bool : SymType → Bool
is_bool SymType.bool = true
is_bool _ = false

abbrev pub is_error_type : SyntaxNodeType → Bool
is_error_type SyntaxNodeType.error = true
is_error_type _ = false

-- The operand's type decides, or the operator is unknown.
un_exp : SyntaxNodeType → SymType → Tnode → Tnode
unfolding mk_expr_node mk_error_node
un_exp SyntaxNodeType.unary_minus t1 e1 =
    if not (is_integer t1)
    then mk_error_node
    else mk_expr_node SyntaxNodeType.unary_minus SymType.int e1 Tnode.null
un_exp SyntaxNodeType.logical_not t1 e1 =
    if not (is_bool t1)
    then mk_error_node
    else mk_expr_node SyntaxNodeType.logical_not SymType.bool e1 Tnode.null
un_exp _ t1 e1 = mk_error_node

unfoldable pub syn_tree_un_exp : SyntaxNodeType → Tnode → Option Tnode
unfolding un_exp
syn_tree_un_exp op Tnode.null = none
syn_tree_un_exp op (Tnode.node ty t1 v) =
    let e1 = Tnode.node ty t1 v in some (if is_error_type ty then e1 else un_exp op t1 e1)

-- The switch of SynTreeBinExp.
bin_exp : SyntaxNodeType → SymType → SymType → Tnode → Tnode → Tnode
unfolding mk_expr_node mk_error_node
bin_exp SyntaxNodeType.plus t1 t2 e1 e2 =
    if is_integer t1 && is_integer t2
    then mk_expr_node SyntaxNodeType.plus SymType.int e1 e2
    else mk_error_node
bin_exp SyntaxNodeType.binary_minus t1 t2 e1 e2 =
    if is_integer t1 && is_integer t2
    then mk_expr_node SyntaxNodeType.binary_minus SymType.int e1 e2
    else mk_error_node
bin_exp SyntaxNodeType.mult t1 t2 e1 e2 =
    if is_integer t1 && is_integer t2
    then mk_expr_node SyntaxNodeType.mult SymType.int e1 e2
    else mk_error_node
bin_exp SyntaxNodeType.div t1 t2 e1 e2 =
    if is_integer t1 && is_integer t2
    then mk_expr_node SyntaxNodeType.div SymType.int e1 e2
    else mk_error_node
bin_exp SyntaxNodeType.equals t1 t2 e1 e2 =
    if is_integer t1 && is_integer t2
    then mk_expr_node SyntaxNodeType.equals SymType.bool e1 e2
    else mk_error_node
bin_exp SyntaxNodeType.neq t1 t2 e1 e2 =
    if is_integer t1 && is_integer t2
    then mk_expr_node SyntaxNodeType.neq SymType.bool e1 e2
    else mk_error_node
bin_exp SyntaxNodeType.leq t1 t2 e1 e2 =
    if is_integer t1 && is_integer t2
    then mk_expr_node SyntaxNodeType.leq SymType.bool e1 e2
    else mk_error_node
bin_exp SyntaxNodeType.lt t1 t2 e1 e2 =
    if is_integer t1 && is_integer t2
    then mk_expr_node SyntaxNodeType.lt SymType.bool e1 e2
    else mk_error_node
bin_exp SyntaxNodeType.geq t1 t2 e1 e2 =
    if is_integer t1 && is_integer t2
    then mk_expr_node SyntaxNodeType.geq SymType.bool e1 e2
    else mk_error_node
bin_exp SyntaxNodeType.gt t1 t2 e1 e2 =
    if is_integer t1 && is_integer t2
    then mk_expr_node SyntaxNodeType.gt SymType.bool e1 e2
    else mk_error_node
bin_exp SyntaxNodeType.logical_and t1 t2 e1 e2 =
    if is_bool t1 && is_bool t2
    then mk_expr_node SyntaxNodeType.logical_and SymType.bool e1 e2
    else mk_error_node
bin_exp SyntaxNodeType.logical_or t1 t2 e1 e2 =
    if is_bool t1 && is_bool t2
    then mk_expr_node SyntaxNodeType.logical_or SymType.bool e1 e2
    else mk_error_node
bin_exp _ t1 t2 e1 e2 = mk_error_node

unfoldable pub syn_tree_bin_exp : SyntaxNodeType → Tnode → Tnode → Option Tnode
unfolding bin_exp
syn_tree_bin_exp op Tnode.null e2 = none
syn_tree_bin_exp op e1 Tnode.null = none
syn_tree_bin_exp op (Tnode.node ty1 t1 v1) (Tnode.node ty2 t2 v2) =
    let e1 = Tnode.node ty1 t1 v1 in
    let e2 = Tnode.node ty2 t2 v2 in
    some
      (if is_error_type ty1 then e1 else if is_error_type ty2 then e2 else bin_exp op t1 t2 e1 e2)
