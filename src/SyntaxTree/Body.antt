-- ===== src/SyntaxTree/Body.antt =====
-- AppendReturn of syntax-tree.c. The last cell of the list is changed in place, so the result is
-- the list with that cell rebuilt; `none` is a read through a null pointer.
pub mod Ends
use csc.Common.{Bool, true, false, Option, none, some, if◌then◌else◌, ◌>>=◌, ◌>>◌, not, ◌&&◌}
use csc.Symbol.{SymType}
use csc.SyntaxTree.{Tnode, SyntaxNodeType, Val, ntype, l_child, mk_st_node, mk_list_node, is_null}

abbrev pub is_return : SyntaxNodeType → Bool
is_return SyntaxNodeType.return_stmt = true
is_return _ = false

abbrev pub is_list : SyntaxNodeType → Bool
is_list SyntaxNodeType.st_node_list = true
is_list _ = false

unfoldable pub return_node : Tnode
unfolding mk_st_node
return_node =
    mk_st_node SyntaxNodeType.return_stmt SymType.none Tnode.null Tnode.null Tnode.null Tnode.null

unfoldable pub return_list : Tnode
unfolding return_node mk_list_node
return_list = mk_list_node return_node Tnode.null

-- `ListNext(tmp1) = tmp0`, where the union holds two nodes or more.
set_list_next : Val → Tnode → Option Val
set_list_next (Val.expr_node l r) tmp0 = some (Val.expr_node l tmp0)
set_list_next (Val.stmt_node c0 c1 c2 c3) tmp0 = some (Val.stmt_node c0 tmp0 c2 c3)
set_list_next _ tmp0 = none

-- The test and the change at the last cell.
end_cell : SyntaxNodeType → SymType → Val → Option Tnode
unfolding return_list set_list_next
end_cell ty ety v = do
  hd ← l_child v
  head_type ← ntype hd
  (if is_return head_type
      then some (Tnode.node ty ety v)
      else (set_list_next v return_list >>= λ changed. some (Tnode.node ty ety changed)))

-- The walk to the last cell.
append_loop : Tnode → Option Tnode
unfolding end_cell
append_loop Tnode.null = none
append_loop (Tnode.node ty ety (Val.expr_node hd next)) =
    let rest = append_loop next in
    if is_list ty && not (is_null next)
    then (rest >>= λ walked. some (Tnode.node ty ety (Val.expr_node hd walked)))
    else end_cell ty ety (Val.expr_node hd next)
append_loop (Tnode.node ty ety v) = end_cell ty ety v

unfoldable pub append_return : Tnode → Option Tnode
unfolding append_loop return_node
append_return Tnode.null = some return_node
append_return t = append_loop t
