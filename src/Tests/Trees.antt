-- ===== src/Tests/Trees.antt =====
-- Expressions, calls and function bodies as the parser builds them.
use csc.Common.{true, false, none, some, [], ◌∷◌, ◌≡◌, refl, ◌==◌, if◌then◌else◌, ◌>>=◌, ◌↔◌}
use csc.Symbol.{zero_symbol, SymType, Scope, Symbols}
use csc.SyntaxTree.{Tnode, SyntaxNodeType, Val, mk_expr_node}
use csc.SyntaxTree.Expressions.{syn_tree_bin_exp}
use csc.SyntaxTree.Expressions.Typing.{Expression, build, type_of_node, IsTyped}
use csc.SyntaxTree.Expressions.Typing.Exact.{build_exact}
use csc.SyntaxTree.Expressions.Parts.{operands_kept, IsBinaryOf}
use csc.SyntaxTree.Body.{append_return}
use csc.SyntaxTree.Body.Ends.{list_of, with_return, append_return_ends}

-- `'a' + 1 < 2`
abbrev less : Expression
less =
    Expression.binary SyntaxNodeType.lt
      (Expression.binary SyntaxNodeType.plus (Expression.operand SymType.char (Val.iconst 97))
        (Expression.operand SymType.int (Val.iconst 1)))
      (Expression.operand SymType.int (Val.iconst 2))

build_exact_example :
    ((build less >>= type_of_node) ≡ some SymType.bool) ↔ IsTyped less SymType.bool
build_exact_example = build_exact less SymType.bool

-- Address 0 is an array of characters, the others are integers.
abbrev symbols : Symbols
symbols a = record zero_symbol {
  scope = Scope.local;
  formal = true;
  type = if a == 0 then SymType.array else SymType.int;
  elt_type = if a == 0 then SymType.char else SymType.none;
  is_temporary = false;
  is_constant = false;
  const_val = 0;
  id = 0;
}

abbrev one : Tnode
one = Tnode.node SyntaxNodeType.intcon SymType.int (Val.iconst 1)

abbrev text : Tnode
text = Tnode.node SyntaxNodeType.stringcon SymType.array (Val.strconst "text")

abbrev statement : Tnode
statement = Tnode.node SyntaxNodeType.assg SymType.none (Val.expr_node one one)

append_return_ends_example :
    append_return (list_of (statement ∷ [])) ≡ some (with_return statement [] false)
append_return_ends_example = append_return_ends statement []

-- `int f() { ; }` reads through a null pointer.
append_return_semicolon : append_return (list_of (statement ∷ Tnode.null ∷ [])) ≡ none
append_return_semicolon = append_return_ends statement (Tnode.null ∷ [])

abbrev sum : Tnode
unfolding mk_expr_node
sum = mk_expr_node SyntaxNodeType.plus SymType.int one one

operands_kept_example : IsBinaryOf sum one one
unfolding syn_tree_bin_exp mk_expr_node
operands_kept_example =
    operands_kept SyntaxNodeType.plus one one SymType.int SymType.int SymType.int sum refl refl refl
      refl
