-- ===== src/SyntaxTree/Expressions/Parts.antt =====
-- The accessors read back what the checks and the constructors put into a tree.
use csc.Common.{
  Bool, true, false, some, ◌≡◌, refl, arith, Bool-cases, inl, inr, if◌then◌else◌, ◌&&◌, subst,
}
use mathlib.Core.Option.{some-injective}
use csc.Symbol.{SymType}
use csc.SyntaxTree.{Tnode, SyntaxNodeType, mk_expr_node, mk_error_node, mk_st_node}
use csc.SyntaxTree.Access.{st_binop_op1, st_binop_op2}
use csc.SyntaxTree.Expressions.{is_integer, is_bool, is_error_type, syn_tree_bin_exp, bin_exp}
use csc.SyntaxTree.Expressions.Typing.{type_of_node}

abbrev pub IsBinaryOf : Tnode → Tnode → Tnode → Type 0
IsBinaryOf e e1 e2 = (st_binop_op1 e ≡ some e1) × (st_binop_op2 e ≡ some e2)

choice :
    (ty : SyntaxNodeType) (s r : SymType) (test : Bool) (a b : Tnode)
    → type_of_node (if test then mk_expr_node ty s a b else mk_error_node) ≡ some r
    → (P : Tnode → Type 0) → P (mk_expr_node ty s a b)
    → P (if test then mk_expr_node ty s a b else mk_error_node)
unfolding mk_error_node mk_st_node
choice ty s r true a b h P p = p
choice ty s r false a b h P p = ground arith

kept :
    (op : SyntaxNodeType) (t u r : SymType) (a b : Tnode)
    → type_of_node (bin_exp op t u a b) ≡ some r
    → IsBinaryOf (bin_exp op t u a b) a b
unfolding bin_exp mk_error_node mk_st_node mk_expr_node st_binop_op1 st_binop_op2
kept SyntaxNodeType.plus t u r a b h =
    choice SyntaxNodeType.plus SymType.int r (is_integer t && is_integer u) a b h
      (λ e. IsBinaryOf e a b) (refl, refl)
kept SyntaxNodeType.binary_minus t u r a b h =
    choice SyntaxNodeType.binary_minus SymType.int r (is_integer t && is_integer u) a b h
      (λ e. IsBinaryOf e a b) (refl, refl)
kept SyntaxNodeType.mult t u r a b h =
    choice SyntaxNodeType.mult SymType.int r (is_integer t && is_integer u) a b h
      (λ e. IsBinaryOf e a b) (refl, refl)
kept SyntaxNodeType.div t u r a b h =
    choice SyntaxNodeType.div SymType.int r (is_integer t && is_integer u) a b h
      (λ e. IsBinaryOf e a b) (refl, refl)
kept SyntaxNodeType.equals t u r a b h =
    choice SyntaxNodeType.equals SymType.bool r (is_integer t && is_integer u) a b h
      (λ e. IsBinaryOf e a b) (refl, refl)
kept SyntaxNodeType.neq t u r a b h =
    choice SyntaxNodeType.neq SymType.bool r (is_integer t && is_integer u) a b h
      (λ e. IsBinaryOf e a b) (refl, refl)
kept SyntaxNodeType.leq t u r a b h =
    choice SyntaxNodeType.leq SymType.bool r (is_integer t && is_integer u) a b h
      (λ e. IsBinaryOf e a b) (refl, refl)
kept SyntaxNodeType.lt t u r a b h =
    choice SyntaxNodeType.lt SymType.bool r (is_integer t && is_integer u) a b h
      (λ e. IsBinaryOf e a b) (refl, refl)
kept SyntaxNodeType.geq t u r a b h =
    choice SyntaxNodeType.geq SymType.bool r (is_integer t && is_integer u) a b h
      (λ e. IsBinaryOf e a b) (refl, refl)
kept SyntaxNodeType.gt t u r a b h =
    choice SyntaxNodeType.gt SymType.bool r (is_integer t && is_integer u) a b h
      (λ e. IsBinaryOf e a b) (refl, refl)
kept SyntaxNodeType.logical_and t u r a b h =
    choice SyntaxNodeType.logical_and SymType.bool r (is_bool t && is_bool u) a b h
      (λ e. IsBinaryOf e a b) (refl, refl)
kept SyntaxNodeType.logical_or t u r a b h =
    choice SyntaxNodeType.logical_or SymType.bool r (is_bool t && is_bool u) a b h
      (λ e. IsBinaryOf e a b) (refl, refl)
kept _ t u r a b h = ground arith

-- The two operands of a binary expression that the checks accept are read back from its tree.
pub operands_kept :
    (op : SyntaxNodeType) (e1 e2 : Tnode) (t u r : SymType) (e : Tnode)
    → type_of_node e1 ≡ some t
    → type_of_node e2 ≡ some u
    → syn_tree_bin_exp op e1 e2 ≡ some e
    → type_of_node e ≡ some r
    → IsBinaryOf e e1 e2
unfolding syn_tree_bin_exp
operands_kept op Tnode.null e2 t u r e h1 h2 s h = ground arith
operands_kept op (Tnode.node ty1 t1 v1) Tnode.null t u r e h1 h2 s h = ground arith
operands_kept op (Tnode.node ty1 t1 v1) (Tnode.node ty2 t2 v2) t u r e h1 h2 s h =
    elim (Bool-cases (is_error_type ty1)) [
      | inl x ↦ ground arith
      | inr x ↦ elim (Bool-cases (is_error_type ty2)) [
        | inl y ↦ ground arith
        | inr y ↦
            let built : bin_exp op t1 t2 (Tnode.node ty1 t1 v1) (Tnode.node ty2 t2 v2) ≡ e =
              some-injective _ _ (simp (x, y) at s) in
            subst (λ c. IsBinaryOf c (Tnode.node ty1 t1 v1) (Tnode.node ty2 t2 v2)) built
              (kept op t1 t2 r _ _ (rw built h))
      ]
    ]
