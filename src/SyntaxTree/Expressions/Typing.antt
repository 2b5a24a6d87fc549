-- ===== src/SyntaxTree/Expressions/Typing.antt =====
-- The types that the rules of the language give to expressions, against the trees that
-- SynTreeUnExp and SynTreeBinExp build for them.
pub mod Exact
use csc.Common.{
  Bool, true, false, Option, none, some, ◌≡◌, refl, ◌>>=◌, ◌&&◌, ◌⊎◌, inl, inr, ◌↔◌, if◌then◌else◌,
  not, arith, ap, Bool-cases, Option-cases, ◌∙◌, subst, sym,
}
use mathlib.Core.Option.{some-injective}
use csc.Symbol.{SymType}
use csc.SyntaxTree.{Tnode, SyntaxNodeType, Val, mk_expr_node, mk_error_node, mk_st_node}
use csc.SyntaxTree.Expressions.{
  is_integer, is_bool, is_error_type, syn_tree_un_exp, syn_tree_bin_exp, un_exp, bin_exp,
}

-- Expressions before they are checked: operators over operands that are constants, variables,
-- elements and calls, of the type that their node carries.
pub data Expression : Type 0 where
  operand : SymType → Val → Expression
  unary : SyntaxNodeType → Expression → Expression
  binary : SyntaxNodeType → Expression → Expression → Expression

-- The parser's actions on expressions.
pub build : Expression → Option Tnode
build (Expression.operand t v) = some (Tnode.node SyntaxNodeType.var t v)
build (Expression.unary op a) = do e1 ← build a; syn_tree_un_exp op e1
build (Expression.binary op a b) = do e1 ← build a; e2 ← build b; syn_tree_bin_exp op e1 e2

pub data Signature : Type 0 where
  arithmetic comparison connective unknown : Signature

-- Which operators there are.
abbrev pub signature : SyntaxNodeType → Signature
signature SyntaxNodeType.plus = Signature.arithmetic
signature SyntaxNodeType.binary_minus = Signature.arithmetic
signature SyntaxNodeType.mult = Signature.arithmetic
signature SyntaxNodeType.div = Signature.arithmetic
signature SyntaxNodeType.equals = Signature.comparison
signature SyntaxNodeType.neq = Signature.comparison
signature SyntaxNodeType.leq = Signature.comparison
signature SyntaxNodeType.lt = Signature.comparison
signature SyntaxNodeType.geq = Signature.comparison
signature SyntaxNodeType.gt = Signature.comparison
signature SyntaxNodeType.logical_and = Signature.connective
signature SyntaxNodeType.logical_or = Signature.connective
signature _ = Signature.unknown

-- The typing rules: characters count as integers, a test is no integer.
pub data IsTyped : Expression → SymType → Type 0 where
  from_operand : {t : SymType} {v : Val} → IsTyped (Expression.operand t v) t
  negation :
      {a : Expression} {t : SymType}
      → IsTyped a t
      → is_integer t ≡ true
      → IsTyped (Expression.unary SyntaxNodeType.unary_minus a) SymType.int
  complement :
      {a : Expression}
      → IsTyped a SymType.bool
      → IsTyped (Expression.unary SyntaxNodeType.logical_not a) SymType.bool
  arithmetic :
      {op : SyntaxNodeType} {a b : Expression} {t u : SymType}
      → signature op ≡ Signature.arithmetic
      → IsTyped a t
      → is_integer t ≡ true
      → IsTyped b u
      → is_integer u ≡ true
      → IsTyped (Expression.binary op a b) SymType.int
  comparison :
      {op : SyntaxNodeType} {a b : Expression} {t u : SymType}
      → signature op ≡ Signature.comparison
      → IsTyped a t
      → is_integer t ≡ true
      → IsTyped b u
      → is_integer u ≡ true
      → IsTyped (Expression.binary op a b) SymType.bool
  connective :
      {op : SyntaxNodeType} {a b : Expression}
      → signature op ≡ Signature.connective
      → IsTyped a SymType.bool
      → IsTyped b SymType.bool
      → IsTyped (Expression.binary op a b) SymType.bool

-- The type of a tree that is no error node.
abbrev pub type_of_node : Tnode → Option SymType
type_of_node Tnode.null = none
type_of_node (Tnode.node ty t v) = if is_error_type ty then none else some t

abbrev pub unary_type : SyntaxNodeType → SymType → Option SymType
unary_type SyntaxNodeType.unary_minus t = if is_integer t then some SymType.int else none
unary_type SyntaxNodeType.logical_not t = if is_bool t then some SymType.bool else none
unary_type _ t = none

abbrev pub binary_type : Signature → SymType → SymType → Option SymType
binary_type Signature.arithmetic t u =
    if is_integer t && is_integer u then some SymType.int else none
binary_type Signature.comparison t u =
    if is_integer t && is_integer u then some SymType.bool else none
binary_type Signature.connective t u = if is_bool t && is_bool u then some SymType.bool else none
binary_type Signature.unknown t u = none

type_of_error : type_of_node mk_error_node ≡ none
unfolding mk_error_node mk_st_node
type_of_error = refl

un_exp_type :
    (op : SyntaxNodeType) (t : SymType) (e : Tnode) → type_of_node (un_exp op t e) ≡ unary_type op t
unfolding un_exp mk_error_node mk_st_node mk_expr_node
un_exp_type SyntaxNodeType.unary_minus t e = ground arith
un_exp_type SyntaxNodeType.logical_not t e = ground arith
un_exp_type _ t e = refl

bin_exp_type :
    (op : SyntaxNodeType) (t u : SymType) (a b : Tnode)
    → type_of_node (bin_exp op t u a b) ≡ binary_type (signature op) t u
unfolding bin_exp mk_error_node mk_st_node mk_expr_node
bin_exp_type SyntaxNodeType.plus t u a b = ground arith
bin_exp_type SyntaxNodeType.binary_minus t u a b = ground arith
bin_exp_type SyntaxNodeType.mult t u a b = ground arith
bin_exp_type SyntaxNodeType.div t u a b = ground arith
bin_exp_type SyntaxNodeType.equals t u a b = ground arith
bin_exp_type SyntaxNodeType.neq t u a b = ground arith
bin_exp_type SyntaxNodeType.leq t u a b = ground arith
bin_exp_type SyntaxNodeType.lt t u a b = ground arith
bin_exp_type SyntaxNodeType.geq t u a b = ground arith
bin_exp_type SyntaxNodeType.gt t u a b = ground arith
bin_exp_type SyntaxNodeType.logical_and t u a b = ground arith
bin_exp_type SyntaxNodeType.logical_or t u a b = ground arith
bin_exp_type _ t u a b = refl

-- A built tree has the type that the rule of its operator gives to the types of its operands.
unary_build :
    (op : SyntaxNodeType) (e : Tnode)
    → (syn_tree_un_exp op e >>= type_of_node) ≡ (type_of_node e >>= unary_type op)
unfolding syn_tree_un_exp
unary_build op Tnode.null = refl
unary_build op (Tnode.node ty t v) = elim (Bool-cases (is_error_type ty)) [
  | inl h ↦ simp h refl
  | inr h ↦ simp h (un_exp_type op t (Tnode.node ty t v))
]

binary_build :
    (op : SyntaxNodeType) (e1 e2 : Tnode)
    → (syn_tree_bin_exp op e1 e2 >>= type_of_node)
      ≡ (type_of_node e1 >>= λ t. type_of_node e2 >>= λ u. binary_type (signature op) t u)
unfolding syn_tree_bin_exp
binary_build op Tnode.null e2 = refl
binary_build op (Tnode.node ty1 t v1) Tnode.null = ground arith
binary_build op (Tnode.node ty1 t v1) (Tnode.node ty2 u v2) =
    elim (Bool-cases (is_error_type ty1)) [
      | inl h ↦ simp h refl
      | inr h ↦ elim (Bool-cases (is_error_type ty2)) [
        | inl k ↦ simp (h, k) refl
        | inr k ↦ simp (h, k) (bin_exp_type op t u (Tnode.node ty1 t v1) (Tnode.node ty2 u v2))
      ]
    ]

-- The type of an expression, from the types of its parts.
unfoldable pub infer : Expression → Option SymType
infer (Expression.operand t v) = some t
infer (Expression.unary op a) = infer a >>= unary_type op
infer (Expression.binary op a b) = infer a >>= λ t. infer b >>= λ u. binary_type (signature op) t u

unary_chain :
    (op : SyntaxNodeType) (o : Option Tnode)
    → ((o >>= syn_tree_un_exp op) >>= type_of_node) ≡ ((o >>= type_of_node) >>= unary_type op)
unary_chain op none = refl
unary_chain op (some e) = unary_build op e

binary_chain :
    (op : SyntaxNodeType) (o p : Option Tnode)
    → ((o >>= λ e1. p >>= λ e2. syn_tree_bin_exp op e1 e2) >>= type_of_node)
      ≡ ((o >>= type_of_node) >>= λ t. (p >>= type_of_node) >>= λ u. binary_type (signature op) t u)
binary_chain op none p = refl
binary_chain op (some e1) none = ground arith
binary_chain op (some e1) (some e2) = binary_build op e1 e2

pub build_type : (e : Expression) → (build e >>= type_of_node) ≡ infer e
unfolding build infer
build_type (Expression.operand t v) = refl
build_type (Expression.unary op a) =
    unary_chain op (build a) ∙ ap (λ o. o >>= unary_type op) (build_type a)
build_type (Expression.binary op a b) =
    binary_chain op (build a) (build b) ∙ rw (build_type a, build_type b) refl
