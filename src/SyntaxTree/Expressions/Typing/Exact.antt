-- ===== src/SyntaxTree/Expressions/Typing/Exact.antt =====
-- The typing rules against the types of the built trees, in both directions.
use csc.Common.{
  Bool, true, false, none, some, ◌≡◌, refl, ◌>>=◌, ◌&&◌, inl, inr, ◌↔◌, if◌then◌else◌, arith,
  Option-cases, ◌∙◌, subst, sym,
}
use mathlib.Core.Option.{some-injective}
use csc.Symbol.{SymType}
use csc.SyntaxTree.{SyntaxNodeType}
use csc.SyntaxTree.Expressions.{is_integer, is_bool}
use csc.SyntaxTree.Expressions.Typing.{
  Expression, build, build_type, infer, IsTyped, Signature, signature, unary_type, binary_type,
  type_of_node,
}

yields :
    {x t : SymType} (test : Bool)
    → (if test then some x else none) ≡ some t
    → (test ≡ true) × (x ≡ t)
yields true e = (refl, some-injective _ _ e)
yields false e = ground arith

both : (a b : Bool) → (a && b) ≡ true → (a ≡ true) × (b ≡ true)
both a b h = ground arith

is_bool_only : (t : SymType) → is_bool t ≡ true → t ≡ SymType.bool
is_bool_only SymType.bool h = refl
is_bool_only _ h = ground arith

unary_rule :
    (op : SyntaxNodeType) (a : Expression) (s t : SymType)
    → IsTyped a s
    → unary_type op s ≡ some t
    → IsTyped (Expression.unary op a) t
unary_rule SyntaxNodeType.unary_minus a s t d e =
    let (integer, result) = yields (is_integer s) e in
    subst (IsTyped _) result (IsTyped.negation d integer)
unary_rule SyntaxNodeType.logical_not a s t d e =
    let (test, result) = yields (is_bool s) e in
    subst (IsTyped _) result (IsTyped.complement (subst (IsTyped a) (is_bool_only s test) d))
unary_rule _ a s t d e = ground arith

binary_rule :
    (op : SyntaxNodeType) (a b : Expression) (s u t : SymType) (rule : Signature)
    → signature op ≡ rule
    → IsTyped a s
    → IsTyped b u
    → binary_type rule s u ≡ some t
    → IsTyped (Expression.binary op a b) t
binary_rule op a b s u t Signature.arithmetic r d1 d2 e =
    let (integers, result) = yields (is_integer s && is_integer u) e in
    let (left, right) = both (is_integer s) (is_integer u) integers in
    subst (IsTyped _) result (IsTyped.arithmetic r d1 left d2 right)
binary_rule op a b s u t Signature.comparison r d1 d2 e =
    let (integers, result) = yields (is_integer s && is_integer u) e in
    let (left, right) = both (is_integer s) (is_integer u) integers in
    subst (IsTyped _) result (IsTyped.comparison r d1 left d2 right)
binary_rule op a b s u t Signature.connective r d1 d2 e =
    let (tests, result) = yields (is_bool s && is_bool u) e in
    let (left, right) = both (is_bool s) (is_bool u) tests in
    subst (IsTyped _) result (
      IsTyped.connective r (subst (IsTyped a) (is_bool_only s left) d1)
        (subst (IsTyped b) (is_bool_only u right) d2))
binary_rule op a b s u t Signature.unknown r d1 d2 e = ground arith

infer_sound : (e : Expression) (t : SymType) → infer e ≡ some t → IsTyped e t
unfolding infer
infer_sound (Expression.operand s v) t h =
    subst (IsTyped _) (some-injective _ _ h) IsTyped.from_operand
infer_sound (Expression.unary op a) t h = elim (Option-cases (infer a)) [
  | inl n ↦ ground (arith, n)
  | inr (s, n) ↦ unary_rule op a s t (infer_sound a s n) (rw n at h)
]
infer_sound (Expression.binary op a b) t h = elim (Option-cases (infer a)) [
  | inl n ↦ ground (arith, n)
  | inr (s, n) ↦ elim (Option-cases (infer b)) [
    | inl m ↦ ground (arith, n, m)
    | inr (u, m) ↦
        binary_rule op a b s u t (signature op) refl (infer_sound a s n) (infer_sound b u m)
          (rw (n, m) at h)
  ]
]

infer_complete : (e : Expression) (t : SymType) → IsTyped e t → infer e ≡ some t
unfolding infer
infer_complete _ _ IsTyped.from_operand = refl
infer_complete _ _ (IsTyped.negation {a = a} d integer) =
    rw (infer_complete _ _ d) (rw integer refl)
infer_complete _ _ (IsTyped.complement d) = rw (infer_complete _ _ d) refl
infer_complete _ _ (IsTyped.arithmetic {op = op} r d1 p d2 q) =
    rw (infer_complete _ _ d1, infer_complete _ _ d2, r) (rw (p, q) refl)
infer_complete _ _ (IsTyped.comparison {op = op} r d1 p d2 q) =
    rw (infer_complete _ _ d1, infer_complete _ _ d2, r) (rw (p, q) refl)
infer_complete _ _ (IsTyped.connective {op = op} r d1 d2) =
    rw (infer_complete _ _ d1, infer_complete _ _ d2, r) refl

-- The tree that the checks build for an expression has type `t`, and is no error node, exactly when the rules of
-- the language give the expression type `t`.
pub build_exact :
    (e : Expression) (t : SymType) → ((build e >>= type_of_node) ≡ some t) ↔ IsTyped e t
build_exact e t =
    (λ h. infer_sound e t (sym (build_type e) ∙ h), λ d. build_type e ∙ infer_complete e t d)
