-- ===== src/SyntaxTree/Body/Ends.antt =====
-- What AppendReturn does to the list of statements of a function's body.
use csc.Common.{
  Bool, true, false, Option, none, some, if◌then◌else◌, List, [], ◌∷◌, ◌++◌, ◌≡◌, refl, ap, arith,
  ◌>>=◌, ◌∙◌,
}
use csc.SyntaxTree.{Tnode, mk_list_node}
use csc.SyntaxTree.Body.{
  append_return, append_loop, end_cell, set_list_next, return_node, return_list, is_return,
}

-- The list node that the parser builds for statements.
abbrev pub list_of : List Tnode → Tnode
unfolding mk_list_node
list_of [] = Tnode.null
list_of (t ∷ ts) = mk_list_node t (list_of ts)

-- The last statement: `none` is a null pointer, which `;` and `{}` parse to.
abbrev pub is_return_node : Tnode → Option Bool
is_return_node Tnode.null = none
is_return_node (Tnode.node ty ety v) = some (is_return ty)

abbrev pub last_is_return : Tnode → List Tnode → Option Bool
last_is_return t [] = is_return_node t
last_is_return t (u ∷ us) = last_is_return u us

abbrev pub with_return : Tnode → List Tnode → Bool → Tnode
unfolding mk_list_node return_node
with_return t ts done = if done then list_of (t ∷ ts) else list_of (t ∷ ts ++ (return_node ∷ []))

cons_with_return :
    (t u : Tnode) (us : List Tnode) (last : Option Bool)
    → ((last >>= λ done. some (with_return u us done)) >>= λ walked. some (mk_list_node t walked))
      ≡ (last >>= λ done. some (with_return t (u ∷ us) done))
unfolding with_return mk_list_node
cons_with_return t u us none = refl
cons_with_return t u us (some true) = refl
cons_with_return t u us (some false) = refl

-- AppendReturn reads through a null pointer exactly when the last statement of the body is one.
-- Otherwise it keeps a body that ends in a return, and appends one return to any other.
pub append_return_ends :
    (t : Tnode) (ts : List Tnode)
    → append_return (list_of (t ∷ ts))
      ≡ (last_is_return t ts >>= λ done. some (with_return t ts done))
unfolding append_return append_loop end_cell set_list_next return_node return_list mk_list_node
append_return_ends Tnode.null [] = refl
append_return_ends (Tnode.node ty ety v) [] = ground arith
append_return_ends t (u ∷ us) =
    ap (λ o. o >>= λ walked. some (mk_list_node t walked)) (append_return_ends u us)
    ∙ cons_with_return t u us (last_is_return u us)
