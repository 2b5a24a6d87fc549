-- ===== src/Stack.antt =====
-- stack.c: the stack of graph nodes. A stack is the list of its items from the top; an item's node
-- is an address, or none for NULL.
use csc.Common.{ℕ, ◌≡◌, refl, Option, none, some, List, [], ◌∷◌, Bool, true, false, if◌then◌else◌}

-- The new item gets its node and its successor only where the stack is not empty.
unfoldable pub push_to_graph_node_stack : ℕ → List (Option ℕ) → List (Option ℕ)
push_to_graph_node_stack node [] = none ∷ []
push_to_graph_node_stack node (top ∷ rest) = some node ∷ top ∷ rest

unfoldable pub pop_from_graph_node_stack : List (Option ℕ) → List (Option ℕ)
pop_from_graph_node_stack [] = []
pop_from_graph_node_stack (top ∷ rest) = rest

-- The node that an item at the top carries.
abbrev pub top_node : List (Option ℕ) → Option ℕ
top_node [] = none
top_node (top ∷ rest) = top

abbrev pub is_empty : List (Option ℕ) → Bool
is_empty [] = true
is_empty (top ∷ rest) = false

-- A push and a pop leave the stack as it was; between them the top carries the pushed node,
-- except on an empty stack, where the node is lost.
pub pop-push :
    (node : ℕ) (stack : List (Option ℕ))
    → (pop_from_graph_node_stack (push_to_graph_node_stack node stack) ≡ stack)
      × (top_node (push_to_graph_node_stack node stack)
          ≡ (if is_empty stack then none else some node))
unfolding pop_from_graph_node_stack push_to_graph_node_stack
pop-push node [] = (refl, refl)
pop-push node (top ∷ rest) = (refl, refl)
