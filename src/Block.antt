-- ===== src/Block.antt =====
-- block.c: the list of created blocks and the edges between them. A block is its address; the
-- file's static variables are in the state.
pub mod Edges
use csc.Common.{ℕ, suc, ◌+◌, Bool, Option, none, some, List, [], ◌∷◌, ◌==◌, if◌then◌else◌, ◌>>=◌}

pub record Blocks : Type 0 where
  pub id : ℕ → ℕ
  pub children : ℕ → List ℕ
  pub parents : ℕ → List ℕ
  pub fresh : ℕ
  pub block_id : ℕ
  pub created_blocks : List ℕ

-- A store to a field of one block.
abbrev pub set_field {ℓ} : {A : Type ℓ} → (ℕ → A) → ℕ → A → ℕ → A
set_field field b x c = if b == c then x else field c

unfoldable pub create_block : Blocks → ℕ × Blocks
create_block st =
    let block = st.fresh in
    (
      block,
      record {
        id = set_field st.id block st.block_id;
        children = set_field st.children block [];
        parents = set_field st.parents block [];
        fresh = suc st.fresh;
        block_id = suc st.block_id;
        created_blocks = block ∷ st.created_blocks;
      },
    )

-- `none` is a write through a null pointer.
unfoldable pub connect_blocks : Option ℕ → Option ℕ → Blocks → Option Blocks
connect_blocks none none st = some st
connect_blocks none (some c) st = none
connect_blocks (some p) none st = none
connect_blocks (some p) (some c) st = some (record st {
  children = set_field st.children p (c ∷ st.children p);
  parents = set_field st.parents c (p ∷ st.parents c);
})

unfoldable pub clear_created_blocks : Blocks → Blocks
clear_created_blocks st = record st { block_id = 0; created_blocks = [] }

unfoldable pub get_num_created_blocks : Blocks → ℕ
get_num_created_blocks st = st.block_id + 1

unfoldable pub get_all_blocks : Blocks → List ℕ
get_all_blocks st = st.created_blocks
