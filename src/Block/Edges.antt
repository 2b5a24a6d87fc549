-- ===== src/Block/Edges.antt =====
-- What holds after any calls of block.c.
use csc.Common.{
  ℕ, suc, ◌<◌, ◌≡◌, refl, sym, ap, ◌∙◌, true, false, ◌||◌, ◌&&◌, subst, some, List, [], ◌∷◌, ◌==◌,
  ==→eq, length, mem, arith, Bool-cases, inl, inr,
}
use mathlib.Core.Option.{some-injective}
use csc.Block.{
  Blocks, set_field, create_block, connect_blocks, clear_created_blocks, get_num_created_blocks,
  get_all_blocks,
}

abbrev pub start : Blocks
start = record {
  id = λ b. 0;
  children = λ b. [];
  parents = λ b. [];
  fresh = 0;
  block_id = 0;
  created_blocks = [];
}

-- The states that calls lead to. Edges are made between blocks that exist.
pub data Reached : Blocks → Type 0 where
  started : Reached start
  created : {st : Blocks} → Reached st → Reached (create_block st).1
  connected :
      {st after : Blocks} {p c : ℕ}
      → Reached st
      → p < st.fresh
      → c < st.fresh
      → connect_blocks (some p) (some c) st ≡ some after
      → Reached after
  cleared : {st : Blocks} → Reached st → Reached (clear_created_blocks st)

-- The edges are stored at both ends, between blocks that exist.
pub record IsLinked (st : Blocks) : Type 0 where
  pub mirrored : (p c : ℕ) → mem c (st.children p) ≡ mem p (st.parents c)
  pub existing_child : (p c : ℕ) → mem c (st.children p) ≡ true → p < st.fresh
  pub existing_parent : (p c : ℕ) → mem p (st.parents c) ≡ true → c < st.fresh
  pub counted : length st.created_blocks ≡ st.block_id

start-IsLinked : IsLinked start
start-IsLinked = record {
  mirrored = λ p c. refl;
  existing_child = λ p c m. ground arith;
  existing_parent = λ p c m. ground arith;
  counted = refl;
}

emptied :
    (f : ℕ → List ℕ) (b x y : ℕ) → mem x (f b) ≡ false → mem x (set_field f b [] y) ≡ mem x (f y)
emptied f b x y h = elim (Bool-cases (b == y)) [
  | inl e ↦ let same : b ≡ y = ==→eq b y e in rw e (sym h ∙ ap (λ z. mem x (f z)) same)
  | inr e ↦ rw e refl
]

pub extended :
    (f : ℕ → List ℕ) (b a x y : ℕ)
    → mem x (set_field f b (a ∷ f b) y) ≡ ((b == y && a == x) || mem x (f y))
extended f b a x y = elim (Bool-cases (b == y)) [
  | inl e ↦ let same : b ≡ y = ==→eq b y e in rw (e, same) refl
  | inr e ↦ rw e refl
]

-- A new block has no edges, at either end.
create-IsLinked : (st : Blocks) → IsLinked st → IsLinked (create_block st).1
unfolding create_block
create-IsLinked st h = record {
  mirrored = λ p c.
      emptied st.children st.fresh c p (no_child c)
      ∙ h.mirrored p c
      ∙ sym (emptied st.parents st.fresh p c (no_parent p));
  existing_child =
      λ p c m. ground (arith, emptied st.children st.fresh c p (no_child c), h.existing_child p c);
  existing_parent =
      λ p c m. ground (arith, emptied st.parents st.fresh p c (no_parent p), h.existing_parent p c);
  counted = ap suc h.counted;
}
  where
    no_child : (c : ℕ) → mem c (st.children st.fresh) ≡ false
    no_child c = ground (arith, h.existing_child st.fresh c)

    no_parent : (p : ℕ) → mem p (st.parents st.fresh) ≡ false
    no_parent p = ground (arith, h.existing_parent p st.fresh)

connect-IsLinked :
    (st : Blocks) (p c : ℕ)
    → IsLinked st
    → p < st.fresh
    → c < st.fresh
    → IsLinked (record st {
      children = set_field st.children p (c ∷ st.children p);
      parents = set_field st.parents c (p ∷ st.parents c);
    })
connect-IsLinked st p c h below_p below_c = record {
  mirrored = λ q d.
      rw (extended st.children p c d q, extended st.parents c p q d)
        (ground (arith, h.mirrored q d));
  existing_child = λ q d m. ground (arith, extended st.children p c d q, h.existing_child q d);
  existing_parent = λ q d m. ground (arith, extended st.parents c p q d, h.existing_parent q d);
  counted = h.counted;
}

-- In every state that calls lead to, a block is a child of another exactly when the other is one
-- of its parents, both exist, and the ids handed out since the last clearing are as many as the
-- blocks in the list.
pub reached-IsLinked : (st : Blocks) → Reached st → IsLinked st
unfolding connect_blocks clear_created_blocks
reached-IsLinked _ Reached.started = start-IsLinked
reached-IsLinked _ (Reached.created {st = st} r) = create-IsLinked st (reached-IsLinked st r)
reached-IsLinked _ (Reached.connected {st = st} {p = p} {c = c} r q d e) =
    subst IsLinked (some-injective _ _ e) (connect-IsLinked st p c (reached-IsLinked st r) q d)
reached-IsLinked _ (Reached.cleared {st = st} r) =
    let h = reached-IsLinked st r in
    record {
      mirrored = h.mirrored;
      existing_child = h.existing_child;
      existing_parent = h.existing_parent;
      counted = refl;
    }

-- get_num_created_blocks is one more than the number of blocks that get_all_blocks lists.
pub get_num_created_blocks_lem :
    (st : Blocks) → Reached st → get_num_created_blocks st ≡ suc (length (get_all_blocks st))
unfolding get_num_created_blocks get_all_blocks
get_num_created_blocks_lem st r = omega (arith, (reached-IsLinked st r).counted)
