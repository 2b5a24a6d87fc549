-- ===== src/SymbolTable/Layout/Frame.antt =====
-- The frame that fill_local_allocations lays out: where each local variable ends up.
use csc.Common.{
  mem, NoDup, and_false, ℕ, zero, suc, ◌+◌, ◌%◌, ◌≤◌, ◌≡◌, refl, ap, ap₂, ◌∙◌, Bool, true, false,
  ◌&&◌, not, List, [], ◌∷◌, if◌then◌else◌, arith, Bool-cases, inl, inr,
}
use csc.Symbol.{Symbol, Symbols, negate, depth}
use csc.SymbolTable.{SymTab, table_size}
use csc.SymbolTable.Layout.{
  node_size, is_placed, allocate_nodes, node_byte_size_type, local_nodes, allocate, align,
  fill_local_allocations,
}
use csc.SymbolTable.Layout.Pass.{
  width, offset_after, total, placed, pass, Alike, placed-is_placed, placed-node_size, offset-Alike,
  total-Alike, nodes-pass, nodes-total,
}

pub depth-negate : (n : ℕ) → depth (negate n) ≡ n
depth-negate zero = refl
depth-negate (suc n) = refl

pass-Alike : (c : Bool) (s : Symbols) (off : ℕ) (nodes : List ℕ) → Alike (pass c s off nodes) s
unfolding pass
pass-Alike c s off nodes d a = elim (Bool-cases (mem a nodes && is_placed c (s a))) [
  | inl h ↦ rw h (placed-is_placed d (s a) _, placed-node_size (s a) _)
  | inr h ↦ rw h (refl, refl)
]

pub align-low : (n : ℕ) → (n ≤ align n) × (align n % 4 ≡ 0)
unfolding align
align-low n = ground arith

pub by_size :
    (s : Symbol)
    → s.formal ≡ false
    → (is_placed true s ≡ node_byte_size_type s) × (is_placed false s ≡ not (node_byte_size_type s))
unfolding is_placed
by_size s h = rw h (ground arith)

-- Words take a multiple of four bytes.
pub word-width : (s : Symbol) → width false s % 4 ≡ 0
unfolding width is_placed node_size
word-width s = elim (Bool-cases (node_byte_size_type s)) [
  | inl h ↦ simp (h, and_false (not s.formal)) refl
  | inr h ↦ simp h (ground arith)
]

pub words_aligned :
    (s : Symbols) (off : ℕ) (nodes : List ℕ) (a : ℕ)
    → off % 4 ≡ 0
    → offset_after false s off nodes a % 4 ≡ 0
unfolding offset_after
words_aligned s off [] a h = h
words_aligned s off (x ∷ rest) a h =
    ground (arith, word-width (s x), words_aligned s (off + width false (s x)) rest a)

-- The lists of nodes do not depend on the entries.
same_nodes :
    (n : ℕ) (st : SymTab) (t : Symbols)
    → local_nodes n (record st { symbols = t }) ≡ local_nodes n st
unfolding local_nodes
same_nodes zero st t = refl
same_nodes (suc n) st t = rw (same_nodes n st t) refl

pass-in :
    (c : Bool) (s : Symbols) (off : ℕ) (nodes : List ℕ) (a : ℕ)
    → mem a nodes ≡ true
    → is_placed c (s a) ≡ true
    → pass c s off nodes a ≡ placed (s a) (offset_after c s off nodes a)
unfolding pass
pass-in c s off nodes a m h = rw (m, h) refl

pass-out :
    (c : Bool) (s : Symbols) (off : ℕ) (nodes : List ℕ) (a : ℕ)
    → is_placed c (s a) ≡ false
    → pass c s off nodes a ≡ s a
unfolding pass
pass-out c s off nodes a h = rw (h, and_false (mem a nodes)) refl

module _ (st : SymTab) where
  abbrev pub nodes : List ℕ
  nodes = local_nodes table_size st

  unfoldable pub bytes : ℕ
  bytes = total true st.symbols 0 nodes

  abbrev pub after : Symbols
  after = (fill_local_allocations st).1.symbols

  abbrev pub frame_size : ℕ
  frame_size = (fill_local_allocations st).0

  first : Symbols
  first = (allocate_nodes true nodes (st.symbols, 0)).0

  module _ (distinct : NoDup nodes) where
    first-pass : (a : ℕ) → first a ≡ pass true st.symbols 0 nodes a
    unfolding first
    first-pass a = nodes-pass true nodes st.symbols 0 distinct a

    first-Alike : Alike first st.symbols
    first-Alike d a = rw (first-pass a) (pass-Alike true st.symbols 0 nodes d a)

    start_lem : (allocate 0 true st).0 ≡ bytes
    unfolding allocate bytes
    start_lem = nodes-total true nodes st.symbols 0

    second_lem :
        allocate_nodes false
          (local_nodes table_size (record st { symbols = first }))
          (first, align (allocate 0 true st).0)
        ≡ allocate_nodes false nodes (first, align bytes)
    second_lem =
        ap₂ (λ ns o. allocate_nodes false ns (first, align o)) (same_nodes table_size st first)
          start_lem

    pub size_lem : frame_size ≡ total false st.symbols (align bytes) nodes
    unfolding fill_local_allocations allocate first
    size_lem =
        ap (λ p. p.1) second_lem
        ∙ nodes-total false nodes first (align bytes)
        ∙ total-Alike false first st.symbols first-Alike (align bytes) nodes

    after_lem : (a : ℕ) → after a ≡ pass false first (align bytes) nodes a
    unfolding fill_local_allocations allocate first
    after_lem a = ap (λ p. p.0 a) second_lem ∙ nodes-pass false nodes first (align bytes) distinct a

    -- How far down a node ends up.
    unfoldable pub goal_depth : ℕ → ℕ
    goal_depth a =
        if node_byte_size_type (st.symbols a)
        then offset_after true st.symbols 0 nodes a
        else offset_after false st.symbols (align bytes) nodes a

    module _ (a : ℕ) (m : mem a nodes ≡ true) (f : (st.symbols a).formal ≡ false) where
      settled_byte :
          node_byte_size_type (st.symbols a) ≡ true → after a ≡ placed (st.symbols a) (goal_depth a)
      unfolding goal_depth
      settled_byte h =
          let kept : is_placed false (first a) ≡ false =
            (first-Alike false a).0 ∙ (by_size (st.symbols a) f).1 ∙ ap not h in
          let chosen : is_placed true (st.symbols a) ≡ true = (by_size (st.symbols a) f).0 ∙ h in
          after_lem a
          ∙ pass-out false first (align bytes) nodes a kept
          ∙ first-pass a
          ∙ pass-in true st.symbols 0 nodes a m chosen
          ∙ rw h refl

      settled_word :
          node_byte_size_type (st.symbols a) ≡ false
          → after a ≡ placed (st.symbols a) (goal_depth a)
      unfolding goal_depth
      settled_word h =
          let skipped : is_placed true (st.symbols a) ≡ false = (by_size (st.symbols a) f).0 ∙ h in
          let chosen : is_placed false (first a) ≡ true =
            (first-Alike false a).0 ∙ (by_size (st.symbols a) f).1 ∙ ap not h in
          let same : first a ≡ st.symbols a =
            first-pass a ∙ pass-out true st.symbols 0 nodes a skipped in
          after_lem a
          ∙ pass-in false first (align bytes) nodes a m chosen
          ∙ ap₂ placed same (offset-Alike false first st.symbols first-Alike (align bytes) nodes a)
          ∙ rw h refl

      pub settled : after a ≡ placed (st.symbols a) (goal_depth a)
      settled = elim (Bool-cases (node_byte_size_type (st.symbols a))) [
        | inl h ↦ settled_byte h
        | inr h ↦ settled_word h
      ]
