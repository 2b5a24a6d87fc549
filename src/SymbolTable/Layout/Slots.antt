-- ===== src/SymbolTable/Layout/Slots.antt =====
-- The slots of the local variables in the frame that fill_local_allocations lays out.
use csc.Common.{mem, NoDup, ℕ, ◌%◌, ◌≡◌, ap, ◌∙◌, true, false}
use csc.Symbol.{Symbol, Symbols, depth}
use csc.SymbolTable.{SymTab}
use csc.SymbolTable.Layout.{node_byte_size_type, align}
use csc.SymbolTable.Layout.Frame.{
  depth-negate, align-low, words_aligned, nodes, bytes, after, goal_depth, settled,
}

-- A variable of the local table that is no parameter.
abbrev pub IsOwn : SymTab → ℕ → Type 0
IsOwn st a = (mem a (nodes st) ≡ true) × ((st.symbols a).formal ≡ false)

-- How far below the frame pointer a variable starts, and its size, in the laid out frame.
abbrev pub start : SymTab → ℕ → ℕ
start st a = depth (after st a).fp_offset

abbrev pub size : SymTab → ℕ → ℕ
size st a = (after st a).byte_size

module _ (st : SymTab) (distinct : NoDup (nodes st)) where
  abbrev s : Symbols
  s = st.symbols

  start_lem : (a : ℕ) → IsOwn st a → start st a ≡ goal_depth st distinct a
  start_lem a (m, f) =
      ap (λ e. depth e.fp_offset) (settled st distinct a m f)
      ∙ depth-negate (goal_depth st distinct a)

  -- Variables of four bytes, and arrays of them, start at a multiple of four.
  pub slot_aligned : (a : ℕ) → IsOwn st a → node_byte_size_type (s a) ≡ false → start st a % 4 ≡ 0
  unfolding goal_depth
  slot_aligned a own h =
      ap (λ d. d % 4) (start_lem a own)
      ∙ rw h (words_aligned s (align (bytes st)) (nodes st) a (align-low (bytes st)).1)
