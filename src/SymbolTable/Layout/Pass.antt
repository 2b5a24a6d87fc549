-- ===== src/SymbolTable/Layout/Pass.antt =====
-- One pass over the local variables places those of one size one below the other.
use csc.Common.{
  mem, NoDup, and_true, and_false, ℕ, ◌+◌, ◌≤◌, ◌≡◌, refl, ap, ◌∙◌, Bool, true, false, ◌&&◌, List,
  [], ◌∷◌, ◌==◌, ==→eq, if◌then◌else◌, arith, Bool-cases, inl, inr, ◌⊎◌,
}
use csc.Symbol.{Symbol, Symbols, negate}
use csc.SymbolTable.{set_symbol}
use csc.SymbolTable.Layout.{
  node_size, is_placed, allocate_node, allocate_nodes, node_byte_size_type,
}

-- The bytes that a pass takes for a node.
unfoldable pub width : Bool → Symbol → ℕ
width c s = if is_placed c s then node_size s else 0

-- The offset that a pass has reached after the node `a`, and at its end.
unfoldable pub offset_after : Bool → Symbols → ℕ → List ℕ → ℕ → ℕ
unfolding width
offset_after c s off [] a = off
offset_after c s off (x ∷ rest) a =
    let later = offset_after c s (off + width c (s x)) rest a in
    if x == a then off + width c (s x) else later

unfoldable pub total : Bool → Symbols → ℕ → List ℕ → ℕ
unfolding width
total c s off [] = off
total c s off (x ∷ rest) = total c s (off + width c (s x)) rest

-- A node as a pass leaves it.
abbrev pub placed : Symbol → ℕ → Symbol
placed s offset = record s { byte_size = node_size s; fp_offset = negate offset }

unfoldable pub pass : Bool → Symbols → ℕ → List ℕ → ℕ → Symbol
unfolding offset_after
pass c s off nodes a =
    if mem a nodes && is_placed c (s a) then placed (s a) (offset_after c s off nodes a) else s a

pub total_mono : (c : Bool) (s : Symbols) (off : ℕ) (nodes : List ℕ) → off ≤ total c s off nodes
unfolding total
total_mono c s off [] = omega arith
total_mono c s off (x ∷ rest) = omega (arith, total_mono c s (off + width c (s x)) rest)

pub after-low :
    (c : Bool) (s : Symbols) (off : ℕ) (nodes : List ℕ) (a : ℕ)
    → mem a nodes ≡ true
    → off + width c (s a) ≤ offset_after c s off nodes a
unfolding offset_after
after-low c s off [] a m = ground arith
after-low c s off (x ∷ rest) a m =
    ground
      (arith, after-low c s (off + width c (s x)) rest a, λ (e : x ≡ a). ap (λ y. width c (s y)) e)

pub after-high :
    (c : Bool) (s : Symbols) (off : ℕ) (nodes : List ℕ) (a : ℕ)
    → mem a nodes ≡ true
    → offset_after c s off nodes a ≤ total c s off nodes
unfolding offset_after total
after-high c s off [] a m = ground arith
after-high c s off (x ∷ rest) a m =
    ground (
      arith,
      after-high c s (off + width c (s x)) rest a,
      total_mono c s (off + width c (s x)) rest,
    )

-- Two slots do not overlap.
pub after-apart :
    (c : Bool) (s : Symbols) (off : ℕ) (nodes : List ℕ) (a b : ℕ)
    → mem a nodes ≡ true
    → mem b nodes ≡ true
    → (a == b) ≡ false
    → (offset_after c s off nodes a + width c (s b) ≤ offset_after c s off nodes b)
      ⊎ (offset_after c s off nodes b + width c (s a) ≤ offset_after c s off nodes a)
unfolding offset_after
after-apart c s off [] a b m k d = ground arith
after-apart c s off (x ∷ rest) a b m k d = ground (
  arith,
  after-apart c s (off + width c (s x)) rest a b,
  after-low c s (off + width c (s x)) rest a,
  after-low c s (off + width c (s x)) rest b,
  λ (e : x ≡ a). ap (λ y. width c (s y)) e,
  λ (e : x ≡ b). ap (λ y. width c (s y)) e,
)

-- Nodes that a pass has changed are placed as before, and as wide as before.
abbrev pub Alike : Symbols → Symbols → Type 0
Alike s t =
    (c : Bool) (a : ℕ)
    → (is_placed c (s a) ≡ is_placed c (t a)) × (node_size (s a) ≡ node_size (t a))

pub width-Alike : (c : Bool) (s t : Symbols) → Alike s t → (a : ℕ) → width c (s a) ≡ width c (t a)
unfolding width
width-Alike c s t h a = rw ((h c a).0, (h c a).1) refl

pub offset-Alike :
    (c : Bool) (s t : Symbols)
    → Alike s t
    → (off : ℕ) (nodes : List ℕ) (a : ℕ)
    → offset_after c s off nodes a ≡ offset_after c t off nodes a
unfolding offset_after
offset-Alike c s t h off [] a = refl
offset-Alike c s t h off (x ∷ rest) a =
    rw (width-Alike c s t h x, offset-Alike c s t h (off + width c (t x)) rest a) refl

pub total-Alike :
    (c : Bool) (s t : Symbols)
    → Alike s t
    → (off : ℕ) (nodes : List ℕ) → total c s off nodes ≡ total c t off nodes
unfolding total
total-Alike c s t h off [] = refl
total-Alike c s t h off (x ∷ rest) =
    rw (width-Alike c s t h x) (total-Alike c s t h (off + width c (t x)) rest)

pub placed-is_placed :
    (c : Bool) (s : Symbol) (offset : ℕ) → is_placed c (placed s offset) ≡ is_placed c s
unfolding is_placed node_byte_size_type
placed-is_placed c s offset = refl

pub placed-node_size : (s : Symbol) (offset : ℕ) → node_size (placed s offset) ≡ node_size s
unfolding node_size node_byte_size_type
placed-node_size s offset = refl

-- One node.
node_offset :
    (c : Bool) (x : ℕ) (s : Symbols) (off : ℕ)
    → (allocate_node c x (s, off)).1 ≡ off + width c (s x)
unfolding allocate_node width
node_offset c x s off = ground arith

node_symbol :
    (c : Bool) (x : ℕ) (s : Symbols) (off a : ℕ)
    → (allocate_node c x (s, off)).0 a
      ≡ (if is_placed c (s x) && (x == a) then placed (s x) (off + width c (s x)) else s a)
unfolding allocate_node set_symbol width
node_symbol c x s off a = elim (Bool-cases (is_placed c (s x))) [
  | inl h ↦ simp h refl
  | inr h ↦ simp h refl
]

step-Alike : (c : Bool) (x : ℕ) (s : Symbols) (off : ℕ) → Alike (allocate_node c x (s, off)).0 s
step-Alike c x s off d a = elim (Bool-cases (is_placed c (s x) && (x == a))) [
  | inl h ↦
      let same : x ≡ a = ==→eq x a (ground arith) in
      rw (node_symbol c x s off a, h, same) (placed-is_placed d (s a) _, placed-node_size (s a) _)
  | inr h ↦ rw (node_symbol c x s off a, h) (refl, refl)
]

-- A pass over a list is one node, then a pass over the rest.
pass-cons :
    (c : Bool) (x : ℕ) (rest : List ℕ) (s : Symbols) (off : ℕ)
    → mem x rest ≡ false
    → (a : ℕ)
    → pass c (allocate_node c x (s, off)).0 (off + width c (s x)) rest a ≡ pass c s off (x ∷ rest) a
unfolding pass offset_after
pass-cons c x rest s off h a = elim (Bool-cases (mem a rest)) [
  | inl m ↦
      let other : (x == a) ≡ false = apart m in
      let kept : (allocate_node c x (s, off)).0 a ≡ s a =
        node_symbol c x s off a ∙ rw other (rw (and_false (is_placed c (s x))) refl) in
      rw
        (
          m,
          kept,
          other,
          offset-Alike c (allocate_node c x (s, off)).0 s (step-Alike c x s off)
              (off + width c (s x)) rest a,
        )
        refl
  | inr m ↦ elim (Bool-cases (x == a)) [
    | inl e ↦
        rw (m, e, node_symbol c x s off a, e)
          (rw (and_true (is_placed c (s x))) (let same : x ≡ a = ==→eq x a e in rw same refl))
    | inr e ↦ rw (m, e, node_symbol c x s off a, e) (rw (and_false (is_placed c (s x))) refl)
  ]
]
  where
    apart : mem a rest ≡ true → (x == a) ≡ false
    apart m = elim (Bool-cases (x == a)) [
      | inl e ↦
          let same : x ≡ a = ==→eq x a e in absurd (ground (arith, h, m, ap (λ y. mem y rest) same))
      | inr e ↦ e
    ]

-- A pass leaves the nodes of its list at the offsets that it has reached after them, and all
-- others as they were.
pub nodes-pass :
    (c : Bool) (nodes : List ℕ) (s : Symbols) (off : ℕ)
    → NoDup nodes
    → (a : ℕ) → (allocate_nodes c nodes (s, off)).0 a ≡ pass c s off nodes a
unfolding allocate_nodes pass offset_after
nodes-pass c [] s off h a = refl
nodes-pass c (x ∷ rest) s off (h, hs) a =
    nodes-pass c rest (allocate_node c x (s, off)).0 (allocate_node c x (s, off)).1 hs a
    ∙ rw (node_offset c x s off) (pass-cons c x rest s off h a)

pub nodes-total :
    (c : Bool) (nodes : List ℕ) (s : Symbols) (off : ℕ)
    → (allocate_nodes c nodes (s, off)).1 ≡ total c s off nodes
unfolding allocate_nodes total
nodes-total c [] s off = refl
nodes-total c (x ∷ rest) s off =
    nodes-total c rest (allocate_node c x (s, off)).0 (allocate_node c x (s, off)).1
    ∙ (rw (node_offset c x s off) (
        total-Alike c (allocate_node c x (s, off)).0 s (step-Alike c x s off) (off + width c (s x))
          rest))
