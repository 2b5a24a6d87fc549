-- ===== src/ControlFlow/Edges.antt =====
-- The steps of control that the blocks and edges cover, and what adding an edge or putting an
-- instruction into a block keeps.
use csc.Common.{
  ℕ, suc, ◌<◌, true, false, none, some, List, ◌∷◌, ◌≡◌, refl, ◌∙◌, arith, mem, Bool-cases, inl, inr,
  ◌⊎◌, ◌==◌, ==→eq,
}
use csc.Instruction.{Inode}
use csc.Block.{set_field}
use csc.Block.Edges.{extended}
use csc.ControlFlow.{Graph, instruction, declares_global}

abbrev pub Edge : Graph → ℕ → ℕ → Type 0
Edge g b c = mem c (g.blocks.children b) ≡ true

abbrev pub IsCode : List Inode → ℕ → Type 0
IsCode code k = declares_global (instruction code k).op_type ≡ false

-- The instruction at `suc j` is in the block of the one at `j`, or is the first of a block that an
-- edge leads to.
pub record Joined (g : Graph) (j : ℕ) : Type 0 where
  pub before : ℕ
  pub here : ℕ
  pub at_before : g.block j ≡ some before
  pub at_here : g.block (suc j) ≡ some here
  pub how : (before ≡ here) ⊎ ((g.first_instruction here ≡ some (suc j)) × Edge g before here)

-- An edge leads from the block of the jump at `k` to the block of which `t` is the first.
pub record Jumped (g : Graph) (k t : ℕ) : Type 0 where
  pub from : ℕ
  pub to : ℕ
  pub at_from : g.block k ≡ some from
  pub at_to : g.block t ≡ some to
  pub first : g.first_instruction to ≡ some t
  pub edge : Edge g from to

-- What a step at `k` keeps.
pub record Extends (k : ℕ) (g after : Graph) : Type 0 where
  pub kept : (j b : ℕ) → g.block j ≡ some b → after.block j ≡ some b
  pub later : (j : ℕ) → k < j → after.block j ≡ g.block j
  pub edges : (b c : ℕ) → Edge g b c → Edge after b c
  pub firsts : (b : ℕ) → after.first_instruction b ≡ g.first_instruction b

module _ {k : ℕ} {g after : Graph} (x : Extends k g after) where
  pub Joined-extended : (j : ℕ) → Joined g j → Joined after j
  Joined-extended j h = record {
    before = h.before;
    here = h.here;
    at_before = x.kept j h.before h.at_before;
    at_here = x.kept (suc j) h.here h.at_here;
    how = elim h.how [
      | inl same ↦ inl same
      | inr (leads, edge) ↦ inr (x.firsts h.here ∙ leads, x.edges h.before h.here edge)
    ];
  }

  pub Jumped-extended : (j t : ℕ) → Jumped g j t → Jumped after j t
  Jumped-extended j t h = record {
    from = h.from;
    to = h.to;
    at_from = x.kept j h.from h.at_from;
    at_to = x.kept t h.to h.at_to;
    first = x.firsts h.to ∙ h.first;
    edge = x.edges h.from h.to h.edge;
  }

pub Extends-refl : (k : ℕ) (g : Graph) → Extends k g g
Extends-refl k g = record {
  kept = λ j b e. e;
  later = λ j lt. refl;
  edges = λ b c e. e;
  firsts = λ b. refl;
}

pub Extends-trans : (k : ℕ) (g h i : Graph) → Extends k g h → Extends k h i → Extends k g i
Extends-trans k g h i x y = record {
  kept = λ j b e. y.kept j b (x.kept j b e);
  later = λ j lt. y.later j lt ∙ x.later j lt;
  edges = λ b c e. y.edges b c (x.edges b c e);
  firsts = λ b. y.firsts b ∙ x.firsts b;
}

-- The blocks with an edge added.
abbrev pub linked : Graph → ℕ → ℕ → Graph
linked g p c = record g {
  blocks = record g.blocks {
    children = set_field g.blocks.children p (c ∷ g.blocks.children p);
    parents = set_field g.blocks.parents c (p ∷ g.blocks.parents c);
  };
}

pub linked-Extends : (k p c : ℕ) (g : Graph) → Extends k g (linked g p c)
linked-Extends k p c g = record {
  kept = λ j b e. e;
  later = λ j lt. refl;
  edges = λ b d e. ground (arith, extended g.blocks.children p c d b, e);
  firsts = λ b. refl;
}

pub linked-Edge : (p c : ℕ) (g : Graph) → Edge (linked g p c) p c
linked-Edge p c g = ground (arith, extended g.blocks.children p c c p)

-- The instruction at `k` put into the block `b`.
abbrev pub joined : Graph → ℕ → ℕ → Graph
joined g k b = record g { block = set_field g.block k (some b) }

pub joined-Extends : (k b : ℕ) (g : Graph) → g.block k ≡ none → Extends k g (joined g k b)
joined-Extends k b g none_yet = record {
  kept = λ j c e. elim (Bool-cases (k == j)) [
    | inl same ↦ absurd (cc (none_yet, e, ==→eq k j same))
    | inr other ↦ rw other e
  ];
  later = λ j lt. ground (arith, lt);
  edges = λ c d e. e;
  firsts = λ c. refl;
}
