-- ===== src/ControlFlow/Leaders.antt =====
-- After find_block_leaders the destinations of jumps, and the instructions that enter a function
-- or call one, lead blocks of their own.
use csc.Common.{
  subst, ℕ, zero, suc, ◌≤◌, ◌<◌, true, false, none, some, List, ◌≡◌, refl, ap, sym, ◌∙◌, arith,
  length, Bool-cases, Option-cases, inl, inr, ◌==◌, ==→eq, eq→==, ltb,
}
use mathlib.Core.Option.{some-injective}
use native.Mathlib.Decide.{ℕ_discrete}
use csc.Symbol.{Symbols}
use csc.Instruction.{Inode, redefines_variable}
use csc.Block.{create_block}
use csc.ControlFlow.{
  Graph, instruction, jump_place, declares_global, is_jump, starts_block, start_block, lead,
  number_instruction, lead_jump, find_leader, find_leaders,
}

abbrev pub HasBlock : Graph → ℕ → Type 0
HasBlock g k = (b : ℕ) × (g.block k ≡ some b)

-- Every instruction with a block is the first of it.
pub record IsLed (g : Graph) : Type 0 where
  pub first : (k b : ℕ) → g.block k ≡ some b → g.first_instruction b ≡ some k
  pub existing : (k b : ℕ) → g.block k ≡ some b → b < g.blocks.fresh

abbrev Kept : Graph → Graph → Type 0
Kept g after = (k b : ℕ) → g.block k ≡ some b → after.block k ≡ some b

lead_cases :
    (P : Graph → Type 0) (k : ℕ) (g : Graph)
    → (g.block k ≡ none → P (start_block k g))
    → ((b : ℕ) → g.block k ≡ some b → P g)
    → P (lead k g)
unfolding lead
lead_cases P k g x y = elim (Option-cases (g.block k)) [
  | inl e ↦ rw (lead, e) (x e)
  | inr (b, e) ↦ rw (lead, e) (y b e)
]

start-Kept : (k : ℕ) (g : Graph) → g.block k ≡ none → Kept g (start_block k g)
unfolding start_block
start-Kept k g none_yet j b e = elim (Bool-cases (k == j)) [
  | inl same ↦ absurd (cc (none_yet, e, ==→eq k j same))
  | inr other ↦ rw other e
]

start-IsLed : (k : ℕ) (g : Graph) → IsLed g → IsLed (start_block k g)
unfolding start_block create_block
start-IsLed k g h = record {
  first = λ j b e. elim (Bool-cases (k == j)) [
    | inl same ↦
        let new : g.blocks.fresh ≡ b = some-injective _ _ (rw same at e) in
        rw (eq→== g.blocks.fresh b new) (ap some (==→eq k j same))
    | inr other ↦
        let old = rw other at e in
        let apart : (g.blocks.fresh == b) ≡ false = ground (arith, h.existing j b old) in
        rw apart (h.first j b old)
  ];
  existing = λ j b e. elim (Bool-cases (k == j)) [
    | inl same ↦
        let new : g.blocks.fresh ≡ b = some-injective _ _ (rw same at e) in omega (arith, new)
    | inr other ↦ omega (arith, h.existing j b (rw other at e))
  ];
}

lead-HasBlock : (k : ℕ) (g : Graph) → HasBlock (lead k g) k
unfolding start_block
lead-HasBlock k g =
    lead_cases (λ a. HasBlock a k) k g (λ _. (g.blocks.fresh, rw (eq→== k k refl) refl))
      (λ b e. (b, e))

lead-Kept : (k : ℕ) (g : Graph) → Kept g (lead k g)
lead-Kept k g = lead_cases (Kept g) k g (start-Kept k g) (λ _ _ j b e. e)

lead-IsLed : (k : ℕ) (g : Graph) → IsLed g → IsLed (lead k g)
lead-IsLed k g h = lead_cases IsLed k g (λ _. start-IsLed k g h) (λ _ _. h)

number_instruction-IsLed :
    (sym : Symbols) (k : ℕ) (x : Inode) (g : Graph) → IsLed g → IsLed (number_instruction sym k x g)
unfolding number_instruction
number_instruction-IsLed sym k x g h = elim (Bool-cases (redefines_variable sym x)) [
  | inl e ↦ rw (number_instruction, e) (record { first = h.first; existing = h.existing })
  | inr e ↦ rw (number_instruction, e) (record { first = h.first; existing = h.existing })
]

number_instruction-Kept :
    (sym : Symbols) (k : ℕ) (x : Inode) (g : Graph) → Kept g (number_instruction sym k x g)
unfolding number_instruction
number_instruction-Kept sym k x g j b h = elim (Bool-cases (redefines_variable sym x)) [
  | inl e ↦ rw (number_instruction, e) h
  | inr e ↦ rw (number_instruction, e) h
]

abbrev pub IsJump : List Inode → ℕ → Type 0
IsJump code k = is_jump (instruction code k).op_type ≡ true

-- The destination of every jump is a label of the code.
abbrev pub Labelled : List Inode → Type 0
Labelled code = (k : ℕ) → k < length code → IsJump code k → (t : ℕ) × (jump_place code k ≡ some t)

-- What the loop has done for the instruction at `k`.
pub record Done (code : List Inode) (k : ℕ) (g : Graph) : Type 0 where
  pub target : (t : ℕ) → IsJump code k → jump_place code k ≡ some t → HasBlock g t
  pub next : IsJump code k → suc k < length code → HasBlock g (suc k)
  pub started : starts_block (instruction code k).op_type ≡ true → HasBlock g k

Done-Kept :
    (code : List Inode) (k : ℕ) (g after : Graph) → Kept g after → Done code k g → Done code k after
Done-Kept code k g after kept d = record {
  target = λ t j e. let (b, has) = d.target t j e in (b, kept t b has);
  next = λ j inside. let (b, has) = d.next j inside in (b, kept (suc k) b has);
  started = λ s. let (b, has) = d.started s in (b, kept k b has);
}

pub global-jump : (x : Inode) → declares_global x.op_type ≡ true → is_jump x.op_type ≡ false
global-jump x e = ground arith

global-starts : (x : Inode) → declares_global x.op_type ≡ true → starts_block x.op_type ≡ false
global-starts x e = ground arith

pub starts-jump : (x : Inode) → starts_block x.op_type ≡ true → is_jump x.op_type ≡ false
starts-jump x e = ground arith

module _ (symbols : Symbols) (code : List Inode) where
  lead_jump_step :
      (k t : ℕ) (g : Graph)
      → IsLed g
      → IsJump code k
      → jump_place code k ≡ some t
      → (after : Graph) × (lead_jump code k g ≡ some after)
        × IsLed after
        × Kept g after
        × Done code k after
  unfolding lead_jump
  lead_jump_step k t g h jumps e =
      let led = lead t g in
      let no_start : starts_block (instruction code k).op_type ≡ true → ⊥ =
        λ s. absurd (cc (starts-jump (instruction code k) s, jumps)) in
      elim (Bool-cases (ltb (suc k) (length code))) [
        | inl more ↦
            let kept = lead-Kept (suc k) led in
            (
              lead (suc k) led,
              rw (lead_jump, e, more) refl,
              lead-IsLed (suc k) led (lead-IsLed t g h),
              λ j b has. kept j b (lead-Kept t g j b has),
              record {
                target = λ u _ e'.
                    let (b, has) = lead-HasBlock t g in
                    (
                      b,
                      subst (λ v. (lead (suc k) led).block v ≡ some b)
                          (some-injective _ _ (sym e ∙ e')) (kept t b has),
                    );
                next = λ _ _. lead-HasBlock (suc k) led;
                started = λ s. absurd (no_start s);
              },
            )
        | inr last ↦ (
          led,
          rw (lead_jump, e, last) refl,
          lead-IsLed t g h,
          lead-Kept t g,
          record {
            target = λ u _ e'.
                subst (HasBlock led) (some-injective _ _ (sym e ∙ e')) (lead-HasBlock t g);
            next = λ _ inside. absurd (ground (arith, last, inside));
            started = λ s. absurd (no_start s);
          },
        )
      ]

  find_leader_step :
      (k : ℕ) (g : Graph)
      → IsLed g
      → (IsJump code k → (t : ℕ) × (jump_place code k ≡ some t))
      → (after : Graph) × (find_leader symbols code k g ≡ some after)
        × IsLed after
        × Kept g after
        × Done code k after
  unfolding find_leader
  find_leader_step k g h places =
      let x = instruction code k in
      let numbered = number_instruction symbols k x g in
      let formed = number_instruction-IsLed symbols k x g h in
      let kept = number_instruction-Kept symbols k x g in
      elim (Bool-cases (declares_global x.op_type)) [
        | inl global ↦ (
          g,
          rw (find_leader, global) refl,
          h,
          λ j b e. e,
          record {
            target = λ t j _. absurd (cc (j, global-jump x global));
            next = λ j _. absurd (cc (j, global-jump x global));
            started = λ s. absurd (cc (s, global-starts x global));
          },
        )
        | inr code_one ↦ elim (Bool-cases (starts_block x.op_type)) [
          | inl starts ↦ (
            lead k numbered,
            rw (find_leader, code_one, starts) refl,
            lead-IsLed k numbered formed,
            λ j b e. lead-Kept k numbered j b (kept j b e),
            record {
              target = λ t j _. absurd (cc (j, starts-jump x starts));
              next = λ j _. absurd (cc (j, starts-jump x starts));
              started = λ _. lead-HasBlock k numbered;
            },
          )
          | inr within ↦ elim (Bool-cases (is_jump x.op_type)) [
            | inl jumps ↦
                let (t, e) = places jumps in
                let (after, done, led, grown, last) = lead_jump_step k t numbered formed jumps e in
                (
                  after,
                  rw (find_leader, code_one, within, jumps) done,
                  led,
                  λ j b has. grown j b (kept j b has),
                  last,
                )
            | inr plain ↦ (
              numbered,
              rw (find_leader, code_one, within, plain) refl,
              formed,
              kept,
              record {
                target = λ t j _. absurd (cc (j, plain));
                next = λ j _. absurd (cc (j, plain));
                started = λ s. absurd (cc (s, within));
              },
            )
          ]
        ]
      ]

  -- The loop ends without a null pointer, in leaders that are the first of their blocks.
  pub find_leaders_lem :
      Labelled code
      → (m : ℕ) (g : Graph) → m ≤ length code
      → IsLed g
      → (after : Graph) × (find_leaders symbols code m g ≡ some after)
        × IsLed after
        × ((k : ℕ) → k < m → Done code k after)
  unfolding find_leaders
  find_leaders_lem labelled zero g le h = (g, refl, h, λ k lt. absurd (omega (arith, lt)))
  find_leaders_lem labelled (suc m) g le h =
      let (before, ran, led, done) = find_leaders_lem labelled m g (omega (arith, le)) h in
      let (after, stepped, led', kept, last) =
        find_leader_step m before led (labelled m (omega (arith, le))) in
      (
        after,
        rw ran stepped,
        led',
        λ k lt. elim (ℕ_discrete k m) [
          | yes e ↦ subst (λ j. Done code j after) (sym e) last
          | no other ↦ Done-Kept code k before after kept (done k (omega (arith, lt, other)))
        ],
      )
