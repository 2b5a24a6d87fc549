-- ===== src/DeadCode/Loop/Paths.antt =====
-- Running the blocks of a function along the control flow, the independent description for the
-- elimination: after a block the world decides which child follows, as the last jump does.
use csc.Common.{
  ℕ, zero, suc, ◌+◌, ◌≤◌, Option, none, some, List, [], ◌∷◌, ◌≡◌, refl, arith, get_or, length, map,
  true,
}
use csc.Symbol.{Symbols}
use csc.Machine.{Machine, State, run}
use csc.Liveness.Loop.{Flow, flow, start_flow}
use csc.Liveness.Loop.Growth.{has, live_after}
use csc.Liveness.{find_def_and_use_sets}
use csc.DeadCode.{remove_dead_in_block}
use csc.DeadCode.Loop.{Part, part_flow, remove_dead_instructions}

abbrev pub no_part : Part
no_part = record { children = []; instructions = [] }

abbrev pub part : List Part → ℕ → Part
part parts k = get_or parts k no_part

abbrev pub nth : List ℕ → ℕ → Option ℕ
nth [] j = none
nth (c ∷ rest) zero = some c
nth (c ∷ rest) (suc j) = nth rest j

module _ (machine : Machine) (symbols : Symbols) (next : machine.World → ℕ → ℕ) where
  -- Goes on with `f` where there is a next block.
  abbrev pub leave :
      (ℕ → State machine symbols → State machine symbols)
      → Option ℕ
      → State machine symbols
      → State machine symbols
  leave f none st = st
  leave f (some c) st = f c st

  -- At most so many blocks, from block `k` on.
  unfoldable pub run_parts : ℕ → List Part → ℕ → State machine symbols → State machine symbols
  run_parts zero parts k st = st
  run_parts (suc steps) parts k st =
      let after = run machine symbols (part parts k).instructions st in
      leave (run_parts steps parts) (nth (part parts k).children (next after.world k)) after

  pub leave-world :
      (f g : ℕ → State machine symbols → State machine symbols) (o o' : Option ℕ)
      (s t : State machine symbols)
      → o' ≡ o
      → s.world ≡ t.world
      → ((c : ℕ) → o ≡ some c → (f c s).world ≡ (g c t).world)
      → (leave f o s).world ≡ (leave g o' t).world
  leave-world f g none o' s t same e h = rw same e
  leave-world f g (some c) o' s t same e h = rw same (h c refl)

pub part_beyond : (parts : List Part) (k : ℕ) → length parts ≤ k → part parts k ≡ no_part
part_beyond [] k h = refl
part_beyond (p ∷ rest) zero h = absurd (omega arith)
part_beyond (p ∷ rest) (suc k) h = part_beyond rest k (omega (arith, h))

plus_zero : (j : ℕ) → j + 0 ≡ j
plus_zero j = omega arith

plus_suc : (j k : ℕ) → j + suc k ≡ suc j + k
plus_suc j k = omega arith

zero_plus : (k : ℕ) → 0 + k ≡ k
zero_plus k = omega arith

module _ (n : ℕ) (symbols : Symbols) where
  -- What is live before a successor is live after the block.
  pub live_after-nth :
      (fs : List Flow) (cs : List ℕ) (j c v : ℕ)
      → nth cs j ≡ some c
      → has n (flow n fs c).in_set v ≡ true
      → live_after n fs cs v ≡ true
  live_after-nth fs [] j c v e m = absurd cc
  live_after-nth fs (d ∷ rest) zero c v e m = ground (arith, e, m)
  live_after-nth fs (d ∷ rest) (suc j) c v e m = ground (arith, live_after-nth fs rest j c v e m)

  pub flow-start :
      (parts : List Part) (k : ℕ)
      → flow n (map (part_flow n symbols) parts) k ≡ part_flow n symbols (part parts k)
  unfolding part_flow start_flow find_def_and_use_sets
  flow-start [] k = refl
  flow-start (p ∷ rest) zero = refl
  flow-start (p ∷ rest) (suc k) = flow-start rest k

  -- Block `k` after a run over the blocks from place `j`.
  part-removal_from :
      (flows : List Flow) (j : ℕ) (parts : List Part) (k : ℕ)
      → part (remove_dead_instructions n symbols flows j parts).parts k ≡ record (part parts k) {
        instructions =
            (remove_dead_in_block n symbols
              (flow n flows (j + k)).out
              (part parts k).instructions).instructions;
      }
  unfolding remove_dead_instructions remove_dead_in_block
  part-removal_from flows j [] k = refl
  part-removal_from flows j (p ∷ rest) zero = rw (plus_zero j) refl
  part-removal_from flows j (p ∷ rest) (suc k) =
      rw (plus_suc j k) (part-removal_from flows (suc j) rest k)

  pub part-removal :
      (flows : List Flow) (parts : List Part) (k : ℕ)
      → part (remove_dead_instructions n symbols flows 0 parts).parts k ≡ record (part parts k) {
        instructions =
            (remove_dead_in_block n symbols
              (flow n flows k).out
              (part parts k).instructions).instructions;
      }
  part-removal flows parts k = rw (zero_plus k) at (part-removal_from flows 0 parts k)
