-- ===== src/CopyPropagation/Cleared.antt =====
-- code_optimization.c: clear_propagated_vars forgets every copy.
use csc.Common.{
  ℕ, zero, suc, ◌≤◌, true, Option, none, some, List, [], ◌∷◌, ◌≡◌, refl, ap, length, mem, arith,
  Option-cases, inl, inr,
}
use mathlib.Core.Path.{fun_ext}
use csc.CopyPropagation.{Copies, no_copies, clear_loop, clear_propagated_vars}
use csc.CopyPropagation.Lists.{length-without, list_cases}
use csc.CopyPropagation.Links.{Linked, forgotten, forgotten-Linked, detach_copies_runs}

fields_ext :
    (from : ℕ → Option ℕ) (to : ℕ → List ℕ) (list : List ℕ)
    → from ≡ (λ v. none)
    → to ≡ (λ o. [])
    → list ≡ []
    → record { copied_from = from; copied_to = to; propagated_vars = list } ≡ no_copies
fields_ext from to list f t l = rw (f, t, l) refl

short : (l : List ℕ) → length l ≤ 0 → l ≡ []
short [] h = refl
short (x ∷ l) h = absurd (omega arith)

module _ (st : Copies) (ok : Linked st) (done : st.propagated_vars ≡ []) where
  none_copied : (o : ℕ) → st.copied_to o ≡ []
  none_copied o = short (st.copied_to o) (rw done at (ok.counted o))

  no_original : (v : ℕ) → st.copied_from v ≡ none
  no_original v = elim (Option-cases (st.copied_from v)) [
    | inl e ↦ e
    | inr (o, e) ↦ absurd (ground (arith, ok.linked v o e, none_copied o))
  ]

  -- With no propagated variable there is no copy.
  nothing_left : st ≡ no_copies
  nothing_left =
      fields_ext st.copied_from st.copied_to st.propagated_vars (fun_ext no_original)
        (fun_ext none_copied) done

clear_loop_lem :
    (fuel : ℕ) (st : Copies)
    → Linked st
    → length st.propagated_vars ≤ fuel
    → clear_loop fuel st ≡ some no_copies
unfolding clear_loop
clear_loop_lem zero st ok h = ap some (nothing_left st ok (short st.propagated_vars h))
clear_loop_lem (suc fuel) st ok h = elim (list_cases st.propagated_vars) [
  | inl e ↦ rw (clear_loop, e) (ap some (nothing_left st ok e))
  | inr (v, r, e) ↦
      let there : mem v st.propagated_vars ≡ true = rw e (ground arith) in
      rw (clear_loop, e)
        (rw (detach_copies_runs st ok v there) (
          clear_loop_lem fuel (forgotten v st) (forgotten-Linked st ok v there)
            (omega (arith, length-without v st.propagated_vars there))))
]

-- Clearing the propagated variables of consistent links succeeds and leaves no copies.
pub cleared : (st : Copies) → Linked st → clear_propagated_vars st ≡ some no_copies
unfolding clear_propagated_vars
cleared st ok = rw (clear_loop_lem (length st.propagated_vars) st ok (omega arith)) refl
