-- ===== src/CopyPropagation/Detach.antt =====
-- code_optimization.c: detaching a destination keeps the links and never goes through a null
-- pointer.
use csc.Common.{ℕ, none, some, List, [], ◌∷◌, ◌≡◌, ap, ◌∙◌, arith, Option-cases, inl, inr}
use csc.CopyPropagation.{
  detach_by, Copies, detach_variable_from_original, detach_copies_from_original, detach_destination,
}
use csc.CopyPropagation.Lists.{list_cases, forget_each-mem}
use csc.CopyPropagation.Links.{
  Linked, IsFree, forgotten, kept_from, forgotten-Linked, detach_copies_runs, propagated,
  detach_variable_runs, separated, separated-Linked, separated-IsFree,
}

by_copy :
    (st : Copies) (d o : ℕ)
    → st.copied_from d ≡ some o
    → detach_destination (some d) st ≡ detach_variable_from_original d st
unfolding detach_destination detach_by
by_copy st d o e = ap (λ f. detach_by f (st.copied_to d) d st) e

by_original :
    (st : Copies) (d x : ℕ) (l : List ℕ)
    → st.copied_from d ≡ none
    → st.copied_to d ≡ x ∷ l
    → detach_destination (some d) st ≡ detach_copies_from_original d st
unfolding detach_destination detach_by
by_original st d x l e c =
    ap (λ f. detach_by f (st.copied_to d) d st) e ∙ ap (λ t. detach_by none t d st) c

by_neither :
    (st : Copies) (d : ℕ)
    → st.copied_from d ≡ none
    → st.copied_to d ≡ []
    → detach_destination (some d) st ≡ some st
unfolding detach_destination detach_by
by_neither st d e c =
    ap (λ f. detach_by f (st.copied_to d) d st) e ∙ ap (λ t. detach_by none t d st) c

-- The outcome of detaching a destination.
pub record Detached (st : Copies) (d : ℕ) (st' : Copies) : Type 0 where
  pub runs : detach_destination (some d) st ≡ some st'
  pub links : Linked st'
  pub free : IsFree st' d
  pub fewer : (v p : ℕ) → st'.copied_from v ≡ some p → st.copied_from v ≡ some p

module _ (st : Copies) (ok : Linked st) (d : ℕ) where
  detach_copy : (o : ℕ) → st.copied_from d ≡ some o → Detached st d (separated d o st)
  detach_copy o e = record {
    runs = by_copy st d o e ∙ detach_variable_runs st ok d o e;
    links = separated-Linked st ok d o e;
    free = separated-IsFree st ok d o e;
    fewer = λ v p h. ground arith;
  }

  detach_original :
      (x : ℕ) (l : List ℕ)
      → st.copied_from d ≡ none
      → st.copied_to d ≡ x ∷ l
      → Detached st d (forgotten d st)
  detach_original x l e c =
      let there = propagated st ok d x (rw c (ground arith)) in
      record {
        runs = by_original st d x l e c ∙ detach_copies_runs st ok d there;
        links = forgotten-Linked st ok d there;
        free = record {
          no_original = rw (forget_each-mem (st.copied_to d) st.copied_from d) (ground arith);
          no_copy = ground arith;
        };
        fewer = kept_from st ok d;
      }

  detach_free : st.copied_from d ≡ none → st.copied_to d ≡ [] → Detached st d st
  detach_free e c = record {
    runs = by_neither st d e c;
    links = ok;
    free = record { no_original = e; no_copy = c };
    fewer = λ v p h. h;
  }

  -- Detaching a destination succeeds, keeps the links consistent and leaves it free.
  pub detaches : (st' : Copies) × Detached st d st'
  detaches = elim (Option-cases (st.copied_from d)) [
    | inr (o, e) ↦ (separated d o st, detach_copy o e)
    | inl e ↦ elim (list_cases (st.copied_to d)) [
      | inl c ↦ (st, detach_free e c)
      | inr (x, r, c) ↦ (forgotten d st, detach_original x r e c)
    ]
  ]
