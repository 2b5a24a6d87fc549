-- ===== src/CopyPropagation/Links.antt =====
-- code_optimization.c: the links between originals and copies stay consistent.
use csc.Common.{
  ℕ, ◌≤◌, true, false, none, some, [], ◌==◌, ◌≡◌, refl, ap, length, mem, NoDup, arith, Bool-cases,
  ==→eq, inl, inr,
}
use csc.SymbolTable.Variables.{without, remove_from_list_exact, add_to_list_of_variables}
use csc.CopyPropagation.{
  Copies, no_copies, put, attach_variable_to_original, detach_variable_from_original, forget_each,
  detach_copies_from_original,
}
use csc.CopyPropagation.Lists.{
  times, length-without, mem-times, mem-length, times-without, mem-without, without-NoDup,
  forget_each-mem, nothing_listed,
}

-- Copies and originals name each other, a variable is in one list once, the list of propagated
-- variables has an original at least once for each of its copies, and originals are no copies.
pub record Linked (st : Copies) : Type 0 where
  pub linked : (v o : ℕ) → st.copied_from v ≡ some o → mem v (st.copied_to o) ≡ true
  pub back : (v o : ℕ) → mem v (st.copied_to o) ≡ true → st.copied_from v ≡ some o
  pub single : (o : ℕ) → NoDup (st.copied_to o)
  pub counted : (o : ℕ) → length (st.copied_to o) ≤ times o st.propagated_vars
  pub rooted : (v o : ℕ) → st.copied_from v ≡ some o → st.copied_from o ≡ none

pub no_copies-Linked : Linked no_copies
no_copies-Linked = record {
  linked = λ v o h. absurd (ground arith);
  back = λ v o h. absurd (ground arith);
  single = λ o. tt;
  counted = λ o. omega arith;
  rooted = λ v o h. refl;
}

-- Neither a copy nor an original of others.
pub record IsFree (st : Copies) (v : ℕ) : Type 0 where
  pub no_original : st.copied_from v ≡ none
  pub no_copy : st.copied_to v ≡ []

abbrev pub forgotten : ℕ → Copies → Copies
forgotten o st = record {
  propagated_vars = without o st.propagated_vars;
  copied_from = forget_each (st.copied_to o) st.copied_from;
  copied_to = put st.copied_to o [];
}

some-none : {a : ℕ} → none ≡ some a → ⊥
some-none h = absurd (ground arith)

module _ (st : Copies) (ok : Linked st) (o : ℕ) where
  -- What a variable is a copy of, after the copies of `o` are forgotten.
  pub kept_from : (v p : ℕ) → (forgotten o st).copied_from v ≡ some p → st.copied_from v ≡ some p
  kept_from v p h = ground (arith, forget_each-mem (st.copied_to o) st.copied_from v)

  not_listed : (v p : ℕ) → (forgotten o st).copied_from v ≡ some p → mem v (st.copied_to o) ≡ false
  not_listed v p h = ground (arith, forget_each-mem (st.copied_to o) st.copied_from v)

  still_from :
      (v p : ℕ)
      → st.copied_from v ≡ some p
      → (o == p) ≡ false
      → (forgotten o st).copied_from v ≡ some p
  still_from v p h other = elim (Bool-cases (mem v (st.copied_to o))) [
    | inl m ↦ absurd (ground (arith, ok.back v o m))
    | inr m ↦ rw (forget_each-mem (st.copied_to o) st.copied_from v, m) h
  ]

  pub forgotten-Linked : mem o st.propagated_vars ≡ true → Linked (forgotten o st)
  forgotten-Linked present = record {
    linked = λ v p h. elim (Bool-cases (o == p)) [
      | inl e ↦
          absurd (ground (arith, not_listed v p h, ok.linked v p (kept_from v p h), ==→eq o p e))
      | inr e ↦ rw e (ok.linked v p (kept_from v p h))
    ];
    back = λ v p h. elim (Bool-cases (o == p)) [
      | inl e ↦ absurd (ground arith)
      | inr e ↦ still_from v p (ok.back v p (rw e at h)) e
    ];
    single = λ p. ground (arith, ok.single p);
    counted = λ p. ground (arith, ok.counted p, times-without p o st.propagated_vars present);
    rooted = λ v p h.
        ground (
          arith,
          forget_each-mem (st.copied_to o) st.copied_from p,
          ok.rooted v p (kept_from v p h),
        );
  }

  pub detach_copies_runs :
      mem o st.propagated_vars ≡ true → detach_copies_from_original o st ≡ some (forgotten o st)
  unfolding detach_copies_from_original
  detach_copies_runs present = rw (remove_from_list_exact o st.propagated_vars, present) refl

  pub propagated : (v : ℕ) → mem v (st.copied_to o) ≡ true → mem o st.propagated_vars ≡ true
  propagated v m =
      mem-times o st.propagated_vars (omega (arith, ok.counted o, mem-length v (st.copied_to o) m))

abbrev pub separated : ℕ → ℕ → Copies → Copies
separated var o st = record {
  propagated_vars = without o st.propagated_vars;
  copied_to = put st.copied_to o (without var (st.copied_to o));
  copied_from = put st.copied_from var none;
}

module _ (st : Copies) (ok : Linked st) (var o : ℕ) (copy : st.copied_from var ≡ some o) where
  listed : mem var (st.copied_to o) ≡ true
  listed = ok.linked var o copy

  present : mem o st.propagated_vars ≡ true
  present = propagated st ok o var listed

  pub detach_variable_runs : detach_variable_from_original var st ≡ some (separated var o st)
  unfolding detach_variable_from_original
  detach_variable_runs =
      rw
        (
          copy,
          remove_from_list_exact o st.propagated_vars,
          present,
          remove_from_list_exact var (st.copied_to o),
          listed,
        )
        refl

  pub separated-Linked : Linked (separated var o st)
  separated-Linked = record {
    linked = λ v p h. ground (
      arith,
      ok.linked v p,
      mem-without v var (st.copied_to o) (ok.single o),
      λ (e : o ≡ p). ap (λ q. mem v (st.copied_to q)) e,
    );
    back = λ v p h. ground (
      arith,
      ok.back v p,
      ok.back v o,
      mem-without v var (st.copied_to o) (ok.single o),
      ok.back var p,
      copy,
    );
    single = λ p. ground (arith, ok.single p, without-NoDup var (st.copied_to o) (ok.single o));
    counted = λ p. ground (
      arith,
      ok.counted p,
      times-without p o st.propagated_vars present,
      length-without var (st.copied_to o) listed,
      λ (e : o ≡ p). ap (λ q. length (st.copied_to q)) e,
    );
    rooted = λ v p h. ground (arith, ok.rooted v p);
  }

  no_copies_of : st.copied_to var ≡ []
  no_copies_of =
      nothing_listed (st.copied_to var)
        λ v m. absurd (ground (arith, ok.rooted v var (ok.back v var m)))

  pub separated-IsFree : IsFree (separated var o st) var
  separated-IsFree = record {
    no_original = ground arith;
    no_copy = ground (arith, no_copies_of, copy, ok.rooted var o copy);
  }

pub not_copied :
    (st : Copies) (d v p : ℕ)
    → Linked st
    → IsFree st d
    → st.copied_from v ≡ some p
    → (d == p) ≡ false
not_copied st d v p ok free h = elim (Bool-cases (d == p)) [
  | inl e ↦
      let there : mem v (st.copied_to d) ≡ true = ok.linked v d (rw (==→eq d p e) h) in
      absurd (ground (arith, free.no_copy, there))
  | inr e ↦ e
]

-- A free variable may become a copy of another variable that is no copy.
pub attached-Linked :
    (st : Copies) (d o : ℕ)
    → Linked st
    → IsFree st d
    → (o == d) ≡ false
    → st.copied_from o ≡ none
    → Linked (attach_variable_to_original d o st)
unfolding attach_variable_to_original add_to_list_of_variables
attached-Linked st d o ok free other root = record {
  linked =
      λ v p h. ground (arith, ok.linked v p, λ (e : o ≡ p). ap (λ q. mem v (st.copied_to q)) e);
  back = λ v p h. ground (
    arith,
    ok.back v p,
    ok.back v o,
    λ (e : d ≡ v). ap st.copied_from e,
    λ (e : o ≡ p). ap (λ q. mem v (st.copied_to q)) e,
  );
  single = λ p. ground (arith, ok.single p, ok.single o, ok.back d o);
  counted = λ p. ground (arith, ok.counted p, λ (e : o ≡ p). ap (λ q. length (st.copied_to q)) e);
  rooted = λ v p h.
      ground
        (arith, ok.rooted v p, not_copied st d v p ok free, λ (e : o ≡ p). ap st.copied_from e);
}
