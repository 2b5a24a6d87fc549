-- ===== src/SymbolTable/Functions/Formals.antt =====
-- The copies of parameters that SymTabRecordFunInfo lists as formals: later insertions leave them
-- as they are, since no table holds them.
use csc.Common.{
  ℕ, suc, ◌≤◌, ◌<◌, ◌≡◌, refl, ap, sym, ◌∙◌, subst, true, false, some, List, [], ◌∷◌, ◌==◌,
  if◌then◌else◌, arith, Bool-cases, Option-cases, ==→eq, eq→==, inl, inr, mem,
}
use mathlib.Core.Option.{some-injective}
use csc.Symbol.{Symbol, Symbols, SymType, Scope}
use csc.SymbolTable.{
  SymTab, set_symbol, same_name, find_name, hash, sym_tab_lookup, sym_tab_insert, insert_new,
}
use csc.SymbolTable.Lookup.{
  IsBounded, same_name→eq, set-same, set-other, insert_new-IsBounded, weaken,
}
use csc.SymbolTable.Invariant.{fresh-absent, mem-below}
use csc.SymbolTable.Functions.{
  Parameter, formal_entry, formal_copy, declare_formal, declare_formals,
}

-- An entry that is allocated and in no table.
pub record IsOutside (st : SymTab) (c : ℕ) : Type 0 where
  pub below : c < st.fresh
  pub absent : (s : Scope) (i : ℕ) → mem c (st.buckets s i) ≡ false

find_name-mem :
    (s : Symbols) (str : List ℕ) (bucket : List ℕ) (a : ℕ)
    → find_name s str bucket ≡ some a
    → (mem a bucket ≡ true) × ((s a).name ≡ str)
unfolding find_name
find_name-mem s str [] a e = absurd cc
find_name-mem s str (b ∷ rest) a e = elim (Bool-cases (same_name str (s b).name)) [
  | inl same ↦
      let here : b ≡ a = some-injective _ _ (rw same at e) in
      (
        subst (λ x. mem x (b ∷ rest) ≡ true) here (ground (arith, eq→== b b refl)),
        subst (λ x. (s x).name ≡ str) here (sym (same_name→eq str (s b).name same)),
      )
  | inr other ↦
      let (there, named) = find_name-mem s str rest a (rw other at e) in
      (ground (arith, there), named)
]

-- What an insertion does, whether the name is new or not.
pub record Inserted (str : List ℕ) (st : SymTab) (a : ℕ) (after : SymTab) : Type 0 where
  pub below : a < after.fresh
  pub grown : st.fresh ≤ after.fresh
  pub bounded : IsBounded after
  pub named : (after.symbols a).name ≡ str
  pub outside : (c : ℕ) → IsOutside st c → IsOutside after c
  pub kept : (c : ℕ) → c < st.fresh → after.symbols c ≡ st.symbols c
  pub apart : (c : ℕ) → IsOutside st c → (a == c) ≡ false

module _ (str : List ℕ) (sc : Scope) (st : SymTab) (bounded : IsBounded st) where
  new-Inserted : Inserted str st st.fresh (insert_new str sc st)
  unfolding insert_new
  new-Inserted = record {
    below = omega arith;
    grown = omega arith;
    bounded = insert_new-IsBounded str sc st bounded;
    named = ap (λ e. e.name) (set-same st.symbols st.fresh _);
    outside = λ c out. record {
      below = omega (arith, out.below);
      absent = λ s i.
          let old = out.absent s i in
          let other : (st.fresh == c) ≡ false = ground (arith, out.below) in
          ground (arith, old, other);
    };
    kept = λ c lt. set-other st.symbols st.fresh c _ lt;
    apart = λ c out. ground (arith, out.below);
  }

  old-Inserted : (a : ℕ) → sym_tab_lookup str sc st ≡ some a → Inserted str st a st
  unfolding sym_tab_lookup
  old-Inserted a e =
      let (there, named) = find_name-mem st.symbols str (st.buckets sc (hash str)) a e in
      record {
        below = mem-below st.fresh a (st.buckets sc (hash str)) (bounded sc (hash str)) there;
        grown = omega arith;
        bounded = bounded;
        named = named;
        outside = λ c out. out;
        kept = λ c lt. refl;
        apart = λ c out. elim (Bool-cases (a == c)) [
          | inl same ↦ absurd (
              cc (
                subst (λ x. mem x (st.buckets sc (hash str)) ≡ true) (==→eq a c same) there,
                out.absent sc (hash str),
              ))
          | inr other ↦ other
        ];
      }

  pub insert-Inserted : Inserted str st (sym_tab_insert str sc st).0 (sym_tab_insert str sc st).1
  unfolding sym_tab_insert
  insert-Inserted = elim (Option-cases (sym_tab_lookup str sc st)) [
    | inl n ↦ rw (sym_tab_insert, n) new-Inserted
    | inr (a, e) ↦ rw (sym_tab_insert, e) (old-Inserted a e)
  ]

-- The entry says of the parameter what was read.
pub record Describes (formal : Symbol) (p : Parameter) : Type 0 where
  pub name : formal.name ≡ p.name
  pub is_formal : formal.formal ≡ true
  pub type : formal.type ≡ (if p.is_array then SymType.array else p.type)
  pub elt_type : formal.elt_type ≡ (if p.is_array then p.type else SymType.none)

record Declared (st : SymTab) (p : Parameter) (copy : ℕ) (after : SymTab) : Type 0 where
  low : st.fresh ≤ copy
  grown : st.fresh ≤ after.fresh
  new : IsOutside after copy
  bounded : IsBounded after
  outside : (c : ℕ) → IsOutside st c → IsOutside after c
  kept : (c : ℕ) → IsOutside st c → after.symbols c ≡ st.symbols c
  described : Describes (after.symbols copy) p

declare_formal-Declared :
    (sc : Scope) (i : ℕ) (p : Parameter) (st : SymTab)
    → IsBounded st
    → (let (copy, after) = declare_formal sc i p st in Declared st p copy after)
unfolding declare_formal formal_entry formal_copy set_symbol
declare_formal-Declared sc i p st bounded =
    let ins = insert-Inserted p.name sc st bounded in
    let (a, inserted) = sym_tab_insert p.name sc st in
    record {
      low = ins.grown;
      grown = omega (arith, ins.grown);
      new = record {
        below = omega arith;
        absent = λ s j. fresh-absent inserted.fresh (inserted.buckets s j) (ins.bounded s j);
      };
      bounded = λ s j. weaken inserted.fresh (inserted.buckets s j) (ins.bounded s j);
      outside = λ c out.
          let later = ins.outside c out in
          record { below = omega (arith, later.below); absent = later.absent };
      kept = λ c out.
          let later = ins.outside c out in
          let other : (inserted.fresh == c) ≡ false = ground (arith, later.below) in
          rw (other, ins.apart c out) (ins.kept c out.below);
      described =
          let here : (inserted.fresh == inserted.fresh) ≡ true =
            eq→== inserted.fresh inserted.fresh refl in
          rw here (record { name = ins.named; is_formal = refl; type = refl; elt_type = refl });
    }

abbrev pub AllDescribed : Symbols → List ℕ → List Parameter → Type 0
AllDescribed s [] [] = Unit
AllDescribed s (f ∷ fs) (p ∷ ps) = Describes (s f) p × AllDescribed s fs ps
AllDescribed s _ _ = ⊥

-- The loop over the parameters describes each of them, in order. Later changes of entries that are
-- older than the loop do not matter.
pub record AllDeclared (st : SymTab) (ps : List Parameter) (copies : List ℕ) (after : SymTab)
    : Type 0 where
  pub grown : st.fresh ≤ after.fresh
  pub kept : (c : ℕ) → IsOutside st c → after.symbols c ≡ st.symbols c
  pub described :
      (s : Symbols) → ((c : ℕ) → st.fresh ≤ c → s c ≡ after.symbols c) → AllDescribed s copies ps

pub declare_formals-AllDeclared :
    (sc : Scope) (i : ℕ) (ps : List Parameter) (st : SymTab)
    → IsBounded st
    → (let (copies, after) = declare_formals sc i ps st in AllDeclared st ps copies after)
unfolding declare_formals
declare_formals-AllDeclared sc i [] st bounded = record {
  grown = omega arith;
  kept = λ c out. refl;
  described = λ s same. tt;
}
declare_formals-AllDeclared sc i (p ∷ ps) st bounded =
    let first = declare_formal-Declared sc i p st bounded in
    let (copy, declared) = declare_formal sc i p st in
    let rest = declare_formals-AllDeclared sc (suc i) ps declared first.bounded in
    record {
      grown = omega (arith, first.grown, rest.grown);
      kept = λ c out. rest.kept c (first.outside c out) ∙ first.kept c out;
      described = λ s same. (
        subst (λ e. Describes e p) (sym (same copy first.low ∙ rest.kept copy first.new))
            first.described,
        rest.described s (λ c le. same c (omega (arith, le, first.grown))),
      );
    }
