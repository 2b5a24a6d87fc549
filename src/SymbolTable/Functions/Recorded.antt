-- ===== src/SymbolTable/Functions/Recorded.antt =====
-- What SymTabRecordFunInfo records of a function.
use csc.Common.{
  ℕ, suc, ◌+◌, ◌≡◌, refl, sym, ap, ◌∙◌, Bool, false, List, [], ◌∷◌, if◌then◌else◌, ◌==◌, Bool-cases,
  inl, inr, length, arith, subst,
}
use csc.Symbol.{Symbol, Symbols, SymType, Scope}
use csc.SymbolTable.{SymTab, set_symbol, sym_tab_insert}
use csc.SymbolTable.Lookup.{IsBounded, set-same}
use csc.SymbolTable.Functions.{
  Parameter, Parsed, is_void, declare_formals, count_formals, function_entry, record_fun_info,
  check_arguments,
}
use csc.SymbolTable.Functions.Formals.{insert-Inserted, AllDescribed, declare_formals-AllDeclared}
use csc.SymbolTable.Functions.Prototype.{AreFormalsOf, is_silent, all_agree, check_arguments_exact}

-- The parameters that are recorded: none with a void type.
abbrev pub parameters : Parsed → List Parameter
parameters parsed = if is_void parsed.curr_type then [] else parsed.lptr

-- The tables and the function's entry after the call.
abbrev pub after_record : Bool → Parsed → SymTab → SymTab
after_record is_proto parsed st = (record_fun_info is_proto parsed st).0.1

abbrev pub recorded : Bool → Parsed → SymTab → Symbol
recorded is_proto parsed st =
    let ((a, after), messages) = record_fun_info is_proto parsed st in after.symbols a

-- The formals, and the tables before the function's entry is filled.
abbrev declared : Parsed → SymTab → List ℕ × SymTab
declared parsed st =
    let found = (sym_tab_insert parsed.fn_name Scope.global st).1 in
    if is_void parsed.curr_type
    then ([], found)
    else declare_formals parsed.curr_scope 0 parsed.lptr found

recorded_lem :
    (is_proto : Bool) (parsed : Parsed) (st : SymTab)
    → recorded is_proto parsed st
      ≡ function_entry is_proto parsed
          (declared parsed st).0
          ((declared parsed st).1.symbols (sym_tab_insert parsed.fn_name Scope.global st).0)
unfolding record_fun_info
recorded_lem is_proto parsed st =
    set-same (declared parsed st).1.symbols (sym_tab_insert parsed.fn_name Scope.global st).0 _

count_formals_lem : (k : ℕ) (fs : List ℕ) → count_formals k fs ≡ k + length fs
unfolding count_formals
count_formals_lem k [] = omega arith
count_formals_lem k (f ∷ fs) = omega (arith, count_formals_lem (k + 1) fs)

count_all : (fs : List ℕ) → count_formals 0 fs ≡ length fs
count_all fs = omega (arith, count_formals_lem 0 fs)

length-AllDescribed :
    (s : Symbols) (fs : List ℕ) (ps : List Parameter) → AllDescribed s fs ps → length fs ≡ length ps
length-AllDescribed s [] [] h = refl
length-AllDescribed s (f ∷ fs) (p ∷ ps) (h, hs) = ap suc (length-AllDescribed s fs ps hs)
length-AllDescribed s [] (p ∷ ps) h = absurd h
length-AllDescribed s (f ∷ fs) [] h = absurd h

-- The formals stand for the parameters also after the function's own entry is written.
declared-AllDescribed :
    (parsed : Parsed) (st : SymTab) (e : Symbol)
    → IsBounded st
    → AllDescribed
        (set_symbol
          (declared parsed st).1.symbols
          (sym_tab_insert parsed.fn_name Scope.global st).0
          e)
        (declared parsed st).0
        (parameters parsed)
unfolding set_symbol
declared-AllDescribed parsed st e bounded =
    let ins = insert-Inserted parsed.fn_name Scope.global st bounded in
    let (a, found) = sym_tab_insert parsed.fn_name Scope.global st in
    elim (Bool-cases (is_void parsed.curr_type)) [
      | inl v ↦ rw v tt
      | inr v ↦
          let all = declare_formals-AllDeclared parsed.curr_scope 0 parsed.lptr found ins.bounded in
          rw v (
            all.described _ (λ c le.
              let other : (a == c) ≡ false = ground (arith, ins.below, le) in rw other refl))
    ]

-- If the entries of the tables are allocated, then the recorded entry is a function's with the
-- return type that was read; its list of formals has one entry for each parameter, in order, with
-- the parameter's name and type, marked as a formal, and its number of formals is the number of
-- parameters. With a void type there are none.
pub recorded_exact :
    (is_proto : Bool) (parsed : Parsed) (st : SymTab)
    → IsBounded st
    → ((recorded is_proto parsed st).type ≡ SymType.func)
      × ((recorded is_proto parsed st).ret_type ≡ parsed.fn_ret_type)
      × AllDescribed
          (after_record is_proto parsed st).symbols
          (recorded is_proto parsed st).formals
          (parameters parsed)
      × ((recorded is_proto parsed st).num_formals ≡ length (parameters parsed))
unfolding function_entry record_fun_info
recorded_exact is_proto parsed st bounded =
    let described =
      declared-AllDescribed parsed st
        (function_entry is_proto parsed (declared parsed st).0
          ((declared parsed st).1.symbols (sym_tab_insert parsed.fn_name Scope.global st).0))
        bounded in
    let entry = recorded_lem is_proto parsed st in
    (
      ap (λ e. e.type) entry,
      ap (λ e. e.ret_type) entry,
      subst (λ fs. AllDescribed (after_record is_proto parsed st).symbols fs (parameters parsed))
          (sym (ap (λ e. e.formals) entry)) described,
      ap (λ e. e.num_formals) entry
          ∙ count_all (declared parsed st).0
          ∙ length-AllDescribed _ (declared parsed st).0 (parameters parsed) described,
    )

-- Parameters have types.
abbrev pub AllTyped : List Parameter → Type 0
AllTyped [] = Unit
AllTyped (p ∷ ps) = (is_void p.type ≡ false) × AllTyped ps

formals_of :
    (s : Symbols) (fs : List ℕ) (ps : List Parameter)
    → AllTyped ps
    → AllDescribed s fs ps
    → AreFormalsOf s fs ps
formals_of s [] [] t h = tt
formals_of s (f ∷ fs) (p ∷ ps) (t, ts) (h, hs) = ((h.type, h.elt_type, t), formals_of s fs ps ts hs)
formals_of s [] (p ∷ ps) t h = absurd h
formals_of s (f ∷ fs) [] t h = absurd h

-- If the entries of the tables are allocated and no parameter is void, then against the formals
-- that a call has recorded, the parameters of a definition are checked without a message exactly
-- when they are as many as those recorded and each agrees with its counterpart in type and in being
-- an array.
pub recorded_checked :
    (is_proto : Bool) (parsed : Parsed) (st : SymTab) (n : ℕ) (ps : List Parameter)
    → IsBounded st
    → AllTyped (parameters parsed)
    → is_silent (
        check_arguments
          (after_record is_proto parsed st).symbols
          n
          (recorded is_proto parsed st).formals
          ps)
      ≡ all_agree (parameters parsed) ps
recorded_checked is_proto parsed st n ps bounded typed =
    let (type, ret_type, described, counted) = recorded_exact is_proto parsed st bounded in
    check_arguments_exact (after_record is_proto parsed st).symbols n
      (recorded is_proto parsed st).formals (parameters parsed) ps
      (formals_of _ (recorded is_proto parsed st).formals (parameters parsed) typed described)
