-- ===== src/SymbolTable/Functions/Prototype.antt =====
-- When a definition agrees with its prototype.
use csc.Common.{
  ℕ, suc, ◌≡◌, refl, Bool, true, false, ◌&&◌, not, List, [], ◌∷◌, if◌then◌else◌, arith, Bool-cases,
  inl, inr,
}
use csc.Symbol.{Symbol, Symbols, SymType}
use csc.SymbolTable.Functions.{
  Parameter, Message, same_type, is_void, is_type_mismatch, check_arguments,
}

-- An entry that SymTabRecordFunInfo made for a parameter of the prototype.
abbrev pub IsFormalOf : Symbol → Parameter → Type 0
IsFormalOf formal q =
    (formal.type ≡ (if q.is_array then SymType.array else q.type))
    × (formal.elt_type ≡ (if q.is_array then q.type else SymType.none))
    × (is_void q.type ≡ false)

abbrev pub same_flag : Bool → Bool → Bool
same_flag true b = b
same_flag false b = not b

abbrev pub agrees : Parameter → Parameter → Bool
agrees q p = same_flag q.is_array p.is_array && same_type q.type p.type

-- The test finds a mismatch exactly when one is an array and the other is none, or the types
-- differ.
mismatch_exact :
    (formal : Symbol) (q p : Parameter)
    → IsFormalOf formal q
    → is_type_mismatch formal p ≡ not (agrees q p)
unfolding is_type_mismatch
mismatch_exact formal q p (t, e, v) = elim (Bool-cases q.is_array) [
  | inl a ↦ rw (e, t, a) (rw v (ground arith))
  | inr a ↦ rw (e, t, a) (ground arith)
]

abbrev pub AreFormalsOf : Symbols → List ℕ → List Parameter → Type 0
AreFormalsOf sym [] [] = Unit
AreFormalsOf sym (f ∷ fs) (q ∷ qs) = IsFormalOf (sym f) q × AreFormalsOf sym fs qs
AreFormalsOf sym _ _ = ⊥

abbrev pub all_agree : List Parameter → List Parameter → Bool
all_agree [] [] = true
all_agree (q ∷ qs) (p ∷ ps) = agrees q p && all_agree qs ps
all_agree _ _ = false

abbrev pub is_silent : List Message → Bool
is_silent [] = true
is_silent (m ∷ ms) = false

silent_step :
    (b rest : Bool) (m : Message) (ms : List Message)
    → is_silent ms ≡ rest
    → is_silent (if not b then m ∷ ms else ms) ≡ (b && rest)
silent_step true rest m ms h = h
silent_step false rest m ms h = refl

pub check_arguments_exact :
    (sym : Symbols) (n : ℕ) (formals : List ℕ) (qs ps : List Parameter)
    → AreFormalsOf sym formals qs
    → is_silent (check_arguments sym n formals ps) ≡ all_agree qs ps
unfolding check_arguments
check_arguments_exact sym n [] [] [] h = refl
check_arguments_exact sym n [] [] (p ∷ ps) h = refl
check_arguments_exact sym n [] (q ∷ qs) ps h = absurd h
check_arguments_exact sym n (f ∷ fs) [] ps h = absurd h
check_arguments_exact sym n (f ∷ fs) (q ∷ qs) [] h = refl
check_arguments_exact sym n (f ∷ fs) (q ∷ qs) (p ∷ ps) (h, hs) = rw (mismatch_exact (sym f) q p h) (
    silent_step (agrees q p) (all_agree qs ps) (Message.argument_type n)
      (check_arguments sym (suc n) fs ps) (check_arguments_exact sym (suc n) fs qs ps hs))
