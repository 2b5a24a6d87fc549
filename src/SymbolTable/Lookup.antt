-- ===== src/SymbolTable/Lookup.antt =====
-- What a lookup finds after an insertion.
use csc.Common.{
  ℕ, suc, ◌<◌, ◌≡◌, refl, sym, ap, ◌∙◌, Bool, true, false, ◌&&◌, some, List, [], ◌∷◌, ◌==◌, ==→eq,
  eq→==, if◌then◌else◌, arith, Bool-cases, Option-cases, inl, inr, ap₂,
}
use csc.Symbol.{Symbol, Symbols, Scope}
use csc.SymbolTable.{
  SymTab, set_symbol, same_name, same_scope, find_name, hash, sym_tab_lookup, sym_tab_insert,
  insert_new,
}

abbrev pub AllBelow : ℕ → List ℕ → Type 0
AllBelow n [] = Unit
AllBelow n (a ∷ rest) = (a < n) × AllBelow n rest

-- All entries of the tables are allocated.
abbrev pub IsBounded : SymTab → Type 0
IsBounded st = (s : Scope) (i : ℕ) → AllBelow st.fresh (st.buckets s i)

pub same_name_refl : (str : List ℕ) → same_name str str ≡ true
unfolding same_name
same_name_refl [] = refl
same_name_refl (c ∷ cs) = ground (arith, same_name_refl cs)

pub same_name→eq : (a b : List ℕ) → same_name a b ≡ true → a ≡ b
unfolding same_name
same_name→eq [] [] h = refl
same_name→eq (a ∷ as_) (b ∷ bs) h =
    let (head, tail) = split (a == b) (same_name as_ bs) h in
    ap₂ ◌∷◌ (==→eq a b head) (same_name→eq as_ bs tail)
  where
    split : (p q : Bool) → (p && q) ≡ true → (p ≡ true) × (q ≡ true)
    split p q e = ground arith
same_name→eq [] (b ∷ bs) h = ground arith
same_name→eq (a ∷ as_) [] h = ground arith

same_scope→eq : (s t : Scope) → same_scope s t ≡ true → s ≡ t
same_scope→eq Scope.global Scope.global h = refl
same_scope→eq Scope.local Scope.local h = refl
same_scope→eq Scope.global Scope.local h = ground arith
same_scope→eq Scope.local Scope.global h = ground arith

pub set-same : (s : Symbols) (a : ℕ) (e : Symbol) → set_symbol s a e a ≡ e
unfolding set_symbol
set-same s a e = rw (eq→== a a refl) refl

pub set-other : (s : Symbols) (a b : ℕ) (e : Symbol) → b < a → set_symbol s a e b ≡ s b
unfolding set_symbol
set-other s a b e h = let other : (a == b) ≡ false = ground arith in rw other refl

-- A change of an entry that the list does not hold changes no search of the list.
find-set :
    (s : Symbols) (a : ℕ) (e : Symbol) (str : List ℕ) (bucket : List ℕ)
    → AllBelow a bucket
    → find_name (set_symbol s a e) str bucket ≡ find_name s str bucket
unfolding find_name set_symbol
find-set s a e str [] h = refl
find-set s a e str (b ∷ rest) (h, hs) =
    let other : (a == b) ≡ false = ground arith in rw (other, find-set s a e str rest hs) refl

-- A search of a bucket that may have the new entry at its head.
find-new :
    (s : Symbols) (a : ℕ) (e : Symbol) (str : List ℕ) (bucket : List ℕ) (hit : Bool)
    → AllBelow a bucket
    → find_name (set_symbol s a e) str (if hit then a ∷ bucket else bucket)
      ≡ (if hit && same_name str e.name then some a else find_name s str bucket)
unfolding find_name set_symbol
find-new s a e str bucket false h = find-set s a e str bucket h
find-new s a e str bucket true h =
    let itself : (a == a) ≡ true = eq→== a a refl in rw (itself, find-set s a e str bucket h) refl

pub weaken : (n : ℕ) (bucket : List ℕ) → AllBelow n bucket → AllBelow (suc n) bucket
weaken n [] b = tt
weaken n (a ∷ rest) (b, bs) = (omega (arith, b), weaken n rest bs)

module _ (str : List ℕ) (sc : Scope) (st : SymTab) (bounded : IsBounded st) where
  pub insert_new-IsBounded : IsBounded (insert_new str sc st)
  unfolding insert_new
  insert_new-IsBounded s i = elim (Bool-cases (same_scope sc s && (hash str == i))) [
    | inl h ↦ rw h (omega arith, weaken st.fresh (st.buckets s i) (bounded s i))
    | inr h ↦ rw h (weaken st.fresh (st.buckets s i) (bounded s i))
  ]

  new_entry :
      (other : List ℕ) (s : Scope)
      → sym_tab_lookup other s (insert_new str sc st) ≡ (
          if same_scope sc s && same_name other str
          then some st.fresh
          else sym_tab_lookup other s st)
  unfolding insert_new sym_tab_lookup
  new_entry other s =
      find-new st.symbols st.fresh _ other (st.buckets s (hash other))
        (same_scope sc s && (hash str == hash other)) (bounded s (hash other))
      ∙ ap (λ b. if b then some st.fresh else sym_tab_lookup other s st)
          (one_bucket (same_scope sc s) (same_name other str) refl)
    where
      one_bucket :
          (b same : Bool)
          → same_name other str ≡ same
          → ((b && (hash str == hash other)) && same) ≡ (b && same)
      one_bucket b true e =
          rw (eq→== (hash str) (hash other) (ap hash (sym (same_name→eq other str e))))
            (ground arith)
      one_bucket b false e = ground arith

  -- After an insertion, a lookup of that name in that scope finds the entry that the insertion returned, and every other
  -- lookup finds what it found before.
  pub lookup-insert :
      (other : List ℕ) (s : Scope)
      → sym_tab_lookup other s (sym_tab_insert str sc st).1 ≡ (
          if same_scope sc s && same_name other str
          then some (sym_tab_insert str sc st).0
          else sym_tab_lookup other s st)
  unfolding sym_tab_insert
  lookup-insert other s = elim (Option-cases (sym_tab_lookup str sc st)) [
    | inl n ↦ rw (sym_tab_insert, n) (new_entry other s)
    | inr (a, m) ↦ rw (sym_tab_insert, m) (present a m other s)
  ]
    where
      present :
          (a : ℕ)
          → sym_tab_lookup str sc st ≡ some a
          → (other : List ℕ) (s : Scope)
          → sym_tab_lookup other s st
            ≡ (if same_scope sc s && same_name other str then some a else sym_tab_lookup other s st)
      present a m other s = elim (Bool-cases (same_scope sc s)) [
        | inl h ↦ elim (Bool-cases (same_name other str)) [
          | inl k ↦ rw (h, k) (rw (same_name→eq other str k, sym (same_scope→eq sc s h)) m)
          | inr k ↦ rw (h, k) refl
        ]
        | inr h ↦ rw h refl
      ]
