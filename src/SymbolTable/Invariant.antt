-- ===== src/SymbolTable/Invariant.antt =====
-- What always holds of the symbol tables, and that the local table lists no entry twice.
use csc.Common.{
  ℕ, zero, suc, ◌<◌, ◌≡◌, refl, Bool, true, false, ◌&&◌, List, [], ◌∷◌, ◌==◌, ==→eq, if◌then◌else◌,
  arith, Bool-cases, Option-cases, inl, inr, mem, NoDup, mem-append, append-NoDup,
}
use csc.Symbol.{Symbol, Symbols, Scope}
use csc.SymbolTable.{
  SymTab, set_symbol, same_scope, hash, sym_tab_insert, insert_new, sym_tab_lookup,
}
use csc.SymbolTable.Lookup.{AllBelow, IsBounded, insert_new-IsBounded}
use csc.SymbolTable.Layout.{local_nodes}

-- Entries are allocated, in one bucket once, in the bucket of their name's hash.
pub record IsTable (st : SymTab) : Type 0 where
  pub bounded : IsBounded st
  pub distinct : (s : Scope) (i : ℕ) → NoDup (st.buckets s i)
  pub hashed : (s : Scope) (i a : ℕ) → mem a (st.buckets s i) ≡ true → hash (st.symbols a).name ≡ i

pub mem-below : (n a : ℕ) (xs : List ℕ) → AllBelow n xs → mem a xs ≡ true → a < n
mem-below n a [] h m = ground arith
mem-below n a (x ∷ xs) (h, hs) m = ground (arith, mem-below n a xs hs)

pub fresh-absent : (n : ℕ) (xs : List ℕ) → AllBelow n xs → mem n xs ≡ false
fresh-absent n xs h = elim (Bool-cases (mem n xs)) [
  | inl m ↦ let below = mem-below n n xs h m in absurd (omega arith)
  | inr m ↦ m
]

-- A bucket that may have got a new entry.
new-NoDup :
    (hit : Bool) (n : ℕ) (xs : List ℕ)
    → AllBelow n xs
    → NoDup xs
    → NoDup (if hit then n ∷ xs else xs)
new-NoDup true n xs h d = (fresh-absent n xs h, d)
new-NoDup false n xs h d = d

new-hash :
    (hit : Bool) (s : Symbols) (n i a : ℕ) (e : Symbol) (xs : List ℕ)
    → AllBelow n xs
    → (hit ≡ true → hash e.name ≡ i)
    → (mem a xs ≡ true → hash (s a).name ≡ i)
    → mem a (if hit then n ∷ xs else xs) ≡ true
    → hash (set_symbol s n e a).name ≡ i
unfolding set_symbol
new-hash true s n i a e xs h new old m = elim (Bool-cases (n == a)) [
  | inl same ↦ rw same (new refl)
  | inr other ↦ rw other (old (rw other at m))
]
new-hash false s n i a e xs h new old m =
    let below = mem-below n a xs h m in
    let other : (n == a) ≡ false = ground arith in rw other (old m)

module _ (st : SymTab) (table : IsTable st) where
  -- The nodes of the first `n` buckets have a hash below `n`,
  nodes-hashed : (n a : ℕ) → mem a (local_nodes n st) ≡ true → hash (st.symbols a).name < n
  unfolding local_nodes
  nodes-hashed zero a m = ground arith
  nodes-hashed (suc n) a m = ground (
    arith,
    mem-append a (local_nodes n st) (st.buckets Scope.local n),
    nodes-hashed n a,
    table.hashed Scope.local n a,
  )

  -- so that no entry is in two of them.
  pub nodes-NoDup : (n : ℕ) → NoDup (local_nodes n st)
  unfolding local_nodes
  nodes-NoDup zero = tt
  nodes-NoDup (suc n) =
      append-NoDup (local_nodes n st) (st.buckets Scope.local n) (nodes-NoDup n)
        (table.distinct Scope.local n)
        λ a m. ground (
          arith,
          nodes-hashed n a m,
          table.hashed Scope.local n a,
          Bool-cases (mem a (st.buckets Scope.local n)),
        )

  insert_new-IsTable : (str : List ℕ) (sc : Scope) → IsTable (insert_new str sc st)
  unfolding insert_new
  insert_new-IsTable str sc = record {
    bounded = insert_new-IsBounded str sc st table.bounded;
    distinct = λ s i.
        new-NoDup (same_scope sc s && (hash str == i)) st.fresh (st.buckets s i) (table.bounded s i)
          (table.distinct s i);
    hashed = λ s i a m.
        new-hash (same_scope sc s && (hash str == i)) st.symbols st.fresh i a _ (st.buckets s i)
          (table.bounded s i) (λ hit. ==→eq (hash str) i (ground arith)) (table.hashed s i a) m;
  }

  -- An insertion keeps the tables well formed, whether the name is new or not.
  pub insert-IsTable : (str : List ℕ) (sc : Scope) → IsTable (sym_tab_insert str sc st).1
  unfolding sym_tab_insert
  insert-IsTable str sc = elim (Option-cases (sym_tab_lookup str sc st)) [
    | inl n ↦ rw (sym_tab_insert, n) (insert_new-IsTable str sc)
    | inr (a, m) ↦ rw (sym_tab_insert, m) table
  ]
