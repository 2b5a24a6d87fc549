-- ===== src/SymbolTable/Constants/Chain.antt =====
-- What the pointers from the head of the list of strings lead through.
use csc.Common.{
  ℕ, suc, ◌<◌, ◌≡◌, refl, ap, ap₂, sym, subst, ◌∙◌, true, false, Option, none, some, List, [], ◌∷◌,
  ◌++◌, ◌==◌, arith, Bool-cases, Option-cases, ==→eq, eq→==, inl, inr,
}
use mathlib.Core.Option.{some-injective}
use csc.Symbol.{Symbol, Symbols}
use csc.SymbolTable.Lookup.{AllBelow, set-same, set-other}
use csc.SymbolTable.{SymTab, set_symbol}
use csc.SymbolTable.Constants.{
  Strings, set_next, save_string_node, string_name, create_constant_string, get_string_list_head,
  create_strings,
}

-- From `o` the `next` fields lead through the nodes to NULL.
abbrev pub Leads : (ℕ → Option ℕ) → Option ℕ → List ℕ → Type 0
Leads next o [] = o ≡ none
Leads next o (a ∷ rest) = (o ≡ some a) × Leads next (next a) rest

abbrev pub last_node : List ℕ → Option ℕ
last_node [] = none
last_node (a ∷ []) = some a
last_node (a ∷ b ∷ rest) = last_node (b ∷ rest)

-- The list holds the nodes, which are allocated, and its tail is the last of them.
pub record IsStringList (fresh : ℕ) (ss : Strings) (nodes : List ℕ) : Type 0 where
  pub leads : Leads ss.next (get_string_list_head ss) nodes
  pub ends : ss.tail ≡ last_node nodes
  pub below : AllBelow fresh nodes

-- The label and the text of each node.
abbrev pub entries : Symbols → List ℕ → List (List ℕ × List ℕ)
entries s [] = []
entries s (a ∷ rest) = ((s a).name, (s a).const_str) ∷ entries s rest

-- The entries that strings get whose numbers start at `n`, and the addresses of their nodes.
abbrev pub numbered : ℕ → List (List ℕ) → List (List ℕ × List ℕ)
numbered n [] = []
numbered n (str ∷ rest) = (string_name n, str) ∷ numbered (suc n) rest

abbrev pub allocated : ℕ → List (List ℕ) → List ℕ
allocated a [] = []
allocated a (str ∷ rest) = a ∷ allocated (suc a) rest

last-append : (nodes : List ℕ) (a : ℕ) → last_node (nodes ++ (a ∷ [])) ≡ some a
last-append [] a = refl
last-append (b ∷ []) a = refl
last-append (b ∷ c ∷ rest) a = last-append (c ∷ rest) a

below-new : (a : ℕ) (nodes : List ℕ) → AllBelow a nodes → AllBelow (suc a) (nodes ++ (a ∷ []))
below-new a [] h = (omega arith, tt)
below-new a (b ∷ rest) (h, hs) = (omega (arith, h), below-new a rest hs)

-- Clearing the `next` field of a node that the list does not hold.
fresh-Leads :
    (next : ℕ → Option ℕ) (o : Option ℕ) (a : ℕ) (nodes : List ℕ)
    → AllBelow a nodes
    → Leads next o nodes
    → Leads (set_next next a none) o nodes
fresh-Leads next o a [] h l = l
fresh-Leads next o a (b ∷ rest) (h, hs) (l, ls) =
    let other : (a == b) ≡ false = ground (arith, h) in
    (l, rw other (fresh-Leads next (next b) a rest hs ls))

Leads-end :
    (next : ℕ → Option ℕ) (o : Option ℕ) (t : ℕ) (nodes : List ℕ)
    → Leads next o nodes
    → last_node nodes ≡ some t
    → next t ≡ none
Leads-end next o t [] l e = absurd cc
Leads-end next o t (b ∷ []) (l, ls) e = subst (λ c. next c ≡ none) (some-injective _ _ e) ls
Leads-end next o t (b ∷ c ∷ rest) (l, ls) e = Leads-end next (next b) t (c ∷ rest) ls e

last-below : (a t : ℕ) (nodes : List ℕ) → AllBelow a nodes → last_node nodes ≡ some t → t < a
last-below a t [] h e = absurd cc
last-below a t (b ∷ []) (h, hs) e = omega (arith, h, some-injective _ _ e)
last-below a t (b ∷ c ∷ rest) (h, hs) e = last-below a t (c ∷ rest) hs e

-- Linking a node behind the last one.
linked-Leads :
    (next : ℕ → Option ℕ) (o : Option ℕ) (a t : ℕ) (nodes : List ℕ)
    → t < a
    → next a ≡ none
    → Leads next o nodes
    → last_node nodes ≡ some t
    → Leads (set_next next t (some a)) o (nodes ++ (a ∷ []))
linked-Leads next o a t [] lt free l e = absurd cc
linked-Leads next o a t (b ∷ []) lt free (l, ls) e =
    let same : (t == b) ≡ true = eq→== t b (sym (some-injective _ _ e)) in
    let other : (t == a) ≡ false = ground (arith, lt) in (l, (rw same refl, rw other free))
linked-Leads next o a t (b ∷ c ∷ rest) lt free (l, ls) e = elim (Bool-cases (t == b)) [
  | inl same ↦
      let none_here : next b ≡ none =
        subst (λ x. next x ≡ none) (==→eq t b same) (Leads-end next (next b) t (c ∷ rest) ls e) in
      absurd (cc (none_here, ls.0))
  | inr other ↦ (l, rw other (linked-Leads next (next b) a t (c ∷ rest) lt free ls e))
]

entries-new :
    (s : Symbols) (a : ℕ) (e : Symbol) (nodes : List ℕ)
    → AllBelow a nodes
    → entries (set_symbol s a e) (nodes ++ (a ∷ []))
      ≡ entries s nodes ++ ((e.name, e.const_str) ∷ [])
entries-new s a e [] h = ap (λ x. (x.name, x.const_str) ∷ []) (set-same s a e)
entries-new s a e (b ∷ rest) (h, hs) =
    ap₂ ◌∷◌ (ap (λ x. (x.name, x.const_str)) (set-other s a b e h)) (entries-new s a e rest hs)

no_tail : (nodes : List ℕ) → last_node nodes ≡ none → nodes ≡ []
no_tail [] e = refl
no_tail (b ∷ []) e = absurd cc
no_tail (b ∷ c ∷ rest) e = absurd (cc (no_tail (c ∷ rest) e))

-- One new string.
create-IsStringList :
    (str : List ℕ) (st : SymTab) (ss : Strings) (nodes : List ℕ)
    → IsStringList st.fresh ss nodes
    → (let (a, after) = create_constant_string str st ss in
        IsStringList after.0.fresh after.1 (nodes ++ (a ∷ [])))
unfolding create_constant_string save_string_node get_string_list_head
create-IsStringList str st ss nodes h =
    let cleared = set_next ss.next st.fresh none in
    let free : cleared st.fresh ≡ none = rw (eq→== st.fresh st.fresh refl) refl in
    let kept = fresh-Leads ss.next ss.head st.fresh nodes h.below h.leads in
    elim (Option-cases ss.tail) [
      | inl first ↦
          (let only : Strings = record {
            head = some st.fresh;
            tail = some st.fresh;
            next = cleared;
            string_counter = suc ss.string_counter;
          } in
            let empty : [] ≡ nodes = sym (no_tail nodes (sym h.ends ∙ first)) in
            rw (save_string_node, first)
              (subst (λ ns. IsStringList (suc st.fresh) only (ns ++ (st.fresh ∷ []))) empty
                (record { leads = (refl, free); ends = refl; below = (omega arith, tt) })))
      | inr (t, e) ↦
          let at_end : last_node nodes ≡ some t = sym h.ends ∙ e in
          rw (save_string_node, e)
            (record {
              leads =
                  linked-Leads cleared ss.head st.fresh t nodes
                    (last-below st.fresh t nodes h.below at_end) free kept at_end;
              ends = sym (last-append nodes st.fresh);
              below = below-new st.fresh nodes h.below;
            })
    ]

append_nil : {A : Type 0} (xs : List A) → xs ++ [] ≡ xs
append_nil [] = refl
append_nil (x ∷ xs) = ap (◌∷◌ x) (append_nil xs)

append_assoc :
    {A : Type 0} (xs : List A) (y : A) (ys : List A) → (xs ++ (y ∷ [])) ++ ys ≡ xs ++ (y ∷ ys)
append_assoc [] y ys = refl
append_assoc (x ∷ xs) y ys = ap (◌∷◌ x) (append_assoc xs y ys)

string_counter-create :
    (str : List ℕ) (st : SymTab) (ss : Strings)
    → (create_constant_string str st ss).1.1.string_counter ≡ suc ss.string_counter
unfolding create_constant_string save_string_node
string_counter-create str st ss = elim (Option-cases ss.tail) [
  | inl e ↦ rw (save_string_node, e) refl
  | inr (t, e) ↦ rw (save_string_node, e) refl
]

-- If the head of the list leads through some allocated nodes to NULL and the tail is the last of
-- them, then after strings are created it leads through the same nodes and then one new node for
-- each string, in order, and the tail is the last of all. The old nodes keep their labels and
-- texts, and the new ones have the strings' texts and labels that are numbered on.
pub create_strings_exact :
    (strs : List (List ℕ)) (st : SymTab) (ss : Strings) (nodes : List ℕ)
    → IsStringList st.fresh ss nodes
    → (let after = create_strings strs st ss in
        IsStringList after.0.fresh after.1 (nodes ++ allocated st.fresh strs)
        × (entries after.0.symbols (nodes ++ allocated st.fresh strs)
            ≡ entries st.symbols nodes ++ numbered ss.string_counter strs))
unfolding create_strings create_constant_string
create_strings_exact [] st ss nodes h =
    rw (append_nil nodes, append_nil (entries st.symbols nodes)) (h, refl)
create_strings_exact (str ∷ rest) st ss nodes h =
    let (a, after) = create_constant_string str st ss in
    let (good, read) =
      create_strings_exact rest after.0 after.1 (nodes ++ (a ∷ []))
        (create-IsStringList str st ss nodes h) in
    let done = create_strings rest after.0 after.1 in
    let grouped = append_assoc nodes a (allocated (suc a) rest) in
    let old = entries st.symbols nodes in
    let new : List ℕ × List ℕ = (string_name ss.string_counter, str) in
    (
      subst (IsStringList done.0.fresh done.1) grouped good,
      ap (entries done.0.symbols) (sym grouped)
          ∙ read
          ∙ ap (λ es. es ++ numbered after.1.string_counter rest)
              (entries-new st.symbols a _ nodes h.below)
          ∙ ap (λ n. (old ++ (new ∷ [])) ++ numbered n rest) (string_counter-create str st ss)
          ∙ append_assoc old new (numbered (suc ss.string_counter) rest),
    )
