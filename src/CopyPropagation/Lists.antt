-- ===== src/CopyPropagation/Lists.antt =====
-- Lists of variables as copy propagation changes them.
use csc.Common.{
  ◌⊎◌, ℕ, ◌+◌, ◌<◌, true, ◌&&◌, not, Option, none, List, [], ◌∷◌, ◌==◌, if◌then◌else◌, ◌≡◌, refl,
  ap, length, mem, NoDup, bit, arith, inl, inr,
}
use csc.SymbolTable.Variables.{without}
use csc.CopyPropagation.{put, forget_each}

-- How often a variable is in a list.
abbrev pub times : ℕ → List ℕ → ℕ
times a [] = 0
times a (x ∷ rest) = bit (x == a) + times a rest

pub mem-times : (a : ℕ) (l : List ℕ) → 0 < times a l → mem a l ≡ true
mem-times a [] h = absurd (omega arith)
mem-times a (x ∷ l) h = ground (arith, mem-times a l)

pub mem-length : (a : ℕ) (l : List ℕ) → mem a l ≡ true → 0 < length l
mem-length a [] h = absurd (ground arith)
mem-length a (x ∷ l) h = omega arith

pub times-without :
    (a v : ℕ) (l : List ℕ) → mem v l ≡ true → bit (v == a) + times a (without v l) ≡ times a l
times-without a v [] h = absurd (ground arith)
times-without a v (x ∷ l) h = ground (arith, times-without a v l)

pub mem-without : (a v : ℕ) (l : List ℕ) → NoDup l → mem a (without v l) ≡ (mem a l && not (v == a))
mem-without a v [] d = refl
mem-without a v (x ∷ l) (p, d) =
    ground (arith, mem-without a v l d, λ (e : x ≡ a). ap (λ y. mem y l) e)

pub length-without : (v : ℕ) (l : List ℕ) → mem v l ≡ true → length (without v l) + 1 ≡ length l
length-without v [] h = absurd (ground arith)
length-without v (x ∷ l) h = ground (arith, length-without v l)

pub without-NoDup : (v : ℕ) (l : List ℕ) → NoDup l → NoDup (without v l)
without-NoDup v [] d = tt
without-NoDup v (x ∷ l) (p, d) = ground (arith, without-NoDup v l d, mem-without x v l d)

pub forget_each-mem :
    (l : List ℕ) (from : ℕ → Option ℕ) (v : ℕ)
    → forget_each l from v ≡ (if mem v l then none else from v)
unfolding forget_each
forget_each-mem [] from v = refl
forget_each-mem (x ∷ l) from v = ground (arith, forget_each-mem l (put from x none) v)

pub list_cases : (l : List ℕ) → (l ≡ []) ⊎ ((x : ℕ) × (r : List ℕ) × (l ≡ x ∷ r))
list_cases [] = inl refl
list_cases (x ∷ r) = inr (x, r, refl)

pub nothing_listed : (l : List ℕ) → ((v : ℕ) → mem v l ≡ true → ⊥) → l ≡ []
nothing_listed [] h = refl
nothing_listed (x ∷ l) h = absurd (h x (ground arith))
