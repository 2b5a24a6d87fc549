-- ===== src/Common/Lists.antt =====
-- Lists as C arrays, indexed by native numbers.
use Prim.Native.Nat.{ℕ, zero, suc, ◌+◌, ◌≤◌, ◌<◌}
use mathlib.Core.Path.{◌≡◌, refl, ap, ap₂}
use mathlib.Core.List.{List, [], ◌∷◌, ◌++◌}
use native.Mathlib.Omega.{arith}
use mathlib.Core.Bool.{Bool, true, false, ◌||◌}
use csc.Common.Tests.{◌==◌, ltb, if◌then◌else◌}

module _ {ℓ} {A : Type ℓ} where
  abbrev pub length : List A → ℕ
  length [] = 0
  length (x ∷ xs) = suc (length xs)

  -- A read out of bounds gives the default.
  abbrev pub get_or : List A → ℕ → A → A
  get_or [] i d = d
  get_or (x ∷ xs) zero d = x
  get_or (x ∷ xs) (suc i) d = get_or xs i d

  -- A write out of bounds changes nothing.
  abbrev pub set : List A → ℕ → A → List A
  set [] i v = []
  set (x ∷ xs) zero v = v ∷ xs
  set (x ∷ xs) (suc i) v = x ∷ set xs i v

  abbrev pub replicate : ℕ → A → List A
  replicate zero a = []
  replicate (suc n) a = a ∷ replicate n a

  pub length-append : (xs ys : List A) → length (xs ++ ys) ≡ length xs + length ys
  length-append [] ys = omega arith
  length-append (x ∷ xs) ys = omega (arith, length-append xs ys)

  pub length-set : (xs : List A) (i : ℕ) (v : A) → length (set xs i v) ≡ length xs
  length-set [] i v = refl
  length-set (x ∷ xs) zero v = refl
  length-set (x ∷ xs) (suc i) v = ap suc (length-set xs i v)

  pub length-replicate : (n : ℕ) (a : A) → length (replicate n a) ≡ n
  length-replicate zero a = refl
  length-replicate (suc n) a = ap suc (length-replicate n a)

  pub get_or-replicate : (n i : ℕ) (a : A) → get_or (replicate n a) i a ≡ a
  get_or-replicate zero i a = refl
  get_or-replicate (suc n) zero a = refl
  get_or-replicate (suc n) (suc i) a = get_or-replicate n i a

  pub get_or-set :
      (xs : List A) (i j : ℕ) (v d : A)
      → i < length xs
      → get_or (set xs i v) j d ≡ (if i == j then v else get_or xs j d)
  get_or-set [] i j v d h = absurd (omega arith)
  get_or-set (x ∷ xs) zero zero v d h = refl
  get_or-set (x ∷ xs) (suc i) (suc j) v d h = ground (arith, get_or-set xs i j v d)
  get_or-set (x ∷ xs) i j v d h = ground arith

  -- Writing back what stands there changes nothing.
  pub set-get_or : (xs : List A) (i : ℕ) (d : A) → set xs i (get_or xs i d) ≡ xs
  set-get_or [] i d = refl
  set-get_or (x ∷ xs) zero d = refl
  set-get_or (x ∷ xs) (suc i) d = ap (◌∷◌ x) (set-get_or xs i d)

  pub get_or_ext :
      (d : A) (xs ys : List A)
      → length xs ≡ length ys
      → ((i : ℕ) → i < length xs → get_or xs i d ≡ get_or ys i d)
      → xs ≡ ys
  get_or_ext d [] [] e h = refl
  get_or_ext d [] (y ∷ ys) e h = absurd (omega arith)
  get_or_ext d (x ∷ xs) [] e h = absurd (omega arith)
  get_or_ext d (x ∷ xs) (y ∷ ys) e h =
      ap₂ ◌∷◌ (h 0 (omega arith))
        (get_or_ext d xs ys (omega arith) (λ i p. h (suc i) (omega arith)))

  -- `for (int i = 0; i < n; i++) a[i] = f(i);`
  abbrev pub fill : ℕ → (ℕ → A) → List A → List A
  fill zero f xs = xs
  fill (suc n) f xs = set (fill n f xs) n (f n)

  pub length-fill : (n : ℕ) (f : ℕ → A) (xs : List A) → length (fill n f xs) ≡ length xs
  length-fill zero f xs = refl
  length-fill (suc n) f xs = omega (arith, length-set (fill n f xs) n (f n), length-fill n f xs)

  pub get_or-fill :
      (n : ℕ) (f : ℕ → A) (xs : List A) (j : ℕ) (d : A)
      → n ≤ length xs
      → get_or (fill n f xs) j d ≡ (if ltb j n then f j else get_or xs j d)
  get_or-fill zero f xs j d h = ground arith
  get_or-fill (suc n) f xs j d h = ground (
    arith,
    length-fill n f xs,
    get_or-set (fill n f xs) n j (f n) d,
    get_or-fill n f xs j d,
    λ (e : n ≡ j). ap f e,
  )

-- Membership in a list of addresses.
abbrev pub mem : ℕ → List ℕ → Bool
mem a [] = false
mem a (x ∷ rest) = (x == a) || mem a rest

abbrev pub NoDup : List ℕ → Type 0
NoDup [] = Unit
NoDup (x ∷ rest) = (mem x rest ≡ false) × NoDup rest

pub mem-append : (a : ℕ) (xs ys : List ℕ) → mem a (xs ++ ys) ≡ (mem a xs || mem a ys)
mem-append a [] ys = refl
mem-append a (x ∷ xs) ys = ground (arith, mem-append a xs ys)

pub append-NoDup :
    (xs ys : List ℕ)
    → NoDup xs
    → NoDup ys
    → ((a : ℕ) → mem a xs ≡ true → mem a ys ≡ false)
    → NoDup (xs ++ ys)
append-NoDup [] ys p q h = q
append-NoDup (x ∷ xs) ys (p, ps) q h =
    (ground (arith, mem-append x xs ys, h x), append-NoDup xs ys ps q (λ a m. h a (ground arith)))
