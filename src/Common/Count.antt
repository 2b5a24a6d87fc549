-- ===== src/Common/Count.antt =====
-- Counting the numbers below a bound that pass a test, and sums below a bound.
use Prim.Native.Nat.{ℕ, zero, suc, ◌+◌, ◌*◌, ◌≤◌, ◌<◌}
use mathlib.Core.Path.{◌≡◌, refl, subst}
use mathlib.Core.Logic.{inl, inr}
use mathlib.Core.Bool.{Bool, true, false}
use native.Mathlib.Omega.{arith}
use native.Mathlib.Decide.{ℕ_discrete}
use csc.Common.Tests.{Bool-cases}

abbrev pub bit : Bool → ℕ
bit true = 1
bit false = 0

abbrev pub sum_below : ℕ → (ℕ → ℕ) → ℕ
sum_below zero f = 0
sum_below (suc n) f = sum_below n f + f n

abbrev pub count_below : ℕ → (ℕ → Bool) → ℕ
count_below n p = sum_below n (λ i. bit (p i))

pub sum_mono : (n : ℕ) (f g : ℕ → ℕ) → ((i : ℕ) → i < n → f i ≤ g i) → sum_below n f ≤ sum_below n g
sum_mono zero f g h = omega arith
sum_mono (suc n) f g h = omega (arith, sum_mono n f g (λ i r. h i (omega arith)), h n (omega arith))

pub sum_strict :
    (n : ℕ) (f g : ℕ → ℕ) (k : ℕ)
    → ((i : ℕ) → i < n → f i ≤ g i)
    → k < n
    → f k < g k
    → sum_below n f < sum_below n g
sum_strict zero f g k h r lt = absurd (omega arith)
sum_strict (suc n) f g k h r lt = elim (ℕ_discrete k n) [
  | yes e ↦ omega (arith, sum_mono n f g (λ i q. h i (omega arith)), subst (λ j. f j < g j) e lt)
  | no ne ↦
      omega
        (arith, sum_strict n f g k (λ i q. h i (omega arith)) (omega arith) lt, h n (omega arith))
]

pub sum_bound : (n m : ℕ) (f : ℕ → ℕ) → ((i : ℕ) → i < n → f i ≤ m) → sum_below n f ≤ n * m
sum_bound zero m f h = omega arith
sum_bound (suc n) m f h =
    grind (arith, sum_bound n m f (λ i r. h i (omega arith)), h n (omega arith))

pub count_mono :
    (n : ℕ) (p q : ℕ → Bool)
    → ((i : ℕ) → i < n → p i ≡ true → q i ≡ true)
    → count_below n p ≤ count_below n q
count_mono n p q h = sum_mono n _ _ (λ i r. le_bit (p i) (q i) (h i r))
  where
    le_bit : (a b : Bool) → (a ≡ true → b ≡ true) → bit a ≤ bit b
    le_bit a b k = ground arith

pub count_bound : (n : ℕ) (p : ℕ → Bool) → count_below n p ≤ n
count_bound zero p = omega arith
count_bound (suc n) p = ground (arith, count_bound n p)

-- Where one test implies the other and both are passed as often, they are the same.
pub count_eq :
    (n : ℕ) (p q : ℕ → Bool)
    → ((i : ℕ) → i < n → p i ≡ true → q i ≡ true)
    → count_below n q ≤ count_below n p
    → (i : ℕ) → i < n
    → p i ≡ q i
count_eq n p q h le i r = elim (Bool-cases (p i)) [
  | inl is ↦ rw (is, h i r is) refl
  | inr not_p ↦ elim (Bool-cases (q i)) [
    | inl is ↦ absurd (
        omega (
          arith,
          sum_strict n (λ j. bit (p j)) (λ j. bit (q j)) i (λ j s. le_bit (p j) (q j) (h j s)) r
              (rw (not_p, is) (omega arith)),
        ))
    | inr not_q ↦ rw (not_p, not_q) refl
  ]
]
  where
    le_bit : (a b : Bool) → (a ≡ true → b ≡ true) → bit a ≤ bit b
    le_bit a b k = ground arith
