-- ===== src/Set/Full.antt =====
-- set.c: which numbers create_full_set puts into its set.
use native.Mathlib.Nat.{pow-suc, one-le-pow}
use csc.Common.{
  ℕ, zero, suc, ◌+◌, ◌-◌, ◌*◌, ◌/◌, ◌%◌, ◌^◌, ◌<◌, ◌≡◌, refl, ap, arith, ltb, ◌==◌, if◌then◌else◌,
  test_bit, test_bit-zero, bit_or-one, test_bit-ones, pow-lt_32, some, List, length, fill, set,
  get_or, get_or-fill, get_or-set, length-fill, length-set,
}
use csc.Set.{
  Set, words, word, is_set_undefined, shift_in_ones, create_empty_set, create_full_set,
  does_elto_belong_to_set,
}
use csc.Set.Words.{IsWellFormed, partitions, belongs-bit, empty-word, empty-IsWellFormed}

-- The loop makes a mask of `r` ones.
shift_in_ones-ones : (r : ℕ) → r < 32 → shift_in_ones r 0 ≡ 2 ^ r - 1
unfolding shift_in_ones
shift_in_ones-ones zero h = refl
shift_in_ones-ones (suc r) h =
    let ih = shift_in_ones-ones r (omega arith) in
    let room = pow-lt_32 (suc r) h in
    let step : shift_in_ones r 0 * 2 % 2 ^ 32 ≡ (2 ^ r - 1) * 2 =
      omega (arith, ih, room, pow-suc 2 r) in
    rw (step, bit_or-one (2 ^ r - 1)) (omega (arith, pow-suc 2 r, one-le-pow r 2))

-- The words of the full set.
full_words : ℕ → ℕ → ℕ
full_words n p =
    if ltb p (partitions n - 1)
    then 2 ^ 32 - 1
    else if p == partitions n - 1
    then 2 ^ (n % 32) - 1
    else 0

module _ (n : ℕ) (some_size : 0 < n) where
  abbrev last : ℕ
  last = partitions n - 1

  abbrev ones : List ℕ
  ones = fill last (λ _. 2 ^ 32 - 1) (words (create_empty_set n))

  abbrev pub full : Set
  full = record {
    max_size = n;
    num_partitions = partitions n;
    mask = some (set ones last (shift_in_ones (n % 32) (get_or ones last 0)));
  }

  pub create_full_lem : create_full_set n ≡ some full
  unfolding create_full_set
  create_full_lem = ground arith

  length-ones : length ones ≡ partitions n
  length-ones = omega (
    arith,
    length-fill last (λ _. 2 ^ 32 - 1) (words (create_empty_set n)),
    (empty-IsWellFormed n).filled,
  )

  get_or-ones : (p : ℕ) → get_or ones p 0 ≡ (if ltb p last then 2 ^ 32 - 1 else 0)
  get_or-ones p =
      rw
        (
          get_or-fill last (λ _. 2 ^ 32 - 1) (words (create_empty_set n)) p 0
              (omega (arith, (empty-IsWellFormed n).filled)),
          empty-word n p,
        )
        refl

  full-word : (p : ℕ) → word full p ≡ full_words n p
  unfolding full_words
  full-word p =
      rw
        (get_or-set ones last p (shift_in_ones (n % 32) (get_or ones last 0)) 0
          (omega (arith, length-ones)))
        (ground (
          arith,
          get_or-ones p,
          get_or-ones last,
          shift_in_ones-ones (n % 32),
          ap (shift_in_ones (n % 32)) (get_or-ones last),
        ))

  full_words-lt : (p : ℕ) → full_words n p < 2 ^ 32
  unfolding full_words
  full_words-lt p = ground (arith, pow-lt_32 (n % 32))

  -- Where the size is no multiple of 32.
  abbrev pub covered : ℕ
  covered = if n % 32 == 0 then n - 32 else n

  full_words-bit : (p k : ℕ) → k < 32 → test_bit (full_words n p) k ≡ ltb (p * 32 + k) covered
  unfolding full_words
  full_words-bit p k r =
      ground (arith, test_bit-ones (n % 32) k, test_bit-ones 32 k, test_bit-zero k)

  pub full-IsWellFormed : IsWellFormed n full
  full-IsWellFormed = record {
    sized = refl;
    parts = refl;
    defined = unfold is_set_undefined in refl;
    filled =
        omega
          (arith, length-ones, length-set ones last (shift_in_ones (n % 32) (get_or ones last 0)));
    fits = λ p. rw (full-word p) (full_words-lt p);
    clean = λ p k r h. rw (full-word p) (rw (full_words-bit p k r) (ground arith));
  }

  -- A full set is made for every positive size. Its members are the numbers below the size if that
  -- is no multiple of 32; if it is one, the last 32 numbers are missing.
  pub create_full_correct :
      (s : Set) × (create_full_set n ≡ some s)
      × IsWellFormed n s
      × ((i : ℕ) → does_elto_belong_to_set i s ≡ ltb i covered)
  create_full_correct = (
    full,
    create_full_lem,
    full-IsWellFormed,
    λ i.
        rw
          (
            belongs-bit n i full full-IsWellFormed,
            full-word (i / 32),
            full_words-bit (i / 32) (i % 32) (omega arith),
          )
          (ap (λ j. ltb j covered) (omega arith)),
  )
