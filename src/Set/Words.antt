-- ===== src/Set/Words.antt =====
-- set.c: what a well-formed set is, and that every operation of set.c keeps it so.
use csc.Common.{
  ℕ, ◌+◌, ◌*◌, ◌/◌, ◌%◌, ◌^◌, ◌≤◌, ◌<◌, ◌≡◌, refl, false, List, arith, ltb, ◌==◌, if◌then◌else◌,
  length, get_or, set, replicate, fill, length-set, length-fill, length-replicate, get_or-set,
  get_or-fill, get_or-replicate, test_bit, test_bit-zero, bit_and-pow,
}
use csc.Set.{
  Set, words, word, store, is_set_undefined, create_empty_set, fresh, does_elto_belong_to_set,
}

abbrev pub partitions : ℕ → ℕ
partitions n = (n + 31) / 32

-- A set made for the numbers below `n`: the mask is there and has its words, each of 32 bits, and
-- no bit for a number from `n` on is set.
pub record IsWellFormed (n : ℕ) (s : Set) : Type 0 where
  pub sized : s.max_size ≡ n
  pub parts : s.num_partitions ≡ partitions n
  pub defined : is_set_undefined s ≡ false
  pub filled : length (words s) ≡ partitions n
  pub fits : (p : ℕ) → word s p < 2 ^ 32
  pub clean : (p k : ℕ) → k < 32 → n ≤ p * 32 + k → test_bit (word s p) k ≡ false

-- Membership is bit `i % 32` of word `i / 32`.
pub belongs-bit :
    (n i : ℕ) (s : Set)
    → IsWellFormed n s
    → does_elto_belong_to_set i s ≡ test_bit (word s (i / 32)) (i % 32)
unfolding does_elto_belong_to_set
belongs-bit n i s h = ground (arith, h.defined, bit_and-pow (i % 32) (word s (i / 32)))

-- A freshly made set, its words filled by a loop over the partitions.
module _ (n : ℕ) (f : ℕ → ℕ) where
  abbrev zeros : List ℕ
  zeros = fill (partitions n) (λ _. 0) (replicate (partitions n) 0)

  length-zeros : length zeros ≡ partitions n
  length-zeros = omega (
    arith,
    length-fill {A = ℕ} (partitions n) (λ _. 0) (replicate (partitions n) 0),
    length-replicate {A = ℕ} (partitions n) 0,
  )

  get_or-zeros : (p : ℕ) → get_or zeros p 0 ≡ 0
  get_or-zeros p = ground (
    arith,
    length-replicate {A = ℕ} (partitions n) 0,
    get_or-replicate {A = ℕ} (partitions n) p 0,
    get_or-fill {A = ℕ} (partitions n) (λ _. 0) (replicate (partitions n) 0) p 0,
  )

  get_or-filled :
      (p : ℕ) → get_or (fill (partitions n) f zeros) p 0 ≡ (if ltb p (partitions n) then f p else 0)
  get_or-filled p =
      ground (arith, length-zeros, get_or-zeros p, get_or-fill {A = ℕ} (partitions n) f zeros p 0)

pub empty-word : (n p : ℕ) → word (create_empty_set n) p ≡ 0
unfolding create_empty_set
empty-word n p = get_or-zeros n (λ _. 0) p

pub empty-IsWellFormed : (n : ℕ) → IsWellFormed n (create_empty_set n)
empty-IsWellFormed n = record {
  sized = unfold create_empty_set in refl;
  parts = unfold create_empty_set in refl;
  defined = unfold create_empty_set is_set_undefined in refl;
  filled = unfold create_empty_set in length-zeros n (λ _. 0);
  fits = λ p. rw (empty-word n p) (omega arith);
  clean = λ p k r h. rw (empty-word n p) (test_bit-zero k);
}

-- What the loops of unify_sets, intersect_sets and diff_sets build.
module _ (n : ℕ) (s : Set) (f : ℕ → ℕ) (h : IsWellFormed n s) where
  pub fresh-word : (p : ℕ) → word (fresh s f) p ≡ (if ltb p (partitions n) then f p else 0)
  unfolding fresh
  fresh-word p = rw (h.sized, h.parts) (get_or-filled n f p)

  pub fresh-IsWellFormed :
      ((p : ℕ) → f p < 2 ^ 32)
      → ((p k : ℕ) → k < 32 → n ≤ p * 32 + k → test_bit (f p) k ≡ false)
      → IsWellFormed n (fresh s f)
  fresh-IsWellFormed low clear = record {
    sized = unfold fresh create_empty_set in h.sized;
    parts = unfold fresh create_empty_set in rw h.sized refl;
    defined = unfold fresh create_empty_set is_set_undefined in refl;
    filled =
        unfold fresh create_empty_set in
        rw (h.sized, h.parts)
          (omega (arith, length-fill (partitions n) f (zeros n f), length-zeros n f));
    fits = λ p. rw (fresh-word p) (ground (arith, low p));
    clean = λ p k r q. rw (fresh-word p) (ground (arith, clear p k, test_bit-zero k));
  }

  -- Bit by bit, where `f` is clear from `n` on.
  pub fresh-belongs :
      ((p : ℕ) → f p < 2 ^ 32)
      → ((p k : ℕ) → k < 32 → n ≤ p * 32 + k → test_bit (f p) k ≡ false)
      → (i : ℕ) → does_elto_belong_to_set i (fresh s f) ≡ test_bit (f (i / 32)) (i % 32)
  fresh-belongs low clear i = ground (
    arith,
    belongs-bit n i (fresh s f) (fresh-IsWellFormed low clear),
    fresh-word (i / 32),
    clear (i / 32) (i % 32),
    test_bit-zero (i % 32),
  )

-- A store into the mask, `set.mask[p] = w`.
words-store : (s : Set) (p w : ℕ) → words (store s p w) ≡ set (words s) p w
words-store s p w = ground arith

module _ (n : ℕ) (s : Set) (p w : ℕ) (h : IsWellFormed n s) (inside : p < partitions n) where
  pub store-word : (q : ℕ) → word (store s p w) q ≡ (if p == q then w else word s q)
  store-word q = rw (words-store s p w) (get_or-set (words s) p q w 0 (omega (arith, h.filled)))

  pub store-IsWellFormed :
      w < 2 ^ 32
      → ((k : ℕ) → k < 32 → n ≤ p * 32 + k → test_bit w k ≡ false)
      → IsWellFormed n (store s p w)
  store-IsWellFormed low clear = record {
    sized = h.sized;
    parts = h.parts;
    defined = unfold is_set_undefined in defined_after;
    filled = rw (words-store s p w) (omega (arith, length-set (words s) p w, h.filled));
    fits = λ q. rw (store-word q) (ground (arith, h.fits q));
    clean = λ q k r low_end. rw (store-word q) (ground (arith, h.clean q k, clear k));
  }
    where
      defined_after : is_set_undefined (store s p w) ≡ false
      defined_after =
          let before : is_set_undefined s ≡ false = h.defined in
          unfold is_set_undefined in ground arith
