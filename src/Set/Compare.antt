-- ===== src/Set/Compare.antt =====
-- set.c: the two tests on whole sets decide what they say of the members.
use csc.Common.{
  ℕ, ◌+◌, ◌*◌, ◌/◌, ◌%◌, ◌<◌, ◌≤◌, ◌≡◌, refl, ap, true, false, arith, ◌==◌, test_bit, test_bit-zero,
  word_ext, ◌↔◌, ==→eq, eq→==, all_below, all_below_sound, all_below_complete,
}
use native.Mathlib.Decide.{dec_lt}
use csc.Set.{Set, word, are_set_equals, is_set_empty, does_elto_belong_to_set}
use csc.Set.Words.{IsWellFormed, partitions, belongs-bit}

module _ (n : ℕ) (s : Set) (hs : IsWellFormed n s) where
  bit-belongs : (p k : ℕ) → k < 32 → test_bit (word s p) k ≡ does_elto_belong_to_set (p * 32 + k) s
  bit-belongs p k r =
      let at : (p * 32 + k) / 32 ≡ p = omega arith in
      let low : (p * 32 + k) % 32 ≡ k = omega arith in
      rw (belongs-bit n (p * 32 + k) s hs, at, low) refl

  empty_words : is_set_empty s ≡ all_below (partitions n) (λ p. word s p == 0)
  unfolding is_set_empty
  empty_words = simp hs.parts

  word-zero :
      ((i : ℕ) → i < n → does_elto_belong_to_set i s ≡ false)
      → (p k : ℕ) → k < 32
      → test_bit (word s p) k ≡ test_bit 0 k
  word-zero h p k r = elim (dec_lt (p * 32 + k) n) [
    | yes below ↦ rw (bit-belongs p k r, h (p * 32 + k) below, test_bit-zero k) refl
    | no above ↦ rw (hs.clean p k r (omega arith), test_bit-zero k) refl
  ]

  -- A set is empty exactly when no number below `n` is a member.
  pub is_set_empty_iff :
      (is_set_empty s ≡ true) ↔ ((i : ℕ) → i < n → does_elto_belong_to_set i s ≡ false)
  is_set_empty_iff = (
    λ h i r.
        let test = all_below_sound (partitions n) (λ p. word s p == 0) (i / 32) in
        let none_set : word s (i / 32) ≡ 0 =
          ==→eq (word s (i / 32)) 0 (test (rw empty_words at h) (omega arith)) in
        rw (belongs-bit n i s hs) (rw none_set (test_bit-zero (i % 32))),
    λ h. rw empty_words (
        all_below_complete (partitions n) (λ p. word s p == 0)
          λ p r.
            eq→== (word s p) 0
              (word_ext 32 (word s p) 0 (hs.fits p) (omega arith) (word-zero h p))),
  )

module _ (n : ℕ) (s t : Set) (hs : IsWellFormed n s) (ht : IsWellFormed n t) where
  equal_words : are_set_equals s t ≡ all_below (partitions n) (λ p. word s p == word t p)
  unfolding are_set_equals
  equal_words = simp (hs.defined, ht.defined, hs.parts)

  same_bits :
      ((i : ℕ) → i < n → does_elto_belong_to_set i s ≡ does_elto_belong_to_set i t)
      → (p k : ℕ) → k < 32
      → test_bit (word s p) k ≡ test_bit (word t p) k
  same_bits h p k r = elim (dec_lt (p * 32 + k) n) [
    | yes below ↦ rw (bit-belongs n s hs p k r, bit-belongs n t ht p k r) (h (p * 32 + k) below)
    | no above ↦ rw (hs.clean p k r (omega arith), ht.clean p k r (omega arith)) refl
  ]

  -- Two sets for the numbers below `n` are equal exactly when they have the same members below `n`.
  pub are_set_equals_iff :
      (are_set_equals s t ≡ true)
      ↔ ((i : ℕ) → i < n → does_elto_belong_to_set i s ≡ does_elto_belong_to_set i t)
  are_set_equals_iff = (
    λ h i r.
        let test = all_below_sound (partitions n) (λ p. word s p == word t p) (i / 32) in
        let same : word s (i / 32) ≡ word t (i / 32) =
          ==→eq (word s (i / 32)) (word t (i / 32)) (test (rw equal_words at h) (omega arith)) in
        rw (belongs-bit n i s hs, belongs-bit n i t ht) (ap (λ w. test_bit w (i % 32)) same),
    λ h. rw equal_words (
        all_below_complete (partitions n) (λ p. word s p == word t p)
          λ p r.
            eq→== (word s p) (word t p)
              (word_ext 32 (word s p) (word t p) (hs.fits p) (ht.fits p) (same_bits h p))),
  )

-- No number from `n` on is a member.
pub belongs-beyond :
    (n v : ℕ) (s : Set) → IsWellFormed n s → n ≤ v → does_elto_belong_to_set v s ≡ false
belongs-beyond n v s h r =
    rw (belongs-bit n v s h) (h.clean (v / 32) (v % 32) (omega arith) (omega arith))

-- Sets that compare equal have the same members.
pub equal_members :
    (n v : ℕ) (s t : Set)
    → IsWellFormed n s
    → IsWellFormed n t
    → are_set_equals s t ≡ true
    → does_elto_belong_to_set v s ≡ does_elto_belong_to_set v t
equal_members n v s t hs ht e = elim (dec_lt v n) [
  | yes below ↦ (are_set_equals_iff n s t hs ht).0 e v below
  | no above ↦
      rw (belongs-beyond n v s hs (omega arith), belongs-beyond n v t ht (omega arith)) refl
]
