-- ===== src/Set/Laws.antt =====
-- set.c: each operation as an operation on membership.
use csc.Common.{
  ℕ, ◌+◌, ◌*◌, ◌/◌, ◌%◌, ◌^◌, ◌≤◌, ◌<◌, ◌≡◌, refl, ap, bit_and, bit_or, false, not, ◌&&◌, ◌||◌,
  arith, ◌==◌, complement, test_bit, test_bit-or, test_bit-and, test_bit-complement, test_bit-zero,
  test_bit-pow, bit_or-lt, bit_and-lt, pow-lt_32,
}
use csc.Set.{
  Set, word, create_empty_set, add_to_set, remove_from_set, unify_sets, intersect_sets, diff_sets,
  clone_set, does_elto_belong_to_set,
}
use csc.Set.Words.{
  IsWellFormed, belongs-bit, empty-word, empty-IsWellFormed, fresh-IsWellFormed, fresh-belongs,
  store-word, store-IsWellFormed,
}

-- A new set has no member.
pub belongs-empty : (n i : ℕ) → does_elto_belong_to_set i (create_empty_set n) ≡ false
belongs-empty n i =
    rw (belongs-bit n i (create_empty_set n) (empty-IsWellFormed n), empty-word n (i / 32))
      (test_bit-zero (i % 32))

module _ (n : ℕ) (s t : Set) (hs : IsWellFormed n s) (ht : IsWellFormed n t) where
  unify_low : (p : ℕ) → bit_or (word s p) (word t p) < 2 ^ 32
  unify_low p = bit_or-lt 32 (word s p) (word t p) (hs.fits p) (ht.fits p)

  unify_clear :
      (p k : ℕ) → k < 32 → n ≤ p * 32 + k → test_bit (bit_or (word s p) (word t p)) k ≡ false
  unify_clear p k r h =
      ground (arith, test_bit-or k (word s p) (word t p), hs.clean p k, ht.clean p k)

  pub unify-IsWellFormed : IsWellFormed n (unify_sets s t)
  unfolding unify_sets
  unify-IsWellFormed = fresh-IsWellFormed n s _ hs unify_low unify_clear

  -- The members of a union are those of either set.
  pub belongs-unify :
      (i : ℕ)
      → does_elto_belong_to_set i (unify_sets s t)
        ≡ (does_elto_belong_to_set i s || does_elto_belong_to_set i t)
  belongs-unify i =
      rw (belongs-bit n i s hs, belongs-bit n i t ht)
        (unfold unify_sets in
          rw (fresh-belongs n s _ hs unify_low unify_clear i)
            (test_bit-or (i % 32) (word s (i / 32)) (word t (i / 32))))

  intersect_low : (p : ℕ) → bit_and (word s p) (word t p) < 2 ^ 32
  intersect_low p = bit_and-lt 32 (word s p) (word t p) (hs.fits p)

  intersect_clear :
      (p k : ℕ) → k < 32 → n ≤ p * 32 + k → test_bit (bit_and (word s p) (word t p)) k ≡ false
  intersect_clear p k r h = ground (arith, test_bit-and k (word s p) (word t p), hs.clean p k)

  pub intersect-IsWellFormed : IsWellFormed n (intersect_sets s t)
  unfolding intersect_sets
  intersect-IsWellFormed = fresh-IsWellFormed n s _ hs intersect_low intersect_clear

  -- The members of an intersection are those of both sets.
  pub belongs-intersect :
      (i : ℕ)
      → does_elto_belong_to_set i (intersect_sets s t)
        ≡ (does_elto_belong_to_set i s && does_elto_belong_to_set i t)
  belongs-intersect i =
      rw (belongs-bit n i s hs, belongs-bit n i t ht)
        (unfold intersect_sets in
          rw (fresh-belongs n s _ hs intersect_low intersect_clear i)
            (test_bit-and (i % 32) (word s (i / 32)) (word t (i / 32))))

  diff_low : (p : ℕ) → bit_and (word s p) (complement 32 (word t p)) < 2 ^ 32
  diff_low p = bit_and-lt 32 (word s p) (complement 32 (word t p)) (hs.fits p)

  diff_clear :
      (p k : ℕ)
      → k < 32
      → n ≤ p * 32 + k
      → test_bit (bit_and (word s p) (complement 32 (word t p))) k ≡ false
  diff_clear p k r h =
      ground (arith, test_bit-and k (word s p) (complement 32 (word t p)), hs.clean p k)

  pub diff-IsWellFormed : IsWellFormed n (diff_sets s t)
  unfolding diff_sets
  diff-IsWellFormed = fresh-IsWellFormed n s _ hs diff_low diff_clear

  -- The members of a difference are those of the first set that are not in the second.
  pub belongs-diff :
      (i : ℕ)
      → does_elto_belong_to_set i (diff_sets s t)
        ≡ (does_elto_belong_to_set i s && not (does_elto_belong_to_set i t))
  belongs-diff i =
      rw (belongs-bit n i s hs, belongs-bit n i t ht)
        (unfold diff_sets in
          rw
            (
              fresh-belongs n s _ hs diff_low diff_clear i,
              test_bit-and (i % 32) (word s (i / 32)) (complement 32 (word t (i / 32))),
              test_bit-complement (i % 32) 32 (word t (i / 32)) (omega arith) (ht.fits (i / 32)),
            )
            refl)

module _ (n : ℕ) (s : Set) (hs : IsWellFormed n s) where
  pub clone-IsWellFormed : IsWellFormed n (clone_set s)
  unfolding clone_set
  clone-IsWellFormed =
      rw hs.sized (unify-IsWellFormed n (create_empty_set n) s (empty-IsWellFormed n) hs)

  -- A clone has the members of the original.
  pub belongs-clone :
      (i : ℕ) → does_elto_belong_to_set i (clone_set s) ≡ does_elto_belong_to_set i s
  unfolding clone_set
  belongs-clone i = at_size s.max_size hs.sized
    where
      at_size :
          (m : ℕ)
          → m ≡ n
          → does_elto_belong_to_set i (unify_sets (create_empty_set m) s)
            ≡ does_elto_belong_to_set i s
      at_size m e =
          rw
            (
              e,
              belongs-unify n (create_empty_set n) s (empty-IsWellFormed n) hs i,
              belongs-empty n i,
            )
            refl

  module _ (e : ℕ) (inside : e < n) where
    abbrev part : ℕ
    part = e / 32

    add_low : bit_or (word s part) (2 ^ (e % 32)) < 2 ^ 32
    add_low =
        bit_or-lt 32 (word s part) (2 ^ (e % 32)) (hs.fits part) (pow-lt_32 (e % 32) (omega arith))

    pub add-IsWellFormed : IsWellFormed n (add_to_set e s)
    unfolding add_to_set
    add-IsWellFormed = store-IsWellFormed n s part _ hs (omega arith) add_low λ k r h. ground (
      arith,
      test_bit-or k (word s part) (2 ^ (e % 32)),
      hs.clean part k,
      test_bit-pow (e % 32) k,
    )

    -- Adding `e` makes `e` a member and changes no other membership.
    pub belongs-add :
        (i : ℕ)
        → does_elto_belong_to_set i (add_to_set e s) ≡ (e == i || does_elto_belong_to_set i s)
    belongs-add i =
        rw (belongs-bit n i (add_to_set e s) add-IsWellFormed, belongs-bit n i s hs)
          (unfold add_to_set in
            rw (store-word n s part _ hs (omega arith) (i / 32)) (
              ground (
                arith,
                test_bit-or (i % 32) (word s part) (2 ^ (e % 32)),
                test_bit-pow (e % 32) (i % 32),
                λ (p : part ≡ i / 32). ap (λ q. test_bit (word s q) (i % 32)) p,
              )))

    remove_low : bit_and (word s part) (complement 32 (2 ^ (e % 32))) < 2 ^ 32
    remove_low = bit_and-lt 32 (word s part) (complement 32 (2 ^ (e % 32))) (hs.fits part)

    pub remove-IsWellFormed : IsWellFormed n (remove_from_set e s)
    unfolding remove_from_set
    remove-IsWellFormed = store-IsWellFormed n s part _ hs (omega arith) remove_low λ k r h.
        ground (arith, test_bit-and k (word s part) (complement 32 (2 ^ (e % 32))), hs.clean part k)

    -- Removing `e` ends the membership of `e` and changes no other.
    pub belongs-remove :
        (i : ℕ)
        → does_elto_belong_to_set i (remove_from_set e s)
          ≡ (not (e == i) && does_elto_belong_to_set i s)
    belongs-remove i =
        rw (belongs-bit n i (remove_from_set e s) remove-IsWellFormed, belongs-bit n i s hs)
          (unfold remove_from_set in
            rw (store-word n s part _ hs (omega arith) (i / 32)) (
              ground (
                arith,
                test_bit-and (i % 32) (word s part) (complement 32 (2 ^ (e % 32))),
                test_bit-complement (i % 32) 32 (2 ^ (e % 32)) (omega arith)
                    (pow-lt_32 (e % 32) (omega arith)),
                test_bit-pow (e % 32) (i % 32),
                λ (p : part ≡ i / 32). ap (λ q. test_bit (word s q) (i % 32)) p,
              )))
