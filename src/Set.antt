-- ===== src/Set.antt =====
-- set.c and set.h: sets of small numbers as arrays of 32-bit words.
pub mod Words
pub mod Laws
pub mod Compare
pub mod Full
pub mod Members
use csc.Common.{
  ℕ, zero, suc, ◌+◌, ◌-◌, ◌*◌, ◌/◌, ◌%◌, ◌^◌, bit_and, bit_or, Bool, true, false, Option, none,
  some, List, [], ◌==◌, if◌then◌else◌, get_or, set, replicate, fill, complement, all_below,
}

abbrev pub bits_per_partition : ℕ
bits_per_partition = 32

-- `mask` is a pointer: `none` is NULL, as in a set that was never created.
pub record Set : Type 0 where
  pub max_size : ℕ
  pub num_partitions : ℕ
  pub mask : Option (List ℕ)

-- The words behind a pointer. Every access of set.c is in bounds where the set is well formed
-- (`IsWellFormed` of `Words`); an access that is not reads 0 and writes nothing here.
abbrev pub words : Set → List ℕ
words s = elim s.mask [ none ↦ [] | some ws ↦ ws ]

abbrev pub word : Set → ℕ → ℕ
word s p = get_or (words s) p 0

-- `set.mask[p] = w`. Through NULL it would fault; here it changes nothing.
abbrev pub store : Set → ℕ → ℕ → Set
store s p w = record s { mask = elim s.mask [ none ↦ none | some ws ↦ some (set ws p w) ] }

unfoldable pub is_set_undefined : Set → Bool
is_set_undefined s = elim s.mask [ none ↦ true | some _ ↦ false ]

-- `ceil((double) max_size / BITS_PER_PARTITION)`, and a loop that clears each word.
unfoldable pub create_empty_set : ℕ → Set
create_empty_set max_size =
    let num_partitions = (max_size + (bits_per_partition - 1)) / bits_per_partition in
    record {
      max_size = max_size;
      num_partitions = num_partitions;
      mask = some (fill num_partitions (λ _. 0) (replicate num_partitions 0));
    }

-- `w <<= 1; w |= 1;`, `r` times, on 32 bits.
unfoldable pub shift_in_ones : ℕ → ℕ → ℕ
shift_in_ones zero w = w
shift_in_ones (suc r) w = bit_or (shift_in_ones r w * 2 % 2 ^ 32) 1

-- `none`: with no partition the unsigned `num_partitions - 1` wraps and the loop leaves the mask.
unfoldable pub create_full_set : ℕ → Option Set
unfolding create_empty_set shift_in_ones
create_full_set max_size =
    let s = create_empty_set max_size in
    let last = s.num_partitions - 1 in
    let r = max_size % bits_per_partition in
    let ones = fill last (λ _. 2 ^ 32 - 1) (words s) in
    if s.num_partitions == 0
    then none
    else some (record s { mask = some (set ones last (shift_in_ones r (get_or ones last 0))) })

unfoldable pub add_to_set : ℕ → Set → Set
add_to_set elto s =
    let partition = elto / bits_per_partition in
    let pos_in_partition = elto % bits_per_partition in
    store s partition (bit_or (word s partition) (2 ^ pos_in_partition))

unfoldable pub remove_from_set : ℕ → Set → Set
remove_from_set elto s =
    let partition = elto / bits_per_partition in
    let pos_in_partition = elto % bits_per_partition in
    store s partition (bit_and (word s partition) (complement 32 (2 ^ pos_in_partition)))

unfoldable pub are_set_equals : Set → Set → Bool
unfolding is_set_undefined
are_set_equals set1 set2 =
    if is_set_undefined set1
    then false
    else if is_set_undefined set2
    then false
    else all_below set1.num_partitions (λ i. word set1 i == word set2 i)

-- A new set of the first one's size, whose words are filled by the loop over its partitions.
unfoldable pub fresh : Set → (ℕ → ℕ) → Set
unfolding create_empty_set
fresh set1 f =
    let new_set = create_empty_set set1.max_size in
    record new_set { mask = some (fill set1.num_partitions f (words new_set)) }

unfoldable pub unify_sets : Set → Set → Set
unfolding fresh
unify_sets set1 set2 = fresh set1 (λ i. bit_or (word set1 i) (word set2 i))

unfoldable pub intersect_sets : Set → Set → Set
unfolding fresh
intersect_sets set1 set2 = fresh set1 (λ i. bit_and (word set1 i) (word set2 i))

unfoldable pub diff_sets : Set → Set → Set
unfolding fresh
diff_sets set1 set2 = fresh set1 (λ i. bit_and (word set1 i) (complement 32 (word set2 i)))

unfoldable pub clone_set : Set → Set
unfolding create_empty_set unify_sets
clone_set original = unify_sets (create_empty_set original.max_size) original

unfoldable pub is_set_empty : Set → Bool
is_set_empty s = all_below s.num_partitions (λ i. word s i == 0)

unfoldable pub does_elto_belong_to_set : ℕ → Set → Bool
unfolding is_set_undefined
does_elto_belong_to_set elto s =
    let partition = elto / bits_per_partition in
    let elto_mask = 2 ^ (elto % bits_per_partition) in
    if is_set_undefined s then false else bit_and (word s partition) elto_mask == elto_mask
