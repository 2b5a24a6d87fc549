-- ===== src/Tests/Sets.antt =====
-- Sets for the numbers below 40, which take two words.
use csc.Common.{ℕ, ◌<◌, ◌≡◌, refl, true, false, ◌&&◌, ◌||◌, not, ◌==◌, ◌↔◌, arith, some, none, ltb}
use csc.Set.{
  Set, create_empty_set, create_full_set, add_to_set, remove_from_set, unify_sets, intersect_sets,
  diff_sets, clone_set, are_set_equals, is_set_empty, does_elto_belong_to_set,
}
use csc.Set.Words.{IsWellFormed, empty-IsWellFormed}
use csc.Set.Laws.{add-IsWellFormed}
use csc.Set.Members.{members_exact}
use csc.Set.Compare.{are_set_equals_iff, is_set_empty_iff}
use csc.Set.Full.{covered, create_full_correct}

abbrev low : Set
low = add_to_set 3 (create_empty_set 40)

abbrev high : Set
high = add_to_set 35 low

low-IsWellFormed : IsWellFormed 40 low
low-IsWellFormed = add-IsWellFormed 40 (create_empty_set 40) (empty-IsWellFormed 40) 3 (omega arith)

high-IsWellFormed : IsWellFormed 40 high
high-IsWellFormed = add-IsWellFormed 40 low low-IsWellFormed 35 (omega arith)

members : (does_elto_belong_to_set 35 high ≡ true) × (does_elto_belong_to_set 35 low ≡ false)
unfolding does_elto_belong_to_set add_to_set create_empty_set
members = (refl, refl)

-- 32 is a multiple of 32: no number is in the full set.
full_misses : (s : Set) × (create_full_set 32 ≡ some s) × (is_set_empty s ≡ true)
unfolding create_full_set is_set_empty
full_misses = (_, refl, refl)

full_faults : create_full_set 0 ≡ none
unfolding create_full_set
full_faults = refl

members_exact_example :
    (IsWellFormed 40 (add_to_set 35 low)
      × (does_elto_belong_to_set 35 (add_to_set 35 low)
          ≡ (35 == 35 || does_elto_belong_to_set 35 low)))
    × (IsWellFormed 40 (remove_from_set 35 low)
        × (does_elto_belong_to_set 35 (remove_from_set 35 low)
            ≡ (not (35 == 35) && does_elto_belong_to_set 35 low)))
    × (IsWellFormed 40 (unify_sets low high)
        × (does_elto_belong_to_set 35 (unify_sets low high)
            ≡ (does_elto_belong_to_set 35 low || does_elto_belong_to_set 35 high)))
    × (IsWellFormed 40 (intersect_sets low high)
        × (does_elto_belong_to_set 35 (intersect_sets low high)
            ≡ (does_elto_belong_to_set 35 low && does_elto_belong_to_set 35 high)))
    × (IsWellFormed 40 (diff_sets low high)
        × (does_elto_belong_to_set 35 (diff_sets low high)
            ≡ (does_elto_belong_to_set 35 low && not (does_elto_belong_to_set 35 high))))
    × (IsWellFormed 40 (clone_set low)
        × (does_elto_belong_to_set 35 (clone_set low) ≡ does_elto_belong_to_set 35 low))
members_exact_example =
    members_exact 40 35 35 low high low-IsWellFormed high-IsWellFormed (omega arith)

are_set_equals_iff_example :
    (are_set_equals low high ≡ true)
    ↔ ((i : ℕ) → i < 40 → does_elto_belong_to_set i low ≡ does_elto_belong_to_set i high)
are_set_equals_iff_example = are_set_equals_iff 40 low high low-IsWellFormed high-IsWellFormed

is_set_empty_iff_example :
    (is_set_empty high ≡ true) ↔ ((i : ℕ) → i < 40 → does_elto_belong_to_set i high ≡ false)
is_set_empty_iff_example = is_set_empty_iff 40 high high-IsWellFormed

create_full_correct_example :
    (s : Set) × (create_full_set 40 ≡ some s)
    × IsWellFormed 40 s
    × ((i : ℕ) → does_elto_belong_to_set i s ≡ ltb i (covered 40 (omega arith)))
create_full_correct_example = create_full_correct 40 (omega arith)
