-- ===== src/Set/Members.antt =====
-- set.c: the members of the sets that its operations make.
use csc.Common.{ℕ, ◌<◌, ◌&&◌, ◌||◌, not, ◌==◌, ◌≡◌}
use csc.Set.{
  Set, add_to_set, remove_from_set, unify_sets, intersect_sets, diff_sets, clone_set,
  does_elto_belong_to_set,
}
use csc.Set.Words.{IsWellFormed}
use csc.Set.Laws.{
  belongs-add, belongs-remove, belongs-unify, belongs-intersect, belongs-diff, belongs-clone,
  add-IsWellFormed, remove-IsWellFormed, unify-IsWellFormed, intersect-IsWellFormed,
  diff-IsWellFormed, clone-IsWellFormed,
}

-- The operations on sets for the numbers below `n` make sets for them again: adding and removing a
-- number below `n` changes the membership of that number only, and union, intersection,
-- difference and clone have the members that their names say.
pub members_exact :
    (n e i : ℕ) (s t : Set)
    → IsWellFormed n s
    → IsWellFormed n t
    → e < n
    → (IsWellFormed n (add_to_set e s)
        × (does_elto_belong_to_set i (add_to_set e s) ≡ (e == i || does_elto_belong_to_set i s)))
      × (IsWellFormed n (remove_from_set e s)
          × (does_elto_belong_to_set i (remove_from_set e s)
              ≡ (not (e == i) && does_elto_belong_to_set i s)))
      × (IsWellFormed n (unify_sets s t)
          × (does_elto_belong_to_set i (unify_sets s t)
              ≡ (does_elto_belong_to_set i s || does_elto_belong_to_set i t)))
      × (IsWellFormed n (intersect_sets s t)
          × (does_elto_belong_to_set i (intersect_sets s t)
              ≡ (does_elto_belong_to_set i s && does_elto_belong_to_set i t)))
      × (IsWellFormed n (diff_sets s t)
          × (does_elto_belong_to_set i (diff_sets s t)
              ≡ (does_elto_belong_to_set i s && not (does_elto_belong_to_set i t))))
      × (IsWellFormed n (clone_set s)
          × (does_elto_belong_to_set i (clone_set s) ≡ does_elto_belong_to_set i s))
members_exact n e i s t hs ht inside = (
  (add-IsWellFormed n s hs e inside, belongs-add n s hs e inside i),
  (remove-IsWellFormed n s hs e inside, belongs-remove n s hs e inside i),
  (unify-IsWellFormed n s t hs ht, belongs-unify n s t hs ht i),
  (intersect-IsWellFormed n s t hs ht, belongs-intersect n s t hs ht i),
  (diff-IsWellFormed n s t hs ht, belongs-diff n s t hs ht i),
  (clone-IsWellFormed n s hs, belongs-clone n s hs i),
)
