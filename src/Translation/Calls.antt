-- ===== src/Translation/Calls.antt =====
-- code_translation.c: what is kept in memory across a call.
use csc.Common.{
  ℕ, zero, suc, ◌+◌, Bool, false, not, ◌&&◌, ◌||◌, Option, none, some, List, [], ◌++◌,
  if◌then◌else◌, ltb, ◌>>=◌,
}
use csc.Symbol.{Symbols}
use csc.Set.{
  Set, is_set_undefined, is_set_empty, does_elto_belong_to_set, remove_from_set, clone_set,
}
use csc.Mips.{Op}
use csc.Translation.{
  Allocation, get_register_name, find_register, load_from_memory, store_at_memory,
}

-- The register of a variable's live range, where it has one.
abbrev pub reg_of : Allocation → ℕ → Option ℕ
reg_of alloc var = elim (alloc.live_range_node var) [ none ↦ none | some r ↦ r ]

-- A live variable is kept where its register is a $t that the called function uses, or may use
-- as its body is not known yet.
unfoldable pub is_kept : Allocation → ℕ → ℕ → Bool
is_kept alloc function_ptr var = elim (reg_of alloc var) [
  | none ↦ false
  | some reg ↦
      (not (alloc.entered function_ptr)
        || does_elto_belong_to_set reg (alloc.registers_used function_ptr))
      && ltb reg 8
]

-- `while (!is_set_empty(tmp))` from number `i` on, with the lines of each kept variable. Each
-- round takes its number out, so the size of the set is fuel enough; `none` is fuel that ran out.
unfoldable pub each_live : ℕ → ℕ → Set → (ℕ → List Op) → Option (List Op)
each_live zero i tmp lines = if is_set_empty tmp then some [] else none
each_live (suc fuel) i tmp lines =
    let member = does_elto_belong_to_set i tmp in
    let rest = each_live fuel (i + 1) (if member then remove_from_set i tmp else tmp) lines in
    if is_set_empty tmp
    then some []
    else (rest >>= λ ops. some ((if member then lines i else []) ++ ops))

-- The lines of one number of a live variable: in both, guarded alike.
unfoldable pub save_variable : Symbols → Allocation → ℕ → ℕ → List Op
unfolding is_kept find_register store_at_memory get_register_name
save_variable sym alloc function_ptr i =
    let var = alloc.local_variables i in
    if is_kept alloc function_ptr var
    then store_at_memory sym var (get_register_name (find_register alloc var 0))
    else []

unfoldable pub load_variable : Symbols → Allocation → ℕ → ℕ → List Op
unfolding is_kept find_register load_from_memory get_register_name
load_variable sym alloc function_ptr i =
    let var = alloc.local_variables i in
    if is_kept alloc function_ptr var
    then load_from_memory sym var (get_register_name (find_register alloc var 0)) (sym var).type
    else []

unfoldable pub save_reg_allocated_variables_in_memory :
    Symbols → Allocation → ℕ → Set → Option (List Op)
unfolding each_live
save_reg_allocated_variables_in_memory sym alloc function_ptr live_at_call =
    if is_set_undefined live_at_call
    then some []
    else each_live (live_at_call.max_size + 1) 0 (clone_set live_at_call)
        (save_variable sym alloc function_ptr)

unfoldable pub load_reg_allocated_variables_from_memory :
    Symbols → Allocation → ℕ → Set → Option (List Op)
unfolding each_live
load_reg_allocated_variables_from_memory sym alloc function_ptr live_at_call =
    if is_set_undefined live_at_call
    then some []
    else each_live (live_at_call.max_size + 1) 0 (clone_set live_at_call)
        (load_variable sym alloc function_ptr)
