-- ===== src/Translation/Saves.antt =====
-- code_translation.c: what the saves write and the restores read, as functions of memory and
-- registers.
use csc.Common.{
  subst, leb, ltb, ◌&&◌, ℕ, zero, suc, ◌+◌, ◌-◌, ◌*◌, ◌≤◌, ◌<◌, Bool, true, false, ◌||◌, some, List,
  [], ◌∷◌, ◌==◌, if◌then◌else◌, ◌≡◌, refl, ap, ◌∙◌, length, arith, Bool-cases, ==→eq, eq→==, inl,
  inr,
}
use csc.Set.{Set, does_elto_belong_to_set}
use csc.Mips.{number, Cpu, put}
use csc.Translation.{get_register_name}
use csc.Translation.Frame.{saved_name}
use csc.Translation.Lines.{saved, saved_from, frame_bytes}

-- What the saves write, from address `a` on,
abbrev pub stored : List ℕ → ℕ → (ℕ → ℕ) → (ℕ → ℕ) → ℕ → ℕ
stored [] a regs memory = memory
stored (r ∷ rs) a regs memory = stored rs (a + 4) regs (put memory a (regs (number (saved_name r))))

-- and what the loads read.
abbrev pub loaded : List ℕ → ℕ → (ℕ → ℕ) → (ℕ → ℕ) → ℕ → ℕ
loaded [] a memory regs = regs
loaded (r ∷ rs) a memory regs =
    loaded rs (a + 4) memory (put regs (number (saved_name r)) (memory a))

-- A saved register is none of the pointers.
pub saved_name-number : (r : ℕ) → 3 < number (saved_name r)
unfolding get_register_name
saved_name-number r = ground arith

-- The words from `a` on are the registers' values.
abbrev pub Holds : List ℕ → ℕ → (ℕ → ℕ) → (ℕ → ℕ) → Type 0
Holds [] a regs memory = Unit
Holds (r ∷ rs) a regs memory =
    (memory a ≡ regs (number (saved_name r))) × Holds rs (a + 4) regs memory

pub stored-below :
    (rs : List ℕ) (a x : ℕ) (regs memory : ℕ → ℕ) → x < a → stored rs a regs memory x ≡ memory x
stored-below [] a x regs memory h = refl
stored-below (r ∷ rs) a x regs memory h =
    ground (arith, stored-below rs (a + 4) x regs (put memory a (regs (number (saved_name r)))))

pub stored-Holds :
    (rs : List ℕ) (a : ℕ) (regs memory : ℕ → ℕ) → Holds rs a regs (stored rs a regs memory)
stored-Holds [] a regs memory = tt
stored-Holds (r ∷ rs) a regs memory = (
  ground (arith, stored-below rs (a + 4) a regs (put memory a (regs (number (saved_name r))))),
  stored-Holds rs (a + 4) regs (put memory a (regs (number (saved_name r)))),
)

pub Holds-agree :
    (rs : List ℕ) (a : ℕ) (regs memory later : ℕ → ℕ)
    → ((x : ℕ) → a ≤ x → x < a + 4 * length rs → later x ≡ memory x)
    → Holds rs a regs memory
    → Holds rs a regs later
Holds-agree [] a regs memory later same h = tt
Holds-agree (r ∷ rs) a regs memory later same (h, hs) = (
  same a (omega arith) (omega arith) ∙ h,
  Holds-agree rs (a + 4) regs memory later (λ x p q. same x (omega arith) (omega arith)) hs,
)

-- Register number `n` is one of those saved.
abbrev pub is_saved : ℕ → List ℕ → Bool
is_saved n [] = false
is_saved n (r ∷ rs) = (number (saved_name r) == n) || is_saved n rs

pub loaded-Holds :
    (rs : List ℕ) (a n : ℕ) (first memory regs : ℕ → ℕ)
    → Holds rs a first memory
    → loaded rs a memory regs n ≡ (if is_saved n rs then first n else regs n)
loaded-Holds [] a n first memory regs h = refl
loaded-Holds (r ∷ rs) a n first memory regs (h, hs) = ground (
  arith,
  loaded-Holds rs (a + 4) n first memory (put regs (number (saved_name r)) (memory a)) hs,
  λ (e : number (saved_name r) ≡ n). ap first e,
)

pub plus_four : (a b : ℕ) → a + (b + 4) ≡ a + b + 4
plus_four a b = omega arith

pub sp_kept : (r : ℕ) (regs : ℕ → ℕ) (v : ℕ) → put regs (number (saved_name r)) v 3 ≡ regs 3
sp_kept r regs v = ground (arith, saved_name-number r)

-- The memory after the registers are saved, and the state at the first line of the body of a
-- function whose locals take `size` bytes.
abbrev pub framed : List ℕ → Cpu → ℕ → ℕ
framed rs c =
    let base = c.regs 3 - frame_bytes rs in
    put (put (stored rs base (put c.regs 3 base) c.memory) (base + (4 * length rs + 4)) (c.regs 2))
      (base + 4 * length rs) (c.regs 1)

abbrev pub entered : List ℕ → ℕ → Cpu → Cpu
entered rs size c =
    let base = c.regs 3 - frame_bytes rs in
    record c { regs = put (put (put c.regs 3 base) 2 base) 3 (base - size); memory = framed rs c }

-- The states after the saved registers are restored, and after the return.
abbrev pub after_leave : List ℕ → Cpu → Cpu
after_leave [] d = d
after_leave (r ∷ rs) d =
    let regs = loaded (r ∷ rs) (d.regs 2) d.memory (put d.regs 3 (d.regs 2)) in
    record d { regs = put regs 2 (regs 2 + 4 * length (r ∷ rs)) }

abbrev pub after_return : Cpu → Cpu
after_return x =
    let base = x.regs 2 in
    let back = put (put x.regs 3 base) 1 (x.memory base) in
    record x {
      regs = put (put back 2 (x.memory (base + 4))) 3 (base + 8);
      target = some (x.memory base);
    }

pub is_saved-pointer : (n : ℕ) (rs : List ℕ) → n ≤ 3 → is_saved n rs ≡ false
is_saved-pointer n [] h = refl
is_saved-pointer n (r ∷ rs) h = ground (arith, saved_name-number r, is_saved-pointer n rs)

module _ (rs : List ℕ) (d : Cpu) (first : ℕ → ℕ) (held : Holds rs (d.regs 2) first d.memory) where
  pub after_leave-fp : (after_leave rs d).regs 2 ≡ d.regs 2 + 4 * length rs
  after_leave-fp = by_list rs held
    where
      by_list :
          (rs : List ℕ)
          → Holds rs (d.regs 2) first d.memory
          → (after_leave rs d).regs 2 ≡ d.regs 2 + 4 * length rs
      by_list [] h = omega arith
      by_list (r ∷ rs) h = ground (
        arith,
        loaded-Holds (r ∷ rs) (d.regs 2) 2 first d.memory (put d.regs 3 (d.regs 2)) h,
        is_saved-pointer 2 (r ∷ rs),
      )

  pub after_leave-other :
      (n : ℕ)
      → (n == 2) ≡ false
      → (n == 3) ≡ false
      → (after_leave rs d).regs n ≡ (if is_saved n rs then first n else d.regs n)
  after_leave-other n p q = by_list rs held
    where
      by_list :
          (rs : List ℕ)
          → Holds rs (d.regs 2) first d.memory
          → (after_leave rs d).regs n ≡ (if is_saved n rs then first n else d.regs n)
      by_list [] h = refl
      by_list (r ∷ rs) h =
          ground
            (arith, loaded-Holds (r ∷ rs) (d.regs 2) n first d.memory (put d.regs 3 (d.regs 2)) h)

pub after_leave-memory : (rs : List ℕ) (d : Cpu) → (after_leave rs d).memory ≡ d.memory
after_leave-memory [] d = refl
after_leave-memory (r ∷ rs) d = refl

-- A register of the allocation that the called function has to keep, and that it uses.
abbrev pub is_callee_saved : Set → ℕ → Bool
is_callee_saved used reg = leb 8 reg && ltb reg used.max_size && does_elto_belong_to_set reg used

-- Distinct registers have distinct names.
saved_name-injective : (a b : ℕ) → number (saved_name a) ≡ number (saved_name b) → a ≡ b
unfolding get_register_name
saved_name-injective a b e = ground (arith, e)

is_saved-saved_from :
    (n from reg : ℕ) (used : Set)
    → is_saved (number (saved_name reg)) (saved_from n from used)
      ≡ (leb from reg && ltb reg (from + n) && does_elto_belong_to_set reg used)
is_saved-saved_from zero from reg used = ground arith
is_saved-saved_from (suc n) from reg used =
    let rest = is_saved-saved_from n (from + 1) reg used in
    let wanted = number (saved_name reg) in
    elim (Bool-cases (does_elto_belong_to_set from used)) [
      | inl e ↦ elim (Bool-cases (from == reg)) [
        | inl same ↦
            let eq : from ≡ reg = ==→eq from reg same in
            let member = subst (λ r. does_elto_belong_to_set r used ≡ true) eq e in
            let named : (number (saved_name from) == wanted) ≡ true =
              eq→== (number (saved_name from)) wanted (ap (λ r. number (saved_name r)) eq) in
            rw (e, named, member) (ground (arith, same))
        | inr other ↦ elim (Bool-cases (number (saved_name from) == wanted)) [
          | inl named ↦ absurd (
              cc (
                eq→== from reg
                    (saved_name-injective from reg (==→eq (number (saved_name from)) wanted named)),
                other,
              ))
          | inr apart ↦ rw (e, apart, rest) (ground (arith, other))
        ]
      ]
      | inr e ↦ elim (Bool-cases (from == reg)) [
        | inl same ↦
            let absent =
              subst (λ r. does_elto_belong_to_set r used ≡ false) (==→eq from reg same) e in
            rw (e, rest, absent) (ground arith)
        | inr other ↦ rw (e, rest) (ground (arith, other))
      ]
    ]

pub is_saved-frame :
    (used : Set) (reg : ℕ)
    → is_saved (number (saved_name reg)) (saved used) ≡ is_callee_saved used reg
is_saved-frame used reg = is_saved-saved_from (used.max_size - 8) 8 reg used ∙ ground arith

-- Below the two pointers the frame is what was stored.
pub framed-stored :
    (rs : List ℕ) (c : Cpu) (x : ℕ)
    → x < c.regs 3 - frame_bytes rs + 4 * length rs
    → framed rs c x
      ≡ stored rs (c.regs 3 - frame_bytes rs) (put c.regs 3 (c.regs 3 - frame_bytes rs)) c.memory x
framed-stored rs c x h = ground arith
