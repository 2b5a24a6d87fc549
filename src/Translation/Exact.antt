-- ===== src/Translation/Exact.antt =====
-- code_translation.c: the code of the instructions that compute an integer, run on the machine.
use csc.Common.{
  ℕ, Bool, true, false, Option, none, some, List, ◌∷◌, ◌++◌, ◌==◌, ◌>>=◌, ◌≡◌, refl, sym, ap, ap₂,
  ◌∙◌, arith, Bool-cases, ==→eq, inl, inr,
}
use mathlib.Core.List.{append-nil}
use csc.Symbol.{Symbols}
use csc.Set.{Set}
use csc.Instruction.{Inode, InstructionType, OpType, create_instruction, create_expr_instruction}
use csc.Translation.Program.{print_one}
use csc.Mips.{number, Op, Assembly, Cpu, put, step, run, run-append}
use csc.Translation.{
  Allocation, get_register_name, find_register, get_mem_op_type, get_operation_name,
  load_from_memory, store_at_memory, fetch,
}
use csc.Translation.Instructions.{
  put_result, assign_load, assign_store, print_assign, print_uminus, print_binary_arithmetic,
}
use csc.Translation.Homes.{value, IsInt, run-fetch, run-load}
use csc.Translation.Scalars.{
  in_memory, val, put_reg, cell, reg, scratch, own_register, same_home, val-register, val-fetched,
  finished, put-hit, val-memory_put, other_cell, run-put_result, val-finished, val-apart,
  same_home-put_reg, both_fetched,
}

module _ (asm : Assembly) (syms : Symbols) (alloc : Allocation) where
  module _ (i : Inode) (c : Cpu) (a d w : ℕ) (int_a : IsInt asm syms alloc a)
      (int_d : IsInt asm syms alloc d) (var : (syms d).is_constant ≡ false)
      (apart : same_home asm syms alloc c w d ≡ false) (source : i.src1 ≡ some a)
      (destination : i.dest ≡ some d) where
    abbrev runs : Option (List Op) → Cpu → Option Cpu
    runs m s = m >>= λ ops. run asm ops s

    -- The code runs, `d` has the value `x` afterwards, and `w` its old one.
    abbrev Sets : Option (List Op) → ℕ → Type 0
    Sets m x =
        (e : Cpu) × (runs m c ≡ some e)
        × (val asm syms alloc e d ≡ x)
        × (val asm syms alloc e w ≡ val asm syms alloc c w)

    -- Both operands in their registers.
    abbrev fetched : ℕ → Cpu
    fetched b =
        put_reg asm syms alloc
          (put_reg asm syms alloc c (reg asm syms alloc a 0) (val asm syms alloc c a))
          (reg asm syms alloc b 1) (val asm syms alloc c b)

    abbrev computed : ℕ → ℕ
    computed b =
        asm.compute (get_operation_name i.type) (val asm syms alloc c a) (val asm syms alloc c b)

    uminus-Sets : Sets (print_uminus syms alloc i) (asm.negated (val asm syms alloc c a))
    unfolding print_uminus run step
    uminus-Sets = (
      finished asm syms alloc
          (put_reg asm syms alloc c (reg asm syms alloc a 0) (val asm syms alloc c a)) d
          (asm.negated (val asm syms alloc c a)),
      rw
          (
            source,
            destination,
            run-append asm (fetch syms alloc a (reg asm syms alloc a 0)),
            run-fetch asm syms alloc a 0 c int_a,
            put-hit asm syms alloc,
          )
          (run-put_result asm syms alloc
            (put_reg asm syms alloc c (reg asm syms alloc a 0) (val asm syms alloc c a)) d
            (asm.negated (val asm syms alloc c a)) int_d),
      val-finished asm syms alloc _ d _ var,
      val-apart asm syms alloc
            (put_reg asm syms alloc c (reg asm syms alloc a 0) (val asm syms alloc c a)) d _ w
            (same_home-put_reg asm syms alloc c _ _ w d ∙ apart)
          ∙ val-fetched asm syms alloc c a 0 w (omega arith),
    )

    binary_runs :
        (b : ℕ)
        → run asm
            (Op.binary
                (get_operation_name i.type)
                (reg asm syms alloc d 0)
                (reg asm syms alloc a 0)
                (reg asm syms alloc b 1)
              ∷ put_result syms alloc d (reg asm syms alloc d 0))
            (fetched b)
          ≡ some (finished asm syms alloc (fetched b) d (computed b))
    unfolding run step
    binary_runs b =
        ap₂
          (λ x y. run asm (put_result syms alloc d (reg asm syms alloc d 0)) (
            put_reg asm syms alloc (fetched b) (reg asm syms alloc d 0)
              (asm.compute (get_operation_name i.type) x y)))
          (both_fetched asm syms alloc c a b)
          (put-hit asm syms alloc
            (put c.regs (number (reg asm syms alloc a 0)) (val asm syms alloc c a))
            (number (reg asm syms alloc b 1)) (val asm syms alloc c b))
        ∙ run-put_result asm syms alloc (fetched b) d (computed b) int_d

    binary_keeps :
        (b : ℕ)
        → val asm syms alloc (finished asm syms alloc (fetched b) d (computed b)) w
          ≡ val asm syms alloc c w
    binary_keeps b =
        val-apart asm syms alloc (fetched b) d _ w (
          same_home-put_reg asm syms alloc
            (put_reg asm syms alloc c (reg asm syms alloc a 0) (val asm syms alloc c a)) _ _ w d
          ∙ same_home-put_reg asm syms alloc c _ _ w d
          ∙ apart)
        ∙ ap
            (λ x.
              val asm syms alloc
                (put_reg asm syms alloc
                  (put_reg asm syms alloc c (reg asm syms alloc a 0) (val asm syms alloc c a))
                  (reg asm syms alloc b 1) x)
                w)
            (sym (val-fetched asm syms alloc c a 0 b (omega arith)))
        ∙ val-fetched asm syms alloc
            (put_reg asm syms alloc c (reg asm syms alloc a 0) (val asm syms alloc c a)) b 1 w
            (omega arith)
        ∙ val-fetched asm syms alloc c a 0 w (omega arith)

    binary-Sets :
        (b : ℕ)
        → IsInt asm syms alloc b
        → i.src2 ≡ some b
        → Sets (print_binary_arithmetic syms alloc i) (computed b)
    unfolding print_binary_arithmetic
    binary-Sets b int_b second = (
      finished asm syms alloc (fetched b) d (computed b),
      rw
          (
            source,
            second,
            destination,
            run-append asm (fetch syms alloc a (reg asm syms alloc a 0)),
            run-fetch asm syms alloc a 0 c int_a,
            run-append asm (fetch syms alloc b (reg asm syms alloc b 1)),
            run-fetch asm syms alloc b 1
                (put_reg asm syms alloc c (reg asm syms alloc a 0) (val asm syms alloc c a)) int_b,
            val-fetched asm syms alloc c a 0 b (omega arith),
          )
          (binary_runs b),
      val-finished asm syms alloc (fetched b) d (computed b) var,
      binary_keeps b,
    )

    -- The lines run, and set `d` and keep `w`.
    abbrev LinesSet : List Op → Type 0
    LinesSet ops =
        (e : Cpu) × (run asm ops c ≡ some e)
        × (val asm syms alloc e d ≡ val asm syms alloc c a)
        × (val asm syms alloc e w ≡ val asm syms alloc c w)

    abbrev assign_lines : List Op
    assign_lines = assign_load syms alloc a d ++ assign_store syms alloc a d

    finished_sets :
        (ops : List Op)
        → run asm ops c ≡ some (finished asm syms alloc c d (val asm syms alloc c a))
        → LinesSet ops
    finished_sets ops h = (
      finished asm syms alloc c d (val asm syms alloc c a),
      h,
      val-finished asm syms alloc c d (val asm syms alloc c a) var,
      val-apart asm syms alloc c d (val asm syms alloc c a) w apart,
    )

    memory_to_memory :
        in_memory asm syms alloc a ≡ true
        → in_memory asm syms alloc d ≡ true
        → LinesSet assign_lines
    unfolding assign_load assign_store store_at_memory get_mem_op_type run step
    memory_to_memory p q = finished_sets assign_lines (
        rw (p, q, int_d.word)
          (rw
            (
              scratch asm syms alloc a 0 p,
              scratch asm syms alloc d 0 q,
              run-append asm (load_from_memory syms a (get_register_name 0) (syms a).type),
              run-load asm syms alloc a (get_register_name 0) c int_a p,
              put-hit asm syms alloc,
            )
            refl))

    memory_to_register :
        in_memory asm syms alloc a ≡ true
        → in_memory asm syms alloc d ≡ false
        → LinesSet assign_lines
    unfolding assign_load assign_store store_at_memory get_mem_op_type run step
    memory_to_register p q = finished_sets assign_lines (
        rw (p, q, int_d.word)
          (rw (append-nil, append-nil)
            (run-load asm syms alloc a (reg asm syms alloc d 0) c int_a p)))

    register_to_memory :
        in_memory asm syms alloc a ≡ false
        → in_memory asm syms alloc d ≡ true
        → LinesSet assign_lines
    unfolding assign_load assign_store store_at_memory get_mem_op_type run step
    register_to_memory p q = (
      record c { memory = put c.memory (cell asm syms alloc c d) (val asm syms alloc c a) },
      rw (p, q, int_d.word, val-register asm syms alloc c a p, own_register asm syms alloc a 0 p)
          refl,
      unfold value in
          rw (q, var)
            (put-hit asm syms alloc c.memory (cell asm syms alloc c d) (val asm syms alloc c a)),
      val-memory_put asm syms alloc c (cell asm syms alloc c d) (val asm syms alloc c a) w
          (λ m. other_cell asm syms alloc c d (val asm syms alloc c a) w q m apart),
    )

    register_to_register :
        in_memory asm syms alloc a ≡ false
        → in_memory asm syms alloc d ≡ false
        → LinesSet assign_lines
    unfolding assign_load assign_store store_at_memory get_mem_op_type run step
    register_to_register p q =
        elim (Bool-cases (find_register alloc a 0 == find_register alloc d 0)) [
          | inl e ↦ (
            c,
            rw (p, q, int_d.word, e) refl,
            val-register asm syms alloc c d q
                ∙ ap (λ n. c.regs (number (get_register_name n))) (sym (==→eq _ _ e))
                ∙ sym (val-register asm syms alloc c a p),
            refl,
          )
          | inr e ↦
              finished_sets assign_lines
                (rw (p, q, int_d.word, e, val-register asm syms alloc c a p) refl)
        ]

    assign-Sets : Sets (print_assign syms alloc i) (val asm syms alloc c a)
    unfolding print_assign
    assign-Sets =
        rw (source, destination)
          (elim (Bool-cases (in_memory asm syms alloc a)) [
            | inl p ↦ elim (Bool-cases (in_memory asm syms alloc d)) [
              | inl q ↦ memory_to_memory p q
              | inr q ↦ memory_to_register p q
            ]
            | inr p ↦ elim (Bool-cases (in_memory asm syms alloc d)) [
              | inl q ↦ register_to_memory p q
              | inr q ↦ register_to_register p q
            ]
          ])

-- An instruction that computes an integer, as code generation makes it.
module _ (asm : Assembly) (syms : Symbols) (alloc : Allocation) (after_global : Bool)
    (live_at_call : Set) (c : Cpu) (d w : ℕ) where
  -- The code of `i` runs, `d` has the value `x` afterwards, and `w` its old one.
  abbrev pub Assigns : Inode → ℕ → Type 0
  Assigns i x =
      (e : Cpu) × ((print_one syms alloc after_global i live_at_call >>= λ ops. run asm ops c)
        ≡ some e)
      × (value asm syms alloc e d ≡ x)
      × (value asm syms alloc e w ≡ value asm syms alloc c w)

  -- For integers `a`, `b` and `d` and a variable `w` that shares neither cell nor register with
  -- `d`, where `d` is no constant: the code printed for an assignment of `a` to `d` gives `d` the
  -- value of `a`, that for a unary minus the negated value, and that for an arithmetic operation
  -- the result of the operation on the values of `a` and `b`; all keep the value of `w`. That
  -- holds wherever register allocation put the variables.
  pub translated_exact :
      (type : InstructionType) (a b : ℕ)
      → IsInt asm syms alloc a
      → IsInt asm syms alloc b
      → IsInt asm syms alloc d
      → (syms d).is_constant ≡ false
      → same_home asm syms alloc c w d ≡ false
      → Assigns (create_instruction OpType.assign (some a) none (some d)) (value asm syms alloc c a)
        × Assigns
            (create_instruction OpType.uminus (some a) none (some d))
            (asm.negated (value asm syms alloc c a))
        × Assigns
            (create_expr_instruction OpType.binary_arithmetic (some a) (some b) (some d) type)
            (asm.compute
              (get_operation_name type)
              (value asm syms alloc c a)
              (value asm syms alloc c b))
  unfolding print_one create_instruction create_expr_instruction
  translated_exact type a b int_a int_b int_d var apart = (
    assign-Sets asm syms alloc (create_instruction OpType.assign (some a) none (some d)) c a d w
        int_a int_d var apart refl refl,
    uminus-Sets asm syms alloc (create_instruction OpType.uminus (some a) none (some d)) c a d w
        int_a int_d var apart refl refl,
    binary-Sets asm syms alloc
        (create_expr_instruction OpType.binary_arithmetic (some a) (some b) (some d) type) c a d w
        int_a int_d var apart refl refl b int_b refl,
  )
