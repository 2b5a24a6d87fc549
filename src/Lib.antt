-- ===== src/Lib.antt =====
-- A verification library for the compiler of C-- in this repository: the tables and trees of its
-- front end, the data-flow analyses, copy propagation and dead code elimination of its optimizer,
-- and the MIPS code of its instructions.
--
-- The program. parser.y drives everything. Its actions enter identifiers into the symbol tables
-- (symbol-table.c), build syntax trees and check their types (syntax-tree.c), and after each
-- function turn the tree into three-address instructions (code_generation.c, instruction.c), split
-- them into basic blocks (control_flow.c, block.c), optimise them (code_optimization.c) with the
-- help of liveness (liveness_analysis.c), reaching definitions (reaching_definitions_analysis.c)
-- and bit sets (set.c), colour an interference graph (graph.c, heap.c, stack.c), and print MIPS
-- code (code_translation.c).
--
-- Which file models which part:
--   Common and its children: the tests, lists as arrays, machine words, counting, and steps that
--     may abort (Option with do blocks), for all others.
--   Symbol: symtabnode of symbol-table.h and the t_ tags of global.h.
--   SymbolTable: SymTabInit, SymTabLookup, SymTabLookupAll, SymTabInsert, the temporaries and ids
--     of symbol-table.c; SymbolTable/Functions: SymTabRecordFunInfo; SymbolTable/Constants: the
--     entries of constants and the list of strings, by its head, tail and next pointers;
--     SymbolTable/Variables: the lists of variables; SymbolTable/Layout: allocate and
--     fill_local_allocations.
--   SyntaxTree: treenode and the mk functions of syntax-tree.c; SyntaxTree/Access: the st
--     accessors; SyntaxTree/Expressions: SynTreeUnExp and SynTreeBinExp; SyntaxTree/Calls:
--     ActualsMatchFormals; SyntaxTree/Body: AppendReturn.
--   Set: set.c, all of it.
--   Instruction: the data types and constructors of instruction.h and instruction.c.
--   ControlFlow: find_block_leaders and update_blocks of control_flow.c.
--   Block: block.c; Stack: stack.c; Heap: heap.c.
--   Liveness and Liveness/Loop: liveness_analysis.c.
--   ReachingDefinitions: the sets of a block of reaching_definitions_analysis.c;
--     ReachingDefinitions/Loop: the iteration over the blocks.
--   DeadCode: the marking of a block in remove_dead_instructions of code_optimization.c;
--     DeadCode/Loop: the run over the blocks and do_dead_code_elimination.
--   CopyPropagation: do_copy_propagation of code_optimization.c.
--   Machine: what instructions do when they run, the independent description for DeadCode and
--     CopyPropagation; DeadCode/Loop/Paths: running the blocks of a function along the control
--     flow.
--   Translation: code_translation.c, what it prints for an instruction, with Translation/Frame
--     (sizes and offsets), Translation/Calls (prologue, call, return), Translation/Instructions
--     (the dispatch) and Translation/Program (data segment and functions).
--   Mips: what the printed lines do when they run, the independent description for Translation.
--   Tests: runs on small inputs, and the theorems at inputs that meet their premises.
--
-- How state is modelled. The static variables of a file are the fields of one record that
-- operations take and return. Entries, blocks and labels are addresses; entries are read through a
-- store of type ℕ → Symbol. A set's mask and a tree's last cell are changed in place by the code:
-- here the operation returns the changed value, which is the same as long as no other owner sees
-- the change, and the modelled callers change only sets and lists that they have just made.
-- Buckets, formals and lists of variables are the lists of the nodes that their next pointers lead
-- through; the list of strings keeps its pointers. `none` stands for an abort, or a read or write
-- through a null pointer or of a union member that was not written. An access out of a mask's
-- bounds reads 0 and writes nothing; the theorems on sets assume well-formed sets and, where an
-- element is added or removed, an element in range, for which no such access happens.
--
-- Numbers. Words of a mask are natural numbers below 2 ^ 32, and complement and shift are taken on
-- 32 bits. Counters, sizes and byte sums are natural numbers: they do not reach 2 ^ 31 on programs
-- that fit into memory. The value of a constant is a natural number: a literal has no sign, and
-- one of 2 ^ 31 or more, for which atoi overflows, and a character above 127, which is negative
-- where char is signed, are outside the model, as is an array of 2 ^ 29 elements or more, whose
-- size in bytes overflows.
--
-- Fuel. find_in_and_out and find_in_and_out_def_sets take fuel for `while (!converged)`. Each
-- round that does not converge adds a member to a set, so for the first twice the number of
-- variables times the number of blocks, and for the second the number of definitions times the
-- number of blocks, and one more, is enough. do_dead_code_elimination takes fuel for `while
-- (any_change)`: each round that changes something marks an instruction, so the number of unmarked
-- instructions, and one more, is enough. The digits of a number have the number itself as fuel,
-- and heapify has the size, since its index grows with each call. The loop over the registers of
-- live variables (each_live) has the size of the set and one more, since each turn looks at a
-- higher id, and clear_loop of CopyPropagation has the length of its list. All other recursions
-- are on lists, trees or counters.
--
-- Not modelled: the lexer and the parser's grammar, the texts of messages and all printing, which
-- are input and output; code_generation.c, the dominators of control_flow.c, the peephole
-- optimisation and colouring of code_optimization.c with graph.c, which call on what is modelled
-- here; the text of println, of the entry point and of the comments in code_translation.c; the
-- fields of a tree node for generated code. What an instruction computes from values is a
-- parameter of Machine, and what an arithmetic line of MIPS computes is one of Mips; the theorems
-- that need it name what they ask of it. clear_def_and_use_sets, clear_gen_and_kill_sets and
-- clear_definitions_in_block only assign an uninitialised set and are left out.
pub mod Common
pub mod Symbol
pub mod SymbolTable
pub mod SyntaxTree
pub mod Set
pub mod Instruction
pub mod Block
pub mod Stack
pub mod Heap
pub mod Liveness
pub mod ReachingDefinitions
pub mod DeadCode
pub mod Machine
pub mod ControlFlow
pub mod CopyPropagation
pub mod Mips
pub mod Translation
pub mod Tests
