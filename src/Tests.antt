-- ===== src/Tests.antt =====
-- Runs of the modelled code on small inputs, and the theorems at inputs that meet their premises.
mod Trees
mod Heaps
mod Functions
mod Tables
mod Definitions
mod Elimination
mod Flow
mod Sets
mod Blocks
mod Translated
mod Copies
