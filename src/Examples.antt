-- ===== src/Examples.antt =====
-- A parser and a program on which the theorems are applied.
pub mod Parser
pub mod Program
pub mod Facts
pub mod Texts
pub mod Readers
pub mod Trees
pub mod Blocks
pub mod Statements
pub mod Pragmas
