-- ===== src/Ast.antt =====
-- The syntax tree.
pub mod Kinds
pub mod Names
pub mod NameSearch
pub mod Node
