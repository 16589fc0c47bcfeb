-- ===== src/Read.antt =====
-- src/xml2rose.cpp: `XevXmlVisitor`, which builds a tree from XML.
pub mod Monad
pub mod Slots
pub mod Symbols
pub mod Values
pub mod Operands
pub mod Expressions
pub mod Visit
pub mod Losses
