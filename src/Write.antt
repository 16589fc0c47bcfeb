-- ===== src/Write.antt =====
-- src/rose2xml.cpp: `XevSageVisitor`, which writes a tree as XML.
pub mod Attributes
pub mod Visit
pub mod Document
pub mod WellFormed
pub mod Directives
