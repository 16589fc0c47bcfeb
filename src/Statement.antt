-- ===== src/Statement.antt =====
-- Statements (src/stmt.cpp).
pub mod Io
pub mod Node
pub mod Write
pub mod Text
pub mod Visitors
pub mod HeadReaders
pub mod Read
pub mod Lookup
pub mod Heads
pub mod Labels
pub mod HeadReads
pub mod Children
pub mod Readable
pub mod Names
pub mod Markup
pub mod Tree
pub mod Traversal
pub mod Scopes
