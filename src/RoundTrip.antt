-- ===== src/RoundTrip.antt =====
-- Reading back what was written.
pub mod Text
pub mod Attributes
pub mod Literals
pub mod Comments
pub mod Children
pub mod Fits
pub mod Operands
pub mod Classes
pub mod Symbols
pub mod Initializers
pub mod Assembler
pub mod Readable
pub mod Reread
pub mod Inside
pub mod Element
pub mod Nodes
pub mod Members
pub mod Trees
