-- ===== src/Statement/Io.antt =====
-- Fortran's input and output statements.
pub mod Kinds
pub mod Names
pub mod Write
pub mod Read
pub mod Fields
pub mod Taken
pub mod Accepted
pub mod Document
pub mod Readable
pub mod RoundTrip
pub mod Losses
