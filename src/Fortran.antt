-- ===== src/Fortran.antt =====
-- Directives in the comments of a Fortran program (src/preproc.cpp).
pub mod Search
pub mod Pragma
pub mod Pieces
pub mod Joined
pub mod Faults
