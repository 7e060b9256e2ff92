-- ===== src/Compiler/Optimize.antt =====
-- The passes of tinypipe-compiler/src/backend/optimize.rs.
pub mod Dead
pub mod Fold
pub mod Fuse
