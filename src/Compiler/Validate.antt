-- ===== src/Compiler/Validate.antt =====
-- tinypipe-compiler/src/validator.rs.
pub mod Errors
pub mod Search
pub mod Args
pub mod Branches
pub mod Pass
pub mod Ordered
pub mod Flat
