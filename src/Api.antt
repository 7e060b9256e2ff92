-- ===== src/Api.antt =====
-- tinypipe-api/src/types.rs: the values and the execution context that every other crate passes on.
pub mod Int
pub mod Value
pub mod Context
