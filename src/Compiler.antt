-- ===== src/Compiler.antt =====
-- tinypipe-compiler: the back end.
pub mod Text
pub mod Quotes
pub mod Types
pub mod Optimize
pub mod Codegen
pub mod Validate
