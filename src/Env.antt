-- ===== src/Env.antt =====
-- tinypipe-env.
pub mod Layers
pub mod Template
pub mod Dotenv
