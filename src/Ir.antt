-- ===== src/Ir.antt =====
-- tinypipe-ir: the plan with text ids that the compiler works on, the compiled plan that the VM runs, and
-- the step from one to the other.
pub mod Plan
pub mod ExecutionPlan
pub mod Compile
pub mod EnvDeps
