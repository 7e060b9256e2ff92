-- ===== src/Vm.antt =====
-- tinypipe-vm: the interpreter of compiled plans, with pause and resume.
pub mod Error
pub mod Text
pub mod Pause
pub mod Machine
pub mod Fits
pub mod Graph
pub mod Gate
pub mod Edges
pub mod Eval
pub mod Call
pub mod Ops
pub mod Budget
pub mod Loop
pub mod Parallel
pub mod Node
pub mod Run
