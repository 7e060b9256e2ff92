-- ===== src/Vm/Run/Compiled.antt =====
-- The VM's demands on a plan, met by `CompiledPlan::from_execution_plan` of tinypipe-ir/src/compiled.rs:
-- the version check of tinypipe-vm/src/error.rs, and nodes that stand where their index says.
use tinypipe.Prelude.{◌≤◌, ◌^◌, String, ◌≡◌, refl, ◌∙◌, List, [], length, arith}
use tinypipe.Ir.ExecutionPlan.{ExecutionPlan, ArgValue}
use tinypipe.Ir.Compile.{from_execution_plan}
use tinypipe.Ir.Compile.Nodes.{get-compile_nodes}
use tinypipe.Vm.Error.{ok, check_version_compatibility}
use tinypipe.Vm.Loop.Kept.{IsIndexed}

-- In the compiled form of a plan of at most 2 ^ 32 nodes each node stands at the position that its
-- index names, and the version of the compiled form passes the VM's check.
pub from_execution_plan-IsIndexed :
    {F : Type 0} (json : ArgValue F → String) (plan : ExecutionPlan F) (optimizations : List String)
    → length plan.nodes ≤ 2 ^ 32
    → IsIndexed (from_execution_plan json plan optimizations)
      × (check_version_compatibility (from_execution_plan json plan optimizations).version ≡ ok tt)
unfolding from_execution_plan check_version_compatibility
from_execution_plan-IsIndexed json plan optimizations small = (
  λ i c at.
      let (n, here, id, op, index, lt) = get-compile_nodes json 0 i [] plan.nodes c at in
      index ∙ omega (arith, lt, small),
  refl,
)
