-- ===== src/Tests/Compilation.antt =====
-- A plan with text ids, compiled and optimised.
use mathlib.Core.List.{Memᴰ}
use tinypipe.Prelude.{ℕ, ◌+◌, false, ◌≡◌, refl, some, [], ◌∷◌, arith, length, all-Memᴰ, get_elem?}
use tinypipe.Api.Int.{negsuc}
use tinypipe.Ir.Plan
use tinypipe.Ir.Plan.{Opcode, input, call, calc, act, data_kind}
use tinypipe.Ir.ExecutionPlan.{ExecutionPlan, ids}
use tinypipe.Ir.Compile.{from_execution_plan}
use tinypipe.Ir.Compile.Resolved.{Mirrors, from_execution_plan-Mirrors}
use tinypipe.Vm.Error.{ok, check_version_compatibility}
use tinypipe.Vm.Text.{decimal_ℤ}
use tinypipe.Vm.Loop.Kept.{IsIndexed}
use tinypipe.Vm.Run.Compiled.{from_execution_plan-IsIndexed}
use tinypipe.Compiler.Codegen.{tool_deps, fill_metadata, calls, fill_metadata-calls}
use tinypipe.Compiler.Optimize.Dead.{dead_node_elimination, joins}
use tinypipe.Compiler.Optimize.Dead.Laws.{
  IsClosed, dead_node_elimination-IsClosed, dead_node_elimination_idem,
}
use tinypipe.Compiler.Optimize.Fold.{constant_folding, eval_simple_int_expr}
use tinypipe.Compiler.Optimize.Fold.Laws.{constant_folding_idem, eval_simple_int_expr-decimal_ℤ}
use tinypipe.Ir.ExecutionPlan.{Node}
use tinypipe.Ir.Plan.{is_calc}
use tinypipe.Ir.ExecutionPlan.Order.Count.{IsDistinct}
use tinypipe.Compiler.Optimize.Fuse.{calc_fusion}
use tinypipe.Compiler.Optimize.Fuse.Laws.{calc_fusion-ends}
use tinypipe.Tests.Plans.{node, edge, arg, source, json}

folded : (constant_folding source).1 ≡ 1
unfolding constant_folding
folded = refl

removed : (dead_node_elimination source).1 ≡ 1
unfolding dead_node_elimination
removed = refl

source-IsClosed : IsClosed source
source-IsClosed e m = all-Memᴰ (joins (ids source.nodes)) source.edges e m refl

from_execution_plan-IsIndexed_example :
    IsIndexed (from_execution_plan json source [])
    × (check_version_compatibility (from_execution_plan json source []).version ≡ ok tt)
from_execution_plan-IsIndexed_example = from_execution_plan-IsIndexed json source [] (omega arith)

from_execution_plan-Mirrors_example :
    (m : Plan.Edge) × (get_elem? (from_execution_plan json source []).edges 1 ≡ some m)
    × Mirrors source (from_execution_plan json source []) (edge "b" "d") m
from_execution_plan-Mirrors_example =
    from_execution_plan-Mirrors json source [] (omega arith) 1 (edge "b" "d") refl

dead_node_elimination-IsClosed_example :
    ((dead_node_elimination source).0.edges ≡ source.edges)
    × IsClosed (dead_node_elimination source).0
    × (length (dead_node_elimination source).0.nodes + (dead_node_elimination source).1
        ≡ length source.nodes)
dead_node_elimination-IsClosed_example = dead_node_elimination-IsClosed source source-IsClosed

dead_node_elimination_idem_example :
    dead_node_elimination (dead_node_elimination source).0 ≡ ((dead_node_elimination source).0, 0)
dead_node_elimination_idem_example = dead_node_elimination_idem source source-IsClosed

constant_folding_idem_example :
    constant_folding (constant_folding source).0 ≡ constant_folding source
constant_folding_idem_example = constant_folding_idem source

eval_simple_int_expr-decimal_ℤ_example :
    eval_simple_int_expr (decimal_ℤ (negsuc 41)) ≡ some (negsuc 41)
eval_simple_int_expr-decimal_ℤ_example = eval_simple_int_expr-decimal_ℤ (negsuc 41) refl

-- a tool with a version, a tool without one, and a subgraph
abbrev calling : ExecutionPlan ℕ
calling = record source {
  nodes =
      node "p" call (arg "target" "tool:web.get@1.2" ∷ [])
      ∷ node "q" call (arg "type" "tool" ∷ arg "target" "clock" ∷ [])
      ∷ node "r" call (arg "target" "subgraph:mail" ∷ [])
      ∷ source.nodes;
}

tools_of_calling :
    tool_deps (("web.get", "ab12") ∷ []) calling.nodes
    ≡ record { name = "web.get"; version = "1.2"; pure = false; schema_hash = "ab12" }
      ∷ record { name = "clock"; version = "^0.0.0"; pure = false; schema_hash = "" }
      ∷ []
unfolding tool_deps
tools_of_calling = refl

fill_metadata-calls_example :
    length (fill_metadata "0" [] [] calling).metadata.subgraph_dependencies
      + length (fill_metadata "0" [] [] calling).metadata.tool_deps
    ≡ calls calling.nodes
fill_metadata-calls_example = fill_metadata-calls "0" [] [] calling

-- `t` is inlined where it is used
abbrev chain : ExecutionPlan ℕ
chain = record source {
  nodes =
      node "a" input (arg "name" "x" ∷ [])
      ∷ node "b" calc (arg "output" "t" ∷ arg "expr" "x + 1" ∷ [])
      ∷ node "c" calc (arg "output" "u" ∷ arg "expr" "t * t2" ∷ [])
      ∷ [];
  edges = edge "a" "b" ∷ edge "b" "c" ∷ [];
}

fused_chain :
    calc_fusion chain
    ≡ some (
      record chain {
        nodes =
            node "a" input (arg "name" "x" ∷ [])
            ∷ node "c" calc (arg "output" "u" ∷ arg "expr" "(x + 1) * t2" ∷ [])
            ∷ [];
        edges = [];
      },
      1,
    )
unfolding calc_fusion
fused_chain = refl

calc_fusion-ends_example :
    (result : ExecutionPlan ℕ) × (fused : ℕ) × (calc_fusion chain ≡ some (result, fused))
    × IsDistinct (ids result.nodes)
    × IsClosed result
    × (length result.nodes + fused ≡ length chain.nodes)
    × ((n : Node ℕ) → Memᴰ n chain.nodes → is_calc n.op ≡ false → Memᴰ n result.nodes)
calc_fusion-ends_example = calc_fusion-ends chain (refl, (refl, (refl, tt)))
