-- ===== src/Ir/Compile/Resolved.antt =====
-- How `CompiledPlan::from_execution_plan` of tinypipe-ir/src/compiled.rs resolves the ends of an edge.
use tinypipe.Prelude.{
  ℕ, ◌≤◌, ◌^◌, String, ◌≡◌, refl, ap, ◌∙◌, subst, true, false, Option, none, some, List, [], ◌∷◌,
  zero, suc, length, get_elem?, get_elem?-lt, get_elem?-map, arith, has, str_eq_refl, get_name,
  unwrap_or, str_eq,
}
use mathlib.Core.Option.{some-injective}
use tinypipe.Ir.Plan
use tinypipe.Ir.Plan.{Plan, get_node}
use tinypipe.Ir.ExecutionPlan.{ExecutionPlan, Node, Edge, ArgValue, ids}
use tinypipe.Ir.Compile.{u32_max, compile_nodes, index_ids, compile_edge, from_execution_plan}
use tinypipe.Ir.Compile.Nodes.{some-compile_nodes, Found, node_at, unknown, index_ids-Found}

-- An id of the plan is the index of a compiled node with that id; another is `u32::MAX`.
pub record Resolves {F : Type 0} (plan : ExecutionPlan F) (c : Plan) (id : String) (index : ℕ)
    : Type 0 where
  pub known :
      has (ids plan.nodes) id ≡ true → (n : Plan.Node) × (get_node c index ≡ some n) × (n.id ≡ id)
  pub missing : has (ids plan.nodes) id ≡ false → index ≡ u32_max

-- A compiled edge leads between the nodes that the edge names, under the same condition and kind.
pub record Mirrors {F : Type 0} (plan : ExecutionPlan F) (c : Plan) (e : Edge) (m : Plan.Edge)
    : Type 0 where
  pub source : Resolves plan c e.from m.from_index
  pub target : Resolves plan c e.to m.to_index
  pub condition : m.condition ≡ e.condition
  pub kind : m.kind ≡ e.kind

module _ {F : Type 0} (json : ArgValue F → String) (plan : ExecutionPlan F)
    (optimizations : List String) (small : length plan.nodes ≤ 2 ^ 32) where
  has-at :
      (ns : List (Node F)) (i : ℕ) (n : Node F) → get_elem? ns i ≡ some n → has (ids ns) n.id ≡ true
  has-at [] i n h = cc
  has-at (m ∷ ns) zero n h =
      ground (arith, str_eq_refl n.id, ap (λ (a : Node F). str_eq a.id n.id) (some-injective _ _ h))
  has-at (m ∷ ns) (suc i) n h = ground (arith, has-at ns i n h)

  Found-Resolves :
      (id : String) (now : Option ℕ)
      → Found id 0 plan.nodes none now
      → Resolves plan (from_execution_plan json plan optimizations) id (unwrap_or now u32_max)
  unfolding from_execution_plan
  Found-Resolves id now (unknown u) = record {
    known = λ k. absurd (ground (arith, k, u));
    missing = λ k. refl;
  }
  Found-Resolves id now (node_at i n at same) =
      let lt = get_elem?-lt plan.nodes i n at in
      let (c, found, name) = some-compile_nodes json 0 i [] plan.nodes n at in
      record {
        known = λ k. (
          c,
          subst (λ j. get_elem? (compile_nodes json 0 [] plan.nodes) j ≡ some c) (omega arith)
              found,
          name ∙ same,
        );
        missing = λ k. absurd (
            ground (
              arith,
              k,
              subst (λ t. has (ids plan.nodes) t ≡ true) same (has-at plan.nodes i n at),
            ));
      }

  pub endpoint :
      (id : String)
      → Resolves plan
          (from_execution_plan json plan optimizations)
          id
          (unwrap_or (get_name id (index_ids 0 plan.nodes [])) u32_max)
  endpoint id = Found-Resolves id _ (index_ids-Found 0 plan.nodes [] id)

  -- In a plan of at most 2 ^ 32 nodes, each edge is compiled at its position, keeps its condition and
  -- kind, and an end of it that is the id of a node becomes the index of a compiled node with this id,
  -- also when several nodes have the id; an end that is no node's id becomes u32::MAX.
  pub from_execution_plan-Mirrors :
      (k : ℕ) (e : Edge)
      → get_elem? plan.edges k ≡ some e
      → (m : Plan.Edge) × (get_elem? (from_execution_plan json plan optimizations).edges k ≡ some m)
        × Mirrors plan (from_execution_plan json plan optimizations) e m
  unfolding from_execution_plan compile_edge
  from_execution_plan-Mirrors k e at = (
    compile_edge (index_ids 0 plan.nodes []) e,
    get_elem?-map (compile_edge (index_ids 0 plan.nodes [])) plan.edges k e at,
    record { source = endpoint e.from; target = endpoint e.to; condition = refl; kind = refl },
  )
