-- ===== src/Compiler/Validate/Ordered.antt =====
-- A plan that tinypipe-compiler/src/validator.rs accepts and that codegen can order is ordered by
-- `topological_order` of tinypipe-vm/src/compiled_executor.rs too.
use mathlib.Core.List.{Memᴰ}
use mathlib.Core.List.Memᴰ
use tinypipe.Prelude.{
  ℕ, ◌<◌, ◌≤◌, ◌^◌, ◌≡◌, refl, sym, ap, suc, ◌∙◌, String, none, some, List, [], ◌∷◌, map, length,
  get_elem?-lt, arith, inl, inr,
}
use tinypipe.Ir.Plan
use tinypipe.Ir.Plan.{Plan, get_node}
use tinypipe.Ir.ExecutionPlan.{ExecutionPlan, Node, ArgValue, ids}
use tinypipe.Ir.ExecutionPlan.Order.{sorted, topological_order}
use tinypipe.Ir.ExecutionPlan.Order.Sorted.{IsAcyclic}
use tinypipe.Ir.ExecutionPlan.Order.Decides.{cycle-ne-sorted, topological_order-decides}
use tinypipe.Ir.Compile.{from_execution_plan, compile_edge, index_ids}
use tinypipe.Ir.Compile.Nodes.{length-compile_nodes}
use tinypipe.Ir.Compile.Resolved.{endpoint}
use tinypipe.Vm.Error.{ok}
use tinypipe.Vm.Graph
use tinypipe.Vm.Graph.Sorted.{IsRanked, topological_order_complete}
use tinypipe.Compiler.Optimize.Dead.Laws.{IsClosed}
use tinypipe.Compiler.Validate.Errors.{accepted}
use tinypipe.Compiler.Validate.Pass.{validate}
use tinypipe.Compiler.Validate.Pass.Accepts.{validate_iff}

Memᴰ-map {ℓ κ} :
    {A : Type ℓ} {B : Type κ} (f : A → B) (xs : List A) (b : B)
    → Memᴰ b (map f xs)
    → (a : A) × Memᴰ a xs × (b ≡ f a)
Memᴰ-map f [] b m = absurd (Memᴰ.not-nil m)
Memᴰ-map f (x ∷ xs) b (Memᴰ.head e) = (x, Memᴰ.head refl, e)
Memᴰ-map f (x ∷ xs) b (Memᴰ.tail m) = let r = Memᴰ-map f xs b m in (r.0, Memᴰ.tail r.1, r.2)

length-map {ℓ κ} :
    {A : Type ℓ} {B : Type κ} (f : A → B) (xs : List A) → length (map f xs) ≡ length xs
length-map f [] = refl
length-map f (x ∷ xs) = ap suc (length-map f xs)

-- the id of the node at an index
id_at : Plan → ℕ → String
id_at c i = elim (get_node c i) [ none ↦ "" | some n ↦ n.id ]

module _ {F : Type 0} (json : ArgValue F → String) (plan : ExecutionPlan F)
    (optimizations : List String) (small : length plan.nodes ≤ 2 ^ 32)
    (closed : IsClosed plan) where
  abbrev c : Plan
  c = from_execution_plan json plan optimizations

  length-nodes : length c.nodes ≡ length plan.nodes
  unfolding from_execution_plan
  length-nodes = length-compile_nodes json 0 [] plan.nodes

  length-edges : length c.edges ≡ length plan.edges
  unfolding from_execution_plan
  length-edges = length-map (compile_edge (index_ids 0 plan.nodes [])) plan.edges

  resolved :
      (id : String) (i : ℕ)
      → (n : Plan.Node) × (get_node c i ≡ some n) × (n.id ≡ id)
      → (i < length c.nodes) × (id_at c i ≡ id)
  unfolding id_at
  resolved id i (n, at, same) = (get_elem?-lt c.nodes i n at, rw (id_at, at) same)

  compiled-IsRanked :
      (acyclic : IsAcyclic (ids plan.nodes) plan.edges) → IsRanked (λ i. acyclic.0 (id_at c i)) c
  unfolding from_execution_plan compile_edge
  compiled-IsRanked acyclic m mem lt =
      let (e, there, same) = Memᴰ-map (compile_edge (index_ids 0 plan.nodes [])) plan.edges m mem in
      let joined = closed e there in
      let from =
        resolved e.from _
          ((endpoint json plan optimizations small e.from).known (ground (arith, joined))) in
      let to =
        resolved e.to _
          ((endpoint json plan optimizations small e.to).known (ground (arith, joined))) in
      rw same (from.0, rw (from.1, to.1) (acyclic.1 e there (ground (arith, joined))).1)

-- Of a plan with fewer than 2 ^ 32 nodes and fewer than 2 ^ 32 edges that validate accepts and that
-- ExecutionPlan::topological_order, the order of codegen, orders, the VM orders the compiled form: the run
-- cannot fail with a cycle error.
pub validate-topological_order :
    {F : Type 0} (json : ArgValue F → String) (plan : ExecutionPlan F) (optimizations : List String)
    (order : List (Node F))
    → length plan.nodes < 2 ^ 32
    → length plan.edges < 2 ^ 32
    → validate plan ≡ accepted
    → topological_order plan ≡ sorted order
    → (indices : List ℕ) × (Graph.topological_order (from_execution_plan json plan optimizations)
        ≡ ok indices)
validate-topological_order json plan optimizations order few_nodes few_edges valid run =
    let bound : length plan.edges < 2 ^ 63 = omega (arith, few_edges) in
    let small : length plan.nodes ≤ 2 ^ 32 = omega (arith, few_nodes) in
    let v = (validate_iff plan bound).0 valid in
    elim (topological_order-decides plan v.distinct bound) [
      | inl (o, _, _, acyclic) ↦
          topological_order_complete (from_execution_plan json plan optimizations) _
            (rw (length-nodes json plan optimizations small v.closed) few_nodes)
            (rw (length-edges json plan optimizations small v.closed) few_edges)
            (compiled-IsRanked json plan optimizations small v.closed acyclic)
      | inr (cyclic, _) ↦ absurd (cycle-ne-sorted (sym cyclic ∙ run))
    ]
