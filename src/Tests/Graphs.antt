-- ===== src/Tests/Graphs.antt =====
-- Reachability and the topological order of a small graph.
use tinypipe.Prelude.{
  ℕ, ◌≡◌, ◌↔◌, ◌⊎◌, refl, true, Bool, ◌&&◌, all-Memᴰ, contains, [], ◌∷◌, List, arith, ltb,
}
use tinypipe.Ir.Plan.{Edge}
use tinypipe.Vm.Error.{ok, err, cycle_detected}
use tinypipe.Vm.Graph.{collect_reachable_indices, topological_order}
use tinypipe.Vm.Graph.Reach.{Reaches}
use tinypipe.Vm.Graph.Complete.{collect_iff}
use tinypipe.Vm.Graph.Sorted.{
  IsTopological, IsRanked, topological_order-IsTopological, topological_order-ends,
  topological_order_complete,
}
use tinypipe.Tests.{plan}

collect_iff_example :
    (contains (collect_reachable_indices plan.edges (1 ∷ [])) 4 ≡ true)
    ↔ Reaches plan.edges (1 ∷ []) 4
collect_iff_example = collect_iff plan.edges (1 ∷ []) 4

order_of_plan : topological_order plan ≡ ok (0 ∷ 1 ∷ 2 ∷ 4 ∷ 3 ∷ [])
unfolding topological_order
order_of_plan = refl

topological_order-IsTopological_example : IsTopological plan (0 ∷ 1 ∷ 2 ∷ 4 ∷ 3 ∷ [])
topological_order-IsTopological_example =
    topological_order-IsTopological plan (0 ∷ 1 ∷ 2 ∷ 4 ∷ 3 ∷ []) (omega arith) (omega arith)
      order_of_plan

topological_order-ends_example :
    ((order : List ℕ) × (topological_order plan ≡ ok order))
    ⊎ (topological_order plan ≡ err cycle_detected)
topological_order-ends_example = topological_order-ends plan (omega arith) (omega arith)

edge_ranked : Edge → Bool
edge_ranked e = ltb e.from_index 5 && ltb e.from_index e.to_index

plan-IsRanked : IsRanked (λ i. i) plan
unfolding edge_ranked
plan-IsRanked e m lt = ground (arith, all-Memᴰ edge_ranked plan.edges e m refl, lt)

topological_order_complete_example : (order : List ℕ) × (topological_order plan ≡ ok order)
topological_order_complete_example =
    topological_order_complete plan (λ i. i) (omega arith) (omega arith) plan-IsRanked
